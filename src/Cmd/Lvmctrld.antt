-- ===== src/Cmd/Lvmctrld.antt =====
-- The start of the LVM control daemon (cmd/lvmctrld/main.go). net.ParseIP is a parameter.
use csi_sanlock_lvm.Base.{
  ℕ, [], ◌∷◌, ◌+◌, ◌-◌, ◌*◌, ◌%◌, ◌^◌, Bytes, drop, length, Bool, true, false, not, ◌==◌, ltb,
  if◌then◌else◌, Option, none, some, Result, ok, err, unknown,
}
use csi_sanlock_lvm.Base.Exec.{Exec, pure, lift, check, ◌>>=◌, ◌>>◌}
use csi_sanlock_lvm.Lvmctrld.Listener.{Listener, new_listener, init}
use csi_sanlock_lvm.Lvmctrld.Start.{System, start_lock}

-- A text that is not given is empty, and an id that is not given is 0.
pub record Flags : Type 0 where
  pub no_lock : Bool
  pub lock_addr : Bytes
  pub lock_id : ℕ
  pub sanlock_args : Bytes
  pub lvmlockd_args : Bytes
  pub listen : Bytes

-- `==` on Booleans.
abbrev pub same : Bool → Bool → Bool
same true b = b
same false b = not b

abbrev pub is_given : Bytes → Bool
is_given [] = false
is_given (b ∷ s) = true

unfoldable pub is_invalid : Flags → Bool
is_invalid flags =
    same (same flags.no_lock (not (flags.lock_id == 0)))
      (same (not (flags.lock_id == 0)) (is_given flags.lock_addr))

-- binary.BigEndian.Uint32.
unfoldable pub big_endian_uint32 : Bytes → ℕ
big_endian_uint32 (a ∷ b ∷ c ∷ d ∷ s) = 16777216 * a + 65536 * b + 256 * c + d
big_endian_uint32 _ = 0

module _ (parse_ip : Bytes → Option Bytes) where
  -- The low eleven bits of an address.
  unfoldable pub address_to_host_id : Bytes → Result ℕ
  unfolding big_endian_uint32
  address_to_host_id ip = elim (parse_ip ip) [
    | none ↦ err unknown
    | some address ↦
        ok ((big_endian_uint32 (drop (length address - 4) address) % 2048 % 1999 + 1) % 2 ^ 16)
  ]

  unfoldable pub parse_host_id : ℕ → Bytes → Result ℕ
  unfolding address_to_host_id
  parse_host_id host_id host_addr =
      if not (host_id == 0)
      then (if ltb 2000 host_id then err unknown else ok (host_id % 2 ^ 16))
      else elim (address_to_host_id host_addr) [ err _ ↦ err unknown | ok id ↦ ok id ]

  module _ {W : Type 0} (system : System W) where
    -- The id of this host, with the lock started if it is needed.
    unfoldable pub host_id_of : Flags → Exec W ℕ
    unfolding parse_host_id
    host_id_of flags = if flags.no_lock then pure 1 else (do
      id ← lift (parse_host_id flags.lock_id flags.lock_addr)
      start_lock system id flags.sanlock_args flags.lvmlockd_args
      pure id)

    unfoldable pub bootstrap : Flags → Exec W Listener
    unfolding is_invalid
    bootstrap flags = do
      check (not (is_invalid flags)) unknown
      id ← host_id_of flags
      listener ← lift (new_listener flags.listen id)
      lift (init listener)
      pure listener
