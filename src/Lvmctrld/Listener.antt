-- ===== src/Lvmctrld/Listener.antt =====
-- The listener of the LVM control daemon (pkg/lvmctrld/listener.go).
use csi_sanlock_lvm.Base.{
  ℕ, [], ◌∷◌, Bytes, codes, bytes_eq, Option, none, some, Bool, true, false, ◌&&◌, if◌then◌else◌,
  Result, ok, err, unknown,
}
use csi_sanlock_lvm.Base.Exec.{Exec}
use csi_sanlock_lvm.Base.Network.{Url, Network}

-- `id` is that of its server.
pub record Listener : Type 0 where
  pub addr : Bytes
  pub id : ℕ

unfoldable pub new_listener : Bytes → ℕ → Result Listener
new_listener addr id = ok (record { addr = addr; id = id })

unfoldable pub init : Listener → Result (Unit {0})
init l = ok tt

-- GetStatus of the server.
unfoldable pub get_status : Listener → Result ℕ
get_status l = ok l.id

abbrev pub is_set : Bytes → Bool
is_set [] = false
is_set (b ∷ s) = true

-- Protocol and address. `none` is a panic: with a host and a path the text of an error is asked for
-- that is nil.
unfoldable pub parse_address : (Bytes → Option Url) → Bytes → Option (Result (Bytes × Bytes))
parse_address parse_url addr = elim (parse_url addr) [
  | none ↦ some (err unknown)
  | some u ↦
      if is_set u.host && is_set u.path
      then none
      else if is_set u.host
      then some (ok (u.scheme, u.host))
      else some (ok (u.scheme, u.path))
]

abbrev plain : {W : Type 0} → Result (Unit {0}) × W → Result (Unit {0}) × W
plain (ok u, w) = (ok u, w)
plain (err _, w) = (err unknown, w)

module _ {W : Type 0} (network : Network W) where
  unfoldable pub serve_at : Bytes → Bytes → Exec W (Unit {0})
  serve_at protocol addr w =
      let (bound, w') = network.listen protocol addr w in
      elim bound [ err _ ↦ (err unknown, w') | ok _ ↦ plain (network.serve w') ]

  -- `none` is a panic.
  unfoldable pub run : Listener → W → Option (Result (Unit {0}) × W)
  unfolding parse_address serve_at
  run l w = elim (parse_address network.parse_url l.addr) [
    | none ↦ none
    | some (err _) ↦ some (err unknown, w)
    | some (ok (protocol, addr)) ↦
        if bytes_eq protocol (codes "unix")
        then (let (failed, w') = network.remove addr w in
            elim failed [
              | none ↦ some (serve_at protocol addr w')
              | some is_not_exist ↦
                  if is_not_exist then some (serve_at protocol addr w') else some (err unknown, w')
            ])
        else some (serve_at protocol addr w)
  ]
