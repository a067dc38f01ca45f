-- ===== src/Cmd/HostId.antt =====
-- Which options cmd/lvmctrld/main.go accepts, and the id that it gives to the node.
use csi_sanlock_lvm.Base.{
  ℕ, ◌≡◌, refl, Bytes, Bool, true, false, not, ◌==◌, Option, ok, err, unknown, arith,
}
use csi_sanlock_lvm.Lvmctrld.Listener.{Listener, new_listener, init}
use csi_sanlock_lvm.Lvmctrld.Start.{System}
use csi_sanlock_lvm.Mailbox.Messages.{new_mail_box_id}
use csi_sanlock_lvm.Cmd.Lvmctrld.{
  Flags, same, is_given, address_to_host_id, parse_host_id, host_id_of, bootstrap,
}

-- The test of the options does not depend on the one in the middle.
same_outer : (a b c : Bool) → same (same a b) (same b c) ≡ same a c
same_outer true true c = refl
same_outer true false true = refl
same_outer true false false = refl
same_outer false true true = refl
same_outer false true false = refl
same_outer false false c = refl

same_self : (a : Bool) → same a a ≡ true
same_self true = refl
same_self false = refl

one_valid : new_mail_box_id 1 ≡ ok 1
unfolding new_mail_box_id
one_valid = refl

module _ (parse_ip : Bytes → Option Bytes) where
  parse_host_id-new_mail_box_id :
      (host_id id : ℕ) (host_addr : Bytes)
      → parse_host_id parse_ip host_id host_addr ≡ ok id
      → new_mail_box_id id ≡ ok id
  unfolding parse_host_id address_to_host_id new_mail_box_id
  parse_host_id-new_mail_box_id host_id id host_addr h = ground arith

  module _ {W : Type 0} (system : System W) where
    host_id_of-new_mail_box_id :
        (flags : Flags) (w : W) (id : ℕ)
        → (host_id_of parse_ip system flags w).0 ≡ ok id
        → new_mail_box_id id ≡ ok id
    unfolding host_id_of
    host_id_of-new_mail_box_id flags w id h =
        ground (arith, parse_host_id-new_mail_box_id flags.lock_id id flags.lock_addr, one_valid)

    -- The daemon starts only if exactly one of the options for no lock and for the lock's address is given,
    -- and the id that it then tells its clients is one that a mailbox accepts.
    pub bootstrap-new_mail_box_id :
        (flags : Flags) (w w' : W) (listener : Listener)
        → bootstrap parse_ip system flags w ≡ (ok listener, w')
        → (same flags.no_lock (is_given flags.lock_addr) ≡ false)
          × (new_mail_box_id listener.id ≡ ok listener.id)
    unfolding bootstrap new_listener init
    bootstrap-new_mail_box_id flags w w' listener h =
        let test = same_outer flags.no_lock (not (flags.lock_id == 0)) (is_given flags.lock_addr) in
        ground (arith, test, host_id_of-new_mail_box_id flags w listener.id)

    -- If both or neither of the options for no lock and for the lock's address are given, the start is an
    -- error at which nothing has been run, whatever the option for the host's id is: an id alone is not accepted.
    pub bootstrap-refused :
        (flags : Flags) (w : W)
        → flags.no_lock ≡ is_given flags.lock_addr
        → bootstrap parse_ip system flags w ≡ (err unknown, w)
    unfolding bootstrap
    bootstrap-refused flags w h =
        rw
          (
            bootstrap,
            same_outer flags.no_lock (not (flags.lock_id == 0)) (is_given flags.lock_addr),
            h,
            same_self (is_given flags.lock_addr),
          )
          refl
