-- ===== src/Driver/Lock/Elsewhere.antt =====
-- The locker over the server of lvmctrld: what it makes of a volume that another host holds.
use csi_sanlock_lvm.Base.{
  ◌++◌, ◌∷◌, [], ◌≡◌, refl, Bytes, codes, false, err, Code, permission_denied,
}
use csi_sanlock_lvm.Base.Int.{pos}
use csi_sanlock_lvm.Volume.Ref.{VolumeRef, vg_lv}
use csi_sanlock_lvm.Lvmctrld.Messages.{LvmCtrld, LvChangeRequest, active_exclusive}
use csi_sanlock_lvm.Lvmctrld.Pattern.{matches_text}
use csi_sanlock_lvm.Lvmctrld.Errors.{lv_exists}
use csi_sanlock_lvm.Lvmctrld.Server.{Outcome, Host, server, answer, lv_change, lv_change_args}
use csi_sanlock_lvm.Lvmctrld.Laws.{parse_lvm_error-locked}
use csi_sanlock_lvm.Driver.Lock.{Locker, entry, touched, activation, acquire, lock_volume}

refused_by :
    {W : Type 0} (client : LvmCtrld W) (vol : VolumeRef) (op : Bytes) (s : Locker W) (e : Code)
    (w : W)
    → entry (vg_lv vol) s.locks ≡ []
    → client.lv_change (activation vol active_exclusive) s.world ≡ (err e, w)
    → lock_volume client vol op s
      ≡ (err e, record s { locks = touched (vg_lv vol) s.locks; world = w })
unfolding lock_volume acquire
refused_by client vol op s e w free refused =
    rw (lock_volume, free) (rw (acquire, refused) (rw refused refl))

lv_change-locked :
    {W : Type 0} (host : Host W) (req : LvChangeRequest) (before behind : Bytes) (o : Outcome)
    (v w : W)
    → host.exec (codes "lvchange") (lv_change_args req) v ≡ (o, w)
    → o.code ≡ pos 5
    → o.stderr ≡ before ++ 10 ∷ (codes "  LV locked by other host" ++ behind)
    → matches_text lv_exists o.stderr ≡ false
    → lv_change host req v ≡ (err permission_denied, w)
unfolding lv_change answer
lv_change-locked host req before behind o v w ran five said no_exists =
    rw ran
      (rw (five, said) (rw (parse_lvm_error-locked before behind (rw (← said) no_exists)) refl))

module _ {W : Type 0} (host : Host W) (vol : VolumeRef) where
  -- If lvchange ends with code 5, and its stderr has, behind a newline and two spaces, the message that
  -- the LV is locked by another host, and no line that says that a volume exists, LockVolume of a volume
  -- that nobody holds here is PermissionDenied, the error on which the controller passes the call on;
  -- nothing else is run.
  pub lock_volume-elsewhere :
      (op before behind : Bytes) (s : Locker W) (o : Outcome) (w : W)
      → entry (vg_lv vol) s.locks ≡ []
      → host.exec (codes "lvchange") (lv_change_args (activation vol active_exclusive)) s.world
        ≡ (o, w)
      → o.code ≡ pos 5
      → o.stderr ≡ before ++ 10 ∷ (codes "  LV locked by other host" ++ behind)
      → matches_text lv_exists o.stderr ≡ false
      → lock_volume (server host) vol op s
        ≡ (err permission_denied, record s { locks = touched (vg_lv vol) s.locks; world = w })
  unfolding server
  lock_volume-elsewhere op before behind s o w free ran five said no_exists =
      refused_by (server host) vol op s permission_denied w free (
        lv_change-locked host (activation vol active_exclusive) before behind o s.world w ran five
          said no_exists)
