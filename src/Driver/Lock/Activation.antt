-- ===== src/Driver/Lock/Activation.antt =====
-- The locker keeps the volumes that are held active, over a daemon that activates and deactivates volumes.
use csi_sanlock_lvm.Base.{
  ◌≡◌, ◌≢◌, refl, sym, ap, ◌∙◌, List, [], ◌∷◌, Bytes, bytes_eq, bytes_eq_iff, bytes_eq_refl, Option,
  none, some, Bool, true, false, not, ◌&&◌, ◌||◌, ok, arith, ℕ, Option-cases, inl, inr,
}
use csi_sanlock_lvm.Volume.Ref.{VolumeRef, vg_lv}
use csi_sanlock_lvm.Lvmctrld.{LvmCtrld, LvsRequest, active_exclusive, deactivate}
use csi_sanlock_lvm.Driver.Fetch.{fetch, one_target}
use csi_sanlock_lvm.Driver.Lock.Table.{Locks, put, ops_of, remove_op, mem, mem-remove_op}
use csi_sanlock_lvm.Driver.Lock.Owner.{OwnerChange}
use csi_sanlock_lvm.Driver.Lock.{
  Locker, entry, touched, activation, retag, set_owner, acquire, lock_volume, release,
  unlock_volume,
}
use csi_sanlock_lvm.Driver.Lock.Laws.{
  held, is_ok, held-lock_volume, held-unlock_volume, unlock_volume-shared, held-absent, held-found,
}

-- Which volumes are active on this node, by their volume group and name: a change of the activation
-- that succeeds sets it for its volume, and nothing else of what the locker asks for changes it.
pub record Activity {W : Type 0} (client : LvmCtrld W) : Type 0 where
  pub active : W → Bytes → Bool
  pub activates :
      (vol : VolumeRef) (w : W) (j : Bytes)
      → let r = client.lv_change (activation vol active_exclusive) w in
        active r.1 j ≡ ((is_ok r.0 && bytes_eq (vg_lv vol) j) || active w j)
  pub deactivates :
      (vol : VolumeRef) (w : W) (j : Bytes)
      → let r = client.lv_change (activation vol deactivate) w in
        active r.1 j ≡ (not (is_ok r.0 && bytes_eq (vg_lv vol) j) && active w j)
  pub retags :
      (vol : VolumeRef) (c : OwnerChange) (w : W) (j : Bytes)
      → active (client.lv_change (retag vol c) w).1 j ≡ active w j
  pub looks : (req : LvsRequest) (w : W) (j : Bytes) → active (client.lvs req w).1 j ≡ active w j

module _ {W : Type 0} (client : LvmCtrld W) (daemon : Activity client) where
  -- Every volume that some operation holds is active.
  abbrev pub IsWellLocked : Locker W → Type 0
  IsWellLocked s = (j o : Bytes) → held s.locks j o ≡ true → daemon.active s.world j ≡ true

  set_owner-active :
      (ref : VolumeRef) (owner : Option (ℕ × Bytes)) (w : W) (j : Bytes)
      → daemon.active (set_owner client ref owner w).1 j ≡ daemon.active w j
  unfolding set_owner fetch
  set_owner-active ref owner w j = grind (arith, daemon.retags, daemon.looks (one_target ref) w j)

  module _ (vol : VolumeRef) where
    acquire-other :
        (op : Bytes) (s : Locker W) (j : Bytes)
        → bytes_eq (vg_lv vol) j ≡ false
        → daemon.active (acquire client vol op s).1.world j ≡ daemon.active s.world j
    unfolding acquire
    acquire-other op s j differ =
        let w = (client.lv_change (activation vol active_exclusive) s.world).1 in
        let owner : Option (ℕ × Bytes) = some (s.node_id, s.node_name) in
        ground (
          arith,
          daemon.activates vol s.world j,
          set_owner-active vol owner w j,
          daemon.deactivates vol (set_owner client vol owner w).1 j,
        )

    acquire-active :
        (op : Bytes) (s : Locker W)
        → (acquire client vol op s).0 ≡ ok tt
        → daemon.active (acquire client vol op s).1.world (vg_lv vol) ≡ true
    unfolding acquire
    acquire-active op s e =
        let w = (client.lv_change (activation vol active_exclusive) s.world).1 in
        ground (
          arith,
          daemon.activates vol s.world (vg_lv vol),
          set_owner-active vol (some (s.node_id, s.node_name)) w (vg_lv vol),
          bytes_eq_refl (vg_lv vol),
        )

    held-free : (o : Bytes) (m : Locks) → entry (vg_lv vol) m ≡ [] → held m (vg_lv vol) o ≡ false
    unfolding mem
    held-free o m e = rw e refl

    mem-first : (o : Bytes) (ops : List Bytes) → mem o (o ∷ ops) ≡ true
    unfolding mem
    mem-first o ops = ground (arith, bytes_eq_refl o)

    busy-active :
        (ops : List Bytes) (s : Locker W)
        → IsWellLocked s
        → entry (vg_lv vol) s.locks ≡ ops
        → ops ≢ []
        → daemon.active s.world (vg_lv vol) ≡ true
    busy-active [] s h e ne = absurd (ne refl)
    busy-active (o ∷ ops) s h e ne = h (vg_lv vol) o (ap (mem o) e ∙ mem-first o ops)

    -- If every volume that some operation holds is active before LockVolume, this is so afterwards, on every
    -- branch, over a daemon that (de)activates the volume of a change that succeeds, and otherwise changes
    -- the activation by no call of the locker.
    pub lock_volume-IsWellLocked :
        (op : Bytes) (s : Locker W) → IsWellLocked s → IsWellLocked (lock_volume client vol op s).1
    unfolding lock_volume
    lock_volume-IsWellLocked op s h j o held_after =
        let s' : Locker W = record s { locks = touched (vg_lv vol) s.locks } in
        ground (
          arith,
          held_after,
          held-lock_volume client vol op s j o,
          h j o,
          held-free o s.locks,
          busy-active (entry (vg_lv vol) s.locks) s h refl,
          acquire-other op s' j,
          acquire-active op s',
          bytes_eq_iff (vg_lv vol) j,
        )

    release-other :
        (s : Locker W) (j : Bytes)
        → bytes_eq (vg_lv vol) j ≡ false
        → daemon.active (release client vol s).1.world j ≡ daemon.active s.world j
    unfolding release
    release-other s j differ = ground (
      arith,
      set_owner-active vol none s.world j,
      daemon.deactivates vol (set_owner client vol none s.world).1 j,
    )

    release-inactive :
        (s : Locker W)
        → (release client vol s).0 ≡ ok tt
        → daemon.active (release client vol s).1.world (vg_lv vol) ≡ false
    unfolding release
    release-inactive s e = ground (
      arith,
      daemon.deactivates vol (set_owner client vol none s.world).1 (vg_lv vol),
      bytes_eq_refl (vg_lv vol),
    )

    unlock_volume-other :
        (op : Bytes) (s : Locker W) (j : Bytes)
        → bytes_eq (vg_lv vol) j ≡ false
        → daemon.active (unlock_volume client vol op s).1.world j ≡ daemon.active s.world j
    unfolding unlock_volume
    unlock_volume-other op s j differ = grind (arith, release-other)

    -- If every volume that some operation holds is active before UnlockVolume, this is so afterwards, on
    -- every branch, over such a daemon: one that (de)activates the volume of a change that succeeds, and
    -- otherwise changes the activation by no call of the locker.
    pub unlock_volume-IsWellLocked :
        (op : Bytes) (s : Locker W)
        → IsWellLocked s
        → IsWellLocked (unlock_volume client vol op s).1
    unlock_volume-IsWellLocked op s h j o held_after = ground (
      arith,
      held_after,
      held-unlock_volume client vol op s j o,
      h j o,
      unlock_volume-other op s j,
      unlock_volume-shared client vol op o s,
      bytes_eq_iff (vg_lv vol) j,
      bytes_eq_iff op o,
    )

    only-removed :
        (op : Bytes) (ops rest : List Bytes)
        → ((o : Bytes) → mem o ops ≡ true → o ≡ op)
        → remove_op op ops ≡ rest
        → rest ≡ []
    only-removed op ops [] only e = refl
    only-removed op ops (o ∷ rest) only e =
        let kept : mem o (remove_op op ops) ≡ true = ap (mem o) e ∙ mem-first o rest in
        absurd (ground (arith, kept, mem-remove_op op o ops, only o, bytes_eq_iff op o))

    -- When the only operation that holds a volume unlocks it and this succeeds, the volume is not active any
    -- more, over a daemon that (de)activates the volume of a change that succeeds, and otherwise changes
    -- the activation by no call of the locker.
    pub unlock_volume-inactive :
        (op : Bytes) (s : Locker W)
        → held s.locks (vg_lv vol) op ≡ true
        → ((o : Bytes) → held s.locks (vg_lv vol) o ≡ true → o ≡ op)
        → (unlock_volume client vol op s).0 ≡ ok tt
        → daemon.active (unlock_volume client vol op s).1.world (vg_lv vol) ≡ false
    unfolding unlock_volume
    unlock_volume-inactive op s holds only e = elim (Option-cases (ops_of (vg_lv vol) s.locks)) [
      | inl missing ↦ absurd (ground (arith, holds, held-absent (vg_lv vol) op s.locks missing))
      | inr (ops, there) ↦
          let none_left : remove_op op ops ≡ [] =
            only-removed op ops (remove_op op ops)
              (λ o h. only o (held-found (vg_lv vol) o ops s.locks there ∙ h)) refl in
          let s' : Locker W = record s { locks = put (vg_lv vol) [] s.locks } in
          let same : unlock_volume client vol op s ≡ release client vol s' =
            rw (unlock_volume, there)
              (rw none_left (
                ap (λ l. release client vol (record s { locks = put (vg_lv vol) l s.locks }))
                  none_left)) in
          ap (λ r. daemon.active r.1.world (vg_lv vol)) same
          ∙ release-inactive s' (sym (ap (λ r. r.0) same) ∙ e)
    ]
