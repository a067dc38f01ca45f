-- ===== src/Driver/Lock/Laws.antt =====
-- Who holds a volume after each call of the locker.
use csi_sanlock_lvm.Base.{
  ◌≡◌, refl, List, [], ◌∷◌, Bytes, bytes_eq, bytes_eq_iff, bytes_eq_refl, none, some, Bool, true,
  false, ◌&&◌, ◌||◌, if◌then◌else◌, Result, ok, err, arith, ◌≢◌, Option-cases, inl, inr,
}
use csi_sanlock_lvm.Volume.Ref.{VolumeRef, vg_lv}
use csi_sanlock_lvm.Lvmctrld.{LvmCtrld}
use csi_sanlock_lvm.Driver.Lock.Table.{
  Locks, ops_of, put, delete_key, mem, insert_op, remove_op, ops_of-put, ops_of-delete_key,
  mem-insert_op, mem-remove_op,
}
use csi_sanlock_lvm.Driver.Lock.{
  Locker, entry, touched, acquire, lock_volume, release, unlock_volume,
}

-- Operation `op` holds volume `key`.
abbrev pub held : Locks → Bytes → Bytes → Bool
held locks key op = mem op (entry key locks)

entry-put :
    (k j : Bytes) (ops : List Bytes) (m : Locks)
    → entry j (put k ops m) ≡ (if bytes_eq k j then ops else entry j m)
unfolding entry
entry-put k j ops m = rw (entry, ops_of-put k j ops m) (ground arith)

entry-delete_key :
    (k j : Bytes) (m : Locks) → entry j (delete_key k m) ≡ (if bytes_eq k j then [] else entry j m)
unfolding entry
entry-delete_key k j m = rw (entry, ops_of-delete_key k j m) (ground arith)

entry-touched : (k j : Bytes) (m : Locks) → entry j (touched k m) ≡ entry j m
unfolding touched entry
entry-touched k j m = elim (Option-cases (ops_of k m)) [
  | inl e ↦ rw (touched, e, entry, ops_of-put k j [] m) (ground (arith, bytes_eq_iff k j))
  | inr (ops, e) ↦ rw (touched, e)
]

-- After `op` is added to the entry of `k`, it holds `k`, and all else is as before.
held-insert :
    (k op j o : Bytes) (m : Locks)
    → held (put k (insert_op op (entry k m)) m) j o
      ≡ ((bytes_eq k j && bytes_eq op o) || held m j o)
held-insert k op j o m =
    rw entry-put (ground (arith, mem-insert_op op o (entry k m), bytes_eq_iff k j))

held-remove :
    (k op j o : Bytes) (ops : List Bytes) (m : Locks)
    → ops_of k m ≡ some ops
    → held (put k (remove_op op ops) m) j o
      ≡ (if bytes_eq k j && bytes_eq op o then false else held m j o)
unfolding entry
held-remove k op j o ops m e =
    rw entry-put (ground (arith, mem-remove_op op o ops, bytes_eq_iff k j))

held-delete : (k j o : Bytes) (m : Locks) → entry k m ≡ [] → held (delete_key k m) j o ≡ held m j o
held-delete k j o m e = rw entry-delete_key (ground (arith, bytes_eq_iff k j))

pub held-absent : (k o : Bytes) (m : Locks) → ops_of k m ≡ none → held m k o ≡ false
unfolding entry mem
held-absent k o m e = rw (entry, e) refl

mem_nil : (o : Bytes) → mem o [] ≡ false
unfolding mem
mem_nil o = refl

pub held-found :
    (k o : Bytes) (ops : List Bytes) (m : Locks) → ops_of k m ≡ some ops → held m k o ≡ mem o ops
unfolding entry
held-found k o ops m e = rw (entry, e) refl

abbrev pub is_ok {ℓ} : {A : Type ℓ} → Result A → Bool
is_ok (ok a) = true
is_ok (err e) = false

module _ {W : Type 0} (client : LvmCtrld W) (vol : VolumeRef) where
  held-acquire :
      (op : Bytes) (s : Locker W) (j o : Bytes)
      → held (acquire client vol op s).1.locks j o ≡ (
          (is_ok (acquire client vol op s).0 && bytes_eq (vg_lv vol) j && bytes_eq op o)
          || held s.locks j o)
  unfolding acquire
  held-acquire op s j o = ground (arith, held-insert (vg_lv vol) op j o s.locks)

  -- A call of LockVolume that succeeds makes the operation a holder of the volume, one that fails
  -- does not, and who else holds what stays the same, on every branch.
  pub held-lock_volume :
      (op : Bytes) (s : Locker W) (j o : Bytes)
      → held (lock_volume client vol op s).1.locks j o ≡ (
          (is_ok (lock_volume client vol op s).0 && bytes_eq (vg_lv vol) j && bytes_eq op o)
          || held s.locks j o)
  unfolding lock_volume
  held-lock_volume op s j o = ground (
    arith,
    held-acquire op (record s { locks = touched (vg_lv vol) s.locks }) j o,
    entry-touched (vg_lv vol) j s.locks,
    held-insert (vg_lv vol) op j o s.locks,
  )

  -- A volume that some operation holds is locked again without any call to the daemon.
  pub lock_volume-reentrant :
      (op : Bytes) (s : Locker W)
      → entry (vg_lv vol) s.locks ≢ []
      → ((lock_volume client vol op s).0 ≡ ok tt)
        × ((lock_volume client vol op s).1.world ≡ s.world)
  unfolding lock_volume
  lock_volume-reentrant op s h = ground arith

  held-release :
      (s : Locker W) (j o : Bytes)
      → entry (vg_lv vol) s.locks ≡ []
      → held (release client vol s).1.locks j o ≡ held s.locks j o
  unfolding release
  held-release s j o e = ground (arith, held-delete (vg_lv vol) j o s.locks e)

  -- After UnlockVolume, on every branch and also when it fails, the operation no longer holds the
  -- volume, and who else holds what stays the same.
  pub held-unlock_volume :
      (op : Bytes) (s : Locker W) (j o : Bytes)
      → held (unlock_volume client vol op s).1.locks j o
        ≡ (if bytes_eq (vg_lv vol) j && bytes_eq op o then false else held s.locks j o)
  unfolding unlock_volume
  held-unlock_volume op s j o = elim (Option-cases (ops_of (vg_lv vol) s.locks)) [
    | inl e ↦
        rw (unlock_volume, e)
          (ground (arith, held-absent (vg_lv vol) o s.locks e, bytes_eq_iff (vg_lv vol) j))
    | inr (ops, e) ↦ rw (unlock_volume, e) (unlocked ops e)
  ]
    where
      unlocked :
          (ops : List Bytes)
          → ops_of (vg_lv vol) s.locks ≡ some ops
          → let s' : Locker W = record s { locks = put (vg_lv vol) (remove_op op ops) s.locks } in
            held
              (elim (remove_op op ops) as (λ _. Result (Unit {0}) × Locker W) [
                | o ∷ ops ↦ (ok tt, s')
                | [] ↦ release client vol s'
              ]).1.locks
              j
              o
            ≡ (if bytes_eq (vg_lv vol) j && bytes_eq op o then false else held s.locks j o)
      unlocked ops e = ground (
        arith,
        held-remove (vg_lv vol) op j o ops s.locks e,
        entry-put (vg_lv vol) (vg_lv vol) (remove_op op ops) s.locks,
        bytes_eq_refl (vg_lv vol),
        held-release (record s { locks = put (vg_lv vol) (remove_op op ops) s.locks }) j o,
      )

  -- While another operation holds the volume, UnlockVolume succeeds and leaves it active.
  pub unlock_volume-shared :
      (op other : Bytes) (s : Locker W)
      → held s.locks (vg_lv vol) other ≡ true
      → op ≢ other
      → ((unlock_volume client vol op s).0 ≡ ok tt)
        × ((unlock_volume client vol op s).1.world ≡ s.world)
  unfolding unlock_volume
  unlock_volume-shared op other s h ne = elim (Option-cases (ops_of (vg_lv vol) s.locks)) [
    | inl e ↦ ground (arith, held-absent (vg_lv vol) other s.locks e)
    | inr (ops, e) ↦
        rw (unlock_volume, e)
          (ground (
            arith,
            mem_nil other,
            mem-remove_op op other ops,
            bytes_eq_iff op other,
            held-found (vg_lv vol) other ops s.locks e,
          ))
  ]
