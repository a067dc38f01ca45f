-- ===== src/Driver/Controller/SnapshotLaws.antt =====
-- What the calls that make and delete snapshots leave locked.
use csi_sanlock_lvm.Base.{
  ◌≡◌, Bytes, bytes_eq, bytes_eq_iff, Option, none, some, false, ◌&&◌, if◌then◌else◌, Result, ok,
  err, Code, aborted, arith, inl, inr, Result-cases, ℕ,
}
use csi_sanlock_lvm.Volume.Ref.{VolumeRef, vg_lv, ref_from_vg_type_name, snapshot}
use csi_sanlock_lvm.Lvmctrld.{LvmCtrld, LogicalVolume}
use csi_sanlock_lvm.Driver.Fetch.{fetch, ref_from_lv, origin_ref}
use csi_sanlock_lvm.Base.Exec.{Exec}
use csi_sanlock_lvm.Driver.Node.{outside, parse_id}
use csi_sanlock_lvm.Driver.Lock.{Locker, lock_volume, unlock_volume}
use csi_sanlock_lvm.Driver.Lock.Laws.{held, held-lock_volume, held-unlock_volume}
use csi_sanlock_lvm.Driver.Controller.Snapshots.{
  Floats, CreateSnapshotRequest, Snapshot, finally, locked_or_delegated, create_locked,
  create_snapshot, delete_found, delete_snapshot, if_found, remove_snapshot,
}

module _ {W A : Type 0} (client : LvmCtrld W) where
  finally-locks :
      (vol : VolumeRef) (lock_id : Bytes) (body : Exec W A) (s : Locker W) (j o : Bytes)
      → held (finally (outside body) (unlock_volume client vol lock_id) s).1.locks j o
        ≡ (if bytes_eq (vg_lv vol) j && bytes_eq lock_id o then false else held s.locks j o)
  unfolding finally
  finally-locks vol lock_id body s j o =
      ground
        (arith, held-unlock_volume client vol lock_id (record s { world = (body s.world).1 }) j o)

  -- The same operations hold the same volumes after a call under a fresh lock id, whether the lock is
  -- refused, the call is passed on to the owner, or the body fails or succeeds.
  pub locked_or_delegated-locks :
      (vol orig : VolumeRef) (lock_id : Bytes) (code : Option Code) (remote : ℕ → Exec W A)
      (body : Exec W A) (s : Locker W) (j o : Bytes)
      → held s.locks (vg_lv vol) lock_id ≡ false
      → held (locked_or_delegated client vol orig lock_id code remote body s).1.locks j o
        ≡ held s.locks j o
  unfolding locked_or_delegated
  locked_or_delegated-locks vol orig lock_id code remote body s j o fresh = ground (
    arith,
    held-lock_volume client vol lock_id s j o,
    finally-locks vol lock_id body (lock_volume client vol lock_id s).1 j o,
    bytes_eq_iff (vg_lv vol) j,
    bytes_eq_iff lock_id o,
  )

module _ {W F : Type 0} (client : LvmCtrld W) (digest : Bytes → Bytes) (floats : Floats F)
    (parse_uint : Bytes → Option ℕ) where
  -- CreateSnapshot leaves no lock behind and takes none away, on every branch, if its lock id is fresh.
  pub create_snapshot-locks :
      (req : CreateSnapshotRequest) (lock_id : Bytes) (remote : ℕ → Exec W Snapshot) (s : Locker W)
      (j o : Bytes)
      → ((k : Bytes) → held s.locks k lock_id ≡ false)
      → held (create_snapshot client digest floats parse_uint req lock_id remote s).1.locks j o
        ≡ held s.locks j o
  unfolding create_snapshot
  create_snapshot-locks req lock_id remote s j o fresh =
      elim (Result-cases (parse_id req.source_volume_id)) [
        | inr (e, p) ↦ ground arith
        | inl (orig, p) ↦
            let snap = ref_from_vg_type_name digest orig.vg_name snapshot req.name in
            ground (
              arith,
              locked_or_delegated-locks client orig orig lock_id none remote
                  (create_locked client digest floats parse_uint req orig snap) s j o
                  (fresh (vg_lv orig)),
            )
      ]

if_found-locks :
    {W A : Type 0} (r : Result A) (s : Locker W) (f : A → Exec (Locker W) (Unit {0})) (j o : Bytes)
    → ((a : A) → held (f a s).1.locks j o ≡ held s.locks j o)
    → held (if_found (r, s) f).1.locks j o ≡ held s.locks j o
unfolding if_found
if_found-locks (ok a) s f j o h = h a
if_found-locks (err e) s f j o h = ground arith

module _ {W : Type 0} (client : LvmCtrld W) where
  delete_found-locks :
      (lock_id : Bytes) (remote : ℕ → Exec W (Unit {0})) (snap : LogicalVolume) (s : Locker W)
      (j o : Bytes)
      → ((k : Bytes) → held s.locks k lock_id ≡ false)
      → held (delete_found client lock_id remote snap s).1.locks j o ≡ held s.locks j o
  unfolding delete_found
  delete_found-locks lock_id remote snap s j o fresh =
      if_found-locks (fetch client (origin_ref snap) s.world).0
        (outside (fetch client (origin_ref snap)) s).1
        (λ lock_vol.
          locked_or_delegated client (ref_from_lv lock_vol) (origin_ref snap) lock_id (some aborted)
            remote (remove_snapshot client snap))
        j o
        (λ lock_vol.
          locked_or_delegated-locks client (ref_from_lv lock_vol) (origin_ref snap) lock_id
            (some aborted) remote (remove_snapshot client snap)
            (outside (fetch client (origin_ref snap)) s).1 j o
            (fresh (vg_lv (ref_from_lv lock_vol))))

  -- DeleteSnapshot leaves the locker's table of who holds what as it was, on every branch, if its lock id
  -- is fresh. This is about the table alone: whether the daemon deactivated the volume is not said.
  pub delete_snapshot-locks :
      (snapshot_id lock_id : Bytes) (remote : ℕ → Exec W (Unit {0})) (s : Locker W) (j o : Bytes)
      → ((k : Bytes) → held s.locks k lock_id ≡ false)
      → held (delete_snapshot client snapshot_id lock_id remote s).1.locks j o ≡ held s.locks j o
  unfolding delete_snapshot
  delete_snapshot-locks snapshot_id lock_id remote s j o fresh =
      elim (Result-cases (parse_id snapshot_id)) [
        | inr (e, p) ↦ ground arith
        | inl (ref, p) ↦ ground (
          arith,
          if_found-locks (fetch client ref s.world).0 (outside (fetch client ref) s).1
              (delete_found client lock_id remote) j o
              (λ snap.
                delete_found-locks lock_id remote snap (outside (fetch client ref) s).1 j o fresh),
        )
      ]
