-- ===== src/Driver/Controller/Snapshots.antt =====
-- Snapshots in the controller service (pkg/driverd/controllerserver.go): CreateSnapshot and
-- DeleteSnapshot. Parameters that stand for code outside the repository: the digest
-- that names a snapshot, float64 arithmetic, and the call of another node. `lock_id` is the lock's
-- text with its fresh UUID.
use csi_sanlock_lvm.Base.{
  ℕ, ◌+◌, ◌*◌, ◌/◌, ◌%◌, ◌^◌, ◌==◌, [], ◌∷◌, Bytes, bytes_eq, Option, none, some, Bool, true, not,
  ltb, ◌||◌, if◌then◌else◌, Result, ok, err, Code, invalid_argument, internal, aborted,
  already_exists, panicked,
}
use csi_sanlock_lvm.Base.Int.{ℤ, int64_of}
use csi_sanlock_lvm.Tags.KeyValue.{encode_tags, name_tag_key, source_tag_key}
use csi_sanlock_lvm.Volume.Ref.{VolumeRef, snapshot, ref_from_vg_type_name, id, vg_lv}
use csi_sanlock_lvm.Volume.Pattern.{volume_id_re}
use csi_sanlock_lvm.Lvmctrld.{LvmCtrld, LogicalVolume, mode_none}
use csi_sanlock_lvm.Base.Exec.{Exec, pure, lift, check, ◌>>=◌, ◌>>◌}
use csi_sanlock_lvm.Driver.Fetch.{fetch, ref_from_lv, origin_ref}
use csi_sanlock_lvm.Driver.Node.{parse_id, is_empty, outside}
use csi_sanlock_lvm.Driver.Lock.{Locker, lock_volume, unlock_volume, get_owner}

pub record Snapshot : Type 0 where
  pub snapshot_id : Bytes
  pub source_volume_id : Bytes
  pub ready_to_use : Bool
  pub creation_time : Bytes
  pub size_bytes : ℤ

unfoldable pub lv_to_snapshot : LogicalVolume → Snapshot
lv_to_snapshot lv = record {
  snapshot_id = id (ref_from_lv lv);
  source_volume_id = id (origin_ref lv);
  ready_to_use = true;
  creation_time = lv.lv_time;
  size_bytes = int64_of lv.lv_size;
}

-- strconv.ParseFloat, the tests `== 0` and `> 1`, and `uint64(float64(size) * pct)`.
pub record Floats (F : Type 0) : Type 0 where
  pub parse_float : Bytes → Option F
  pub is_zero : F → Bool
  pub above_one : F → Bool
  pub scale : ℕ → F → ℕ

-- `(n + 511) / 512 * 512` in uint64.
unfoldable pub round_up : ℕ → ℕ
round_up n = ((n + 511) % 2 ^ 64) / 512 * 512

unfoldable pub min_uint64 : ℕ → ℕ → ℕ
min_uint64 a b = if ltb a b then a else b

unfoldable pub limit_pct : {F : Type 0} → Floats F → ℕ → ℕ → Option Bytes → Result ℕ
limit_pct floats lv_size size none = ok size
limit_pct floats lv_size size (some value) = elim (floats.parse_float value) [
  | none ↦ err invalid_argument
  | some pct ↦
      if floats.is_zero pct || floats.above_one pct
      then err invalid_argument
      else ok (min_uint64 size (round_up (floats.scale lv_size pct)))
]

unfoldable pub limit_size : (Bytes → Option ℕ) → ℕ → Option Bytes → Result ℕ
limit_size parse_uint size none = ok size
limit_size parse_uint size (some value) = elim (parse_uint value) [
  | none ↦ err invalid_argument
  | some max_size ↦
      if max_size == 0 then err invalid_argument else ok (min_uint64 size (round_up max_size))
]

pub record CreateSnapshotRequest : Type 0 where
  pub name : Bytes
  pub source_volume_id : Bytes
  pub max_size_pct : Option Bytes
  pub max_size : Option Bytes

-- The deferred tryVolumeUnlock: its error is only logged.
unfoldable pub finally : {S A : Type 0} → Exec S A → Exec S (Unit {0}) → Exec S A
finally m f s = let (r, s') = m s in (r, (f s').1)

-- AlreadyExists is no error: another call may have made the volume.
unfoldable pub unless_exists : {S : Type 0} → Exec S (Unit {0}) → Exec S (Unit {0})
unless_exists m s =
    let (r, s') = m s in
    elim r [ ok _ ↦ (ok tt, s') | err Code.already_exists ↦ (ok tt, s') | err e ↦ (err e, s') ]

unfoldable pub as_aborted : {A : Type 0} → Result A → Result A
as_aborted (ok a) = ok a
as_aborted (err Code.not_found) = err aborted
as_aborted (err e) = err e

-- If another node holds the volume, the call is passed on to it; otherwise the body runs under the
-- lock. With a `code`, a failure to
-- find the owner has that code and another failure of the lock is Internal; without one, both are
-- passed on as they are.
module _ {W A : Type 0} (client : LvmCtrld W) where
  unfoldable pub delegate : Result (ℕ × Bytes) × W → Option Code → (ℕ → Exec W A) → Result A × W
  delegate (ok (owner_id, owner_node), w) code remote = remote owner_id w
  delegate (err e, w) none remote = (err e, w)
  delegate (err Code.panicked, w) (some c) remote = (err panicked, w)
  delegate (err e, w) (some c) remote = (err c, w)

  unfoldable pub locked_or_delegated :
      VolumeRef → VolumeRef → Bytes → Option Code → (ℕ → Exec W A) → Exec W A → Exec (Locker W) A
  locked_or_delegated vol orig lock_id code remote body s =
      let (locked, s') = lock_volume client vol lock_id s in
      elim locked [
        | ok _ ↦ finally (outside body) (unlock_volume client vol lock_id) s'
        | err Code.permission_denied ↦
            outside (λ w. delegate (get_owner client orig w) code remote) s'
        | err Code.panicked ↦ (err panicked, s')
        | err e ↦ (err (elim code [ none ↦ e | some _ ↦ internal ]), s')
      ]

module _ {W F : Type 0} (client : LvmCtrld W) (digest : Bytes → Bytes) (floats : Floats F)
    (parse_uint : Bytes → Option ℕ) where
  unfoldable pub create_locked : CreateSnapshotRequest → VolumeRef → VolumeRef → Exec W Snapshot
  create_locked req orig snap = do
    info ← fetch client orig
    sized ← lift (limit_pct floats info.lv_size info.lv_size req.max_size_pct)
    size ← lift (limit_size parse_uint sized req.max_size)
    unless_exists (
        client.lv_create (record {
          vg_name = snap.vg_name;
          lv_name = snap.lv_name;
          activate = mode_none;
          size = size;
          origin = orig.lv_name;
          lv_tags = encode_tags ((name_tag_key, req.name) ∷ (source_tag_key, id orig) ∷ []);
        }))
    d ← λ w. let (r, w') = fetch client snap w in (as_aborted r, w')
    check (bytes_eq d.origin orig.lv_name) already_exists
    pure (lv_to_snapshot d)

  unfoldable pub create_snapshot :
      CreateSnapshotRequest → Bytes → (ℕ → Exec W Snapshot) → Exec (Locker W) Snapshot
  create_snapshot req lock_id remote = do
    check (not (is_empty req.name)) invalid_argument
    check (volume_id_re req.source_volume_id) invalid_argument
    orig ← lift (parse_id req.source_volume_id)
    let snap = ref_from_vg_type_name digest orig.vg_name snapshot req.name
    locked_or_delegated client orig orig lock_id none remote (create_locked req orig snap)

-- A missing snapshot, or a missing origin, is a success.
unfoldable pub if_found :
    {W A : Type 0}
    → Result A × Locker W
    → (A → Exec (Locker W) (Unit {0}))
    → Result (Unit {0}) × Locker W
if_found (ok a, s) f = f a s
if_found (err Code.not_found, s) f = (ok tt, s)
if_found (err e, s) f = (err e, s)

module _ {W : Type 0} (client : LvmCtrld W) where
  unfoldable pub remove_snapshot : LogicalVolume → Exec W (Unit {0})
  remove_snapshot snap w =
      let (removed, w') =
        client.lv_remove (record { select = []; target = vg_lv (ref_from_lv snap) ∷ [] }) w in
      elim removed [
        | ok _ ↦ (ok tt, w')
        | err Code.not_found ↦ (ok tt, w')
        | err _ ↦ (err internal, w')
      ]

  unfoldable pub delete_found :
      Bytes → (ℕ → Exec W (Unit {0})) → LogicalVolume → Exec (Locker W) (Unit {0})
  delete_found lock_id remote snap s =
      if_found (outside (fetch client (origin_ref snap)) s) (λ lock_vol.
        locked_or_delegated client (ref_from_lv lock_vol) (origin_ref snap) lock_id (some aborted)
          remote (remove_snapshot snap))

  unfoldable pub delete_snapshot :
      Bytes → Bytes → (ℕ → Exec W (Unit {0})) → Exec (Locker W) (Unit {0})
  delete_snapshot snapshot_id lock_id remote s =
      if is_empty snapshot_id
      then (err invalid_argument, s)
      else if not (volume_id_re snapshot_id)
      then (ok tt, s)
      else elim (parse_id snapshot_id) [
        | err e ↦ (err e, s)
        | ok ref ↦ if_found (outside (fetch client ref) s) (delete_found lock_id remote)
      ]
