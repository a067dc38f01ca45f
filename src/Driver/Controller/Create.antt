-- ===== src/Driver/Controller/Create.antt =====
-- CreateVolume (pkg/driverd/controllerserver.go). Parameters that stand for code outside the
-- repository: the digest in the names, the copy of a device, the call of another node, and the order
-- in which a Go map is read. The texts of the locks and of the temporary name have fresh UUIDs.
use csi_sanlock_lvm.Base.{
  ℕ, ◌+◌, ◌-◌, ◌*◌, ◌/◌, ◌%◌, ◌^◌, ◌==◌, List, [], ◌∷◌, Bytes, bytes_eq, Option, none, some, Bool,
  true, false, not, ltb, ◌&&◌, if◌then◌else◌, Result, ok, err, Code, invalid_argument, internal,
  aborted, already_exists, not_found,
}
use csi_sanlock_lvm.Base.Int.{uint64, ℤ, pos, ltb_ℤ, int64_of}
use csi_sanlock_lvm.Base.Exec.{Exec, pure, raise, lift, check, ◌>>=◌, ◌>>◌}
use csi_sanlock_lvm.Tags.KeyValue.{
  TagMap, encode_tags, lookup, fs_tag_key, name_tag_key, source_tag_key,
}
use csi_sanlock_lvm.Volume.Ref.{
  VolumeRef, volume, temporary, ref_from_vg_type_name, ref_from_id, id, vg_lv, dev_path,
}
use csi_sanlock_lvm.Volume.Pattern.{vg_re}
use csi_sanlock_lvm.Lvmctrld.{LvmCtrld, LogicalVolume, active_exclusive}
use csi_sanlock_lvm.Driver.Capability.{
  VolumeCapability, VolumeAccessType, block_volume, reduce_volume_capabilities,
}
use csi_sanlock_lvm.Driver.Fetch.{fetch, ref_from_lv, origin_ref, tags_of}
use csi_sanlock_lvm.Driver.FileSystem.{
  Host, FileSystem, block_access_fs_name, new_file_system, accepts, make, wrap,
}
use csi_sanlock_lvm.Driver.Lock.{Locker, lock_volume, unlock_volume, get_owner}
use csi_sanlock_lvm.Driver.Lock.Table.{insert_op, remove_op}
use csi_sanlock_lvm.Driver.Node.{is_empty}
use csi_sanlock_lvm.Driver.Controller.Volumes.{Volume, lv_to_volume}
use csi_sanlock_lvm.Driver.Controller.Snapshots.{finally}

-- Two int64.
pub record CapacityRange : Type 0 where
  pub required_bytes : ℤ
  pub limit_bytes : ℤ

pub record ContentSource : Type 0 where
  pub snapshot : Option Bytes
  pub volume : Option Bytes

-- `vg_name` is the parameter of this key; a missing one is empty.
pub record CreateVolumeRequest : Type 0 where
  pub name : Bytes
  pub volume_capabilities : List VolumeCapability
  pub vg_name : Bytes
  pub capacity_range : Option CapacityRange
  pub volume_content_source : Option ContentSource

-- Copying a device: what it opens and closes, and how many bytes it copies.
pub record Copier (W : Type 0) : Type 0 where
  pub open_source : Bytes → Exec W (Unit {0})
  pub open_target : Bytes → Exec W (Unit {0})
  pub copy : Bytes → Bytes → Exec W ℕ
  pub close : Bytes → Exec W (Unit {0})

abbrev pub default_capacity : ℕ
default_capacity = 2 ^ 20

abbrev pub is_positive : ℤ → Bool
is_positive n = ltb_ℤ (pos 0) n

unfoldable pub volume_size : Option CapacityRange → Result ℕ
volume_size none = ok default_capacity
volume_size (some range) =
    let size = (uint64 range.required_bytes + 511) % 2 ^ 64 / 512 * 512 in
    if is_positive range.required_bytes
    then (if is_positive range.limit_bytes && ltb (uint64 range.limit_bytes) size
        then err invalid_argument
        else ok size)
    else if is_positive range.limit_bytes
    then ok ((uint64 range.limit_bytes + 2 ^ 64 - 511) % 2 ^ 64 / 512 * 512)
    else err invalid_argument

-- What is known of the source: the volume it is, unless it is a snapshot, its reference, and the volume to lock.
pub record Source : Type 0 where
  pub src_vol : Option LogicalVolume
  pub src_ref : VolumeRef
  pub lock_vol : LogicalVolume

-- The locker, and the volumes that are removed when the call ends.
pub record Work (W : Type 0) : Type 0 where
  pub locker : Locker W
  pub cleanup_vols : List Bytes

abbrev pub is_nil : List VolumeCapability → Bool
is_nil [] = true
is_nil (_ ∷ _) = false

abbrev has_block : Option VolumeCapability → Bool
has_block none = false
has_block (some c) = elim c.access_type [ block_volume ↦ true | _ ↦ false ]

abbrev pub fs_name_of : Bytes → Option VolumeCapability → Bytes
fs_name_of default_fs cap = if has_block cap then block_access_fs_name else default_fs

abbrev pub access_of : Option VolumeCapability → VolumeAccessType
access_of cap =
    if has_block cap then VolumeAccessType.block_access_type else VolumeAccessType.mount_access_type

abbrev parse_source : Bytes → Result VolumeRef
parse_source source_id = elim (ref_from_id source_id) [ ok ref ↦ ok ref | err _ ↦ err not_found ]

unfoldable pub source_tag : Option LogicalVolume → TagMap
source_tag none = []
source_tag (some lv) = (source_tag_key, id (ref_from_lv lv)) ∷ []

-- The tag `fs` of the source, which must be the wanted file system.
unfoldable pub check_source : Bytes → ℕ → LogicalVolume → Result (Unit {0})
check_source fs_name size lv = elim (tags_of lv) [
  | err e ↦ err e
  | ok tags ↦ elim (lookup fs_tag_key tags) [
    | none ↦ err invalid_argument
    | some found ↦
        if not (bytes_eq found fs_name)
        then err invalid_argument
        else if ltb size lv.lv_size
        then err invalid_argument
        else ok tt
  ]
]

module _ {W : Type 0} (client : LvmCtrld W) where
  abbrev pub locking : {A : Type 0} → Exec (Locker W) A → Exec (Work W) A
  locking m s = let (r, l) = m s.locker in (r, record s { locker = l })

  abbrev pub daemon : {A : Type 0} → Exec W A → Exec (Work W) A
  daemon m s =
      let (r, w) = m s.locker.world in (r, record s { locker = record s.locker { world = w } })

  abbrev pub keep : Bytes → Exec (Work W) (Unit {0})
  keep name s = (ok tt, record s { cleanup_vols = remove_op name s.cleanup_vols })

  abbrev pub clean : Bytes → Exec (Work W) (Unit {0})
  clean name s = (ok tt, record s { cleanup_vols = insert_op name s.cleanup_vols })

  fetch_source : Bytes → Bytes → Exec W LogicalVolume
  fetch_source vg_name source_id = do
    ref ← lift (parse_source source_id)
    check (bytes_eq ref.vg_name vg_name) invalid_argument
    fetch client ref

  unfoldable pub resolve_source : Bytes → ContentSource → Exec W Source
  unfolding fetch_source
  resolve_source vg_name src = by_kind src.snapshot src.volume
    where
      by_kind : Option Bytes → Option Bytes → Exec W Source
      by_kind (some s) none = do
        snap ← fetch_source vg_name s
        orig ← fetch client (origin_ref snap)
        pure (record { src_vol = none; src_ref = ref_from_lv snap; lock_vol = orig })
      by_kind none (some v) = do
        vol ← fetch_source vg_name v
        pure (record { src_vol = some vol; src_ref = ref_from_lv vol; lock_vol = vol })
      by_kind _ _ = raise invalid_argument

  -- The volume to read from: a snapshot as it is, or a temporary snapshot of a volume.
  unfoldable pub data_volume : (Bytes → Bytes) → Bytes → Source → Exec (Work W) VolumeRef
  data_volume digest temp_name source = of_kind source.src_vol
    where
      of_kind : Option LogicalVolume → Exec (Work W) VolumeRef
      of_kind none = pure source.src_ref
      of_kind (some vol) = do
        let temp = ref_from_vg_type_name digest vol.vg_name temporary temp_name
        daemon (
            client.lv_create (record {
              vg_name = temp.vg_name;
              lv_name = temp.lv_name;
              activate = active_exclusive;
              size = source.lock_vol.lv_size;
              origin = vol.lv_name;
              lv_tags = [];
            }))
        clean (vg_lv temp)
        pure temp

  -- The source is read under a lock of its own; if another node holds it, the call is passed on.
  unfoldable pub with_source :
      {A : Type 0}
      → (Bytes → Bytes)
      → Bytes
      → Bytes
      → Option Source
      → (ℕ → Exec W A)
      → (Option VolumeRef → Exec (Work W) A)
      → Exec (Work W) A
  unfolding data_volume
  with_source digest lock_id temp_name none remote body s = body none s
  with_source digest lock_id temp_name (some source) remote body s =
      let ref = ref_from_lv source.lock_vol in
      let (locked, s') = locking (lock_volume client ref lock_id) s in
      elim locked [
        | ok _ ↦
            finally (data_volume digest temp_name source >>= λ content. body (some content))
              (locking (unlock_volume client ref lock_id)) s'
        | err Code.permission_denied ↦
            daemon
              (λ w.
                let (owner, w') = get_owner client ref w in
                elim owner [ ok (owner_id, _) ↦ remote owner_id w' | err e ↦ (err e, w') ])
              s'
        | err e ↦ (err e, s')
      ]

  -- A volume of this name that is there already is the answer if it is large enough.
  unfoldable pub existing : VolumeRef → ℕ → Exec W Volume
  existing vol required w =
      let (found, w') = fetch client vol w in
      elim found [
        | ok lv ↦ (if ltb lv.lv_size required then err already_exists else ok (lv_to_volume lv), w')
        | err Code.not_found ↦ (err aborted, w')
        | err e ↦ (err e, w')
      ]

  module _ (host : Host W) (copier : Copier W) where
    abbrev closing : Bytes → Exec W (Unit {0})
    closing device w = (ok tt, (copier.close device w).1)

    -- The files are closed whether the copy succeeds or not, after it the source first, and the errors of this
    -- are logged.
    unfoldable pub copy_data : VolumeRef → VolumeRef → ℕ → Exec W (Unit {0})
    copy_data content vol size w =
        let (opened, w1) = copier.open_source (dev_path content) w in
        let (target, w2) = copier.open_target (dev_path vol) w1 in
        let (copied, w3) =
          (wrap internal (copier.copy (dev_path content) (dev_path vol)) >>= λ written.
          check (written == size) internal)
            w2 in
        elim opened [
          | err _ ↦ (err internal, w1)
          | ok _ ↦ elim target [
            | err _ ↦ (err internal, (copier.close (dev_path content) w2).1)
            | ok _ ↦ elim copied [
              | ok _ ↦ (closing (dev_path content) >> closing (dev_path vol)) w3
              | err e ↦ (err e, ((closing (dev_path vol) >> closing (dev_path content)) w3).1)
            ]
          ]
        ]

    unfoldable pub fill : FileSystem → VolumeRef → ℕ → Option VolumeRef → Exec W (Unit {0})
    unfolding copy_data
    fill fs vol size none = wrap internal (make host fs (dev_path vol))
    fill fs vol size (some content) = copy_data content vol size

    -- From the new volume on: its removal is planned until it is filled.
    unfoldable pub fill_locked :
        FileSystem → VolumeRef → Bytes → ℕ → Option VolumeRef → ℕ → Exec (Work W) Volume
    unfolding fill
    fill_locked fs vol lock_id src_size content size = do
      clean (vg_lv vol)
      locking (lock_volume client vol lock_id)
      finally
          (do
            daemon (fill fs vol src_size content)
            keep (vg_lv vol)
            pure (record { volume_id = id vol; capacity_bytes = int64_of size }))
          (locking (unlock_volume client vol lock_id))

    unfoldable pub create_data_volume :
        CreateVolumeRequest
        → FileSystem
        → TagMap
        → VolumeRef
        → Bytes
        → ℕ
        → ℕ
        → Option VolumeRef
        → Exec (Work W) Volume
    unfolding fill_locked existing
    create_data_volume req fs tags vol lock_id src_size size content s =
        let (created, s') =
          daemon
            (client.lv_create (record {
              vg_name = vol.vg_name;
              lv_name = vol.lv_name;
              activate = active_exclusive;
              size = size;
              origin = [];
              lv_tags = encode_tags tags;
            }))
            s in
        elim created [
          | ok _ ↦ fill_locked fs vol lock_id src_size content size s'
          | err Code.already_exists ↦
              daemon
                (existing vol
                  (elim req.capacity_range [ none ↦ 0 | some range ↦ uint64 range.required_bytes ]))
                s'
          | err e ↦ (err e, s')
        ]

  -- The errors of the removals are logged.
  unfoldable pub remove_all : List Bytes → W → W
  remove_all [] w = w
  remove_all (v ∷ vols) w =
      remove_all vols (client.lv_remove (record { select = []; target = v ∷ [] }) w).1

  -- The deferred removal of what is left, in the order of the map.
  unfoldable pub cleaned :
      {A : Type 0} → (List Bytes → List Bytes) → Exec (Work W) A → Exec (Locker W) A
  unfolding remove_all
  cleaned order m l =
      let (r, s) = m (record { locker = l; cleanup_vols = [] }) in
      (r, record s.locker { world = remove_all (order s.cleanup_vols) s.locker.world })

  module _ (host : Host W) (copier : Copier W) (digest : Bytes → Bytes)
      (order : List Bytes → List Bytes) (default_fs : Bytes) where
    abbrev pub resolve : Bytes → Bytes → ℕ → Option ContentSource → Exec W (Option Source)
    resolve fs_name vg_name size none = pure none
    resolve fs_name vg_name size (some src) = do
      source ← resolve_source vg_name src
      lift (check_source fs_name size source.lock_vol)
      pure (some source)

    abbrev pub world_of : {A : Type 0} → Exec W A → Exec (Locker W) A
    world_of m l = let (r, w) = m l.world in (r, record l { world = w })

    abbrev pub src_vol_of : Option Source → Option LogicalVolume
    src_vol_of none = none
    src_vol_of (some source) = source.src_vol

    abbrev pub src_size_of : Option Source → ℕ
    src_size_of none = 0
    src_size_of (some source) = source.lock_vol.lv_size

    unfoldable pub create_volume :
        CreateVolumeRequest → Bytes → Bytes → Bytes → (ℕ → Exec W Volume) → Exec (Locker W) Volume
    unfolding with_source create_data_volume cleaned resolve_source check_source volume_size
    create_volume req src_lock_id lock_id temp_name remote = do
      check (not (is_empty req.name)) invalid_argument
      check (not (is_nil req.volume_capabilities)) invalid_argument
      cap ← lift (reduce_volume_capabilities req.volume_capabilities)
      let fs_name = fs_name_of default_fs cap
      check (not (is_empty req.vg_name)) invalid_argument
      check (vg_re req.vg_name) invalid_argument
      size ← lift (volume_size req.capacity_range)
      let vol = ref_from_vg_type_name digest req.vg_name volume req.name
      source ← world_of (resolve fs_name req.vg_name size req.volume_content_source)
      let fs = new_file_system fs_name
      check (accepts fs (access_of cap)) invalid_argument
      let tags = (fs_tag_key, fs_name) ∷ (name_tag_key, req.name) ∷ source_tag (src_vol_of source)
      cleaned order (
          with_source digest src_lock_id temp_name source remote
            (create_data_volume host copier req fs tags vol lock_id (src_size_of source) size))
