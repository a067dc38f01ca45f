-- ===== src/Driver/Node.antt =====
-- The CSI node service (pkg/driverd/nodeserver.go). A request is its fields; an absent text field is
-- empty. The file system registry is `new_file_system`, which knows every name.
pub mod Laws
pub mod Stats
use csi_sanlock_lvm.Base.{
  ℕ, List, [], ◌∷◌, ◌++◌, Bytes, codes, bytes_eq, Option, none, some, Bool, true, false, not, ltb,
  if◌then◌else◌, Result, ok, err, Code, invalid_argument, internal, not_found, out_of_range,
}
use csi_sanlock_lvm.Base.Int.{ℤ, uint64}
use csi_sanlock_lvm.Tags.KeyValue.{lookup, fs_tag_key}
use csi_sanlock_lvm.Volume.Ref.{VolumeRef, ref_from_id, dev_path}
use csi_sanlock_lvm.Volume.Pattern.{volume_id_re}
use csi_sanlock_lvm.Lvmctrld.{LvmCtrld, LogicalVolume, LvResizeRequest}
use csi_sanlock_lvm.Base.Exec.{Exec, pure, raise, lift, check, ◌>>=◌, ◌>>◌}
use csi_sanlock_lvm.Driver.Fetch.{fetch, tags_of}
use csi_sanlock_lvm.Driver.NodeId.{atoi}
use csi_sanlock_lvm.Driver.Capability.{
  VolumeCapability, MountVolume, mount_volume, AccessType, VolumeAccessType, get_access_type,
}
use csi_sanlock_lvm.Driver.FileSystem.{FileSystem, Host, new_file_system, accepts, wrap}
use csi_sanlock_lvm.Driver.FileSystem
use csi_sanlock_lvm.Driver.Lock.{Locker, default_lock_op, lock_volume, unlock_volume}

pub record StageRequest : Type 0 where
  pub volume_id : Bytes
  pub staging_target_path : Bytes
  pub volume_capability : Option VolumeCapability

pub record PublishRequest : Type 0 where
  pub volume_id : Bytes
  pub staging_target_path : Bytes
  pub target_path : Bytes
  pub volume_capability : Option VolumeCapability
  pub readonly : Bool

unfoldable pub is_empty : Bytes → Bool
is_empty [] = true
is_empty (b ∷ s) = false

-- An invalid volume id is an invalid argument.
unfoldable pub parse_id : Bytes → Result VolumeRef
parse_id volume_id = elim (ref_from_id volume_id) [ ok v ↦ ok v | err _ ↦ err invalid_argument ]

unfoldable pub the_capability : Option VolumeCapability → Result VolumeCapability
the_capability none = err invalid_argument
the_capability (some c) = ok c

-- `volumeGid`: the group of a mount, if it names one.
unfoldable pub volume_gid : AccessType → Result (Option ℤ)
volume_gid (AccessType.mount_volume m) =
    if is_empty m.volume_mount_group
    then ok none
    else elim (atoi m.volume_mount_group) [ none ↦ err invalid_argument | some gid ↦ ok (some gid) ]
volume_gid _ = ok none

unfoldable pub flags_of : AccessType → List Bytes
flags_of (AccessType.mount_volume m) = m.mount_flags
flags_of _ = []

-- An action on the world behind the locker.
abbrev pub outside : {W A : Type 0} → Exec W A → Exec (Locker W) A
outside m s = let (r, w) = m s.world in (r, record s { world = w })

-- The file system that the volume's tags name.
unfoldable pub fs_of : LogicalVolume → Result FileSystem
fs_of lv = elim (tags_of lv) [
  | err e ↦ err e
  | ok tags ↦ elim (lookup fs_tag_key tags) [
    | none ↦ err internal
    | some name ↦ ok (new_file_system name)
  ]
]

-- The checks of NodeStageVolume in front of the lock.
unfoldable pub stage_arguments :
    StageRequest → Result (VolumeRef × (VolumeCapability × (VolumeAccessType × Option ℤ)))
stage_arguments req =
    if is_empty req.volume_id
    then err invalid_argument
    else elim (the_capability req.volume_capability) [
      | err e ↦ err e
      | ok capability ↦
          if is_empty req.staging_target_path
          then err invalid_argument
          else elim (get_access_type capability) [
            | err e ↦ err e
            | ok t ↦ elim (volume_gid capability.access_type) [
              | err e ↦ err e
              | ok gid ↦ elim (parse_id req.volume_id) [
                | err e ↦ err e
                | ok vol ↦ ok (vol, (capability, (t, gid)))
              ]
            ]
          ]
    ]

module _ {W : Type 0} (client : LvmCtrld W) (host : Host W) where
  unfoldable pub volume_fs : VolumeRef → Exec (Locker W) FileSystem
  volume_fs vol = do lv ← outside (fetch client vol); lift (fs_of lv)

  -- The part of NodeStageVolume under the lock.
  unfoldable pub stage_locked :
      VolumeRef → Bytes → AccessType → VolumeAccessType → Option ℤ → Exec (Locker W) (Unit {0})
  stage_locked vol staging_path access access_type gid = do
    fs ← volume_fs vol
    check (accepts fs access_type) invalid_argument
    outside (FileSystem.stage host fs (dev_path vol) staging_path (flags_of access) gid)

  unfoldable pub stage_at :
      VolumeRef → Bytes → AccessType → VolumeAccessType → Option ℤ → Exec (Locker W) (Unit {0})
  stage_at vol staging_path access access_type gid = do
    lock_volume client vol default_lock_op
    stage_locked vol staging_path access access_type gid

  unfoldable pub node_stage_volume : StageRequest → Exec (Locker W) (Unit {0})
  node_stage_volume req s = elim (stage_arguments req) [
    | err e ↦ (err e, s)
    | ok (vol, (capability, (t, gid))) ↦
        stage_at vol req.staging_target_path capability.access_type t gid s
  ]

  -- The part of NodeUnstageVolume in front of the unlock.
  unfoldable pub unstage_mount : VolumeRef → Bytes → Exec (Locker W) (Unit {0})
  unstage_mount vol staging_path = do
    fs ← volume_fs vol
    outside (FileSystem.unstage host fs staging_path)

  unfoldable pub node_unstage_volume : Bytes → Bytes → Exec (Locker W) (Unit {0})
  node_unstage_volume volume_id staging_path = do
    check (not (is_empty volume_id)) invalid_argument
    check (not (is_empty staging_path)) invalid_argument
    vol ← lift (parse_id volume_id)
    unstage_mount vol staging_path
    unlock_volume client vol default_lock_op

  unfoldable pub node_publish_volume : PublishRequest → Exec (Locker W) (Unit {0})
  node_publish_volume req = do
    check (not (is_empty req.volume_id)) invalid_argument
    capability ← lift (the_capability req.volume_capability)
    check (not (is_empty req.target_path)) invalid_argument
    check (not (is_empty req.staging_target_path)) invalid_argument
    t ← lift (get_access_type capability)
    vol ← lift (parse_id req.volume_id)
    fs ← volume_fs vol
    check (accepts fs t) invalid_argument
    outside (
        FileSystem.publish host fs (dev_path vol) req.staging_target_path req.target_path
          req.readonly)

  unfoldable pub node_unpublish_volume : Bytes → Bytes → Exec (Locker W) (Unit {0})
  node_unpublish_volume volume_id target_path = do
    check (not (is_empty volume_id)) invalid_argument
    check (not (is_empty target_path)) invalid_argument
    vol ← lift (parse_id volume_id)
    fs ← volume_fs vol
    outside (FileSystem.unpublish host fs target_path)

  unfoldable pub resize_error : Exec W (Unit {0}) → Exec W (Unit {0})
  resize_error m w = elim (m w).0 [
    | ok _ ↦ m w
    | err Code.out_of_range ↦ m w
    | err _ ↦ (err internal, (m w).1)
  ]

  -- The capacity range is there: a request without one is a panic.
  unfoldable pub node_expand_volume : Bytes → Bytes → ℤ → Exec (Locker W) (Unit {0})
  node_expand_volume volume_id volume_path required = do
    let required_bytes = uint64 required
    check (not (is_empty volume_id)) invalid_argument
    check (volume_id_re volume_id) not_found
    check (not (is_empty volume_path)) invalid_argument
    vol ← lift (parse_id volume_id)
    lv ← outside (fetch client vol)
    fs ← lift (fs_of lv)
    if ltb lv.lv_size required_bytes
        then outside (
            resize_error (
              client.lv_resize
                (record { vg_name = vol.vg_name; lv_name = vol.lv_name; size = required_bytes })))
        else pure tt
    outside (wrap internal (FileSystem.grow host fs (dev_path vol)))
