-- ===== src/Examples/Services.antt =====
-- The services, against a daemon that knows one volume and a host that accepts every call.
use csi_sanlock_lvm.Base.{
  inl, has_prefix, ℕ, ◌+◌, ◌≡◌, ◌⊎◌, refl, arith, [], ◌∷◌, Bytes, true, false, ◌&&◌, codes,
  bytes_eq, none, some, ok, err, internal, unknown, not_found, All, all,
}
use csi_sanlock_lvm.Base.Int.{pos}
use csi_sanlock_lvm.Volume.Ref.{VolumeRef, vg_lv, id, ref_from_id, split, ref_of_tokens, cons_part}
use csi_sanlock_lvm.Volume.Pattern.{is_name_head, is_name_char, vg_re, volume_id_re}
use csi_sanlock_lvm.Lvmctrld.{LvmCtrld, LogicalVolume, device_unknown}
use csi_sanlock_lvm.Driver.Fetch.{tags_of, ref_from_lv}
use csi_sanlock_lvm.Driver.Lock.{Locker, entry, default_lock_op}
use csi_sanlock_lvm.Driver.Lock.Table.{ops_of, mem}
use csi_sanlock_lvm.Driver.Lock.Laws.{held}
use csi_sanlock_lvm.Driver.Capability.{
  single_node_writer, VolumeCapability, block_volume, is_supported, compat, deep_equal, reduce_mode,
  reduce_from, reduce_volume_capabilities, reduce_volume_capabilities_sound,
}
use csi_sanlock_lvm.Driver.FileSystem.{Host, PathError, block_access_fs_name}
use csi_sanlock_lvm.Driver.Node.{StageRequest, parse_id, is_empty, node_stage_volume}
use csi_sanlock_lvm.Driver.Node.Laws.{node_stage_volume-others}
use csi_sanlock_lvm.Driver.Controller.Volumes.{
  delete_volume, remove_volume, after_remove, delete_volume-gone,
}
use csi_sanlock_lvm.Driver.Controller.Pages.{IsListed, IsDistinct}
use csi_sanlock_lvm.Driver.Controller.Paging.{all_pages, all_pages-whole}
use csi_sanlock_lvm.Driver.Controller.Snapshots.{delete_snapshot}
use csi_sanlock_lvm.Driver.Controller.Create.{
  CreateVolumeRequest, Copier, create_volume, volume_size,
}
use csi_sanlock_lvm.Driver.Controller.CreateLaws.{of_range, IsSizeFor, volume_size-IsSizeFor}
use csi_sanlock_lvm.Driver.Controller.CreateLocks.{create_volume-locks}
use csi_sanlock_lvm.Tags.Encoder.{encode_tag, is_plain, decode_tag}
use csi_sanlock_lvm.Tags.KeyValue.{
  encode_tag_kv, fs_tag_key, decode_tags, decode_tag_kv, encoded_tag_prefix, cut_pair, index,
  lookup, get,
}
use csi_sanlock_lvm.Driver.RpcService.{
  Roles, rpc_role_lock, rpc_role_data, find_roles, add_role, both_roles, count_role,
  find_roles_sound,
}
use csi_sanlock_lvm.Driver.Controller.SnapshotLaws.{delete_snapshot-locks}

abbrev vol : VolumeRef
vol = record { lv_name = codes "csl-v-abc"; vg_name = codes "vg00" }

abbrev vol_id : Bytes
vol_id = codes "csl-v-abc@vg00"

abbrev row : LogicalVolume
row = record {
  lv_name = codes "csl-v-abc";
  vg_name = codes "vg00";
  lv_attr = [];
  lv_size = 1024;
  pool_lv = [];
  origin = [];
  data_percent = [];
  metadata_percent = [];
  move_pv = [];
  mirror_log = [];
  copy_percent = [];
  convert_lv = [];
  lv_tags = [];
  lv_role = [];
  lv_time = [];
  lv_device_open = device_unknown;
}

abbrev accepting : LvmCtrld ℕ
accepting = record {
  vgs = λ r n. (ok [], n);
  lv_create = λ r n. (ok tt, n);
  lv_remove = λ r n. (ok tt, 1 + n);
  lvs = λ r n. (ok (row ∷ []), n);
  lv_resize = λ r n. (ok tt, n);
  lv_change = λ r n. (ok tt, n);
}

abbrev removing : LvmCtrld ℕ
removing = record {
  vgs = λ r n. (ok [], n);
  lv_create = λ r n. (ok tt, n);
  lv_remove = λ r n. (ok tt, 1 + n);
  lvs = λ r n. (err not_found, n);
  lv_resize = λ r n. (ok tt, n);
  lv_change = λ r n. (ok tt, n);
}

abbrev busy_mount : Host ℕ
busy_mount = record {
  is_likely_not_mount_point = λ p n. ((false, none), n);
  mount = λ a b c d n. (ok tt, n);
  unmount = λ p n. (err unknown, 1 + n);
  open_file = λ p m n. (ok tt, n);
  close_file = λ p n. (ok tt, n);
  mkdir_all = λ p m n. (ok tt, n);
  remove_all = λ p n. (ok tt, n);
  chown_group = λ p g n. (ok tt, n);
  chmod = λ p m n. (ok tt, n);
  statfs = λ p n. (inl PathError.path_not_exist, n);
  run = λ p a n. (none, n);
}

abbrev block_writer : VolumeCapability
block_writer = record { access_mode = single_node_writer; access_type = block_volume }

reduced : reduce_volume_capabilities (block_writer ∷ block_writer ∷ []) ≡ ok (some block_writer)
unfolding reduce_volume_capabilities reduce_from reduce_mode is_supported compat deep_equal
reduced = refl

reduce_volume_capabilities_sound_example :
    (is_supported single_node_writer ≡ true)
    × (block_writer.access_type ≡ block_volume)
    × All (λ d. deep_equal block_writer.access_type d.access_type ≡ true) (block_writer ∷ [])
reduce_volume_capabilities_sound_example =
    reduce_volume_capabilities_sound block_writer block_writer (block_writer ∷ []) reduced

accepted : volume_id_re vol_id ≡ true
unfolding volume_id_re is_name_head is_name_char vg_re all
accepted = refl

parsed : parse_id vol_id ≡ ok vol
unfolding parse_id ref_from_id split ref_of_tokens cons_part
parsed = refl

deleted : (delete_volume removing vol_id 0).0 ≡ ok tt
unfolding delete_volume remove_volume after_remove is_empty volume_id_re is_name_head is_name_char
    vg_re all parse_id ref_from_id split ref_of_tokens cons_part
deleted = refl

delete_volume-gone_example :
    let removed =
      removing.lv_remove (record { select = codes "lv_role!=origin"; target = vg_lv vol ∷ [] }) 0 in
    let listed =
      removing.lvs (record { select = []; sort = []; target = vg_lv vol ∷ [] }) removed.1 in
    ((removed.0 ≡ err not_found) × ((delete_volume removing vol_id 0).1 ≡ removed.1))
    ⊎ ((removed.0 ≡ ok tt)
        × (listed.0 ≡ err not_found)
        × ((delete_volume removing vol_id 0).1 ≡ listed.1))
delete_volume-gone_example = delete_volume-gone removing vol_id vol 0 accepted parsed deleted

abbrev idle : Locker ℕ
idle = record { node_id = 7; node_name = codes "node-7"; locks = []; world = 0 }

fresh : (k : Bytes) → held idle.locks k (codes "DeleteSnapshot(1)") ≡ false
unfolding entry ops_of mem
fresh k = refl

delete_snapshot-locks_example :
    held
      (delete_snapshot accepting vol_id
        (codes "DeleteSnapshot(1)")
        (λ n w. (ok tt, w))
        idle).1.locks
      (vg_lv vol)
      (codes "stage")
    ≡ held idle.locks (vg_lv vol) (codes "stage")
delete_snapshot-locks_example =
    delete_snapshot-locks accepting vol_id (codes "DeleteSnapshot(1)") (λ n w. (ok tt, w)) idle
      (vg_lv vol) (codes "stage") fresh

abbrev stage_request : StageRequest
stage_request = record {
  volume_id = vol_id;
  staging_target_path = codes "/stage";
  volume_capability = some block_writer;
}

other_operation :
    (bytes_eq (vg_lv vol) (vg_lv vol) && bytes_eq default_lock_op (codes "copy")) ≡ false
unfolding bytes_eq vg_lv
other_operation = refl

node_stage_volume-others_example :
    held
      (node_stage_volume accepting busy_mount stage_request idle).1.locks
      (vg_lv vol)
      (codes "copy")
    ≡ held idle.locks (vg_lv vol) (codes "copy")
node_stage_volume-others_example =
    node_stage_volume-others accepting busy_mount stage_request vol idle (vg_lv vol) (codes "copy")
      parsed other_operation

abbrev second_row : LogicalVolume
second_row = record row { lv_name = codes "csl-v-def" }

two-IsDistinct : IsDistinct (row ∷ second_row ∷ [])
unfolding bytes_eq ref_from_lv
two-IsDistinct = ((refl, tt), (tt, tt))

two-IsListed : All IsListed (row ∷ second_row ∷ [])
unfolding volume_id_re is_name_head is_name_char vg_re all ref_from_id split ref_of_tokens cons_part
    id ref_from_lv
two-IsListed = ((refl, refl), ((refl, refl), tt))

all_pages-whole_example :
    all_pages internal (pos 1) (row ∷ second_row ∷ []) 3 [] ≡ some (row ∷ second_row ∷ [])
all_pages-whole_example =
    all_pages-whole internal (pos 1) (row ∷ second_row ∷ []) two-IsDistinct two-IsListed

abbrev copier : Copier ℕ
copier = record {
  open_source = λ p n. (ok tt, n);
  open_target = λ p n. (ok tt, n);
  copy = λ p q n. (ok 1024, n);
  close = λ p n. (ok tt, n);
}

-- The same volume, with its file system; the world counts the calls of lvchange.
abbrev tagged_row : LogicalVolume
tagged_row = record row { lv_tags = encode_tag_kv fs_tag_key block_access_fs_name ∷ [] }

abbrev counting : LvmCtrld ℕ
counting = record {
  vgs = λ r n. (ok [], n);
  lv_create = λ r n. (ok tt, n);
  lv_remove = λ r n. (ok tt, n);
  lvs = λ r n. (ok (tagged_row ∷ []), n);
  lv_resize = λ r n. (ok tt, n);
  lv_change = λ r n. (ok tt, 1 + n);
}

-- A clone of the volume.
abbrev create_request : CreateVolumeRequest
create_request = record {
  name = codes "v1";
  volume_capabilities = block_writer ∷ [];
  vg_name = codes "vg00";
  capacity_range = some (of_range 1000 4096);
  volume_content_source = some (record { snapshot = none; volume = some vol_id });
}

none_held : (o k : Bytes) → held idle.locks k o ≡ false
unfolding entry ops_of mem
none_held o k = refl

two_ids : bytes_eq (codes "CreateVolume(a)") (codes "CreateVolume(b)") ≡ false
unfolding bytes_eq
two_ids = refl

create_volume-locks_example :
    held
      (create_volume counting busy_mount copier
        (λ b. b)
        (λ vols. vols)
        (codes "ext4")
        create_request
        (codes "CreateVolume(a)")
        (codes "CreateVolume(b)")
        (codes "temp")
        (λ n w. (err unknown, w))
        idle).1.locks
      (vg_lv vol)
      (codes "stage")
    ≡ held idle.locks (vg_lv vol) (codes "stage")
create_volume-locks_example =
    create_volume-locks counting busy_mount copier (λ b. b) (λ vols. vols) (codes "ext4")
      create_request (codes "CreateVolume(a)") (codes "CreateVolume(b)") (codes "temp")
      (λ n w. (err unknown, w)) idle (vg_lv vol) (codes "stage")
      (none_held (codes "CreateVolume(a)")) (none_held (codes "CreateVolume(b)")) two_ids

volume_size-IsSizeFor_example : IsSizeFor 1000 4096 (volume_size (some (of_range 1000 4096)))
volume_size-IsSizeFor_example = volume_size-IsSizeFor 1000 4096 (omega arith) (omega arith)

abbrev rpc_lock : LogicalVolume
rpc_lock = record row {
  lv_name = codes "rpc-lock";
  lv_tags = codes "csi-sanlock-lvm.vleo.net/rpcRole=lock" ∷ [];
}

abbrev rpc_data : LogicalVolume
rpc_data = record row {
  lv_name = codes "rpc-data";
  lv_tags = codes "csi-sanlock-lvm.vleo.net/rpcRole=data" ∷ [];
}

abbrev both : Roles
both = record { lock_vol = some (ref_from_lv rpc_lock); data_vol = some (ref_from_lv rpc_data) }

both_found :
    find_roles (record { lock_vol = none; data_vol = none }) (rpc_data ∷ rpc_lock ∷ []) ≡ ok both
unfolding find_roles add_role tags_of decode_tags decode_tag_kv has_prefix encoded_tag_prefix
    encode_tag is_plain decode_tag cut_pair index lookup bytes_eq get
both_found = refl

both_there : both_roles both ≡ ok (ref_from_lv rpc_lock, ref_from_lv rpc_data)
unfolding both_roles
both_there = refl

find_roles_sound_example :
    (count_role rpc_role_lock (rpc_data ∷ rpc_lock ∷ []) ≡ 1)
    × (count_role rpc_role_data (rpc_data ∷ rpc_lock ∷ []) ≡ 1)
find_roles_sound_example =
    find_roles_sound both (rpc_data ∷ rpc_lock ∷ []) (ref_from_lv rpc_lock, ref_from_lv rpc_data)
      both_found both_there
