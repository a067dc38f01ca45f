-- ===== src/Driver/Controller/Volumes.antt =====
-- Volumes in the controller service (pkg/driverd/controllerserver.go): DeleteVolume,
-- ValidateVolumeCapabilities, GetCapacity, ControllerExpandVolume and ListVolumes. These calls do not
-- use the volume locker.
use csi_sanlock_lvm.Base.{
  ℕ, ◌+◌, ◌≡◌, List, [], ◌∷◌, ◌++◌, map, Bytes, codes, bytes_eq, Option, none, some, Bool, true,
  false, not, leb, ◌&&◌, if◌then◌else◌, Result, ok, err, Code, invalid_argument, internal,
  not_found, failed_precondition, unknown, arith, ◌⊎◌, All,
}
use csi_sanlock_lvm.Base.Int.{ℤ, int64_of, uint64}
use csi_sanlock_lvm.Tags.KeyValue.{TagMap, get, fs_tag_key}
use csi_sanlock_lvm.Volume.Ref.{VolumeRef, id, vg_lv, volume_lv_prefix}
use csi_sanlock_lvm.Volume.Pattern.{volume_id_re, vg_re}
use csi_sanlock_lvm.Lvmctrld.{LvmCtrld, LogicalVolume, VolumeGroup, LvsRequest}
use csi_sanlock_lvm.Base.Exec.{Exec, pure, raise, lift, check, ◌>>=◌, ◌>>◌}
use csi_sanlock_lvm.Driver.Fetch.{fetch, tags_of, ref_from_lv}
use csi_sanlock_lvm.Driver.Capability.{AccessMode, AccessType}
use csi_sanlock_lvm.Driver.FileSystem.{block_access_fs_name, wrap}
use csi_sanlock_lvm.Driver.Node.{parse_id, is_empty}
use csi_sanlock_lvm.Driver.Controller.Pages.{page}

-- A capability to be validated may leave its access mode out.
pub record RequestedCapability : Type 0 where
  pub access_mode : Option AccessMode
  pub access_type : AccessType

abbrev is_validated_mode : AccessMode → Bool
is_validated_mode AccessMode.single_node_writer = true
is_validated_mode AccessMode.single_node_reader_only = true
is_validated_mode _ = false

unfoldable pub is_valid : TagMap → RequestedCapability → Bool
is_valid tags c =
    elim c.access_mode [ none ↦ true | some m ↦ is_validated_mode m ] && elim c.access_type [
      | AccessType.no_access_type ↦ true
      | AccessType.block_volume ↦ bytes_eq (get tags fs_tag_key) block_access_fs_name
      | AccessType.mount_volume m ↦ bytes_eq (get tags fs_tag_key) m.fs_type
    ]

-- `validCap`: of a mount only the file system of the volume is confirmed.
unfoldable pub confirmed : TagMap → RequestedCapability → RequestedCapability
confirmed tags c = record {
  access_mode = c.access_mode;
  access_type = elim c.access_type [
    | AccessType.no_access_type ↦ AccessType.no_access_type
    | AccessType.block_volume ↦ AccessType.block_volume
    | AccessType.mount_volume _ ↦
        AccessType.mount_volume
          (record { fs_type = get tags fs_tag_key; mount_flags = []; volume_mount_group = [] })
  ];
}

-- The loop over the capabilities, with `valid` and `validCaps`.
unfoldable pub validate :
    TagMap
    → List RequestedCapability
    → Bool × List RequestedCapability
    → Bool × List RequestedCapability
validate tags [] (valid, caps) = (valid, caps)
validate tags (c ∷ cs) (valid, caps) =
    validate tags cs (valid && is_valid tags c, caps ++ confirmed tags c ∷ [])

unfoldable pub sum_free : List VolumeGroup → ℕ
sum_free [] = 0
sum_free (vg ∷ vgs) = vg.vg_free + sum_free vgs

-- The select expression of GetCapacity.
unfoldable pub capacity_filter : Option Bytes → Result Bytes
capacity_filter none = ok []
capacity_filter (some vg_name) =
    if vg_re vg_name then ok (codes "vg_name=" ++ vg_name) else err invalid_argument

pub record Volume : Type 0 where
  pub volume_id : Bytes
  pub capacity_bytes : ℤ

unfoldable pub lv_to_volume : LogicalVolume → Volume
lv_to_volume lv = record { volume_id = id (ref_from_lv lv); capacity_bytes = int64_of lv.lv_size }

unfoldable pub list_entries : List LogicalVolume × Bytes → List Volume × Bytes
list_entries (lvs, next) = (map lv_to_volume lvs, next)

module _ {W : Type 0} (client : LvmCtrld W) where
  -- What DeleteVolume answers when it looks for the volume after lvremove.
  unfoldable pub after_remove : Result (List LogicalVolume) → Result (Unit {0})
  after_remove (ok _) = err failed_precondition
  after_remove (err Code.not_found) = ok tt
  after_remove (err _) = err internal

  unfoldable pub remove_volume : VolumeRef → Exec W (Unit {0})
  remove_volume vol w =
      let (removed, w1) =
        client.lv_remove (record { select = codes "lv_role!=origin"; target = vg_lv vol ∷ [] }) w in
      let (listed, w2) =
        client.lvs (record { select = []; sort = []; target = vg_lv vol ∷ [] }) w1 in
      elim removed [
        | ok _ ↦ (after_remove listed, w2)
        | err Code.not_found ↦ (ok tt, w1)
        | err _ ↦ (err internal, w1)
      ]

  unfoldable pub delete_volume : Bytes → Exec W (Unit {0})
  delete_volume volume_id w =
      if is_empty volume_id
      then (err invalid_argument, w)
      else if not (volume_id_re volume_id)
      then (ok tt, w)
      else (lift (parse_id volume_id) >>= remove_volume) w

  -- `none` is the answer that confirms nothing.
  unfoldable pub validate_volume_capabilities :
      Bytes → List RequestedCapability → Exec W (Option (List RequestedCapability))
  validate_volume_capabilities volume_id [] = do
    check (not (is_empty volume_id)) invalid_argument
    check (volume_id_re volume_id) not_found
    raise invalid_argument
  validate_volume_capabilities volume_id (c ∷ cs) = do
    check (not (is_empty volume_id)) invalid_argument
    check (volume_id_re volume_id) not_found
    vol ← lift (parse_id volume_id)
    lv ← fetch client vol
    tags ← lift (tags_of lv)
    let (valid, caps) = validate tags (c ∷ cs) (true, [])
    pure (if valid then some caps else none)

  -- The sum of int64 wraps around.
  unfoldable pub get_capacity : Option Bytes → Exec W ℤ
  get_capacity vg_name = do
    filter ← lift (capacity_filter vg_name)
    vgs ← wrap internal (client.vgs (record { select = filter; target = [] }))
    pure (int64_of (sum_free vgs))

  -- The required bytes are those of a range that is there.
  unfoldable pub controller_expand_volume : Bytes → Option ℤ → Exec W (ℤ × Bool)
  controller_expand_volume volume_id none = do
    check (not (is_empty volume_id)) invalid_argument
    check (volume_id_re volume_id) not_found
    raise invalid_argument
  controller_expand_volume volume_id (some required) = do
    check (not (is_empty volume_id)) invalid_argument
    check (volume_id_re volume_id) not_found
    vol ← lift (parse_id volume_id)
    lv ← fetch client vol
    let required_bytes = uint64 required
    pure (
        if leb required_bytes lv.lv_size
        then (int64_of lv.lv_size, true)
        else (int64_of required_bytes, true))

  abbrev list_request : LvsRequest
  list_request = record {
    select = codes "lv_name=~^" ++ volume_lv_prefix;
    sort = codes "vg_name" ∷ codes "lv_name" ∷ [];
    target = [];
  }

  unfoldable pub list_volumes : Bytes → ℤ → Exec W (List Volume × Bytes)
  list_volumes starting_token max_entries = do
    lvs ← wrap internal (client.lvs list_request)
    found ← lift (page unknown starting_token max_entries lvs)
    pure (list_entries found)

  -- DeleteVolume answers with success only if the id is no id of the driver, or the daemon said that
  -- it does not know the volume, at the removal or when it was looked for afterwards.
  pub delete_volume-gone :
      (volume_id : Bytes) (vol : VolumeRef) (w : W)
      → volume_id_re volume_id ≡ true
      → parse_id volume_id ≡ ok vol
      → (delete_volume volume_id w).0 ≡ ok tt
      → let removed =
          client.lv_remove
            (record { select = codes "lv_role!=origin"; target = vg_lv vol ∷ [] })
            w in
        let listed =
          client.lvs (record { select = []; sort = []; target = vg_lv vol ∷ [] }) removed.1 in
        ((removed.0 ≡ err not_found) × ((delete_volume volume_id w).1 ≡ removed.1))
        ⊎ ((removed.0 ≡ ok tt)
            × (listed.0 ≡ err not_found)
            × ((delete_volume volume_id w).1 ≡ listed.1))
  unfolding delete_volume remove_volume after_remove
  delete_volume-gone volume_id vol w r p h = ground arith

validate-fst :
    (tags : TagMap) (cs : List RequestedCapability) (b : Bool) (caps : List RequestedCapability)
    → (validate tags cs (b, caps)).0 ≡ true
    → (b ≡ true) × All (λ c. is_valid tags c ≡ true) cs
unfolding validate
validate-fst tags [] b caps h = (h, tt)
validate-fst tags (c ∷ cs) b caps h =
    let (v, rest) = validate-fst tags cs (b && is_valid tags c) (caps ++ confirmed tags c ∷ []) h in
    (ground arith, (ground arith, rest))

-- The capabilities are confirmed only if each of them is valid for the volume.
pub validate_sound :
    (tags : TagMap) (cs : List RequestedCapability)
    → (validate tags cs (true, [])).0 ≡ true
    → All (λ c. is_valid tags c ≡ true) cs
validate_sound tags cs h = (validate-fst tags cs true [] h).1
