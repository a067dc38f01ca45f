-- ===== src/Driver/Controller/SnapshotList.antt =====
-- ListSnapshots (pkg/driverd/controllerserver.go).
use csi_sanlock_lvm.Base.{
  List, [], ◌∷◌, ◌++◌, map, Bytes, codes, if◌then◌else◌, Result, ok, err, invalid_argument,
  internal, Option, none, some,
}
use csi_sanlock_lvm.Base.Int.{ℤ}
use csi_sanlock_lvm.Base.Exec.{Exec, pure, lift, ◌>>=◌}
use csi_sanlock_lvm.Volume.Ref.{VolumeRef, snapshot_lv_prefix, ref_from_id}
use csi_sanlock_lvm.Volume.Pattern.{volume_id_re}
use csi_sanlock_lvm.Lvmctrld.{LvmCtrld, LogicalVolume}
use csi_sanlock_lvm.Driver.FileSystem.{wrap}
use csi_sanlock_lvm.Driver.Controller.Pages.{page}
use csi_sanlock_lvm.Driver.Controller.Snapshots.{Snapshot, lv_to_snapshot}

pub record ListSnapshotsRequest : Type 0 where
  pub snapshot_id : Bytes
  pub source_volume_id : Bytes
  pub starting_token : Bytes
  pub max_entries : ℤ

-- The filters of an id that is given; `none` is an id that no volume of the driver has, which lists nothing.
unfoldable pub filters_of : Bytes → (VolumeRef → List Bytes) → Result (Option (List Bytes))
filters_of [] filters = ok (some [])
filters_of (b ∷ s) filters =
    if volume_id_re (b ∷ s)
    then elim (ref_from_id (b ∷ s)) [
      | ok vol ↦ ok (some (filters vol))
      | err _ ↦ err invalid_argument
    ]
    else ok none

abbrev snapshot_filters : VolumeRef → List Bytes
snapshot_filters vol = (codes "vg_name=" ++ vol.vg_name) ∷ (codes "lv_name=" ++ vol.lv_name) ∷ []

abbrev source_filters : VolumeRef → List Bytes
source_filters vol = (codes "vg_name=" ++ vol.vg_name) ∷ (codes "origin=" ++ vol.lv_name) ∷ []

-- strings.Join(filters, " && ") of a list that is not empty.
unfoldable pub join_and : Bytes → List Bytes → Bytes
join_and f [] = f
join_and f (g ∷ filters) = f ++ (codes " && " ++ join_and g filters)

abbrev snapshot_entries : List LogicalVolume × Bytes → List Snapshot × Bytes
snapshot_entries (lvs, next) = (map lv_to_snapshot lvs, next)

module _ {W : Type 0} (client : LvmCtrld W) where
  unfoldable pub list_snapshots : ListSnapshotsRequest → Exec W (List Snapshot × Bytes)
  unfolding filters_of join_and
  list_snapshots req = do by_id ← lift (filters_of req.snapshot_id snapshot_filters); with_id by_id
    where
      list : List Bytes → Exec W (List Snapshot × Bytes)
      list filters = do
        lvs ← wrap internal (
            client.lvs (record {
              select = join_and (codes "lv_name=~^" ++ snapshot_lv_prefix) filters;
              sort = codes "vg_name" ∷ codes "lv_name" ∷ [];
              target = [];
            }))
        found ← lift (page invalid_argument req.starting_token req.max_entries lvs)
        pure (snapshot_entries found)

      with_source : List Bytes → Option (List Bytes) → Exec W (List Snapshot × Bytes)
      with_source filters none = pure ([], [])
      with_source filters (some more) = list (filters ++ more)

      with_id : Option (List Bytes) → Exec W (List Snapshot × Bytes)
      with_id none = pure ([], [])
      with_id (some filters) = do
        by_source ← lift (filters_of req.source_volume_id source_filters)
        with_source filters by_source
