-- ===== src/Driver/Fetch.antt =====
-- Looking up one volume (pkg/driverd/baseserver.go, `lvsVolume` of pkg/driverd/nodeserver.go, and
-- pkg/driverd/volumeinfo.go).
use csi_sanlock_lvm.Base.{List, [], ◌∷◌, Result, ok, err, Code, not_found, internal, panicked}
use csi_sanlock_lvm.Tags.KeyValue.{TagMap, decode_tags}
use csi_sanlock_lvm.Volume.Ref.{VolumeRef, vg_lv}
use csi_sanlock_lvm.Lvmctrld.{LogicalVolume, LvsRequest, LvmCtrld}
use csi_sanlock_lvm.Base.Exec.{Exec}

unfoldable pub ref_from_lv : LogicalVolume → VolumeRef
ref_from_lv lv = record { lv_name = lv.lv_name; vg_name = lv.vg_name }

unfoldable pub origin_ref : LogicalVolume → VolumeRef
origin_ref lv = record { lv_name = lv.origin; vg_name = lv.vg_name }

-- VolumeInfo.Tags: an error of the decoder becomes Internal.
unfoldable pub tags_of : LogicalVolume → Result TagMap
tags_of lv = elim (decode_tags lv.lv_tags) [ ok m ↦ ok m | err _ ↦ err internal ]

-- The first volume of the report. On an empty report `lvs.Lvs[0]` panics.
unfoldable pub first_volume : Result (List LogicalVolume) → Result LogicalVolume
first_volume (ok []) = err panicked
first_volume (ok (lv ∷ lvs)) = ok lv
first_volume (err Code.not_found) = err not_found
first_volume (err _) = err internal

abbrev pub one_target : VolumeRef → LvsRequest
one_target ref = record { select = []; sort = []; target = vg_lv ref ∷ [] }

module _ {W : Type 0} (client : LvmCtrld W) where
  unfoldable pub fetch : VolumeRef → Exec W LogicalVolume
  fetch ref w = let (r, w') = client.lvs (one_target ref) w in (first_volume r, w')
