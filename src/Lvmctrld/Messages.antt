-- ===== src/Lvmctrld/Messages.antt =====
-- The messages of pkg/proto/lvmctrld.proto, and the client.
use csi_sanlock_lvm.Base.{ℕ, List, Bytes, Result}

pub data ActivationMode : Type 0 where
  mode_none active_exclusive active_shared deactivate : ActivationMode

pub data DeviceOpen : Type 0 where
  device_unknown device_open : DeviceOpen

-- The time is kept as the text of the report.
pub record LogicalVolume : Type 0 where
  pub lv_name : Bytes
  pub vg_name : Bytes
  pub lv_attr : Bytes
  pub lv_size : ℕ
  pub pool_lv : Bytes
  pub origin : Bytes
  pub data_percent : Bytes
  pub metadata_percent : Bytes
  pub move_pv : Bytes
  pub mirror_log : Bytes
  pub copy_percent : Bytes
  pub convert_lv : Bytes
  pub lv_tags : List Bytes
  pub lv_role : List Bytes
  pub lv_time : Bytes
  pub lv_device_open : DeviceOpen

pub record VolumeGroup : Type 0 where
  pub vg_name : Bytes
  pub pv_count : ℕ
  pub lv_count : ℕ
  pub snap_count : ℕ
  pub vg_attr : Bytes
  pub vg_size : ℕ
  pub vg_free : ℕ
  pub vg_tags : List Bytes

pub record VgsRequest : Type 0 where
  pub select : Bytes
  pub target : List Bytes

pub record LvCreateRequest : Type 0 where
  pub vg_name : Bytes
  pub lv_name : Bytes
  pub activate : ActivationMode
  pub size : ℕ
  pub origin : Bytes
  pub lv_tags : List Bytes

pub record LvRemoveRequest : Type 0 where
  pub select : Bytes
  pub target : List Bytes

pub record LvResizeRequest : Type 0 where
  pub vg_name : Bytes
  pub lv_name : Bytes
  pub size : ℕ

pub record LvsRequest : Type 0 where
  pub select : Bytes
  pub sort : List Bytes
  pub target : List Bytes

pub record LvChangeRequest : Type 0 where
  pub target : List Bytes
  pub activate : ActivationMode
  pub add_tag : List Bytes
  pub del_tag : List Bytes
  pub select : Bytes

-- The client's view of the daemon: each call may change the world `W` (volumes, locks of other
-- hosts) and may fail.
pub record LvmCtrld (W : Type 0) : Type 0 where
  pub vgs : VgsRequest → W → Result (List VolumeGroup) × W
  pub lv_create : LvCreateRequest → W → Result (Unit {0}) × W
  pub lv_remove : LvRemoveRequest → W → Result (Unit {0}) × W
  pub lvs : LvsRequest → W → Result (List LogicalVolume) × W
  pub lv_resize : LvResizeRequest → W → Result (Unit {0}) × W
  pub lv_change : LvChangeRequest → W → Result (Unit {0}) × W
