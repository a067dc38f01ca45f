-- ===== src/Lvmctrld/Server.antt =====
-- The server side of lvmctrld (pkg/lvmctrld/lvmctrldserver.go). A request becomes one run of an LVM
-- command. The run and the decoding of its JSON report are parameters: processes and the package
-- encoding/json are not code of the repository.
use csi_sanlock_lvm.Base.{
  ℕ, List, [], ◌∷◌, ◌++◌, map, Bytes, codes, itoa, bytes_eq, Option, some, Bool, false, not, ◌&&◌,
  ◌||◌, leb, ◌==◌, if◌then◌else◌, Result, ok, err, unknown, all,
}
use csi_sanlock_lvm.Base.Int.{ℤ, pos, eqb_ℤ}
use csi_sanlock_lvm.Volume.Ref.{split}
use csi_sanlock_lvm.Lvmctrld.Messages.{
  ActivationMode, DeviceOpen, device_open, device_unknown, LogicalVolume, VolumeGroup, VgsRequest,
  LvCreateRequest, LvRemoveRequest, LvResizeRequest, LvsRequest, LvChangeRequest, LvmCtrld,
}
use csi_sanlock_lvm.Lvmctrld.Errors.{parse_lvm_error}

-- What a command leaves: its exit code, its output, and whether running it failed.
pub record Outcome : Type 0 where
  pub code : ℤ
  pub stdout : Bytes
  pub stderr : Bytes
  pub failed : Bool

-- A row of a report: the fields that the code passes on as they are, and those that it decodes.
pub record LvmReportLvs : Type 0 where
  pub lv_name : Bytes
  pub vg_name : Bytes
  pub lv_attr : Bytes
  pub lv_size : ℕ
  pub pool_lv : Bytes
  pub origin : Bytes
  pub data_percent : Bytes
  pub metadata_percent : Bytes
  pub move_pv : Bytes
  pub mirror_log : Bytes
  pub copy_percent : Bytes
  pub convert_lv : Bytes
  pub lv_tags : Bytes
  pub lv_role : Bytes
  pub lv_time : Bytes
  pub lv_device_open : Bytes

pub record LvmReportVgs : Type 0 where
  pub vg_name : Bytes
  pub pv_count : ℕ
  pub lv_count : ℕ
  pub snap_count : ℕ
  pub vg_attr : Bytes
  pub vg_size : ℕ
  pub vg_free : ℕ
  pub vg_tags : Bytes

-- One element of the report's list: its rows of volumes and of groups.
pub record Section : Type 0 where
  pub lvs : List LvmReportLvs
  pub vgs : List LvmReportVgs

pub record Host (W : Type 0) : Type 0 where
  pub exec : Bytes → List Bytes → W → Outcome × W
  pub parse_report : Bytes → Option (List Section)

-- `tagRe`: ^[A-Za-z0-9_+.\-/=!:#&]+$
unfoldable pub is_tag_char : ℕ → Bool
is_tag_char c =
    (leb b'A' c && leb c b'Z')
    || (leb b'a' c && leb c b'z')
    || (leb b'0' c && leb c b'9')
    || (c == b'_')
    || (c == b'+')
    || (c == b'.')
    || (c == b'-')
    || (c == b'/')
    || (c == b'=')
    || (c == b'!')
    || (c == b':')
    || (c == b'#')
    || (c == b'&')

unfoldable pub tag_re : Bytes → Bool
tag_re [] = false
tag_re (c ∷ s) = all is_tag_char (c ∷ s)

unfoldable pub lvm_to_activation_mode : ActivationMode → List Bytes
lvm_to_activation_mode ActivationMode.mode_none = []
lvm_to_activation_mode ActivationMode.active_exclusive = codes "-a" ∷ codes "ey" ∷ []
lvm_to_activation_mode ActivationMode.active_shared = codes "-a" ∷ codes "sy" ∷ []
lvm_to_activation_mode ActivationMode.deactivate = codes "-a" ∷ codes "n" ∷ []

-- An option that is left out if its text is empty.
unfoldable pub unless_empty : Bytes → Bytes → List Bytes
unless_empty option [] = []
unless_empty option (c ∷ s) = option ∷ (c ∷ s) ∷ []

-- One option for each of some texts.
unfoldable pub each : Bytes → List Bytes → List Bytes
each option [] = []
each option (tag ∷ tags) = option ∷ tag ∷ each option tags

-- strings.Join by a comma.
unfoldable pub join_comma : List Bytes → Bytes
join_comma [] = []
join_comma (s ∷ []) = s
join_comma (s ∷ t ∷ r) = s ++ b',' ∷ join_comma (t ∷ r)

-- `%db`: a uint64 has at most twenty digits.
unfoldable pub size_arg : ℕ → Bytes
size_arg n = itoa 20 n ++ codes "b"

unfoldable pub slashed : Bytes → Bytes → Bytes
slashed vg lv = vg ++ b'/' ∷ lv

unfoldable pub report_args : Bytes → List Bytes
report_args options =
    codes "--options"
    ∷ options
    ∷ codes "--units"
    ∷ codes "b"
    ∷ codes "--nosuffix"
    ∷ codes "--reportformat"
    ∷ codes "json"
    ∷ []

abbrev pub vgs_options : Bytes
vgs_options = codes "vg_name,pv_count,lv_count,snap_count,vg_attr,vg_size,vg_free,vg_tags"

abbrev pub lvs_options : Bytes
lvs_options =
    codes
      "lv_name,vg_name,lv_attr,lv_size,pool_lv,origin,data_percent,metadata_percent,move_pv,mirror_log,copy_percent,convert_lv,lv_tags,lv_role,lv_time,lv_device_open"

unfoldable pub vgs_args : VgsRequest → List Bytes
vgs_args req = report_args vgs_options ++ unless_empty (codes "-S") req.select ++ req.target

unfoldable pub lvs_args : LvsRequest → List Bytes
lvs_args req =
    report_args lvs_options
    ++ unless_empty (codes "-S") req.select
    ++ elim req.sort [ [] ↦ [] | s ∷ r ↦ codes "-O" ∷ join_comma (s ∷ r) ∷ [] ]
    ++ req.target

unfoldable pub lv_create_args : LvCreateRequest → List Bytes
lv_create_args req =
    codes "-y" ∷ codes "-L" ∷ size_arg req.size ∷ []
    ++ lvm_to_activation_mode req.activate
    ++ unless_empty (codes "-s") req.origin
    ++ each (codes "--addtag") req.lv_tags
    ++ codes "-n" ∷ slashed req.vg_name req.lv_name ∷ []

unfoldable pub lv_remove_args : LvRemoveRequest → List Bytes
lv_remove_args req = codes "-f" ∷ [] ++ unless_empty (codes "-S") req.select ++ req.target

unfoldable pub lv_resize_args : LvResizeRequest → List Bytes
lv_resize_args req =
    codes "-f" ∷ codes "-L" ∷ size_arg req.size ∷ slashed req.vg_name req.lv_name ∷ []

unfoldable pub lv_change_args : LvChangeRequest → List Bytes
lv_change_args req =
    lvm_to_activation_mode req.activate
    ++ each (codes "--addtag") req.add_tag
    ++ each (codes "--deltag") req.del_tag
    ++ unless_empty (codes "-S") req.select
    ++ req.target

unfoldable pub decode_lv_device_open : Bytes → DeviceOpen
decode_lv_device_open value = if bytes_eq value (codes "open") then device_open else device_unknown

unfoldable pub split_lvm_field : Bytes → List Bytes
split_lvm_field [] = []
split_lvm_field (c ∷ s) = split (c ∷ s) b','

unfoldable pub lvm_to_volume_group : LvmReportVgs → VolumeGroup
lvm_to_volume_group vg = record {
  vg_name = vg.vg_name;
  pv_count = vg.pv_count;
  lv_count = vg.lv_count;
  snap_count = vg.snap_count;
  vg_attr = vg.vg_attr;
  vg_size = vg.vg_size;
  vg_free = vg.vg_free;
  vg_tags = split_lvm_field vg.vg_tags;
}

-- The time is kept as the text of the report.
unfoldable pub lvm_to_logical_volume : LvmReportLvs → LogicalVolume
lvm_to_logical_volume lv = record {
  lv_name = lv.lv_name;
  vg_name = lv.vg_name;
  lv_attr = lv.lv_attr;
  lv_size = lv.lv_size;
  pool_lv = lv.pool_lv;
  origin = lv.origin;
  data_percent = lv.data_percent;
  metadata_percent = lv.metadata_percent;
  move_pv = lv.move_pv;
  mirror_log = lv.mirror_log;
  copy_percent = lv.copy_percent;
  convert_lv = lv.convert_lv;
  lv_tags = split_lvm_field lv.lv_tags;
  lv_role = split_lvm_field lv.lv_role;
  lv_time = lv.lv_time;
  lv_device_open = decode_lv_device_open lv.lv_device_open;
}

-- The error of a command, if its code is not 0 or it could not be run.
unfoldable pub answer : Outcome → Result (Unit {0})
answer o = if not (eqb_ℤ o.code (pos 0)) || o.failed then parse_lvm_error o.code o.stderr else ok tt

-- The report has one element. A nil report, which comes with a nil error, is a panic in the callers;
-- it is kept apart as `unknown`.
unfoldable pub one_section : Option (List Section) → Result Section
one_section (some (s ∷ [])) = ok s
one_section _ = err unknown

module _ {W : Type 0} (host : Host W) where
  unfoldable pub run_report : Bytes → List Bytes → W → Result Section × W
  run_report exe args w =
      let (o, w') = host.exec exe args w in
      if not (eqb_ℤ o.code (pos 0)) || o.failed
      then (elim (parse_lvm_error o.code o.stderr) [ err e ↦ err e | ok _ ↦ err unknown ], w')
      else (one_section (host.parse_report o.stdout), w')

  abbrev run : Bytes → List Bytes → W → Result (Unit {0}) × W
  run exe args w = let (o, w') = host.exec exe args w in (answer o, w')

  unfoldable pub vgs : VgsRequest → W → Result (List VolumeGroup) × W
  vgs req w =
      let (r, w') = run_report (codes "vgs") (vgs_args req) w in
      (elim r [ err e ↦ err e | ok s ↦ ok (map lvm_to_volume_group s.vgs) ], w')

  unfoldable pub lvs : LvsRequest → W → Result (List LogicalVolume) × W
  lvs req w =
      let (r, w') = run_report (codes "lvs") (lvs_args req) w in
      (elim r [ err e ↦ err e | ok s ↦ ok (map lvm_to_logical_volume s.lvs) ], w')

  -- A tag that `tagRe` refuses is an error before anything is run.
  unfoldable pub lv_create : LvCreateRequest → W → Result (Unit {0}) × W
  lv_create req w =
      if all tag_re req.lv_tags
      then run (codes "lvcreate") (lv_create_args req) w
      else (err unknown, w)

  unfoldable pub lv_remove : LvRemoveRequest → W → Result (Unit {0}) × W
  lv_remove req w = run (codes "lvremove") (lv_remove_args req) w

  unfoldable pub lv_resize : LvResizeRequest → W → Result (Unit {0}) × W
  lv_resize req w = run (codes "lvresize") (lv_resize_args req) w

  unfoldable pub lv_change : LvChangeRequest → W → Result (Unit {0}) × W
  lv_change req w = run (codes "lvchange") (lv_change_args req) w

  -- The server as its clients see it, over a connection that delivers every call and answer.
  unfoldable pub server : LvmCtrld W
  server = record {
    vgs = vgs;
    lv_create = lv_create;
    lv_remove = lv_remove;
    lvs = lvs;
    lv_resize = lv_resize;
    lv_change = lv_change;
  }
