-- ===== src/Examples/Locks.antt =====
-- The locker and the daemons that use it, against a daemon that accepts every call.
use csi_sanlock_lvm.Base.{
  ℕ, ◌+◌, ◌≡◌, ◌≢◌, refl, [], ◌∷◌, true, false, ◌&&◌, ◌||◌, if◌then◌else◌, codes, bytes_eq, some,
  ok, arith, List, Bytes, Bool, not, bytes_eq_refl, bytes_eq_iff,
}
use csi_sanlock_lvm.Tags.KeyValue.{decode_tags, decode_tags_from, lookup}
use csi_sanlock_lvm.Volume.Ref.{VolumeRef, vg_lv}
use csi_sanlock_lvm.Lvmctrld.{
  LvmCtrld, LogicalVolume, device_unknown, ActivationMode, active_exclusive, deactivate,
}
use csi_sanlock_lvm.Driver.Fetch.{fetch, tags_of, first_volume}
use csi_sanlock_lvm.Driver.Lock.Owner.{owner_change, stale, added}
use csi_sanlock_lvm.Driver.Lock.Table.{ops_of, mem, remove_op}
use csi_sanlock_lvm.Driver.Lock.{
  Locker, entry, touched, acquire, release, set_owner, lock_volume, unlock_volume,
}
use csi_sanlock_lvm.Driver.RpcService.{disk_rpc_op}
use csi_sanlock_lvm.Driver.Retry.{retry, lock, lock-held}
use csi_sanlock_lvm.Driver.Lock.Laws.{
  held, is_ok, held-lock_volume, held-unlock_volume, unlock_volume-shared,
}
use csi_sanlock_lvm.Driver.Lock.Ownership.{Owned, lock_volume-Owned}
use csi_sanlock_lvm.Driver.Lock.Activation.{
  Activity, IsWellLocked, lock_volume-IsWellLocked, unlock_volume-IsWellLocked,
  unlock_volume-inactive,
}

abbrev vol : VolumeRef
vol = record { lv_name = codes "csl-v-abc"; vg_name = codes "vg00" }

abbrev row : LogicalVolume
row = record {
  lv_name = codes "csl-v-abc";
  vg_name = codes "vg00";
  lv_attr = [];
  lv_size = 1024;
  pool_lv = [];
  origin = [];
  data_percent = [];
  metadata_percent = [];
  move_pv = [];
  mirror_log = [];
  copy_percent = [];
  convert_lv = [];
  lv_tags = [];
  lv_role = [];
  lv_time = [];
  lv_device_open = device_unknown;
}

-- The world counts the calls of lvchange.
abbrev accepting : LvmCtrld ℕ
accepting = record {
  vgs = λ r n. (ok [], n);
  lv_create = λ r n. (ok tt, n);
  lv_remove = λ r n. (ok tt, n);
  lvs = λ r n. (ok (row ∷ []), n);
  lv_resize = λ r n. (ok tt, n);
  lv_change = λ r n. (ok tt, 1 + n);
}

abbrev idle : Locker ℕ
idle = record { node_id = 7; node_name = codes "node-7"; locks = []; world = 0 }

abbrev busy : Locker ℕ
busy = record {
  node_id = 7;
  node_name = codes "node-7";
  locks = (vg_lv vol, codes "stage" ∷ codes "copy" ∷ []) ∷ [];
  world = 0;
}

held-lock_volume_example :
    held (lock_volume accepting vol (codes "stage") idle).1.locks (vg_lv vol) (codes "stage") ≡ (
      (is_ok (lock_volume accepting vol (codes "stage") idle).0
        && bytes_eq (vg_lv vol) (vg_lv vol)
        && bytes_eq (codes "stage") (codes "stage"))
      || held idle.locks (vg_lv vol) (codes "stage"))
held-lock_volume_example =
    held-lock_volume accepting vol (codes "stage") idle (vg_lv vol) (codes "stage")

held-unlock_volume_example :
    held (unlock_volume accepting vol (codes "stage") busy).1.locks (vg_lv vol) (codes "copy") ≡ (
      if bytes_eq (vg_lv vol) (vg_lv vol) && bytes_eq (codes "stage") (codes "copy")
      then false
      else held busy.locks (vg_lv vol) (codes "copy"))
held-unlock_volume_example =
    held-unlock_volume accepting vol (codes "stage") busy (vg_lv vol) (codes "copy")

busy_entry : entry (vg_lv vol) busy.locks ≢ []
unfolding entry ops_of vg_lv bytes_eq
busy_entry e = ground arith

idle_entry : entry (vg_lv vol) idle.locks ≡ []
unfolding entry ops_of
idle_entry = refl

idle_locked : (lock_volume accepting vol (codes "stage") idle).0 ≡ ok tt
unfolding lock_volume acquire set_owner fetch entry ops_of touched owner_change tags_of first_volume
    decode_tags decode_tags_from stale lookup added
idle_locked = refl

lock_volume-Owned_example :
    Owned accepting vol 7
      (codes "node-7")
      0
      (lock_volume accepting vol (codes "stage") idle).1.world
lock_volume-Owned_example =
    lock_volume-Owned accepting vol (codes "stage") idle idle_entry idle_locked

-- A daemon whose world is the set of the active volumes.
abbrev change : ActivationMode → List Bytes → (Bytes → Bool) → Bytes → Bool
change active_exclusive (t ∷ ts) on j = bytes_eq t j || on j
change deactivate (t ∷ ts) on j = not (bytes_eq t j) && on j
change mode ts on j = on j

abbrev switching : LvmCtrld (Bytes → Bool)
switching = record {
  vgs = λ r on. (ok [], on);
  lv_create = λ r on. (ok tt, on);
  lv_remove = λ r on. (ok tt, on);
  lvs = λ r on. (ok (row ∷ []), on);
  lv_resize = λ r on. (ok tt, on);
  lv_change = λ r on. (ok tt, change r.activate r.target on);
}

abbrev switches : Activity switching
switches = record {
  active = λ on j. on j;
  activates = λ v on j. refl;
  deactivates = λ v on j. refl;
  retags = λ v c on j. refl;
  looks = λ r on j. refl;
}

abbrev all_off : Locker (Bytes → Bool)
all_off = record { node_id = 7; node_name = codes "node-7"; locks = []; world = λ j. false }

all_off-IsWellLocked : IsWellLocked switching switches all_off
unfolding entry ops_of mem
all_off-IsWellLocked j o h = absurd (ground (arith, h))

lock_volume-IsWellLocked_example :
    IsWellLocked switching switches (lock_volume switching vol (codes "stage") all_off).1
lock_volume-IsWellLocked_example =
    lock_volume-IsWellLocked switching switches vol (codes "stage") all_off all_off-IsWellLocked

abbrev one_on : Locker (Bytes → Bool)
one_on = record {
  node_id = 7;
  node_name = codes "node-7";
  locks = (vg_lv vol, codes "stage" ∷ []) ∷ [];
  world = λ j. true;
}

one_on-IsWellLocked : IsWellLocked switching switches one_on
one_on-IsWellLocked j o h = refl

unlock_volume-IsWellLocked_example :
    IsWellLocked switching switches (unlock_volume switching vol (codes "stage") one_on).1
unlock_volume-IsWellLocked_example =
    unlock_volume-IsWellLocked switching switches vol (codes "stage") one_on one_on-IsWellLocked

one_on_held : held one_on.locks (vg_lv vol) (codes "stage") ≡ true
unfolding entry ops_of vg_lv bytes_eq mem
one_on_held = refl

one_on_only : (o : Bytes) → held one_on.locks (vg_lv vol) o ≡ true → o ≡ codes "stage"
unfolding entry ops_of vg_lv mem
one_on_only o h = ground (arith, h, bytes_eq_refl (vg_lv vol), bytes_eq_iff (codes "stage") o)

one_on_unlocked : (unlock_volume switching vol (codes "stage") one_on).0 ≡ ok tt
unfolding unlock_volume release set_owner fetch entry ops_of vg_lv bytes_eq remove_op owner_change
    tags_of first_volume decode_tags decode_tags_from stale lookup added
one_on_unlocked = refl

unlock_volume-inactive_example :
    (unlock_volume switching vol (codes "stage") one_on).1.world (vg_lv vol) ≡ false
unlock_volume-inactive_example =
    unlock_volume-inactive switching switches vol (codes "stage") one_on one_on_held one_on_only
      one_on_unlocked

busy_held : held busy.locks (vg_lv vol) (codes "copy") ≡ true
unfolding entry ops_of vg_lv bytes_eq mem
busy_held = refl

different : codes "stage" ≢ codes "copy"
different e = ground arith

unlock_volume-shared_example :
    ((unlock_volume accepting vol (codes "stage") busy).0 ≡ ok tt)
    × ((unlock_volume accepting vol (codes "stage") busy).1.world ≡ 0)
unlock_volume-shared_example =
    unlock_volume-shared accepting vol (codes "stage") (codes "copy") busy busy_held different

locked :
    lock accepting (λ delay s. s) vol 2 busy
    ≡ some (tt, (lock_volume accepting vol disk_rpc_op busy).1)
unfolding lock retry lock_volume entry ops_of vg_lv bytes_eq
locked = refl

lock-held_example :
    held (lock_volume accepting vol disk_rpc_op busy).1.locks (vg_lv vol) disk_rpc_op ≡ true
lock-held_example =
    lock-held accepting (λ delay s. s) vol 2 busy (lock_volume accepting vol disk_rpc_op busy).1
      locked
