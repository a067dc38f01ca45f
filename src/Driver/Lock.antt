-- ===== src/Driver/Lock.antt =====
-- The volume locker (pkg/driverd/volumelock.go). Each method holds the mutex for its whole run, so
-- calls are steps one after the other.
pub mod Table
pub mod Owner
pub mod Laws
pub mod Ownership
pub mod Activation
pub mod Elsewhere
use csi_sanlock_lvm.Base.{
  ℕ, List, [], ◌∷◌, Bytes, codes, Option, none, some, Bool, true, false, if◌then◌else◌, Result, ok,
  err, Code, internal, unknown, panicked, ◌++◌, ◌≡◌,
}
use csi_sanlock_lvm.Tags.KeyValue.{TagMap, lookup, get, owner_id_tag_key, owner_node_tag_key}
use csi_sanlock_lvm.Volume.Ref.{volume_lv_prefix, VolumeRef, vg_lv}
use csi_sanlock_lvm.Lvmctrld.{
  ActivationMode, mode_none, active_exclusive, deactivate, device_open, device_unknown,
  LvChangeRequest, LvmCtrld, LogicalVolume,
}
use csi_sanlock_lvm.Base.Exec.{Exec, pure, raise, lift, attempt, ◌>>=◌, ◌>>◌}
use csi_sanlock_lvm.Driver.Fetch.{ref_from_lv, fetch, tags_of}
use csi_sanlock_lvm.Driver.NodeId.{node_id_from_string}
use Table.{Locks, ops_of, put, insert_op, remove_op, delete_key}
use Owner.{OwnerChange, owner_change, nothing}

-- The locker's own state and the world behind the client.
pub record Locker (W : Type 0) : Type 0 where
  pub node_id : ℕ
  pub node_name : Bytes
  pub locks : Locks
  pub world : W

abbrev pub default_lock_op : Bytes
default_lock_op = codes "stage"

abbrev pub activation : VolumeRef → ActivationMode → LvChangeRequest
activation vol mode = record {
  target = vg_lv vol ∷ [];
  activate = mode;
  add_tag = [];
  del_tag = [];
  select = [];
}

abbrev pub retag : VolumeRef → OwnerChange → LvChangeRequest
retag vol c = record {
  target = vg_lv vol ∷ [];
  activate = mode_none;
  add_tag = c.add_tags;
  del_tag = c.del_tags;
  select = [];
}

-- The operations that hold a volume.
unfoldable pub entry : Bytes → Locks → List Bytes
entry key locks = elim (ops_of key locks) [ none ↦ [] | some ops ↦ ops ]

-- `m, ok := vl.locks[key]; if !ok { … }`: an entry is made also if the lock is refused later.
unfoldable pub touched : Bytes → Locks → Locks
touched key locks = elim (ops_of key locks) [ none ↦ put key [] locks | some _ ↦ locks ]

unfoldable pub owner_id : TagMap → Result ℕ
owner_id tags = elim (lookup owner_id_tag_key tags) [ none ↦ ok 0 | some v ↦ node_id_from_string v ]

module _ {W : Type 0} (client : LvmCtrld W) where
  -- setOwner with both an id and a name, or with neither.
  unfoldable pub set_owner : VolumeRef → Option (ℕ × Bytes) → Exec W (Unit {0})
  set_owner ref owner = do
    vol ← fetch client ref
    tags ← lift (tags_of vol)
    let change = owner_change tags owner
    if nothing change then pure tt else client.lv_change (retag (ref_from_lv vol) change)

  -- The volume is not held yet: activate it, and write the owner tags.
  unfoldable pub acquire : VolumeRef → Bytes → Exec (Locker W) (Unit {0})
  acquire vol op s =
      let (activated, w) = client.lv_change (activation vol active_exclusive) s.world in
      elim activated [
        | err e ↦ (err e, record s { world = w })
        | ok _ ↦
            let (tagged, w') = set_owner vol (some (s.node_id, s.node_name)) w in
            elim tagged [
              | err Code.panicked ↦ (err panicked, record s { world = w' })
              | err e ↦
                  (err e, record s { world = (client.lv_change (activation vol deactivate) w').1 })
              | ok _ ↦ (
                ok tt,
                record s {
                  locks = put (vg_lv vol) (insert_op op (entry (vg_lv vol) s.locks)) s.locks;
                  world = w';
                },
              )
            ]
      ]

  unfoldable pub lock_volume : VolumeRef → Bytes → Exec (Locker W) (Unit {0})
  lock_volume vol op s =
      let key = vg_lv vol in
      elim (entry key s.locks) [
        | o ∷ ops ↦ (ok tt, record s { locks = put key (insert_op op (o ∷ ops)) s.locks })
        | [] ↦ acquire vol op (record s { locks = touched key s.locks })
      ]

  -- No operation holds the volume any more: remove the owner tags, deactivate it, forget it.
  unfoldable pub release : VolumeRef → Exec (Locker W) (Unit {0})
  release vol s =
      let (untagged, w) = set_owner vol none s.world in
      elim untagged [
        | err e ↦ (err e, record s { world = w })
        | ok _ ↦
            let (deactivated, w') = client.lv_change (activation vol deactivate) w in
            elim deactivated [
              | err e ↦ (err e, record s { world = w' })
              | ok _ ↦ (ok tt, record s { locks = delete_key (vg_lv vol) s.locks; world = w' })
            ]
      ]

  unfoldable pub unlock_volume : VolumeRef → Bytes → Exec (Locker W) (Unit {0})
  unlock_volume vol op s =
      let key = vg_lv vol in
      elim (ops_of key s.locks) [
        | none ↦ (ok tt, s)
        | some m ↦
            let s' : Locker W = record s { locks = put key (remove_op op m) s.locks } in
            elim (remove_op op m) [ o ∷ ops ↦ (ok tt, s') | [] ↦ release vol s' ]
      ]

  -- GetOwner: 0 and no name if the volume has no owner tags.
  unfoldable pub get_owner : VolumeRef → Exec W (ℕ × Bytes)
  get_owner ref w =
      let (found, w') = fetch client ref w in
      elim found [
        | err Code.panicked ↦ (err panicked, w')
        | err _ ↦ (err internal, w')
        | ok vol ↦ elim (tags_of vol) [
          | err _ ↦ (err internal, w')
          | ok tags ↦ elim (owner_id tags) [
            | err _ ↦ (err internal, w')
            | ok id ↦ (ok (id, get tags owner_node_tag_key), w')
          ]
        ]
      ]

  abbrev pub select_active : Bytes
  select_active = codes "lv_name=~^" ++ volume_lv_prefix ++ codes " && lv_active=active"

  -- One turn of the loop of sync; errors are logged and dropped.
  unfoldable pub sync_volume : LogicalVolume → Exec (Locker W) (Unit {0})
  sync_volume lv s =
      let vol = ref_from_lv lv in
      elim lv.lv_device_open [
        | device_open ↦ (ok tt, record s { locks = put (vg_lv vol) (default_lock_op ∷ []) s.locks })
        | device_unknown ↦
            let w = (client.lv_change (activation vol deactivate) s.world).1 in
            let (untagged, w') = set_owner vol none w in
            elim untagged [
              | err Code.panicked ↦ (err panicked, record s { world = w' })
              | _ ↦ (ok tt, record s { world = w' })
            ]
      ]

  -- The loop over the active volumes.
  unfoldable pub sync_volumes : List LogicalVolume → Exec (Locker W) (Unit {0})
  sync_volumes [] = pure tt
  sync_volumes (lv ∷ lvs) = sync_volume lv >> sync_volumes lvs

  unfoldable pub sync : Exec (Locker W) (Unit {0})
  sync s =
      let (listed, w) =
        client.lvs (record { select = select_active; sort = []; target = [] }) s.world in
      elim listed [
        | err _ ↦ (err unknown, record s { world = w })
        | ok lvs ↦ sync_volumes lvs (record s { world = w })
      ]
