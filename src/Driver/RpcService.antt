-- ===== src/Driver/RpcService.antt =====
-- The start of the disk RPC (pkg/driverd/diskrpcservice.go): the volumes by their role, and the lock
-- that the mailbox takes.
use csi_sanlock_lvm.Base.{
  ℕ, zero, suc, ◌+◌, ◌*◌, ◌<◌, ◌≡◌, arith, inl, inr, Result-cases, ap, ◌∙◌, refl, List, [], ◌∷◌,
  ◌++◌, Bytes, codes, bytes_eq, bytes_eq_iff, ltb, if◌then◌else◌, Bool, true, false, Result, ok,
  err, unknown, Option, none, some,
}
use csi_sanlock_lvm.Base.Exec.{Exec, pure, lift, ◌>>=◌, ◌>>◌}
use csi_sanlock_lvm.Tags.KeyValue.{get, encode_tag_kv, rpc_role_tag_key}
use csi_sanlock_lvm.Volume.Ref.{VolumeRef, vg_lv}
use csi_sanlock_lvm.Lvmctrld.{LvmCtrld, LogicalVolume, active_shared}
use csi_sanlock_lvm.Driver.Fetch.{ref_from_lv, tags_of}
use csi_sanlock_lvm.Driver.FileSystem.{wrap}
use csi_sanlock_lvm.Driver.Lock.{Locker, lock_volume, unlock_volume}

abbrev pub rpc_role_lock : Bytes
rpc_role_lock = codes "lock"

abbrev pub rpc_role_data : Bytes
rpc_role_data = codes "data"

abbrev pub disk_rpc_op : Bytes
disk_rpc_op = codes "diskRpc"

-- The volumes found so far: the one for the lock and the one for the data.
pub record Roles : Type 0 where
  pub lock_vol : Option VolumeRef
  pub data_vol : Option VolumeRef

-- A role that two volumes have is an error.
unfoldable pub add_role : Bytes → VolumeRef → Roles → Result Roles
add_role role ref roles =
    if bytes_eq role rpc_role_lock
    then elim roles.lock_vol [
      | none ↦ ok (record roles { lock_vol = some ref })
      | some _ ↦ err unknown
    ]
    else if bytes_eq role rpc_role_data
    then elim roles.data_vol [
      | none ↦ ok (record roles { data_vol = some ref })
      | some _ ↦ err unknown
    ]
    else ok roles

unfoldable pub find_roles : Roles → List LogicalVolume → Result Roles
unfolding add_role
find_roles roles [] = ok roles
find_roles roles (lv ∷ lvs) = elim (tags_of lv) [
  | err _ ↦ err unknown
  | ok tags ↦ elim (add_role (get tags rpc_role_tag_key) (ref_from_lv lv) roles) [
    | err e ↦ err e
    | ok more ↦ find_roles more lvs
  ]
]

-- The volumes of both roles, lock first.
unfoldable pub both_roles : Roles → Result (VolumeRef × VolumeRef)
both_roles roles = elim roles.lock_vol [
  | none ↦ err unknown
  | some lock ↦ elim roles.data_vol [ none ↦ err unknown | some found ↦ ok (lock, found) ]
]

module _ {W : Type 0} (client : LvmCtrld W) where
  -- NewDiskRpcService up to the mailbox: the volumes, of which the one for the data is active.
  unfoldable pub find_rpc_volumes : Exec W (VolumeRef × VolumeRef)
  unfolding find_roles both_roles
  find_rpc_volumes = do
    lvs ← wrap unknown (
        client.lvs (record {
          select =
              codes "lv_tags="
              ++ (encode_tag_kv rpc_role_tag_key rpc_role_data
                  ++ (codes " || lv_tags=" ++ encode_tag_kv rpc_role_tag_key rpc_role_lock));
          sort = [];
          target = [];
        }))
    roles ← lift (find_roles (record { lock_vol = none; data_vol = none }) lvs)
    vols ← lift (both_roles roles)
    wrap unknown (
        client.lv_change (record {
          activate = active_shared;
          add_tag = [];
          del_tag = [];
          select = [];
          target = vg_lv (vols.1) ∷ [];
        }))
    pure vols

  -- One turn of the loops of the adapter's Lock and Unlock, which end when it succeeds.
  unfoldable pub adapter_lock : VolumeRef → Exec (Locker W) (Unit {0})
  adapter_lock vol = lock_volume client vol disk_rpc_op

  unfoldable pub adapter_unlock : VolumeRef → Exec (Locker W) (Unit {0})
  adapter_unlock vol = unlock_volume client vol disk_rpc_op

-- The delay after one more failure, in nanoseconds.
unfoldable pub next_delay : ℕ → ℕ
next_delay delay = if ltb delay (120 * 1000000000) then delay * 2 else delay

-- The delay of the turn with this number, which is at first one second for Lock and a nanosecond for Unlock.
unfoldable pub delay_of : ℕ → ℕ → ℕ
unfolding next_delay
delay_of first zero = first
delay_of first (suc turn) = next_delay (delay_of first turn)

-- No delay is as long as 240 seconds.
pub delay_of-lt :
    (first turn : ℕ) → first < 240 * 1000000000 → delay_of first turn < 240 * 1000000000
unfolding delay_of next_delay
delay_of-lt first zero h = h
delay_of-lt first (suc turn) h = ground (arith, delay_of-lt first turn h)

-- How many of the volumes have a role.
unfoldable pub count_role : Bytes → List LogicalVolume → ℕ
count_role role [] = 0
count_role role (lv ∷ lvs) =
    let rest = count_role role lvs in
    elim (tags_of lv) [
      | err _ ↦ rest
      | ok tags ↦ if bytes_eq (get tags rpc_role_tag_key) role then suc rest else rest
    ]

abbrev size_of : Option VolumeRef → ℕ
size_of none = 0
size_of (some _) = 1

-- The role of a tag is one of the two at most.
lock-data :
    (role : Bytes) → bytes_eq role rpc_role_lock ≡ true → bytes_eq role rpc_role_data ≡ false
lock-data role h =
    ap (λ r. bytes_eq r rpc_role_data) ((bytes_eq_iff role rpc_role_lock).0 h)
    ∙ unfold bytes_eq in refl

-- The sizes after a volume has been added, for the outcome of each of the two tests.
add_role-count :
    (is_lock is_data : Bool) (ref : VolumeRef) (roles more : Roles)
    → (is_lock ≡ true → is_data ≡ false)
    → ◌≡◌ {A = Result Roles}
        (if is_lock
          then elim roles.lock_vol [
            | none ↦ ok (record roles { lock_vol = some ref })
            | some _ ↦ err unknown
          ]
          else if is_data
          then elim roles.data_vol [
            | none ↦ ok (record roles { data_vol = some ref })
            | some _ ↦ err unknown
          ]
          else ok roles)
        (ok more)
    → (size_of more.lock_vol ≡ size_of roles.lock_vol + (if is_lock then 1 else 0))
      × (size_of more.data_vol ≡ size_of roles.data_vol + (if is_data then 1 else 0))
add_role-count is_lock is_data ref roles more apart h =
    (ground (arith, apart), ground (arith, apart))

find_roles-count :
    (roles after : Roles) (lvs : List LogicalVolume)
    → find_roles roles lvs ≡ ok after
    → (size_of after.lock_vol ≡ size_of roles.lock_vol + count_role rpc_role_lock lvs)
      × (size_of after.data_vol ≡ size_of roles.data_vol + count_role rpc_role_data lvs)
unfolding find_roles count_role add_role
find_roles-count roles after [] h = (ground arith, ground arith)
find_roles-count roles after (lv ∷ lvs) h = elim (Result-cases (tags_of lv)) [
  | inr (e, failed) ↦ (ground arith, ground arith)
  | inl (tags, decoded) ↦
      let role = get tags rpc_role_tag_key in
      elim (Result-cases (add_role role (ref_from_lv lv) roles)) [
        | inr (e, second) ↦ (ground arith, ground arith)
        | inl (more, added) ↦
            let (l, d) =
              add_role-count (bytes_eq role rpc_role_lock) (bytes_eq role rpc_role_data)
                (ref_from_lv lv) roles more (lock-data role) added in
            let (l', d') = find_roles-count more after lvs (ground arith) in
            (ground arith, ground arith)
      ]
]

-- The start succeeds only if exactly one of the volumes that the daemon lists has each role.
pub find_roles_sound :
    (after : Roles) (lvs : List LogicalVolume) (vols : VolumeRef × VolumeRef)
    → find_roles (record { lock_vol = none; data_vol = none }) lvs ≡ ok after
    → both_roles after ≡ ok vols
    → (count_role rpc_role_lock lvs ≡ 1) × (count_role rpc_role_data lvs ≡ 1)
unfolding both_roles
find_roles_sound after lvs vols h b =
    let (l, d) = find_roles-count (record { lock_vol = none; data_vol = none }) after lvs h in
    (ground arith, ground arith)
