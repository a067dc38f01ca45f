-- ===== src/Driver/Lock/Ownership.antt =====
-- What LockVolume has the daemon do to a volume that nobody holds yet.
use csi_sanlock_lvm.Base.{
  ℕ, ◌≡◌, ◌≢◌, refl, sym, ap, ◌∙◌, List, [], ◌∷◌, Bytes, bytes_eq_iff, bytes_eq_refl, some, true,
  ◌++◌, ◌||◌, Result, ok, err, arith, Result-cases, inl, inr,
}
use csi_sanlock_lvm.Tags.KeyValue.{
  TagKey, TagMap, lookup, decode_tags, encode_tag_kv, owner_id_tag_key, owner_node_tag_key,
}
use csi_sanlock_lvm.Volume.Ref.{VolumeRef, vg_lv}
use csi_sanlock_lvm.Lvmctrld.{LvmCtrld, LogicalVolume, active_exclusive, mode_none}
use csi_sanlock_lvm.Driver.NodeId.{node_id_to_string}
use csi_sanlock_lvm.Driver.Fetch.{ref_from_lv, one_target, fetch, first_volume, tags_of}
use csi_sanlock_lvm.Driver.Lock.Table.{mem}
use csi_sanlock_lvm.Driver.Lock.Owner.{owner_change, stale, added}
use csi_sanlock_lvm.Driver.Lock.{
  Locker, entry, touched, activation, retag, set_owner, acquire, lock_volume,
}

-- Every other value of the tag is among the removed ones.
abbrev pub Removes : TagMap → TagKey → Bytes → List Bytes → Type 0
Removes tags key wanted removed =
    (v : Bytes) → lookup key tags ≡ some v → v ≢ wanted → mem (encode_tag_kv key v) removed ≡ true

-- The calls of the daemon that make this node the owner of the volume.
pub record Owned {W : Type 0} (client : LvmCtrld W) (vol : VolumeRef) (id : ℕ) (name : Bytes)
    (w after : W) : Type 0 where
  pub activated : W
  pub activates : client.lv_change (activation vol active_exclusive) w ≡ (ok tt, activated)
  pub found : LogicalVolume
  pub others : List LogicalVolume
  pub looked : W
  pub looks : client.lvs (one_target vol) activated ≡ (ok (found ∷ others), looked)
  pub tags : TagMap
  pub decodes : decode_tags found.lv_tags ≡ ok tags
  pub removed : List Bytes
  pub removes_id : Removes tags owner_id_tag_key (node_id_to_string id) removed
  pub removes_node : Removes tags owner_node_tag_key name removed
  pub tags_volume :
      client.lv_change
        (record {
          target = vg_lv (ref_from_lv found) ∷ [];
          activate = mode_none;
          add_tag =
              encode_tag_kv owner_id_tag_key (node_id_to_string id)
              ∷ encode_tag_kv owner_node_tag_key name
              ∷ [];
          del_tag = removed;
          select = [];
        })
        looked
      ≡ (ok tt, after)

first_volume-ok :
    (r : Result (List LogicalVolume)) (lv : LogicalVolume)
    → first_volume r ≡ ok lv
    → (others : List LogicalVolume) × (r ≡ ok (lv ∷ others))
unfolding first_volume
first_volume-ok (ok []) lv e = absurd (cc)
first_volume-ok (ok (l ∷ others)) lv e = (others, cc)
first_volume-ok (err c) lv e = absurd (ground (arith, e))

tags_of-ok : (lv : LogicalVolume) (m : TagMap) → tags_of lv ≡ ok m → decode_tags lv.lv_tags ≡ ok m
unfolding tags_of
tags_of-ok lv m e = ground arith

mem-first : (o : Bytes) (ops : List Bytes) → mem o (o ∷ ops) ≡ true
unfolding mem
mem-first o ops = ground (arith, bytes_eq_refl o)

mem-append : (o : Bytes) (xs ys : List Bytes) → mem o (xs ++ ys) ≡ (mem o xs || mem o ys)
unfolding mem
mem-append o [] ys = refl
mem-append o (x ∷ xs) ys = ground (arith, mem-append o xs ys)

stale-other :
    (tags : TagMap) (key : TagKey) (wanted v : Bytes)
    → lookup key tags ≡ some v
    → v ≢ wanted
    → stale tags key (some wanted) ≡ encode_tag_kv key v ∷ []
unfolding stale
stale-other tags key wanted v there other =
    rw (stale, there) (ground (arith, bytes_eq_iff v wanted, other))

owner_change-Removes :
    (tags : TagMap) (id : ℕ) (name : Bytes)
    → Removes tags owner_id_tag_key
        (node_id_to_string id)
        (owner_change tags (some (id, name))).del_tags
      × Removes tags owner_node_tag_key name (owner_change tags (some (id, name))).del_tags
unfolding owner_change
owner_change-Removes tags id name =
    let ids = stale tags owner_id_tag_key (some (node_id_to_string id)) in
    let names = stale tags owner_node_tag_key (some name) in
    (
      λ v there other. ground (
        arith,
        mem-append (encode_tag_kv owner_id_tag_key v) ids names,
        ap (mem (encode_tag_kv owner_id_tag_key v))
            (stale-other tags owner_id_tag_key (node_id_to_string id) v there other),
        mem-first (encode_tag_kv owner_id_tag_key v) [],
      ),
      λ v there other. ground (
        arith,
        mem-append (encode_tag_kv owner_node_tag_key v) ids names,
        ap (mem (encode_tag_kv owner_node_tag_key v))
            (stale-other tags owner_node_tag_key name v there other),
        mem-first (encode_tag_kv owner_node_tag_key v) [],
      ),
    )

module _ {W : Type 0} (client : LvmCtrld W) (vol : VolumeRef) where
  -- What setOwner has done when it has succeeded: the volume was found, its tags were decoded, and the
  -- daemon accepted their change.
  record Tagged (id : ℕ) (name : Bytes) (w : W) : Type 0 where
    found : LogicalVolume
    others : List LogicalVolume
    looks : (client.lvs (one_target vol) w).0 ≡ ok (found ∷ others)
    tags : TagMap
    decodes : decode_tags found.lv_tags ≡ ok tags
    accepts :
        client.lv_change
          (retag (ref_from_lv found) (owner_change tags (some (id, name))))
          (client.lvs (one_target vol) w).1
        ≡ (ok tt, (set_owner client vol (some (id, name)) w).1)

  set_owner-change :
      (id : ℕ) (name : Bytes) (w : W) (lv : LogicalVolume) (m : TagMap)
      → first_volume (client.lvs (one_target vol) w).0 ≡ ok lv
      → tags_of lv ≡ ok m
      → set_owner client vol (some (id, name)) w
        ≡ client.lv_change
            (retag (ref_from_lv lv) (owner_change m (some (id, name))))
            (client.lvs (one_target vol) w).1
  unfolding set_owner fetch owner_change added
  set_owner-change id name w lv m f t = rw (set_owner, fetch, f, t) refl

  set_owner-Tagged :
      (id : ℕ) (name : Bytes) (w : W)
      → (set_owner client vol (some (id, name)) w).0 ≡ ok tt
      → Tagged id name w
  unfolding set_owner fetch
  set_owner-Tagged id name w e =
      elim (Result-cases (first_volume (client.lvs (one_target vol) w).0)) [
        | inr (c, f) ↦ absurd (ground (arith, e, f))
        | inl (lv, f) ↦ elim (Result-cases (tags_of lv)) [
          | inr (c, t) ↦ absurd (ground (arith, e, f, t))
          | inl (m, t) ↦
              let same = set_owner-change id name w lv m f t in
              let (others, looks) = first_volume-ok _ lv f in
              record {
                found = lv;
                others = others;
                looks = looks;
                tags = m;
                decodes = tags_of-ok lv m t;
                accepts = sym same ∙ ap (λ r. (r, (set_owner client vol (some (id, name)) w).1)) e;
              }
        ]
      ]

  -- The steps of a successful `acquire`.
  acquire-steps :
      (op : Bytes) (s : Locker W)
      → (acquire client vol op s).0 ≡ ok tt
      → let activated = client.lv_change (activation vol active_exclusive) s.world in
        let tagged = set_owner client vol (some (s.node_id, s.node_name)) activated.1 in
        (activated.0 ≡ ok tt) × (tagged.0 ≡ ok tt) × ((acquire client vol op s).1.world ≡ tagged.1)
  unfolding acquire
  acquire-steps op s e = ground arith

  -- If LockVolume succeeds on a volume that nobody holds, the daemon activated it exclusively, then found
  -- it with its tags, and last accepted one change of the tags: it adds this node's id and name, and
  -- removes every other value of the two tags.
  pub lock_volume-Owned :
      (op : Bytes) (s : Locker W)
      → entry (vg_lv vol) s.locks ≡ []
      → (lock_volume client vol op s).0 ≡ ok tt
      → Owned client vol s.node_id s.node_name s.world (lock_volume client vol op s).1.world
  unfolding lock_volume owner_change added
  lock_volume-Owned op s free e =
      let s' : Locker W = record s { locks = touched (vg_lv vol) s.locks } in
      let acquires : lock_volume client vol op s ≡ acquire client vol op s' =
        rw (lock_volume, free) refl in
      let (a, t, world) = acquire-steps op s' (sym (ap (λ r. r.0) acquires) ∙ e) in
      let w = (client.lv_change (activation vol active_exclusive) s.world).1 in
      let tagged = set_owner-Tagged s.node_id s.node_name w t in
      let removes = owner_change-Removes tagged.tags s.node_id s.node_name in
      record {
        activated = w;
        activates = ap (λ r. (r, w)) a;
        found = tagged.found;
        others = tagged.others;
        looked = (client.lvs (one_target vol) w).1;
        looks = ap (λ r. (r, (client.lvs (one_target vol) w).1)) tagged.looks;
        tags = tagged.tags;
        decodes = tagged.decodes;
        removed = (owner_change tagged.tags (some (s.node_id, s.node_name))).del_tags;
        removes_id = removes.0;
        removes_node = removes.1;
        tags_volume =
            tagged.accepts ∙ ap (λ v. (ok tt, v)) (sym world ∙ sym (ap (λ r. r.1.world) acquires));
      }
