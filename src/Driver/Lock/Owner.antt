-- ===== src/Driver/Lock/Owner.antt =====
-- Which owner tags `setOwner` adds and removes.
use csi_sanlock_lvm.Base.{
  ℕ, List, [], ◌∷◌, ◌++◌, Bytes, bytes_eq, Option, none, some, Bool, true, false, ◌&&◌,
  if◌then◌else◌,
}
use csi_sanlock_lvm.Tags.KeyValue.{
  TagKey, TagMap, lookup, encode_tag_kv, owner_id_tag_key, owner_node_tag_key,
}
use csi_sanlock_lvm.Driver.NodeId.{node_id_to_string}

pub record OwnerChange : Type 0 where
  pub add_tags : List Bytes
  pub del_tags : List Bytes

-- A tag that is there is removed unless it has the wanted value.
unfoldable pub stale : TagMap → TagKey → Option Bytes → List Bytes
stale tags key wanted = elim (lookup key tags) [
  | none ↦ []
  | some old ↦ elim wanted [
    | none ↦ encode_tag_kv key old ∷ []
    | some new ↦ if bytes_eq old new then [] else encode_tag_kv key old ∷ []
  ]
]

unfoldable pub added : TagKey → Option Bytes → List Bytes
added key none = []
added key (some new) = encode_tag_kv key new ∷ []

abbrev pub wanted_id : Option (ℕ × Bytes) → Option Bytes
wanted_id none = none
wanted_id (some (id, name)) = some (node_id_to_string id)

abbrev pub wanted_node : Option (ℕ × Bytes) → Option Bytes
wanted_node none = none
wanted_node (some (id, name)) = some name

unfoldable pub owner_change : TagMap → Option (ℕ × Bytes) → OwnerChange
owner_change tags owner = record {
  add_tags =
      added owner_id_tag_key (wanted_id owner) ++ added owner_node_tag_key (wanted_node owner);
  del_tags =
      stale tags owner_id_tag_key (wanted_id owner)
      ++ stale tags owner_node_tag_key (wanted_node owner);
}

abbrev pub is_nil : List Bytes → Bool
is_nil [] = true
is_nil (x ∷ xs) = false

-- `len(addTags) == 0 && len(delTags) == 0`.
abbrev pub nothing : OwnerChange → Bool
nothing c = is_nil c.add_tags && is_nil c.del_tags
