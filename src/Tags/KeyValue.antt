-- ===== src/Tags/KeyValue.antt =====
-- Key-value tags and tag maps (pkg/driverd/tags.go). A Go map is an association list; where the
-- code ranges over one, the order is that of the list.
use csi_sanlock_lvm.Base.{
  ℕ, suc, List, [], ◌∷◌, ◌++◌, map, Option, none, some, Bool, true, false, ltb, ◌==◌, if◌then◌else◌,
  Bytes, codes, length, take, drop, bytes_eq, has_prefix, Result, ok, err, unknown, ◌>>=◌,
}
use csi_sanlock_lvm.Tags.Encoder.{encode_tag, decode_tag}

abbrev pub TagKey : Type 0
TagKey = Bytes

abbrev pub tag_prefix : Bytes
tag_prefix = codes "csi-sanlock-lvm.vleo.net/"

abbrev pub name_tag_key : TagKey
name_tag_key = codes "name"

abbrev pub fs_tag_key : TagKey
fs_tag_key = codes "fs"

abbrev pub owner_id_tag_key : TagKey
owner_id_tag_key = codes "ownerId"

abbrev pub owner_node_tag_key : TagKey
owner_node_tag_key = codes "ownerNode"

abbrev pub source_tag_key : TagKey
source_tag_key = codes "src"

abbrev pub rpc_role_tag_key : TagKey
rpc_role_tag_key = codes "rpcRole"

unfoldable pub encoded_tag_prefix : Bytes
encoded_tag_prefix = encode_tag tag_prefix

-- strings.Index of a single byte.
unfoldable pub index : Bytes → ℕ → Option ℕ
index [] c = none
index (b ∷ s) c =
    if b == c then some 0 else elim (index s c) [ none ↦ none | some i ↦ some (suc i) ]

-- The pair before and behind the first '='.
unfoldable pub cut_pair : Bytes → Result (Option (TagKey × Bytes))
cut_pair decoded = elim (index decoded b'=') [
  | none ↦ err unknown
  | some i ↦ ok (some (take i decoded, drop (suc i) decoded))
]

-- `ok none` is a tag of somebody else: no error, and `ok` is false.
unfoldable pub decode_tag_kv : Bytes → Result (Option (TagKey × Bytes))
decode_tag_kv encoded =
    if has_prefix encoded encoded_tag_prefix
    then (decode_tag (drop (length encoded_tag_prefix) encoded) >>= cut_pair)
    else ok none

unfoldable pub encode_tag_kv : TagKey → Bytes → Bytes
encode_tag_kv key value = encode_tag (tag_prefix ++ key ++ b'=' ∷ value)

unfoldable pub encode_tag_key_prefix : TagKey → Bytes
encode_tag_key_prefix key = encode_tag (tag_prefix ++ key ++ b'=' ∷ [])

abbrev pub TagMap : Type 0
TagMap = List (TagKey × Bytes)

unfoldable pub lookup : TagKey → TagMap → Option Bytes
lookup k [] = none
lookup k ((j, v) ∷ m) = if bytes_eq j k then some v else lookup k m

-- `tags[key]`, the empty string for a missing key.
unfoldable pub get : TagMap → TagKey → Bytes
get m k = elim (lookup k m) [ none ↦ [] | some v ↦ v ]

-- `<` on strings.
unfoldable pub bytes_lt : Bytes → Bytes → Bool
bytes_lt s [] = false
bytes_lt [] (y ∷ t) = true
bytes_lt (x ∷ s) (y ∷ t) = if ltb x y then true else if x == y then bytes_lt s t else false

-- sort.Slice on distinct keys: what it returns does not depend on the algorithm.
unfoldable pub insert_key : TagKey → List TagKey → List TagKey
insert_key k [] = k ∷ []
insert_key k (j ∷ l) = if bytes_lt j k then j ∷ insert_key k l else k ∷ j ∷ l

unfoldable pub sort_keys : List TagKey → List TagKey
sort_keys [] = []
sort_keys (k ∷ l) = insert_key k (sort_keys l)

abbrev pub keys : TagMap → List TagKey
keys = map λ e. e.0

unfoldable pub encode_tags : TagMap → List Bytes
encode_tags tags = map (λ k. encode_tag_kv k (get tags k)) (sort_keys (keys tags))

-- The loop of decodeTags: the map so far, and the tags left.
unfoldable pub decode_tags_from : TagMap → List Bytes → Result TagMap
decode_tags_from r [] = ok r
decode_tags_from r (v ∷ vs) = elim (decode_tag_kv v) [
  | err e ↦ err e
  | ok none ↦ decode_tags_from r vs
  | ok (some (key, value)) ↦ elim (lookup key r) [
    | some _ ↦ err unknown
    | none ↦ decode_tags_from (r ++ (key, value) ∷ []) vs
  ]
]

unfoldable pub decode_tags : List Bytes → Result TagMap
unfolding decode_tags_from
decode_tags encoded = decode_tags_from [] encoded
