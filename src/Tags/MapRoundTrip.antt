-- ===== src/Tags/MapRoundTrip.antt =====
-- Reading back a whole map of tags (pkg/driverd/tags.go).
use csi_sanlock_lvm.Base.{
  ◌≡◌, ◌≢◌, refl, sym, ◌∙◌, List, [], ◌∷◌, ◌++◌, append_assoc, append-nil, map, none, some, true,
  if◌then◌else◌, Bytes, bytes_eq, bytes_eq_iff, bytes_eq_refl, All, ok, err, unknown, arith,
}
use csi_sanlock_lvm.Tags.RoundTrip.{IsByte, encodable}
use csi_sanlock_lvm.Tags.KeyValue.{
  TagKey, TagMap, encode_tag_kv, decode_tag_kv, lookup, get, insert_key, sort_keys, keys,
  encode_tags, decode_tags_from, decode_tags,
}
use csi_sanlock_lvm.Tags.KeyRoundTrip.{IsKey, decode_tag_kv-encode_tag_kv}

abbrev pub Distinct : List TagKey → Type 0
Distinct [] = Unit
Distinct (k ∷ l) = All (λ j. k ≢ j) l × Distinct l

module _ (P : TagKey → Type 0) where
  insert_key-All : (k : TagKey) (l : List TagKey) → P k → All P l → All P (insert_key k l)
  unfolding insert_key
  insert_key-All k [] hk hl = (hk, tt)
  insert_key-All k (j ∷ l) hk hl = ground (arith, insert_key-All k l hk hl.1)

  pub sort_keys-All : (l : List TagKey) → All P l → All P (sort_keys l)
  unfolding sort_keys
  sort_keys-All [] h = tt
  sort_keys-All (k ∷ l) h = insert_key-All k (sort_keys l) h.0 (sort_keys-All l h.1)

insert_key-Distinct :
    (k : TagKey) (l : List TagKey) → All (λ j. k ≢ j) l → Distinct l → Distinct (insert_key k l)
unfolding insert_key
insert_key-Distinct k [] h d = (tt, tt)
insert_key-Distinct k (j ∷ l) h d =
    ground (
      arith,
      insert_key-Distinct k l h.1 d.1,
      insert_key-All (λ i. j ≢ i) k l (λ e. h.0 (sym e)) d.0,
    )

sort_keys-Distinct : (l : List TagKey) → Distinct l → Distinct (sort_keys l)
unfolding sort_keys
sort_keys-Distinct [] d = tt
sort_keys-Distinct (k ∷ l) d =
    insert_key-Distinct k (sort_keys l) (sort_keys-All (λ j. k ≢ j) l d.0)
      (sort_keys-Distinct l d.1)

module _ (f : TagKey → Bytes) where
  -- The map that has the value `f k` at each listed key.
  abbrev graph : List TagKey → TagMap
  graph = map λ k. (k, f k)

  lookup-graph-insert_key :
      (k j : TagKey) (l : List TagKey)
      → lookup k (graph (insert_key j l))
        ≡ (if bytes_eq j k then some (f j) else lookup k (graph l))
  unfolding lookup insert_key
  lookup-graph-insert_key k j [] = refl
  lookup-graph-insert_key k j (i ∷ l) =
      ground (arith, lookup-graph-insert_key k j l, bytes_eq_iff i k, bytes_eq_iff j k)

  lookup-graph-sort_keys :
      (k : TagKey) (l : List TagKey) → lookup k (graph (sort_keys l)) ≡ lookup k (graph l)
  unfolding lookup sort_keys
  lookup-graph-sort_keys k [] = refl
  lookup-graph-sort_keys k (j ∷ l) =
      ground (arith, lookup-graph-insert_key k j (sort_keys l), lookup-graph-sort_keys k l)

  lookup-graph-keys :
      (k : TagKey) (m : TagMap)
      → lookup k (graph (keys m)) ≡ elim (lookup k m) [ none ↦ none | some _ ↦ some (f k) ]
  unfolding lookup
  lookup-graph-keys k [] = refl
  lookup-graph-keys k ((j, v) ∷ m) = ground (arith, lookup-graph-keys k m, bytes_eq_iff j k)

lookup-append_last :
    (k j : TagKey) (v : Bytes) (m : TagMap)
    → lookup k m ≡ none
    → j ≢ k
    → lookup k (m ++ (j, v) ∷ []) ≡ none
unfolding lookup
lookup-append_last k j v [] e h = ground (arith, bytes_eq_iff j k)
lookup-append_last k j v ((i, w) ∷ m) e h = ground (arith, lookup-append_last k j v m)

All-lookup_last :
    (j : TagKey) (v : Bytes) (m : TagMap) (l : List TagKey)
    → All (λ k. lookup k m ≡ none) l
    → All (λ k. j ≢ k) l
    → All (λ k. lookup k (m ++ (j, v) ∷ []) ≡ none) l
All-lookup_last j v m [] h d = tt
All-lookup_last j v m (k ∷ l) h d =
    (lookup-append_last k j v m h.0 d.0, All-lookup_last j v m l h.1 d.1)

-- A key and a value that a tag can carry.
pub record IsTag (k : TagKey) (v : Bytes) : Type 0 where
  pub key : IsKey k
  pub bytes : All IsByte v
  pub encodable_key : encodable k ≡ true
  pub encodable_value : encodable v ≡ true

decode_tag_kv-tag : (k v : Bytes) → IsTag k v → decode_tag_kv (encode_tag_kv k v) ≡ ok (some (k, v))
decode_tag_kv-tag k v t =
    decode_tag_kv-encode_tag_kv k v t.key t.bytes ∙ rw (t.encodable_key, t.encodable_value)

decode_tags_from-fresh :
    (k v : Bytes) (r : TagMap) (vs : List Bytes)
    → IsTag k v
    → lookup k r ≡ none
    → decode_tags_from r (encode_tag_kv k v ∷ vs) ≡ decode_tags_from (r ++ (k, v) ∷ []) vs
unfolding decode_tags_from
decode_tags_from-fresh k v r vs t e = rw (decode_tags_from, decode_tag_kv-tag k v t, e)

decode_tags_from-seen :
    (k v w : Bytes) (r : TagMap) (vs : List Bytes)
    → IsTag k v
    → lookup k r ≡ some w
    → decode_tags_from r (encode_tag_kv k v ∷ vs) ≡ err unknown
unfolding decode_tags_from
decode_tags_from-seen k v w r vs t e = rw (decode_tags_from, decode_tag_kv-tag k v t, e)

decode_tags_from-graph :
    (f : TagKey → Bytes) (l : List TagKey) (r : TagMap)
    → All (λ k. IsTag k (f k)) l
    → Distinct l
    → All (λ k. lookup k r ≡ none) l
    → decode_tags_from r (map (λ k. encode_tag_kv k (f k)) l) ≡ ok (r ++ graph f l)
decode_tags_from-graph f [] r ht d fresh = unfold decode_tags_from in rw append-nil
decode_tags_from-graph f (k ∷ l) r ht d fresh =
    rw (decode_tags_from-fresh k (f k) r _ ht.0 fresh.0) (
      decode_tags_from-graph f l (r ++ (k, f k) ∷ []) ht.1 d.1
        (All-lookup_last k (f k) r l fresh.1 d.0)
      ∙ rw append_assoc)

All-none : (l : List TagKey) → All (λ k. lookup k [] ≡ none) l
unfolding lookup
All-none [] = tt
All-none (k ∷ l) = (refl, All-none l)

-- A Go map whose keys and values can be carried by tags.
pub record IsTagMap (m : TagMap) : Type 0 where
  pub distinct : Distinct (keys m)
  pub tags : All (λ k. IsTag k (get m k)) (keys m)

-- Decoding the tags of a map succeeds with a map that has the same entries, if the keys are distinct and
-- each of them can be carried with its value by a tag: it does not start with a hyphen and has no '=',
-- and no byte of it or of the value is below 16.
pub decode_tags-encode_tags :
    (m : TagMap)
    → IsTagMap m
    → (r : TagMap) × (decode_tags (encode_tags m) ≡ ok r) × ((k : TagKey) → lookup k r ≡ lookup k m)
unfolding decode_tags encode_tags
decode_tags-encode_tags m h = (
  graph (get m) (sort_keys (keys m)),
  decode_tags_from-graph (get m) (sort_keys (keys m)) []
      (sort_keys-All (λ k. IsTag k (get m k)) (keys m) h.tags)
      (sort_keys-Distinct (keys m) h.distinct) (All-none (sort_keys (keys m))),
  λ k.
      lookup-graph-sort_keys (get m) k (keys m)
      ∙ lookup-graph-keys (get m) k m
      ∙ unfold get in ground arith,
)

-- Two tags with one key are an error, whatever follows.
pub decode_tags-duplicate :
    (k v w : Bytes) (rest : List Bytes)
    → IsTag k v
    → IsTag k w
    → decode_tags (encode_tag_kv k v ∷ encode_tag_kv k w ∷ rest) ≡ err unknown
unfolding decode_tags
decode_tags-duplicate k v w rest hv hw =
    rw (decode_tags_from-fresh k v [] _ hv (unfold lookup in refl))
      (decode_tags_from-seen k w v ((k, v) ∷ []) rest hw (unfold lookup in rw bytes_eq_refl))
