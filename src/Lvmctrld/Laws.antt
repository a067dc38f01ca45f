-- ===== src/Lvmctrld/Laws.antt =====
-- What the server accepts and what its errors mean to its clients.
use csi_sanlock_lvm.Base.{
  ℕ, suc, ◌/◌, ◌%◌, ◌<◌, ◌≡◌, ◌≢◌, ◌⊎◌, inl, inr, refl, sym, ap, ◌∙◌, List, [], ◌∷◌, ◌++◌, map,
  Bytes, codes, Lacks, All, All-append, all, all-append, true, false, ◌&&◌, Bool-cases, ok, err,
  unknown, permission_denied, arith,
}
use csi_sanlock_lvm.Base.Int.{ℤ, pos}
use csi_sanlock_lvm.Tags.Encoder.{is_plain, hex_digit, quote, encode_from, encode_tag}
use csi_sanlock_lvm.Tags.RoundTrip.{is_plain-two_digits, two_digits, IsByte, encodable}
use csi_sanlock_lvm.Tags.KeyValue.{
  TagKey, TagMap, tag_prefix, encoded_tag_prefix, get, encode_tag_kv, encode_tags, sort_keys, keys,
}
use csi_sanlock_lvm.Tags.KeyRoundTrip.{encode_tag-prefix, encoded_tag_prefix_lem}
use csi_sanlock_lvm.Tags.MapRoundTrip.{IsTag, IsTagMap, sort_keys-All}
use csi_sanlock_lvm.Volume.Ref.{split}
use csi_sanlock_lvm.Volume.Names.{split-append, split-Lacks}
use csi_sanlock_lvm.Lvmctrld.Pattern.{match, matches_text, matches_text-line}
use csi_sanlock_lvm.Lvmctrld.Errors.{
  classify, parse_lvm_error, lv_exists, lv_locked_re, lv_size_matches,
}
use csi_sanlock_lvm.Lvmctrld.Messages.{LvCreateRequest}
use csi_sanlock_lvm.Lvmctrld.Server.{
  Host, is_tag_char, tag_re, join_comma, split_lvm_field, answer, lv_create, lv_create_args,
}

split-join_comma :
    (t : Bytes) (ts : List Bytes)
    → All (Lacks b',') (t ∷ ts)
    → split (join_comma (t ∷ ts)) b',' ≡ t ∷ ts
unfolding join_comma
split-join_comma t [] lacks = split-Lacks b',' t lacks.0
split-join_comma t (u ∷ r) lacks =
    split-append b',' t (join_comma (u ∷ r)) lacks.0
    ∙ ap (λ l. t ∷ l) (split-join_comma u r lacks.1)

split_lvm_field-split : (s : Bytes) → s ≢ [] → split_lvm_field s ≡ split s b','
unfolding split_lvm_field
split_lvm_field-split [] ne = absurd (ne refl)
split_lvm_field-split (c ∷ s) ne = refl

join_comma-ne : (t : Bytes) (ts : List Bytes) → t ∷ ts ≢ [] ∷ [] → join_comma (t ∷ ts) ≢ []
unfolding join_comma
join_comma-ne [] [] ne e = ne refl
join_comma-ne (b ∷ t) [] ne e = ground arith
join_comma-ne [] (u ∷ r) ne e = ground arith
join_comma-ne (b ∷ t) (u ∷ r) ne e = ground arith

-- The fields of a report that hold lists: joining texts without commas by commas and splitting gives
-- the texts back, unless there is one text and it is empty.
pub split_lvm_field-join_comma :
    (ts : List Bytes) → All (Lacks b',') ts → ts ≢ [] ∷ [] → split_lvm_field (join_comma ts) ≡ ts
split_lvm_field-join_comma [] lacks ne = unfold split_lvm_field join_comma in refl
split_lvm_field-join_comma (t ∷ ts) lacks ne =
    split_lvm_field-split (join_comma (t ∷ ts)) (join_comma-ne t ts ne)
    ∙ split-join_comma t ts lacks

is_tag_char-plain : (b i : ℕ) → is_plain b i ≡ true → is_tag_char b ≡ true
unfolding is_plain is_tag_char
is_tag_char-plain b i h = ground arith

is_tag_char-hex_digit : (d : ℕ) → d < 16 → is_tag_char (hex_digit d) ≡ true
unfolding hex_digit is_tag_char
is_tag_char-hex_digit d h = ground arith

quote-is_tag_char : (b : ℕ) → b < 256 → all is_tag_char (quote b) ≡ two_digits b
unfolding quote all is_tag_char
quote-is_tag_char b h = ground (
  arith,
  is_tag_char-hex_digit (b / 16) (omega arith),
  is_tag_char-hex_digit (b % 16) (omega arith),
)

all-encode_from :
    (i : ℕ) (s : Bytes) → All IsByte s → all is_tag_char (encode_from i s) ≡ encodable s
unfolding encode_from all
all-encode_from i [] h = refl
all-encode_from i (b ∷ s) (hb, hs) = elim (Bool-cases (is_plain b i)) [
  | inl plain ↦
      rw (plain, is_tag_char-plain b i plain, is_plain-two_digits b i plain)
        (all-encode_from (suc i) s hs)
  | inr quoted ↦
      rw
        (
          quoted,
          all-append is_tag_char (quote b) (encode_from (suc i) s),
          quote-is_tag_char b hb,
          all-encode_from (suc i) s hs,
        )
        refl
]

tag_re-ne : (t : Bytes) → t ≢ [] → tag_re t ≡ all is_tag_char t
unfolding tag_re
tag_re-ne [] ne = absurd (ne refl)
tag_re-ne (c ∷ s) ne = refl

prefix_bytes : All IsByte tag_prefix
prefix_bytes = omega arith

prefix-ne : (s : Bytes) → encoded_tag_prefix ++ s ≢ []
prefix-ne s = rw encoded_tag_prefix_lem (λ h. ground arith)

encode_tag_kv-ne : (k v : Bytes) → encode_tag_kv k v ≢ []
unfolding encode_tag_kv
encode_tag_kv-ne k v e = prefix-ne _ (sym (encode_tag-prefix (k ++ b'=' ∷ v)) ∙ e)

encodable-pair :
    (k v : Bytes) → encodable (tag_prefix ++ k ++ b'=' ∷ v) ≡ (encodable k && encodable v)
unfolding all
encodable-pair k v = rw (all-append two_digits k (b'=' ∷ v)) refl

-- The tag of a key and a value is one that the server accepts for a new volume if all their bytes are
-- at least 16, and otherwise the server refuses it.
pub tag_re-encode_tag_kv :
    (k v : Bytes)
    → All IsByte k
    → All IsByte v
    → tag_re (encode_tag_kv k v) ≡ (encodable k && encodable v)
tag_re-encode_tag_kv k v hk hv =
    tag_re-ne (encode_tag_kv k v) (encode_tag_kv-ne k v)
    ∙ unfold encode_tag_kv encode_tag in
      all-encode_from 0 (tag_prefix ++ k ++ b'=' ∷ v) (
        All-append IsByte tag_prefix (k ++ b'=' ∷ v) prefix_bytes
          (All-append IsByte k (b'=' ∷ v) hk (omega arith, hv)))
      ∙ encodable-pair k v

all-map :
    (f : TagKey → Bytes) (l : List TagKey)
    → All (λ k. tag_re (f k) ≡ true) l
    → all tag_re (map f l) ≡ true
unfolding all
all-map f [] h = refl
all-map f (k ∷ l) h = rw (h.0, all-map f l h.1) refl

IsTag-All :
    (m : TagMap) (l : List TagKey)
    → All (λ k. IsTag k (get m k)) l
    → All (λ k. tag_re (encode_tag_kv k (get m k)) ≡ true) l
IsTag-All m [] h = tt
IsTag-All m (k ∷ l) (t, h) = (
  tag_re-encode_tag_kv k (get m k) t.key.bytes t.bytes
      ∙ rw (t.encodable_key, t.encodable_value) refl,
  IsTag-All m l h,
)

tag_re-encode_tags : (m : TagMap) → IsTagMap m → all tag_re (encode_tags m) ≡ true
unfolding encode_tags
tag_re-encode_tags m h =
    all-map (λ k. encode_tag_kv k (get m k)) (sort_keys (keys m))
      (IsTag-All m (sort_keys (keys m)) (sort_keys-All (λ k. IsTag k (get m k)) (keys m) h.tags))

module _ {W : Type 0} (host : Host W) where
  -- A volume with the tags of a map that tags can carry is created by one run of lvcreate: no tag is
  -- refused, and the answer is that of the command.
  pub lv_create-encode_tags :
      (req : LvCreateRequest) (m : TagMap) (w : W)
      → IsTagMap m
      → req.lv_tags ≡ encode_tags m
      → let (o, w') = host.exec (codes "lvcreate") (lv_create_args req) w in
        lv_create host req w ≡ (answer o, w')
  unfolding lv_create
  lv_create-encode_tags req m w h e = rw (e, tag_re-encode_tags m h) refl

  -- A request with a tag that the expression refuses runs nothing.
  pub lv_create-bad_tag :
      (req : LvCreateRequest) (w : W)
      → all tag_re req.lv_tags ≡ false
      → lv_create host req w ≡ (err unknown, w)
  unfolding lv_create
  lv_create-bad_tag req w h = rw h refl

-- An exit code and its output are no error only if the code is 0, or is 5 and some line says that the size is
-- already the wanted one.
pub parse_lvm_error-ok :
    (code : ℤ) (stderr : Bytes)
    → parse_lvm_error code stderr ≡ ok tt
    → (code ≡ pos 0) ⊎ ((code ≡ pos 5) × (matches_text lv_size_matches stderr ≡ true))
unfolding parse_lvm_error classify
parse_lvm_error-ok code stderr h = ground arith

-- Whatever LVM writes before and behind it, the message that another host holds the lock makes
-- PermissionDenied of exit code 5, unless the output also says that the volume exists.
pub parse_lvm_error-locked :
    (before behind : Bytes)
    → matches_text lv_exists (before ++ 10 ∷ (codes "  LV locked by other host" ++ behind)) ≡ false
    → parse_lvm_error (pos 5) (before ++ 10 ∷ (codes "  LV locked by other host" ++ behind))
      ≡ err permission_denied
unfolding parse_lvm_error classify
parse_lvm_error-locked before behind h =
    rw
      (
        h,
        matches_text-line lv_locked_re before (codes "  LV locked by other host" ++ behind)
            (unfold match in refl),
      )
      refl
