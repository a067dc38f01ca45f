-- ===== src/Tags/KeyRoundTrip.antt =====
-- Reading back a key-value tag (pkg/driverd/tags.go).
use csi_sanlock_lvm.Base.{
  ℕ, suc, ◌+◌, ◌≡◌, ◌≢◌, refl, [], ◌∷◌, ◌++◌, append_assoc, some, ◌&&◌, if◌then◌else◌, Bytes, Lacks,
  all-append, length, take, drop, get_elem?, All, All-append, all, has_prefix-append, drop-append,
  ok, err, unknown, arith, Bool-cases, inl, inr, ap,
}
use csi_sanlock_lvm.Tags.Encoder.{is_plain, quote, encode_from, encode_tag}
use csi_sanlock_lvm.Tags.RoundTrip.{two_digits, IsByte, encodable, decode-encode_from}
use csi_sanlock_lvm.Tags.KeyValue.{
  TagKey, tag_prefix, encoded_tag_prefix, index, cut_pair, decode_tag_kv, encode_tag_kv,
}

encode_from-append :
    (p s : Bytes) (i : ℕ) → encode_from i (p ++ s) ≡ encode_from i p ++ encode_from (i + length p) s
unfolding encode_from quote is_plain
encode_from-append [] s i = ap (λ k. encode_from k s) (omega arith)
encode_from-append (b ∷ p) s i = elim (Bool-cases (is_plain b i)) [
  | inl plain ↦
      rw (plain, encode_from-append p s (suc i))
        (ap (λ k. b ∷ encode_from (suc i) p ++ encode_from k s) (omega arith))
  | inr quoted ↦
      rw (quoted, encode_from-append p s (suc i), append_assoc (quote b))
        (ap (λ k. quote b ++ encode_from (suc i) p ++ encode_from k s) (omega arith))
]

pub encoded_tag_prefix_lem : encoded_tag_prefix ≡ tag_prefix
unfolding encoded_tag_prefix encode_tag is_plain
encoded_tag_prefix_lem = refl

pub encode_tag-prefix :
    (s : Bytes) → encode_tag (tag_prefix ++ s) ≡ encoded_tag_prefix ++ encode_from 25 s
unfolding encode_tag encoded_tag_prefix
encode_tag-prefix s = encode_from-append tag_prefix s 0

index-append : (c : ℕ) (s t : Bytes) → Lacks c s → index (s ++ c ∷ t) c ≡ some (length s)
unfolding index
index-append c [] t h = ground arith
index-append c (b ∷ s) t h = ground (arith, index-append c s t h.1)

take-append : (s t : Bytes) → take (length s) (s ++ t) ≡ s
take-append [] t = refl
take-append (b ∷ s) t = ap (λ r. b ∷ r) (take-append s t)

drop-append_cons : (c : ℕ) (s t : Bytes) → drop (suc (length s)) (s ++ c ∷ t) ≡ t
drop-append_cons c [] t = refl
drop-append_cons c (b ∷ s) t = drop-append_cons c s t

cut_pair-append : (k v : Bytes) → Lacks b'=' k → cut_pair (k ++ b'=' ∷ v) ≡ ok (some (k, v))
unfolding cut_pair
cut_pair-append k v h =
    rw (cut_pair, index-append b'=' k v h, take-append k (b'=' ∷ v), drop-append_cons b'=' k v)

-- A key that can be written to a tag: bytes only, no '=', and no hyphen in front.
pub record IsKey (k : TagKey) : Type 0 where
  pub bytes : All IsByte k
  pub no_equals : Lacks b'=' k
  pub no_hyphen : get_elem? k 0 ≢ some b'-'

head-append : (k v : Bytes) → IsKey k → get_elem? (k ++ b'=' ∷ v) 0 ≡ some b'-' → ◌≡◌ {A = ℕ} 25 0
head-append [] v h e = absurd (ground arith)
head-append (b ∷ k) v h e = absurd (h.no_hyphen e)

-- Decoding the tag of a key and a value gives both back if all their bytes are at least 16, and
-- fails if some byte is smaller, for a key with no '=' and no leading hyphen.
pub decode_tag_kv-encode_tag_kv :
    (k v : Bytes)
    → IsKey k
    → All IsByte v
    → decode_tag_kv (encode_tag_kv k v)
      ≡ (if encodable k && encodable v then ok (some (k, v)) else err unknown)
unfolding decode_tag_kv encode_tag_kv
decode_tag_kv-encode_tag_kv k v hk hv =
    rw
      (
        encode_tag-prefix (k ++ b'=' ∷ v),
        has_prefix-append encoded_tag_prefix (encode_from 25 (k ++ b'=' ∷ v)),
        drop-append encoded_tag_prefix (encode_from 25 (k ++ b'=' ∷ v)),
        decode-encode_from (k ++ b'=' ∷ v) 25 (All-append _ k _ hk.bytes (ground arith, hv))
            (head-append k v hk),
        all-append two_digits k (b'=' ∷ v),
      )
      (unfold all in ground (arith, cut_pair-append k v hk.no_equals))
