-- ===== src/Tags/RoundTrip.antt =====
-- Decoding an encoded tag (pkg/driverd/tagencoder.go).
use Prim.Native.Nat.{bit_or}
use csi_sanlock_lvm.Base.{
  ℕ, suc, ◌*◌, ◌/◌, ◌%◌, ◌<◌, ◌≤◌, [], ◌∷◌, ◌++◌, append_assoc, append-nil, Bool, true, leb, ◌==◌,
  if◌then◌else◌, Bytes, Result, ok, err, unknown, refl, ◌≡◌, ◌≢◌, arith, all_below, all_below_sound,
  All, all, Bool-cases, inl, inr, ◌∙◌, leb→le, some, get_elem?,
}
use csi_sanlock_lvm.Tags.Encoder.{
  is_plain, hex_digit, quote, encode_from, encode_tag, hex_decode, normal, quote1, quote2,
  decode_from, decode_tag,
}

-- A byte that `%2x` prints by two hexadecimal digits.
abbrev pub two_digits : ℕ → Bool
two_digits b = leb 16 b

hex_decode-digit : (d : ℕ) → d < 16 → hex_decode (hex_digit d) ≡ ok d
unfolding hex_decode hex_digit
hex_decode-digit d h = ground arith

hex_decode-space : hex_decode b' ' ≡ err unknown
unfolding hex_decode
hex_decode-space = refl

join_table : all_below (λ b. bit_or (b / 16 * 16 % 256) (b % 16) == b) 256 ≡ true
unfolding all_below
join_table = refl

join_digits : (b : ℕ) → b < 256 → bit_or (b / 16 * 16 % 256) (b % 16) ≡ b
join_digits b h =
    let t = all_below_sound (λ x. bit_or (x / 16 * 16 % 256) (x % 16) == x) 256 b h join_table in
    ground arith

is_plain-ne-amp : (b i : ℕ) → is_plain b i ≡ true → b ≢ b'&'
unfolding is_plain
is_plain-ne-amp b i h = ground arith

pub is_plain-two_digits : (b i : ℕ) → is_plain b i ≡ true → two_digits b ≡ true
unfolding is_plain
is_plain-two_digits b i h = ground arith

decode-amp :
    (i q : ℕ) (out s : Bytes)
    → decode_from i normal q out (b'&' ∷ s) ≡ decode_from (suc i) quote1 q out s
unfolding decode_from
decode-amp i q out s = refl

decode-high :
    (i q h v : ℕ) (out s : Bytes)
    → hex_decode h ≡ ok v
    → decode_from i quote1 q out (h ∷ s) ≡ decode_from (suc i) quote2 (v * 16 % 256) out s
unfolding decode_from
decode-high i q h v out s e = ground arith

decode-high_bad :
    (i q h : ℕ) (out s : Bytes)
    → hex_decode h ≡ err unknown
    → decode_from i quote1 q out (h ∷ s) ≡ err unknown
unfolding decode_from
decode-high_bad i q h out s e = ground arith

decode-low :
    (i q h v : ℕ) (out s : Bytes)
    → hex_decode h ≡ ok v
    → decode_from i quote2 q out (h ∷ s) ≡ decode_from (suc i) normal 0 (out ++ bit_or q v ∷ []) s
unfolding decode_from
decode-low i q h v out s e = ground arith

quote-large : (b : ℕ) → 16 ≤ b → quote b ≡ b'&' ∷ hex_digit (b / 16) ∷ hex_digit (b % 16) ∷ []
unfolding quote
quote-large b h = ground arith

quote-small : (b : ℕ) → b < 16 → quote b ≡ b'&' ∷ b' ' ∷ hex_digit (b % 16) ∷ []
unfolding quote
quote-small b h = ground arith

-- A quoted byte of two digits is read back from any position.
decode-quote :
    (i q b : ℕ) (out rest : Bytes)
    → b < 256
    → 16 ≤ b
    → decode_from i normal q out (quote b ++ rest)
      ≡ decode_from (suc (suc (suc i))) normal 0 (out ++ b ∷ []) rest
decode-quote i q b out rest h k = rw (
  quote-large b k,
  decode-amp,
  decode-high (suc i) q _ _ out _ (hex_decode-digit (b / 16) (omega arith)),
  decode-low (suc (suc i)) _ _ _ out rest (hex_decode-digit (b % 16) (omega arith)),
  join_digits b h,
)

-- One of a single digit is refused.
decode-quote_small :
    (i q b : ℕ) (out rest : Bytes)
    → b < 16
    → decode_from i normal q out (quote b ++ rest) ≡ err unknown
decode-quote_small i q b out rest h =
    rw (quote-small b h, decode-amp) (decode-high_bad (suc i) q _ out _ hex_decode-space)

decode-plain :
    (i q b : ℕ) (out rest : Bytes)
    → is_plain b i ≡ true
    → decode_from i normal q out (b ∷ rest) ≡ decode_from (suc i) normal q (out ++ b ∷ []) rest
unfolding decode_from
decode-plain i q b out rest h = ground (arith, is_plain-ne-amp b i h)

abbrev pub IsByte : ℕ → Type 0
IsByte b = b < 256

-- Whether every byte is printed by two digits.
abbrev pub encodable : Bytes → Bool
encodable = all two_digits

-- A position counts only by being the first or not.
is_plain-later : (b i j : ℕ) → 0 < i → 0 < j → is_plain b i ≡ is_plain b j
unfolding is_plain
is_plain-later b i j hi hj = ground arith

abbrev Outcome : Bytes → Bytes → Result Bytes
Outcome out s = if encodable s then ok (out ++ s) else err unknown

-- One byte, at index `i` of the value and at index `j` of what is decoded.
decode-encode_step :
    (b : ℕ) (s : Bytes) (i j q : ℕ) (out : Bytes)
    → b < 256
    → (is_plain b i ≡ true → is_plain b j ≡ true)
    → ((k p : ℕ) (out' : Bytes)
        → 0 < k
        → decode_from k normal p out' (encode_from (suc i) s) ≡ Outcome out' s)
    → decode_from j normal q out (encode_from i (b ∷ s)) ≡ Outcome out (b ∷ s)
unfolding encode_from all
decode-encode_step b s i j q out hb same rest = elim (Bool-cases (is_plain b i)) [
  | inl plain ↦
      rw
        (
          plain,
          is_plain-two_digits b i plain,
          decode-plain j q b out (encode_from (suc i) s) (same plain),
        )
        (rest (suc j) q (out ++ b ∷ []) (omega arith) ∙ rw (append_assoc out (b ∷ []) s))
  | inr quoted ↦ rw quoted (elim (Bool-cases (two_digits b)) [
    | inl large ↦
        rw (large, decode-quote j q b out (encode_from (suc i) s) hb (leb→le 16 b large))
          (rest (suc (suc (suc j))) 0 (out ++ b ∷ []) (omega arith)
            ∙ rw (append_assoc out (b ∷ []) s))
    | inr small ↦ rw (small, decode-quote_small j q b out (encode_from (suc i) s) (ground arith))
  ])
]

decode-encode_later :
    (s : Bytes) (i j q : ℕ) (out : Bytes)
    → 0 < i
    → 0 < j
    → All IsByte s
    → decode_from j normal q out (encode_from i s) ≡ Outcome out s
unfolding encode_from all
decode-encode_later [] i j q out hi hj hs = unfold decode_from in rw append-nil
decode-encode_later (b ∷ s) i j q out hi hj (hb, hs) =
    decode-encode_step b s i j q out hb (λ p. is_plain-later b j i hj hi ∙ p)
      (λ k p o hk. decode-encode_later s (suc i) k p o (omega arith) hk hs)

-- Read from its start, a text encoded from index `i` on comes back unless it starts with a hyphen.
pub decode-encode_from :
    (s : Bytes) (i : ℕ)
    → All IsByte s
    → (get_elem? s 0 ≡ some b'-' → i ≡ 0)
    → decode_tag (encode_from i s) ≡ (if encodable s then ok s else err unknown)
unfolding decode_tag encode_from all
decode-encode_from [] i hs hyphen = refl
decode-encode_from (b ∷ s) i (hb, hs) hyphen =
    decode-encode_step b s i 0 0 [] hb (unfold is_plain in λ p. ground arith)
      (λ k p o hk. decode-encode_later s (suc i) k p o (omega arith) hk hs)

-- For every byte string, decodeTag of encodeTag returns the string if each byte is at least 16, and
-- fails if some byte is smaller.
pub decode_tag-encode_tag :
    (s : Bytes)
    → All IsByte s
    → decode_tag (encode_tag s) ≡ (if encodable s then ok s else err unknown)
unfolding encode_tag
decode_tag-encode_tag s hs = decode-encode_from s 0 hs (λ _. refl)
