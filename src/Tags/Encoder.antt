-- ===== src/Tags/Encoder.antt =====
-- The tag encoder (pkg/driverd/tagencoder.go). A string is the list of its bytes.
use Prim.Native.Nat.{bit_or}
use csi_sanlock_lvm.Base.{
  ℕ, suc, ◌+◌, ◌-◌, ◌*◌, ◌/◌, ◌%◌, [], ◌∷◌, ◌++◌, Bool, ◌&&◌, ◌||◌, ltb, leb, ◌==◌, if◌then◌else◌,
  Bytes, codes, Result, ok, err, unknown, refl, ◌≡◌,
}

unfoldable pub is_plain : ℕ → ℕ → Bool
is_plain b pos =
    (leb b'a' b && leb b b'z')
    || (leb b'A' b && leb b b'Z')
    || (leb b'0' b && leb b b'9')
    || (b == b'_')
    || (b == b'+')
    || (b == b'.')
    || ((b == b'-') && ltb 0 pos)
    || (b == b'/')
    || (b == b'=')
    || (b == b'!')
    || (b == b':')
    || (b == b'#')

-- A digit of `%x`.
unfoldable pub hex_digit : ℕ → ℕ
hex_digit d = if ltb d 10 then b'0' + d else b'a' + (d - 10)

-- `fmt.Sprintf("&%2x", b)`: the width 2 pads with a space, not with a zero.
unfoldable pub quote : ℕ → Bytes
unfolding hex_digit
quote b = b'&' ∷ (if ltb b 16 then b' ' else hex_digit (b / 16)) ∷ hex_digit (b % 16) ∷ []

-- The loop of encodeTag from index `i` on.
unfoldable pub encode_from : ℕ → Bytes → Bytes
encode_from i [] = []
encode_from i (b ∷ s) =
    let rest = encode_from (suc i) s in if is_plain b i then b ∷ rest else quote b ++ rest

unfoldable pub encode_tag : Bytes → Bytes
unfolding encode_from
encode_tag value = encode_from 0 value

unfoldable pub hex_decode : ℕ → Result ℕ
hex_decode h =
    if leb b'0' h && leb h b'9'
    then ok (h - b'0')
    else if leb b'A' h && leb h b'F'
    then ok (h - b'A' + 10)
    else if leb b'a' h && leb h b'f'
    then ok (h - b'a' + 10)
    else err unknown

pub data QuoteState : Type 0 where
  normal quote1 quote2 : QuoteState

-- The loop of decodeTag: the index, qState, qValue, what the builder holds, and the unread bytes.
unfoldable pub decode_from : ℕ → QuoteState → ℕ → Bytes → Bytes → Result Bytes
decode_from i normal q out [] = ok out
decode_from i quote1 q out [] = err unknown
decode_from i quote2 q out [] = err unknown
decode_from i quote1 q out (b ∷ s) = elim (hex_decode b) [
  | ok v ↦ decode_from (suc i) quote2 (v * 16 % 256) out s
  | err e ↦ err unknown
]
decode_from i quote2 q out (b ∷ s) = elim (hex_decode b) [
  | ok v ↦ decode_from (suc i) normal 0 (out ++ bit_or q v ∷ []) s
  | err e ↦ err unknown
]
decode_from i normal q out (b ∷ s) =
    let quoted = decode_from (suc i) quote1 q out s in
    let plain = decode_from (suc i) normal q (out ++ b ∷ []) s in
    if b == b'&' then quoted else if is_plain b i then plain else err unknown

unfoldable pub decode_tag : Bytes → Result Bytes
unfolding decode_from
decode_tag encoded = decode_from 0 normal 0 [] encoded

-- The repository's own tests (tagencoder_test.go).
encode_quoted : encode_tag (codes "quoted_chars= {}$`") ≡ codes "quoted_chars=&20&7b&7d&24&60"
unfolding encode_tag is_plain quote
encode_quoted = refl

decode_hyphens : decode_tag (codes "&2d-&2d") ≡ ok (codes "---")
unfolding decode_tag is_plain hex_decode
decode_hyphens = refl

decode_initial_hyphen : decode_tag (codes "--") ≡ err unknown
unfolding decode_tag is_plain hex_decode
decode_initial_hyphen = refl

decode_invalid : decode_tag (codes "invalid +") ≡ err unknown
unfolding decode_tag is_plain hex_decode
decode_invalid = refl
