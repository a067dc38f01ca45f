-- ===== src/Mailbox/Device.antt =====
-- The data file: its bytes. A read past the end fails, and a write puts bytes over those that are
-- there; a block device does not grow.
use csi_sanlock_lvm.Base.{
  ℕ, zero, suc, ◌+◌, ◌-◌, ◌*◌, ◌/◌, ◌%◌, ◌^◌, ◌≤◌, ◌<◌, ◌≡◌, refl, sym, ap, ◌∙◌, [], ◌∷◌, ◌++◌,
  Bytes, take, drop, length, leb, if◌then◌else◌, arith, Result, ok, err, unknown,
}

-- io.ReadFull of `n` bytes at `offset`.
unfoldable pub read_at : Bytes → ℕ → ℕ → Result Bytes
read_at file offset n =
    if leb (offset + n) (length file) then ok (take n (drop offset file)) else err unknown

-- Bytes put over those at `offset`; nothing is written past the end.
unfoldable pub overwrite : Bytes → ℕ → Bytes → Bytes
overwrite [] offset buf = []
overwrite (b ∷ s) (suc offset) buf = b ∷ overwrite s offset buf
overwrite (b ∷ s) zero [] = b ∷ s
overwrite (b ∷ s) zero (c ∷ buf) = c ∷ overwrite s zero buf

-- Seek and Write. A write that does not fit fails and leaves the file as it was.
unfoldable pub write_at : ℕ → Bytes → Bytes → Result (Unit {0}) × Bytes
write_at offset buf file =
    if leb (offset + length buf) (length file)
    then (ok tt, overwrite file offset buf)
    else (err unknown, file)

-- binary.LittleEndian.PutUint32 and Uint32.
unfoldable pub put_uint32 : ℕ → Bytes
put_uint32 n = n % 256 ∷ (n / 256 % 256) ∷ (n / 65536 % 256) ∷ (n / 16777216 % 256) ∷ []

unfoldable pub uint32 : Bytes → ℕ
uint32 (a ∷ b ∷ c ∷ d ∷ s) = a + 256 * b + 65536 * c + 16777216 * d
uint32 _ = 0

pub uint32-put_uint32 : (n : ℕ) (s : Bytes) → n < 2 ^ 32 → uint32 (put_uint32 n ++ s) ≡ n
unfolding uint32 put_uint32
uint32-put_uint32 n s h = omega arith

pub length-put_uint32 : (n : ℕ) → length (put_uint32 n) ≡ 4
unfolding put_uint32
length-put_uint32 n = refl

pub take-append : (s t : Bytes) → take (length s) (s ++ t) ≡ s
take-append [] t = refl
take-append (b ∷ s) t = ap (λ r. b ∷ r) (take-append s t)

pub length-take : (n : ℕ) (s : Bytes) → n ≤ length s → length (take n s) ≡ n
length-take zero s h = refl
length-take (suc n) [] h = absurd (omega arith)
length-take (suc n) (b ∷ s) h = ap suc (length-take n s (omega arith))

pub length-drop : (n : ℕ) (s : Bytes) → length (drop n s) ≡ length s - n
length-drop zero s = omega arith
length-drop (suc n) [] = omega arith
length-drop (suc n) (b ∷ s) = omega (arith, length-drop n s)

pub take-drop : (n : ℕ) (s : Bytes) → take n s ++ drop n s ≡ s
take-drop zero s = refl
take-drop (suc n) [] = refl
take-drop (suc n) (b ∷ s) = ap (λ r. b ∷ r) (take-drop n s)

drop-nil : (k : ℕ) → drop {A = ℕ} k [] ≡ []
drop-nil zero = refl
drop-nil (suc k) = refl

pub drop-add : (a b : ℕ) (s : Bytes) → drop (a + b) s ≡ drop b (drop a s)
drop-add zero b s = ap (λ k. drop k s) (omega arith)
drop-add (suc a) b [] = drop-nil (suc a + b) ∙ sym (drop-nil b)
drop-add (suc a) b (c ∷ s) =
    let e : suc a + b ≡ suc (a + b) = omega arith in ap (λ k. drop k (c ∷ s)) e ∙ drop-add a b s

pub length-overwrite : (s : Bytes) (i : ℕ) (buf : Bytes) → length (overwrite s i buf) ≡ length s
unfolding overwrite
length-overwrite [] i buf = refl
length-overwrite (b ∷ s) (suc i) buf = ap suc (length-overwrite s i buf)
length-overwrite (b ∷ s) zero [] = refl
length-overwrite (b ∷ s) zero (c ∷ buf) = ap suc (length-overwrite s zero buf)

pub overwrite-nil : (s : Bytes) (i : ℕ) → overwrite s i [] ≡ s
unfolding overwrite
overwrite-nil [] i = refl
overwrite-nil (b ∷ s) zero = refl
overwrite-nil (b ∷ s) (suc i) = ap (λ r. b ∷ r) (overwrite-nil s i)

-- What stands from `i` on after a write at `i` that fits.
pub overwrite-front :
    (s buf : Bytes) → length buf ≤ length s → overwrite s 0 buf ≡ buf ++ drop (length buf) s
unfolding overwrite
overwrite-front s [] h = overwrite-nil s 0
overwrite-front [] (c ∷ buf) h = absurd (omega arith)
overwrite-front (b ∷ s) (c ∷ buf) h = ap (λ r. c ∷ r) (overwrite-front s buf (omega arith))

pub drop-overwrite :
    (s : Bytes) (k i : ℕ) (buf : Bytes)
    → k ≤ i
    → drop k (overwrite s i buf) ≡ overwrite (drop k s) (i - k) buf
unfolding overwrite
drop-overwrite s zero i buf h = ap (λ j. overwrite s j buf) (omega arith)
drop-overwrite [] (suc k) i buf h = refl
drop-overwrite (b ∷ s) (suc k) zero buf h = absurd (omega arith)
drop-overwrite (b ∷ s) (suc k) (suc i) buf h =
    drop-overwrite s k i buf (omega arith) ∙ ap (λ j. overwrite (drop k s) j buf) (omega arith)

pub drop-overwrite_after :
    (s : Bytes) (k i : ℕ) (buf : Bytes) → i + length buf ≤ k → drop k (overwrite s i buf) ≡ drop k s
unfolding overwrite
drop-overwrite_after [] k i buf h = refl
drop-overwrite_after (b ∷ s) k zero [] h = refl
drop-overwrite_after (b ∷ s) zero zero (c ∷ buf) h = absurd (omega arith)
drop-overwrite_after (b ∷ s) (suc k) zero (c ∷ buf) h =
    drop-overwrite_after s k zero buf (omega arith)
drop-overwrite_after (b ∷ s) zero (suc i) buf h = absurd (omega arith)
drop-overwrite_after (b ∷ s) (suc k) (suc i) buf h = drop-overwrite_after s k i buf (omega arith)

pub take-overwrite_before :
    (s : Bytes) (k i : ℕ) (buf : Bytes) → k ≤ i → take k (overwrite s i buf) ≡ take k s
unfolding overwrite
take-overwrite_before s zero i buf h = refl
take-overwrite_before [] (suc k) i buf h = refl
take-overwrite_before (b ∷ s) (suc k) zero buf h = absurd (omega arith)
take-overwrite_before (b ∷ s) (suc k) (suc i) buf h =
    ap (λ r. b ∷ r) (take-overwrite_before s k i buf (omega arith))

pub uint32-take : (s : Bytes) → uint32 (take 4 s) ≡ uint32 s
unfolding uint32
uint32-take [] = refl
uint32-take (a ∷ []) = refl
uint32-take (a ∷ b ∷ []) = refl
uint32-take (a ∷ b ∷ c ∷ []) = refl
uint32-take (a ∷ b ∷ c ∷ d ∷ s) = refl
