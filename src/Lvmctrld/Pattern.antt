-- ===== src/Lvmctrld/Pattern.antt =====
-- The regular expressions of pkg/lvmctrld/lvmctrldserver.go: sequences of classes of bytes, each once
-- or any number of times, in the modes m (`^` is the start of a line) and i (letters of either case).
use csi_sanlock_lvm.Base.{
  ℕ, ◌+◌, ◌≡◌, refl, ◌↔◌, inl, inr, List, [], ◌∷◌, ◌++◌, Bytes, Bool, true, false, not, ◌&&◌, ◌||◌,
  leb, ◌==◌, if◌then◌else◌, arith, Bool-cases,
}

abbrev pub Class : Type 0
Class = ℕ → Bool

-- A class once, or `class*`.
pub data Piece : Type 0 where
  once : Class → Piece
  many : Class → Piece

abbrev pub Pattern : Type 0
Pattern = List Piece

-- Whether the pattern matches the beginning of the text.
unfoldable pub match : Pattern → Bytes → Bool
match [] s = true
match (once c ∷ p) [] = false
match (once c ∷ p) (b ∷ s) = let rest = match p s in if c b then rest else false
match (many c ∷ p) [] = match p []
match (many c ∷ p) (b ∷ s) =
    let longer = match (many c ∷ p) s in
    let shorter = match p (b ∷ s) in if shorter then true else if c b then longer else false

-- The texts that begin with a match.
pub data Matches : Pattern → Bytes → Type 0 where
  nothing_left : (s : Bytes) → Matches [] s
  byte :
      {c : Class} {p : Pattern} {b : ℕ} {s : Bytes}
      → c b ≡ true
      → Matches p s
      → Matches (once c ∷ p) (b ∷ s)
  leave : {c : Class} {p : Pattern} {s : Bytes} → Matches p s → Matches (many c ∷ p) s
  repeat :
      {c : Class} {p : Pattern} {b : ℕ} {s : Bytes}
      → c b ≡ true
      → Matches (many c ∷ p) s
      → Matches (many c ∷ p) (b ∷ s)

match_sound : (p : Pattern) (s : Bytes) → match p s ≡ true → Matches p s
unfolding match
match_sound [] s h = nothing_left s
match_sound (once c ∷ p) [] h = absurd (cc)
match_sound (once c ∷ p) (b ∷ s) h = byte (ground arith) (match_sound p s (ground arith))
match_sound (many c ∷ p) [] h = leave (match_sound p [] h)
match_sound (many c ∷ p) (b ∷ s) h = elim (Bool-cases (match p (b ∷ s))) [
  | inl short ↦ leave (match_sound p (b ∷ s) short)
  | inr no_short ↦ repeat (ground arith) (match_sound (many c ∷ p) s (ground arith))
]

match-leave : (c : Class) (p : Pattern) (s : Bytes) → match p s ≡ true → match (many c ∷ p) s ≡ true
unfolding match
match-leave c p [] h = h
match-leave c p (b ∷ s) h = rw h refl

match_complete : {p : Pattern} {s : Bytes} → Matches p s → match p s ≡ true
unfolding match
match_complete (nothing_left s) = refl
match_complete (byte h m) = rw (h, match_complete m) refl
match_complete (leave {c} {p} {s} m) = match-leave c p s (match_complete m)
match_complete (repeat h m) = ground (arith, match_complete m)

-- The matcher decides whether the text begins with a match of the pattern.
pub match_iff : (p : Pattern) (s : Bytes) → (match p s ≡ true) ↔ Matches p s
match_iff p s = (match_sound p s, match_complete)

-- At the start of some line.
unfoldable pub match_lines : Pattern → Bytes → Bool
match_lines p [] = false
match_lines p (b ∷ s) = let later = match_lines p s in if b == 10 then match p s || later else later

-- Whether an expression that begins with `^` matches somewhere in the text.
unfoldable pub matches_text : Pattern → Bytes → Bool
matches_text p s = match p s || match_lines p s

match_lines-line :
    (p : Pattern) (before line : Bytes)
    → match p line ≡ true
    → match_lines p (before ++ 10 ∷ line) ≡ true
unfolding match_lines
match_lines-line p [] line h = ground arith
match_lines-line p (b ∷ before) line h = ground (arith, match_lines-line p before line h)

-- A match at the start of a line is found, whatever stands before and after.
pub matches_text-line :
    (p : Pattern) (before line : Bytes)
    → match p line ≡ true
    → matches_text p (before ++ 10 ∷ line) ≡ true
unfolding matches_text
matches_text-line p before line h = ground (arith, match_lines-line p before line h)

abbrev pub is_space : Class
is_space b = (b == 9) || (b == 10) || (b == 12) || (b == 13) || (b == 32)

abbrev pub is_digit : Class
is_digit b = leb b'0' b && leb b b'9'

abbrev pub no_quote : Class
no_quote b = not (b == 34)

abbrev pub no_space : Class
no_space b = not (is_space b)

abbrev pub no_newline : Class
no_newline b = not (b == 10)

abbrev lower : ℕ → ℕ
lower b = if leb b'A' b && leb b b'Z' then b + 32 else b

-- A letter of the text in either case. The two letters outside ASCII that Go folds to k and s do not
-- occur in the messages of LVM.
abbrev pub fold_eq : ℕ → Class
fold_eq l b = lower l == lower b

abbrev pub literal : Bytes → Pattern
literal [] = []
literal (l ∷ s) = once (fold_eq l) ∷ literal s

abbrev pub plus : Class → Pattern
plus c = once c ∷ many c ∷ []
