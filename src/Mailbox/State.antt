-- ===== src/Mailbox/State.antt =====
-- The state segments: what is read after a write of the state, also after one that is cut short.
use csi_sanlock_lvm.Base.{
  ℕ, zero, suc, ◌+◌, ◌*◌, ◌≤◌, ◌≡◌, refl, sym, ap, ◌∙◌, [], ◌∷◌, ◌++◌, append-nil, Bytes, bytes_eq,
  take, drop, length, drop-append, if◌then◌else◌, arith,
}
use csi_sanlock_lvm.Mailbox.Device.{overwrite, take-append, drop-add, overwrite-nil}
use csi_sanlock_lvm.Mailbox.Layout.{choose}

abbrev pub thrice : Bytes → Bytes
thrice s = s ++ (s ++ s)

-- A copy of which the first `j` bytes have been replaced.
abbrev pub mixed : Bytes → Bytes → ℕ → Bytes
mixed old new j = overwrite old 0 (take j new)

take-le : (k : ℕ) (u v : Bytes) → k ≤ length u → take k (u ++ v) ≡ take k u
take-le zero u v h = refl
take-le (suc k) [] v h = absurd (omega arith)
take-le (suc k) (b ∷ u) v h = ap (λ r. b ∷ r) (take-le k u v (omega arith))

take-add : (u v : Bytes) (j : ℕ) → take (length u + j) (u ++ v) ≡ u ++ take j v
take-add [] v j = ap (λ k. take k v) (omega arith)
take-add (b ∷ u) v j =
    let e : suc (length u) + j ≡ suc (length u + j) = omega arith in
    ap (λ k. take k (b ∷ u ++ v)) e ∙ ap (λ r. b ∷ r) (take-add u v j)

pub overwrite-left :
    (x y buf : Bytes) → length buf ≤ length x → overwrite (x ++ y) 0 buf ≡ overwrite x 0 buf ++ y
unfolding overwrite
overwrite-left x y [] h = overwrite-nil (x ++ y) 0 ∙ ap (λ r. r ++ y) (sym (overwrite-nil x 0))
overwrite-left [] y (c ∷ buf) h = absurd (omega arith)
overwrite-left (b ∷ x) y (c ∷ buf) h = ap (λ r. c ∷ r) (overwrite-left x y buf (omega arith))

overwrite-past :
    (x y u v : Bytes) → length u ≡ length x → overwrite (x ++ y) 0 (u ++ v) ≡ u ++ overwrite y 0 v
unfolding overwrite
overwrite-past [] y [] v h = refl
overwrite-past [] y (c ∷ u) v h = absurd (omega arith)
overwrite-past (b ∷ x) y [] v h = absurd (omega arith)
overwrite-past (b ∷ x) y (c ∷ u) v h = ap (λ r. c ∷ r) (overwrite-past x y u v (omega arith))

pub overwrite-append :
    (s : Bytes) (i : ℕ) (u v : Bytes)
    → overwrite s i (u ++ v) ≡ overwrite (overwrite s i u) (i + length u) v
unfolding overwrite
overwrite-append [] i u v = refl
overwrite-append (b ∷ s) (suc i) u v =
    let e : suc i + length u ≡ suc (i + length u) = omega arith in
    ap (λ r. b ∷ r) (overwrite-append s i u v)
    ∙ ap (λ k. overwrite (b ∷ overwrite s i u) k v) (sym e)
overwrite-append (b ∷ s) zero [] v = refl
overwrite-append (b ∷ s) zero (c ∷ u) v =
    let e : 0 + suc (length u) ≡ suc (0 + length u) = omega arith in
    ap (λ r. c ∷ r) (overwrite-append s zero u v)
    ∙ ap (λ k. overwrite (c ∷ overwrite s zero u) k v) (sym e)

pub length-take_le : (k : ℕ) (s : Bytes) → length (take k s) ≤ k
length-take_le zero s = omega arith
length-take_le (suc k) [] = omega arith
length-take_le (suc k) (b ∷ s) = omega (arith, length-take_le k s)

-- What `choose` makes of three copies.
pub choose-parts :
    (a b c : Bytes) (n : ℕ)
    → length a ≡ n
    → length b ≡ n
    → length c ≡ n
    → choose n (a ++ (b ++ c)) ≡ (if bytes_eq a b then a else c)
unfolding choose
choose-parts a b c n ha hb hc = rw (first, second, third) refl
  where
    first : take n (a ++ (b ++ c)) ≡ a
    first = ap (λ k. take k (a ++ (b ++ c))) (sym ha) ∙ take-append a (b ++ c)

    behind_first : drop n (a ++ (b ++ c)) ≡ b ++ c
    behind_first = ap (λ k. drop k (a ++ (b ++ c))) (sym ha) ∙ drop-append a (b ++ c)

    second : take n (drop n (a ++ (b ++ c))) ≡ b
    second = ap (take n) behind_first ∙ ap (λ k. take k (b ++ c)) (sym hb) ∙ take-append b c

    behind_second : drop (2 * n) (a ++ (b ++ c)) ≡ c
    behind_second =
        ap (λ k. drop k (a ++ (b ++ c))) (omega arith)
        ∙ drop-add n n (a ++ (b ++ c))
        ∙ ap (drop n) behind_first
        ∙ ap (λ k. drop k (b ++ c)) (sym hb)
        ∙ drop-append b c

    third : take n (drop (2 * n) (a ++ (b ++ c))) ≡ c
    third =
        ap (take n) behind_second
        ∙ ap (λ k. take k c) (sym hc)
        ∙ sym (ap (take (length c)) (append-nil c))
        ∙ take-append c []

-- Three copies after the first `k` bytes of three new ones have been written over them.
abbrev pub torn : Bytes → Bytes → Bytes → Bytes → ℕ → Bytes
torn a b c new k = overwrite (a ++ (b ++ c)) 0 (take k (thrice new))

module _ (a b c new : Bytes) (n : ℕ) (ha : length a ≡ n) (hb : length b ≡ n) (hc : length c ≡ n)
    (hn : length new ≡ n) where
  pub torn-first : (k : ℕ) → k ≤ n → torn a b c new k ≡ mixed a new k ++ (b ++ c)
  torn-first k h =
      ap (overwrite (a ++ (b ++ c)) 0) (take-le k new (new ++ new) (omega arith))
      ∙ overwrite-left a (b ++ c) (take k new) (omega (arith, length-take_le k new))

  pub torn-second : (j : ℕ) → j ≤ n → torn a b c new (n + j) ≡ new ++ (mixed b new j ++ c)
  torn-second j h =
      ap (λ m. overwrite (a ++ (b ++ c)) 0 (take (m + j) (thrice new))) (sym hn)
      ∙ ap (overwrite (a ++ (b ++ c)) 0)
          (take-add new (new ++ new) j ∙ ap (λ r. new ++ r) (take-le j new new (omega arith)))
      ∙ overwrite-past a (b ++ c) new (take j new) (omega arith)
      ∙ ap (λ r. new ++ r) (overwrite-left b c (take j new) (omega (arith, length-take_le j new)))

  pub torn-third : (j : ℕ) → torn a b c new (n + (n + j)) ≡ new ++ (new ++ mixed c new j)
  torn-third j =
      ap (λ m. overwrite (a ++ (b ++ c)) 0 (take (m + (m + j)) (thrice new))) (sym hn)
      ∙ ap (overwrite (a ++ (b ++ c)) 0)
          (take-add new (new ++ new) (length new + j) ∙ ap (λ r. new ++ r) (take-add new new j))
      ∙ overwrite-past a (b ++ c) new (new ++ take j new) (omega arith)
      ∙ ap (λ r. new ++ r) (overwrite-past b c new (take j new) (omega arith))
