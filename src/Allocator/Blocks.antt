-- ===== src/Allocator/Blocks.antt =====
-- What `take` and `give` do to the blocks of a segment.
use csi_sanlock_lvm.Base.{
  ℕ, zero, suc, ◌+◌, ◌-◌, ◌*◌, ◌≤◌, ◌<◌, ◌≡◌, ◌≢◌, inl, inr, refl, ap, ◌∙◌, subst, Bool, true,
  false, ◌&&◌, ◌||◌, Option, none, some, leb, ltb, if◌then◌else◌, arith, Bool-cases, leb→le,
}
use csi_sanlock_lvm.Allocator.Heap.{shl1}
use csi_sanlock_lvm.Allocator.Positions.{shl1_pos}
use csi_sanlock_lvm.Allocator.Tree.{Tree, whole, used, split, room, take, merge, give}

-- Two free halves are never left apart.
abbrev pub IsTidy : Tree → Type 0
IsTidy whole = Unit
IsTidy used = Unit
IsTidy (split l r) = IsTidy l × IsTidy r × (merge l r ≡ split l r)

-- Whether block `i` of a segment is allocated.
unfoldable pub busy : ℕ → Tree → ℕ → Bool
busy d whole i = false
busy d used i = true
busy zero (split l r) i = false
busy (suc d) (split l r) i = if ltb i (shl1 d) then busy d l i else busy d r (i - shl1 d)

abbrev pub inside : ℕ → ℕ → ℕ → Bool
inside o s i = leb o i && ltb i (o + s)

-- The call took the 2 ^ k blocks from `o` on, which were free and are busy now, and no other; less
-- than that power of two would have been too few.
pub record Takes (d : ℕ) (t t' : Tree) (n o : ℕ) : Type 0 where
  pub order : ℕ
  pub enough : n ≤ shl1 order
  pub tight : shl1 order < 2 * n
  pub in_range : o + shl1 order ≤ shl1 d
  pub was_free : (i : ℕ) → inside o (shl1 order) i ≡ true → busy d t i ≡ false
  pub now_busy : (i : ℕ) → i < shl1 d → busy d t' i ≡ (inside o (shl1 order) i || busy d t i)

merge-used : (t : Tree) → (merge used t ≡ split used t) × (merge t used ≡ split t used)
unfolding merge
merge-used whole = (refl, refl)
merge-used used = (refl, refl)
merge-used (split l r) = (refl, refl)

module _ (d n o : ℕ) (pos_n : 0 < n) where
  Takes-halved : (t : Tree) → Takes d whole t n o → Takes (suc d) whole (split t whole) n o
  unfolding busy shl1
  Takes-halved t k = record {
    order = k.order;
    enough = k.enough;
    tight = k.tight;
    in_range = omega (arith, k.in_range);
    was_free = λ i h. refl;
    now_busy = λ i h. ground (arith, k.now_busy i, k.in_range);
  }

  Takes-left : (l l' r : Tree) → Takes d l l' n o → Takes (suc d) (split l r) (split l' r) n o
  unfolding busy shl1
  Takes-left l l' r k = record {
    order = k.order;
    enough = k.enough;
    tight = k.tight;
    in_range = omega (arith, k.in_range);
    was_free = λ i h. ground (arith, k.was_free i, k.in_range);
    now_busy = λ i h. ground (arith, k.now_busy i, k.in_range);
  }

  Takes-right :
      (l r r' : Tree) → Takes d r r' n o → Takes (suc d) (split l r) (split l r') n (shl1 d + o)
  unfolding busy shl1
  Takes-right l r r' k = record {
    order = k.order;
    enough = k.enough;
    tight = k.tight;
    in_range = omega (arith, k.in_range);
    was_free = λ i h. ground (arith, k.was_free (i - shl1 d));
    now_busy = λ i h. ground (arith, k.now_busy (i - shl1 d));
  }

merge-ne_left : (l r : Tree) → l ≢ whole → merge l r ≡ split l r
unfolding merge
merge-ne_left whole r h = absurd (h refl)
merge-ne_left used r h = refl
merge-ne_left (split a b) r h = refl

merge-ne_right : (l r : Tree) → r ≢ whole → merge l r ≡ split l r
unfolding merge
merge-ne_right whole whole h = absurd (h refl)
merge-ne_right whole used h = refl
merge-ne_right whole (split a b) h = refl
merge-ne_right used r h = refl
merge-ne_right (split a b) r h = refl

-- A successful `take`, all told.
pub record TakeLaws (d : ℕ) (t t' : Tree) (n o : ℕ) : Type 0 where
  pub takes : Takes d t t' n o
  pub split_off : t' ≢ whole
  pub tidy : IsTidy t → IsTidy t'
  pub gives_back : IsTidy t → give d t' o ≡ some t

offset-lt : {d n o : ℕ} {t t' : Tree} → Takes d t t' n o → o < shl1 d
offset-lt k = omega (arith, k.in_range, shl1_pos k.order)

laws_here : (d n : ℕ) → 0 < n → n ≤ shl1 d → shl1 d < 2 * n → TakeLaws d whole used n 0
unfolding busy give
laws_here d n pos_n enough tight = record {
  takes = record {
    order = d;
    enough = enough;
    tight = tight;
    in_range = omega arith;
    was_free = λ i h. refl;
    now_busy = λ i h. ground arith;
  };
  split_off = λ e. cc;
  tidy = λ h. tt;
  gives_back = λ h. refl;
}

give-back_left :
    (d o : ℕ) (l l' r : Tree)
    → o < shl1 d
    → give d l' o ≡ some l
    → give (suc d) (split l' r) o ≡ some (merge l r)
unfolding give
give-back_left d o l l' r h e = ground arith

give-back_right :
    (d o : ℕ) (l r r' : Tree)
    → give d r' o ≡ some r
    → give (suc d) (split l r') (shl1 d + o) ≡ some (merge l r)
unfolding give
give-back_right d o l r r' e =
    let back : shl1 d + o - shl1 d ≡ o = omega arith in
    let high : ltb (shl1 d + o) (shl1 d) ≡ false = ground arith in rw (give, high, back, e)

module _ (d n o : ℕ) (pos_n : 0 < n) where
  laws_halved : (t : Tree) → TakeLaws d whole t n o → TakeLaws (suc d) whole (split t whole) n o
  unfolding merge
  laws_halved t k = record {
    takes = Takes-halved d n o pos_n t k.takes;
    split_off = λ e. cc;
    tidy = λ h. (k.tidy tt, tt, merge-ne_left t whole k.split_off);
    gives_back = λ h. give-back_left d o whole t whole (offset-lt k.takes) (k.gives_back tt);
  }

  laws_left : (l l' r : Tree) → TakeLaws d l l' n o → TakeLaws (suc d) (split l r) (split l' r) n o
  laws_left l l' r k = record {
    takes = Takes-left d n o pos_n l l' r k.takes;
    split_off = λ e. cc;
    tidy = λ h. (k.tidy h.0, h.1, merge-ne_left l' r k.split_off);
    gives_back = λ h.
        give-back_left d o l l' r (offset-lt k.takes) (k.gives_back h.0) ∙ ap (λ t. some t) h.2;
  }

  laws_right :
      (l r r' : Tree)
      → TakeLaws d r r' n o
      → TakeLaws (suc d) (split l r) (split l r') n (shl1 d + o)
  laws_right l r r' k = record {
    takes = Takes-right d n o pos_n l r r' k.takes;
    split_off = λ e. cc;
    tidy = λ h. (h.0, k.tidy h.1, merge-ne_right l r' k.split_off);
    gives_back = λ h. give-back_right d o l r r' (k.gives_back h.1) ∙ ap (λ t. some t) h.2;
  }

-- The laws at what a call returned.
abbrev Lawful : ℕ → Tree → ℕ → Option (ℕ × Tree) → Type 0
Lawful d t n none = Unit
Lawful d t n (some (o, t')) = TakeLaws d t t' n o

Lawful-halved :
    (d n : ℕ)
    → 0 < n
    → (x : Option (ℕ × Tree)) → Lawful d whole n x
    → Lawful (suc d) whole n (elim x [ none ↦ none | some (o, t) ↦ some (o, split t whole) ])
Lawful-halved d n h none k = tt
Lawful-halved d n h (some (o, t)) k = laws_halved d n o h t k

Lawful-left :
    (d n : ℕ)
    → 0 < n
    → (l r : Tree) (x : Option (ℕ × Tree)) → Lawful d l n x
    → Lawful (suc d) (split l r) n (elim x [ none ↦ none | some (o, t) ↦ some (o, split t r) ])
Lawful-left d n h l r none k = tt
Lawful-left d n h l r (some (o, t)) k = laws_left d n o h l t r k

Lawful-right :
    (d n : ℕ)
    → 0 < n
    → (l r : Tree) (x : Option (ℕ × Tree)) → Lawful d r n x
    → Lawful
        (suc d)
        (split l r)
        n
        (elim x [ none ↦ none | some (o, t) ↦ some (shl1 d + o, split l t) ])
Lawful-right d n h l r none k = tt
Lawful-right d n h l r (some (o, t)) k = laws_right d n o h l r t k

take-Lawful : (d : ℕ) (t : Tree) (n : ℕ) → 0 < n → Lawful d t n (take d t n)
unfolding take
take-Lawful zero whole n h = elim (Bool-cases (leb n 1)) [
  | inl fits ↦
      rw fits (laws_here zero n h (unfold shl1 in leb→le n 1 fits) (unfold shl1 in omega arith))
  | inr large ↦ rw large tt
]
take-Lawful (suc d) whole n h =
    let below = take-Lawful d whole n h in
    elim (Bool-cases (leb n (shl1 d))) [
      | inl small ↦ rw small (Lawful-halved d n h (take d whole n) below)
      | inr large ↦ elim (Bool-cases (leb n (shl1 (suc d)))) [
        | inl fits ↦
            rw (large, fits) (laws_here (suc d) n h (leb→le n _ fits) (unfold shl1 in ground arith))
        | inr none_fits ↦ rw (large, none_fits) tt
      ]
    ]
take-Lawful zero used n h = tt
take-Lawful (suc d) used n h = tt
take-Lawful zero (split l r) n h = tt
take-Lawful (suc d) (split l r) n h =
    let in_l = take-Lawful d l n h in
    let in_r = take-Lawful d r n h in
    elim (Bool-cases (leb n (room d l))) [
      | inl fits ↦ rw fits (Lawful-left d n h l r (take d l n) in_l)
      | inr few ↦ rw few (Lawful-right d n h l r (take d r n) in_r)
    ]

pub take-laws :
    (d : ℕ) (t t' : Tree) (n o : ℕ) → 0 < n → take d t n ≡ some (o, t') → TakeLaws d t t' n o
take-laws d t t' n o h e = subst (Lawful d t n) e (take-Lawful d t n h)
