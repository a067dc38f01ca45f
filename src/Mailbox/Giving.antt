-- ===== src/Mailbox/Giving.antt =====
-- Which blocks are allocated after one segment has been given back.
use csi_sanlock_lvm.Base.{
  ℕ, zero, suc, ◌-◌, ◌<◌, ◌≡◌, inl, inr, refl, true, false, Option, none, some, ltb, arith,
  Bool-cases, subst,
}
use csi_sanlock_lvm.Allocator.Heap.{shl1}
use csi_sanlock_lvm.Allocator.Positions.{shl1_pos}
use csi_sanlock_lvm.Allocator.Tree.{Tree, whole, used, split, merge, give}
use csi_sanlock_lvm.Allocator.Blocks.{busy}

busy-merge : (d : ℕ) (l r : Tree) (i : ℕ) → busy (suc d) (merge l r) i ≡ busy (suc d) (split l r) i
unfolding busy merge
busy-merge d whole whole i = ground arith
busy-merge d whole used i = refl
busy-merge d whole (split a b) i = refl
busy-merge d used r i = refl
busy-merge d (split a b) r i = refl

-- The segment that was given back was allocated, and no other has become so.
pub record Given (d : ℕ) (t t' : Tree) (o : ℕ) : Type 0 where
  pub was_busy : busy d t o ≡ true
  pub in_range : o < shl1 d
  pub fewer : (i : ℕ) → busy d t' i ≡ true → busy d t i ≡ true

abbrev GivenIn : ℕ → Tree → ℕ → Option Tree → Type 0
GivenIn d t o none = Unit
GivenIn d t o (some t') = Given d t t' o

module _ (d : ℕ) (l r : Tree) (o : ℕ) where
  GivenIn-left :
      (x : Option Tree)
      → ltb o (shl1 d) ≡ true
      → GivenIn d l o x
      → GivenIn (suc d) (split l r) o (elim x [ none ↦ none | some t ↦ some (merge t r) ])
  unfolding busy shl1
  GivenIn-left none low g = tt
  GivenIn-left (some t) low g = record {
    was_busy = ground (arith, g.was_busy);
    in_range = ground (arith, g.in_range);
    fewer = λ i h. ground (arith, g.fewer i, busy-merge d t r i);
  }

  GivenIn-right :
      (x : Option Tree)
      → ltb o (shl1 d) ≡ false
      → GivenIn d r (o - shl1 d) x
      → GivenIn (suc d) (split l r) o (elim x [ none ↦ none | some t ↦ some (merge l t) ])
  unfolding busy shl1
  GivenIn-right none high g = tt
  GivenIn-right (some t) high g = record {
    was_busy = ground (arith, g.was_busy);
    in_range = ground (arith, g.in_range);
    fewer = λ i h. ground (arith, g.fewer (i - shl1 d), busy-merge d l t i);
  }

give-GivenIn : (d : ℕ) (t : Tree) (o : ℕ) → GivenIn d t o (give d t o)
unfolding give
give-GivenIn d whole o = tt
give-GivenIn d used zero = record {
  was_busy = unfold busy in refl;
  in_range = shl1_pos d;
  fewer = λ i h. absurd (unfold busy in cc);
}
give-GivenIn d used (suc o) = tt
give-GivenIn zero (split l r) o = tt
give-GivenIn (suc d) (split l r) o = elim (Bool-cases (ltb o (shl1 d))) [
  | inl low ↦ rw (give, low) (GivenIn-left d l r o (give d l o) low (give-GivenIn d l o))
  | inr high ↦
      rw (give, high)
        (GivenIn-right d l r o (give d r (o - shl1 d)) high (give-GivenIn d r (o - shl1 d)))
]

pub give-Given : (d : ℕ) (t t' : Tree) (o : ℕ) → give d t o ≡ some t' → Given d t t' o
give-Given d t t' o e = subst (GivenIn d t o) e (give-GivenIn d t o)
