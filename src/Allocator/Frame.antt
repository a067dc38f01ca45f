-- ===== src/Allocator/Frame.antt =====
-- What an update of one subtree leaves as it was.
use csi_sanlock_lvm.Base.{
  ℕ, zero, suc, ◌≤◌, ◌<◌, ◌≡◌, sym, ◌∙◌, subst, some, get_elem?, set, get_elem?-set_self,
  get_elem?-set_ne, length-set, arith, length,
}
use csi_sanlock_lvm.Base.Int.{ℤ, pos}
use csi_sanlock_lvm.Allocator.Heap.{Nodes, shl1, left, right, max, refresh}
use csi_sanlock_lvm.Allocator.Positions.{
  Below, Below-self, Below-left, Below-right, not-Below-left, not-Below-right, left-right-disjoint,
}
use csi_sanlock_lvm.Allocator.Tree.{Tree, whole, used, split, larger, room, value, Represents}

-- `after` differs from `before` at most at `p` and below it.
pub record Changes (before after : Nodes) (p : ℕ) : Type 0 where
  pub same_length : length after ≡ length before
  pub outside : (j : ℕ) → ¬ Below p j → get_elem? after j ≡ get_elem? before j

pub Represents-value :
    (d : ℕ) (t : Tree) (nodes : Nodes) (p : ℕ)
    → Represents d t nodes p
    → get_elem? nodes p ≡ some (value d t)
unfolding shl1 room
Represents-value zero whole nodes p h = h
Represents-value zero used nodes p h = h
Represents-value zero (split l r) nodes p h = absurd h
Represents-value (suc d) whole nodes p h = h.0
Represents-value (suc d) used nodes p h = h.0
Represents-value (suc d) (split l r) nodes p h = h.0

pub Represents-same :
    (d : ℕ) (t : Tree) (a b : Nodes) (p : ℕ)
    → ((j : ℕ) → Below p j → get_elem? b j ≡ get_elem? a j)
    → Represents d t a p
    → Represents d t b p
Represents-same zero whole a b p same h = same p (Below-self p) ∙ h
Represents-same zero used a b p same h = same p (Below-self p) ∙ h
Represents-same zero (split l r) a b p same h = h
Represents-same (suc d) whole a b p same (h, hl, hr) = (
  same p (Below-self p) ∙ h,
  Represents-same d whole a b (left p) (λ j w. same j (Below-left w)) hl,
  Represents-same d whole a b (right p) (λ j w. same j (Below-right w)) hr,
)
Represents-same (suc d) used a b p same (h, hl, hr) = (
  same p (Below-self p) ∙ h,
  Represents-same d whole a b (left p) (λ j w. same j (Below-left w)) hl,
  Represents-same d whole a b (right p) (λ j w. same j (Below-right w)) hr,
)
Represents-same (suc d) (split l r) a b p same (h, hl, hr) = (
  same p (Below-self p) ∙ h,
  Represents-same d l a b (left p) (λ j w. same j (Below-left w)) hl,
  Represents-same d r a b (right p) (λ j w. same j (Below-right w)) hr,
)

module _ (a : Nodes) (p : ℕ) (v : ℤ) where
  pub set-Changes : Changes a (set a p v) p
  set-Changes = record {
    same_length = length-set a p v;
    outside = λ j out. get_elem?-set_ne a p j v (λ e. out (subst (Below p) e (Below-self p)));
  }

  -- An update of a node does not reach the subtrees of its children.
  pub Represents-set_left :
      (d : ℕ) (t : Tree) → Represents d t a (left p) → Represents d t (set a p v) (left p)
  Represents-set_left d t =
      Represents-same d t a (set a p v) (left p)
        λ j w. get_elem?-set_ne a p j v (λ e. not-Below-left p (subst (Below (left p)) (sym e) w))

  pub Represents-set_right :
      (d : ℕ) (t : Tree) → Represents d t a (right p) → Represents d t (set a p v) (right p)
  Represents-set_right d t =
      Represents-same d t a (set a p v) (right p)
        λ j w. get_elem?-set_ne a p j v (λ e. not-Below-right p (subst (Below (right p)) (sym e) w))

module _ (a b : Nodes) (p : ℕ) where
  pub Represents-beside_left :
      (d : ℕ) (t : Tree)
      → Changes a b (left p)
      → Represents d t a (right p)
      → Represents d t b (right p)
  Represents-beside_left d t c =
      Represents-same d t a b (right p) λ j w. c.outside j (λ l. left-right-disjoint p j l w)

  pub Represents-beside_right :
      (d : ℕ) (t : Tree)
      → Changes a b (right p)
      → Represents d t a (left p)
      → Represents d t b (left p)
  Represents-beside_right d t c =
      Represents-same d t a b (left p) λ j w. c.outside j (λ r. left-right-disjoint p j w r)

  pub Changes-left : (v : ℤ) → Changes a b (left p) → Changes a (set b p v) p
  Changes-left v c = record {
    same_length = length-set b p v ∙ c.same_length;
    outside = λ j out. (set-Changes b p v).outside j out ∙ c.outside j (λ l. out (Below-left l));
  }

  pub Changes-right : (v : ℤ) → Changes a b (right p) → Changes a (set b p v) p
  Changes-right v c = record {
    same_length = length-set b p v ∙ c.same_length;
    outside = λ j out. (set-Changes b p v).outside j out ∙ c.outside j (λ r. out (Below-right r));
  }

pub room-le : (d : ℕ) (t : Tree) → room d t ≤ shl1 d
unfolding room shl1
room-le zero whole = omega arith
room-le (suc d) whole = omega arith
room-le zero used = omega arith
room-le (suc d) used = omega arith
room-le zero (split l r) = omega arith
room-le (suc d) (split l r) = ground (arith, room-le d l, room-le d r)

-- The larger child, as the code computes it.
pub max-value :
    (d : ℕ) (l r : Tree)
    → max (max (value d l) (value d r)) (pos 0) ≡ pos (larger (room d l) (room d r))
unfolding max room
max-value d whole whole = ground arith
max-value d whole used = ground arith
max-value d whole (split a b) = ground arith
max-value d used whole = ground arith
max-value d used used = ground arith
max-value d used (split a b) = ground arith
max-value d (split a b) whole = ground arith
max-value d (split a b) used = ground arith
max-value d (split a b) (split x y) = ground arith

-- The node of a split segment after a change below it.
pub refresh-split :
    (d : ℕ) (l r : Tree) (a : Nodes) (p : ℕ)
    → Represents d l a (left p)
    → Represents d r a (right p)
    → refresh a p ≡ some (set a p (pos (larger (room d l) (room d r))))
unfolding refresh
refresh-split d l r a p hl hr = rw (
  refresh,
  Represents-value d l a (left p) hl,
  Represents-value d r a (right p) hr,
  max-value d l r,
)

pub Represents-split :
    (d : ℕ) (l r : Tree) (a : Nodes) (p : ℕ)
    → p < length a
    → Represents d l a (left p)
    → Represents d r a (right p)
    → Represents (suc d) (split l r) (set a p (pos (larger (room d l) (room d r)))) p
Represents-split d l r a p h hl hr = (
  get_elem?-set_self a p _ h,
  Represents-set_left a p _ d l hl,
  Represents-set_right a p _ d r hr,
)
