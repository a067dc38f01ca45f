-- ===== src/Mailbox/Range.antt =====
-- The nodes of the allocator stay within int32 (pkg/diskrpc/allocator.go).
use csi_sanlock_lvm.Base.{
  ℕ, zero, suc, ◌+◌, ◌-◌, ◌/◌, ◌%◌, ◌^◌, ◌<◌, ◌≡◌, inl, inr, subst, [], ◌∷◌, Bool, true, false,
  Option, none, some, Result, ok, err, get_elem?, set, length, if◌then◌else◌, arith, ltb,
  Option-cases, Bool-cases, ◌||◌, ◌&&◌,
}
use csi_sanlock_lvm.Base.Int.{ℤ, pos, negsuc, signed32, int32, int32_of, ltb_ℤ, leb_ℤ, eqb_ℤ}
use csi_sanlock_lvm.Allocator.Heap.{
  address_of, Nodes, left, right, max, neg, add, sub, div2, shr1, refresh, lacks_room, address,
  after_alloc, alloc, alloc_root, after_free, free, free_root,
}
use csi_sanlock_lvm.Mailbox.Stored.{IsInt32, AllInt32}

abbrev AllIn : {A : Type 0} → Option (A × Nodes) → Type 0
AllIn none = Unit
AllIn (some (r, nodes)) = AllInt32 nodes

abbrev AllIn-nodes : Option Nodes → Type 0
AllIn-nodes none = Unit
AllIn-nodes (some nodes) = AllInt32 nodes

pub IsInt32-signed32 : (n : ℕ) → n < 2 ^ 32 → IsInt32 (signed32 n)
IsInt32-signed32 n h = elim (Bool-cases (ltb n (2 ^ 31))) [
  | inl low ↦ rw low (ground arith)
  | inr high ↦ rw high (ground arith)
]

IsInt32-int32 : (n : ℤ) → IsInt32 (int32 n)
unfolding int32
IsInt32-int32 (pos n) = IsInt32-signed32 (n % 2 ^ 32) (omega arith)
IsInt32-int32 (negsuc n) = IsInt32-signed32 (2 ^ 32 - 1 - n % 2 ^ 32) (omega arith)

IsInt32-max : (a b : ℤ) → IsInt32 a → IsInt32 b → IsInt32 (max a b)
unfolding max
IsInt32-max a b ha hb = elim (Bool-cases (ltb_ℤ b a)) [
  | inl l ↦ rw (max, l) ha
  | inr l ↦ rw (max, l) hb
]

AllInt32-get :
    (nodes : Nodes) (i : ℕ) (n : ℤ) → AllInt32 nodes → get_elem? nodes i ≡ some n → IsInt32 n
AllInt32-get [] i n h e = absurd (cc)
AllInt32-get (m ∷ nodes) zero n (h, rest) e = subst IsInt32 (cc) h
AllInt32-get (m ∷ nodes) (suc i) n (h, rest) e = AllInt32-get nodes i n rest e

pub AllInt32-set :
    (nodes : Nodes) (i : ℕ) (n : ℤ) → AllInt32 nodes → IsInt32 n → AllInt32 (set nodes i n)
AllInt32-set [] i n h v = tt
AllInt32-set (m ∷ nodes) zero n (h, rest) v = (v, rest)
AllInt32-set (m ∷ nodes) (suc i) n (h, rest) v = (h, AllInt32-set nodes i n rest v)

AllInt32-refresh : (nodes : Nodes) (p : ℕ) → AllInt32 nodes → AllIn-nodes (refresh nodes p)
unfolding refresh
AllInt32-refresh nodes p h = elim (Option-cases (get_elem? nodes (left p))) [
  | inl e ↦ rw (refresh, e) tt
  | inr (l, el) ↦ elim (Option-cases (get_elem? nodes (right p))) [
    | inl e ↦ rw (refresh, el, e) tt
    | inr (r, er) ↦
        rw (refresh, el, er)
          (AllInt32-set nodes p _ h (
            IsInt32-max _ _
              (IsInt32-max _ _ (AllInt32-get nodes _ l h el) (AllInt32-get nodes _ r h er))
              (omega arith)))
  ]
]

AllIn-after_alloc : (p : ℕ) (x : Option (Result ℤ × Nodes)) → AllIn x → AllIn (after_alloc p x)
AllIn-after_alloc p none h = tt
AllIn-after_alloc p (some (r, nodes)) h = rest (refresh nodes p) (AllInt32-refresh nodes p h)
  where
    rest :
        (y : Option Nodes)
        → AllIn-nodes y
        → AllIn (elim y [ none ↦ none | some nodes' ↦ some (ok (address_of r), nodes') ])
    rest none k = tt
    rest (some nodes') k = k

AllIn-choice :
    {A : Type 0} (b : Bool) (x y : Option (A × Nodes))
    → AllIn x
    → AllIn y
    → AllIn (if b then x else y)
AllIn-choice true x y hx hy = hx
AllIn-choice false x y hx hy = hy

AllIn-elim :
    {A : Type 0} (b : Bool) (x y : Option (A × Nodes))
    → AllIn x
    → AllIn y
    → AllIn (elim b [ true ↦ x | false ↦ y ])
AllIn-elim true x y hx hy = hx
AllIn-elim false x y hx hy = hy

AllInt32-alloc :
    (f : ℕ) (nodes : Nodes) (p : ℕ) (size : ℤ) → AllInt32 nodes → AllIn (alloc f nodes p size)
unfolding alloc
AllInt32-alloc zero nodes p size h = tt
AllInt32-alloc (suc f) nodes p size h = elim (Option-cases (get_elem? nodes p)) [
  | inl e ↦ rw (alloc, e) tt
  | inr (n, e) ↦
      rw (alloc, e)
        (AllIn-choice (leb_ℤ size (pos 0) || ltb_ℤ n size) _ _ h (
          AllIn-choice
            (leb_ℤ size n && lacks_room nodes (left p) size && lacks_room nodes (right p) size) _ _
            (AllInt32-set nodes p _ h (IsInt32-int32 (neg n)))
            (below (AllInt32-alloc f nodes (left p) size h)
              (AllInt32-alloc f nodes (right p) size h) (get_elem? nodes (left p)))))
]
  where
    below :
        AllIn (alloc f nodes (left p) size)
        → AllIn (alloc f nodes (right p) size)
        → (l : Option ℤ)
        → AllIn (elim l [
          | none ↦ none
          | some l ↦ elim (leb_ℤ size l) [
            | true ↦ after_alloc p (alloc f nodes (left p) size)
            | false ↦ after_alloc p (alloc f nodes (right p) size)
          ]
        ])
    below on_left on_right none = tt
    below on_left on_right (some l) =
        AllIn-elim (leb_ℤ size l) _ _ (AllIn-after_alloc p _ on_left)
          (AllIn-after_alloc p _ on_right)

IsInt32-shr1 : (n : ℤ) → IsInt32 n → IsInt32 (shr1 n)
IsInt32-shr1 (pos n) h = omega arith
IsInt32-shr1 (negsuc n) h = omega arith

AllIn-after_free :
    (p : ℕ) (size : ℤ) (x : Option (Result (Unit {0}) × Nodes))
    → IsInt32 size
    → AllIn x
    → AllIn (after_free p size x)
AllIn-after_free p size none hs h = tt
AllIn-after_free p size (some (err e, nodes)) hs h = h
AllIn-after_free p size (some (ok u, nodes)) hs h =
    elim (Option-cases (get_elem? nodes (right p))) [
      | inl e ↦ rw (after_free, e) tt
      | inr (r, er) ↦ elim (Option-cases (get_elem? nodes (left p))) [
        | inl e ↦ rw (after_free, er, e) tt
        | inr (l, el) ↦
            rw (after_free, er, el)
              (AllInt32-set nodes p _ h (
                merged (eqb_ℤ (int32 (add l r)) size) _ (
                  IsInt32-max _ _
                    (IsInt32-max _ _ (AllInt32-get nodes _ l h el) (AllInt32-get nodes _ r h er))
                    (omega arith))))
      ]
    ]
  where
    merged : (b : Bool) (n : ℤ) → IsInt32 n → IsInt32 (if b then size else n)
    merged true n hn = hs
    merged false n hn = hn

AllInt32-free :
    (f : ℕ) (nodes : Nodes) (p : ℕ) (size addr : ℤ)
    → IsInt32 size
    → AllInt32 nodes
    → AllIn (free f nodes p size addr)
unfolding free
AllInt32-free zero nodes p size addr hs h = tt
AllInt32-free (suc f) nodes p size addr hs h = elim (Option-cases (get_elem? nodes p)) [
  | inl e ↦ rw (free, e) h
  | inr (n, e) ↦
      rw (free, e)
        (AllIn-choice (ltb_ℤ n (pos 0)) _ _
          (AllIn-choice (eqb_ℤ (address nodes p).0 addr) _ _
            (AllInt32-set nodes p _ h (IsInt32-int32 (neg n))) h)
          (AllIn-choice (ltb (length nodes) (right p)) _ _ h (
            AllIn-elim (ltb_ℤ (int32 (sub addr (address nodes p).0)) (div2 size)) _ _
              (AllIn-after_free p size _ hs
                (AllInt32-free f nodes (left p) (shr1 size) addr (IsInt32-shr1 size hs) h))
              (AllIn-after_free p size _ hs
                (AllInt32-free f nodes (right p) (shr1 size) addr (IsInt32-shr1 size hs) h)))))
]

-- What Alloc leaves is within int32 if what it was given is.
pub AllInt32-alloc_root :
    (nodes after : Nodes) (size : ℤ) (r : Result ℤ)
    → AllInt32 nodes
    → alloc_root nodes size ≡ some (r, after)
    → AllInt32 after
unfolding alloc_root
AllInt32-alloc_root nodes after size r h e =
    subst AllIn e (AllInt32-alloc (length nodes) nodes 0 size h)

-- And what Free leaves.
pub AllInt32-free_root :
    (nodes after : Nodes) (addr : ℤ) (r : Result (Unit {0}))
    → AllInt32 nodes
    → free_root nodes addr ≡ some (r, after)
    → AllInt32 after
unfolding free_root int32_of
AllInt32-free_root nodes after addr r h e = subst AllIn e (
    AllInt32-free (length nodes) nodes 0 _ addr
      (IsInt32-signed32 ((length nodes + 1) / 2 % 2 ^ 32) (omega arith)) h)
