-- ===== src/Allocator/Positions.antt =====
-- Positions of the heap-ordered array: which lie below which, and the segment of each.
use native.Mathlib.Nat.{div-eq_of_eq-mul_right}
use csi_sanlock_lvm.Base.{
  ℕ, zero, suc, ◌+◌, ◌-◌, ◌*◌, ◌/◌, ◌^◌, ◌≤◌, ◌<◌, ◌≡◌, refl, ap, length, arith, dec_lt,
}
use csi_sanlock_lvm.Base.Int.{pos, int32_of-small}
use csi_sanlock_lvm.Allocator.Heap.{Nodes, shl1, left, right, log2, level, address, address_size}

pub shl1_pos : (k : ℕ) → 1 ≤ shl1 k
unfolding shl1
shl1_pos zero = omega arith
shl1_pos (suc k) = omega (arith, shl1_pos k)

log2_lem : (f n k : ℕ) → n ≤ f → shl1 k ≤ n → n < 2 * shl1 k → log2 f n ≡ k
unfolding log2 shl1
log2_lem zero n k h lo hi = absurd (omega (arith, shl1_pos k))
log2_lem (suc f) n zero h lo hi = ground arith
log2_lem (suc f) n (suc k) h lo hi = ground (arith, shl1_pos k, log2_lem f (n / 2) k)

-- The ancestor of a position, counted from 1, some levels up.
halves : ℕ → ℕ → ℕ
halves zero n = n
halves (suc k) n = halves k n / 2

-- `j` is `p` or below it.
pub record Below (p j : ℕ) : Type 0 where
  up : ℕ
  reaches : halves up (j + 1) ≡ p + 1

halves-le : (k n : ℕ) → halves k n ≤ n
unfolding halves
halves-le zero n = omega arith
halves-le (suc k) n = omega (arith, halves-le k n)

pub Below-self : (p : ℕ) → Below p p
unfolding halves
Below-self p = record { up = 0; reaches = refl }

pub Below-left : {p j : ℕ} → Below (left p) j → Below p j
unfolding halves
Below-left b = record { up = suc b.up; reaches = omega (arith, b.reaches) }

pub Below-right : {p j : ℕ} → Below (right p) j → Below p j
unfolding halves
Below-right b = record { up = suc b.up; reaches = omega (arith, b.reaches) }

-- No two positions on one path differ by less than a factor of two.
halves_twice : (k m n : ℕ) → k < m → halves m n * 2 ≤ halves k n
unfolding halves
halves_twice k zero n h = absurd (omega arith)
halves_twice k (suc m) n h = elim (dec_lt k m) [
  | yes below ↦ omega (arith, halves_twice k m n below)
  | no here ↦ let e : k ≡ m = omega arith in rw e (omega arith)
]

pub not-Below-left : (p : ℕ) → ¬ Below (left p) p
unfolding halves
not-Below-left p b = omega (arith, b.reaches, halves-le b.up (p + 1))

pub not-Below-right : (p : ℕ) → ¬ Below (right p) p
not-Below-right p b = omega (arith, b.reaches, halves-le b.up (p + 1))

-- The two subtrees of a position share no position.
pub left-right-disjoint : (p j : ℕ) → Below (left p) j → ¬ Below (right p) j
left-right-disjoint p j l r = elim (dec_lt l.up r.up) [
  | yes a ↦ omega (arith, l.reaches, r.reaches, halves_twice l.up r.up (j + 1) a)
  | no a ↦ elim (dec_lt r.up l.up) [
    | yes b ↦ omega (arith, l.reaches, r.reaches, halves_twice r.up l.up (j + 1) b)
    | no b ↦
        let e : l.up ≡ r.up = omega arith in
        omega (arith, ap (λ k. halves k (j + 1)) e, l.reaches, r.reaches)
  ]
]

-- Position `p` of an array of `len` nodes has `d` levels below it, and its segment starts at `base`.
pub record Place (len d p base : ℕ) : Type 0 where
  pub depth : ℕ
  pub index : ℕ
  pub at : p + 1 ≡ shl1 depth + index
  pub index_lt : index < shl1 depth
  pub total : len + 1 ≡ 2 * (shl1 depth * shl1 d)
  pub start : base ≡ index * shl1 d
  pub bounded : len < 2 ^ 31

pub Place-left : {len d p base : ℕ} → Place len (suc d) p base → Place len d (left p) base
unfolding shl1
Place-left {len} {d} {p} {base} w = record {
  depth = suc w.depth;
  index = 2 * w.index;
  at = omega (arith, w.at);
  index_lt = omega (arith, w.index_lt);
  total = omega (arith, w.total);
  start = omega (arith, w.start);
  bounded = w.bounded;
}

pub Place-right :
    {len d p base : ℕ} → Place len (suc d) p base → Place len d (right p) (base + shl1 d)
unfolding shl1
Place-right {len} {d} {p} {base} w = record {
  depth = suc w.depth;
  index = 2 * w.index + 1;
  at = omega (arith, w.at);
  index_lt = omega (arith, w.index_lt);
  total = omega (arith, w.total);
  start = omega (arith, w.start);
  bounded = w.bounded;
}

scaled : (i n s : ℕ) → i < n → i * s + s ≤ n * s
scaled i n s h = grind arith

le-mul : (n s : ℕ) → 1 ≤ s → n ≤ n * s
le-mul n s h = grind arith

-- A position with no level below it has no children in the array; any other has both.
pub Place-leaf : {len p base : ℕ} → Place len 0 p base → len ≤ left p
unfolding shl1
Place-leaf w = omega (arith, w.at, w.total)

module _ {len d p base : ℕ} (w : Place len d p base) where
  level_lem : level p ≡ w.depth
  unfolding level
  level_lem =
      log2_lem (p + 1) (p + 1) w.depth (omega arith) (omega (arith, w.at))
        (omega (arith, w.at, w.index_lt))

  segment-le : base + shl1 d ≤ shl1 w.depth * shl1 d
  segment-le = rw w.start (scaled w.index (shl1 w.depth) (shl1 d) w.index_lt)

  pub Place-lt : p < len
  Place-lt = omega (arith, w.at, w.index_lt, w.total, le-mul (shl1 w.depth) (shl1 d) (shl1_pos d))

  pub segment-lt : base + shl1 d < 2 ^ 31
  segment-lt = omega (arith, segment-le, w.total, w.bounded)

halved : (n a b : ℕ) → n ≡ 2 * (a * b) → 1 ≤ a → n / 2 / a ≡ b
halved n a b e h = div-eq_of_eq-mul_right h (omega (arith, e))

module _ (nodes : Nodes) {d p base : ℕ} (w : Place (length nodes) d p base) where
  address_size_lem : address_size nodes p ≡ shl1 d
  unfolding address_size
  address_size_lem =
      rw (level_lem w)
        (halved (length nodes + 1) (shl1 w.depth) (shl1 d) w.total (shl1_pos w.depth))

  offset_lem : p - (shl1 w.depth - 1) ≡ w.index
  offset_lem = omega (arith, w.at, shl1_pos w.depth)

  -- `address` finds the segment.
  pub address_lem : (address nodes p).0 ≡ pos base
  unfolding address
  address_lem =
      rw (address, address_size_lem, level_lem w, offset_lem, ← w.start)
        (int32_of-small base (omega (arith, segment-lt w)))
