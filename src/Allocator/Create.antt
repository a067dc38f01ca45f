-- ===== src/Allocator/Create.antt =====
-- The constructor of the allocator.
use csi_sanlock_lvm.Base.{
  ℕ, zero, suc, ◌+◌, ◌-◌, ◌*◌, ◌/◌, ◌^◌, ◌≤◌, ◌<◌, ◌≡◌, refl, sym, ap, ◌∙◌, subst, set, replicate,
  get_elem?-set_self, length-replicate, length-set, arith, length, leb, ◌==◌, false, ok,
}
use csi_sanlock_lvm.Base.Int.{ℤ, pos}
use csi_sanlock_lvm.Allocator.Heap.{
  Nodes, shl1, left, right, initialize, ones_count, bit_length, new_allocator_by_size,
}
use csi_sanlock_lvm.Allocator.Positions.{
  Place, Place-left, Place-right, Place-leaf, Place-lt, shl1_pos,
}
use csi_sanlock_lvm.Allocator.Tree.{whole, Represents}
use csi_sanlock_lvm.Allocator.Frame.{Changes, set-Changes, Represents-beside_right}
use csi_sanlock_lvm.Allocator.Positions.{Below-left, Below-right, not-Below-left, not-Below-right}
use csi_sanlock_lvm.Allocator.Root.{lt-shl1, IsAllocator}

initialize-outside :
    (f : ℕ) (nodes : Nodes) (p : ℕ) (v : ℤ) → length nodes ≤ p → initialize f nodes p v ≡ nodes
unfolding initialize
initialize-outside zero nodes p v h = refl
initialize-outside (suc f) nodes p v h = ground arith

initialize-step :
    (f : ℕ) (nodes : Nodes) (p s : ℕ)
    → p < length nodes
    → initialize (suc f) nodes p (pos (2 * s))
      ≡ initialize f (initialize f (set nodes p (pos (2 * s))) (left p) (pos s)) (right p) (pos s)
unfolding initialize
initialize-step f nodes p s h =
    let in_range : leb (length nodes) p ≡ false = ground arith in
    let half : 2 * s / 2 ≡ s = omega arith in rw (initialize, in_range, half)

initialize_halves :
    (f d : ℕ) (nodes : Nodes) (p : ℕ)
    → p < length nodes
    → initialize (suc f) nodes p (pos (shl1 (suc d)))
      ≡ initialize f
          (initialize f (set nodes p (pos (2 * shl1 d))) (left p) (pos (shl1 d)))
          (right p)
          (pos (shl1 d))
unfolding shl1
initialize_halves f d nodes p h = initialize-step f nodes p (shl1 d) h

record Fresh (d : ℕ) (before after : Nodes) (p : ℕ) : Type 0 where
  represents : Represents d whole after p
  changes : Changes before after p

initialize-leaf :
    (f : ℕ) (nodes : Nodes) (p : ℕ)
    → p < length nodes
    → length nodes ≤ left p
    → initialize (suc f) nodes p (pos (shl1 0)) ≡ set nodes p (pos 1)
unfolding initialize shl1
initialize-leaf f nodes p h few =
    let in_range : leb (length nodes) p ≡ false = ground arith in
    let n1 = set nodes p (pos 1) in
    rw
      (
        initialize,
        in_range,
        initialize-outside f n1 (left p) (pos (1 / 2)) (omega (arith, length-set nodes p (pos 1))),
      )
      (initialize-outside f n1 (right p) _ (omega (arith, length-set nodes p (pos 1))))

moved : {a b : ℕ} (d p base : ℕ) → b ≡ a → Place a d p base → Place b d p base
moved d p base e = subst (λ len. Place len d p base) (sym e)

Fresh-both :
    (d : ℕ) (nodes a b : Nodes) (p : ℕ)
    → p < length nodes
    → Fresh d (set nodes p (pos (2 * shl1 d))) a (left p)
    → Fresh d a b (right p)
    → Fresh (suc d) nodes b p
unfolding shl1
Fresh-both d nodes a b p lt l r = record {
  represents = (
    r.changes.outside p (not-Below-right p)
        ∙ l.changes.outside p (not-Below-left p)
        ∙ get_elem?-set_self nodes p _ lt,
    Represents-beside_right a b p d whole r.changes l.represents,
    r.represents,
  );
  changes = record {
    same_length = r.changes.same_length ∙ l.changes.same_length ∙ length-set nodes p _;
    outside = λ j out.
        r.changes.outside j (λ w. out (Below-right w))
        ∙ l.changes.outside j (λ w. out (Below-left w))
        ∙ (set-Changes nodes p _).outside j out;
  };
}

-- From any node that has its place in the array, `initialize` writes a free segment.
initialize-Fresh :
    (f d : ℕ) (nodes : Nodes) (p base : ℕ)
    → d < f
    → Place (length nodes) d p base
    → Fresh d nodes (initialize f nodes p (pos (shl1 d))) p
initialize-Fresh zero d nodes p base hf w = absurd (omega arith)
initialize-Fresh (suc f) zero nodes p base hf w =
    rw (initialize-leaf f nodes p (Place-lt w) (Place-leaf w)) (record {
      represents = get_elem?-set_self nodes p _ (Place-lt w);
      changes = set-Changes nodes p _;
    })
initialize-Fresh (suc f) (suc d) nodes p base hf w =
    let n1 = set nodes p (pos (2 * shl1 d)) in
    let a = initialize f n1 (left p) (pos (shl1 d)) in
    let len1 : length n1 ≡ length nodes = length-set nodes p _ in
    let l =
      initialize-Fresh f d n1 (left p) base (omega arith)
        (moved d (left p) base len1 (Place-left w)) in
    let r =
      initialize-Fresh f d a (right p) (base + shl1 d) (omega arith)
        (moved d (right p) (base + shl1 d) (l.changes.same_length ∙ len1) (Place-right w)) in
    subst (λ b. Fresh (suc d) nodes b p) (sym (initialize_halves f d nodes p (Place-lt w)))
      (Fresh-both d nodes a _ p (Place-lt w) l r)

ones_count-zero : (f : ℕ) → ones_count f 0 ≡ 0
unfolding ones_count
ones_count-zero zero = refl
ones_count-zero (suc f) = omega (arith, ones_count-zero f)

bit_length-zero : (f : ℕ) → bit_length f 0 ≡ 0
unfolding bit_length
bit_length-zero zero = refl
bit_length-zero (suc f) = refl

pub ones_count-shl1 : (f d : ℕ) → d < f → ones_count f (shl1 d) ≡ 1
unfolding ones_count shl1
ones_count-shl1 zero d h = absurd (omega arith)
ones_count-shl1 (suc f) zero h = omega (arith, ones_count-zero f)
ones_count-shl1 (suc f) (suc d) h =
    let half : 2 * shl1 d / 2 ≡ shl1 d = omega arith in rw half (omega (arith, ones_count-shl1 f d))

bit_length-shl1 : (f d : ℕ) → d < f → bit_length f (shl1 d) ≡ suc d
unfolding bit_length shl1
bit_length-shl1 zero d h = absurd (omega arith)
bit_length-shl1 (suc f) zero h = ap suc (bit_length-zero f)
bit_length-shl1 (suc f) (suc d) h =
    let half : 2 * shl1 d / 2 ≡ shl1 d = omega arith in
    let some_bit : (2 * shl1 d == 0) ≡ false = ground (arith, shl1_pos d) in
    rw (bit_length, some_bit, half) (ap suc (bit_length-shl1 f d (omega arith)))

pub shl1_mono : (a b : ℕ) → a ≤ b → shl1 a ≤ shl1 b
unfolding shl1
shl1_mono zero b h = shl1_pos b
shl1_mono (suc a) zero h = absurd (omega arith)
shl1_mono (suc a) (suc b) h = omega (arith, shl1_mono a b)

pub shl1-30 : shl1 30 ≡ 2 ^ 30
unfolding shl1
shl1-30 = refl

-- For every power of two that an int32 holds, NewAllocatorBySize returns a well-formed allocator
-- whose whole segment of that many blocks is free.
pub new_allocator_by_size-IsAllocator :
    (d : ℕ)
    → d ≤ 30
    → (nodes : Nodes) × (new_allocator_by_size (pos (shl1 d)) ≡ ok nodes)
      × IsAllocator d whole nodes
unfolding new_allocator_by_size
new_allocator_by_size-IsAllocator d h =
    let cnt : ℕ = 2 * shl1 d - 1 in
    let blank = replicate cnt (pos 0) in
    let place : Place (length blank) d 0 0 = record {
      depth = 0;
      index = 0;
      at = unfold shl1 in omega arith;
      index_lt = unfold shl1 in omega arith;
      total = unfold shl1 in omega (arith, length-replicate cnt (pos 0), shl1_pos d);
      start = omega arith;
      bounded = omega (arith, length-replicate cnt (pos 0), shl1_pos d, shl1_mono d 30 h, shl1-30);
    } in
    let fresh = initialize-Fresh (suc cnt) d blank 0 0 (omega (arith, lt-shl1 d)) place in
    (
      initialize (suc cnt) blank 0 (pos (shl1 d)),
      rw (ones_count-shl1 32 d (omega arith), bit_length-shl1 32 d (omega arith)) refl,
      record {
        place = moved d 0 0 fresh.changes.same_length place;
        represents = fresh.represents;
        tidy = tt;
      },
    )
