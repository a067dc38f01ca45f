-- ===== src/Allocator/Freeing.antt =====
-- `free` on the array is `give` on the tree.
use csi_sanlock_lvm.Base.{
  ℕ, zero, suc, ◌+◌, ◌-◌, ◌*◌, ◌/◌, ◌≤◌, ◌<◌, ◌^◌, ◌≡◌, ◌≢◌, ◌⊎◌, refl, ap, ◌∙◌, subst, Option,
  none, some, get_elem?, set, get_elem?-set_self, arith, length, ltb, ◌==◌, if◌then◌else◌, true,
  false, Bool-cases, inl, inr, Result, ok, err, unknown,
}
use csi_sanlock_lvm.Base.Int.{ℤ, pos, negsuc, ltb_ℤ, eqb_ℤ, int32, int32_negsuc, int32_pos}
use csi_sanlock_lvm.Allocator.Heap.{
  Nodes, shl1, left, right, neg, add, sub, div2, shr1, address, free, after_free,
}
use csi_sanlock_lvm.Allocator.Positions.{
  Place, Place-left, Place-right, Place-leaf, Place-lt, segment-lt, address_lem, shl1_pos,
}
use csi_sanlock_lvm.Allocator.Tree.{
  Tree, whole, used, split, larger, room, value, Represents, merge, give,
}
use csi_sanlock_lvm.Allocator.Frame.{
  Changes, Represents-value, set-Changes, Represents-set_left, Represents-set_right,
  Represents-beside_left, Represents-beside_right, Changes-left, Changes-right, room-le, max-value,
  Represents-split,
}

module _ (f : ℕ) (nodes : Nodes) (p base : ℕ) (v size addr : ℤ) (at : get_elem? nodes p ≡ some v)
    (here : (address nodes p).0 ≡ pos base) where
  free_used :
      (o : ℕ)
      → addr ≡ pos (base + o)
      → ltb_ℤ v (pos 0) ≡ true
      → free (suc f) nodes p size addr
        ≡ (if o == 0 then some (ok tt, set nodes p (int32 (neg v))) else some (err unknown, nodes))
  unfolding free
  free_used o e h = ground arith

  free_leaf :
      ltb_ℤ v (pos 0) ≡ false
      → length nodes < right p
      → free (suc f) nodes p size addr ≡ some (err unknown, nodes)
  unfolding free
  free_leaf h few = ground arith

  free_down :
      ltb_ℤ v (pos 0) ≡ false
      → right p ≤ length nodes
      → free (suc f) nodes p size addr ≡ elim (ltb_ℤ (int32 (sub addr (pos base))) (div2 size)) [
        | true ↦ after_free p size (free f nodes (left p) (shr1 size) addr)
        | false ↦ after_free p size (free f nodes (right p) (shr1 size) addr)
      ]
  unfolding free
  free_down h many = ground arith

-- The side that the code goes down to, for an address behind the base of a segment of 2 * s blocks.
half_of :
    (base o s : ℕ)
    → base + o < 2 ^ 31
    → ltb_ℤ (int32 (sub (pos (base + o)) (pos base))) (div2 (pos (2 * s))) ≡ ltb o s
half_of base o s h =
    let e : sub (pos (base + o)) (pos base) ≡ pos o = ground arith in
    let d : 2 * s / 2 ≡ s = omega arith in rw (e, int32_pos o (omega arith), d) (ground arith)

room-split-lt : (d : ℕ) (l r : Tree) → room d (split l r) < shl1 d
unfolding room shl1
room-split-lt zero l r = omega arith
room-split-lt (suc d) l r = ground (arith, room-le d l, room-le d r, shl1_pos d)

value-nonneg : (d : ℕ) (t : Tree) → t ≢ used → ltb_ℤ (value d t) (pos 0) ≡ false
unfolding room
value-nonneg d whole h = ground arith
value-nonneg d used h = absurd (h refl)
value-nonneg d (split l r) h = ground arith

-- The sum of the two children is the size of their segment exactly if both are free as a whole.
merge-cases :
    (d : ℕ) (l r : Tree)
    → 2 * shl1 d < 2 ^ 31
    → ((l ≡ whole) × (r ≡ whole))
      ⊎ ((merge l r ≡ split l r)
          × (eqb_ℤ (int32 (add (value d l) (value d r))) (pos (2 * shl1 d)) ≡ false))
unfolding merge
merge-cases d whole whole h = inl (refl, refl)
merge-cases d whole used h = inr (refl, ground (arith, shl1_pos d, int32_pos 0))
merge-cases d whole (split a b) h =
    inr (refl, ground (arith, room-split-lt d a b, int32_pos (shl1 d + room d (split a b))))
merge-cases d used whole h = inr (refl, ground (arith, shl1_pos d, int32_pos 0))
merge-cases d used used h = inr (refl, ground (arith, shl1_pos d, int32_negsuc (2 * shl1 d - 1)))
merge-cases d used (split a b) h =
    inr (refl, ground (arith, room-split-lt d a b, int32_negsuc (shl1 d - room d (split a b) - 1)))
merge-cases d (split a b) whole h =
    inr (refl, ground (arith, room-split-lt d a b, int32_pos (shl1 d + room d (split a b))))
merge-cases d (split a b) used h =
    inr (refl, ground (arith, room-split-lt d a b, int32_negsuc (shl1 d - room d (split a b) - 1)))
merge-cases d (split a b) (split x y) h = inr (
  refl,
  ground (
    arith,
    room-split-lt d a b,
    room-split-lt d x y,
    int32_pos (room d (split a b) + room d (split x y)),
  ),
)

-- The way back from a child: the two trees become one.
record Merged (d : ℕ) (l r : Tree) (a : Nodes) (p : ℕ) : Type 0 where
  node : ℤ
  returns : after_free p (pos (2 * shl1 d)) (some (ok tt, a)) ≡ some (ok tt, set a p node)
  represents : Represents (suc d) (merge l r) (set a p node) p

module _ (d : ℕ) (l r : Tree) (a : Nodes) (p : ℕ) (lt : p < length a) (small : 2 * shl1 d < 2 ^ 31)
    (hl : Represents d l a (left p)) (hr : Represents d r a (right p)) where
  merge-split :
      merge l r ≡ split l r
      → eqb_ℤ (int32 (add (value d l) (value d r))) (pos (2 * shl1 d)) ≡ false
      → Merged d l r a p
  merge-split e no_sum = record {
    node = pos (larger (room d l) (room d r));
    returns = rw (
      after_free,
      Represents-value d r a (right p) hr,
      Represents-value d l a (left p) hl,
      no_sum,
      max-value d l r,
    );
    represents = rw e (Represents-split d l r a p lt hl hr);
  }

  merge_whole : l ≡ whole → r ≡ whole → Merged d l r a p
  unfolding shl1 merge
  merge_whole el er = record {
    node = pos (2 * shl1 d);
    returns =
        rw
          (
            after_free,
            Represents-value d r a (right p) hr,
            Represents-value d l a (left p) hl,
            el,
            er,
          )
          (ground (arith, int32_pos (2 * shl1 d) small, int32_pos (shl1 d + shl1 d)));
    represents =
        rw (el, er)
          (
            get_elem?-set_self a p _ lt,
            Represents-set_left a p _ d whole (subst (λ t. Represents d t a (left p)) el hl),
            Represents-set_right a p _ d whole (subst (λ t. Represents d t a (right p)) er hr),
          );
  }

  merged : Merged d l r a p
  merged = elim (merge-cases d l r small) [
    | inl (el, er) ↦ merge_whole el er
    | inr (e, no_sum) ↦ merge-split e no_sum
  ]

-- What the call does, by what `give` returns: an error changes nothing.
abbrev pub Freed : ℕ → ℕ → Nodes → ℕ → ℕ → ℕ → Option Tree → Type 0
Freed f d nodes p base o none =
    free f nodes p (pos (shl1 d)) (pos (base + o)) ≡ some (err unknown, nodes)
Freed f d nodes p base o (some t) =
    (result : Nodes) × (free f nodes p (pos (shl1 d)) (pos (base + o)) ≡ some (ok tt, result))
    × Represents d t result p
    × Changes nodes result p

Represents-freed :
    (d : ℕ) (nodes : Nodes) (p : ℕ)
    → p < length nodes
    → Represents d used nodes p
    → Represents d whole (set nodes p (pos (shl1 d))) p
unfolding shl1
Represents-freed zero nodes p lt h = get_elem?-set_self nodes p _ lt
Represents-freed (suc d) nodes p lt (h, hl, hr) = (
  get_elem?-set_self nodes p _ lt,
  Represents-set_left nodes p _ d whole hl,
  Represents-set_right nodes p _ d whole hr,
)

restored : (s : ℕ) → 1 ≤ s → s < 2 ^ 31 → int32 (neg (negsuc (s - 1))) ≡ pos s
restored s low high = ground (arith, int32_pos s high)

free-used :
    (f d : ℕ) (nodes : Nodes) (p base o : ℕ)
    → Place (length nodes) d p base
    → Represents d used nodes p
    → Freed (suc f) d nodes p base o (give d used o)
unfolding give
free-used f d nodes p base zero w h = (
  set nodes p (pos (shl1 d)),
  free_used f nodes p base _ (pos (shl1 d)) _ (Represents-value d used nodes p h)
        (address_lem nodes w) 0 refl (ground arith)
      ∙ rw (restored (shl1 d) (shl1_pos d) (omega (arith, segment-lt w))),
  Represents-freed d nodes p (Place-lt w) h,
  set-Changes nodes p _,
)
free-used f d nodes p base (suc o) w h =
    free_used f nodes p base _ (pos (shl1 d)) _ (Represents-value d used nodes p h)
      (address_lem nodes w) (suc o) refl (ground arith)
    ∙ ground arith

module _ (f d : ℕ) (nodes : Nodes) (p base o : ℕ) (v : ℤ) (w : Place (length nodes) (suc d) p base)
    (fits : base + o < 2 ^ 31) where
  abbrev up : Option (Result (Unit {0}) × Nodes) → Option (Result (Unit {0}) × Nodes)
  up = after_free p (pos (2 * shl1 d))

  free_split :
      get_elem? nodes p ≡ some v
      → ltb_ℤ v (pos 0) ≡ false
      → free (suc f) nodes p (pos (shl1 (suc d))) (pos (base + o)) ≡ elim (ltb o (shl1 d)) [
        | true ↦ up (free f nodes (left p) (pos (shl1 d)) (pos (base + o)))
        | false ↦ up (free f nodes (right p) (pos (shl1 d)) (pos (base + o)))
      ]
  unfolding shl1
  free_split at free_node =
      free_down f nodes p base v _ _ at (address_lem nodes w) free_node
        (omega (arith, Place-lt (Place-right w)))
      ∙ rw (half_of base o (shl1 d) fits) (
          ap
            (λ h. elim (ltb o (shl1 d)) [
              | true ↦ up (free f nodes (left p) (pos h) (pos (base + o)))
              | false ↦ up (free f nodes (right p) (pos h) (pos (base + o)))
            ])
            (halved (shl1 d)))
    where
      halved : (s : ℕ) → 2 * s / 2 ≡ s
      halved s = omega arith

  free_left :
      get_elem? nodes p ≡ some v
      → ltb_ℤ v (pos 0) ≡ false
      → ltb o (shl1 d) ≡ true
      → free (suc f) nodes p (pos (shl1 (suc d))) (pos (base + o))
        ≡ up (free f nodes (left p) (pos (shl1 d)) (pos (base + o)))
  free_left at free_node h = free_split at free_node ∙ rw h

  free_right :
      get_elem? nodes p ≡ some v
      → ltb_ℤ v (pos 0) ≡ false
      → ltb o (shl1 d) ≡ false
      → free (suc f) nodes p (pos (shl1 (suc d))) (pos (base + o))
        ≡ up (free f nodes (right p) (pos (shl1 d)) (pos (base + shl1 d + (o - shl1 d))))
  free_right at free_node h =
      free_split at free_node
      ∙ rw h (ap (λ a. up (free f nodes (right p) (pos (shl1 d)) (pos a))) (ground arith))

  small_lem : 2 * shl1 d < 2 ^ 31
  unfolding shl1
  small_lem = omega (arith, segment-lt w)

  give_left :
      (r : Tree) (x : Option Tree)
      → free (suc f) nodes p (pos (shl1 (suc d))) (pos (base + o))
        ≡ up (free f nodes (left p) (pos (shl1 d)) (pos (base + o)))
      → Represents d r nodes (right p)
      → Freed f d nodes (left p) base o x
      → Freed (suc f) (suc d) nodes p base o (elim x [ none ↦ none | some t ↦ some (merge t r) ])
  give_left r none step hr child = step ∙ ap up child
  give_left r (some t) step hr (a, ret, rep, ch) =
      let m =
        merged d t r a p (omega (arith, Place-lt w, ch.same_length)) small_lem rep
          (Represents-beside_left nodes a p d r ch hr) in
      (set a p m.node, step ∙ ap up ret ∙ m.returns, m.represents, Changes-left nodes a p _ ch)

  give_right :
      (l : Tree) (x : Option Tree)
      → free (suc f) nodes p (pos (shl1 (suc d))) (pos (base + o))
        ≡ up (free f nodes (right p) (pos (shl1 d)) (pos (base + shl1 d + (o - shl1 d))))
      → Represents d l nodes (left p)
      → Freed f d nodes (right p) (base + shl1 d) (o - shl1 d) x
      → Freed (suc f) (suc d) nodes p base o (elim x [ none ↦ none | some t ↦ some (merge l t) ])
  give_right l none step hl child = step ∙ ap up child
  give_right l (some t) step hl (a, ret, rep, ch) =
      let m =
        merged d l t a p (omega (arith, Place-lt w, ch.same_length)) small_lem
          (Represents-beside_right nodes a p d l ch hl) rep in
      (set a p m.node, step ∙ ap up ret ∙ m.returns, m.represents, Changes-right nodes a p _ ch)

-- In a free segment nothing can be freed.
free-whole :
    (f d : ℕ) (nodes : Nodes) (p base o : ℕ)
    → d < f
    → base + o < 2 ^ 31
    → Place (length nodes) d p base
    → Represents d whole nodes p
    → Freed f d nodes p base o none
free-whole zero d nodes p base o hf fits w h = absurd (omega arith)
free-whole (suc f) zero nodes p base o hf fits w h =
    free_leaf f nodes p base (pos 1) _ _ h (address_lem nodes w) (ground arith)
      (omega (arith, Place-leaf w))
free-whole (suc f) (suc d) nodes p base o hf fits w (h, hl, hr) =
    elim (Bool-cases (ltb o (shl1 d))) [
      | inl low ↦
          free_left f d nodes p base o _ w fits h (ground arith) low
          ∙ ap (after_free p (pos (2 * shl1 d)))
              (free-whole f d nodes (left p) base o (omega arith) fits (Place-left w) hl)
      | inr high ↦
          free_right f d nodes p base o _ w fits h (ground arith) high
          ∙ ap (after_free p (pos (2 * shl1 d))) (
              free-whole f d nodes (right p) (base + shl1 d) (o - shl1 d) (omega arith)
                (ground arith) (Place-right w) hr)
    ]

give-low :
    (d : ℕ) (l r : Tree) (o : ℕ)
    → ltb o (shl1 d) ≡ true
    → give (suc d) (split l r) o ≡ elim (give d l o) [ none ↦ none | some t ↦ some (merge t r) ]
unfolding give
give-low d l r o h = ground arith

give-high :
    (d : ℕ) (l r : Tree) (o : ℕ)
    → ltb o (shl1 d) ≡ false
    → give (suc d) (split l r) o
      ≡ elim (give d r (o - shl1 d)) [ none ↦ none | some t ↦ some (merge l t) ]
unfolding give
give-high d l r o h = ground arith

-- On every address the call on the array does what `give` does on the tree.
pub free-give :
    (f d : ℕ) (t : Tree) (nodes : Nodes) (p base o : ℕ)
    → d < f
    → base + o < 2 ^ 31
    → Place (length nodes) d p base
    → Represents d t nodes p
    → Freed f d nodes p base o (give d t o)
free-give zero d t nodes p base o hf fits w h = absurd (omega arith)
free-give (suc f) d used nodes p base o hf fits w h = free-used f d nodes p base o w h
free-give (suc f) d whole nodes p base o hf fits w h =
    unfold give in free-whole (suc f) d nodes p base o hf fits w h
free-give (suc f) zero (split l r) nodes p base o hf fits w h = absurd h
free-give (suc f) (suc d) (split l r) nodes p base o hf fits w (h, hl, hr) =
    elim (Bool-cases (ltb o (shl1 d))) [
      | inl low ↦ rw (give-low d l r o low) (
          give_left f d nodes p base o (pos 0) w fits r (give d l o)
            (free_left f d nodes p base o _ w fits h (ground arith) low) hr
            (free-give f d l nodes (left p) base o (omega arith) fits (Place-left w) hl))
      | inr high ↦ rw (give-high d l r o high) (
          give_right f d nodes p base o (pos 0) w fits l (give d r (o - shl1 d))
            (free_right f d nodes p base o _ w fits h (ground arith) high) hl
            (free-give f d r nodes (right p) (base + shl1 d) (o - shl1 d) (omega arith)
              (ground arith) (Place-right w) hr))
    ]
