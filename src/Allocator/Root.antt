-- ===== src/Allocator/Root.antt =====
-- The allocator's methods on the whole array.
use csi_sanlock_lvm.Base.{
  ℕ, zero, suc, ◌+◌, ◌-◌, ◌*◌, ◌/◌, ◌^◌, ◌≤◌, ◌<◌, ◌≡◌, refl, sym, ap, ◌∙◌, subst, Option, none,
  some, arith, length, Bool-cases, ltb, inl, inr, ok, err, unknown,
}
use csi_sanlock_lvm.Base.Int.{pos, int32_of, int32_of-small}
use csi_sanlock_lvm.Allocator.Heap.{Nodes, shl1, alloc, free, alloc_root, free_root}
use csi_sanlock_lvm.Allocator.Positions.{Place, shl1_pos}
use csi_sanlock_lvm.Allocator.Tree.{Tree, whole, used, split, room, Represents, take, merge, give}
use csi_sanlock_lvm.Allocator.Taking.{alloc-take, alloc-no_room}
use csi_sanlock_lvm.Allocator.Freeing.{Freed, free-give}
use csi_sanlock_lvm.Allocator.Blocks.{IsTidy, Takes, take-laws}

-- The array is a well-formed allocator of 2 ^ d blocks in the state of the tree.
pub record IsAllocator (d : ℕ) (t : Tree) (nodes : Nodes) : Type 0 where
  pub place : Place (length nodes) d 0 0
  pub represents : Represents d t nodes 0
  pub tidy : IsTidy t

pub lt-shl1 : (d : ℕ) → d < shl1 d
unfolding shl1
lt-shl1 zero = omega arith
lt-shl1 (suc d) = omega (arith, lt-shl1 d)

module _ {len d : ℕ} (w : Place len d 0 0) where
  pub root-length : len + 1 ≡ 2 * shl1 d
  root-length = let one : len + 1 ≡ 2 * (1 * shl1 d) = rw depth_one at w.total in omega (arith, one)
    where
      depth_one : shl1 w.depth ≡ 1
      depth_one = omega (arith, w.at, shl1_pos w.depth)

  fuel_suffices : d < len
  fuel_suffices = omega (arith, root-length, lt-shl1 d)

  root_size : int32_of ((len + 1) / 2) ≡ pos (shl1 d)
  root_size =
      let half : (len + 1) / 2 ≡ shl1 d = omega (arith, root-length) in
      rw half (int32_of-small (shl1 d) (omega (arith, root-length, w.bounded, shl1_pos d)))

-- The call on any fuel.
no_room :
    (f d : ℕ) (t : Tree) (nodes : Nodes) (n : ℕ)
    → 0 < f
    → 0 < n
    → Represents d t nodes 0
    → room d t < n
    → alloc f nodes 0 (pos n) ≡ some (err unknown, nodes)
no_room zero d t nodes n hf pos_n h few = absurd (omega arith)
no_room (suc f) d t nodes n hf pos_n h few = alloc-no_room f d t nodes 0 n pos_n h few

-- A successful call of Alloc.
pub record Allocated (d : ℕ) (t : Tree) (nodes : Nodes) (n : ℕ) : Type 0 where
  pub address : ℕ
  pub tree : Tree
  pub result : Nodes
  pub returns : alloc_root nodes (pos n) ≡ some (ok (pos address), result)
  pub taken : take d t n ≡ some (address, tree)
  pub takes : Takes d t tree n address
  pub gives_back : give d tree address ≡ some t
  pub well_formed : IsAllocator d tree result

-- On a well-formed allocator, for a size of at least one block that is not above the largest free
-- segment, Alloc succeeds: it takes a free power of two of blocks, the least that is enough, marks
-- these and no other as allocated, and leaves a well-formed allocator.
pub alloc_root-Allocated :
    (d : ℕ) (t : Tree) (nodes : Nodes) (n : ℕ)
    → IsAllocator d t nodes
    → 0 < n
    → n ≤ room d t
    → Allocated d t nodes n
unfolding alloc_root
alloc_root-Allocated d t nodes n v pos_n fits =
    let k =
      alloc-take (length nodes) d t nodes 0 0 n (fuel_suffices v.place) pos_n fits v.place
        v.represents in
    let laws = take-laws d t k.tree n k.offset pos_n k.taken in
    record {
      address = k.offset;
      tree = k.tree;
      result = k.result;
      returns = k.returns ∙ ap (λ a. some (ok (pos a), k.result)) (omega arith);
      taken = k.taken;
      takes = laws.takes;
      gives_back = laws.gives_back v.tidy;
      well_formed = record {
        place = subst (λ len. Place len d 0 0) (sym k.changes.same_length) v.place;
        represents = k.represents;
        tidy = laws.tidy v.tidy;
      };
    }

-- Above the largest free segment Alloc is an error and changes nothing.
pub alloc_root-no_room :
    (d : ℕ) (t : Tree) (nodes : Nodes) (n : ℕ)
    → IsAllocator d t nodes
    → room d t < n
    → alloc_root nodes (pos n) ≡ some (err unknown, nodes)
unfolding alloc_root
alloc_root-no_room d t nodes n v few =
    no_room (length nodes) d t nodes n (omega (arith, fuel_suffices v.place)) (omega arith)
      v.represents few

-- What Free does, by what `give` returns for the address.
abbrev pub RootFreed : ℕ → Nodes → ℕ → Option Tree → Type 0
RootFreed d nodes a none = free_root nodes (pos a) ≡ some (err unknown, nodes)
RootFreed d nodes a (some t) =
    (result : Nodes) × (free_root nodes (pos a) ≡ some (ok tt, result)) × IsAllocator d t result

merge-IsTidy : (l r : Tree) → IsTidy l → IsTidy r → IsTidy (merge l r)
unfolding merge
merge-IsTidy whole whole hl hr = tt
merge-IsTidy whole used hl hr = (tt, tt, refl)
merge-IsTidy whole (split a b) hl hr = (tt, hr, refl)
merge-IsTidy used r hl hr = (tt, hr, refl)
merge-IsTidy (split a b) r hl hr = (hl, hr, refl)

abbrev Tidied : Option Tree → Type 0
Tidied none = Unit
Tidied (some t) = IsTidy t

Tidied-left :
    (r : Tree) (x : Option Tree)
    → IsTidy r
    → Tidied x
    → Tidied (elim x [ none ↦ none | some t ↦ some (merge t r) ])
Tidied-left r none hr h = tt
Tidied-left r (some t) hr h = merge-IsTidy t r h hr

Tidied-right :
    (l : Tree) (x : Option Tree)
    → IsTidy l
    → Tidied x
    → Tidied (elim x [ none ↦ none | some t ↦ some (merge l t) ])
Tidied-right l none hl h = tt
Tidied-right l (some t) hl h = merge-IsTidy l t hl h

give-Tidied : (d : ℕ) (t : Tree) (o : ℕ) → IsTidy t → Tidied (give d t o)
unfolding give
give-Tidied d whole o h = tt
give-Tidied d used zero h = tt
give-Tidied d used (suc o) h = tt
give-Tidied zero (split l r) o h = tt
give-Tidied (suc d) (split l r) o (hl, hr, _) =
    let in_l = give-Tidied d l o hl in
    let in_r = give-Tidied d r (o - shl1 d) hr in
    elim (Bool-cases (ltb o (shl1 d))) [
      | inl low ↦ rw low (Tidied-left r (give d l o) hr in_l)
      | inr high ↦ rw high (Tidied-right l (give d r (o - shl1 d)) hl in_r)
    ]

at_zero :
    (d : ℕ) (nodes : Nodes) (a : ℕ)
    → free (length nodes) nodes 0 (pos (shl1 d)) (pos a)
      ≡ free (length nodes) nodes 0 (pos (shl1 d)) (pos (0 + a))
at_zero d nodes a = ap (λ b. free (length nodes) nodes 0 (pos (shl1 d)) (pos b)) (omega arith)

Freed-root :
    (d : ℕ) (nodes : Nodes) (a : ℕ) (x : Option Tree)
    → Place (length nodes) d 0 0
    → Tidied x
    → Freed (length nodes) d nodes 0 0 a x
    → RootFreed d nodes a x
unfolding free_root
Freed-root d nodes a none w h r = rw (root_size w) (at_zero d nodes a ∙ r)
Freed-root d nodes a (some t) w h (result, returns, represents, changes) = (
  result,
  rw (root_size w) (at_zero d nodes a ∙ returns),
  record {
    place = subst (λ len. Place len d 0 0) (sym changes.same_length) w;
    represents = represents;
    tidy = h;
  },
)

-- On a well-formed allocator Free always returns: an address at which no allocated segment starts is
-- an error that changes nothing; any other segment is given back, free halves are merged, and the
-- allocator stays well formed.
pub free_root_lem :
    (d : ℕ) (t : Tree) (nodes : Nodes) (a : ℕ)
    → IsAllocator d t nodes
    → a < 2 ^ 31
    → RootFreed d nodes a (give d t a)
free_root_lem d t nodes a v small =
    Freed-root d nodes a (give d t a) v.place (give-Tidied d t a v.tidy) (
      free-give (length nodes) d t nodes 0 0 a (fuel_suffices v.place) (omega arith) v.place
        v.represents)

-- Freeing what Alloc returned succeeds and leads back to the state before the call.
pub free_root-alloc_root :
    (d : ℕ) (t : Tree) (nodes : Nodes) (n : ℕ)
    → IsAllocator d t nodes
    → 0 < n
    → n ≤ room d t
    → (a : ℕ) × (middle : Nodes) × (result : Nodes) × (alloc_root nodes (pos n)
        ≡ some (ok (pos a), middle))
      × (free_root middle (pos a) ≡ some (ok tt, result))
      × IsAllocator d t result
free_root-alloc_root d t nodes n v pos_n fits =
    let k = alloc_root-Allocated d t nodes n v pos_n fits in
    let small : k.address < 2 ^ 31 =
      omega
        (arith, k.takes.in_range, root-length v.place, v.place.bounded, shl1_pos k.takes.order) in
    let back =
      subst (RootFreed d k.result k.address) k.gives_back
        (free_root_lem d k.tree k.result k.address k.well_formed small) in
    (k.address, k.result, back.0, k.returns, back.1, back.2)
