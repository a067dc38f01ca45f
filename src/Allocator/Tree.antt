-- ===== src/Allocator/Tree.antt =====
-- The abstract allocator: a tree of segments, and how an array represents it.
use csi_sanlock_lvm.Base.{
  ℕ, zero, suc, ◌+◌, ◌-◌, ◌≡◌, Option, none, some, leb, ltb, if◌then◌else◌, get_elem?,
}
use csi_sanlock_lvm.Base.Int.{ℤ, pos, negsuc}
use csi_sanlock_lvm.Allocator.Heap.{Nodes, shl1, left, right}

-- A segment is free as a whole, allocated as a whole, or split into two halves.
pub data Tree : Type 0 where
  whole : Tree
  used : Tree
  split : Tree → Tree → Tree

unfoldable pub larger : ℕ → ℕ → ℕ
larger a b = if ltb b a then a else b

-- The size of the largest free segment in a tree whose segment has 2 ^ d blocks.
unfoldable pub room : ℕ → Tree → ℕ
unfolding larger
room d whole = shl1 d
room d used = 0
room zero (split l r) = 0
room (suc d) (split l r) = larger (room d l) (room d r)

-- The offset of an allocated segment, and the tree with it.
unfoldable pub take : ℕ → Tree → ℕ → Option (ℕ × Tree)
take d used n = none
take zero (split l r) n = none
take zero whole n = if leb n 1 then some (0, used) else none
take (suc d) whole n =
    if leb n (shl1 d)
    then elim (take d whole n) [ none ↦ none | some (o, t) ↦ some (o, split t whole) ]
    else if leb n (shl1 (suc d))
    then some (0, used)
    else none
take (suc d) (split l r) n =
    if leb n (room d l)
    then elim (take d l n) [ none ↦ none | some (o, t) ↦ some (o, split t r) ]
    else elim (take d r n) [ none ↦ none | some (o, t) ↦ some (shl1 d + o, split l t) ]

-- Two free halves are one free segment.
unfoldable pub merge : Tree → Tree → Tree
merge whole whole = whole
merge whole used = split whole used
merge whole (split a b) = split whole (split a b)
merge used r = split used r
merge (split a b) r = split (split a b) r

unfoldable pub give : ℕ → Tree → ℕ → Option Tree
unfolding merge
give d whole o = none
give d used zero = some whole
give d used (suc o) = none
give zero (split l r) o = none
give (suc d) (split l r) o =
    if ltb o (shl1 d)
    then elim (give d l o) [ none ↦ none | some t ↦ some (merge t r) ]
    else elim (give d r (o - shl1 d)) [ none ↦ none | some t ↦ some (merge l t) ]

-- What the `free` field of the node of a tree holds.
abbrev pub value : ℕ → Tree → ℤ
value d whole = pos (shl1 d)
value d used = negsuc (shl1 d - 1)
value d (split l r) = pos (room d (split l r))

-- Every node at `p` and below it holds the size of its segment.
abbrev pub Fresh : ℕ → Nodes → ℕ → Type 0
Fresh zero nodes p = get_elem? nodes p ≡ some (pos 1)
Fresh (suc d) nodes p =
    (get_elem? nodes p ≡ some (pos (shl1 (suc d))))
    × Fresh d nodes (left p)
    × Fresh d nodes (right p)

-- The array at `p` and below it represents a tree. Below an allocated segment the nodes stay as they
-- were when it was free.
abbrev pub Represents : ℕ → Tree → Nodes → ℕ → Type 0
Represents zero whole nodes p = get_elem? nodes p ≡ some (pos 1)
Represents zero used nodes p = get_elem? nodes p ≡ some (negsuc 0)
Represents zero (split l r) nodes p = ⊥
Represents (suc d) whole nodes p =
    (get_elem? nodes p ≡ some (pos (shl1 (suc d))))
    × Represents d whole nodes (left p)
    × Represents d whole nodes (right p)
Represents (suc d) used nodes p =
    (get_elem? nodes p ≡ some (negsuc (shl1 (suc d) - 1)))
    × Represents d whole nodes (left p)
    × Represents d whole nodes (right p)
Represents (suc d) (split l r) nodes p =
    (get_elem? nodes p ≡ some (pos (larger (room d l) (room d r))))
    × Represents d l nodes (left p)
    × Represents d r nodes (right p)
