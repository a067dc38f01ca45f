-- ===== src/Allocator/Heap.antt =====
-- The allocator as the code has it: an array of nodes in heap order. A node is its `free` field; the
-- nodes are distinct objects, so an update of one is an update of the array. `none` is a panic (an
-- index out of range) or fuel that has run out.
use csi_sanlock_lvm.Base.{
  ℕ, zero, suc, ◌+◌, ◌-◌, ◌*◌, ◌/◌, ◌%◌, ◌^◌, not, ◌≡◌, refl, Bool, true, false, ◌&&◌, ◌||◌, List,
  Option, none, some, leb, ltb, ◌==◌, if◌then◌else◌, length, get_elem?, set, replicate, Result, ok,
  err, unknown,
}
use csi_sanlock_lvm.Base.Int.{
  ℤ, pos, negsuc, pos_part, neg_part, sub_ℕ, ltb_ℤ, leb_ℤ, eqb_ℤ, int32_of, int32,
}

abbrev pub Nodes : Type 0
Nodes = List ℤ

abbrev pub neg : ℤ → ℤ
neg a = sub_ℕ (neg_part a) (pos_part a)

abbrev pub add : ℤ → ℤ → ℤ
add a b = sub_ℕ (pos_part a + pos_part b) (neg_part a + neg_part b)

abbrev pub sub : ℤ → ℤ → ℤ
sub a b = sub_ℕ (pos_part a + neg_part b) (neg_part a + pos_part b)

-- `/ 2`, which rounds to zero, and `>> 1`, which rounds down.
abbrev pub div2 : ℤ → ℤ
div2 (pos n) = pos (n / 2)
div2 (negsuc n) = neg (pos (suc n / 2))

abbrev pub shr1 : ℤ → ℤ
shr1 (pos n) = pos (n / 2)
shr1 (negsuc n) = negsuc (n / 2)

-- `1 << k`.
unfoldable pub shl1 : ℕ → ℕ
shl1 zero = 1
shl1 (suc k) = 2 * shl1 k

unfoldable pub max : ℤ → ℤ → ℤ
max a b = if ltb_ℤ b a then a else b

abbrev pub left : ℕ → ℕ
left p = 2 * p + 1

abbrev pub right : ℕ → ℕ
right p = 2 * p + 2

-- The integer part of the binary logarithm, on fuel.
unfoldable pub log2 : ℕ → ℕ → ℕ
log2 zero n = 0
log2 (suc f) n = let rest = log2 f (n / 2) in if ltb n 2 then 0 else suc rest

unfoldable pub level : ℕ → ℕ
unfolding log2
level p = log2 (p + 1) (p + 1)

-- Offset and size of the segment of the node at `p`.
unfoldable pub address_size : Nodes → ℕ → ℕ
unfolding shl1
address_size nodes p = (length nodes + 1) / 2 / shl1 (level p)

unfoldable pub address : Nodes → ℕ → ℤ × ℤ
address nodes p =
    let size = address_size nodes p in (int32_of ((p - (shl1 (level p) - 1)) * size), int32_of size)

-- `i >= len(nodes) || nodes[i].free < size`.
unfoldable pub lacks_room : Nodes → ℕ → ℤ → Bool
lacks_room nodes i size = elim (get_elem? nodes i) [ none ↦ true | some c ↦ ltb_ℤ c size ]

-- `nodes[p].free = max(max(nodes[left].free, nodes[right].free), 0)`.
unfoldable pub refresh : Nodes → ℕ → Option Nodes
refresh nodes p = elim (get_elem? nodes (left p)) [
  | none ↦ none
  | some l ↦ elim (get_elem? nodes (right p)) [
    | none ↦ none
    | some r ↦ some (set nodes p (max (max l r) (pos 0)))
  ]
]

-- `v, _ = alloc(…)`: the error is dropped, and -1 comes with it.
abbrev pub address_of : Result ℤ → ℤ
address_of (ok v) = v
address_of (err _) = negsuc 0

abbrev pub after_alloc : ℕ → Option (Result ℤ × Nodes) → Option (Result ℤ × Nodes)
after_alloc p none = none
after_alloc p (some (r, nodes)) = elim (refresh nodes p) [
  | none ↦ none
  | some nodes' ↦ some (ok (address_of r), nodes')
]

unfoldable pub alloc : ℕ → Nodes → ℕ → ℤ → Option (Result ℤ × Nodes)
alloc zero nodes p size = none
alloc (suc f) nodes p size = elim (get_elem? nodes p) [
  | none ↦ none
  | some free ↦
      if leb_ℤ size (pos 0) || ltb_ℤ free size
      then some (err unknown, nodes)
      else if leb_ℤ size free && lacks_room nodes (left p) size && lacks_room nodes (right p) size
      then some (ok (address nodes p).0, set nodes p (int32 (neg free)))
      else elim (get_elem? nodes (left p)) [
        | none ↦ none
        | some l ↦ elim (leb_ℤ size l) [
          | true ↦ after_alloc p (alloc f nodes (left p) size)
          | false ↦ after_alloc p (alloc f nodes (right p) size)
        ]
      ]
]

-- What `free` does on its way back: the merge, or the larger of the two children.
abbrev pub after_free :
    ℕ → ℤ → Option (Result (Unit {0}) × Nodes) → Option (Result (Unit {0}) × Nodes)
after_free p size none = none
after_free p size (some (err e, nodes)) = some (err e, nodes)
after_free p size (some (ok u, nodes)) = elim (get_elem? nodes (right p)) [
  | none ↦ none
  | some r ↦ elim (get_elem? nodes (left p)) [
    | none ↦ none
    | some l ↦
        some (
          ok tt,
          set nodes p (if eqb_ℤ (int32 (add l r)) size then size else max (max l r) (pos 0)),
        )
  ]
]

unfoldable pub free : ℕ → Nodes → ℕ → ℤ → ℤ → Option (Result (Unit {0}) × Nodes)
free zero nodes p size addr = none
free (suc f) nodes p size addr = elim (get_elem? nodes p) [
  | none ↦ some (err unknown, nodes)
  | some n ↦
      if ltb_ℤ n (pos 0)
      then (if eqb_ℤ (address nodes p).0 addr
          then some (ok tt, set nodes p (int32 (neg n)))
          else some (err unknown, nodes))
      else if ltb (length nodes) (right p)
      then some (err unknown, nodes)
      else elim (ltb_ℤ (int32 (sub addr (address nodes p).0)) (div2 size)) [
        | true ↦ after_free p size (free f nodes (left p) (shr1 size) addr)
        | false ↦ after_free p size (free f nodes (right p) (shr1 size) addr)
      ]
]

-- The methods Alloc and Free. The recursion is never deeper than there are nodes.
unfoldable pub alloc_root : Nodes → ℤ → Option (Result ℤ × Nodes)
alloc_root nodes size = alloc (length nodes) nodes 0 size

unfoldable pub free_root : Nodes → ℤ → Option (Result (Unit {0}) × Nodes)
free_root nodes addr = free (length nodes) nodes 0 (int32_of ((length nodes + 1) / 2)) addr

-- `nodes[p] = &node{free: free}` at `p` and below it. A nil pointer is written 0 until then.
unfoldable pub initialize : ℕ → Nodes → ℕ → ℤ → Nodes
initialize zero nodes p free = nodes
initialize (suc f) nodes p free = elim (leb (length nodes) p) [
  | true ↦ nodes
  | false ↦
      initialize f (initialize f (set nodes p free) (left p) (div2 free)) (right p) (div2 free)
]

-- bits.OnesCount32, on fuel.
unfoldable pub ones_count : ℕ → ℕ → ℕ
ones_count zero n = 0
ones_count (suc f) n = n % 2 + ones_count f (n / 2)

-- `for i := size; i > 0; i = i >> 1 { depth++ }`, on fuel.
unfoldable pub bit_length : ℕ → ℕ → ℕ
bit_length zero n = 0
bit_length (suc f) n = elim (n == 0) [ true ↦ 0 | false ↦ suc (bit_length f (n / 2)) ]

unfoldable pub new_allocator_by_size : ℤ → Result Nodes
unfolding ones_count bit_length shl1
new_allocator_by_size (negsuc n) = err unknown
new_allocator_by_size (pos n) =
    if not (ones_count 32 n == 1)
    then err unknown
    else let cnt = shl1 (bit_length 32 n) - 1 in
      ok (initialize (suc cnt) (replicate cnt (pos 0)) 0 (pos n))

-- `nodeCnt` is never negative here: it is a quarter of a uint32.
unfoldable pub new_allocator_by_node_cnt : ℕ → Result Nodes
unfolding ones_count shl1
new_allocator_by_node_cnt cnt =
    if cnt == 2 ^ 31 - 2 || not (ones_count 32 ((cnt + 1) % 2 ^ 32) == 1)
    then err unknown
    else ok (initialize (suc cnt) (replicate cnt (pos 0)) 0 (int32_of (shl1 ((cnt + 1) / 2))))

-- A run of the methods on a tree of eight segments.
runs : Result Nodes
runs = new_allocator_by_size (pos 8)

abbrev eight : Nodes
eight = initialize 16 (replicate 15 (pos 0)) 0 (pos 8)

runs-eight : runs ≡ ok eight
unfolding runs new_allocator_by_size initialize
runs-eight = refl

abbrev first_address : Option (Result ℤ × Nodes) → Option (Result ℤ)
first_address none = none
first_address (some (r, nodes)) = some r

alloc_third : first_address (alloc_root eight (pos 3)) ≡ some (ok (pos 0))
unfolding alloc_root alloc initialize lacks_room refresh max int32 address address_size level
    int32_of
alloc_third = refl
