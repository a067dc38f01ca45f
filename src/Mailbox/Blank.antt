-- ===== src/Mailbox/Blank.antt =====
-- The allocators that `format` and the readers of a state start from, and the state that an empty
-- device gets (pkg/diskrpc/mailbox.go).
use csi_sanlock_lvm.Base.{
  ℕ, zero, suc, ◌+◌, ◌-◌, ◌*◌, ◌/◌, ◌%◌, ◌^◌, ◌≤◌, ◌<◌, ◌≡◌, refl, sym, ap, subst, ◌∙◌, Bytes, drop,
  leb, length, length-replicate, length-set, replicate, Result, err, some, ◌==◌, Bool-cases, inl,
  inr, false, ok, arith, not, Option-cases, ltb,
}
use csi_sanlock_lvm.Base.Int.{ℤ, pos, negsuc, int32_of}
use csi_sanlock_lvm.Allocator.Heap.{
  Nodes, shl1, div2, left, right, initialize, new_allocator_by_size, new_allocator_by_node_cnt,
  ones_count, bit_length,
}
use csi_sanlock_lvm.Allocator.Positions.{shl1_pos}
use csi_sanlock_lvm.Allocator.Create.{ones_count-shl1, shl1_mono, shl1-30}
use csi_sanlock_lvm.Allocator.Tree.{Tree, whole, split, larger, room, take}
use csi_sanlock_lvm.Mailbox.Device.{put_uint32, uint32, length-overwrite}
use csi_sanlock_lvm.Mailbox.Layout.{allocator_from_state}
use csi_sanlock_lvm.Mailbox.Messages.{head}
use csi_sanlock_lvm.Mailbox.Header.{clear_heads, blank_state}
use csi_sanlock_lvm.Mailbox.Stored.{
  head-offset, IsInt32, AllInt32, uint32-overwrite, uint32-overwrite_before,
  allocator_from_state-allocator_to_state,
}
use csi_sanlock_lvm.Mailbox.Range.{AllInt32-set}

IsInt32-div2 : (n : ℤ) → IsInt32 n → IsInt32 (div2 n)
IsInt32-div2 (pos n) h = omega arith
IsInt32-div2 (negsuc n) h = elim (Bool-cases (leb (suc n / 2) 0)) [
  | inl low ↦ rw low (ground arith)
  | inr high ↦ rw high (ground arith)
]

AllInt32-replicate : (n : ℕ) → AllInt32 (replicate n (pos 0))
AllInt32-replicate zero = tt
AllInt32-replicate (suc n) = (omega arith, AllInt32-replicate n)

AllInt32-initialize :
    (f : ℕ) (nodes : Nodes) (p : ℕ) (free : ℤ)
    → IsInt32 free
    → AllInt32 nodes
    → AllInt32 (initialize f nodes p free)
unfolding initialize
AllInt32-initialize zero nodes p free hf h = h
AllInt32-initialize (suc f) nodes p free hf h = elim (Bool-cases (leb (length nodes) p)) [
  | inl out ↦ rw (initialize, out) h
  | inr in_range ↦
      rw (initialize, in_range)
        (AllInt32-initialize f _ (right p) (div2 free) (IsInt32-div2 free hf) (
          AllInt32-initialize f _ (left p) (div2 free) (IsInt32-div2 free hf)
            (AllInt32-set nodes p free h hf)))
]

length-initialize :
    (f : ℕ) (nodes : Nodes) (p : ℕ) (free : ℤ) → length (initialize f nodes p free) ≡ length nodes
unfolding initialize
length-initialize zero nodes p free = refl
length-initialize (suc f) nodes p free = elim (Bool-cases (leb (length nodes) p)) [
  | inl out ↦ rw (initialize, out) refl
  | inr in_range ↦
      rw (initialize, in_range)
        (length-initialize f _ (right p) (div2 free)
          ∙ length-initialize f _ (left p) (div2 free)
          ∙ length-set nodes p free)
]

abbrev AllOk : Result Nodes → Type 0
AllOk (ok nodes) = AllInt32 nodes
AllOk (err _) = Unit

AllOk-new_allocator_by_size : (n : ℕ) → n < 2 ^ 31 → AllOk (new_allocator_by_size (pos n))
unfolding new_allocator_by_size
AllOk-new_allocator_by_size n h = elim (Bool-cases (not (ones_count 32 n == 1))) [
  | inl refused ↦ rw (new_allocator_by_size, refused) tt
  | inr power ↦
      rw (new_allocator_by_size, power)
        (AllInt32-initialize _ _ 0 (pos n) h (AllInt32-replicate (shl1 (bit_length 32 n) - 1)))
]

-- NewAllocatorBySize makes nodes within int32.
pub AllInt32-new_allocator_by_size :
    (n : ℕ) (nodes : Nodes) → n < 2 ^ 31 → new_allocator_by_size (pos n) ≡ ok nodes → AllInt32 nodes
AllInt32-new_allocator_by_size n nodes h e = subst AllOk e (AllOk-new_allocator_by_size n h)

-- NewAllocatorByNodeCnt accepts the number of nodes of a tree, and makes that many.
pub new_allocator_by_node_cnt-length :
    (d cnt : ℕ)
    → d ≤ 30
    → cnt + 1 ≡ 2 * shl1 d
    → (nodes : Nodes) × (new_allocator_by_node_cnt cnt ≡ ok nodes) × (length nodes ≡ cnt)
unfolding new_allocator_by_node_cnt
new_allocator_by_node_cnt-length d cnt h e = (
  initialize (suc cnt) (replicate cnt (pos 0)) 0 (int32_of (shl1 ((cnt + 1) / 2))),
  rw (new_allocator_by_node_cnt, odd, one) refl,
  length-initialize (suc cnt) (replicate cnt (pos 0)) 0 (int32_of (shl1 ((cnt + 1) / 2)))
      ∙ length-replicate cnt (pos 0),
)
  where
    odd : (cnt == 2 ^ 31 - 2) ≡ false
    odd = ground arith

    small : (cnt + 1) % 2 ^ 32 ≡ shl1 (suc d)
    small = unfold shl1 in omega (arith, shl1_mono d 30 h, shl1-30)

    one : ones_count 32 ((cnt + 1) % 2 ^ 32) ≡ 1
    one = ap (ones_count 32) small ∙ ones_count-shl1 32 (suc d) (omega arith)

-- The first segment that a free tree gives is at its start.
pub take-whole : (d n o : ℕ) (t : Tree) → take d whole n ≡ some (o, t) → o ≡ 0
unfolding take
take-whole zero n o t e = ground arith
take-whole (suc d) n o t e = elim (Option-cases (take d whole n)) [
  | inl none_found ↦ ground (arith, e)
  | inr ((o', t'), found) ↦ ground (arith, e, take-whole d n o' t' found)
]

larger-right : (a b : ℕ) → b ≤ larger a b
unfolding larger
larger-right a b = ground arith

-- What is left free when less than half of a free tree is taken.
pub take-room :
    (d n o : ℕ) (t : Tree) → 0 < n → 2 * n ≤ shl1 d → take d whole n ≡ some (o, t) → 1 ≤ room d t
unfolding take room shl1
take-room zero n o t some_blocks h e = absurd (omega arith)
take-room (suc d) n o t some_blocks h e = elim (Option-cases (take d whole n)) [
  | inl none_found ↦ absurd (ground (arith, e, none_found))
  | inr ((o', t'), found) ↦
      let half : t ≡ split t' whole = ground (arith, e, found) in
      subst (λ t. 1 ≤ room (suc d) t) (sym half)
        (omega (arith, larger-right (room d t') (shl1 d), shl1_pos d))
]

length-clear_heads :
    (i count : ℕ) (state : Bytes) → length (clear_heads i count state) ≡ length state
unfolding clear_heads
length-clear_heads i zero state = refl
length-clear_heads i (suc count) state =
    length-clear_heads (suc i) count _
    ∙ length-overwrite state (192 + 4 * i) (put_uint32 (2 ^ 32 - 1))

uint32-clear_heads_before :
    (i count k : ℕ) (state : Bytes)
    → k + 4 ≤ 192 + 4 * i
    → uint32 (drop k (clear_heads i count state)) ≡ uint32 (drop k state)
unfolding clear_heads
uint32-clear_heads_before i zero k state h = refl
uint32-clear_heads_before i (suc count) k state h =
    uint32-clear_heads_before (suc i) count k _ (omega arith)
    ∙ uint32-overwrite_before state (192 + 4 * i) k (put_uint32 (2 ^ 32 - 1)) h

-- Each of the heads is the null pointer.
uint32-clear_heads :
    (i count k : ℕ) (state : Bytes)
    → i ≤ k
    → k < i + count
    → 192 + 4 * (i + count) ≤ length state
    → uint32 (drop (192 + 4 * k) (clear_heads i count state)) ≡ 2 ^ 32 - 1
unfolding clear_heads
uint32-clear_heads i zero k state lo hi fits = absurd (omega arith)
uint32-clear_heads i (suc count) k state lo hi fits = elim (Bool-cases (ltb i k)) [
  | inl later ↦
      uint32-clear_heads (suc i) count k _ (ground arith) (omega arith)
        (omega (arith, length-overwrite state (192 + 4 * i) (put_uint32 (2 ^ 32 - 1))))
  | inr here ↦
      let e : k ≡ i = ground arith in
      ap (λ k. uint32 (drop (192 + 4 * k) (clear_heads i (suc count) state))) e
      ∙ uint32-clear_heads_before (suc i) count (192 + 4 * i) _ (omega arith)
      ∙ uint32-overwrite state (192 + 4 * i) (2 ^ 32 - 1) (omega arith) (omega arith)
]

-- The state of an empty device has the allocator, and no mailbox has a message.
pub blank_state-heads :
    (directio_block_size size : ℕ) (nodes : Nodes)
    → AllInt32 nodes
    → 8192 + 4 * length nodes ≤ size
    → (length (blank_state directio_block_size size nodes) ≡ size)
      × (allocator_from_state (length nodes) (blank_state directio_block_size size nodes) ≡ nodes)
      × ((id : ℕ)
          → 0 < id
          → id ≤ 2000
          → head id (blank_state directio_block_size size nodes) ≡ ok (2 ^ 32 - 1))
unfolding blank_state
blank_state-heads directio_block_size size nodes h fits =
    let cleared = clear_heads 0 2000 (replicate size 0) in
    let long : length cleared ≡ size =
      length-clear_heads 0 2000 (replicate size 0) ∙ length-replicate size 0 in
    let (nodes_back, heads, same_length) =
      allocator_from_state-allocator_to_state nodes cleared h (omega (arith, long)) in
    (
      same_length ∙ long,
      nodes_back,
      λ id hid hle.
          heads id hid hle
          ∙ head-offset id cleared hid hle (omega (arith, long))
          ∙ ap ok (
              uint32-clear_heads 0 2000 (id - 1) (replicate size 0) (omega arith) (omega arith)
                (omega (arith, length-replicate {A = ℕ} size 0))),
    )
