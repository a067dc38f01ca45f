-- ===== src/Mailbox/Stored.antt =====
-- Reading the allocator and the heads from a state that was written (pkg/diskrpc/mailbox.go).
use csi_sanlock_lvm.Base.{
  ℕ, zero, suc, ◌+◌, ◌-◌, ◌*◌, ◌^◌, ◌≤◌, ◌<◌, ◌≡◌, ◌≢◌, inl, inr, refl, sym, ap, ◌∙◌, List, [], ◌∷◌,
  Bytes, take, drop, length, le→leb, ltb, Bool-cases, arith, ok,
}
use csi_sanlock_lvm.Base.Int.{ℤ, pos, negsuc, int32_of}
use csi_sanlock_lvm.Mailbox.Device.{
  overwrite, put_uint32, uint32, uint32-put_uint32, uint32-take, length-put_uint32,
  length-overwrite, length-drop, overwrite-front, drop-overwrite, drop-overwrite_after,
  take-overwrite_before,
}
use csi_sanlock_lvm.Mailbox.Layout.{
  head_offset, uint32_of, node_offset, nodes_to_state, allocator_to_state, nodes_from_state,
  allocator_from_state,
}
use csi_sanlock_lvm.Mailbox.Messages.{head, head_from, head_to, put_head}

-- A value of Go's type int32.
abbrev pub IsInt32 : ℤ → Type 0
IsInt32 (pos n) = n < 2 ^ 31
IsInt32 (negsuc n) = n < 2 ^ 31

abbrev pub AllInt32 : List ℤ → Type 0
AllInt32 [] = Unit
AllInt32 (n ∷ nodes) = IsInt32 n × AllInt32 nodes

int32_of-uint32_of : (n : ℤ) → IsInt32 n → int32_of (uint32_of n) ≡ n
unfolding int32_of uint32_of
int32_of-uint32_of (pos n) h = ground arith
int32_of-uint32_of (negsuc n) h = ground arith

uint32_of-bound : (n : ℤ) → uint32_of n < 2 ^ 32
unfolding uint32_of
uint32_of-bound (pos n) = omega arith
uint32_of-bound (negsuc n) = omega arith

-- A word that is written is the word that is read there.
pub uint32-overwrite :
    (s : Bytes) (i w : ℕ)
    → w < 2 ^ 32
    → i + 4 ≤ length s
    → uint32 (drop i (overwrite s i (put_uint32 w))) ≡ w
uint32-overwrite s i w small fits =
    ap uint32 (
      drop-overwrite s i i (put_uint32 w) (omega arith)
      ∙ ap (λ k. overwrite (drop i s) k (put_uint32 w)) (omega arith)
      ∙ overwrite-front (drop i s) (put_uint32 w)
          (omega (arith, length-put_uint32 w, length-drop i s)))
    ∙ uint32-put_uint32 w _ small

-- And no other word changes.
pub uint32-overwrite_before :
    (s : Bytes) (i k : ℕ) (buf : Bytes)
    → k + 4 ≤ i
    → uint32 (drop k (overwrite s i buf)) ≡ uint32 (drop k s)
uint32-overwrite_before s i k buf h =
    sym (uint32-take (drop k (overwrite s i buf)))
    ∙ ap uint32 (
        ap (take 4) (drop-overwrite s k i buf (omega arith))
        ∙ take-overwrite_before (drop k s) 4 (i - k) buf (omega arith))
    ∙ uint32-take (drop k s)

uint32-overwrite_after :
    (s : Bytes) (i k w : ℕ)
    → i + 4 ≤ k
    → uint32 (drop k (overwrite s i (put_uint32 w))) ≡ uint32 (drop k s)
uint32-overwrite_after s i k w h =
    ap uint32 (drop-overwrite_after s k i (put_uint32 w) (omega (arith, length-put_uint32 w)))

length-nodes_to_state :
    (i : ℕ) (nodes : List ℤ) (state : Bytes) → length (nodes_to_state i nodes state) ≡ length state
unfolding nodes_to_state
length-nodes_to_state i [] state = refl
length-nodes_to_state i (n ∷ nodes) state =
    length-nodes_to_state (suc i) nodes _
    ∙ length-overwrite state (node_offset i) (put_uint32 (uint32_of n))

uint32-nodes_to_state :
    (i k : ℕ) (nodes : List ℤ) (state : Bytes)
    → k + 4 ≤ node_offset i
    → uint32 (drop k (nodes_to_state i nodes state)) ≡ uint32 (drop k state)
unfolding nodes_to_state
uint32-nodes_to_state i k [] state h = refl
uint32-nodes_to_state i k (n ∷ nodes) state h =
    uint32-nodes_to_state (suc i) k nodes _ (omega arith)
    ∙ uint32-overwrite_before state (node_offset i) k (put_uint32 (uint32_of n)) h

nodes_from_state-nodes_to_state :
    (i : ℕ) (nodes : List ℤ) (state : Bytes)
    → AllInt32 nodes
    → 8192 + 4 * (i + length nodes) ≤ length state
    → nodes_from_state i (length nodes) (nodes_to_state i nodes state) ≡ nodes
unfolding nodes_from_state nodes_to_state
nodes_from_state-nodes_to_state i [] state h fits = refl
nodes_from_state-nodes_to_state i (n ∷ nodes) state (small, h) fits =
    let after = overwrite state (node_offset i) (put_uint32 (uint32_of n)) in
    let first =
      ap int32_of (
        uint32-nodes_to_state (suc i) (node_offset i) nodes after (omega arith)
        ∙ uint32-overwrite state (node_offset i) (uint32_of n) (uint32_of-bound n) (omega arith))
      ∙ int32_of-uint32_of n small in
    let rest =
      nodes_from_state-nodes_to_state (suc i) nodes after h
        (omega (arith, length-overwrite state (node_offset i) (put_uint32 (uint32_of n)))) in
    ap (λ m. m ∷ nodes_from_state (suc i) (length nodes) (nodes_to_state (suc i) nodes after)) first
    ∙ ap (λ r. n ∷ r) rest

head_from_lem :
    (id : ℕ)
    → 0 < id
    → id ≤ 2000
    → (head_from id ≡ head_offset id) × (head_to id ≡ head_offset id + 4)
head_from_lem id hpos hid = (omega arith, omega arith)

pub head-offset :
    (id : ℕ) (state : Bytes)
    → 0 < id
    → id ≤ 2000
    → 8192 ≤ length state
    → head id state ≡ ok (uint32 (drop (head_offset id) state))
unfolding head
head-offset id state hpos hid fits =
    let (from, to) = head_from_lem id hpos hid in
    rw
      (
        from,
        to,
        le→leb (head_offset id) (head_offset id + 4) (omega arith),
        le→leb (head_offset id + 4) (length state) (omega arith),
      )
      refl

nodes_from_state-overwrite :
    (i count k w : ℕ) (state : Bytes)
    → k + 4 ≤ node_offset i
    → nodes_from_state i count (overwrite state k (put_uint32 w)) ≡ nodes_from_state i count state
unfolding nodes_from_state
nodes_from_state-overwrite i zero k w state h = refl
nodes_from_state-overwrite i (suc count) k w state h =
    ap (λ m. int32_of m ∷ nodes_from_state (suc i) count (overwrite state k (put_uint32 w)))
      (uint32-overwrite_after state k (node_offset i) w h)
    ∙ ap (λ r. int32_of (uint32 (drop (node_offset i) state)) ∷ r)
        (nodes_from_state-overwrite (suc i) count k w state (omega arith))

uint32-overwrite_other :
    (s : Bytes) (id other w : ℕ)
    → 0 < id
    → 0 < other
    → other ≢ id
    → uint32 (drop (head_offset other) (overwrite s (head_offset id) (put_uint32 w)))
      ≡ uint32 (drop (head_offset other) s)
uint32-overwrite_other s id other w hid hother differ = elim (Bool-cases (ltb other id)) [
  | inl below ↦
      uint32-overwrite_before s (head_offset id) (head_offset other) (put_uint32 w) (ground arith)
  | inr above ↦ uint32-overwrite_after s (head_offset id) (head_offset other) w (ground arith)
]

-- The allocator is read back from a state with room for it as it was put there, for nodes of type int32.
-- Putting it there changes no head of a list, and not the length of the state.
pub allocator_from_state-allocator_to_state :
    (nodes : List ℤ) (state : Bytes)
    → AllInt32 nodes
    → 8192 + 4 * length nodes ≤ length state
    → (allocator_from_state (length nodes) (allocator_to_state nodes state) ≡ nodes)
      × ((id : ℕ) → 0 < id → id ≤ 2000 → head id (allocator_to_state nodes state) ≡ head id state)
      × (length (allocator_to_state nodes state) ≡ length state)
unfolding allocator_from_state allocator_to_state
allocator_from_state-allocator_to_state nodes state h fits = (
  nodes_from_state-nodes_to_state 0 nodes state h (omega arith),
  (λ id hpos hid.
      head-offset id _ hpos hid (omega (arith, length-nodes_to_state 0 nodes state))
      ∙ ap ok (uint32-nodes_to_state 0 (head_offset id) nodes state (omega arith))
      ∙ sym (head-offset id state hpos hid (omega arith))),
  length-nodes_to_state 0 nodes state,
)

-- After the head of one mailbox has been put into a state, it is read back; no other head and no node of the
-- allocator has changed. The ids are from 1 to 2000 and the address is a uint32.
pub head-put_head :
    (id addr : ℕ) (state : Bytes)
    → 0 < id
    → id ≤ 2000
    → addr < 2 ^ 32
    → 8192 ≤ length state
    → (head id (put_head id addr state) ≡ ok addr)
      × ((other : ℕ)
          → 0 < other
          → other ≤ 2000
          → other ≢ id
          → head other (put_head id addr state) ≡ head other state)
      × ((count : ℕ)
          → allocator_from_state count (put_head id addr state) ≡ allocator_from_state count state)
unfolding allocator_from_state
head-put_head id addr state hpos hid small fits =
    let at = (head_from_lem id hpos hid).0 in
    let after = overwrite state (head_offset id) (put_uint32 addr) in
    let long : 8192 ≤ length after =
      omega (arith, length-overwrite state (head_offset id) (put_uint32 addr)) in
    rw at (
      head-offset id after hpos hid long
          ∙ ap ok (uint32-overwrite state (head_offset id) addr small (omega arith)),
      (λ other hother hle differ.
          head-offset other after hother hle long
          ∙ ap ok (uint32-overwrite_other state id other addr hpos hother differ)
          ∙ sym (head-offset other state hother hle fits)),
      λ count. nodes_from_state-overwrite 0 count (head_offset id) addr state (omega arith),
    )
