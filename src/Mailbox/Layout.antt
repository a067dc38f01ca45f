-- ===== src/Mailbox/Layout.antt =====
-- The segments of the file: where the header, the three states and the heads of the lists are, and
-- the allocator in a state (`toBlocks`, `readState`, `writeState`, `allocatorToState`,
-- `allocatorFromState`).
use csi_sanlock_lvm.Base.{
  ℕ, zero, suc, ◌+◌, ◌-◌, ◌*◌, ◌/◌, ◌%◌, ◌^◌, List, [], ◌∷◌, Bytes, bytes_eq, take, drop, length,
  ◌==◌, if◌then◌else◌, Result, ok, err, unknown,
}
use csi_sanlock_lvm.Base.Int.{ℤ, pos, negsuc, int32_of}
use csi_sanlock_lvm.Base.Exec.{Exec, check, ◌>>◌}
use csi_sanlock_lvm.Mailbox.Device.{read_at, write_at, overwrite, put_uint32, uint32}

-- For a size of at least 1.
unfoldable pub to_blocks : ℕ → ℕ → ℕ
to_blocks b_size size = (size - 1) / b_size + 1

-- The number of bytes of a state: what is reserved, the heads, and the tree.
abbrev pub state_bytes : ℕ → ℕ
state_bytes a_size = 192 + 2000 * 4 + a_size

-- The head of the list of the mailbox `id`, from 1 to 2000.
abbrev pub head_offset : ℕ → ℕ
head_offset id = 192 + 4 * (id - 1)

unfoldable pub choose : ℕ → Bytes → Bytes
choose s_size state3 =
    if bytes_eq (take s_size state3) (take s_size (drop s_size state3))
    then take s_size state3
    else take s_size (drop (2 * s_size) state3)

unfoldable pub read_state : ℕ → ℕ → Bytes → Result Bytes
read_state b_size s_size file = elim (read_at file b_size (3 * s_size)) [
  | ok state3 ↦ ok (choose s_size state3)
  | err e ↦ err e
]

unfoldable pub write_state : ℕ → ℕ → Bytes → Exec Bytes (Unit {0})
write_state b_size s_size state = do
  check (length state == s_size) unknown
  write_at b_size state
  write_at (b_size + s_size) state
  write_at (b_size + 2 * s_size) state

-- uint32(node.free).
unfoldable pub uint32_of : ℤ → ℕ
uint32_of (pos n) = n % 2 ^ 32
uint32_of (negsuc n) = 2 ^ 32 - 1 - n % 2 ^ 32

abbrev pub node_offset : ℕ → ℕ
node_offset i = 8192 + 4 * i

-- The loop over the nodes from index `i` on.
unfoldable pub nodes_to_state : ℕ → List ℤ → Bytes → Bytes
nodes_to_state i [] state = state
nodes_to_state i (n ∷ nodes) state =
    nodes_to_state (suc i) nodes (overwrite state (node_offset i) (put_uint32 (uint32_of n)))

unfoldable pub allocator_to_state : List ℤ → Bytes → Bytes
allocator_to_state nodes state = nodes_to_state 0 nodes state

-- The loop over the nodes from index `i` on, of which only the number counts.
unfoldable pub nodes_from_state : ℕ → ℕ → Bytes → List ℤ
nodes_from_state i zero state = []
nodes_from_state i (suc count) state =
    int32_of (uint32 (drop (node_offset i) state)) ∷ nodes_from_state (suc i) count state

unfoldable pub allocator_from_state : ℕ → Bytes → List ℤ
allocator_from_state count state = nodes_from_state 0 count state
