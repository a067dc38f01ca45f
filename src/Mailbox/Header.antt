-- ===== src/Mailbox/Header.antt =====
-- The HEADER segment and the formatting of an empty device (`readHeader`, `format`).
use csi_sanlock_lvm.Base.{
  ℕ, zero, suc, ◌+◌, ◌-◌, ◌*◌, ◌/◌, ◌%◌, ◌^◌, ◌++◌, Bytes, bytes_eq, codes, take, drop, length, ltb,
  ◌==◌, not, ◌||◌, Bool, false, Option, none, some, ◌∷◌, Result, ok, err, unknown, internal,
  replicate, get_elem?, if◌then◌else◌,
}
use csi_sanlock_lvm.Base.Int.{ℤ, pos, negsuc, int32_of}
use csi_sanlock_lvm.Base.Exec.{Exec, pure, raise, lift, check, ◌>>=◌, ◌>>◌}
use csi_sanlock_lvm.Allocator.Heap.{Nodes, alloc_root, new_allocator_by_size, ones_count}
use csi_sanlock_lvm.Mailbox.Device.{read_at, write_at, overwrite, put_uint32, uint32}
use csi_sanlock_lvm.Mailbox.Layout.{to_blocks, state_bytes, write_state, allocator_to_state}

-- A method that only reads the file.
abbrev pub reading : {A : Type 0} → (Bytes → Result A) → Exec Bytes A
reading f file = (f file, file)

-- What an allocator method gives. Its error leaves the allocator as it was. A panic is the code
-- `internal`, which the mailbox never returns as an error.
abbrev pub settle : {A : Type 0} → Option (Result A × Nodes) → Result (A × Nodes)
settle none = err internal
settle (some (ok a, nodes)) = ok (a, nodes)
settle (some (err e, nodes)) = err e

abbrev pub magic_header : Bytes
magic_header = codes "csi-sanlock-lvm\n"

abbrev pub data_version : ℕ
data_version = 1

-- Block size, size of a state and size of the tree, in bytes.
pub record Sizes : Type 0 where
  pub b_size : ℕ
  pub s_size : ℕ
  pub a_size : ℕ

abbrev pub byte_at : ℕ → Bytes → ℕ
byte_at i block = elim (get_elem? block i) [ none ↦ 0 | some b ↦ b ]

-- The null pointers of the heads, from the mailbox at index `i` on.
unfoldable pub clear_heads : ℕ → ℕ → Bytes → Bytes
clear_heads i zero state = state
clear_heads i (suc count) state =
    clear_heads (suc i) count (overwrite state (192 + 4 * i) (put_uint32 (2 ^ 32 - 1)))

unfoldable pub header_of : ℕ → ℕ → ℕ → Bytes
header_of b_size f_size a_size = overwrite (replicate b_size 0) 0 (
    magic_header
    ++ (data_version ∷ 0 ∷ (put_uint32 b_size ++ (put_uint32 f_size ++ put_uint32 a_size))))

-- directio.BlockSize, the block size of the platform.
module _ (directio_block_size : ℕ) where
  -- The fields of a block that starts with the magic bytes.
  unfoldable pub parse_header : Bytes → Result Sizes
  unfolding to_blocks ones_count
  parse_header block =
      let b_size = uint32 (drop 18 block) in
      let a_size = uint32 (drop 26 block) in
      if not (byte_at 16 block == data_version)
      then err unknown
      else if not (byte_at 17 block == 0)
      then err unknown
      else if (b_size == 0) || not (b_size % directio_block_size == 0)
      then err unknown
      else if not (ones_count 64 (a_size + 4) == 1)
      then err unknown
      else ok (record {
        b_size = b_size;
        s_size = to_blocks b_size (state_bytes a_size) * b_size;
        a_size = a_size;
      })

  -- The state that an empty device gets.
  unfoldable pub blank_state : ℕ → Nodes → Bytes
  unfolding clear_heads
  blank_state size nodes = allocator_to_state nodes (clear_heads 0 2000 (replicate size 0))

  unfoldable pub format : ℕ → Exec Bytes (Unit {0})
  format b_size = do
    f_size ← reading (λ file. ok (length file))
    check (not (ltb (2 ^ 31 - 1) f_size)) unknown
    nodes ← lift (new_allocator_by_size (int32_of (f_size / b_size)))
    write_at 0 (header_of b_size f_size (length nodes * 4))
    let s_blocks = to_blocks b_size (state_bytes (length nodes * 4))
    (addr, taken) ← lift (settle (alloc_root nodes (int32_of (1 + 3 * s_blocks))))
    check (is_zero addr) internal
    write_state b_size (s_blocks * b_size) (blank_state (s_blocks * b_size) taken)
    where
      is_zero : ℤ → Bool
      is_zero (pos n) = n == 0
      is_zero (negsuc n) = false

  abbrev read_block : Exec Bytes Bytes
  read_block = reading (λ file. read_at file 0 directio_block_size)

  abbrev has_magic : Bytes → Bool
  has_magic block = bytes_eq (take 16 block) magic_header

  abbrev is_empty : Bytes → Bool
  is_empty block = bytes_eq (take 16 block) (replicate 16 0)

  -- The second turn of the loop.
  abbrev read_formatted : Exec Bytes Bytes
  read_formatted = do block ← read_block; check (has_magic block) unknown; pure block

  -- The loop: the first turn formats an empty file, after which the second reads it again.
  unfoldable pub find_header : Exec Bytes Bytes
  find_header = do block ← read_block; first_turn block
    where
      first_turn : Bytes → Exec Bytes Bytes
      first_turn block =
          if has_magic block
          then pure block
          else if is_empty block
          then format directio_block_size >> read_formatted
          else raise unknown

  unfoldable pub read_header : Exec Bytes Sizes
  read_header = do block ← find_header; lift (parse_header block)
