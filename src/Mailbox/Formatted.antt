-- ===== src/Mailbox/Formatted.antt =====
-- What `readHeader` and `format` of pkg/diskrpc/mailbox.go make of an empty device.
use native.Mathlib.Nat.{div-mul-le_self, lt-div-mul-add}
use csi_sanlock_lvm.Allocator.Positions.{shl1_pos}
use csi_sanlock_lvm.Base.{
  ℕ, ◌+◌, ◌-◌, ◌*◌, ◌/◌, ◌^◌, ◌≤◌, ◌<◌, ◌≡◌, refl, sym, ap, ◌∙◌, subst, ◌++◌, Bytes, bytes_eq,
  bytes_eq_refl, take, drop, length, replicate, le-scaled, ok, arith, true, false, some, ltb,
}
use csi_sanlock_lvm.Base.Int.{pos, int32_of, int32_of-small}
use csi_sanlock_lvm.Allocator.Heap.{Nodes, shl1, alloc_root, new_allocator_by_size}
use csi_sanlock_lvm.Allocator.Tree.{Tree, whole, room}
use csi_sanlock_lvm.Allocator.Root.{IsAllocator, Allocated, root-length, alloc_root-Allocated}
use csi_sanlock_lvm.Allocator.Create.{new_allocator_by_size-IsAllocator, shl1_mono, shl1-30}
use csi_sanlock_lvm.Mailbox.Device.{
  write_at, overwrite, length-overwrite, overwrite-front, take-append,
}
use csi_sanlock_lvm.Mailbox.Layout.{allocator_from_state, to_blocks, state_bytes, write_state}
use csi_sanlock_lvm.Mailbox.Header.{
  blank_state, parse_header, header_of, format, find_header, read_header, magic_header,
}
use csi_sanlock_lvm.Mailbox.State.{thrice}
use csi_sanlock_lvm.Mailbox.Torn.{read_at-fits, write_at-fits, write_state-overwrite}
use csi_sanlock_lvm.Mailbox.Segments.{HasHeader, HasHeader-overwrite}
use csi_sanlock_lvm.Mailbox.Messages.{head}
use csi_sanlock_lvm.Mailbox.Stored.{AllInt32}
use csi_sanlock_lvm.Mailbox.Range.{AllInt32-alloc_root}
use csi_sanlock_lvm.Mailbox.Blank.{AllInt32-new_allocator_by_size, take-whole, blank_state-heads}
use csi_sanlock_lvm.Mailbox.Formatting.{
  sizes_of, parse_header-header_of, header_of-magic, length-header_of,
}

-- The number of nodes of the tree of 2 ^ `d` blocks, and the number of blocks of a state.
abbrev pub node_count : ℕ → ℕ
node_count d = 2 * shl1 d - 1

abbrev pub state_blocks : ℕ → ℕ → ℕ
state_blocks b_size d = to_blocks b_size (state_bytes (node_count d * 4))

-- A device of 2 ^ `d` blocks that starts with zeros and has room for the header and the states.
pub record IsEmptyDevice (b_size d : ℕ) (file : Bytes) : Type 0 where
  pub large : 30 ≤ b_size
  pub few : d ≤ 28
  pub small : length file < 2 ^ 31
  pub blocks : length file / b_size ≡ shl1 d
  pub states : 1 + 3 * state_blocks b_size d ≤ shl1 d
  pub zeros : take 16 (take b_size file) ≡ replicate 16 0

zeros-magic : bytes_eq (replicate 16 0) magic_header ≡ false
unfolding bytes_eq
zeros-magic = refl

to_blocks-fits : (b size : ℕ) → 0 < b → size ≤ to_blocks b size * b
unfolding to_blocks
to_blocks-fits b size some_block =
    let above = lt-div-mul-add {a = size - 1} {b = b} some_block in omega (arith, above)

module _ (b_size d : ℕ) (file : Bytes) (empty : IsEmptyDevice b_size d file) where
  -- The calls of `format`, by what each of them gives.
  format-steps :
      (nodes taken : Nodes) (written after : Bytes)
      → length nodes ≡ node_count d
      → new_allocator_by_size (int32_of (length file / b_size)) ≡ ok nodes
      → write_at 0 (header_of b_size (length file) (node_count d * 4)) file ≡ (ok tt, written)
      → alloc_root nodes (int32_of (1 + 3 * state_blocks b_size d)) ≡ some (ok (pos 0), taken)
      → write_state b_size
          (state_blocks b_size d * b_size)
          (blank_state b_size (state_blocks b_size d * b_size) taken)
          written
        ≡ (ok tt, after)
      → format b_size b_size file ≡ (ok tt, after)
  unfolding format
  format-steps nodes taken written after len a b c e =
      let in_bounds : ltb (2 ^ 31 - 1) (length file) ≡ false = ground (arith, empty.small) in
      rw (format, in_bounds, a, len, b, c, e) refl

  pub fresh :
      (nodes : Nodes) × (new_allocator_by_size (pos (shl1 d)) ≡ ok nodes)
      × IsAllocator d whole nodes
  fresh = new_allocator_by_size-IsAllocator d (omega (arith, empty.few))

  size_small : shl1 d < 2 ^ 31
  size_small = omega (arith, shl1_mono d 30 (omega (arith, empty.few)), shl1-30)

  -- The blocks of the header and the states.
  pub used_blocks : Allocated d whole (fresh.0) (1 + 3 * state_blocks b_size d)
  used_blocks =
      alloc_root-Allocated d whole (fresh.0) (1 + 3 * state_blocks b_size d) (fresh.2) (omega arith)
        (unfold room in empty.states)

  abbrev pub with_header : Bytes
  with_header = overwrite file 0 (header_of b_size (length file) (node_count d * 4))

  abbrev pub first_state : Bytes
  first_state = blank_state b_size (state_blocks b_size d * b_size) used_blocks.result

  abbrev pub formatted : Bytes
  formatted = overwrite with_header b_size (thrice first_state)

  node_count_lem : (nodes : Nodes) (t : Tree) → IsAllocator d t nodes → length nodes ≡ node_count d
  node_count_lem nodes t v = omega (arith, root-length v.place)

  pub capacity : shl1 d * b_size ≤ length file
  capacity =
      subst (λ n. n * b_size ≤ length file) empty.blocks (div-mul-le_self (length file) b_size)

  pub start : used_blocks.address ≡ 0
  start = take-whole d _ used_blocks.address used_blocks.tree used_blocks.taken

  pub state_fits : 8192 + node_count d * 4 ≤ state_blocks b_size d * b_size
  state_fits = to_blocks-fits b_size (state_bytes (node_count d * 4)) (omega (arith, empty.large))

  pub first_nodes-AllInt32 : AllInt32 used_blocks.result
  first_nodes-AllInt32 =
      AllInt32-alloc_root (fresh.0) used_blocks.result _ _
        (AllInt32-new_allocator_by_size (shl1 d) (fresh.0) size_small (fresh.1)) used_blocks.returns

  pub first_state-heads :
      (length first_state ≡ state_blocks b_size d * b_size)
      × (allocator_from_state (node_count d) first_state ≡ used_blocks.result)
      × ((id : ℕ) → 0 < id → id ≤ 2000 → head id first_state ≡ ok (2 ^ 32 - 1))
  first_state-heads =
      let len = node_count_lem used_blocks.result used_blocks.tree used_blocks.well_formed in
      let (long, back, heads) =
        blank_state-heads b_size (state_blocks b_size d * b_size) used_blocks.result
          first_nodes-AllInt32 (omega (arith, len, state_fits)) in
      (long, ap (λ n. allocator_from_state n first_state) (sym len) ∙ back, heads)

  pub header_fits : b_size ≤ length file
  header_fits = omega (arith, capacity, le-scaled 1 (shl1 d) b_size (shl1_pos d))

  pub room_for_states : b_size + 3 * (state_blocks b_size d * b_size) ≤ length with_header
  room_for_states = omega (
    arith,
    capacity,
    le-scaled (1 + 3 * state_blocks b_size d) (shl1 d) b_size empty.states,
    length-overwrite file 0 (header_of b_size (length file) (node_count d * 4)),
  )

  format-formatted : format b_size b_size file ≡ (ok tt, formatted)
  format-formatted =
      format-steps (fresh.0) used_blocks.result with_header formatted
        (node_count_lem (fresh.0) whole (fresh.2)) (ap new_allocator_by_size number ∙ fresh.1)
        (write_at-fits 0 (header_of b_size (length file) (node_count d * 4)) file (
          omega (
            arith,
            header_fits,
            length-header_of b_size (length file) empty.large (node_count d * 4),
          )))
        (ap (alloc_root (fresh.0)) first_blocks
          ∙ used_blocks.returns
          ∙ ap (λ a. some (ok (pos a), used_blocks.result)) start)
        (write_state-overwrite b_size _ first_state with_header (first_state-heads.0)
          room_for_states)
    where
      first_blocks : int32_of (1 + 3 * state_blocks b_size d) ≡ pos (1 + 3 * state_blocks b_size d)
      first_blocks = int32_of-small _ (omega (arith, empty.states, size_small))

      number : int32_of (length file / b_size) ≡ pos (shl1 d)
      number = ap int32_of empty.blocks ∙ int32_of-small (shl1 d) size_small

  header_block : take b_size with_header ≡ header_of b_size (length file) (node_count d * 4)
  header_block =
      let header = header_of b_size (length file) (node_count d * 4) in
      let long : length header ≡ b_size =
        length-header_of b_size (length file) empty.large (node_count d * 4) in
      ap (take b_size) (overwrite-front file header (omega (arith, long, header_fits)))
      ∙ ap (λ n. take n (header ++ drop (length header) file)) (sym long)
      ∙ take-append header (drop (length header) file)

  with_header-HasHeader : HasHeader b_size (sizes_of b_size (node_count d)) with_header
  with_header-HasHeader = record {
    fits = omega (
      arith,
      header_fits,
      length-overwrite file 0 (header_of b_size (length file) (node_count d * 4)),
    );
    magic =
        ap (λ s. bytes_eq (take 16 s) magic_header) header_block
        ∙ header_of-magic b_size (length file) empty.large (node_count d * 4);
    parses =
        ap (parse_header b_size) header_block
        ∙ parse_header-header_of b_size (length file) empty.large d (node_count d)
            (omega (arith, header_fits, empty.small)) empty.few (omega (arith, shl1_pos d));
  }

  pub formatted-HasHeader : HasHeader b_size (sizes_of b_size (node_count d)) formatted
  formatted-HasHeader =
      HasHeader-overwrite b_size (sizes_of b_size (node_count d)) with_header b_size
        (thrice first_state) (omega arith) with_header-HasHeader

  -- readHeader formats the file in its first turn, and reads it in the second.
  pub read_header-formatted :
      read_header b_size file ≡ (ok (sizes_of b_size (node_count d)), formatted)
  unfolding read_header find_header
  read_header-formatted =
      let no_magic : bytes_eq (take 16 (take b_size file)) magic_header ≡ false =
        ap (λ s. bytes_eq s magic_header) empty.zeros ∙ zeros-magic in
      let is_blank : bytes_eq (take 16 (take b_size file)) (replicate 16 0) ≡ true =
        ap (λ s. bytes_eq s (replicate 16 0)) empty.zeros ∙ bytes_eq_refl (replicate 16 0) in
      rw
        (
          read_header,
          find_header,
          read_at-fits file 0 b_size (omega (arith, header_fits)),
          no_magic,
          is_blank,
          format-formatted,
          read_at-fits formatted 0 b_size (omega (arith, formatted-HasHeader.fits)),
          formatted-HasHeader.magic,
          formatted-HasHeader.parses,
        )
        refl
