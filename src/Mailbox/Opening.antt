-- ===== src/Mailbox/Opening.antt =====
-- A mailbox that is opened on an empty device (`NewMailBox`, `readHeader` and `format` of
-- pkg/diskrpc/mailbox.go).
use csi_sanlock_lvm.Allocator.Positions.{shl1_pos}
use csi_sanlock_lvm.Base.{
  ℕ, ◌+◌, ◌-◌, ◌*◌, ◌/◌, ◌^◌, ◌≤◌, ◌<◌, ◌≡◌, refl, sym, ap, ◌∙◌, subst, [], Bytes, length, ok,
  arith, true,
}
use csi_sanlock_lvm.Allocator.Heap.{shl1}
use csi_sanlock_lvm.Allocator.Tree.{room}
use csi_sanlock_lvm.Allocator.Blocks.{busy}
use csi_sanlock_lvm.Mailbox.Device.{length-overwrite}
use csi_sanlock_lvm.Mailbox.Layout.{allocator_from_state}
use csi_sanlock_lvm.Mailbox.Header.{header_of}
use csi_sanlock_lvm.Mailbox.State.{thrice}
use csi_sanlock_lvm.Mailbox.Torn.{read_state-overwrite}
use csi_sanlock_lvm.Mailbox.Messages.{Codec, new_mail_box_id, new_mail_box}
use csi_sanlock_lvm.Mailbox.Blank.{new_allocator_by_node_cnt-length, take-room}
use csi_sanlock_lvm.Mailbox.Formatting.{sizes_of}
use csi_sanlock_lvm.Mailbox.Inbox.{Division, Inbox}
use csi_sanlock_lvm.Mailbox.Formatted.{
  IsEmptyDevice, node_count, state_blocks, used_blocks, with_header, first_state-heads,
  first_nodes-AllInt32, first_state, formatted-HasHeader, read_header-formatted, formatted,
  capacity, room_for_states, start, header_fits, state_fits,
}

module _ (b_size d : ℕ) (file : Bytes) (empty : IsEmptyDevice b_size d file) where
  division : Division b_size d (1 + 3 * state_blocks b_size d) (sizes_of b_size (node_count d))
  division =
      let (blank, makes, same_count) =
        new_allocator_by_node_cnt-length d (node_count d * 4 / 4) (omega (arith, empty.few))
          (omega (arith, shl1_pos d)) in
      record {
        first = omega arith;
        some_block = omega (arith, empty.large);
        small_block = omega (arith, (header_fits b_size d file empty), empty.small);
        blocks = omega arith;
        room = (state_fits b_size d file empty);
        count = omega (arith, shl1_pos d);
        blank = blank;
        makes = makes;
        same_count = same_count;
      }

  reserved_busy :
      (i : ℕ)
      → i < 1 + 3 * state_blocks b_size d
      → busy d (used_blocks b_size d file empty).tree i ≡ true
  reserved_busy i h =
      (used_blocks b_size d file empty).takes.now_busy i (omega (arith, empty.states))
      ∙ ground (arith, (start b_size d file empty), (used_blocks b_size d file empty).takes.enough)

  formatted-Inbox :
      (codec : Codec) (id : ℕ)
      → 0 < id
      → id ≤ 2000
      → (box : Inbox b_size codec id d
          (1 + 3 * state_blocks b_size d)
          (sizes_of b_size (node_count d))
          []
          (formatted b_size d file empty))
        × (box.tree ≡ (used_blocks b_size d file empty).tree)
  formatted-Inbox codec id hid hle =
      let (long, stored, heads) = (first_state-heads b_size d file empty) in
      (
        record {
          division = division;
          header = (formatted-HasHeader b_size d file empty);
          size = omega (
            arith,
            (capacity b_size d file empty),
            length-overwrite file 0 (header_of b_size (length file) (node_count d * 4)),
            length-overwrite (with_header b_size d file empty) b_size
                (thrice (first_state b_size d file empty)),
          );
          states = empty.states;
          state = (first_state b_size d file empty);
          reads =
              read_state-overwrite b_size (state_blocks b_size d * b_size)
                (first_state b_size d file empty) (with_header b_size d file empty) long
                (room_for_states b_size d file empty);
          whole_state = long;
          nodes = (used_blocks b_size d file empty).result;
          tree = (used_blocks b_size d file empty).tree;
          base = (used_blocks b_size d file empty).tree;
          stored =
              ap (λ n. allocator_from_state n (first_state b_size d file empty)) (omega arith)
              ∙ stored;
          int32 = (first_nodes-AllInt32 b_size d file empty);
          valid = (used_blocks b_size d file empty).well_formed;
          base_reserved = reserved_busy;
          addr = 2 ^ 32 - 1;
          at_head = heads id hid hle;
          chain = (refl, refl);
        },
        refl,
      )

  opened :
      (local_id : ℕ)
      → 0 < local_id
      → local_id ≤ 2000
      → new_mail_box b_size local_id file ≡ (ok local_id, (formatted b_size d file empty))
  unfolding new_mail_box new_mail_box_id
  opened local_id hid hle =
      let valid_id : new_mail_box_id local_id ≡ ok local_id = ground arith in
      rw (new_mail_box, valid_id, (read_header-formatted b_size d file empty)) refl

  -- NewMailBox with an id from 1 to 2000, on a device of less than 2 GiB whose first 16 bytes are 0, of
  -- 2 ^ `d` whole blocks (`d` at most 28) of at least 30 bytes, in which the header and the three states
  -- have room, succeeds and formats it: afterwards no mailbox has a message.
  pub new_mail_box-Inbox :
      (codec : Codec) (local_id : ℕ)
      → 0 < local_id
      → local_id ≤ 2000
      → (after : Bytes) × (new_mail_box b_size local_id file ≡ (ok local_id, after))
        × ((id : ℕ)
            → 0 < id
            → id ≤ 2000
            → Inbox b_size codec id d
                (1 + 3 * state_blocks b_size d)
                (sizes_of b_size (node_count d))
                []
                after)
  new_mail_box-Inbox codec local_id hid hle = (
    (formatted b_size d file empty),
    opened local_id hid hle,
    λ id h k. (formatted-Inbox codec id h k).0,
  )

  -- Where the header and the states take less than half of the device, a block is free afterwards.
  pub new_mail_box-room :
      (codec : Codec) (local_id id : ℕ)
      → 0 < local_id
      → local_id ≤ 2000
      → 0 < id
      → id ≤ 2000
      → 2 * (1 + 3 * state_blocks b_size d) ≤ shl1 d
      → (after : Bytes) × (new_mail_box b_size local_id file ≡ (ok local_id, after))
        × (box : Inbox b_size codec id d
            (1 + 3 * state_blocks b_size d)
            (sizes_of b_size (node_count d))
            []
            after)
        × (1 ≤ room d box.tree)
  new_mail_box-room codec local_id id hid hle h k half =
      let (box, same) = formatted-Inbox codec id h k in
      (
        (formatted b_size d file empty),
        opened local_id hid hle,
        box,
        subst (λ t. 1 ≤ room d t) (sym same)
            (take-room d _ (used_blocks b_size d file empty).address
              (used_blocks b_size d file empty).tree (omega arith) half
              (used_blocks b_size d file empty).taken),
      )
