-- ===== src/Mailbox/Sending.antt =====
-- Send on a file with the messages of one mailbox.
use native.Mathlib.Nat.{div-eq_of_lt}
use csi_sanlock_lvm.Base.{
  ℕ, suc, ◌+◌, ◌*◌, ◌/◌, ◌%◌, ◌^◌, ◌≤◌, ◌<◌, ◌≡◌, ◌≢◌, refl, sym, ap, ◌∙◌, List, ◌∷◌, Bytes, dec_lt,
  length, le-scaled, false, some, ok, arith, if◌then◌else◌, ◌==◌,
}
use csi_sanlock_lvm.Base.Int.{pos, int32_of-small}
use csi_sanlock_lvm.Allocator.Heap.{Nodes, shl1, alloc_root, new_allocator_by_node_cnt}
use csi_sanlock_lvm.Allocator.Positions.{shl1_pos}
use csi_sanlock_lvm.Allocator.Tree.{room}
use csi_sanlock_lvm.Allocator.Blocks.{busy}
use csi_sanlock_lvm.Allocator.Root.{root-length, Allocated, alloc_root-Allocated}
use csi_sanlock_lvm.Mailbox.Device.{read_at, write_at, overwrite, length-overwrite}
use csi_sanlock_lvm.Mailbox.Layout.{
  to_blocks, read_state, write_state, uint32_of, allocator_to_state, allocator_from_state,
}
use csi_sanlock_lvm.Mailbox.Header.{Sizes, read_header}
use csi_sanlock_lvm.Mailbox.Torn.{write_at-fits}
use csi_sanlock_lvm.Mailbox.Segments.{
  HasHeader-overwrite, read_header-HasHeader, read_at-after, read_at-overwrite, read_at-before,
  length-padded,
}
use csi_sanlock_lvm.Mailbox.Messages.{Codec, Message, MailBoxMessage, head, put_head, padded, send}
use csi_sanlock_lvm.Mailbox.Range.{AllInt32-alloc_root}
use csi_sanlock_lvm.Mailbox.Chain.{Chain, Chain-same, Chain-base, Link}
use csi_sanlock_lvm.Mailbox.Inbox.{Inbox, Inbox-write_state}

-- The message on disk.
abbrev pub stored_message : ℕ → Message → ℕ → MailBoxMessage
stored_message sender msg next = record {
  sender = sender;
  length = length msg.payload % 2 ^ 32;
  payload = msg.payload;
  next = next;
}

-- The mailbox that a message is for.
abbrev pub addressee : ℕ → Message → ℕ
addressee sender msg = if msg.recipient == 0 then sender else msg.recipient

to_blocks-one : (b size : ℕ) → 0 < size → size ≤ b → to_blocks b size ≡ 1
unfolding to_blocks
to_blocks-one b size some_size fits = ap (λ n. n + 1) (div-eq_of_lt (omega arith))

uint32_of-small : (n : ℕ) → n < 2 ^ 32 → uint32_of (pos n) ≡ n
unfolding uint32_of
uint32_of-small n h = omega arith

module _ (directio_block_size : ℕ) (codec : Codec) (id d reserved : ℕ) (sizes : Sizes) where
  -- The calls of `send`, by what each of them gives.
  send-steps :
      (sender : ℕ) (msg : Message) (file written after state buf : Bytes)
      (blank nodes nodes' : Nodes) (next addr : ℕ)
      → addressee sender msg ≡ id
      → read_header directio_block_size file ≡ (ok sizes, file)
      → read_state sizes.b_size sizes.s_size file ≡ ok state
      → new_allocator_by_node_cnt (sizes.a_size / 4) ≡ ok blank
      → allocator_from_state (length blank) state ≡ nodes
      → head id state ≡ ok next
      → codec.marshal (stored_message sender msg next) ≡ some buf
      → to_blocks sizes.b_size (4 + length buf) ≡ 1
      → alloc_root nodes (pos 1) ≡ some (ok (pos addr), nodes')
      → write_at (addr * sizes.b_size) (padded (1 * sizes.b_size) buf) file ≡ (ok tt, written)
      → write_state sizes.b_size sizes.s_size
          (put_head id (uint32_of (pos addr)) (allocator_to_state nodes' state))
          written
        ≡ (ok tt, after)
      → send directio_block_size codec sender msg file ≡ (ok tt, after)
  unfolding send
  send-steps sender msg file written after state buf blank nodes nodes' next addr who a b c e f g
        one i j k =
      rw (send, a, b, c, e, who, f, g, one, int32_of-small 1 (omega arith), i, j, k) refl

  -- What a write of one block leaves of the blocks.
  module _ (file : Bytes) (addr : ℕ) (block : Bytes) (one_block : length block ≡ sizes.b_size)
      (fits : addr * sizes.b_size + sizes.b_size ≤ length file) where
    abbrev with_block : Bytes
    with_block = overwrite file (addr * sizes.b_size) block

    with_block-reads : read_at with_block (addr * sizes.b_size) sizes.b_size ≡ ok block
    with_block-reads =
        ap (read_at with_block (addr * sizes.b_size)) (sym one_block)
        ∙ read_at-overwrite file (addr * sizes.b_size) block (omega arith)

    with_block-other :
        (a : ℕ)
        → a ≢ addr
        → read_at with_block (a * sizes.b_size) sizes.b_size
          ≡ read_at file (a * sizes.b_size) sizes.b_size
    with_block-other a differ = elim (dec_lt a addr) [
      | yes below ↦
          read_at-before file (a * sizes.b_size) sizes.b_size _ block
            (omega (arith, le-scaled (suc a) addr sizes.b_size below))
      | no above ↦
          read_at-after file (a * sizes.b_size) sizes.b_size _ block
            (omega (arith, le-scaled (suc addr) a sizes.b_size (omega arith)))
    ]

  -- Send, on a formatted file, to a mailbox from 1 to 2000 whose messages each fit one block: it succeeds and puts the message in front of
  -- those that are in that mailbox. The message is encoded without loss and fits a block, and a block is
  -- free.
  pub send-Inbox :
      (sender : ℕ) (msg : Message) (msgs : List MailBoxMessage) (file buf : Bytes)
      → 0 < id
      → id ≤ 2000
      → addressee sender msg ≡ id
      → (box : Inbox directio_block_size codec id d reserved sizes msgs file)
      → codec.marshal (stored_message sender msg box.addr) ≡ some buf
      → codec.unmarshal buf ≡ some (stored_message sender msg box.addr)
      → 4 + length buf ≤ sizes.b_size
      → 1 ≤ room d box.tree
      → (after : Bytes) × (send directio_block_size codec sender msg file ≡ (ok tt, after))
        × Inbox directio_block_size codec id d reserved sizes
            (stored_message sender msg box.addr ∷ msgs)
            after
  send-Inbox sender msg msgs file buf hid hle who box encodes decodes short has_room =
      let (after, writes, next) =
        Inbox-write_state directio_block_size codec id d reserved sizes
          (stored_message sender msg box.addr ∷ msgs) written box.state k.result k.tree box.base
          k.address hid hle (omega (arith, small)) box.division
          (HasHeader-overwrite directio_block_size sizes file _ block
            (omega (arith, far, box.division.first)) box.header)
          (omega (arith, length-overwrite file (k.address * sizes.b_size) block, box.size))
          box.states box.whole_state
          (AllInt32-alloc_root box.nodes k.result (pos 1) (ok (pos k.address)) box.int32 k.returns)
          k.well_formed box.base_reserved chain in
      (
        after,
        send-steps sender msg file written after box.state buf box.division.blank box.nodes k.result
            box.addr k.address who (read_header-HasHeader directio_block_size sizes file box.header)
            box.reads box.division.makes
            (ap (λ n. allocator_from_state n box.state) box.division.same_count ∙ box.stored)
            box.at_head encodes one_block k.returns
            (write_at-fits (k.address * sizes.b_size) block file (omega (arith, fits, long)))
            (ap
                (λ a.
                  write_state sizes.b_size sizes.s_size
                    (put_head id a (allocator_to_state k.result box.state)) written)
                pointer
              ∙ writes),
        next,
      )
    where
      k : Allocated d box.tree box.nodes 1
      k = alloc_root-Allocated d box.tree box.nodes 1 box.valid (omega arith) has_room

      block : Bytes
      block = padded (1 * sizes.b_size) buf

      written : Bytes
      written = overwrite file (k.address * sizes.b_size) block

      one_block : to_blocks sizes.b_size (4 + length buf) ≡ 1
      one_block = to_blocks-one sizes.b_size (4 + length buf) (omega arith) short

      in_range : k.address < shl1 d
      in_range = omega (arith, k.takes.in_range, shl1_pos k.takes.order)

      small : k.address < 2 ^ 31
      small = omega (arith, in_range, root-length box.valid.place, box.valid.place.bounded)

      was_free : busy d box.tree k.address ≡ false
      was_free = k.takes.was_free k.address (ground (arith, shl1_pos k.takes.order))

      behind : reserved ≤ k.address
      behind = elim (dec_lt k.address reserved) [
        | yes inside ↦ absurd (
            ground (
              arith,
              was_free,
              Chain-base codec sizes.b_size reserved d file box.base box.tree box.addr msgs
                  k.address box.chain (box.base_reserved k.address inside),
            ))
        | no outside ↦ omega arith
      ]

      far : sizes.b_size + 3 * sizes.s_size ≤ k.address * sizes.b_size
      far = omega (arith, box.division.blocks, le-scaled reserved k.address sizes.b_size behind)

      fits : k.address * sizes.b_size + sizes.b_size ≤ length file
      fits = omega (arith, box.size, le-scaled (suc k.address) (shl1 d) sizes.b_size in_range)

      long : length block ≡ sizes.b_size
      long = length-padded (1 * sizes.b_size) buf ∙ omega arith

      pointer : uint32_of (pos k.address) ≡ k.address
      pointer = uint32_of-small k.address (omega (arith, small))

      link :
          Link codec sizes.b_size reserved d written k.address
            (stored_message sender msg box.addr)
            k.tree
            box.tree
      link = record {
        small = small;
        behind = behind;
        buf = buf;
        short = short;
        small_buf = omega (arith, box.division.small_block);
        stored =
            with_block-reads file k.address block long fits
            ∙ ap (λ n. ok (padded n buf)) (omega arith);
        decodes = decodes;
        gives = k.gives_back;
      }

      chain :
          Chain codec sizes.b_size reserved d written box.base k.tree k.address
            (stored_message sender msg box.addr ∷ msgs)
      chain = (
        box.tree,
        link,
        Chain-same codec sizes.b_size reserved d file written box.base box.tree box.addr msgs
            (λ a above below is_busy.
              with_block-other file k.address block long fits a
                (λ e. ground (arith, is_busy, was_free, ap (busy d box.tree) e)))
            box.chain,
      )
