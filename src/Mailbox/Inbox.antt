-- ===== src/Mailbox/Inbox.antt =====
-- A file with the messages of one mailbox: the abstract view of what Send and Recv work on.
use csi_sanlock_lvm.Base.{
  ℕ, ◌+◌, ◌*◌, ◌/◌, ◌^◌, ◌≤◌, ◌<◌, ◌≡◌, ◌≢◌, sym, ap, ◌∙◌, List, Bytes, length, le-scaled, true, ok,
  arith,
}
use csi_sanlock_lvm.Allocator.Heap.{Nodes, shl1, new_allocator_by_node_cnt}
use csi_sanlock_lvm.Allocator.Tree.{Tree}
use csi_sanlock_lvm.Allocator.Blocks.{busy}
use csi_sanlock_lvm.Allocator.Root.{IsAllocator, root-length}
use csi_sanlock_lvm.Mailbox.Device.{overwrite, length-overwrite, put_uint32}
use csi_sanlock_lvm.Mailbox.Layout.{
  read_state, write_state, allocator_to_state, allocator_from_state,
}
use csi_sanlock_lvm.Mailbox.Header.{Sizes}
use csi_sanlock_lvm.Mailbox.State.{thrice}
use csi_sanlock_lvm.Mailbox.Torn.{write_state-overwrite, read_state-overwrite, length-thrice}
use csi_sanlock_lvm.Mailbox.Segments.{HasHeader, HasHeader-overwrite, read_at-after}
use csi_sanlock_lvm.Mailbox.Messages.{Codec, MailBoxMessage, head, head_from, put_head}
use csi_sanlock_lvm.Mailbox.Stored.{
  AllInt32, allocator_from_state-allocator_to_state, head-put_head,
}
use csi_sanlock_lvm.Mailbox.Chain.{Chain, Chain-same}

-- How the file is divided: the first `reserved` of its 2 ^ `d` blocks have the header and the three
-- states, and a state has room for the heads and the tree.
pub record Division (directio_block_size d reserved : ℕ) (sizes : Sizes) : Type 0 where
  pub first : directio_block_size ≤ sizes.b_size
  pub some_block : 0 < sizes.b_size
  pub small_block : sizes.b_size < 2 ^ 32
  pub blocks : reserved * sizes.b_size ≡ sizes.b_size + 3 * sizes.s_size
  pub room : 8192 + sizes.a_size ≤ sizes.s_size
  pub count : sizes.a_size / 4 + 1 ≡ 2 * shl1 d
  pub blank : Nodes
  pub makes : new_allocator_by_node_cnt (sizes.a_size / 4) ≡ ok blank
  pub same_count : length blank ≡ sizes.a_size / 4

module _ (directio_block_size : ℕ) (codec : Codec) (id d reserved : ℕ) (sizes : Sizes) where
  -- The file has the messages of the mailbox `id`, the last one sent first.
  pub record Inbox (msgs : List MailBoxMessage) (file : Bytes) : Type 0 where
    pub division : Division directio_block_size d reserved sizes
    pub header : HasHeader directio_block_size sizes file
    pub size : shl1 d * sizes.b_size ≤ length file
    pub states : reserved ≤ shl1 d
    pub state : Bytes
    pub reads : read_state sizes.b_size sizes.s_size file ≡ ok state
    pub whole_state : length state ≡ sizes.s_size
    pub nodes : Nodes
    pub tree : Tree
    pub base : Tree
    pub stored : allocator_from_state (sizes.a_size / 4) state ≡ nodes
    pub int32 : AllInt32 nodes
    pub valid : IsAllocator d tree nodes
    pub base_reserved : (i : ℕ) → i < reserved → busy d base i ≡ true
    pub addr : ℕ
    pub at_head : head id state ≡ ok addr
    pub chain : Chain codec sizes.b_size reserved d file base tree addr msgs

  -- The end of both Send and Recv: the allocator and the head go into the state, and the state is
  -- written.
  pub Inbox-write_state :
      (msgs : List MailBoxMessage) (file state : Bytes) (nodes : Nodes) (tree base : Tree)
      (addr : ℕ)
      → 0 < id
      → id ≤ 2000
      → addr < 2 ^ 32
      → Division directio_block_size d reserved sizes
      → HasHeader directio_block_size sizes file
      → shl1 d * sizes.b_size ≤ length file
      → reserved ≤ shl1 d
      → length state ≡ sizes.s_size
      → AllInt32 nodes
      → IsAllocator d tree nodes
      → ((i : ℕ) → i < reserved → busy d base i ≡ true)
      → Chain codec sizes.b_size reserved d file base tree addr msgs
      → (after : Bytes) × (write_state sizes.b_size sizes.s_size
            (put_head id addr (allocator_to_state nodes state))
            file
          ≡ (ok tt, after))
        × Inbox msgs after
  Inbox-write_state msgs file state nodes tree base addr hid hle small division header size states
        whole int32 valid base_reserved chain =
      (
        after,
        write_state-overwrite sizes.b_size sizes.s_size next file long fits,
        record {
          division = division;
          header =
              HasHeader-overwrite directio_block_size sizes file sizes.b_size (thrice next)
                division.first header;
          size = omega (arith, length-overwrite file sizes.b_size (thrice next));
          states = states;
          state = next;
          reads = read_state-overwrite sizes.b_size sizes.s_size next file long fits;
          whole_state = long;
          nodes = nodes;
          tree = tree;
          base = base;
          stored =
              ap (λ n. allocator_from_state n next) (sym count) ∙ kept.2 (length nodes) ∙ written.0;
          int32 = int32;
          valid = valid;
          base_reserved = base_reserved;
          addr = addr;
          at_head = kept.0;
          chain =
              Chain-same codec sizes.b_size reserved d file after base tree addr msgs
                (λ a behind in_range is_busy.
                  read_at-after file (a * sizes.b_size) sizes.b_size sizes.b_size (thrice next)
                    (far a behind))
                chain;
        },
      )
    where
      count : length nodes ≡ sizes.a_size / 4
      count = omega (arith, root-length valid.place, division.count)

      stored : Bytes
      stored = allocator_to_state nodes state

      next : Bytes
      next = put_head id addr stored

      written :
          (allocator_from_state (length nodes) stored ≡ nodes)
          × ((other : ℕ) → 0 < other → other ≤ 2000 → head other stored ≡ head other state)
          × (length stored ≡ length state)
      written =
          allocator_from_state-allocator_to_state nodes state int32
            (omega (arith, count, whole, division.room))

      kept :
          (head id next ≡ ok addr)
          × ((other : ℕ)
              → 0 < other
              → other ≤ 2000
              → other ≢ id
              → head other next ≡ head other stored)
          × ((n : ℕ) → allocator_from_state n next ≡ allocator_from_state n stored)
      kept =
          head-put_head id addr stored hid hle small
            (omega (arith, written.2, whole, division.room))

      long : length next ≡ sizes.s_size
      long = length-overwrite stored (head_from id) (put_uint32 addr) ∙ written.2 ∙ whole

      after : Bytes
      after = overwrite file sizes.b_size (thrice next)

      fits : sizes.b_size + 3 * sizes.s_size ≤ length file
      fits = omega (arith, division.blocks, le-scaled reserved (shl1 d) sizes.b_size states)

      far : (a : ℕ) → reserved ≤ a → sizes.b_size + length (thrice next) ≤ a * sizes.b_size
      far a behind = omega (
        arith,
        division.blocks,
        length-thrice next sizes.s_size long,
        le-scaled reserved a sizes.b_size behind,
      )
