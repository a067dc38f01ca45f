-- ===== src/Mailbox/Chain.antt =====
-- The list of messages of a mailbox, from its head on, and what the loop of Recv makes of it.
use csi_sanlock_lvm.Base.{
  ap, ◌∙◌, ◌+◌, ◌*◌, ℕ, zero, suc, ◌%◌, ◌^◌, ◌≤◌, ◌<◌, ◌≡◌, refl, subst, List, [], ◌∷◌, map, Bytes,
  length, true, false, some, ok, arith,
}
use csi_sanlock_lvm.Base.Int.{pos, int32_of, int32_of-small}
use csi_sanlock_lvm.Allocator.Heap.{shl1, Nodes, free_root}
use csi_sanlock_lvm.Allocator.Tree.{Tree, give}
use csi_sanlock_lvm.Allocator.Root.{IsAllocator, RootFreed, free_root_lem}
use csi_sanlock_lvm.Mailbox.Messages.{Message, MailBoxMessage, Codec, is_null, drain, padded}
use csi_sanlock_lvm.Mailbox.Stored.{AllInt32}
use csi_sanlock_lvm.Mailbox.Device.{read_at}
use csi_sanlock_lvm.Mailbox.Segments.{read_message-padded}
use csi_sanlock_lvm.Allocator.Blocks.{busy}
use csi_sanlock_lvm.Mailbox.Draining.{used_count, give-one_less}
use csi_sanlock_lvm.Mailbox.Giving.{give-Given}
use csi_sanlock_lvm.Mailbox.Range.{AllInt32-free_root}

module _ (codec : Codec) where
  -- What the message at `addr` is, and the blocks that are left when it has been given back. The first
  -- `reserved` blocks of the file are no message's.
  pub record Link (b_size reserved d : ℕ) (file : Bytes) (addr : ℕ) (m : MailBoxMessage)
      (t t' : Tree) : Type 0 where
    pub small : addr < 2 ^ 31
    pub behind : reserved ≤ addr
    pub buf : Bytes
    pub short : 4 + length buf ≤ b_size
    pub small_buf : length buf < 2 ^ 32
    pub stored : read_at file (addr * b_size) b_size ≡ ok (padded b_size buf)
    pub decodes : codec.unmarshal buf ≡ some m
    pub gives : give d t addr ≡ some t'

  -- The messages from `addr` on; `base` is left when all have been given back.
  abbrev pub Chain : ℕ → ℕ → ℕ → Bytes → Tree → Tree → ℕ → List MailBoxMessage → Type 0
  Chain b_size reserved d file base t addr [] = (t ≡ base) × (is_null addr ≡ true)
  Chain b_size reserved d file base t addr (m ∷ msgs) =
      (t' : Tree) × Link b_size reserved d file addr m t t'
      × Chain b_size reserved d file base t' m.next msgs

  -- The same messages are in a file whose blocks of messages are the same.
  pub Chain-same :
      (b_size reserved d : ℕ) (file after : Bytes) (base t : Tree) (addr : ℕ)
      (msgs : List MailBoxMessage)
      → ((a : ℕ)
          → reserved ≤ a
          → a < shl1 d
          → busy d t a ≡ true
          → read_at after (a * b_size) b_size ≡ read_at file (a * b_size) b_size)
      → Chain b_size reserved d file base t addr msgs
      → Chain b_size reserved d after base t addr msgs
  Chain-same b_size reserved d file after base t addr [] same c = c
  Chain-same b_size reserved d file after base t addr (m ∷ msgs) same (t', l, more) =
      let given = give-Given d t t' addr l.gives in
      (
        t',
        record {
          small = l.small;
          behind = l.behind;
          buf = l.buf;
          short = l.short;
          small_buf = l.small_buf;
          stored = same addr l.behind given.in_range given.was_busy ∙ l.stored;
          decodes = l.decodes;
          gives = l.gives;
        },
        Chain-same b_size reserved d file after base t' m.next msgs
            (λ a behind in_range is_busy. same a behind in_range (given.fewer a is_busy)) more,
      )

  -- What is allocated in the end is allocated at first.
  pub Chain-base :
      (b_size reserved d : ℕ) (file : Bytes) (base t : Tree) (addr : ℕ) (msgs : List MailBoxMessage)
      (i : ℕ)
      → Chain b_size reserved d file base t addr msgs
      → busy d base i ≡ true
      → busy d t i ≡ true
  Chain-base b_size reserved d file base t addr [] i (same, null) h = ap (λ t. busy d t i) same ∙ h
  Chain-base b_size reserved d file base t addr (m ∷ msgs) i (t', l, more) h =
      (give-Given d t t' addr l.gives).fewer i
        (Chain-base b_size reserved d file base t' m.next msgs i more h)

  -- No more messages than allocated segments.
  pub Chain-length :
      (b_size reserved d : ℕ) (file : Bytes) (base t : Tree) (addr : ℕ) (msgs : List MailBoxMessage)
      → Chain b_size reserved d file base t addr msgs
      → length msgs ≤ used_count t
  Chain-length b_size reserved d file base t addr [] c = omega arith
  Chain-length b_size reserved d file base t addr (m ∷ msgs) (t', l, more) = omega (
    arith,
    give-one_less d t t' addr l.gives,
    Chain-length b_size reserved d file base t' m.next msgs more,
  )

module _ (directio_block_size : ℕ) (codec : Codec) (local_id : ℕ) where
  abbrev pub received : MailBoxMessage → Message
  received m = record { sender = m.sender % 2 ^ 16; recipient = local_id; payload = m.payload }

  -- The outcome of the loop: all messages, and the blocks given back.
  pub record Drained (fuel b_size d : ℕ) (file : Bytes) (base : Tree) (addr : ℕ) (nodes : Nodes)
      (msgs : List MailBoxMessage) : Type 0 where
    pub rest : Nodes
    pub returns :
        drain directio_block_size codec local_id fuel b_size file addr nodes
        ≡ ok (map received msgs, rest)
    pub valid : IsAllocator d base rest
    pub int32 : AllInt32 rest

  module _ (b_size reserved d : ℕ) (file : Bytes) (base : Tree) where
    drain-null :
        (fuel addr : ℕ) (nodes : Nodes)
        → is_null addr ≡ true
        → drain directio_block_size codec local_id fuel b_size file addr nodes ≡ ok ([], nodes)
    unfolding drain
    drain-null zero addr nodes h = rw h refl
    drain-null (suc fuel) addr nodes h = rw (drain, h) refl

    -- One turn, by what the turns after it give.
    drain-Link :
        (fuel addr : ℕ) (nodes freed : Nodes) (m : MailBoxMessage) (t t' : Tree)
        (msgs : List Message) (rest : Nodes)
        → Link codec b_size reserved d file addr m t t'
        → free_root nodes (pos addr) ≡ some (ok tt, freed)
        → drain directio_block_size codec local_id fuel b_size file m.next freed ≡ ok (msgs, rest)
        → drain directio_block_size codec local_id (suc fuel) b_size file addr nodes
          ≡ ok (received m ∷ msgs, rest)
    unfolding drain
    drain-Link fuel addr nodes freed m t t' msgs rest l f e =
        let there : is_null addr ≡ false = ground (arith, l.small) in
        let at : int32_of addr ≡ pos addr = int32_of-small addr l.small in
        let reads =
          read_message-padded directio_block_size codec local_id b_size addr l.buf file l.short
            l.small_buf l.stored in
        rw (drain, there, at, reads, l.decodes, at, f, e) refl

    -- With fuel for all its messages, the loop returns them from the head on.
    pub drain-Chain :
        (fuel addr : ℕ) (t : Tree) (nodes : Nodes) (msgs : List MailBoxMessage)
        → length msgs ≤ fuel
        → IsAllocator d t nodes
        → AllInt32 nodes
        → Chain codec b_size reserved d file base t addr msgs
        → Drained fuel b_size d file base addr nodes msgs
    drain-Chain fuel addr t nodes [] enough v h (same, null) = record {
      rest = nodes;
      returns = drain-null fuel addr nodes null;
      valid = subst (λ t. IsAllocator d t nodes) same v;
      int32 = h;
    }
    drain-Chain zero addr t nodes (m ∷ msgs) enough v h c = absurd (omega arith)
    drain-Chain (suc fuel) addr t nodes (m ∷ msgs) enough v h (t', l, more) =
        let (freed, frees, v') =
          subst (RootFreed d nodes addr) l.gives (free_root_lem d t nodes addr v l.small) in
        let after =
          drain-Chain fuel m.next t' freed msgs (omega arith) v'
            (AllInt32-free_root nodes freed (pos addr) (ok tt) h frees) more in
        record {
          rest = after.rest;
          returns =
              drain-Link fuel addr nodes freed m t t' (map received msgs) after.rest l frees
                after.returns;
          valid = after.valid;
          int32 = after.int32;
        }
