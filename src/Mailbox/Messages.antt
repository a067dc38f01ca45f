-- ===== src/Mailbox/Messages.antt =====
-- Sending and receiving in pkg/diskrpc/mailbox.go (`NewMailBox`, `Send`, `Recv`).
use csi_sanlock_lvm.Base.{
  ℕ, zero, suc, ◌+◌, ◌-◌, ◌*◌, ◌/◌, ◌%◌, ◌^◌, Bytes, take, drop, length, leb, ltb, ◌==◌, not, ◌||◌,
  Bool, true, false, Option, none, some, List, [], ◌∷◌, Result, ok, err, unknown, internal,
  replicate, if◌then◌else◌,
}
use csi_sanlock_lvm.Base.Int.{ℤ, pos, negsuc, int32_of}
use csi_sanlock_lvm.Base.Exec.{Exec, pure, raise, lift, ◌>>=◌, ◌>>◌}
use csi_sanlock_lvm.Allocator.Heap.{Nodes, alloc_root, free_root, new_allocator_by_node_cnt}
use csi_sanlock_lvm.Mailbox.Device.{read_at, write_at, overwrite, put_uint32, uint32}
use csi_sanlock_lvm.Mailbox.Layout.{
  to_blocks, uint32_of, read_state, write_state, allocator_to_state, allocator_from_state,
}
use csi_sanlock_lvm.Mailbox.Header.{reading, settle, read_header}

-- A mailbox id is a uint16.
pub record Message : Type 0 where
  pub sender : ℕ
  pub recipient : ℕ
  pub payload : Bytes

-- The message on disk; `next` is the address of the one before it.
pub record MailBoxMessage : Type 0 where
  pub sender : ℕ
  pub length : ℕ
  pub payload : Bytes
  pub next : ℕ

-- proto.Marshal and proto.Unmarshal.
pub record Codec : Type 0 where
  pub marshal : MailBoxMessage → Option Bytes
  pub unmarshal : Bytes → Option MailBoxMessage

unfoldable pub new_mail_box_id : ℕ → Result ℕ
new_mail_box_id local_id = if (local_id == 0) || ltb 2000 local_id then err unknown else ok local_id

-- NewMailBox on the file that it opens, which is formatted if it is empty.
unfoldable pub new_mail_box : ℕ → ℕ → Exec Bytes ℕ
unfolding new_mail_box_id
new_mail_box directio_block_size local_id = do
  id ← lift (new_mail_box_id local_id)
  read_header directio_block_size
  pure id

-- The bounds of the slice that is the head of the mailbox `id`, both computed on uint16.
abbrev pub head_from : ℕ → ℕ
head_from id = (192 + 4 * (id + 2 ^ 16 - 1)) % 2 ^ 16

abbrev pub head_to : ℕ → ℕ
head_to id = (192 + 4 * (id + 2 ^ 16 - 1) + 4) % 2 ^ 16

-- Slicing out of range is a panic.
unfoldable pub head : ℕ → Bytes → Result ℕ
head id state =
    if leb (head_from id) (head_to id)
    then (if leb (head_to id) (length state)
        then ok (uint32 (drop (head_from id) state))
        else err internal)
    else err internal

abbrev pub put_head : ℕ → ℕ → Bytes → Bytes
put_head id addr state = overwrite state (head_from id) (put_uint32 addr)

unfoldable pub read_chunk : ℤ → ℕ → ℕ → Bytes → Result Bytes
read_chunk (negsuc n) b_size len file = err unknown
read_chunk (pos addr) b_size len file = read_at file (addr * b_size) len

-- Seek and Write.
abbrev pub write_chunk : ℤ → ℕ → Bytes → Exec Bytes (Unit {0})
write_chunk (negsuc n) b_size buf = raise unknown
write_chunk (pos addr) b_size buf = write_at (addr * b_size) buf

abbrev must : {A : Type 0} → Option A → Result A
must none = err unknown
must (some a) = ok a

abbrev pub is_null : ℕ → Bool
is_null addr = leb (2 ^ 31) (addr % 2 ^ 32)

-- What is written for an encoded message: its length, the message, and zeros up to a whole block.
abbrev pub padded : ℕ → Bytes → Bytes
padded size buf = overwrite (overwrite (replicate size 0) 0 (put_uint32 (length buf))) 4 buf

module _ (directio_block_size : ℕ) (codec : Codec) (local_id : ℕ) where
  unfoldable pub send : Message → Exec Bytes (Unit {0})
  unfolding to_blocks
  send msg = do
    sizes ← read_header directio_block_size
    state ← reading (read_state sizes.b_size sizes.s_size)
    blank ← lift (new_allocator_by_node_cnt (sizes.a_size / 4))
    let nodes = allocator_from_state (length blank) state
    last ← lift (head recipient state)
    buf ← lift (
        must (
          codec.marshal (record {
            sender = local_id;
            length = length msg.payload % 2 ^ 32;
            payload = msg.payload;
            next = last;
          })))
    let p_blocks = to_blocks sizes.b_size (4 + length buf)
    (addr, nodes') ← lift (settle (alloc_root nodes (int32_of p_blocks)))
    write_chunk addr sizes.b_size (padded (p_blocks * sizes.b_size) buf)
    write_state sizes.b_size sizes.s_size
        (put_head recipient (uint32_of addr) (allocator_to_state nodes' state))
    where
      recipient : ℕ
      recipient = if msg.recipient == 0 then local_id else msg.recipient

  -- The bytes from which the message at `addr` is decoded. Of a message that does not fit its first
  -- block these are the blocks from the length on.
  unfoldable pub read_message : ℕ → ℤ → Bytes → Result Bytes
  read_message b_size addr file = elim (read_chunk addr b_size b_size file) [
    | err e ↦ err e
    | ok first ↦
        let len = uint32 first in
        if leb len (length first - 4)
        then ok (take len (drop 4 first))
        else read_chunk addr b_size (((len - 1) / b_size + 1) * b_size) file
  ]

  -- The loop over the list of messages. Fuel that has run out is the code `internal`, as a panic is.
  unfoldable pub drain : ℕ → ℕ → Bytes → ℕ → Nodes → Result (List Message × Nodes)
  drain zero b_size file addr nodes = if is_null addr then ok ([], nodes) else err internal
  drain (suc fuel) b_size file addr nodes = elim (is_null addr) [
    | true ↦ ok ([], nodes)
    | false ↦ elim (read_message b_size (int32_of addr) file) [
      | err e ↦ err e
      | ok buf ↦ elim (codec.unmarshal buf) [
        | none ↦ err unknown
        | some m ↦ elim (settle (free_root nodes (int32_of addr))) [
          | err e ↦ err e
          | ok (_, freed) ↦ elim (drain fuel b_size file m.next freed) [
            | err e ↦ err e
            | ok (msgs, rest) ↦ ok (
              record { sender = m.sender % 2 ^ 16; recipient = local_id; payload = m.payload }
                  ∷ msgs,
              rest,
            )
          ]
        ]
      ]
    ]
  ]

  -- The part of Recv under the lock.
  unfoldable pub receive_locked : Exec Bytes (List Message)
  receive_locked = do
    sizes ← read_header directio_block_size
    state ← reading (read_state sizes.b_size sizes.s_size)
    blank ← lift (new_allocator_by_node_cnt (sizes.a_size / 4))
    let nodes = allocator_from_state (length blank) state
    first ← lift (head local_id state)
    (msgs, freed) ← reading (λ file. drain (suc (length nodes)) sizes.b_size file first nodes)
    write_state sizes.b_size sizes.s_size
        (put_head local_id (2 ^ 32 - 1) (allocator_to_state freed state))
    pure msgs

  -- The part of Recv before the lock: whether there is a message. Other nodes write meanwhile.
  unfoldable pub has_messages : Exec Bytes Bool
  has_messages = do
    sizes ← read_header directio_block_size
    state ← reading (read_state sizes.b_size sizes.s_size)
    first ← lift (head local_id state)
    pure (not (is_null first))

  -- Recv, of which the others see the file between its two parts: `meanwhile` is what they do to it.
  unfoldable pub recv : (Bytes → Bytes) → Exec Bytes (List Message)
  recv meanwhile = do
    some_message ← has_messages
    wait
    if some_message then receive_locked else pure []
    where
      wait : Exec Bytes (Unit {0})
      wait file = (ok tt, meanwhile file)
