-- ===== src/Examples/Deliveries.antt =====
-- A device of 64 blocks, opened by one node, on which another one sends a message.
use csi_sanlock_lvm.Base.{
  ℕ, ◌+◌, ◌*◌, ◌≤◌, ◌<◌, ◌≡◌, refl, [], ◌∷◌, Bytes, codes, some, none, Option, ok, length,
  replicate, length-replicate, arith,
}
use csi_sanlock_lvm.Allocator.Heap.{shl1}
use csi_sanlock_lvm.Allocator.Tree.{room}
use csi_sanlock_lvm.Mailbox.Layout.{to_blocks}
use csi_sanlock_lvm.Mailbox.Messages.{Codec, Message, MailBoxMessage, new_mail_box, send}
use csi_sanlock_lvm.Mailbox.Formatting.{sizes_of}
use csi_sanlock_lvm.Mailbox.Inbox.{Inbox}
use csi_sanlock_lvm.Mailbox.Formatted.{IsEmptyDevice, node_count, state_blocks}
use csi_sanlock_lvm.Mailbox.Opening.{new_mail_box-Inbox, new_mail_box-room}
use csi_sanlock_lvm.Mailbox.Sending.{stored_message, send-Inbox}

abbrev device : Bytes
device = replicate 65536 0

long : length device ≡ 65536
long = length-replicate {A = ℕ} 65536 0

device-IsEmptyDevice : IsEmptyDevice 1024 6 device
unfolding shl1 to_blocks
device-IsEmptyDevice = record {
  large = omega arith;
  few = omega arith;
  small = omega (arith, long);
  blocks = omega (arith, long);
  states = omega arith;
  zeros = refl;
}

-- The numbers of a message and its payload, one after the other.
abbrev flat : Codec
flat = record { marshal = λ m. some (m.sender ∷ m.length ∷ m.next ∷ m.payload); unmarshal = read }
  where
    read : Bytes → Option MailBoxMessage
    read (s ∷ l ∷ n ∷ p) = some (record { sender = s; length = l; payload = p; next = n })
    read _ = none

abbrev reserved : ℕ
reserved = 1 + 3 * state_blocks 1024 6

abbrev EmptyInbox : ℕ → Bytes → Type 0
EmptyInbox id file = Inbox 1024 flat id 6 reserved (sizes_of 1024 (node_count 6)) [] file

new_mail_box-Inbox_example :
    (after : Bytes) × (new_mail_box 1024 7 device ≡ (ok 7, after))
    × ((id : ℕ) → 0 < id → id ≤ 2000 → EmptyInbox id after)
new_mail_box-Inbox_example =
    new_mail_box-Inbox 1024 6 device device-IsEmptyDevice flat 7 (omega arith) (omega arith)

-- Node 3 sends to node 7.
abbrev greeting : Message
greeting = record { sender = 3; recipient = 7; payload = codes "hi" }

opened :
    (after : Bytes) × (new_mail_box 1024 7 device ≡ (ok 7, after))
    × (box : EmptyInbox 7 after) × (1 ≤ room 6 box.tree)
unfolding shl1 to_blocks
opened =
    new_mail_box-room 1024 6 device device-IsEmptyDevice flat 7 7 (omega arith) (omega arith)
      (omega arith) (omega arith) (omega arith)

abbrev stored_greeting : MailBoxMessage
stored_greeting = stored_message 3 greeting opened.2.addr

send-Inbox_example :
    (after : Bytes) × (send 1024 flat 3 greeting (opened.0) ≡ (ok tt, after))
    × Inbox 1024 flat 7 6 reserved (sizes_of 1024 (node_count 6)) (stored_greeting ∷ []) after
send-Inbox_example =
    send-Inbox 1024 flat 7 6 reserved (sizes_of 1024 (node_count 6)) 3 greeting [] (opened.0)
      (3 ∷ 2 ∷ opened.2.addr ∷ codes "hi") (omega arith) (omega arith) refl (opened.2) refl refl
      (omega arith) (opened.3)
