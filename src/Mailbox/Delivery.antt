-- ===== src/Mailbox/Delivery.antt =====
-- Recv on a file with the messages of one mailbox.
use csi_sanlock_lvm.Base.{Bool, true, false, ◌∷◌, ℕ, List, [], map}
use csi_sanlock_lvm.Mailbox.Header.{Sizes}
use csi_sanlock_lvm.Mailbox.Messages.{Codec, Message, MailBoxMessage}
use csi_sanlock_lvm.Allocator.Tree.{Tree}
use csi_sanlock_lvm.Mailbox.Chain.{Chain, received}
use csi_sanlock_lvm.Mailbox.Inbox.{Inbox}

module _ (directio_block_size : ℕ) (codec : Codec) (id d reserved : ℕ) (sizes : Sizes) where
  -- What a call of Recv returns, and what it leaves, by the messages that it sees before it takes the
  -- lock and those that are there when it has it.
  abbrev pub delivered : List MailBoxMessage → List MailBoxMessage → List Message
  delivered [] later = []
  delivered (m ∷ msgs) later = map (received directio_block_size codec id) later

  abbrev pub remaining : List MailBoxMessage → List MailBoxMessage → List MailBoxMessage
  remaining [] later = later
  remaining (m ∷ msgs) later = []

  abbrev some_message : List MailBoxMessage → Bool
  some_message [] = false
  some_message (m ∷ msgs) = true
