-- ===== src/Examples/Mailboxes.antt =====
-- Mailboxes with small states, and the allocator of eight blocks in a state.
use csi_sanlock_lvm.Base.{
  suc, ◌≡◌, ◌≢◌, ◌⊎◌, refl, ◌++◌, codes, some, ok, err, internal, take, length, arith,
}
use csi_sanlock_lvm.Base.Int.{pos}
use csi_sanlock_lvm.Allocator.Heap.{Nodes, new_allocator_by_size, shl1}
use csi_sanlock_lvm.Allocator.Tree.{whole}
use csi_sanlock_lvm.Allocator.Root.{IsAllocator}
use csi_sanlock_lvm.Allocator.Create.{new_allocator_by_size-IsAllocator}
use csi_sanlock_lvm.Mailbox.Device.{overwrite}
use csi_sanlock_lvm.Mailbox.Layout.{read_state}
use csi_sanlock_lvm.Mailbox.State.{thrice}
use csi_sanlock_lvm.Mailbox.Torn.{read_state-torn}
use csi_sanlock_lvm.Mailbox.Messages.{Codec, MailBoxMessage, drain}
use csi_sanlock_lvm.Mailbox.Draining.{drain-ends}

read_state-torn_example :
    let file =
      overwrite
        (codes "hd" ++ (thrice (codes "ab") ++ codes "data"))
        2
        (take 3 (thrice (codes "cd"))) in
    (read_state 2 2 file ≡ ok (codes "ab")) ⊎ (read_state 2 2 file ≡ ok (codes "cd"))
read_state-torn_example =
    read_state-torn (codes "hd") (codes "data") (codes "ab") (codes "cd") 2 3 refl refl
      (omega arith)

abbrev message : MailBoxMessage
message = record { sender = 1; length = 2; payload = codes "hi"; next = 0 }

abbrev codec : Codec
codec = record { marshal = λ m. some m.payload; unmarshal = λ b. some message }

eight :
    (nodes : Nodes) × (new_allocator_by_size (pos (shl1 3)) ≡ ok nodes) × IsAllocator 3 whole nodes
eight = new_allocator_by_size-IsAllocator 3 (omega arith)

drain-ends_example :
    drain 4 codec 7 (suc (length (eight.0))) 4 (codes "0123") 0 (eight.0) ≢ err internal
drain-ends_example = drain-ends 4 codec 7 3 whole (eight.0) 4 (codes "0123") 0 (eight.2)
