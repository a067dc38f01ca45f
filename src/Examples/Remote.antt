-- ===== src/Examples/Remote.antt =====
-- A call to another node, and the server of lvmctrld.
use csi_sanlock_lvm.Base.{
  ℕ, suc, ◌≡◌, refl, [], ◌∷◌, Bytes, codes, Option, none, some, ok, err, permission_denied, arith,
  true, false, ◌&&◌, if◌then◌else◌, bytes_eq,
}
use csi_sanlock_lvm.Base.Int.{pos}
use csi_sanlock_lvm.Volume.Ref.{VolumeRef, vg_lv}
use csi_sanlock_lvm.Driver.Lock.{Locker, entry, touched, lock_volume, default_lock_op}
use csi_sanlock_lvm.Driver.Lock.Table.{mem, insert_op, remove_op, ops_of}
use csi_sanlock_lvm.Driver.Lock.Elsewhere.{lock_volume-elsewhere}
use csi_sanlock_lvm.Lvmctrld.Pattern.{match, match_lines, matches_text}
use csi_sanlock_lvm.Lvmctrld.Errors.{lv_exists}
use csi_sanlock_lvm.Lvmctrld.Server.{Host, server, tag_re}
use csi_sanlock_lvm.Lvmctrld.Laws.{tag_re-encode_tag_kv}
use csi_sanlock_lvm.Tags.KeyValue.{encode_tag_kv}
use csi_sanlock_lvm.Tags.RoundTrip.{encodable}
use csi_sanlock_lvm.Mailbox.Messages.{Message}
use csi_sanlock_lvm.DiskRpc.Rpc.{
  DiskRpc, DiskRpcMessage, DiskRpcType, Codec, MailBox, Handler, Answer, new_disk_rpc, schedule,
  handler_of, request_message, response_message, invoke_send, handle_messages, result_of,
}
use csi_sanlock_lvm.DiskRpc.Laws.{WellFormed, Step, Run, count, new_disk_rpc-run}
use csi_sanlock_lvm.DiskRpc.RoundTrip.{visible, invoke_send-handle_messages}

tag_re-encode_tag_kv_example :
    tag_re (encode_tag_kv (codes "k") (codes "v w"))
    ≡ (encodable (codes "k") && encodable (codes "v w"))
tag_re-encode_tag_kv_example =
    tag_re-encode_tag_kv (codes "k") (codes "v w") (omega arith, tt)
      (omega arith, (omega arith, (omega arith, tt)))

abbrev id : Bytes
id = codes "0123456789abcdef"

abbrev no_mail : MailBox ℕ
no_mail = record { recv = λ w. (ok [], w); send = λ m w. (ok tt, suc w) }

abbrev request : DiskRpcMessage
request = request_message 1 id (codes "CreateVolume") (codes "req")

abbrev response : DiskRpcMessage
response = response_message 2 request (codes "res") (some (5, codes "no such volume"))

abbrev codec : Codec
codec = record {
  marshal = λ m. by_type m.type;
  unmarshal = λ b. if bytes_eq b (codes "q") then some request else some response;
}
  where
    by_type : DiskRpcType → Option Bytes
    by_type DiskRpcType.type_request = some (codes "q")
    by_type _ = some (codes "r")

abbrev queued : Message
queued = record { sender = 0; recipient = 3; payload = codes "q" }

abbrev start : DiskRpc ℕ
start = record { handlers = []; pending = []; outgoing = []; offered = []; world = 0 }

nothing_offered : count id start.offered ≡ 0
unfolding count
nothing_offered = refl

abbrev from_start : Run codec no_mail start (schedule id queued start).1
from_start = Run.then (Step.schedules id queued start nothing_offered) Run.stop

new_disk_rpc-run_example : WellFormed (schedule id queued (new_disk_rpc {W = ℕ} 0)).1
unfolding new_disk_rpc
new_disk_rpc-run_example =
    new_disk_rpc-run {codec = codec} {mail_box = no_mail} 0 (schedule id queued start).1 from_start

abbrev found : Answer
found = record { encoded = some (some (codes "res")); error = some (5, codes "no such volume") }

abbrev controller : Handler ℕ
controller m = some (λ b. some (λ w. (found, suc w)))

abbrev serving : DiskRpc ℕ
serving = record {
  handlers = (0, controller) ∷ [];
  pending = [];
  outgoing = [];
  offered = [];
  world = 0;
}

abbrev waiting : DiskRpc ℕ
waiting = record { handlers = []; pending = id ∷ []; outgoing = []; offered = []; world = 0 }

sends : codec.marshal request ≡ some (codes "q")
unfolding request_message
sends = refl

responds : codec.marshal response ≡ some (codes "r")
unfolding response_message
responds = refl

decodes : codec.unmarshal (codes "q") ≡ some request
unfolding bytes_eq
decodes = refl

decodes_back : codec.unmarshal (codes "r") ≡ some response
unfolding bytes_eq
decodes_back = refl

handles_zero : handler_of 0 serving.handlers ≡ some controller
unfolding handler_of
handles_zero = refl

waits : mem id waiting.pending ≡ true
unfolding mem bytes_eq
waits = refl

invoke_send-handle_messages_example :
    (invoke_send codec 1 id 3 0 (codes "CreateVolume") (some (codes "req")) start
      ≡ (ok tt, record start { pending = insert_op id start.pending; outgoing = queued ∷ [] }))
    × (handle_messages codec 2
          (record { sender = 8; recipient = 3; payload = codes "q" } ∷ [])
          serving
        ≡ (
          ok tt,
          record serving {
            outgoing = record { sender = 0; recipient = 8; payload = codes "r" } ∷ [];
            world = 1;
          },
        ))
    × (handle_messages codec 2
          (record { sender = 3; recipient = 8; payload = codes "r" } ∷ [])
          waiting
        ≡ (
          ok tt,
          record waiting { pending = remove_op id waiting.pending; offered = (id, response) ∷ [] },
        ))
    × (result_of response ≡ (visible (some (5, codes "no such volume")), codes "res"))
invoke_send-handle_messages_example =
    invoke_send-handle_messages codec 1 2 id (codes "CreateVolume") (some (codes "req")) (codes "q")
      (codes "r") (codes "res") (some (5, codes "no such volume")) refl 3 0 8 start waiting serving
      controller (λ b. some (λ w. (found, suc w))) (λ w. (found, suc w)) 1 (some (codes "res"))
      sends decodes responds decodes_back handles_zero refl refl refl refl (omega arith)
      (omega arith) waits

abbrev vol : VolumeRef
vol = record { lv_name = codes "csl-v-abc"; vg_name = codes "vg00" }

-- lvchange as it ends when the volume is active on another host.
abbrev refusing : Host ℕ
refusing = record {
  exec = λ name args w. (
    record {
      code = pos 5;
      stdout = [];
      stderr = codes "\n  LV locked by other host: vg00/csl-v-abc";
      failed = true;
    },
    suc w,
  );
  parse_report = λ out. none;
}

abbrev idle : Locker ℕ
idle = record { node_id = 7; node_name = codes "node-7"; locks = []; world = 0 }

no_entry : entry (vg_lv vol) idle.locks ≡ []
unfolding entry ops_of
no_entry = refl

says_no_more : matches_text lv_exists (codes "\n  LV locked by other host: vg00/csl-v-abc") ≡ false
unfolding matches_text match match_lines
says_no_more = refl

lock_volume-elsewhere_example :
    lock_volume (server refusing) vol default_lock_op idle
    ≡ (err permission_denied, record idle { locks = touched (vg_lv vol) idle.locks; world = 1 })
lock_volume-elsewhere_example =
    lock_volume-elsewhere refusing vol default_lock_op [] (codes ": vg00/csl-v-abc") idle _ 1
      no_entry refl refl refl says_no_more
