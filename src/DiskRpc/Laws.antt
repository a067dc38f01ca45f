-- ===== src/DiskRpc/Laws.antt =====
-- The disk RPC (pkg/diskrpc/diskrpc.go) under any interleaving of its steps.
use csi_sanlock_lvm.Base.{
  ℕ, suc, ◌+◌, ◌*◌, ◌≤◌, ◌≡◌, inl, inr, refl, Bytes, length, length-append, ltb, leb, Bool,
  Bool-cases, true, false, Option, none, some, List, [], ◌∷◌, ◌++◌, bytes_eq, bytes_eq_iff, Result,
  ok, err, unknown, Code, if◌then◌else◌, arith,
}
use csi_sanlock_lvm.Base.Exec.{Exec, pure, lift, check, attempt, resume, ◌>>=◌, ◌>>◌}
use csi_sanlock_lvm.Driver.Lock.Table.{mem, mem-insert_op, mem-remove_op}
use csi_sanlock_lvm.Mailbox.Messages.{Message}
use csi_sanlock_lvm.DiskRpc.Rpc.{
  DiskRpc, DiskRpcMessage, DiskRpcType, Codec, MailBox, Handler, Answer, uuid_from_bytes,
  new_disk_rpc, register, schedule, forget, handle_response, handle_request, handle_message,
  enqueue, flush, handle_messages, call, find, receive, respond, dispatch, must, or_nil,
  response_message,
}

-- How often a response was sent on the channel of a request.
unfoldable pub count : Bytes → List (Bytes × DiskRpcMessage) → ℕ
count id [] = 0
count id ((key, m) ∷ offered) =
    let rest = count id offered in if bytes_eq key id then suc rest else rest

count-append :
    (id : Bytes) (xs ys : List (Bytes × DiskRpcMessage))
    → count id (xs ++ ys) ≡ count id xs + count id ys
unfolding count
count-append id [] ys = omega arith
count-append id ((key, m) ∷ xs) ys = ground (arith, count-append id xs ys)

module _ {W : Type 0} where
  -- The queue is bounded, no request has more than one response, and one that is pending has none.
  pub record WellFormed (s : DiskRpc W) : Type 0 where
    pub bounded : length s.outgoing ≤ 4 * 64 + 1
    pub once : (id : Bytes) → count id s.offered ≤ 1
    pub unanswered : (id : Bytes) → mem id s.pending ≡ true → count id s.offered ≡ 0

  abbrev Preserves : {A : Type 0} → Exec (DiskRpc W) A → Type 0
  Preserves m = (s : DiskRpc W) → WellFormed s → WellFormed (m s).1

  bind-Preserves :
      {A B : Type 0} (m : Exec (DiskRpc W) A) (k : A → Exec (DiskRpc W) B)
      → Preserves m
      → ((a : A) → Preserves (k a))
      → Preserves (m >>= k)
  bind-Preserves m k hm hk s v = next (m s).0 (hm s v)
    where
      next : (r : Result _) → WellFormed (m s).1 → WellFormed (resume k r (m s).1).1
      next (ok a) v' = hk a (m s).1 v'
      next (err e) v' = v'

  lift-Preserves : {A : Type 0} (r : Result A) → Preserves (lift r)
  lift-Preserves r s v = v

  check-Preserves : (b : Bool) (e : Code) → Preserves (check b e)
  check-Preserves true e s v = v
  check-Preserves false e s v = v

  new_disk_rpc-WellFormed : (w : W) → WellFormed (new_disk_rpc w)
  unfolding new_disk_rpc count mem
  new_disk_rpc-WellFormed w = record {
    bounded = omega arith;
    once = λ id. omega arith;
    unanswered = λ id h. refl;
  }

  register-Preserves : (channel : ℕ) (h : Option (Handler W)) → Preserves (register channel h)
  unfolding register
  register-Preserves channel none s v = record {
    bounded = v.bounded;
    once = v.once;
    unanswered = v.unanswered;
  }
  register-Preserves channel (some h) s v = record {
    bounded = v.bounded;
    once = v.once;
    unanswered = v.unanswered;
  }

  schedule-Preserves :
      (id : Bytes) (msg : Message) (s : DiskRpc W)
      → count id s.offered ≡ 0
      → WellFormed s
      → WellFormed (schedule id msg s).1
  unfolding schedule
  schedule-Preserves id msg s fresh v = elim (Bool-cases (ltb 64 (length s.outgoing))) [
    | inl full ↦ rw full v
    | inr free ↦ rw free (record {
      bounded = ground (arith, length-append s.outgoing (msg ∷ []));
      once = v.once;
      unanswered = λ o h.
          ground (arith, mem-insert_op id o s.pending, v.unanswered o, bytes_eq_iff id o, fresh);
    })
  ]

  forget-Preserves : (id : Bytes) → Preserves (forget id)
  unfolding forget
  forget-Preserves id s v = record {
    bounded = v.bounded;
    once = v.once;
    unanswered = λ o h. ground (arith, mem-remove_op id o s.pending, v.unanswered o);
  }

  enqueue-Preserves : (msg : Message) → Preserves (enqueue msg)
  unfolding enqueue
  enqueue-Preserves msg s v = elim (Bool-cases (ltb (4 * 64) (length s.outgoing))) [
    | inl full ↦ rw full v
    | inr free ↦ rw free (record {
      bounded = ground (arith, length-append s.outgoing (msg ∷ []));
      once = v.once;
      unanswered = v.unanswered;
    })
  ]

  handle_response-Preserves : (m : DiskRpcMessage) → Preserves (handle_response m)
  unfolding handle_response count
  handle_response-Preserves m =
      bind-Preserves (lift (uuid_from_bytes m.uuid)) _ (lift-Preserves (uuid_from_bytes m.uuid))
        λ id s v. elim (Bool-cases (mem id s.pending)) [
          | inl open_channel ↦ rw open_channel (record {
            bounded = v.bounded;
            once = λ o. ground (
              arith,
              count-append o s.offered ((id, m) ∷ []),
              v.once o,
              v.unanswered o,
              bytes_eq_iff id o,
            );
            unanswered = λ o h. ground (
              arith,
              count-append o s.offered ((id, m) ∷ []),
              mem-remove_op id o s.pending,
              v.unanswered o,
            );
          })
          | inr unknown_id ↦ rw unknown_id v
        ]

  attempt-Preserves :
      {A : Type 0} (m : Exec (DiskRpc W) A) → Preserves m → Preserves (attempt m >> pure tt)
  attempt-Preserves m h s v = h s v

  call-Preserves : (run : W → Answer × W) → Preserves (call run)
  call-Preserves run s v = record { bounded = v.bounded; once = v.once; unanswered = v.unanswered }

  find-Preserves : (channel : ℕ) → Preserves (find channel)
  find-Preserves channel s v = v

  respond-Preserves :
      (codec : Codec) (now sender : ℕ) (m : DiskRpcMessage) (answer : Answer)
      → Preserves (respond codec now sender m answer)
  unfolding respond
  respond-Preserves codec now sender m answer =
      bind-Preserves {B = Unit {0}} (lift (must answer.encoded)) _
        (lift-Preserves (must answer.encoded))
        λ body.
          let encoded = must (codec.marshal (response_message now m (or_nil body) answer.error)) in
          bind-Preserves {B = Unit {0}} (lift encoded) _ (lift-Preserves encoded)
            λ buf. enqueue-Preserves (record { sender = 0; recipient = sender; payload = buf })

  handle_request-Preserves :
      (codec : Codec) (now sender : ℕ) (m : DiskRpcMessage)
      → Preserves (handle_request codec now sender m)
  unfolding handle_request
  handle_request-Preserves codec now sender m =
      let parsed = uuid_from_bytes m.uuid in
      bind-Preserves {B = Unit {0}} (lift parsed) _ (lift-Preserves parsed) λ id.
        bind-Preserves {B = Unit {0}} (check (leb m.channel 255) unknown) _
          (check-Preserves (leb m.channel 255) unknown)
          λ _. bind-Preserves {B = Unit {0}} (find m.channel) _ (find-Preserves m.channel) λ target.
            bind-Preserves {B = Unit {0}} (lift (must (target m.method))) _
              (lift-Preserves (must (target m.method)))
              λ method.
                bind-Preserves {B = Unit {0}} (lift (must (method m.request))) _
                  (lift-Preserves (must (method m.request)))
                  λ run.
                    bind-Preserves {B = Unit {0}} (call run) (respond codec now sender m)
                      (call-Preserves run) λ answer. respond-Preserves codec now sender m answer

  dispatch-Preserves :
      (codec : Codec) (now sender : ℕ) (m : DiskRpcMessage) (type : DiskRpcType)
      → Preserves (dispatch codec now sender m type)
  dispatch-Preserves codec now sender m DiskRpcType.type_unknown = λ s v. v
  dispatch-Preserves codec now sender m DiskRpcType.type_request =
      attempt-Preserves (handle_request codec now sender m)
        (handle_request-Preserves codec now sender m)
  dispatch-Preserves codec now sender m DiskRpcType.type_response =
      attempt-Preserves (handle_response m) (handle_response-Preserves m)

  handle_message-Preserves :
      (codec : Codec) (now : ℕ) (msg : Message) → Preserves (handle_message codec now msg)
  handle_message-Preserves codec now msg =
      bind-Preserves (lift (must (codec.unmarshal msg.payload))) _
        (lift-Preserves (must (codec.unmarshal msg.payload)))
        λ m. dispatch-Preserves codec now msg.sender m m.type

  handle_messages-Preserves :
      (codec : Codec) (now : ℕ) (msgs : List Message) → Preserves (handle_messages codec now msgs)
  unfolding handle_messages
  handle_messages-Preserves codec now [] = λ s v. v
  handle_messages-Preserves codec now (msg ∷ msgs) =
      bind-Preserves (handle_message codec now msg) _ (handle_message-Preserves codec now msg)
        λ _. handle_messages-Preserves codec now msgs

  receive-Preserves : (mail_box : MailBox W) → Preserves (receive mail_box)
  receive-Preserves mail_box s v = record {
    bounded = v.bounded;
    once = v.once;
    unanswered = v.unanswered;
  }

  flush-Preserves : (mail_box : MailBox W) → Preserves (flush mail_box)
  unfolding flush
  flush-Preserves mail_box s v = record {
    bounded = omega arith;
    once = v.once;
    unanswered = v.unanswered;
  }

  -- The steps between which the mutex is free. A request that is scheduled has a new id: no response to it
  -- was sent before.
  pub data Step (codec : Codec) (mail_box : MailBox W) : DiskRpc W → DiskRpc W → Type 0 where
    registers :
        (channel : ℕ) (h : Option (Handler W)) (s : DiskRpc W)
        → Step codec mail_box s (register channel h s).1
    schedules :
        (id : Bytes) (msg : Message) (s : DiskRpc W)
        → count id s.offered ≡ 0
        → Step codec mail_box s (schedule id msg s).1
    forgets : (id : Bytes) (s : DiskRpc W) → Step codec mail_box s (forget id s).1
    receives : (s : DiskRpc W) → Step codec mail_box s (receive mail_box s).1
    handles :
        (now : ℕ) (msg : Message) (s : DiskRpc W)
        → Step codec mail_box s (handle_message codec now msg s).1
    flushes : (s : DiskRpc W) → Step codec mail_box s (flush mail_box s).1

  pub data Run (codec : Codec) (mail_box : MailBox W) : DiskRpc W → DiskRpc W → Type 0 where
    stop : {s : DiskRpc W} → Run codec mail_box s s
    then :
        {s m e : DiskRpc W}
        → Step codec mail_box s m
        → Run codec mail_box m e
        → Run codec mail_box s e

  Step-WellFormed :
      {codec : Codec} {mail_box : MailBox W} {s s' : DiskRpc W}
      → Step codec mail_box s s'
      → WellFormed s
      → WellFormed s'
  Step-WellFormed (registers channel h s) v = register-Preserves channel h s v
  Step-WellFormed (schedules id msg s fresh) v = schedule-Preserves id msg s fresh v
  Step-WellFormed (forgets id s) v = forget-Preserves id s v
  Step-WellFormed {codec} {mail_box} (receives s) v = receive-Preserves mail_box s v
  Step-WellFormed {codec} (handles now msg s) v = handle_message-Preserves codec now msg s v
  Step-WellFormed {codec} {mail_box} (flushes s) v = flush-Preserves mail_box s v

  Run-WellFormed :
      {codec : Codec} {mail_box : MailBox W} {s s' : DiskRpc W}
      → Run codec mail_box s s'
      → WellFormed s
      → WellFormed s'
  Run-WellFormed stop v = v
  Run-WellFormed (Run.then step run) v = Run-WellFormed run (Step-WellFormed step v)

  -- In every state that the steps of the disk RPC reach from the first one, in any order, with requests under
  -- new ids: at most 257 messages are queued, no request was sent more than one response, and a request that
  -- is still pending was sent none.
  pub new_disk_rpc-run :
      {codec : Codec} {mail_box : MailBox W} (w : W) (s : DiskRpc W)
      → Run codec mail_box (new_disk_rpc w) s
      → WellFormed s
  new_disk_rpc-run w s run = Run-WellFormed run (new_disk_rpc-WellFormed w)
