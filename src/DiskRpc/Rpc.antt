-- ===== src/DiskRpc/Rpc.antt =====
-- The disk RPC (pkg/diskrpc/diskrpc.go). The mutex makes each part of a method that changes the state
-- one step.
use csi_sanlock_lvm.Base.{
  ℕ, ◌-◌, ◌*◌, ◌^◌, Bytes, length, ltb, leb, ◌==◌, Option, none, some, List, [], ◌∷◌, ◌++◌,
  bytes_eq, Result, ok, err, unknown, resource_exhausted, if◌then◌else◌,
}
use csi_sanlock_lvm.Base.Exec.{Exec, pure, lift, check, attempt, ◌>>=◌, ◌>>◌}
use csi_sanlock_lvm.Driver.Lock.Table.{mem, insert_op, remove_op}
use csi_sanlock_lvm.Mailbox.Messages.{Message}

pub data DiskRpcType : Type 0 where
  type_unknown type_request type_response : DiskRpcType

-- An empty `response` is a nil one. `error_code` is the number of a gRPC status code.
pub record DiskRpcMessage : Type 0 where
  pub time : ℕ
  pub type : DiskRpcType
  pub channel : ℕ
  pub uuid : Bytes
  pub method : Bytes
  pub request : Bytes
  pub response : Bytes
  pub error_msg : Bytes
  pub error_code : ℕ

-- proto.Marshal and proto.Unmarshal, for the messages of the RPC.
pub record Codec : Type 0 where
  pub marshal : DiskRpcMessage → Option Bytes
  pub unmarshal : Bytes → Option DiskRpcMessage

-- The interface `MailBox`.
pub record MailBox (W : Type 0) : Type 0 where
  pub recv : Exec W (List Message)
  pub send : Message → Exec W (Unit {0})

-- What a call returns: the encoded response or nil, and an error by its status code and message.
-- An encoding that fails is `none` inside.
pub record Answer : Type 0 where
  pub encoded : Option (Option Bytes)
  pub error : Option (ℕ × Bytes)

-- A handler's methods by name, as reflection finds them: a call is made with the bytes of the request,
-- and `none` is a request that cannot be decoded.
abbrev pub Handler : Type 0 → Type 0
Handler W = Bytes → Option (Bytes → Option (W → Answer × W))

-- `pending` has the requests with an open channel; `offered` is every response that has been sent on
-- one, in order, whether it was taken or not.
pub record DiskRpc (W : Type 0) : Type 0 where
  pub handlers : List (ℕ × Handler W)
  pub pending : List Bytes
  pub outgoing : List Message
  pub offered : List (Bytes × DiskRpcMessage)
  pub world : W

abbrev pub must : {A : Type 0} → Option A → Result A
must none = err unknown
must (some a) = ok a

abbrev pub or_nil : Option Bytes → Bytes
or_nil none = []
or_nil (some b) = b

-- uuid.FromBytes, which accepts 16 bytes.
unfoldable pub uuid_from_bytes : Bytes → Result Bytes
uuid_from_bytes b = if length b == 16 then ok b else err unknown

unfoldable pub response_for : Bytes → List (Bytes × DiskRpcMessage) → Option DiskRpcMessage
response_for id [] = none
response_for id ((key, m) ∷ offered) = if bytes_eq key id then some m else response_for id offered

-- Nanoseconds to wait, by the deadline of the context. Without one it is the time since the zero time,
-- at which `Sub` stops at the largest duration.
unfoldable pub wait_time : Option ℕ → ℕ
wait_time none = 2 ^ 63 - 1
wait_time (some _) = 30 * 1000000000

abbrev error_fields : Option (ℕ × Bytes) → ℕ × Bytes
error_fields none = (0, [])
error_fields (some e) = e

unfoldable pub response_message : ℕ → DiskRpcMessage → Bytes → Option (ℕ × Bytes) → DiskRpcMessage
response_message now m body error =
    let (code, text) = error_fields error in
    record {
      time = now;
      type = DiskRpcType.type_response;
      channel = m.channel;
      uuid = m.uuid;
      method = [];
      request = [];
      response = body;
      error_msg = text;
      error_code = code;
    }

-- The request that Invoke sends. It carries no channel.
unfoldable pub request_message : ℕ → Bytes → Bytes → Bytes → DiskRpcMessage
request_message now id method req = record {
  time = now;
  type = DiskRpcType.type_request;
  channel = 0;
  uuid = id;
  method = method;
  request = req;
  response = [];
  error_msg = [];
  error_code = 0;
}

-- What the caller of Invoke gets for a response: the error, if there is one, and what is left to decode.
-- A status with the code 0 is no error.
unfoldable pub result_of : DiskRpcMessage → Option (ℕ × Bytes) × Bytes
result_of m = (if m.error_code == 0 then none else some (m.error_code, m.error_msg), m.response)

module _ {W : Type 0} where
  unfoldable pub handler_of : ℕ → List (ℕ × Handler W) → Option (Handler W)
  handler_of channel [] = none
  handler_of channel ((c, h) ∷ handlers) =
      if c == channel then some h else handler_of channel handlers

  unfoldable pub drop_handler : ℕ → List (ℕ × Handler W) → List (ℕ × Handler W)
  drop_handler channel [] = []
  drop_handler channel ((c, h) ∷ handlers) =
      let rest = drop_handler channel handlers in if c == channel then rest else (c, h) ∷ rest

  unfoldable pub new_disk_rpc : W → DiskRpc W
  new_disk_rpc w = record { handlers = []; pending = []; outgoing = []; offered = []; world = w }

  -- A nil handler unregisters.
  unfoldable pub register : ℕ → Option (Handler W) → Exec (DiskRpc W) (Unit {0})
  unfolding drop_handler
  register channel none s = (ok tt, record s { handlers = drop_handler channel s.handlers })
  register channel (some h) s =
      (ok tt, record s { handlers = (channel, h) ∷ drop_handler channel s.handlers })

  -- The step of Invoke that queues the request.
  unfoldable pub schedule : Bytes → Message → Exec (DiskRpc W) (Unit {0})
  schedule id msg s = if ltb 64 (length s.outgoing) then (err resource_exhausted, s) else (
    ok tt,
    record s { pending = insert_op id s.pending; outgoing = s.outgoing ++ (msg ∷ []) },
  )

  -- The step of Invoke that is deferred.
  unfoldable pub forget : Bytes → Exec (DiskRpc W) (Unit {0})
  forget id s = (ok tt, record s { pending = remove_op id s.pending })

  -- The response is sent on the channel of its request, which is then closed to others.
  unfoldable pub handle_response : DiskRpcMessage → Exec (DiskRpc W) (Unit {0})
  unfolding uuid_from_bytes
  handle_response m = do id ← lift (uuid_from_bytes m.uuid); offer id
    where
      offer : Bytes → Exec (DiskRpc W) (Unit {0})
      offer id s =
          if mem id s.pending
          then (
            ok tt,
            record s { pending = remove_op id s.pending; offered = s.offered ++ ((id, m) ∷ []) },
          )
          else (err unknown, s)

  -- The queueing of a response.
  unfoldable pub enqueue : Message → Exec (DiskRpc W) (Unit {0})
  enqueue msg s =
      if ltb (4 * 64) (length s.outgoing)
      then (err resource_exhausted, s)
      else (ok tt, record s { outgoing = s.outgoing ++ (msg ∷ []) })

  abbrev pub call : (W → Answer × W) → Exec (DiskRpc W) Answer
  call method s = let (answer, w) = method s.world in (ok answer, record s { world = w })

  abbrev pub find : ℕ → Exec (DiskRpc W) (Handler W)
  find channel s = (must (handler_of channel s.handlers), s)

  module _ (codec : Codec) where
    unfoldable pub respond : ℕ → ℕ → DiskRpcMessage → Answer → Exec (DiskRpc W) (Unit {0})
    respond now sender m answer = do
      body ← lift (must answer.encoded)
      buf ← lift (must (codec.marshal (response_message now m (or_nil body) answer.error)))
      enqueue (record { sender = 0; recipient = sender; payload = buf })

    unfoldable pub handle_request : ℕ → ℕ → DiskRpcMessage → Exec (DiskRpc W) (Unit {0})
    unfolding uuid_from_bytes
    handle_request now sender m = do
      id ← lift (uuid_from_bytes m.uuid)
      check (leb m.channel 255) unknown
      target ← find m.channel
      method ← lift (must (target m.method))
      run ← lift (must (method m.request))
      answer ← call run
      respond now sender m answer

    -- Invoke up to its wait. `target_id` is not used. `req` is the encoded request, if there is one.
    unfoldable pub invoke_send :
        ℕ → Bytes → ℕ → ℕ → Bytes → Option Bytes → Exec (DiskRpc W) (Unit {0})
    invoke_send now id node_id target_id method req = do
      buf ← lift (must (codec.marshal (request_message now id method (or_nil req))))
      schedule id (record { sender = 0; recipient = node_id; payload = buf })

    -- The errors of the handlers are logged.
    abbrev pub dispatch : ℕ → ℕ → DiskRpcMessage → DiskRpcType → Exec (DiskRpc W) (Unit {0})
    dispatch now sender m DiskRpcType.type_unknown = pure tt
    dispatch now sender m DiskRpcType.type_request =
        attempt (handle_request now sender m) >> pure tt
    dispatch now sender m DiskRpcType.type_response = attempt (handle_response m) >> pure tt

    abbrev pub handle_message : ℕ → Message → Exec (DiskRpc W) (Unit {0})
    handle_message now msg = do
      m ← lift (must (codec.unmarshal msg.payload))
      dispatch now msg.sender m m.type

    -- The loop over the messages received, which ends at one that cannot be decoded.
    unfoldable pub handle_messages : ℕ → List Message → Exec (DiskRpc W) (Unit {0})
    unfolding handle_request handle_response
    handle_messages now [] = pure tt
    handle_messages now (msg ∷ msgs) = handle_message now msg >> handle_messages now msgs

  module _ (mail_box : MailBox W) where
    abbrev pub receive : Exec (DiskRpc W) (List Message)
    receive s = let (r, w) = mail_box.recv s.world in (r, record s { world = w })

    -- The errors of Send are logged.
    unfoldable pub send_all : List Message → W → W
    send_all [] w = w
    send_all (msg ∷ msgs) w = send_all msgs (mail_box.send msg w).1

    -- The end of Handle: the queue is emptied and sent.
    unfoldable pub flush : Exec (DiskRpc W) (Unit {0})
    unfolding send_all
    flush s = (ok tt, record s { outgoing = []; world = send_all s.outgoing s.world })

    unfoldable pub handle : Codec → ℕ → Exec (DiskRpc W) (Unit {0})
    unfolding handle_messages flush
    handle codec now = do msgs ← receive; handle_messages codec now msgs; flush
