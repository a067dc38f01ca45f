-- ===== src/DiskRpc/RoundTrip.antt =====
-- A call from one node to another and back (pkg/diskrpc/diskrpc.go).
use csi_sanlock_lvm.Base.{
  ℕ, ◌*◌, ◌≤◌, ◌≡◌, refl, Bytes, length, ltb, ◌==◌, true, false, Option, none, some, [], ◌∷◌, ◌++◌,
  ok, if◌then◌else◌, arith,
}
use csi_sanlock_lvm.Driver.Lock.Table.{mem, insert_op, remove_op}
use csi_sanlock_lvm.DiskRpc.Rpc.{
  DiskRpc, DiskRpcMessage, Codec, Handler, Answer, uuid_from_bytes, handler_of, schedule, enqueue,
  handle_response, handle_request, respond, request_message, response_message, invoke_send,
  handle_messages, result_of, or_nil,
}

-- An error with the status code 0 is no error.
abbrev pub visible : Option (ℕ × Bytes) → Option (ℕ × Bytes)
visible none = none
visible (some (code, text)) = if code == 0 then none else some (code, text)

-- The messages of one call, encoded and decoded without loss.
module _ (codec : Codec) (now later : ℕ) (id method : Bytes) (req : Option Bytes)
    (request_buf response_buf body_buf : Bytes) (error : Option (ℕ × Bytes))
    (id_length : length id ≡ 16) where
  abbrev pub the_request : DiskRpcMessage
  the_request = request_message now id method (or_nil req)

  abbrev pub the_response : DiskRpcMessage
  the_response = response_message later the_request body_buf error

  invoke_send-queued :
      {W : Type 0} (node_id target_id : ℕ) (s : DiskRpc W)
      → codec.marshal the_request ≡ some request_buf
      → length s.outgoing ≤ 64
      → invoke_send codec now id node_id target_id method req s ≡ (
        ok tt,
        record s {
          pending = insert_op id s.pending;
          outgoing =
              s.outgoing
              ++ (record { sender = 0; recipient = node_id; payload = request_buf } ∷ []);
        },
      )
  unfolding invoke_send schedule
  invoke_send-queued node_id target_id s encodes room =
      let free : ltb 64 (length s.outgoing) ≡ false = ground arith in rw (encodes, free) refl

  handle_messages-request :
      {W : Type 0} (client : ℕ) (target : Handler W) (run : W → Answer × W) (w : W) (t : DiskRpc W)
      (local : ℕ)
      → codec.unmarshal request_buf ≡ some the_request
      → codec.marshal the_response ≡ some response_buf
      → handler_of 0 t.handlers ≡ some target
      → (parse : Bytes → Option (W → Answer × W)) → target method ≡ some parse
      → parse (or_nil req) ≡ some run
      → (encoded : Option Bytes) → or_nil encoded ≡ body_buf
      → run t.world ≡ (record { encoded = some encoded; error = error }, w)
      → length t.outgoing ≤ 256
      → handle_messages codec later
          (record { sender = client; recipient = local; payload = request_buf } ∷ [])
          t
        ≡ (
          ok tt,
          record t {
            outgoing =
                t.outgoing
                ++ (record { sender = 0; recipient = client; payload = response_buf } ∷ []);
            world = w;
          },
        )
  unfolding handle_messages handle_request respond enqueue uuid_from_bytes request_message
  handle_messages-request client target run w t local decodes encodes found parse has_method parses
        encoded body runs room =
      let free : ltb (4 * 64) (length t.outgoing) ≡ false = ground arith in
      let sized : (length id == 16) ≡ true = rw id_length refl in
      rw (decodes, sized, found, has_method, parses, runs, body, encodes, free) refl

  handle_messages-response :
      {W : Type 0} (sender local : ℕ) (s : DiskRpc W)
      → codec.unmarshal response_buf ≡ some the_response
      → mem id s.pending ≡ true
      → handle_messages codec later
          (record { sender = sender; recipient = local; payload = response_buf } ∷ [])
          s
        ≡ (
          ok tt,
          record s {
            pending = remove_op id s.pending;
            offered = s.offered ++ ((id, the_response) ∷ []);
          },
        )
  unfolding handle_messages handle_response uuid_from_bytes request_message response_message
  handle_messages-response sender local s decodes waits =
      let sized : (length id == 16) ≡ true = rw id_length refl in rw (decodes, sized, waits) refl

  result_of-response :
      (e : Option (ℕ × Bytes))
      → result_of (response_message later the_request body_buf e) ≡ (visible e, body_buf)
  unfolding result_of response_message
  result_of-response none = refl
  result_of-response (some (code, text)) = refl

  -- A call, of which both messages are encoded and decoded without loss. The request is queued for its node and
  -- opens a channel; the node that receives it runs the method under this name of the handler of channel 0,
  -- whatever channel the caller named, and queues the response for the caller; when the caller receives it,
  -- while it still waits, the channel gets exactly this response and is closed, and the caller gets the method's
  -- result and error, where an error with the status code 0 is none. The queues have room and the id has 16 bytes.
  pub invoke_send-handle_messages :
      {W : Type 0} (node_id target_id client : ℕ) (s waiting t : DiskRpc W) (target : Handler W)
      (parse : Bytes → Option (W → Answer × W)) (run : W → Answer × W) (w : W)
      (encoded : Option Bytes)
      → codec.marshal the_request ≡ some request_buf
      → codec.unmarshal request_buf ≡ some the_request
      → codec.marshal the_response ≡ some response_buf
      → codec.unmarshal response_buf ≡ some the_response
      → handler_of 0 t.handlers ≡ some target
      → target method ≡ some parse
      → parse (or_nil req) ≡ some run
      → run t.world ≡ (record { encoded = some encoded; error = error }, w)
      → or_nil encoded ≡ body_buf
      → length s.outgoing ≤ 64
      → length t.outgoing ≤ 256
      → mem id waiting.pending ≡ true
      → (invoke_send codec now id node_id target_id method req s ≡ (
        ok tt,
        record s {
          pending = insert_op id s.pending;
          outgoing =
              s.outgoing
              ++ (record { sender = 0; recipient = node_id; payload = request_buf } ∷ []);
        },
      ))
        × (handle_messages codec later
              (record { sender = client; recipient = node_id; payload = request_buf } ∷ [])
              t
            ≡ (
              ok tt,
              record t {
                outgoing =
                    t.outgoing
                    ++ (record { sender = 0; recipient = client; payload = response_buf } ∷ []);
                world = w;
              },
            ))
        × (handle_messages codec later
              (record { sender = node_id; recipient = client; payload = response_buf } ∷ [])
              waiting
            ≡ (
              ok tt,
              record waiting {
                pending = remove_op id waiting.pending;
                offered = waiting.offered ++ ((id, the_response) ∷ []);
              },
            ))
        × (result_of the_response ≡ (visible error, body_buf))
  invoke_send-handle_messages node_id target_id client s waiting t target parse run w encoded sends
        decodes responds decodes_back found has_method parses runs body room_s room_t open_channel =
      (
        invoke_send-queued node_id target_id s sends room_s,
        handle_messages-request client target run w t node_id decodes responds found parse
            has_method parses encoded body runs room_t,
        handle_messages-response node_id client waiting decodes_back open_channel,
        result_of-response error,
      )
