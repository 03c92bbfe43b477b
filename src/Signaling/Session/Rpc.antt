-- ===== src/Signaling/Session/Rpc.antt =====
-- The routing of internal/signaling/session.go: what `Handle` does with a message and `Call` with a
-- command. `encoding/json` is a parameter, one field for each type that the code decodes to.
pub mod Routing
pub mod Command
pub mod Reply
pub mod Invariant
pub mod Finish
pub mod Run
use Prim.Native.String.{String}
use text.Mathlib.Text.{◌==◌ as str_eq}
use go_ring.Common.{
  ℕ, ◌+◌, ◌%◌, ◌^◌, Bool, true, false, not, ◌&&◌, ◌||◌, Option, none, some, [], ◌∷◌, ◌++◌, Bytes,
  length, is_empty, ltb, if◌then◌else◌,
}
use go_ring.Common.Maps.{Map, lookup, insert, delete, nat_eq_instance, string_eq_instance}
use go_ring.Common.Int.{ℤ, int_eq}
use go_ring.Common.Fallible.{Result, ok, err, ◌>>=◌, ◌>>◌, guard, or_fail}
use go_ring.Common.Decimal.{decimal, bytes_eq, bytes_eq_instance}
use go_ring.Signaling.Message.{
  Message, method_pong, method_rpc, json_rpc_version, field_command, field_result,
  event_queue_capacity,
}
use go_ring.Signaling.Session.{
  SessionError, connection, rpc_error, context, deadline_exceeded, RpcReply, Session,
}

-- ServerRpcCommand: whether `Result` is there, and the code and message of `Error`.
pub record RpcCommand : Type 0 where
  pub jsonrpc : String
  pub id : Bytes
  pub has_result : Bool
  pub error : Option (ℤ × String)
  pub method : String

abbrev pub zero_command : RpcCommand
zero_command = record { jsonrpc = ""; id = []; has_result = false; error = none; method = "" }

pub record Identity : Type 0 where
  pub doorbot_id : ℤ
  pub session_id : String

-- `json.Unmarshal` and, for the message of a wrapper, `json.Marshal`; `none` is an error. A command
-- is decoded into the value that is there, whose fields stay where the text has none.
pub record SessionJson : Type 0 where
  pub decode_identity : Bytes → Option Identity
  -- ServerRpcBody: whether `Command` is there.
  pub decode_rpc_body : Bytes → Option Bool
  pub decode_fields : Bytes → Option (Map String Bytes)
  pub decode_command : RpcCommand → Bytes → Option RpcCommand
  -- RpcCommandWrapper: `Message`, or nothing where it is nil.
  pub decode_wrapper : Bytes → Option (Option (Map String Bytes))
  pub encode_message : Map String Bytes → Option Bytes
  -- RpcResultValue: `SessionId`.
  pub decode_result : Bytes → Option Bytes

abbrev pub raw_at : String → Map String Bytes → Bytes
raw_at k m = elim (lookup k m) [ none ↦ [] | some b ↦ b ]

-- What `handleRPC` makes of a command: it is no reply, it is a reply for another control session, or
-- it is a reply, with the text that it was read from.
pub data Verdict : Type 0 where
  no_reply foreign_reply : Verdict
  reply : RpcCommand → Bytes → Verdict

module _ (json : SessionJson) where
  -- The command, taken out of its wrapper if it has one, and its text.
  unfoldable pub read_command : Bytes → Result SessionError (RpcCommand × Bytes)
  read_command body = do
    command ←
        or_fail (json.decode_command zero_command body)
          (connection "invalid RPC envelope (command cannot be decoded)")
    let unwrapped = do
      wrapper ← or_fail (json.decode_wrapper body) (connection "invalid RPC wrapper")
      message ← or_fail wrapper (connection "invalid RPC wrapper")
      text ← or_fail (json.encode_message message) (connection "invalid RPC wrapper message")
      wrapped ←
          or_fail (json.decode_command command text) (connection "invalid wrapped RPC envelope")
      ok (wrapped, text)
    if str_eq command.jsonrpc "" then unwrapped else ok (command, body)

  -- The tests on a reply without an error: the result names a control session.
  unfoldable pub check_result : Bytes → RpcCommand → Bytes → Result SessionError Verdict
  check_result control_id command body = do
    fields ← or_fail (json.decode_fields body) (connection "invalid RPC result")
    session ←
        or_fail (json.decode_result (raw_at field_result fields))
          (connection "invalid RPC result identity")
    guard (not (is_empty session)) (connection "invalid RPC result identity")
    if bytes_eq session control_id then ok (reply command body) else ok foreign_reply

  unfoldable pub check_command : Bytes → RpcCommand → Bytes → Result SessionError Verdict
  unfolding check_result
  check_command control_id command body =
      let as_result = check_result control_id command body in
      let as_reply : Result SessionError Verdict = elim command.error [
        | some e ↦
            if command.has_result
            then err (connection "RPC reply must have exactly one result or error")
            else ok (reply command body)
        | none ↦
            if command.has_result
            then as_result
            else err (connection "RPC reply must have exactly one result or error")
      ] in
      if not (str_eq command.jsonrpc json_rpc_version)
      then err (connection "invalid RPC envelope (unsupported or missing jsonrpc version)")
      else if not (str_eq command.method "")
      then ok no_reply
      else as_reply

  unfoldable pub reply_of : RpcCommand → Bytes → RpcReply
  reply_of command body = elim command.error [
    | some (code, message) ↦ record { result = []; error = some (rpc_error code message) }
    | none ↦ record {
      result = elim (json.decode_fields body) [
        | none ↦ []
        | some fields ↦ raw_at field_result fields
      ];
      error = none;
    }
  ]

  -- `ch <- reply` and the removal of the call. The channel has room (Rpc.Invariant), so the send
  -- does not wait.
  unfoldable pub deliver : Session → RpcCommand → Bytes → Session
  unfolding reply_of
  deliver s command body = elim (lookup command.id s.pending) [
    | none ↦ s
    | some ch ↦ record s {
      replies = insert ch (reply_of command body) s.replies;
      pending = delete command.id s.pending;
    }
  ]

  abbrev pub act : Session → Verdict → Session × Bool
  act s no_reply = (s, false)
  act s foreign_reply = (s, true)
  act s (reply command body) = (deliver s command body, true)

  unfoldable pub handle_rpc : Session → Bytes → Result SessionError (Session × Bool)
  unfolding read_command check_command deliver
  handle_rpc s body = do
    (command, text) ← read_command body
    verdict ← check_command s.control_id command text
    ok (act s verdict)

  unfoldable pub handle_rpc_frame : Session → Bytes → Result SessionError (Session × Bool)
  unfolding handle_rpc
  handle_rpc_frame s body = do
    has_command ← or_fail (json.decode_rpc_body body) (connection "invalid RPC body")
    fields ← or_fail (json.decode_fields body) (connection "invalid RPC body")
    let command_body = raw_at field_command fields
    guard (has_command && not (is_empty command_body)) (connection "invalid RPC body")
    handle_rpc s command_body

-- The select on `s.events`.
unfoldable pub push_event : Session → Message → Session × Option SessionError
push_event s m =
    if ltb (length s.events) event_queue_capacity
    then (record s { events = s.events ++ m ∷ [] }, none)
    else (s, some SessionError.backpressure)

module _ (json : SessionJson) where
  unfoldable pub handle_rpc_message : Session → Message → Session × Option SessionError
  unfolding handle_rpc_frame push_event
  handle_rpc_message s m = elim (handle_rpc_frame json s m.body) [
    | err e ↦ (s, some e)
    | ok (s', handled) ↦ if handled then (s', none) else push_event s' m
  ]

  -- `Handle`: the connection's reader passes every message on, and gets an error or nothing.
  unfoldable pub handle : ℕ → Session → Message → Session × Option SessionError
  unfolding handle_rpc_message
  handle now s m =
      let routed : Session × Option SessionError =
        if s.closed
        then (s, s.terminal)
        else if str_eq m.method method_pong
        then (record s { last_pong = now }, none)
        else if str_eq m.method method_rpc
        then handle_rpc_message s m
        else push_event s m in
      if not (str_eq m.dialog_id s.dialog_id)
      then (s, none)
      else elim (json.decode_identity m.body) [
        | none ↦ (s, some (connection "invalid session body"))
        | some identity ↦
            if int_eq identity.doorbot_id s.device_id && str_eq identity.session_id s.signal_id
            then routed
            else (s, none)
      ]

-- `fmt.Sprintf("%s-%d", s.controlID, s.sequence)`
abbrev pub rpc_id : Bytes → ℕ → Bytes
rpc_id control n = control ++ b'-' ∷ decimal n

-- `Call` from the lock to the unlock: the new session with the number of the call, or the error.
unfoldable pub register : Session → Result (Option SessionError) (Session × ℕ)
register s =
    let sequence = (s.sequence + 1) % 2 ^ 64 in
    if s.closed
    then err s.terminal
    else ok (
      record s {
        sequence = sequence;
        pending = insert (rpc_id s.control_id sequence) sequence s.pending;
      },
      sequence,
    )

-- The deferred removal.
unfoldable pub unregister : Session → ℕ → Session
unregister s n = record s { pending = delete (rpc_id s.control_id n) s.pending }

-- The select at the end of `Call`, by the case that it takes.
pub data Outcome : Type 0 where
  replied : RpcReply → Outcome
  timed_out : SessionError → Outcome
  ended : Outcome

unfoldable pub call_result : Session → Outcome → Bytes × Option SessionError
call_result s (replied r) = (r.result, r.error)
call_result s (timed_out cause) = ([], some (context "wait for signaling RPC reply" cause))
call_result s ended = ([], s.terminal)
