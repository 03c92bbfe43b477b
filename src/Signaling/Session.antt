-- ===== src/Signaling/Session.antt =====
-- internal/signaling/session.go: the state of a session, its creation, its end, and the goroutines'
-- reactions. Time is the clock's reading in milliseconds. Each function is what one goroutine does
-- between two waits; `done` is closed exactly when `closed` is set, and `finish` also cancels `ctx`.
pub mod Ptz
pub mod Rpc
pub mod Liveness
use Prim.Native.String.{String}
use text.Mathlib.Text.{◌==◌ as str_eq}
use go_ring.Common.{
  ℕ, ◌+◌, ◌-◌, ◌*◌, Bool, true, false, not, ◌&&◌, ◌||◌, Option, none, some, List, [], ◌∷◌, ◌++◌,
  Bytes, length, is_empty, ltb, leb, if◌then◌else◌,
}
use go_ring.Common.Maps.{Map, lookup, insert, nat_eq_instance}
use go_ring.Common.Int.{ℤ, pos, negsuc, to_ℕ, is_positive, int_eq}
use go_ring.Signaling.Message.{
  Message, max_session_age, max_heartbeat_interval, missed_heartbeat_intervals, method_ping,
}

-- Errors, by the source's variables and messages; `transport` stands for an error value of the
-- connection below, `canceled` and `deadline_exceeded` for those of package context.
pub data SessionError : Type 0 where
  closed_error expired heartbeat_timeout backpressure canceled deadline_exceeded : SessionError
  bad_request : String → SessionError
  connection : String → SessionError
  internal : String → SessionError
  rpc_error : ℤ → String → SessionError
  context : String → SessionError → SessionError
  transport : ℕ → SessionError

pub record RpcReply : Type 0 where
  pub result : Bytes
  pub error : Option SessionError

-- `pending` maps the identity of a call to its channel. A channel is named by the number of its
-- call, and `replies` holds what stands in the channels, each of which has room for one reply.
pub record Session : Type 0 where
  pub device_id : ℤ
  pub dialog_id : String
  pub signal_id : String
  pub control_id : Bytes
  pub heartbeat : ℕ
  pub last_pong : ℕ
  pub expires_at : ℕ
  pub terminal : Option SessionError
  pub closed : Bool
  pub sequence : ℕ  -- uint64
  pub pending : Map Bytes ℕ
  pub replies : Map ℕ RpcReply
  pub events : List Message

pub record SessionConfig : Type 0 where
  pub device_id : ℤ
  pub dialog_id : String
  pub signal_id : String
  pub control_id : String
  pub heartbeat : ℤ
  pub max_age : ℤ
  pub has_send : Bool

abbrev pub at_most : ℤ → ℕ → Bool
at_most (pos n) m = leb n m
at_most (negsuc n) m = true

abbrev effective_max_age : ℤ → ℤ
effective_max_age d = if int_eq d (pos 0) then pos max_session_age else d

-- `NewSession`; `text` gives the bytes of an identifier, `ctx_err` is `ctx.Err()`.
unfoldable pub new_session :
    (String → Bytes)
    → Option SessionError
    → ℕ
    → SessionConfig
    → Option SessionError × Option Session
new_session text ctx_err now c =
    let max_age = effective_max_age c.max_age in
    if not (is_positive c.device_id)
      || (str_eq c.dialog_id ""
          || (str_eq c.signal_id ""
              || (str_eq c.control_id "" || (str_eq c.signal_id c.control_id || not c.has_send))))
    then (some (bad_request "invalid session configuration"), none)
    else if not (is_positive c.heartbeat) || not (at_most c.heartbeat max_heartbeat_interval)
    then (some (bad_request "invalid heartbeat interval"), none)
    else if not (is_positive max_age) || not (at_most max_age max_session_age)
    then (some (bad_request "invalid maximum session age"), none)
    else elim ctx_err [
      | some e ↦ (some (context "create signaling session" e), none)
      | none ↦ (
        none,
        some (record {
          device_id = c.device_id;
          dialog_id = c.dialog_id;
          signal_id = c.signal_id;
          control_id = text c.control_id;
          heartbeat = to_ℕ c.heartbeat;
          last_pong = now;
          expires_at = now + to_ℕ max_age;
          terminal = none;
          closed = false;
          sequence = 0;
          pending = [];
          replies = [];
          events = [];
        }),
      )
    ]

-- The loop of `finish`: a send with a default, so a full channel keeps what it holds.
unfoldable pub deliver_all : SessionError → Map Bytes ℕ → Map ℕ RpcReply → Map ℕ RpcReply
deliver_all e [] replies = replies
deliver_all e ((id, ch) ∷ pending) replies = deliver_all e pending (elim (lookup ch replies) [
  | some full ↦ replies
  | none ↦ insert ch (record { result = []; error = some e }) replies
])

unfoldable pub finish : Session → SessionError → Session
unfolding deliver_all
finish s e = if s.closed then s else record s {
  closed = true;
  terminal = some e;
  pending = [];
  replies = deliver_all e s.pending s.replies;
}

-- `Fail`: a missing error is `ErrClosed`. `Close` is `finish s closed_error`.
unfoldable pub fail : Session → Option SessionError → Session
unfolding finish
fail s none = finish s closed_error
fail s (some e) = finish s e

-- `Send`: `write` is the transport, as the context that it is given lets it end; `default_body` is
-- the encoded SessionBody, or nothing where it cannot be encoded.
unfoldable pub send :
    (Message → Option SessionError)
    → Option Bytes
    → Option SessionError
    → ℕ
    → Session
    → String
    → Bytes
    → Session × Option SessionError
unfolding finish
send write default_body ctx_err now s method body =
    let message = λ (b : Bytes).
      let m : Message = record { method = method; dialog_id = s.dialog_id; riid = ""; body = b } in
      m in
    let encoded : Option Bytes = if is_empty body then default_body else some body in
    let sent : Session × Option SessionError = elim encoded [
      | none ↦ (s, some (internal "invalid session payload"))
      | some b ↦ (s, write (message b))
    ] in
    let attempt : Session × Option SessionError =
      if s.closed
      then (s, s.terminal)
      else if leb s.expires_at now
      then (finish s expired, some expired)
      else sent in
    elim ctx_err [ some e ↦ (s, some (context "send signaling message" e)) | none ↦ attempt ]

-- The goroutine of the heartbeat at a tick. `NewSession` and this loop arm the tick at each interval.
unfoldable pub on_tick : (Message → Option SessionError) → Option Bytes → ℕ → Session → Session
unfolding send
on_tick write default_body now s =
    let ctx_err : Option SessionError = if s.closed then some canceled else none in
    let (s', failed) = send write default_body ctx_err now s method_ping [] in
    let pinged : Session = elim failed [ none ↦ s' | some e ↦ finish s' e ] in
    if leb (missed_heartbeat_intervals * s.heartbeat) (now - s.last_pong)
    then finish s heartbeat_timeout
    else pinged
