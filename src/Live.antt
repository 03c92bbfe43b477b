-- ===== src/Live.antt =====
-- pkg/dependencies/websocket/live_negotiation.go: how a negotiation takes in the messages that lead to
-- a live session. `encoding/json` is a parameter.
pub mod Answer
use Prim.Native.String.{String}
use text.Mathlib.Text.{◌==◌ as str_eq}
use go_ring.Common.{
  ℕ, ◌*◌, Bool, true, false, not, ◌&&◌, ◌||◌, Option, none, some, List, [], ◌∷◌, Bytes,
  if◌then◌else◌,
}
use go_ring.Common.Maps.{Map, lookup, string_eq_instance}
use go_ring.Common.Int.{ℤ, pos, to_ℕ, is_positive, int_eq}
use go_ring.Common.Fallible.{Result, ok, err, ◌>>=◌, ◌>>◌, guard, or_fail}
use go_ring.Signaling.Message.{Message}
use go_ring.Signaling.Session.{at_most}

-- Errors by their text; `deadline` is the error of `ctx`, `parent` that of the connection.
pub data NegotiationError : Type 0 where
  connection closed : String → NegotiationError
  deadline parent : NegotiationError

-- `heartbeat` is in milliseconds.
pub record LiveNegotiation : Type 0 where
  pub signal_id : String
  pub riid : String
  pub answer_sdp : String
  pub control_id : String
  pub heartbeat : ℕ

pub record SessionCreatedBody : Type 0 where
  pub doorbot_id : ℤ
  pub session_id : String

-- `session_info` is the identity in `SessionInfo`, if there is one.
pub record LiveAnswerBody : Type 0 where
  pub doorbot_id : ℤ
  pub session_id : String
  pub sdp : String
  pub reserved_type : String
  pub session_info : Option String

-- `json.Unmarshal` at the types that are decoded to; `none` is an error.
pub record NegotiationJson : Type 0 where
  pub decode_created : Bytes → Option SessionCreatedBody
  pub decode_object : Bytes → Option (Map String Bytes)
  pub decode_int : Bytes → Option ℤ
  pub decode_answer : Bytes → Option LiveAnswerBody

abbrev pub default_heartbeat : ℕ
default_heartbeat = 5000

abbrev pub raw_at : String → Map String Bytes → Bytes
raw_at k m = elim (lookup k m) [ none ↦ [] | some b ↦ b ]

-- A missing `riid` leaves the one that is known.
unfoldable pub keep_riid : String → String → String
keep_riid known given = if str_eq given "" then known else given

-- The test on a second `session_created`.
unfoldable pub conflicts : LiveNegotiation → String → Message → Bool
conflicts state session m =
    not (str_eq session state.signal_id)
    || (not (str_eq m.riid "") && (not (str_eq state.riid "") && not (str_eq m.riid state.riid)))

-- What is returned with an error: the state so far, of which the caller takes the identities to close
-- the dialog.
abbrev pub Refusal : Type 0
Refusal = NegotiationError × LiveNegotiation

-- The interval in `session_info`, in seconds, or the one that was there.
unfoldable pub negotiated_heartbeat :
    NegotiationJson → Refusal → ℕ → Map String Bytes → Result Refusal ℕ
negotiated_heartbeat json bad known info = elim (lookup "ping_interval" info) [
  | none ↦ ok known
  | some raw ↦ or_fail (json.decode_int raw) bad >>= λ seconds.
      guard (is_positive seconds && at_most seconds 60) bad >> ok (to_ℕ seconds * 1000)
]

-- The tests on the answer itself, with the state that has the new heartbeat.
unfoldable pub check_answer :
    NegotiationJson → LiveNegotiation → Message → ℤ → Result Refusal LiveNegotiation
unfolding keep_riid
check_answer json state m device =
    let bad : Refusal = (connection "invalid SDP answer", state) in
    or_fail (json.decode_answer m.body) bad >>= λ body.
    guard
      (int_eq body.doorbot_id device
        && (str_eq body.reserved_type "answer" && not (str_eq body.sdp "")))
      bad
    >> (or_fail body.session_info bad >>= λ control.
        guard (str_eq state.signal_id "" || str_eq body.session_id state.signal_id)
          (connection "SDP signaling session mismatch", state)
        >> ok (record state {
          signal_id = body.session_id;
          answer_sdp = body.sdp;
          control_id = control;
          riid = keep_riid state.riid m.riid;
        }))

-- `acceptLiveAnswer`
unfoldable pub accept_live_answer :
    NegotiationJson → LiveNegotiation → Message → ℤ → Result Refusal LiveNegotiation
unfolding negotiated_heartbeat check_answer
accept_live_answer json state m device =
    let bad : Refusal = (connection "invalid SDP answer", state) in
    or_fail (json.decode_object m.body) bad >>= λ envelope.
    or_fail (json.decode_object (raw_at "session_info" envelope)) bad >>= λ info.
    negotiated_heartbeat json (connection "invalid negotiated heartbeat interval", state)
      state.heartbeat info
    >>= λ interval. check_answer json (record state { heartbeat = interval }) m device

unfoldable pub accept_session_created :
    NegotiationJson → LiveNegotiation → Bool → Message → ℤ → Result Refusal (LiveNegotiation × Bool)
unfolding conflicts keep_riid
accept_session_created json state created m device =
    let bad : Refusal = (connection "invalid session_created response", state) in
    or_fail (json.decode_created m.body) bad >>= λ body.
    guard (int_eq body.doorbot_id device && not (str_eq body.session_id "")) bad
    >> (guard (not (created && conflicts state body.session_id m))
          (connection "conflicting session_created response", state)
        >> ok (
          record state { signal_id = body.session_id; riid = keep_riid state.riid m.riid },
          true,
        ))

unfoldable pub accept_live_negotiation_message :
    NegotiationJson → LiveNegotiation → Bool → Message → ℤ → Result Refusal (LiveNegotiation × Bool)
unfolding accept_session_created accept_live_answer
accept_live_negotiation_message json state created m device =
    let answered =
      guard created (connection "SDP answer before session_created", state)
      >> (accept_live_answer json state m device >>= λ s. ok (s, created)) in
    if str_eq m.method "session_created"
    then accept_session_created json state created m device
    else if str_eq m.method "sdp"
    then answered
    else if str_eq m.method "close"
    then err (closed "signaling peer closed during negotiation", state)
    else ok (state, created)

-- What the select of `AwaitLiveAnswer` takes next.
pub data Arrival : Type 0 where
  message : Message → Arrival
  context_done parent_done : Arrival

-- The loop of `AwaitLiveAnswer` over what arrives; `none` while it still waits.
unfoldable pub await_loop :
    NegotiationJson
    → ℤ
    → LiveNegotiation
    → Bool
    → List Arrival
    → Option (Result Refusal LiveNegotiation)
unfolding accept_live_negotiation_message
await_loop json device state created [] =
    if str_eq state.answer_sdp "" || str_eq state.signal_id "" then none else some (ok state)
await_loop json device state created (message m ∷ rest) =
    let finished = not (str_eq state.answer_sdp "" || str_eq state.signal_id "") in
    let later = λ (s : LiveNegotiation) (c : Bool). await_loop json device s c rest in
    let step : Option (Result Refusal LiveNegotiation) =
      elim (accept_live_negotiation_message json state created m device) [
        | err e ↦ some (err e)
        | ok (s, c) ↦ later s c
      ] in
    if finished then some (ok state) else step
await_loop json device state created (context_done ∷ rest) =
    if str_eq state.answer_sdp "" || str_eq state.signal_id ""
    then some (err (deadline, state))
    else some (ok state)
await_loop json device state created (parent_done ∷ rest) =
    if str_eq state.answer_sdp "" || str_eq state.signal_id ""
    then some (err (parent, state))
    else some (ok state)

unfoldable pub await_live_answer :
    NegotiationJson → ℤ → List Arrival → Option (Result Refusal LiveNegotiation)
unfolding await_loop
await_live_answer json device arrivals =
    let start : LiveNegotiation = record {
      signal_id = "";
      riid = "";
      answer_sdp = "";
      control_id = "";
      heartbeat = default_heartbeat;
    } in
    await_loop json device start false arrivals
