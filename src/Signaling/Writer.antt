-- ===== src/Signaling/Writer.antt =====
-- The queues of `SignalingWriter`, pkg/dependencies/websocket/writer.go. `encoding/json` is a
-- parameter. A request is a pointer in the source: `id` is its identity, which `remove` compares.
pub mod Fairness
pub mod Runner
use Prim.Native.String.{String}
use text.Mathlib.Text.{◌==◌ as str_eq}
use go_ring.Common.{
  ℕ, ◌+◌, Bool, true, false, not, ◌&&◌, ◌||◌, Option, none, some, List, [], ◌∷◌, ◌++◌, Bytes,
  length, is_empty, ltb, leb, ◌==◌, if◌then◌else◌,
}
use go_ring.Common.Maps.{Map, lookup, string_eq_instance}
use go_ring.Signaling.Message.{
  Message, method_close, method_ping, method_pong, method_rpc, rpc_pan_continuous,
  rpc_tilt_continuous, field_method, field_command, field_params, field_speed,
  signaling_write_queue_capacity, priority_write_burst_limit,
}

-- What the code reads of a decoded PtzContinuousCommandBody: `body.Command`, its `Params` and
-- `Method`, and whether `Speed` is 0.
pub record PtzParams : Type 0 where
  pub speed_is_zero : Bool

pub record PtzCommand : Type 0 where
  pub params : Option PtzParams
  pub method : Option (Option String)

pub record PtzBody : Type 0 where
  pub command : Option PtzCommand

-- `json.Unmarshal` at the types that the writer decodes to; `none` is an error.
pub record WriterJson : Type 0 where
  pub decode_ptz_body : Bytes → Option PtzBody
  pub decode_object : Bytes → Option (Map String Bytes)
  pub decode_string : Bytes → Option String
  pub decode_number_is_zero : Bytes → Option Bool

pub record Request : Type 0 where
  pub id : ℕ
  pub message : Message

pub record SignalingWriter : Type 0 where
  pub priority : List Request
  pub normal : List Request
  pub streak : ℕ

-- A missing key gives the empty text, as the nil RawMessage of the source.
abbrev raw_at : String → Map String Bytes → Bytes
raw_at k m = elim (lookup k m) [ none ↦ [] | some b ↦ b ]

module _ (json : WriterJson) where
  -- The chain of decodings of `hasExplicitPTZStop`.
  unfoldable pub has_explicit_ptz_stop : Bytes → String → Bool
  has_explicit_ptz_stop encoded method = elim (json.decode_object encoded) [
    | none ↦ false
    | some envelope ↦ elim (json.decode_object (raw_at field_command envelope)) [
      | none ↦ false
      | some command ↦ elim (json.decode_string (raw_at field_method command)) [
        | none ↦ false
        | some wire_method ↦ elim (json.decode_object (raw_at field_params command)) [
          | none ↦ false
          | some params ↦ elim (json.decode_number_is_zero (raw_at field_speed params)) [
            | none ↦ false
            | some zero_speed ↦ str_eq wire_method method && zero_speed
          ]
        ]
      ]
    ]
  ]

  -- The tests on `body.Command` behind a decoding that succeeded.
  unfoldable pub priority_command : Bytes → PtzBody → Bool
  unfolding has_explicit_ptz_stop
  priority_command encoded body = elim body.command [
    | none ↦ false
    | some command ↦ elim command.params [
      | none ↦ false
      | some params ↦ elim command.method [
        | none ↦ false
        | some value ↦ elim value [
          | none ↦ false
          | some method ↦
              params.speed_is_zero
              && ((str_eq method rpc_pan_continuous || str_eq method rpc_tilt_continuous)
                  && has_explicit_ptz_stop encoded method)
        ]
      ]
    ]
  ]

  unfoldable pub priority_signaling_message : Message → Bool
  unfolding priority_command
  priority_signaling_message m =
      if str_eq m.method method_close || str_eq m.method method_ping || str_eq m.method method_pong
      then true
      else if not (str_eq m.method method_rpc)
      then false
      else elim (json.decode_ptz_body m.body) [
        | none ↦ false
        | some body ↦ priority_command m.body body
      ]

  unfoldable pub queue : SignalingWriter → Request → SignalingWriter × Bool
  unfolding priority_signaling_message
  queue w r =
      if leb signaling_write_queue_capacity (length w.priority + length w.normal)
      then (w, false)
      else if priority_signaling_message r.message
      then (record w { priority = w.priority ++ r ∷ [] }, true)
      else (record w { normal = w.normal ++ r ∷ [] }, true)

-- The first entry that is the request is cut out; the flag says that there was one.
unfoldable pub remove_from : ℕ → List Request → List Request × Bool
remove_from id [] = ([], false)
remove_from id (q ∷ qs) =
    let (rest, found) = remove_from id qs in if q.id == id then (qs, true) else (q ∷ rest, found)

unfoldable pub remove : SignalingWriter → ℕ → SignalingWriter
unfolding remove_from
remove w id =
    let (priority, found) = remove_from id w.priority in
    let (normal, _) = remove_from id w.normal in
    if found then record w { priority = priority } else record w { normal = normal }

-- `next` takes the head of a queue only behind a test that it is not empty.
unfoldable pub take_normal : SignalingWriter → List Request → SignalingWriter × Option Request
take_normal w [] = (w, none)
take_normal w (r ∷ rest) = (record w { normal = rest; streak = 0 }, some r)

unfoldable pub take_priority : SignalingWriter → List Request → SignalingWriter × Option Request
take_priority w [] = (w, none)
take_priority w (r ∷ rest) = (record w { priority = rest; streak = w.streak + 1 }, some r)

unfoldable pub next : SignalingWriter → SignalingWriter × Option Request
unfolding take_normal take_priority
next w =
    if is_empty w.priority && is_empty w.normal
    then (w, none)
    else if not (is_empty w.normal)
        && (is_empty w.priority || leb priority_write_burst_limit w.streak)
    then take_normal w w.normal
    else take_priority w w.priority

-- The queued requests, in the order in which `drain` answers them, and the emptied writer.
unfoldable pub drain : SignalingWriter → SignalingWriter × List Request
drain w = (record w { priority = []; normal = [] }, w.priority ++ w.normal)
