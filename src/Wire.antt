-- ===== src/Wire.antt =====
-- pkg/dependencies/websocket/wire.go: what both directions of the signaling wire share. `encoding/json`
-- and bytes.TrimSpace are parameters.
pub mod Generated
pub mod Close
pub mod Inbound
pub mod Outbound
use Prim.Native.String.{String}
use go_ring.Common.{
  Bool, true, false, Option, none, some, List, [], ◌∷◌, Bytes, ◌≡◌, refl, ◌↔◌, bind-eq-some, All,
  Option-cases, inl, inr, arith,
}
use go_ring.Common.Maps.{Map, lookup, string_eq_instance}
use go_ring.Common.Fallible.{Result, ok, err, ◌>>=◌, ◌>>◌, guard, or_fail, bind-eq-ok, guard_iff}
use go_ring.Signaling.Message.{Message}

-- The bad request errors by their text, with the values that are formatted in.
pub data WireError : Type 0 where
  undecodable not_an_object missing_field unknown_method wrong_shape : String → WireError
  no_method_or_body no_dialog_or_body no_method_or_dialog no_body : WireError
  no_stream_option close_reason close_code unencodable : WireError

-- The generated frame types, those that come in first.
pub data GeneratedFrame : Type 0 where
  server_camera_started server_close server_ice session_notification : GeneratedFrame
  session_pong push_event push_subscription_ack server_rpc live_answer : GeneratedFrame
  playback_answer session_created : GeneratedFrame
  live_ice session_activate playback_close session_close ice_candidate : GeneratedFrame
  live_view session_microphone session_ping playback_offer push_heartbeat : GeneratedFrame
  push_subscribe push_unsubscribe ptz_continuous_command ptz_command : GeneratedFrame
  stream_audio_video stream_audio stream_video : GeneratedFrame

-- What `metadata` reads of a decoded frame.
pub record FrameMetadata : Type 0 where
  pub method : String
  pub dialog_id : String
  pub has_body : Bool

-- A generated frame to encode; `LiveViewFrame` has no `Riid`.
pub record EncodedFrame (V : Type 0) : Type 0 where
  pub method : String
  pub dialog_id : String
  pub riid : Option String
  pub body : V

-- `decode_…` is json.Unmarshal into a fresh variable, `none` an error; a nil map is `none` inside. The
-- discriminator is its method, if that is an enumerated string, or `none` where a part is missing.
pub record WireJson (V : Type 0) : Type 0 where
  pub decode_object : Bytes → Option (Option (Map String Bytes))
  pub decode_string : Bytes → Option String
  pub decode_number : Bytes → Option Bytes
  pub decode_discriminator : Bytes → Option (Option (Option String))
  pub decode_frame : GeneratedFrame → Bytes → Option FrameMetadata
  pub decode_body : GeneratedFrame → Bytes → Option V
  pub encode_frame : GeneratedFrame → EncodedFrame V → Option Bytes
  pub encode_object : Map String Bytes → Option Bytes
  pub trim_space : Bytes → Bytes

-- `_, exists := fields[name]`
abbrev pub has : String → Map String Bytes → Bool
has name fields = elim (lookup name fields) [ none ↦ false | some raw ↦ true ]

module _ {V : Type 0} (json : WireJson V) where
  unfoldable pub decode_body_fields : Bytes → Result WireError (Map String Bytes)
  decode_body_fields encoded =
      or_fail (json.decode_object encoded) (undecodable "body") >>= λ fields.
      or_fail fields (not_an_object "body")

  -- A body that is a JSON object with the fields `names`.
  abbrev pub HasFields : Bytes → List String → Type 0
  HasFields encoded names =
      (fields : Map String Bytes) × (json.decode_object encoded ≡ some (some fields))
      × All (λ name. has name fields ≡ true) names

  pub decode_body_fields_iff :
      (encoded : Bytes) (fields : Map String Bytes)
      → (decode_body_fields encoded ≡ ok fields) ↔ (json.decode_object encoded ≡ some (some fields))
  unfolding decode_body_fields
  decode_body_fields_iff encoded fields = elim (Option-cases (json.decode_object encoded)) [
    | inl failed ↦ ground arith
    | inr (r, read) ↦ elim (Option-cases r) [
      | inl null ↦ ground arith
      | inr (m, there) ↦ ground arith
    ]
  ]

unfoldable pub require_json_fields : Map String Bytes → List String → Result WireError (Unit {0})
require_json_fields fields [] = ok tt
require_json_fields fields (name ∷ required) =
    guard (has name fields) (missing_field name) >> require_json_fields fields required

pub require_json_fields_iff :
    (fields : Map String Bytes) (required : List String)
    → (require_json_fields fields required ≡ ok tt) ↔ All (λ name. has name fields ≡ true) required
unfolding require_json_fields
require_json_fields_iff fields [] = (λ h. tt, λ h. refl)
require_json_fields_iff fields (name ∷ required) =
    let first =
      guard_iff (has name fields) (missing_field name) (require_json_fields fields required)
        {a = tt} in
    let later = require_json_fields_iff fields required in
    (λ h. ((first.0 h).0, later.0 (first.0 h).1), λ h. first.1 (h.0, later.1 h.1))
