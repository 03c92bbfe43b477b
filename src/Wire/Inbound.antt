-- ===== src/Wire/Inbound.antt =====
-- pkg/dependencies/websocket/wire.go: the frames that come in.
pub mod Valid
use Prim.Native.String.{String}
use text.Mathlib.Text.{◌==◌ as str_eq}
use go_ring.Common.{
  Bool, true, false, not, ◌&&◌, ◌||◌, Option, none, some, List, [], ◌∷◌, Bytes, if◌then◌else◌,
  is_empty,
}
use go_ring.Common.Maps.{Map, lookup, string_eq_instance}
use go_ring.Common.Fallible.{Result, ok, err, ◌>>=◌, ◌>>◌, guard, or_fail}
use go_ring.Signaling.Message.{Message}
use go_ring.Wire
use go_ring.Wire.Close.{normalize_close_reason_code}

-- `body` is none where the field is missing.
pub record EnvelopeFields : Type 0 where
  pub method : String
  pub dialog_id : String
  pub riid : String
  pub body : Option Bytes

-- The methods that `validateInboundFrame` knows.
pub data InboundMethod : Type 0 where
  camera_started close ice notification pong push_event push_subscription_ack rpc sdp :
      InboundMethod
  session_created : InboundMethod

-- The cases of the switch, in their order.
abbrev pub inbound_methods : Map String InboundMethod
inbound_methods =
    ("camera_started", camera_started)
    ∷ ("close", close)
    ∷ ("ice", ice)
    ∷ ("notification", notification)
    ∷ ("pong", pong)
    ∷ ("push_event", push_event)
    ∷ ("push_subscription_ack", push_subscription_ack)
    ∷ ("rpc", rpc)
    ∷ ("sdp", sdp)
    ∷ ("session_created", session_created)
    ∷ []

module _ {V : Type 0} (json : Wire.WireJson V) where
  -- One field of the envelope; a missing one leaves the zero value.
  unfoldable pub envelope_field : Map String Bytes → String → Result Wire.WireError String
  envelope_field values name = elim (lookup name values) [
    | none ↦ ok ""
    | some raw ↦ or_fail (json.decode_string raw) (Wire.undecodable name)
  ]

  -- Go takes the three fields in any order; the one that is reported may be another than here.
  unfoldable pub decode_envelope_fields : Bytes → Result Wire.WireError EnvelopeFields
  unfolding envelope_field
  decode_envelope_fields encoded =
      or_fail (json.decode_object encoded) (Wire.undecodable "envelope") >>= λ read.
      or_fail read (Wire.not_an_object "envelope") >>= λ values.
      envelope_field values "method" >>= λ method.
      envelope_field values "dialog_id" >>= λ dialog_id. envelope_field values "riid" >>= λ riid.
      ok (record {
        method = method;
        dialog_id = dialog_id;
        riid = riid;
        body = lookup "body" values;
      })

  unfoldable pub has_session_identifier : Option Bytes → Bool
  unfolding Wire.decode_body_fields
  has_session_identifier none = false
  has_session_identifier (some encoded) =
      not (is_empty encoded) && elim (Wire.decode_body_fields json encoded) [
        | err e ↦ false
        | ok fields ↦ Wire.has "session_id" fields
      ]

  -- The type argument of `validateTypedInbound` and its `required`, by method and body.
  unfoldable pub inbound_shape :
      InboundMethod → Map String Bytes → Wire.GeneratedFrame × List String
  unfolding has_session_identifier
  inbound_shape camera_started body = (Wire.server_camera_started, "doorbot_id" ∷ "session_id" ∷ [])
  inbound_shape close body = (Wire.server_close, [])
  inbound_shape ice body =
      if Wire.has "mid" body
      then (Wire.live_ice, "doorbot_id" ∷ "ice" ∷ "mid" ∷ "mlineindex" ∷ [])
      else (Wire.server_ice, "ice" ∷ "mlineindex" ∷ [])
  inbound_shape notification body =
      (Wire.session_notification, "doorbot_id" ∷ "session_id" ∷ "is_ok" ∷ "text" ∷ [])
  inbound_shape pong body = (Wire.session_pong, "doorbot_id" ∷ "session_id" ∷ [])
  inbound_shape push_event body = (
    Wire.push_event,
    "notification_scope" ∷ "notification_type" ∷ "payload" ∷ "subscription_id" ∷ [],
  )
  inbound_shape push_subscription_ack body =
      (Wire.push_subscription_ack, "status" ∷ "subscription_id" ∷ [])
  inbound_shape rpc body = (Wire.server_rpc, "command" ∷ [])
  inbound_shape sdp body =
      if has_session_identifier (lookup "session_info" body)
      then (Wire.live_answer, "doorbot_id" ∷ "session_id" ∷ "sdp" ∷ "session_info" ∷ "type" ∷ [])
      else (Wire.playback_answer, "doorbot_id" ∷ "session_id" ∷ "sdp" ∷ "type" ∷ [])
  inbound_shape session_created body = (Wire.session_created, "doorbot_id" ∷ "session_id" ∷ [])

  -- A close frame is normalised before it is decoded.
  unfoldable pub validate_typed_inbound :
      Bytes
      → EnvelopeFields
      → Map String Bytes
      → Wire.GeneratedFrame
      → List String
      → Result Wire.WireError (Unit {0})
  unfolding normalize_close_reason_code Wire.require_json_fields
  validate_typed_inbound encoded envelope body frame required =
      let method = envelope.method in
      (if str_eq method "close" then normalize_close_reason_code json encoded else ok encoded)
      >>= λ input. or_fail (json.decode_frame frame input) (Wire.undecodable method) >>= λ decoded.
          guard
            (str_eq decoded.method method
              && (str_eq decoded.dialog_id envelope.dialog_id && decoded.has_body))
            (Wire.wrong_shape method)
          >> Wire.require_json_fields body required

  unfoldable pub validate_inbound_frame :
      Bytes → EnvelopeFields → Map String Bytes → Result Wire.WireError (Unit {0})
  unfolding inbound_shape validate_typed_inbound
  validate_inbound_frame encoded envelope body =
      or_fail (lookup envelope.method inbound_methods) (Wire.unknown_method envelope.method)
      >>= λ method.
          let (frame, required) = inbound_shape method body in
          validate_typed_inbound encoded envelope body frame required

  unfoldable pub unmarshal_signaling_frame : Bytes → Result Wire.WireError Message
  unfolding decode_envelope_fields Wire.decode_body_fields validate_inbound_frame
  unmarshal_signaling_frame encoded =
      or_fail (json.decode_discriminator encoded) (Wire.undecodable "discriminator") >>= λ parts.
      or_fail parts Wire.no_method_or_body >>= λ enumerated.
      decode_envelope_fields encoded >>= λ fields.
      or_fail enumerated (Wire.unknown_method fields.method) >>= λ method.
      guard (str_eq method fields.method) (Wire.unknown_method fields.method)
      >> (or_fail fields.body Wire.no_dialog_or_body >>= λ raw.
          guard (not (str_eq fields.dialog_id "")) Wire.no_dialog_or_body
          >> (Wire.decode_body_fields json raw >>= λ body.
              validate_inbound_frame encoded fields body
              >> ok (record {
                method = fields.method;
                dialog_id = fields.dialog_id;
                riid = fields.riid;
                body = raw;
              })))
