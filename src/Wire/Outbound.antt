-- ===== src/Wire/Outbound.antt =====
-- pkg/dependencies/websocket/wire.go: the frames that go out.
pub mod Valid
use Prim.Native.String.{String}
use text.Mathlib.Text.{◌==◌ as str_eq}
use go_ring.Common.{
  Bool, true, false, not, ◌&&◌, ◌||◌, Option, none, some, List, [], ◌∷◌, Bytes, if◌then◌else◌,
  is_empty, codes,
}
use go_ring.Common.Decimal.{bytes_eq}
use go_ring.Common.Maps.{Map, lookup, string_eq_instance}
use go_ring.Common.Fallible.{Result, ok, err, ◌>>=◌, ◌>>◌, guard, or_fail}
use go_ring.Signaling.Message.{Message}
use go_ring.Wire

module _ {V : Type 0} (json : Wire.WireJson V) where
  unfoldable pub body_has_property : Bytes → String → Bool
  body_has_property body key = elim (json.decode_object body) [
    | none ↦ false
    | some none ↦ false
    | some (some fields) ↦ Wire.has key fields
  ]

  -- The generated frame around a decoded body.
  abbrev frame_of : Wire.GeneratedFrame → String → Message → V → Wire.EncodedFrame V
  frame_of Wire.live_view method m body = record {
    method = method;
    dialog_id = m.dialog_id;
    riid = none;
    body = body;
  }
  frame_of _ method m body = record {
    method = method;
    dialog_id = m.dialog_id;
    riid = some m.riid;
    body = body;
  }

  unfoldable pub marshal_generated_frame :
      Message → Wire.GeneratedFrame → String → List String → Result Wire.WireError Bytes
  unfolding Wire.require_json_fields
  marshal_generated_frame m frame method required =
      let trimmed = json.trim_space m.body in
      guard (str_eq m.method method && not (str_eq m.dialog_id "")) Wire.no_method_or_dialog
      >> (guard (not (is_empty trimmed || bytes_eq trimmed (codes "null"))) Wire.no_body
          >> (or_fail (json.decode_object m.body) (Wire.undecodable "body") >>= λ read.
              or_fail read (Wire.not_an_object "body") >>= λ fields.
              Wire.require_json_fields fields required
              >> (or_fail (json.decode_body frame m.body) (Wire.undecodable method) >>= λ body.
                  or_fail (json.encode_frame frame (frame_of frame method m body))
                    Wire.unencodable)))

  unfoldable pub marshal_close_frame : Message → Result Wire.WireError Bytes
  unfolding marshal_generated_frame body_has_property
  marshal_close_frame m =
      if body_has_property m.body "reason"
      then marshal_generated_frame m Wire.playback_close "close"
          ("doorbot_id" ∷ "session_id" ∷ "reason" ∷ [])
      else marshal_generated_frame m Wire.session_close "close" ("doorbot_id" ∷ "session_id" ∷ [])

  unfoldable pub marshal_ice_frame : Message → Result Wire.WireError Bytes
  unfolding marshal_generated_frame body_has_property
  marshal_ice_frame m =
      if body_has_property m.body "mid"
      then marshal_generated_frame m Wire.live_ice "ice"
          ("doorbot_id" ∷ "ice" ∷ "mid" ∷ "mlineindex" ∷ [])
      else marshal_generated_frame m Wire.ice_candidate "ice"
          ("doorbot_id" ∷ "session_id" ∷ "ice" ∷ "mlineindex" ∷ [])

  unfoldable pub decode_body_property :
      Map String Bytes → String → Result Wire.WireError (Map String Bytes)
  unfolding Wire.decode_body_fields
  decode_body_property fields key =
      or_fail (lookup key fields) (Wire.missing_field key) >>= Wire.decode_body_fields json

  unfoldable pub rpc_command_method : Bytes → Result Wire.WireError String
  unfolding Wire.decode_body_fields
  rpc_command_method body = Wire.decode_body_fields json body >>= λ fields.
      or_fail (lookup "command" fields) (Wire.missing_field "command") >>= λ command_raw.
      Wire.decode_body_fields json command_raw >>= λ command.
      or_fail (lookup "method" command) (Wire.missing_field "method") >>= λ method_raw.
      or_fail (json.decode_string method_raw) (Wire.undecodable "method")

  unfoldable pub validate_rpc_fields :
      Bytes → List String → List String → Result Wire.WireError (Unit {0})
  unfolding Wire.decode_body_fields Wire.require_json_fields decode_body_property
  validate_rpc_fields body command_required params_required =
      Wire.decode_body_fields json body >>= λ fields.
      decode_body_property fields "command" >>= λ command.
      Wire.require_json_fields command command_required
      >> (decode_body_property command "params" >>= λ params.
          Wire.require_json_fields params params_required)

  -- What both pairs of cases of `marshalRPCFrame` do.
  abbrev marshal_rpc : Message → Wire.GeneratedFrame → List String → Result Wire.WireError Bytes
  unfolding marshal_generated_frame validate_rpc_fields
  marshal_rpc m frame params =
      validate_rpc_fields m.body ("jsonrpc" ∷ "id" ∷ "method" ∷ "params" ∷ []) params
      >> marshal_generated_frame m frame "rpc" ("doorbot_id" ∷ "session_id" ∷ "command" ∷ [])

  unfoldable pub marshal_rpc_frame : Message → Result Wire.WireError Bytes
  unfolding rpc_command_method marshal_rpc
  marshal_rpc_frame m = rpc_command_method m.body >>= λ method.
      if str_eq method "PTZ.Pan.Continuous" || str_eq method "PTZ.Tilt.Continuous"
      then marshal_rpc m Wire.ptz_continuous_command
          ("sessionId" ∷ "timestamp" ∷ "version" ∷ "direction" ∷ "speed" ∷ [])
      else if str_eq method "PTZ.Pan.Step" || str_eq method "PTZ.Tilt.Step"
      then marshal_rpc m Wire.ptz_command ("sessionId" ∷ "timestamp" ∷ "version" ∷ "direction" ∷ [])
      else err (Wire.unknown_method method)

  unfoldable pub marshal_stream_options : Message → Result Wire.WireError Bytes
  unfolding marshal_generated_frame body_has_property
  marshal_stream_options m =
      let has_audio = body_has_property m.body "audio_enabled" in
      let has_video = body_has_property m.body "video_enabled" in
      let options = λ (frame : Wire.GeneratedFrame) (more : List String).
        marshal_generated_frame m frame "stream_options" ("doorbot_id" ∷ "session_id" ∷ more) in
      if has_audio && has_video
      then options Wire.stream_audio_video ("audio_enabled" ∷ "video_enabled" ∷ [])
      else if has_audio
      then options Wire.stream_audio ("audio_enabled" ∷ [])
      else if has_video
      then options Wire.stream_video ("video_enabled" ∷ [])
      else err Wire.no_stream_option

  -- The cases of the switch, in their order, with what each calls.
  unfoldable pub outbound_methods : Map String (Message → Result Wire.WireError Bytes)
  unfolding marshal_generated_frame marshal_close_frame marshal_ice_frame marshal_rpc_frame
      marshal_stream_options
  outbound_methods =
      (
        "activate_session",
        λ m.
            marshal_generated_frame m Wire.session_activate "activate_session"
              ("doorbot_id" ∷ "session_id" ∷ []),
      )
      ∷ ("close", marshal_close_frame)
      ∷ ("ice", marshal_ice_frame)
      ∷ (
        "live_view",
        λ m.
            marshal_generated_frame m Wire.live_view "live_view"
              ("doorbot_id" ∷ "sdp" ∷ "stream_options" ∷ "type" ∷ []),
      )
      ∷ (
        "mic_enable",
        λ m.
            marshal_generated_frame m Wire.session_microphone "mic_enable"
              ("doorbot_id" ∷ "session_id" ∷ "enabled" ∷ []),
      )
      ∷ (
        "ping",
        λ m. marshal_generated_frame m Wire.session_ping "ping" ("doorbot_id" ∷ "session_id" ∷ []),
      )
      ∷ (
        "playback",
        λ m.
            marshal_generated_frame m Wire.playback_offer "playback"
              ("doorbot_id" ∷ "entry_point" ∷ "sdp" ∷ "type" ∷ []),
      )
      ∷ (
        "push_heartbeat",
        λ m.
            marshal_generated_frame m Wire.push_heartbeat "push_heartbeat" ("subscription_id" ∷ []),
      )
      ∷ (
        "push_subscribe",
        λ m.
            marshal_generated_frame m Wire.push_subscribe "push_subscribe"
              ("requested_notifications" ∷ []),
      )
      ∷ (
        "push_unsubscribe",
        λ m.
            marshal_generated_frame m Wire.push_unsubscribe "push_unsubscribe"
              ("subscription_id" ∷ []),
      )
      ∷ ("rpc", marshal_rpc_frame)
      ∷ ("stream_options", marshal_stream_options)
      ∷ []

  unfoldable pub marshal_signaling_frame : Message → Result Wire.WireError Bytes
  unfolding outbound_methods
  marshal_signaling_frame m =
      or_fail (lookup m.method outbound_methods) (Wire.unknown_method m.method) >>= λ marshal.
      marshal m
