-- ===== src/Wire/Outbound/Valid.antt =====
-- What holds of a message that `marshalSignalingFrame` encodes.
use Prim.Native.String.{String}
use text.Mathlib.Text.{◌==◌ as str_eq}
use text.Mathlib.TextEquality.{eq_iff}
use go_ring.Common.{
  ◌≡◌, refl, sym, ap, ◌∙◌, subst, ◌≢◌, true, false, not, ◌&&◌, ◌||◌, some, Bytes, All, arith,
  is_empty, codes,
}
use go_ring.Common.Decimal.{bytes_eq}
use go_ring.Common.Maps.{Map, lookup, AllEntries-lookup, string_eq_instance}
use go_ring.Common.Fallible.{
  ok, bind-ok_cases, ◌>>◌, or_fail-ok_cases, or_fail-some_cases, if-ok_cases, guard-ok_cases,
}
use go_ring.Signaling.Message.{Message}
use go_ring.Wire
use go_ring.Wire.{require_json_fields, require_json_fields_iff, decode_body_fields_iff}
use go_ring.Wire.Generated.{
  required_properties, required_of_command, required_of_params, frame_method,
}
use go_ring.Wire.Outbound.{
  marshal_generated_frame, outbound_methods, marshal_signaling_frame, frame_of, marshal_close_frame,
  body_has_property, marshal_ice_frame, marshal_stream_options, marshal_rpc_frame,
  validate_rpc_fields, decode_body_property, rpc_command_method,
}

named_parts : (a b c : String) → (str_eq a b && not (str_eq c "")) ≡ true → (a ≡ b) × (c ≢ "")
named_parts a b c h = ground (arith, eq_iff a b, eq_iff c "")

module _ {V : Type 0} (json : Wire.WireJson V) where
  -- A frame that is encoded, and the message that it is made from.
  pub IsEncodedAs : Wire.GeneratedFrame → Message → Bytes → Type 0
  IsEncodedAs frame m encoded =
      (body : V) × (m.method ≡ frame_method frame)
      × (m.dialog_id ≢ "")
      × Wire.HasFields json m.body (required_properties frame)
      × (json.decode_body frame m.body ≡ some body)
      × (json.encode_frame frame (frame_of json frame m.method m body) ≡ some encoded)

  -- The command in a PTZ body, and its parameters, with all that their types require.
  pub HasCommand : Bytes → Wire.GeneratedFrame → Type 0
  HasCommand encoded frame =
      (fields command params : Map String Bytes) × (json.decode_object encoded ≡ some (some fields))
      × (decode_body_property json fields "command" ≡ ok command)
      × All (λ name. Wire.has name command ≡ true) (required_of_command frame)
      × (decode_body_property json command "params" ≡ ok params)
      × All (λ name. Wire.has name params ≡ true) (required_of_params frame)

  pub IsEncoded : Message → Bytes → Type 0
  IsEncoded m encoded =
      (frame : Wire.GeneratedFrame) × IsEncodedAs frame m encoded
      × (m.method ≡ "rpc" → HasCommand m.body frame)

  marshal_generated_frame-ok :
      (m : Message) (frame : Wire.GeneratedFrame) (encoded : Bytes)
      → marshal_generated_frame json m frame (frame_method frame) (required_properties frame)
        ≡ ok encoded
      → IsEncodedAs frame m encoded
  unfolding IsEncodedAs marshal_generated_frame
  marshal_generated_frame-ok m frame encoded h =
      guard-ok_cases (str_eq m.method (frame_method frame) && not (str_eq m.dialog_id "")) _ _ h
        λ named h.
          let trimmed = json.trim_space m.body in
          guard-ok_cases (not (is_empty trimmed || bytes_eq trimmed (codes "null"))) _ _ h λ _ h.
            or_fail-ok_cases (json.decode_object m.body) _ _ h λ read object h.
              or_fail-ok_cases read _ _ h λ fields there h.
                bind-ok_cases (require_json_fields fields (required_properties frame)) _ h
                  λ _ required h.
                    or_fail-ok_cases (json.decode_body frame m.body) _ _ h λ body decoded h.
                      or_fail-some_cases
                        (json.encode_frame frame (frame_of json frame (frame_method frame) m body))
                        _ h
                        λ framed.
                          let (method, dialog) =
                            named_parts m.method (frame_method frame) m.dialog_id named in
                          let has_fields : Wire.HasFields json m.body (required_properties frame) =
                            (
                              fields,
                              object ∙ ap some there,
                              (require_json_fields_iff fields _).0 required,
                            ) in
                          (
                            body,
                            method,
                            dialog,
                            has_fields,
                            decoded,
                            subst
                                (λ s.
                                  json.encode_frame frame (frame_of json frame s m body)
                                  ≡ some encoded)
                                (sym method) framed,
                          )

  -- A frame that is no command.
  plain :
      (m : Message) (encoded : Bytes) (frame : Wire.GeneratedFrame)
      → (str_eq (frame_method frame) "rpc" ≡ false)
      → marshal_generated_frame json m frame (frame_method frame) (required_properties frame)
        ≡ ok encoded
      → IsEncoded m encoded
  unfolding IsEncoded IsEncodedAs
  plain m encoded frame other h =
      let done = marshal_generated_frame-ok m frame encoded h in
      (frame, done, λ e. absurd (ground (arith, eq_iff (frame_method frame) "rpc", done.1, e)))

  marshal_close_frame-ok :
      (m : Message) (encoded : Bytes)
      → marshal_close_frame json m ≡ ok encoded
      → IsEncoded m encoded
  unfolding marshal_close_frame frame_method required_properties
  marshal_close_frame-ok m encoded h =
      if-ok_cases (body_has_property json m.body "reason") _ _ h
        (plain m encoded Wire.playback_close refl) (plain m encoded Wire.session_close refl)

  marshal_ice_frame-ok :
      (m : Message) (encoded : Bytes) → marshal_ice_frame json m ≡ ok encoded → IsEncoded m encoded
  unfolding marshal_ice_frame frame_method required_properties
  marshal_ice_frame-ok m encoded h =
      if-ok_cases (body_has_property json m.body "mid") _ _ h (plain m encoded Wire.live_ice refl)
        (plain m encoded Wire.ice_candidate refl)

  marshal_stream_options-ok :
      (m : Message) (encoded : Bytes)
      → marshal_stream_options json m ≡ ok encoded
      → IsEncoded m encoded
  unfolding marshal_stream_options frame_method required_properties
  marshal_stream_options-ok m encoded h =
      let has_audio = body_has_property json m.body "audio_enabled" in
      let has_video = body_has_property json m.body "video_enabled" in
      if-ok_cases (has_audio && has_video) _ _ h (plain m encoded Wire.stream_audio_video refl) λ h.
        if-ok_cases has_audio _ _ h (plain m encoded Wire.stream_audio refl)
          λ h. if-ok_cases has_video _ _ h (plain m encoded Wire.stream_video refl) λ h. absurd (cc)

  validate_rpc_fields-ok :
      (frame : Wire.GeneratedFrame) (encoded : Bytes)
      → validate_rpc_fields json encoded (required_of_command frame) (required_of_params frame)
        ≡ ok tt
      → HasCommand encoded frame
  unfolding HasCommand validate_rpc_fields
  validate_rpc_fields-ok frame encoded h =
      bind-ok_cases (Wire.decode_body_fields json encoded) _ h λ fields object h.
        bind-ok_cases (decode_body_property json fields "command") _ h λ command commanded h.
          bind-ok_cases (require_json_fields command (required_of_command frame)) _ h λ _ asked h.
            bind-ok_cases (decode_body_property json command "params") _ h λ params given h. (
              fields,
              command,
              params,
              (decode_body_fields_iff json encoded fields).0 object,
              commanded,
              (require_json_fields_iff command (required_of_command frame)).0 asked,
              given,
              (require_json_fields_iff params (required_of_params frame)).0 h,
            )

  marshal_rpc-ok :
      (m : Message) (encoded : Bytes) (frame : Wire.GeneratedFrame)
      → (validate_rpc_fields json m.body (required_of_command frame) (required_of_params frame)
          >> marshal_generated_frame json m frame (frame_method frame) (required_properties frame))
        ≡ ok encoded
      → IsEncoded m encoded
  unfolding IsEncoded
  marshal_rpc-ok m encoded frame h =
      bind-ok_cases
        (validate_rpc_fields json m.body (required_of_command frame) (required_of_params frame)) _ h
        λ _ valid h. (
          frame,
          marshal_generated_frame-ok m frame encoded h,
          λ _. validate_rpc_fields-ok frame m.body valid,
        )

  marshal_rpc_frame-ok :
      (m : Message) (encoded : Bytes) → marshal_rpc_frame json m ≡ ok encoded → IsEncoded m encoded
  unfolding marshal_rpc_frame frame_method required_properties required_of_command
      required_of_params
  marshal_rpc_frame-ok m encoded h =
      bind-ok_cases (rpc_command_method json m.body) _ h λ method _ h.
        if-ok_cases (str_eq method "PTZ.Pan.Continuous" || str_eq method "PTZ.Tilt.Continuous") _ _
          h (marshal_rpc-ok m encoded Wire.ptz_continuous_command)
          λ h.
            if-ok_cases (str_eq method "PTZ.Pan.Step" || str_eq method "PTZ.Tilt.Step") _ _ h
              (marshal_rpc-ok m encoded Wire.ptz_command) λ h. absurd (cc)

  -- Where marshalSignalingFrame encodes a message, it encodes it as one of the generated frame types,
  -- with the method and dialog of the message, neither empty, and with its `riid` if the type has one.
  -- The body is an object with all properties that the tags of the type require, and decodes as that
  -- type. For the method `rpc` also the command in the body and its parameters have what they require.
  pub marshal_signaling_frame-ok :
      (m : Message) (encoded : Bytes)
      → marshal_signaling_frame json m ≡ ok encoded
      → IsEncoded m encoded
  unfolding marshal_signaling_frame outbound_methods frame_method required_properties
  marshal_signaling_frame-ok m encoded h =
      or_fail-ok_cases (lookup m.method (outbound_methods json)) _ _ h λ marshal at h.
        AllEntries-lookup (λ _ f. (n : Message) (e : Bytes) → f n ≡ ok e → IsEncoded n e) m.method
          marshal (outbound_methods json)
          (
            λ n e. plain n e Wire.session_activate refl,
            (
              marshal_close_frame-ok,
              (
                marshal_ice_frame-ok,
                (
                  λ n e. plain n e Wire.live_view refl,
                  (
                    λ n e. plain n e Wire.session_microphone refl,
                    (
                      λ n e. plain n e Wire.session_ping refl,
                      (
                        λ n e. plain n e Wire.playback_offer refl,
                        (
                          λ n e. plain n e Wire.push_heartbeat refl,
                          (
                            λ n e. plain n e Wire.push_subscribe refl,
                            (
                              λ n e. plain n e Wire.push_unsubscribe refl,
                              (marshal_rpc_frame-ok, (marshal_stream_options-ok, tt)),
                            ),
                          ),
                        ),
                      ),
                    ),
                  ),
                ),
              ),
            ),
          )
          at m encoded h
