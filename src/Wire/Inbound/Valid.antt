-- ===== src/Wire/Inbound/Valid.antt =====
-- What holds of a message that `unmarshalSignalingFrame` returns.
use Prim.Native.String.{String}
use text.Mathlib.Text.{◌==◌ as str_eq}
use go_ring.Common.{◌≡◌, ◌≢◌, true, some, List, Bytes, All}
use go_ring.Common.Maps.{Map, lookup, string_eq_instance}
use go_ring.Common.Fallible.{ok}
use go_ring.Signaling.Message.{Message}
use go_ring.Wire
use go_ring.Wire.{require_json_fields}
use go_ring.Wire.Generated.{required_properties, frame_method}
use go_ring.Wire.Inbound.{InboundMethod}
use go_ring.Wire.Close.Normal.{IsNormalized}

abbrev method_name : InboundMethod → String
method_name InboundMethod.camera_started = "camera_started"
method_name InboundMethod.close = "close"
method_name InboundMethod.ice = "ice"
method_name InboundMethod.notification = "notification"
method_name InboundMethod.pong = "pong"
method_name InboundMethod.push_event = "push_event"
method_name InboundMethod.push_subscription_ack = "push_subscription_ack"
method_name InboundMethod.rpc = "rpc"
method_name InboundMethod.sdp = "sdp"
method_name InboundMethod.session_created = "session_created"

-- A shape has the method, and asks for what the generated type requires.
FitsShape : InboundMethod → Map String Bytes → Wire.GeneratedFrame × List String → Type 0
FitsShape k body (frame, required) =
    (frame_method frame ≡ method_name k)
    × (require_json_fields body required ≡ ok tt
        → All (λ name. Wire.has name body ≡ true) (required_properties frame))

module _ {V : Type 0} (json : Wire.WireJson V) where
  -- The frame is decoded as its generated type, and says the same there. A close frame is decoded
  -- without the code of its reason.
  pub IsDecoded : Bytes → String → String → Wire.GeneratedFrame → Type 0
  IsDecoded encoded method dialog_id frame =
      (input : Bytes) × (read : Wire.FrameMetadata) × (json.decode_frame frame input ≡ some read)
      × (read.method ≡ method)
      × (read.dialog_id ≡ dialog_id)
      × (read.has_body ≡ true)
      × (method ≢ "close" → input ≡ encoded)
      × (method ≡ "close" → IsNormalized json encoded input)

  -- A frame that is accepted, and what is returned for it.
  pub IsAccepted : Bytes → Message → Type 0
  IsAccepted encoded m =
      (frame : Wire.GeneratedFrame) × (values : Map String Bytes) × (m.method ≡ frame_method frame)
      × (m.dialog_id ≢ "")
      × (json.decode_object encoded ≡ some (some values))
      × (lookup "body" values ≡ some m.body)
      × Wire.HasFields json m.body (required_properties frame)
      × IsDecoded encoded m.method m.dialog_id frame
