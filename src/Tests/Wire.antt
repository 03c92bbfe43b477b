-- ===== src/Tests/Wire.antt =====
-- The theorems on pkg/dependencies/websocket/wire.go at concrete inputs.
use Prim.Native.String.{String}
use go_ring.Common.{true, if◌then◌else◌, refl, none, some, [], ◌∷◌, Bytes, ℕ, ◌≡◌}
use go_ring.Common.Decimal.{bytes_eq}
use go_ring.Common.ParseInt.{format_int, parse_int64}
use go_ring.Common.Maps.{Map, lookup}
use go_ring.Signaling.Message.{Message}
use go_ring.Wire.{WireJson}
use go_ring.Wire.Close.{valid_close_reason_code}
use go_ring.Wire.Close.Code.{null}
use go_ring.Wire.Outbound.{marshal_signaling_frame}
use go_ring.Wire.Outbound.Valid.{IsEncoded, marshal_signaling_frame-ok}

-- Texts of one byte that stand for the parts of one frame.
abbrev ice_body : Map String Bytes
ice_body = ("doorbot_id", 9 ∷ []) ∷ ("ice", 9 ∷ []) ∷ ("mid", 9 ∷ []) ∷ ("mlineindex", 9 ∷ []) ∷ []

abbrev ice_frame : Map String Bytes
ice_frame = ("method", 3 ∷ []) ∷ ("dialog_id", 4 ∷ []) ∷ ("body", 2 ∷ []) ∷ []

abbrev one_frame : WireJson ℕ
one_frame = record {
  decode_object = λ b.
      if bytes_eq b (1 ∷ [])
      then some (some ice_frame)
      else if bytes_eq b (2 ∷ [])
      then some (some ice_body)
      else none;
  decode_string = λ b. if bytes_eq b (3 ∷ []) then some "ice" else some "d";
  decode_number = λ b. none;
  decode_discriminator = λ b. some (some (some "ice"));
  decode_frame = λ k b. some (record { method = "ice"; dialog_id = "d"; has_body = true });
  decode_body = λ k b. some 7;
  encode_frame = λ k f. some (1 ∷ []);
  encode_object = λ m. none;
  trim_space = λ b. b;
}

abbrev ice : Message
ice = record { method = "ice"; dialog_id = "d"; riid = ""; body = 2 ∷ [] }

marshal_signaling_frame-ok_example : IsEncoded one_frame ice (1 ∷ [])
unfolding marshal_signaling_frame lookup
marshal_signaling_frame-ok_example = marshal_signaling_frame-ok one_frame ice (1 ∷ []) refl

-- `"a"` is the only string, and any other text but null is read as a number.
abbrev quoted : Bytes
quoted = b'"' ∷ b'a' ∷ b'"' ∷ []

abbrev codes : WireJson ℕ
codes = record one_frame {
  decode_string =
      λ b. if bytes_eq b quoted then some "a" else if bytes_eq b null then some "" else none;
  decode_number = λ b. some b;
}

seven_valid : valid_close_reason_code codes (b'7' ∷ []) ≡ true
unfolding valid_close_reason_code parse_int64 format_int go_ring.Common.Decimal.value
    go_ring.Common.Decimal.decimal
seven_valid = refl
