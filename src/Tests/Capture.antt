-- ===== src/Tests/Capture.antt =====
-- The theorems on tools/capture/tnetstring.go at concrete inputs.
use go_ring.Common.{ℕ, ◌≡◌, ◌≢◌, refl, none, some, true, [], ◌++◌, Bytes, codes, arith}
use go_ring.Common.Fallible.{ok, err}
use go_ring.Common.Decimal.{decimal, digits}
use go_ring.Capture.{
  Value, null, boolean, list, object, nil, cons, no_fields, field, Parsers, out_of_fuel,
  decode_tnetstring, decode_flow_stream,
}
use go_ring.Capture.Encode.{encode, Distinct, framed, has_field, append_fields, Encodable}
use go_ring.Capture.Encode.RoundTrip.{decode-encode}
use go_ring.Capture.Total.{decode_tnetstring-total, decode_flow_stream-total}

-- Any text is valid, and there are no floats.
abbrev plain : Parsers ℕ
plain = record { valid_utf8 = λ t. true; parse_float = λ t. none }

abbrev no_float : ℕ → Bytes
no_float x = []

abbrev record_ : Value ℕ
record_ = object (field (codes "v") (list (cons (boolean true) (cons null nil))) no_fields)

decode_tnetstring-total_example : decode_tnetstring plain 9 0 (codes "1:]]") ≢ err out_of_fuel
decode_tnetstring-total_example = decode_tnetstring-total plain 9 0 (codes "1:]]") (omega arith)

decode_flow_stream-total_example : decode_flow_stream plain some (codes "0:}") ≢ err out_of_fuel
decode_flow_stream-total_example = decode_flow_stream-total plain some (codes "0:}")

decode-encode_example :
    decode_tnetstring plain 100 0 (encode plain no_float record_ ++ codes "0:~")
    ≡ ok (record_, codes "0:~")
unfolding encode Encodable Distinct framed has_field append_fields decimal digits
decode-encode_example = decode-encode plain no_float record_ 100 (codes "0:~") (omega arith) (
  omega arith,
  omega arith,
  (refl, tt),
  (
    omega arith,
    omega arith,
    refl,
    (omega arith, omega arith, (omega arith, (omega arith, tt))),
    tt,
  ),
)
