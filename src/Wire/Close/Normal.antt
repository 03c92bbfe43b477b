-- ===== src/Wire/Close/Normal.antt =====
-- What a close frame is after its normalisation, pkg/dependencies/websocket/wire_close_union.go.
use Prim.Native.String.{String}
use go_ring.Common.{
  ◌≡◌, sym, ap, ◌∙◌, ◌⊎◌, inl, inr, Option, none, some, [], Bytes, true, Option-cases,
}
use go_ring.Common.Maps.{Map, lookup, insert, delete, string_eq_instance}
use go_ring.Common.Fallible.{
  ok, ◌>>=◌, ok-injective, bind-ok_cases, or_fail-ok_cases, or_fail-some_cases, guard-ok_cases,
}
use go_ring.Wire.{WireJson, close_reason}
use go_ring.Wire.Close.{
  valid_close_reason_code, object_or, raw_object_field, encode_without_code, normalize_reason,
  normalize_close_reason_code,
}

module _ {V : Type 0} (json : WireJson V) where
  -- The text is that of an object, not of null.
  abbrev pub IsObject : Bytes → Map String Bytes → Type 0
  IsObject text object = json.decode_object text ≡ some (some object)

  -- The frame again, with the reason in its body encoded without its code.
  abbrev pub LacksCode : Map String Bytes → Map String Bytes → Map String Bytes → Bytes → Type 0
  LacksCode frame body reason input =
      (reason_bytes : Bytes) × (body_bytes : Bytes) × (json.encode_object (delete "code" reason)
        ≡ some reason_bytes)
      × (json.encode_object (insert "reason" reason_bytes body) ≡ some body_bytes)
      × (json.encode_object (insert "body" body_bytes frame) ≡ some input)

  -- A frame whose reason, where the body has one, is an object, and whose code, where the reason has
  -- one, is valid. It stays as it is unless there is a code.
  abbrev pub IsNormalized : Bytes → Bytes → Type 0
  IsNormalized encoded input =
      (frame : Map String Bytes) × (raw : Bytes) × (body : Map String Bytes) × IsObject encoded
        frame
      × (lookup "body" frame ≡ some raw)
      × IsObject raw body
      × (((lookup "reason" body ≡ none) × (input ≡ encoded))
          ⊎ ((text : Bytes) × (reason : Map String Bytes) × (lookup "reason" body ≡ some text)
              × IsObject text reason
              × (((lookup "code" reason ≡ none) × (input ≡ encoded))
                  ⊎ ((code : Bytes) × (lookup "code" reason ≡ some code)
                      × (valid_close_reason_code json code ≡ true)
                      × LacksCode frame body reason input))))

  encode_without_code-ok :
      (frame body reason : Map String Bytes) (input : Bytes)
      → encode_without_code json frame body reason ≡ ok input
      → LacksCode frame body reason input
  unfolding encode_without_code
  encode_without_code-ok frame body reason input h =
      or_fail-ok_cases _ _ _ h
        λ r er h. or_fail-ok_cases _ _ _ h λ b eb h. or_fail-some_cases _ _ h λ e. (r, b, er, eb, e)

  normalize_reason-ok :
      (encoded : Bytes) (frame body : Map String Bytes) (text input : Bytes)
      → normalize_reason json encoded frame body text ≡ ok input
      → (reason : Map String Bytes) × IsObject text reason
        × (((lookup "code" reason ≡ none) × (input ≡ encoded))
            ⊎ ((code : Bytes) × (lookup "code" reason ≡ some code)
                × (valid_close_reason_code json code ≡ true)
                × LacksCode frame body reason input))
  unfolding normalize_reason object_or
  normalize_reason-ok encoded frame body text input h =
      bind-ok_cases (object_or json close_reason text) _ h λ reason there h.
        or_fail-ok_cases (json.decode_object text) _ _ there λ read object there.
          or_fail-some_cases read _ there λ full. elim (Option-cases (lookup "code" reason)) [
            | inl missing ↦
                (reason, object ∙ ap some full, inl (missing, sym (ok-injective (rw missing at h))))
            | inr (code, found) ↦ guard-ok_cases _ _ _ (rw found at h) λ valid h. (
              reason,
              object ∙ ap some full,
              inr (code, found, valid, encode_without_code-ok frame body reason input h),
            )
          ]

  -- `normalizeCloseReasonCode` behind the decoding of the frame.
  read_frame-ok :
      (encoded input : Bytes) (read : Option (Map String Bytes))
      → json.decode_object encoded ≡ some read
      → (raw_object_field json read "body" >>= λ body. elim (lookup "reason" body) [
        | none ↦ ok encoded
        | some reason ↦
            normalize_reason json encoded (elim read [ none ↦ [] | some frame ↦ frame ]) body reason
      ])
        ≡ ok input
      → IsNormalized encoded input
  unfolding raw_object_field object_or
  read_frame-ok encoded input none object h = absurd (cc)
  read_frame-ok encoded input (some frame) object h =
      bind-ok_cases (raw_object_field json (some frame) "body") _ h λ body there h.
        or_fail-ok_cases (lookup "body" frame) _ _ there λ raw found there.
          or_fail-ok_cases (json.decode_object raw) _ _ there λ inner decoded there.
            or_fail-some_cases inner _ there λ full. elim (Option-cases (lookup "reason" body)) [
              | inl missing ↦ (
                frame,
                raw,
                body,
                object,
                found,
                decoded ∙ ap some full,
                inl (missing, sym (ok-injective (rw missing at h))),
              )
              | inr (text, given) ↦
                  let (reason, object', rest) =
                    normalize_reason-ok encoded frame body text input (rw given at h) in
                  (
                    frame,
                    raw,
                    body,
                    object,
                    found,
                    decoded ∙ ap some full,
                    inr (text, reason, given, object', rest),
                  )
            ]

  pub normalize_close_reason_code-ok :
      (encoded input : Bytes)
      → normalize_close_reason_code json encoded ≡ ok input
      → IsNormalized encoded input
  unfolding normalize_close_reason_code
  normalize_close_reason_code-ok encoded input h =
      or_fail-ok_cases (json.decode_object encoded) _ _ h
        λ read object h. read_frame-ok encoded input read object h
