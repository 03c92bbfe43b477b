-- ===== src/Signaling/Session/Rpc/Command.antt =====
-- What a command answers, `handleRPC` of internal/signaling/session.go.
use Prim.Native.String.{String}
use text.Mathlib.Text.{◌==◌ as str_eq}
use text.Mathlib.TextEquality.{eq_iff}
use go_ring.Common.{
  ◌≡◌, ◌≢◌, ◌↔◌, refl, sym, ap, subst, ◌∙◌, ◌⊎◌, inl, inr, true, false, not, none, some, [], ◌∷◌,
  Bytes, is_empty, arith, Bool-cases, Option-cases,
}
use go_ring.Common.Maps.{Map, nat_eq_instance, string_eq_instance}
use go_ring.Common.Int.{ℤ}
use go_ring.Common.Fallible.{ok, or_fail-ok_cases, guard-ok_cases}
use go_ring.Common.Decimal.{bytes_eq, bytes_eq_iff, bytes_eq_instance}
use go_ring.Signaling.Session.{rpc_error, RpcReply}
use go_ring.Signaling.Session.Rpc.{
  RpcCommand, zero_command, SessionJson, raw_at, reply, read_command, check_command, check_result,
  reply_of,
}

pub is_empty_iff : (b : Bytes) → (is_empty b ≡ true) ↔ (b ≡ [])
is_empty_iff [] = (λ h. refl, λ h. refl)
is_empty_iff (x ∷ b) = (λ h. absurd (cc), λ h. absurd (cc))

module _ (json : SessionJson) where
  -- The command in the text `body`, and the text that it was read from: the message of a wrapper, if
  -- the command itself has no version.
  abbrev pub IsRead : Bytes → RpcCommand → Bytes → Type 0
  IsRead body c text =
      ((json.decode_command zero_command body ≡ some c) × (c.jsonrpc ≢ "") × (text ≡ body))
      ⊎ ((outer : RpcCommand) × (message : Map String Bytes) × (json.decode_command zero_command
              body
            ≡ some outer)
          × (outer.jsonrpc ≡ "")
          × (json.decode_wrapper body ≡ some (some message))
          × (json.encode_message message ≡ some text)
          × (json.decode_command outer text ≡ some c))

  -- A reply of JSON-RPC 2.0 and what a caller gets for it: the peer's error, or the result, if this
  -- names the control session.
  abbrev pub Answers : Bytes → RpcCommand → Bytes → RpcReply → Type 0
  Answers control c text r =
      (c.jsonrpc ≡ "2.0")
      × (c.method ≡ "")
      × (((code : ℤ) × (message : String) × (c.error ≡ some (code, message))
            × (c.has_result ≡ false)
            × (r ≡ record { result = []; error = some (rpc_error code message) }))
          ⊎ ((fields : Map String Bytes) × (c.error ≡ none)
              × (c.has_result ≡ true)
              × (json.decode_fields text ≡ some fields)
              × (json.decode_result (raw_at "result" fields) ≡ some control)
              × (control ≢ [])
              × (r ≡ record { result = raw_at "result" fields; error = none })))

  pub read_command-IsRead :
      (body : Bytes) (c : RpcCommand) (text : Bytes)
      → read_command json body ≡ ok (c, text)
      → IsRead body c text
  unfolding read_command
  read_command-IsRead body c text h =
      or_fail-ok_cases (json.decode_command zero_command body) _ _ h λ outer read h.
        elim (Bool-cases (str_eq outer.jsonrpc "")) [
          | inr versioned ↦
              let same : outer ≡ c = ground arith in
              let at : body ≡ text = ground arith in
              inl (
                read ∙ ap some same,
                subst (λ (x : RpcCommand). x.jsonrpc ≢ "") same
                    (ground (arith, eq_iff outer.jsonrpc "")),
                sym at,
              )
          | inl bare ↦
              or_fail-ok_cases (json.decode_wrapper body) _ _ (rw bare at h) λ found wrapper h.
                or_fail-ok_cases found _ _ h λ message there h.
                  or_fail-ok_cases (json.encode_message message) _ _ h λ inner encoded h.
                    or_fail-ok_cases (json.decode_command outer inner) _ _ h λ d wrapped h.
                      let same : d ≡ c = ground arith in
                      let at : inner ≡ text = ground arith in
                      inr (
                        outer,
                        message,
                        read,
                        (eq_iff outer.jsonrpc "").0 bare,
                        wrapper ∙ ap some there,
                        encoded ∙ ap some at,
                        subst (λ x. json.decode_command outer x ≡ some c) at
                            (wrapped ∙ ap some same),
                      )
        ]

  pub IsRead-read_command :
      (body : Bytes) (c : RpcCommand) (text : Bytes)
      → IsRead body c text
      → read_command json body ≡ ok (c, text)
  unfolding read_command
  IsRead-read_command body c text (inl (read, versioned, at)) =
      let b : str_eq c.jsonrpc "" ≡ false = ground (arith, eq_iff c.jsonrpc "") in
      rw (read, b, at) refl
  IsRead-read_command body c text (inr (outer, message, read, bare, wrapper, encoded, wrapped)) =
      let b : str_eq outer.jsonrpc "" ≡ true = (eq_iff outer.jsonrpc "").1 bare in
      rw (read, b, wrapper, encoded, wrapped) refl

  pub Answers-check_command :
      (control : Bytes) (c : RpcCommand) (text : Bytes) (r : RpcReply)
      → Answers control c text r
      → (check_command json control c text ≡ ok (reply c text)) × (reply_of json c text ≡ r)
  unfolding check_command check_result reply_of
  Answers-check_command control c text r (version, answer, inl (code, message, e, empty, same)) =
      let v : str_eq c.jsonrpc "2.0" ≡ true = (eq_iff c.jsonrpc "2.0").1 version in
      let m : str_eq c.method "" ≡ true = (eq_iff c.method "").1 answer in
      (ground arith, rw (e, same) refl)
  Answers-check_command control c text r
        (version, answer, inr (fields, e, given, f, names, full, same)) =
      let v : str_eq c.jsonrpc "2.0" ≡ true = (eq_iff c.jsonrpc "2.0").1 version in
      let m : str_eq c.method "" ≡ true = (eq_iff c.method "").1 answer in
      let some_control : is_empty control ≡ false = ground (arith, is_empty_iff control) in
      let own : bytes_eq control control ≡ true = (bytes_eq_iff control control).1 refl in
      let result : check_result json control c text ≡ ok (reply c text) =
        rw (f, names, some_control, own) refl in
      (ground arith, rw (e, f, same) refl)

  check_result-names :
      (control : Bytes) (c : RpcCommand) (text : Bytes) (d : RpcCommand) (t : Bytes)
      → check_result json control c text ≡ ok (reply d t)
      → (d ≡ c)
        × (t ≡ text)
        × (fields : Map String Bytes) × (json.decode_fields text ≡ some fields)
        × (json.decode_result (raw_at "result" fields) ≡ some control)
        × (control ≢ [])
  unfolding check_result
  check_result-names control c text d t h =
      or_fail-ok_cases (json.decode_fields text) _ _ h λ fields f h.
        or_fail-ok_cases (json.decode_result (raw_at "result" fields)) _ _ h λ session names h.
          guard-ok_cases (not (is_empty session)) _ _ h λ full h.
            elim (Bool-cases (bytes_eq session control)) [
              | inr other ↦ absurd (ground arith)
              | inl own ↦
                  let same : session ≡ control = (bytes_eq_iff session control).0 own in
                  let filled : control ≢ [] = ground (arith, is_empty_iff session) in
                  (ground arith, ground arith, fields, f, names ∙ ap some same, filled)
            ]

  pub check_command-Answers :
      (control : Bytes) (c : RpcCommand) (text : Bytes) (d : RpcCommand) (t : Bytes)
      → check_command json control c text ≡ ok (reply d t)
      → (d ≡ c) × (t ≡ text) × Answers control c text (reply_of json c text)
  unfolding check_command reply_of
  check_command-Answers control c text d t h = elim (Bool-cases (str_eq c.jsonrpc "2.0")) [
    | inr other ↦ absurd (ground arith)
    | inl current ↦ elim (Bool-cases (str_eq c.method "")) [
      | inr request ↦ absurd (ground arith)
      | inl blank ↦
          let version : c.jsonrpc ≡ "2.0" = (eq_iff c.jsonrpc "2.0").0 current in
          let answer : c.method ≡ "" = (eq_iff c.method "").0 blank in
          elim (Bool-cases c.has_result) [
            | inl given ↦ elim (Option-cases c.error) [
              | inr (fault, e) ↦ absurd (ground arith)
              | inl e ↦
                  let taken : check_result json control c text ≡ ok (reply d t) = ground arith in
                  let (same, at, fields, f, names, full) =
                    check_result-names control c text d t taken in
                  (
                    same,
                    at,
                    (
                      version,
                      answer,
                      inr (fields, e, given, f, names, full, rw (e, f, reply_of) refl),
                    ),
                  )
            ]
            | inr empty ↦ elim (Option-cases c.error) [
              | inl e ↦ absurd (ground arith)
              | inr ((code, message), e) ↦ (
                ground arith,
                ground arith,
                (version, answer, inl (code, message, e, empty, rw (e, reply_of) refl)),
              )
            ]
          ]
    ]
  ]
