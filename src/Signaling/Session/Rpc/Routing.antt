-- ===== src/Signaling/Session/Rpc/Routing.antt =====
-- What a message does to a session, internal/signaling/session.go.
use Prim.Native.String.{String}
use text.Mathlib.Text.{◌==◌ as str_eq}
use go_ring.Common.{
  ℕ, ◌<◌, ◌≡◌, refl, sym, ap, subst, ◌⊎◌, inl, inr, Bool, true, false, not, ◌&&◌, Option, none,
  some, [], ◌∷◌, ◌++◌, Bytes, length, is_empty, ltb, if◌then◌else◌, arith, Bool-cases, Option-cases,
}
use go_ring.Common.Maps.{lookup, insert, delete, nat_eq_instance, string_eq_instance}
use go_ring.Common.Int.{int_eq}
use go_ring.Common.Fallible.{Result, ok, err, bind-eq-ok}
use go_ring.Common.Decimal.{bytes_eq_instance}
use go_ring.Signaling.Message.{Message, method_pong, method_rpc, field_command}
use go_ring.Signaling.Session.{SessionError, Session}
use go_ring.Signaling.Session.Rpc.{
  RpcCommand, SessionJson, raw_at, Verdict, no_reply, foreign_reply, reply, read_command,
  check_command, reply_of, deliver, act, handle_rpc, handle_rpc_frame, push_event,
  handle_rpc_message, handle,
}

pub ok-injective : {A : Type 0} {a b : A} → ◌≡◌ {A = Result SessionError A} (ok a) (ok b) → a ≡ b
ok-injective e = cc

pub at_rpc {ℓ} :
    {A : Type ℓ} (method : String) (a b c : A)
    → method ≡ "rpc"
    → (if str_eq method method_pong then a else if str_eq method method_rpc then b else c) ≡ b
at_rpc method a b c e = rw e refl

module _ (json : SessionJson) where
  -- The message names the session's dialog, device and signaling session.
  unfoldable pub belongs : Session → Message → Bool
  belongs s m = str_eq m.dialog_id s.dialog_id && elim (json.decode_identity m.body) [
    | none ↦ false
    | some i ↦ int_eq i.doorbot_id s.device_id && str_eq i.session_id s.signal_id
  ]

  -- A message that is not for the session, and any message after the session's end, changes nothing:
  -- it answers no call, renews no heartbeat and queues no event.
  pub handle-unchanged :
      (now : ℕ) (s : Session) (m : Message)
      → (belongs s m ≡ false) ⊎ (s.closed ≡ true)
      → (handle json now s m).0 ≡ s
  unfolding handle belongs
  handle-unchanged now s m h = ground arith

  -- What a live session does with a message of its own.
  abbrev own_message : ℕ → Session → Message → Session × Option SessionError
  own_message now s m =
      if str_eq m.method method_pong
      then (record s { last_pong = now }, none)
      else if str_eq m.method method_rpc
      then handle_rpc_message json s m
      else push_event s m

  pub handle_own :
      (now : ℕ) (s : Session) (m : Message)
      → belongs s m ≡ true
      → s.closed ≡ false
      → handle json now s m ≡ own_message now s m
  unfolding handle belongs
  handle_own now s m b c = ground arith

  act_cases :
      (s s' : Session) (v : Verdict) (handled : Bool)
      → act json s v ≡ (s', handled)
      → (s' ≡ s)
        ⊎ ((handled ≡ true) × (c : RpcCommand) × (text : Bytes) × (s' ≡ deliver json s c text))
  act_cases s s' no_reply handled e = inl (ground arith)
  act_cases s s' foreign_reply handled e = inl (ground arith)
  act_cases s s' (reply c text) handled e = inr (ground arith, c, text, ground arith)

  -- A command leaves the session as it is, or is delivered.
  abbrev RpcCases : Session → Session → Bool → Type 0
  RpcCases s s' handled =
      (s' ≡ s)
      ⊎ ((handled ≡ true) × (c : RpcCommand) × (text : Bytes) × (s' ≡ deliver json s c text))

  handle_rpc_cases :
      (s s' : Session) (body : Bytes) (handled : Bool)
      → handle_rpc json s body ≡ ok (s', handled)
      → RpcCases s s' handled
  unfolding handle_rpc
  handle_rpc_cases s s' body handled e =
      let ((c, text), r1, e1) = bind-eq-ok (read_command json body) _ e in
      let (v, r2, e2) = bind-eq-ok (check_command json s.control_id c text) _ e1 in
      act_cases s s' v handled (ok-injective e2)

  handle_rpc_frame_cases :
      (s s' : Session) (body : Bytes) (handled : Bool)
      → handle_rpc_frame json s body ≡ ok (s', handled)
      → RpcCases s s' handled
  unfolding handle_rpc_frame
  handle_rpc_frame_cases s s' body handled e = elim (Option-cases (json.decode_rpc_body body)) [
    | inl bad ↦ absurd (ground arith)
    | inr (there, p) ↦ elim (Option-cases (json.decode_fields body)) [
      | inl bad ↦ absurd (ground arith)
      | inr (fields, q) ↦
          handle_rpc_cases s s' (raw_at field_command fields) handled
            (ground (arith, Bool-cases (there && not (is_empty (raw_at field_command fields)))))
    ]
  ]

  pub push_event_cases {ℓ} :
      (P : Session → Type ℓ) (s : Session) (m : Message)
      → P s
      → (length s.events < 32 → P (record s { events = s.events ++ m ∷ [] }))
      → P (push_event s m).0
  unfolding push_event
  push_event_cases P s m same pushed = elim (Bool-cases (ltb (length s.events) 32)) [
    | inl room ↦ rw (room, push_event) (pushed (ground arith))
    | inr full ↦ rw (full, push_event) same
  ]

  rpc_message_cases {ℓ} :
      (P : Session → Type ℓ) (s : Session) (m : Message)
      → P s
      → (length s.events < 32 → P (record s { events = s.events ++ m ∷ [] }))
      → ((c : RpcCommand) (text : Bytes) → P (deliver json s c text))
      → P (handle_rpc_message json s m).0
  unfolding handle_rpc_message
  rpc_message_cases P s m same pushed delivered = go (handle_rpc_frame json s m.body) refl
    where
      routed :
          (s' : Session) (handled : Bool)
          → RpcCases s s' handled
          → P (if handled then (s', none) else push_event s' m).0
      routed s' true (inl e) = subst P (sym e) same
      routed s' false (inl e) =
          subst (λ t. P (push_event t m).0) (sym e) (push_event_cases P s m same pushed)
      routed s' handled (inr (h, c, text, e)) = rw h (subst P (sym e) (delivered c text))

      go :
          (r : Result SessionError (Session × Bool))
          → handle_rpc_frame json s m.body ≡ r
          → P (handle_rpc_message json s m).0
      go (err x) e = rw (e, handle_rpc_message) same
      go (ok (s', handled)) e =
          rw (e, handle_rpc_message)
            (routed s' handled (handle_rpc_frame_cases s s' m.body handled e))

  -- All that `handle` can do to a session.
  pub handle_cases {ℓ} :
      (P : Session → Type ℓ) (now : ℕ) (s : Session) (m : Message)
      → P s
      → P (record s { last_pong = now })
      → (length s.events < 32 → P (record s { events = s.events ++ m ∷ [] }))
      → ((c : RpcCommand) (text : Bytes) → P (deliver json s c text))
      → P (handle json now s m).0
  unfolding handle belongs
  handle_cases P now s m same ponged pushed delivered = elim (Bool-cases (belongs s m)) [
    | inr foreign ↦ subst P (sym (handle-unchanged now s m (inl foreign))) same
    | inl own ↦ elim (Bool-cases s.closed) [
      | inl over ↦ subst P (sym (handle-unchanged now s m (inr over))) same
      | inr live ↦
          subst P (ap (λ r. r.0) (sym (handle_own now s m own live)))
            (elim (Bool-cases (str_eq m.method "pong")) [
              | inl pong ↦ rw pong ponged
              | inr other ↦ elim (Bool-cases (str_eq m.method "rpc")) [
                | inl rpc ↦ rw (other, rpc) (rpc_message_cases P s m same pushed delivered)
                | inr event ↦ rw (other, event) (push_event_cases P s m same pushed)
              ]
            ])
    ]
  ]

  pub deliver_lem :
      (s : Session) (c : RpcCommand) (text : Bytes) (ch : ℕ)
      → lookup c.id s.pending ≡ some ch
      → deliver json s c text ≡ record s {
        replies = insert ch (reply_of json c text) s.replies;
        pending = delete c.id s.pending;
      }
  unfolding deliver
  deliver_lem s c text ch e = rw (e, deliver) refl

  pub deliver_nobody :
      (s : Session) (c : RpcCommand) (text : Bytes)
      → lookup c.id s.pending ≡ none
      → deliver json s c text ≡ s
  unfolding deliver
  deliver_nobody s c text e = rw (e, deliver) refl
