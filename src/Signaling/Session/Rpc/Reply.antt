-- ===== src/Signaling/Session/Rpc/Reply.antt =====
-- Which messages answer a call, internal/signaling/session.go.
use Prim.Native.String.{String}
use text.Mathlib.Text.{◌==◌ as str_eq}
use text.Mathlib.TextEquality.{eq_iff}
use go_ring.Common.{
  ℕ, ◌≡◌, ◌≢◌, refl, sym, ap, subst, ◌∙◌, ◌⊎◌, inl, inr, Bool, true, false, not, ◌&&◌, Option, none,
  some, [], Bytes, is_empty, ◌==◌, if◌then◌else◌, arith, Bool-cases, Option-cases,
}
use go_ring.Common.Maps.{
  Map, lookup, insert, delete, lookup-insert, lookup-delete, nat_eq_instance, string_eq_instance,
}
use go_ring.Common.Fallible.{
  Result, ok, err, bind-ok_cases, or_fail-ok_cases, guard-ok_cases, ok-injective,
}
use go_ring.Common.Decimal.{bytes_eq, bytes_eq_iff, bytes_eq_instance}
use go_ring.Signaling.Message.{Message, field_command}
use go_ring.Signaling.Session.{SessionError, RpcReply, Session}
use go_ring.Signaling.Session.Rpc.Command.{
  is_empty_iff, IsRead, Answers, read_command-IsRead, IsRead-read_command, Answers-check_command,
  check_command-Answers,
}
use go_ring.Signaling.Session.Rpc.Routing.{
  belongs, at_rpc, handle-unchanged, handle_own, push_event_cases, deliver_lem,
}
use go_ring.Signaling.Session.Rpc.{
  RpcCommand, SessionJson, raw_at, Verdict, no_reply, foreign_reply, reply, read_command,
  check_command, reply_of, deliver, act, handle_rpc, handle_rpc_frame, push_event,
  handle_rpc_message, handle,
}

module _ (json : SessionJson) where
  -- The body of a message that answers a call, down to the text of its command.
  abbrev pub HasReply : Bytes → Bytes → RpcCommand → RpcReply → Type 0
  HasReply control body c r =
      (fields : Map String Bytes) × (text : Bytes) × (json.decode_rpc_body body ≡ some true)
      × (json.decode_fields body ≡ some fields)
      × (raw_at "command" fields ≢ [])
      × IsRead json (raw_at "command" fields) c text
      × Answers json control c text r

  -- A message of a live session that answers a call.
  abbrev pub IsAnswerTo : Session → Message → RpcCommand → RpcReply → Type 0
  IsAnswerTo s m c r =
      (belongs json s m ≡ true)
      × (s.closed ≡ false)
      × (m.method ≡ "rpc")
      × HasReply s.control_id m.body c r

  -- The state behind a message: no call was answered, or one was, by a reply to it.
  abbrev AnswersOnly : Session → Message → Session → Type 0
  AnswersOnly s m t =
      ((t.replies ≡ s.replies) × (t.pending ≡ s.pending))
      ⊎ ((c : RpcCommand) × (r : RpcReply) × (ch : ℕ) × IsAnswerTo s m c r
          × (lookup c.id s.pending ≡ some ch))

  abbrev FrameCases : Session → Session → Bytes → Bool → Type 0
  FrameCases s s' body handled =
      (s' ≡ s)
      ⊎ ((handled ≡ true)
          × (c : RpcCommand) × (text : Bytes) × HasReply s.control_id body c (reply_of json c text)
          × (s' ≡ deliver json s c text))

  handle_rpc-replies :
      (s s' : Session) (body : Bytes) (handled : Bool)
      → handle_rpc json s body ≡ ok (s', handled)
      → (s' ≡ s)
        ⊎ ((handled ≡ true)
            × (c : RpcCommand) × (text : Bytes) × IsRead json body c text
            × Answers json s.control_id c text (reply_of json c text)
            × (s' ≡ deliver json s c text))
  unfolding handle_rpc
  handle_rpc-replies s s' body handled h =
      bind-ok_cases (read_command json body) _ h λ (c, text) read h.
        bind-ok_cases (check_command json s.control_id c text) _ h λ v checked h.
          acted c text (read_command-IsRead json body c text read) v checked (ok-injective h)
    where
      acted :
          (c : RpcCommand) (text : Bytes)
          → IsRead json body c text
          → (v : Verdict) → check_command json s.control_id c text ≡ ok v
          → act json s v ≡ (s', handled)
          → (s' ≡ s)
            ⊎ ((handled ≡ true)
                × (c : RpcCommand) × (text : Bytes) × IsRead json body c text
                × Answers json s.control_id c text (reply_of json c text)
                × (s' ≡ deliver json s c text))
      acted c text read no_reply checked e = inl (ground arith)
      acted c text read foreign_reply checked e = inl (ground arith)
      acted c text read (reply d t) checked e =
          let (same, at, answers) = check_command-Answers json s.control_id c text d t checked in
          inr (
            ground arith,
            c,
            text,
            read,
            answers,
            subst (λ x. s' ≡ deliver json s x text) same
                (subst (λ x. s' ≡ deliver json s d x) at (ground arith)),
          )

  handle_rpc_frame-replies :
      (s s' : Session) (body : Bytes) (handled : Bool)
      → handle_rpc_frame json s body ≡ ok (s', handled)
      → FrameCases s s' body handled
  unfolding handle_rpc_frame
  handle_rpc_frame-replies s s' body handled h =
      or_fail-ok_cases (json.decode_rpc_body body) _ _ h λ there has h.
        or_fail-ok_cases (json.decode_fields body) _ _ h λ fields f h.
          guard-ok_cases (there && not (is_empty (raw_at field_command fields))) _ _ h λ full h.
            elim (handle_rpc-replies s s' (raw_at field_command fields) handled h) [
              | inl same ↦ inl same
              | inr (yes_handled, c, text, read, answers, e) ↦ inr (
                yes_handled,
                c,
                text,
                (
                  fields,
                  text,
                  has ∙ ap some (ground arith),
                  f,
                  ground (arith, is_empty_iff (raw_at field_command fields)),
                  read,
                  answers,
                ),
                e,
              )
            ]

  deliver-AnswersOnly :
      (s : Session) (m : Message) (c : RpcCommand) (text : Bytes)
      → IsAnswerTo s m c (reply_of json c text)
      → AnswersOnly s m (deliver json s c text)
  unfolding deliver
  deliver-AnswersOnly s m c text is_reply = elim (Option-cases (lookup c.id s.pending)) [
    | inl nobody ↦ rw (nobody, deliver) (inl (refl, refl))
    | inr (ch, there) ↦ inr (c, reply_of json c text, ch, is_reply, there)
  ]

  push_event-AnswersOnly : (s : Session) (m n : Message) → AnswersOnly s n (push_event s m).0
  push_event-AnswersOnly s m n =
      push_event_cases json (AnswersOnly s n) s m (inl (refl, refl)) (λ room. inl (refl, refl))

  rpc_message-AnswersOnly :
      (s : Session) (m : Message)
      → belongs json s m ≡ true
      → s.closed ≡ false
      → m.method ≡ "rpc"
      → AnswersOnly s m (handle_rpc_message json s m).0
  unfolding handle_rpc_message
  rpc_message-AnswersOnly s m own live rpc = go (handle_rpc_frame json s m.body) refl
    where
      routed :
          (s' : Session) (handled : Bool)
          → FrameCases s s' m.body handled
          → AnswersOnly s m (if handled then (s', none) else push_event s' m).0
      routed s' true (inl e) = subst (AnswersOnly s m) (sym e) (inl (refl, refl))
      routed s' false (inl e) =
          subst (λ t. AnswersOnly s m (push_event t m).0) (sym e) (push_event-AnswersOnly s m m)
      routed s' handled (inr (h, c, text, is_reply, e)) = rw h (
          subst (AnswersOnly s m) (sym e)
            (deliver-AnswersOnly s m c text (own, live, rpc, is_reply)))

      go :
          (r : Result SessionError (Session × Bool))
          → handle_rpc_frame json s m.body ≡ r
          → AnswersOnly s m (handle_rpc_message json s m).0
      go (err x) e = rw (e, handle_rpc_message) (inl (refl, refl))
      go (ok (s', handled)) e =
          rw (e, handle_rpc_message)
            (routed s' handled (handle_rpc_frame-replies s s' m.body handled e))

  handle-AnswersOnly :
      (now : ℕ) (s : Session) (m : Message) → AnswersOnly s m (handle json now s m).0
  handle-AnswersOnly now s m = elim (Bool-cases (belongs json s m)) [
    | inr foreign ↦
        subst (AnswersOnly s m) (sym (handle-unchanged json now s m (inl foreign)))
          (inl (refl, refl))
    | inl own ↦ elim (Bool-cases s.closed) [
      | inl over ↦
          subst (AnswersOnly s m) (sym (handle-unchanged json now s m (inr over)))
            (inl (refl, refl))
      | inr live ↦
          subst (AnswersOnly s m) (ap (λ r. r.0) (sym (handle_own json now s m own live)))
            (elim (Bool-cases (str_eq m.method "pong")) [
              | inl pong ↦ rw pong (inl (refl, refl))
              | inr other ↦ elim (Bool-cases (str_eq m.method "rpc")) [
                | inl rpc ↦
                    rw (other, rpc)
                      (rpc_message-AnswersOnly s m own live ((eq_iff m.method "rpc").0 rpc))
                | inr event ↦ rw (other, event) (push_event-AnswersOnly s m m)
              ]
            ])
    ]
  ]

  -- What a reply to the call with the channel `ch` does.
  abbrev pub AnswersCall : Session → RpcCommand → RpcReply → ℕ → Session → Type 0
  AnswersCall s c r ch t =
      ((j : ℕ) → lookup j t.replies ≡ (if ch == j then some r else lookup j s.replies))
      × ((id : Bytes)
          → lookup id t.pending ≡ (if bytes_eq c.id id then none else lookup id s.pending))
      × (t.events ≡ s.events)
      × (t.last_pong ≡ s.last_pong)

  answered :
      (now : ℕ) (s : Session) (m : Message) (c : RpcCommand) (r : RpcReply) (ch : ℕ)
      → IsAnswerTo s m c r
      → lookup c.id s.pending ≡ some ch
      → handle json now s m
        ≡ (record s { replies = insert ch r s.replies; pending = delete c.id s.pending }, none)
  unfolding handle_rpc_frame handle_rpc handle_rpc_message
  answered now s m c r ch (own, live, rpc, (fields, text, has, f, full, read, answers)) there =
      let (checked, same) = Answers-check_command json s.control_id c text r answers in
      let known = IsRead-read_command json (raw_at "command" fields) c text read in
      let filled : is_empty (raw_at "command" fields) ≡ false =
        ground (arith, is_empty_iff (raw_at "command" fields)) in
      let framed : handle_rpc_frame json s m.body ≡ ok (deliver json s c text, true) =
        rw has (rw f (rw filled (rw known (rw checked refl)))) in
      let routed : handle_rpc_message json s m ≡ (deliver json s c text, none) =
        rw (framed, handle_rpc_message) refl in
      handle_own json now s m own live
      ∙ at_rpc m.method _ _ _ rpc
      ∙ routed
      ∙ ap (λ t. (t, none)) (deliver_lem json s c text ch there)
      ∙ ap
          (λ x.
            (record s { replies = insert ch x s.replies; pending = delete c.id s.pending }, none))
          same

  answers_call :
      (now : ℕ) (s : Session) (m : Message) (c : RpcCommand) (r : RpcReply) (ch : ℕ)
      → IsAnswerTo s m c r
      → lookup c.id s.pending ≡ some ch
      → ((handle json now s m).1 ≡ none) × AnswersCall s c r ch (handle json now s m).0
  answers_call now s m c r ch is_reply there =
      subst (λ (p : Session × Option SessionError). (p.1 ≡ none) × AnswersCall s c r ch p.0)
        (sym (answered now s m c r ch is_reply there))
        (
          refl,
          (λ j. lookup-insert ch j r s.replies, λ id. lookup-delete c.id id s.pending, refl, refl),
        )

  -- A reply to a pending call does not leave it pending.
  still_pending :
      (now : ℕ) (s : Session) (m : Message)
      → (handle json now s m).0.pending ≡ s.pending
      → (c : RpcCommand) (r : RpcReply) (ch : ℕ) → IsAnswerTo s m c r
      → lookup c.id s.pending ≢ some ch
  still_pending now s m same c r ch is_reply there =
      let (e, (replies, pending, events, pong)) = answers_call now s m c r ch is_reply there in
      let own : bytes_eq c.id c.id ≡ true = (bytes_eq_iff c.id c.id).1 refl in
      let gone : lookup c.id (handle json now s m).0.pending ≡ none = pending c.id ∙ rw own refl in
      let here : lookup c.id (handle json now s m).0.pending ≡ some ch =
        ap (λ p. lookup c.id p) same ∙ there in
      cc

  -- A message answers a call exactly if it is a reply to it: one of the live session, of JSON-RPC 2.0,
  -- directly or in a wrapper, with no method and with either the peer's error or a result for the control
  -- session. The channel of the call then gets that error or result, every other channel keeps what it
  -- held, the call is pending no more, every other call stays pending, and no event is queued. Any other
  -- message leaves all channels and all pending calls as they were.
  pub handle-reply :
      (now : ℕ) (s : Session) (m : Message)
      → let (t, e) = handle json now s m in
        ((c : RpcCommand) × (r : RpcReply) × (ch : ℕ) × IsAnswerTo s m c r
          × (lookup c.id s.pending ≡ some ch)
          × (e ≡ none)
          × AnswersCall s c r ch t)
        ⊎ ((t.replies ≡ s.replies)
            × (t.pending ≡ s.pending)
            × ((c : RpcCommand) (r : RpcReply) (ch : ℕ)
                → IsAnswerTo s m c r
                → lookup c.id s.pending ≢ some ch))
  handle-reply now s m = elim (handle-AnswersOnly now s m) [
    | inl (replies, pending) ↦ inr (replies, pending, still_pending now s m pending)
    | inr (c, r, ch, is_reply, there) ↦
        let (e, answers) = answers_call now s m c r ch is_reply there in
        inl (c, r, ch, is_reply, there, e, answers)
  ]
