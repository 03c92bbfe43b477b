-- ===== src/Live/Answer.antt =====
-- What AwaitLiveAnswer of pkg/dependencies/websocket/live_negotiation.go returns.
use Prim.Native.String.{String}
use text.Mathlib.Text.{◌==◌ as str_eq}
use text.Mathlib.TextEquality.{eq_iff}
use mathlib.Core.List.{Memᴰ}
use go_ring.Common.{
  ℕ, ◌*◌, ◌≤◌, ◌<◌, ◌≡◌, ◌≢◌, refl, sym, subst, ◌∙◌, ◌⊎◌, inl, inr, ◌↔◌, Bool, true, false, not,
  ◌&&◌, ◌||◌, Option, none, some, List, [], ◌∷◌, Bytes, arith, Bool-cases, Option-cases,
}
use go_ring.Common.Maps.{Map, lookup, string_eq_instance}
use go_ring.Common.Int.{ℤ, pos, negsuc, to_ℕ, is_positive, int_eq}
use go_ring.Common.Fallible.{Result, ok, err, ◌>>=◌, ◌>>◌, guard, guard_iff, or_fail, bind-eq-ok}
use go_ring.Signaling.Message.{Message}
use go_ring.Signaling.Session.{at_most}
use go_ring.Live.{
  Refusal, connection, LiveNegotiation, LiveAnswerBody, NegotiationJson, raw_at, keep_riid,
  conflicts, negotiated_heartbeat, check_answer, accept_live_answer, accept_session_created,
  accept_live_negotiation_message, Arrival, message, context_done, parent_done, await_loop,
  await_live_answer,
}

or_fail-ok {ℓ κ} :
    {E : Type ℓ} {A : Type κ} (o : Option A) (e : E) (a : A) → or_fail o e ≡ ok a → o ≡ some a
or_fail-ok none e a h = absurd (cc)
or_fail-ok (some b) e a h = ground arith

Result-cases {ℓ κ} :
    {E : Type ℓ} {A : Type κ} (r : Result E A) → ((e : E) × (r ≡ err e)) ⊎ ((a : A) × (r ≡ ok a))
Result-cases (ok a) = inr (a, refl)
Result-cases (err e) = inl (e, refl)

int_eq_iff : (a b : ℤ) → (int_eq a b ≡ true) ↔ (a ≡ b)
int_eq_iff (pos m) (pos n) = ground arith
int_eq_iff (negsuc m) (negsuc n) = ground arith
int_eq_iff (pos m) (negsuc n) = (λ h. absurd (cc), λ h. absurd (cc))
int_eq_iff (negsuc m) (pos n) = (λ h. absurd (cc), λ h. absurd (cc))

-- A heartbeat that a session may have: at most a minute.
abbrev pub IsInterval : ℕ → Type 0
IsInterval n = (0 < n) × (n ≤ 60000)

seconds_lem : (z : ℤ) → (is_positive z && at_most z 60) ≡ true → IsInterval (to_ℕ z * 1000)
seconds_lem (pos n) h = ground arith
seconds_lem (negsuc n) h = absurd (cc)

heartbeat-IsInterval :
    (json : NegotiationJson) (bad : Refusal) (known n : ℕ) (info : Map String Bytes)
    → negotiated_heartbeat json bad known info ≡ ok n
    → IsInterval known
    → IsInterval n
unfolding negotiated_heartbeat
heartbeat-IsInterval json bad known n info h i = elim (Option-cases (lookup "ping_interval" info)) [
  | inl missing ↦ let same : known ≡ n = ground arith in subst IsInterval same i
  | inr (raw, e) ↦
      let h' : (or_fail (json.decode_int raw) bad >>= λ seconds.
      guard (is_positive seconds && at_most seconds 60) bad >> ok (to_ℕ seconds * 1000))
          ≡ ok n =
        ground arith in
      let (z, d, h1) = bind-eq-ok (or_fail (json.decode_int raw) bad) _ h' in
      let (fits, h2) = (guard_iff (is_positive z && at_most z 60) bad _).0 h1 in
      let same : to_ℕ z * 1000 ≡ n = ground arith in subst IsInterval same (seconds_lem z fits)
]

-- The message is the answer of the device for the session, and what it says is in the state.
abbrev pub FromAnswer : NegotiationJson → ℤ → Message → LiveNegotiation → Type 0
FromAnswer json device m s =
    (body : LiveAnswerBody) × (json.decode_answer m.body ≡ some body)
    × (m.method ≡ "sdp")
    × (body.reserved_type ≡ "answer")
    × (body.doorbot_id ≡ device)
    × (body.session_id ≡ s.signal_id)
    × (body.sdp ≡ s.answer_sdp)
    × (body.session_info ≡ some s.control_id)

answer_ok :
    (json : NegotiationJson) (state s : LiveNegotiation) (m : Message) (device : ℤ)
    → m.method ≡ "sdp"
    → check_answer json state m device ≡ ok s
    → FromAnswer json device m s
      × (s.answer_sdp ≢ "")
      × (s.heartbeat ≡ state.heartbeat)
      × ((state.signal_id ≢ "") → s.signal_id ≡ state.signal_id)
unfolding check_answer
answer_ok json state s m device sdp h =
    let (body, d, h1) =
      bind-eq-ok (or_fail (json.decode_answer m.body) (connection "invalid SDP answer", state)) _
        h in
    let (fits, h2) =
      (guard_iff
          (int_eq body.doorbot_id device
            && (str_eq body.reserved_type "answer" && not (str_eq body.sdp "")))
          (connection "invalid SDP answer", state) _).0
        h1 in
    let (control, c, h3) =
      bind-eq-ok (or_fail body.session_info (connection "invalid SDP answer", state)) _ h2 in
    let (same, h4) =
      (guard_iff (str_eq state.signal_id "" || str_eq body.session_id state.signal_id)
          (connection "SDP signaling session mismatch", state) _).0
        h3 in
    let result : LiveNegotiation = record state {
      signal_id = body.session_id;
      answer_sdp = body.sdp;
      control_id = control;
      riid = keep_riid state.riid m.riid;
    } in
    let e : result ≡ s = ground arith in
    let for_device : body.doorbot_id ≡ device = ground (arith, int_eq_iff body.doorbot_id device) in
    let is_answer : body.reserved_type ≡ "answer" =
      ground (arith, eq_iff body.reserved_type "answer") in
    let full : body.sdp ≢ "" = ground (arith, eq_iff body.sdp "") in
    let kept : (state.signal_id ≢ "") → body.session_id ≡ state.signal_id =
      ground (arith, eq_iff state.signal_id "", eq_iff body.session_id state.signal_id) in
    subst
      (λ x.
        FromAnswer json device m x
        × (x.answer_sdp ≢ "")
        × (x.heartbeat ≡ state.heartbeat)
        × ((state.signal_id ≢ "") → x.signal_id ≡ state.signal_id))
      e
      (
        (
          body,
          or_fail-ok _ _ body d,
          sdp,
          is_answer,
          for_device,
          refl,
          refl,
          or_fail-ok _ _ control c,
        ),
        full,
        refl,
        kept,
      )

-- A negotiation that has no answer yet: its heartbeat is an interval, and it has an identity from the
-- first `session_created` on.
abbrev Waiting : LiveNegotiation → Bool → Type 0
Waiting s created =
    (s.answer_sdp ≡ "") × IsInterval s.heartbeat × (created ≡ true → s.signal_id ≢ "")

-- It has one, and an identity.
abbrev Answered : NegotiationJson → ℤ → Message → LiveNegotiation → Type 0
Answered json device m s =
    FromAnswer json device m s × IsInterval s.heartbeat × (s.signal_id ≢ "") × (s.answer_sdp ≢ "")

live_answer_Answered :
    (json : NegotiationJson) (state s : LiveNegotiation) (m : Message) (device : ℤ)
    → m.method ≡ "sdp"
    → accept_live_answer json state m device ≡ ok s
    → Waiting state true
    → Answered json device m s
unfolding accept_live_answer
live_answer_Answered json state s m device sdp h w =
    let bad : Refusal = (connection "invalid SDP answer", state) in
    let (envelope, d, h1) = bind-eq-ok (or_fail (json.decode_object m.body) bad) _ h in
    let (info, d', h2) =
      bind-eq-ok (or_fail (json.decode_object (raw_at "session_info" envelope)) bad) _ h1 in
    let (n, e, h3) =
      bind-eq-ok
        (negotiated_heartbeat json (connection "invalid negotiated heartbeat interval", state)
          state.heartbeat info)
        _ h2 in
    let (from, full, beat, kept) =
      answer_ok json (record state { heartbeat = n }) s m device sdp h3 in
    let interval = heartbeat-IsInterval json _ state.heartbeat n info e w.1 in
    let identity = kept (w.2 refl) in
    (
      from,
      subst IsInterval (sym beat) interval,
      subst (λ x. x ≢ "") (sym identity) (w.2 refl),
      full,
    )

created_Waiting :
    (json : NegotiationJson) (state : LiveNegotiation) (created : Bool) (m : Message) (device : ℤ)
    (r : LiveNegotiation × Bool)
    → accept_session_created json state created m device ≡ ok r
    → Waiting state created
    → Waiting r.0 r.1
unfolding accept_session_created
created_Waiting json state created m device r h w =
    let bad : Refusal = (connection "invalid session_created response", state) in
    let (body, d, h1) = bind-eq-ok (or_fail (json.decode_created m.body) bad) _ h in
    let (fits, h2) =
      (guard_iff (int_eq body.doorbot_id device && not (str_eq body.session_id "")) bad _).0 h1 in
    let (agrees, h3) =
      (guard_iff (not (created && conflicts state body.session_id m))
          (connection "conflicting session_created response", state) _).0
        h2 in
    let named : body.session_id ≢ "" = ground (arith, eq_iff body.session_id "") in
    let result : LiveNegotiation = record state {
      signal_id = body.session_id;
      riid = keep_riid state.riid m.riid;
    } in
    let e : (result, true) ≡ r = ground arith in
    subst (λ x. Waiting x.0 x.1) e (w.0, w.1, λ t. named)

message_cases :
    (json : NegotiationJson) (state : LiveNegotiation) (created : Bool) (m : Message) (device : ℤ)
    (r : LiveNegotiation × Bool)
    → accept_live_negotiation_message json state created m device ≡ ok r
    → Waiting state created
    → Waiting r.0 r.1 ⊎ Answered json device m r.0
unfolding accept_live_negotiation_message
message_cases json state created m device r h w =
    elim (Bool-cases (str_eq m.method "session_created")) [
      | inl first ↦ inl (created_Waiting json state created m device r (ground arith) w)
      | inr other ↦ elim (Bool-cases (str_eq m.method "sdp")) [
        | inl sdp ↦
            let h' : (guard created (connection "SDP answer before session_created", state)
                  >> (accept_live_answer json state m device >>= λ s. ok (s, created)))
                ≡ ok r =
              ground arith in
            let (c, h1) =
              (guard_iff created (connection "SDP answer before session_created", state) _).0 h' in
            let (s, e, h2) = bind-eq-ok (accept_live_answer json state m device) _ h1 in
            let same : s ≡ r.0 = ground arith in
            let answered =
              live_answer_Answered json state s m device ((eq_iff m.method "sdp").0 sdp) e
                (w.0, w.1, λ t. w.2 c) in
            inr (subst (Answered json device m) same answered)
        | inr rest ↦
            let same : (state, created) ≡ r = ground arith in
            inl (subst (λ x. Waiting x.0 x.1) same w)
      ]
    ]

module _ (json : NegotiationJson) (device : ℤ) where
  -- An answered negotiation goes on to nothing else.
  loop_Answered :
      (m : Message) (state : LiveNegotiation) (created : Bool) (arrivals : List Arrival)
      → Answered json device m state
      → await_loop json device state created arrivals ≡ some (ok state)
  unfolding await_loop
  loop_Answered m state created arrivals (from, interval, named, full) =
      let a : str_eq state.answer_sdp "" ≡ false = ground (arith, eq_iff state.answer_sdp "") in
      let b : str_eq state.signal_id "" ≡ false = ground (arith, eq_iff state.signal_id "") in
      at_once arrivals a b
    where
      at_once :
          (arrivals : List Arrival)
          → str_eq state.answer_sdp "" ≡ false
          → str_eq state.signal_id "" ≡ false
          → await_loop json device state created arrivals ≡ some (ok state)
      at_once [] a b = rw (a, b, await_loop) refl
      at_once (message n ∷ rest) a b = rw (a, b, await_loop) refl
      at_once (context_done ∷ rest) a b = rw (a, b, await_loop) refl
      at_once (parent_done ∷ rest) a b = rw (a, b, await_loop) refl

  loop_ok :
      (state s : LiveNegotiation) (created : Bool) (arrivals : List Arrival)
      → Waiting state created
      → await_loop json device state created arrivals ≡ some (ok s)
      → (m : Message) × Memᴰ (message m) arrivals × Answered json device m s
  unfolding await_loop
  loop_ok state s created [] w h = absurd (ground (arith, eq_iff state.answer_sdp ""))
  loop_ok state s created (context_done ∷ rest) w h =
      absurd (ground (arith, eq_iff state.answer_sdp ""))
  loop_ok state s created (parent_done ∷ rest) w h =
      absurd (ground (arith, eq_iff state.answer_sdp ""))
  loop_ok state s created (message m ∷ rest) w h =
      let blank : str_eq state.answer_sdp "" ≡ true = (eq_iff state.answer_sdp "").1 w.0 in
      let whole = await_loop json device state created (message m ∷ rest) in
      elim (Result-cases (accept_live_negotiation_message json state created m device)) [
        | inl (e, bad) ↦
            let stops : whole ≡ some (err e) = rw (blank, bad, await_loop) refl in
            absurd (ground arith)
        | inr (r, good) ↦
            let goes : whole ≡ await_loop json device r.0 r.1 rest =
              rw (blank, good, await_loop) refl in
            let h' = sym goes ∙ h in
            elim (message_cases json state created m device r good w) [
              | inl w' ↦ let (n, later, a) = loop_ok r.0 s r.1 rest w' h' in (n, Memᴰ.tail later, a)
              | inr a ↦
                  let over = sym (loop_Answered m r.0 r.1 rest a) ∙ h' in
                  let same : r.0 ≡ s = ground arith in
                  (m, Memᴰ.head refl, subst (Answered json device m) same a)
            ]
      ]

-- Where AwaitLiveAnswer returns a negotiation, one of the messages that arrived is an answer of the
-- device: its method is `sdp` and its type `answer`, it names the device, and the identity, the
-- description and the control identity are its own. The identity and the description are not empty,
-- and the heartbeat is positive and at most a minute.
pub await_live_answer-ok :
    (json : NegotiationJson) (device : ℤ) (arrivals : List Arrival) (s : LiveNegotiation)
    → await_live_answer json device arrivals ≡ some (ok s)
    → (m : Message) × Memᴰ (message m) arrivals
      × FromAnswer json device m s
      × IsInterval s.heartbeat
      × (s.signal_id ≢ "")
      × (s.answer_sdp ≢ "")
unfolding await_live_answer
await_live_answer-ok json device arrivals s h =
    let (m, there, a) =
      loop_ok json device _ s false arrivals (refl, (omega arith, omega arith), λ t. absurd (cc))
        h in
    (m, there, a.0, a.1, a.2, a.3)
