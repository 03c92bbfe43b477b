-- ===== src/Signaling/Session/Rpc/Run.antt =====
-- A session over its life, internal/signaling/session.go: its reader, its timers and the goroutines
-- that call it take turns in any order.
use Prim.Native.String.{String}
use go_ring.Common.{
  ℕ, ◌+◌, ◌*◌, ◌-◌, ◌^◌, ◌<◌, ◌≡◌, refl, sym, ap, subst, ◌∙◌, ◌⊎◌, inl, inr, true, false, Option,
  none, some, List, [], ◌∷◌, Bytes, length, leb, if◌then◌else◌, arith, Bool-cases, Option-cases,
}
use go_ring.Common.Maps.{lookup, delete, lookup-delete, AllEntries-map, nat_eq_instance}
use go_ring.Common.Decimal.{bytes_eq_instance}
use go_ring.Common.Fallible.{ok}
use go_ring.Signaling.Message.{Message, method_ping}
use go_ring.Signaling.Session.{
  SessionError, expired, canceled, heartbeat_timeout, Session, SessionConfig, new_session, finish,
  send, on_tick,
}
use go_ring.Signaling.Session.Rpc.{SessionJson, handle, register, unregister, deliver, RpcCommand}
use go_ring.Signaling.Session.Rpc.Routing.{handle_cases}
use go_ring.Signaling.Session.Rpc.Invariant.{Inv, register-Inv, unregister-Inv, handle-Inv}
use go_ring.Signaling.Session.Rpc.Finish.{finish-Inv}

-- `write` is the transport and `body` the encoded SessionBody, as `send` takes them. A session makes
-- fewer than 2 ^ 64 calls: `registers` says so.
pub data Step (json : SessionJson) (write : Message → Option SessionError) (body : Option Bytes)
    : Session → Session → Type 0 where
  registers :
      (s t : Session) (n : ℕ)
      → s.sequence + 1 < 2 ^ 64
      → register s ≡ ok (t, n)
      → Step json write body s t
  unregisters : (s : Session) (n : ℕ) → Step json write body s (unregister s n)
  handles : (s : Session) (now : ℕ) (m : Message) → Step json write body s (handle json now s m).0
  sends :
      (s : Session) (ctx_err : Option SessionError) (now : ℕ) (method : String) (text : Bytes)
      → Step json write body s (send write body ctx_err now s method text).0
  ticks : (s : Session) (now : ℕ) → Step json write body s (on_tick write body now s)
  finishes : (s : Session) (e : SessionError) → Step json write body s (finish s e)
  receives :
      (s : Session) (m : Message) (rest : List Message)
      → s.events ≡ m ∷ rest
      → Step json write body s (record s { events = rest })
  takes_reply :
      (s : Session) (ch : ℕ) → Step json write body s (record s { replies = delete ch s.replies })

pub data Reach (json : SessionJson) (write : Message → Option SessionError) (body : Option Bytes)
    (s : Session) : Session → Type 0 where
  here : Reach json write body s s
  further :
      {t u : Session}
      → Reach json write body s t
      → Step json write body t u
      → Reach json write body s u

module _ (write : Message → Option SessionError) (body : Option Bytes) where
  send_states :
      (ctx_err : Option SessionError) (now : ℕ) (s : Session) (method : String) (text : Bytes)
      → ((send write body ctx_err now s method text).0 ≡ s)
        ⊎ ((send write body ctx_err now s method text).0 ≡ finish s expired)
  unfolding send
  send_states ctx_err now s method text = ground arith

  -- Sending changes a session only by ending it.
  send_cases {ℓ} :
      (P : Session → Type ℓ) (ctx_err : Option SessionError) (now : ℕ) (s : Session)
      (method : String) (text : Bytes)
      → P s
      → ((e : SessionError) → P (finish s e))
      → P (send write body ctx_err now s method text).0
  send_cases P ctx_err now s method text same over = elim (send_states ctx_err now s method text) [
    | inl e ↦ subst P (sym e) same
    | inr e ↦ subst P (sym e) (over expired)
  ]

  abbrev ping : ℕ → Session → Session × Option SessionError
  ping now s = send write body (if s.closed then some canceled else none) now s method_ping []

  tick_states :
      (now : ℕ) (s : Session)
      → (on_tick write body now s ≡ finish s heartbeat_timeout)
        ⊎ ((on_tick write body now s ≡ (ping now s).0)
            ⊎ ((e : SessionError) × (on_tick write body now s ≡ finish (ping now s).0 e)))
  unfolding on_tick
  tick_states now s = elim (Bool-cases (leb (3 * s.heartbeat) (now - s.last_pong))) [
    | inl late ↦ inl (rw (late, on_tick) refl)
    | inr soon ↦ elim (Option-cases (ping now s).1) [
      | inl fine ↦ inr (inl (rw (soon, fine, on_tick) refl))
      | inr (e, bad) ↦ inr (inr (e, rw (soon, bad, on_tick) refl))
    ]
  ]

  tick_cases {ℓ} :
      (P : Session → Type ℓ) (now : ℕ) (s : Session)
      → P s
      → ((t : Session) (e : SessionError) → P t → P (finish t e))
      → P (on_tick write body now s)
  tick_cases P now s same over =
      let pinged : P (ping now s).0 =
        send_cases P (if s.closed then some canceled else none) now s method_ping [] same
          (λ e. over s e same) in
      elim (tick_states now s) [
        | inl e ↦ subst P (sym e) (over s heartbeat_timeout same)
        | inr (inl e) ↦ subst P (sym e) pinged
        | inr (inr (x, e)) ↦ subst P (sym e) (over (ping now s).0 x pinged)
      ]

takes_reply-Inv : (s : Session) (ch : ℕ) → Inv s → Inv (record s { replies = delete ch s.replies })
takes_reply-Inv s ch v = record {
  ended = v.ended;
  caused = v.caused;
  within = v.within;
  opened = AllEntries-map _ _ s.pending (λ id k o. (gone k o.0, o.1, o.2)) v.opened;
  fresh = λ k h. gone k (v.fresh k h);
}
  where
    gone : (k : ℕ) → lookup k s.replies ≡ none → lookup k (delete ch s.replies) ≡ none
    gone k h = lookup-delete ch k s.replies ∙ rw h (ground arith)

module _ {json : SessionJson} {write : Message → Option SessionError} {body : Option Bytes} where
  Step-Inv : {s t : Session} → Step json write body s t → Inv s → Inv t
  Step-Inv (registers s t n small e) v = register-Inv s v t n small e
  Step-Inv (unregisters s n) v = unregister-Inv s v n
  Step-Inv (handles s now m) v = handle-Inv s v json now m
  Step-Inv (sends s ctx_err now method text) v =
      send_cases write body Inv ctx_err now s method text v (λ e. finish-Inv s e v)
  Step-Inv (ticks s now) v = tick_cases write body Inv now s v finish-Inv
  Step-Inv (finishes s e) v = finish-Inv s e v
  Step-Inv (receives s m rest e) v = record {
    ended = v.ended;
    caused = v.caused;
    within = omega (arith, ap length e, v.within);
    opened = v.opened;
    fresh = v.fresh;
  }
  Step-Inv (takes_reply s ch) v = takes_reply-Inv s ch v

  Reach-Inv : {s t : Session} → Reach json write body s t → Inv s → Inv t
  Reach-Inv here v = v
  Reach-Inv (further r st) v = Step-Inv st (Reach-Inv r v)

new_fields :
    (text : String → Bytes) (ctx_err : Option SessionError) (now : ℕ) (c : SessionConfig)
    (s : Session)
    → (new_session text ctx_err now c).1 ≡ some s
    → (s.pending ≡ []) × (s.replies ≡ []) × (s.events ≡ []) × (s.closed ≡ false)
unfolding new_session
new_fields text ctx_err now c s made = ground arith

new-Inv :
    (text : String → Bytes) (ctx_err : Option SessionError) (now : ℕ) (c : SessionConfig)
    (s : Session)
    → (new_session text ctx_err now c).1 ≡ some s
    → Inv s
unfolding lookup
new-Inv text ctx_err now c s made =
    let (pending, replies, events, closed) = new_fields text ctx_err now c s made in
    record {
      ended = λ over. absurd (ground arith);
      caused = λ over. absurd (ground arith);
      within = rw events (omega arith);
      opened = rw pending tt;
      fresh = λ ch h. rw replies refl;
    }

-- The session has ended with this cause.
abbrev pub HasEnded : SessionError → Session → Type 0
HasEnded e s = (s.closed ≡ true) × (s.terminal ≡ some e)

finish-HasEnded : (x e : SessionError) (s : Session) → HasEnded x s → HasEnded x (finish s e)
unfolding finish
finish-HasEnded x e s h = ground arith

deliver-HasEnded :
    (json : SessionJson) (x : SessionError) (s : Session) (c : RpcCommand) (text : Bytes)
    → HasEnded x s
    → HasEnded x (deliver json s c text)
unfolding deliver
deliver-HasEnded json x s c text h = ground arith

register-HasEnded :
    (x : SessionError) (s t : Session) (n : ℕ)
    → register s ≡ ok (t, n)
    → HasEnded x s
    → HasEnded x t
unfolding register
register-HasEnded x s t n e h = absurd (ground arith)

module _ {json : SessionJson} {write : Message → Option SessionError} {body : Option Bytes} where
  Step-HasEnded :
      {s t : Session} (x : SessionError) → Step json write body s t → HasEnded x s → HasEnded x t
  Step-HasEnded x (registers s t n small e) h = register-HasEnded x s t n e h
  Step-HasEnded x (unregisters s n) h = unfold unregister in h
  Step-HasEnded x (handles s now m) h =
      handle_cases json (HasEnded x) now s m h h (λ room. h)
        (λ c text. deliver-HasEnded json x s c text h)
  Step-HasEnded x (sends s ctx_err now method text) h =
      send_cases write body (HasEnded x) ctx_err now s method text h (λ e. finish-HasEnded x e s h)
  Step-HasEnded x (ticks s now) h =
      tick_cases write body (HasEnded x) now s h (λ t e. finish-HasEnded x e t)
  Step-HasEnded x (finishes s e) h = finish-HasEnded x e s h
  Step-HasEnded x (receives s m rest e) h = h
  Step-HasEnded x (takes_reply s ch) h = h

  Reach-HasEnded :
      {s t : Session} (x : SessionError) → Reach json write body s t → HasEnded x s → HasEnded x t
  Reach-HasEnded x here h = h
  Reach-HasEnded x (further r st) h = Step-HasEnded x st (Reach-HasEnded x r h)

module _ (json : SessionJson) (write : Message → Option SessionError) (body : Option Bytes) where
  -- Once a session has ended, it stays ended and keeps the cause of its first end, whatever its reader,
  -- its timers and its callers do.
  pub end_is_final :
      (s t : Session) (e : SessionError)
      → s.closed ≡ false
      → Reach json write body (finish s e) t
      → (t.closed ≡ true) × (t.terminal ≡ some e)
  end_is_final s t e live r = Reach-HasEnded e r (ended s e live)
    where
      ended : (s : Session) (e : SessionError) → s.closed ≡ false → HasEnded e (finish s e)
      ended s e live = unfold finish in ground arith

  -- In every state that a new session can reach, the channel of each pending call is empty, so the
  -- reader that delivers a reply under the lock never waits; each pending call has the identity made of
  -- its own number; at most 32 events are queued; and a session that has ended has a cause and no
  -- pending call.
  pub new_session-Reach-Inv :
      (text : String → Bytes) (ctx_err : Option SessionError) (now : ℕ) (c : SessionConfig)
      (s t : Session)
      → (new_session text ctx_err now c).1 ≡ some s
      → Reach json write body s t
      → Inv t
  new_session-Reach-Inv text ctx_err now c s t made r =
      Reach-Inv r (new-Inv text ctx_err now c s made)
