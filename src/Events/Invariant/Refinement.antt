-- ===== src/Events/Invariant/Refinement.antt =====
-- The event connection as an implementation of a stream that is read in order.
use go_ring.Common.{
  ◌+◌, ◌≤◌, ◌≡◌, refl, sym, ap, ◌∙◌, subst, Bool, true, false, Option, none, some, List, [], ◌∷◌,
  ◌++◌, length, append_assoc, append-nil, arith, inl, inr, Bool-cases, if◌then◌else◌,
}
use go_ring.Events.{
  ReaderPhase, checking, reading, leaving, returned, sending, EventConnection, check_context,
  read_message, read_error, put_message, drop_message, leave, return_event, return_error,
  return_closed, take_message, take_error, enter, behind_first, drain_first,
  prioritize_pending_event, entered, prioritizing, Step, Reach, checks, reads, fails, puts, drops,
  leaves, enters, drains, waits_message, waits_error, waits_done, drains_error, drains_message,
  prioritizes, cancels, closes, closes_channels,
}
use go_ring.Events.Invariant.Run.{Reach-Inv}
use go_ring.Events.Invariant.{
  held, is_running, Inv, receive_cases, pending_count, prioritizing_count, held-stopped,
}

-- What a client sees: events that arrived and were not taken yet, whether more may arrive, and what it got.
pub record EventStream (A E : Type 0) : Type 0 where
  pub queue : List A
  pub reading : Bool
  pub delivered : List A
  pub reported : List E

-- The client takes the events in the order of their arrival. Where the stream is canceled, its last
-- event may be lost. At the end, and when all events are taken, it may get one error.
pub data StreamStep {A E : Type 0} : EventStream A E → EventStream A E → Type 0 where
  stays : (p : EventStream A E) → StreamStep p p
  arrives :
      (p : EventStream A E) (a : A)
      → p.reading ≡ true
      → StreamStep p (record p { queue = p.queue ++ a ∷ [] })
  takes :
      (p : EventStream A E) (a : A) (rest : List A)
      → p.queue ≡ a ∷ rest
      → StreamStep p (record p { queue = rest; delivered = p.delivered ++ a ∷ [] })
  ends : (p : EventStream A E) → p.reading ≡ true → StreamStep p (record p { reading = false })
  cuts :
      (p : EventStream A E) (a : A) (rest : List A)
      → p.reading ≡ true
      → p.queue ≡ rest ++ a ∷ []
      → StreamStep p (record p { queue = rest; reading = false })
  reports :
      (p : EventStream A E) (e : E)
      → p.reading ≡ false
      → p.queue ≡ []
      → p.reported ≡ []
      → StreamStep p (record p { reported = e ∷ [] })

nil_of_length : {A : Type 0} (xs : List A) → length xs ≡ 0 → xs ≡ []
nil_of_length [] h = refl
nil_of_length (x ∷ xs) h = absurd (omega (arith, h))

Bool-false : (b : Bool) → (b ≡ true → ⊥) → b ≡ false
Bool-false true h = absurd (h refl)
Bool-false false h = refl

module _ {A E : Type 0} where
  unfoldable pub stream : EventConnection A E → EventStream A E
  stream s = record {
    queue = s.messages ++ held s.reader;
    reading = is_running s.reader;
    delivered = s.delivered;
    reported = s.reported;
  }

  Refines : EventConnection A E → EventConnection A E → Type 0
  Refines s t = StreamStep (stream s) (stream t)

  -- Only the phase of the read loop changes.
  reader-Refines :
      (s : EventConnection A E) (q : ReaderPhase A)
      → held s.reader ≡ held q
      → is_running s.reader ≡ is_running q
      → Refines s (record s { reader = q })
  unfolding Refines stream
  reader-Refines s q same on =
      subst (λ r. StreamStep (stream s) r)
        (λ i. record {
          queue = s.messages ++ same i;
          reading = on i;
          delivered = s.delivered;
          reported = s.reported;
        })
        (stays (stream s))

  -- The read loop ends with the same event in hand.
  ends-Refines :
      (s : EventConnection A E) (q : ReaderPhase A)
      → held s.reader ≡ held q
      → is_running s.reader ≡ true
      → is_running q ≡ false
      → Refines s (record s { reader = q })
  unfolding Refines stream
  ends-Refines s q same on off =
      subst (λ r. StreamStep (stream s) r)
        (λ i. record {
          queue = s.messages ++ same i;
          reading = sym off i;
          delivered = s.delivered;
          reported = s.reported;
        })
        (ends (stream s) on)

  -- The queue of the stream is another list that is equal.
  queue_subst :
      (s : EventConnection A E) {q : List A} (r : EventStream A E)
      → StreamStep (stream s) r
      → r.queue ≡ q
      → StreamStep (stream s) (record r { queue = q })
  queue_subst s r step e = subst (λ p. StreamStep (stream s) (record r { queue = p })) e step

  check_context-Refines :
      (s : EventConnection A E) → s.reader ≡ checking → Refines s (check_context s)
  unfolding check_context Refines stream
  check_context-Refines s at = elim (Bool-cases s.canceled) [
    | inl on ↦ rw on (ends-Refines s leaving (ap held at) (ap is_running at) refl)
    | inr off ↦ rw off (reader-Refines s reading (ap held at) (ap is_running at))
  ]

  read_message-Refines :
      (s : EventConnection A E) (m : Option A) → s.reader ≡ reading → Refines s (read_message s m)
  unfolding Refines stream read_message
  read_message-Refines s none at = reader-Refines s checking (ap held at) (ap is_running at)
  read_message-Refines s (some a) at =
      let on : is_running s.reader ≡ true = ap is_running at in
      subst (λ r. StreamStep (stream s) r)
        (λ i. record {
          queue =
              (append_assoc s.messages (held s.reader) (a ∷ [])
                  ∙ ap (λ h. s.messages ++ (h ++ a ∷ [])) (ap held at))
                i;
          reading = on i;
          delivered = s.delivered;
          reported = s.reported;
        })
        (arrives (stream s) a on)

  put_message-Refines :
      (s : EventConnection A E) (a : A) → s.reader ≡ sending a → Refines s (put_message s a)
  unfolding Refines stream put_message
  put_message-Refines s a at =
      let on : is_running s.reader ≡ true = ap is_running at in
      subst (λ r. StreamStep (stream s) r)
        (λ i. record {
          queue = (ap (◌++◌ s.messages) (ap held at) ∙ sym (append-nil (s.messages ++ a ∷ []))) i;
          reading = on i;
          delivered = s.delivered;
          reported = s.reported;
        })
        (stays (stream s))

  drop_message-Refines :
      (s : EventConnection A E) (a : A) → s.reader ≡ sending a → Refines s (drop_message s a)
  unfolding Refines stream drop_message
  drop_message-Refines s a at =
      subst
        (λ q.
          StreamStep (stream s)
            (record { queue = q; reading = false; delivered = s.delivered; reported = s.reported }))
        (sym (append-nil s.messages))
        (cuts (stream s) a s.messages (ap is_running at) (ap (◌++◌ s.messages) (ap held at)))

  deliver-Refines :
      (s : EventConnection A E) (a : A) (rest : List A)
      → s.messages ≡ a ∷ rest
      → Refines s (record s { messages = rest; delivered = s.delivered ++ a ∷ [] })
  unfolding Refines stream
  deliver-Refines s a rest e =
      takes (stream s) a (rest ++ held s.reader) (ap (λ m. m ++ held s.reader) e)

  -- A read error is on its way, and no event is in the queue: it is time for the error.
  report-Refines :
      (s : EventConnection A E) (e : E)
      → Inv s
      → 1 ≤ length s.errors + pending_count s.pending_err + prioritizing_count s.receiver
      → s.messages ≡ []
      → Refines s (record s { reported = e ∷ s.reported })
  unfolding Refines stream
  report-Refines s e i some_failure empty =
      let off =
        Bool-false (is_running s.reader) λ on. omega (arith, (i.running on).1, some_failure) in
      let nothing_held = nil_of_length (held s.reader) (held-stopped s.reader λ on. cc) in
      let none_reported = nil_of_length s.reported (omega (arith, i.once, some_failure)) in
      subst (λ q. StreamStep (stream s) (record (stream s) { reported = e ∷ q }))
        (sym none_reported)
        (reports (stream s) e off (ap (λ m. m ++ held s.reader) empty ∙ nothing_held) none_reported)

  take_message-Refines :
      (s t : EventConnection A E) → (s.messages ≡ [] → Refines s t) → Refines s (take_message s t)
  unfolding Refines stream take_message return_event return_closed
  take_message-Refines s t h =
      receive_cases (Refines s) s.messages s.channels_closed _ _ t
        (λ a rest e. deliver-Refines s a rest e) (λ e. stays (stream s)) h

  take_error-Refines : (s t : EventConnection A E) → Refines s t → Refines s (take_error s t)
  unfolding Refines stream take_error return_closed
  take_error-Refines s t h =
      receive_cases (Refines s) s.errors s.channels_closed _ _ t (λ x rest e. stays (stream s))
        (λ e. stays (stream s)) (λ e. h)

  behind_first-Refines :
      (s : EventConnection A E) (p : Option E)
      → s.pending_err ≡ p
      → Inv s
      → s.messages ≡ []
      → Refines s (behind_first s p)
  unfolding Refines stream behind_first return_error
  behind_first-Refines s none e i empty = stays (stream s)
  behind_first-Refines s (some x) e i empty =
      report-Refines s x i (omega (arith, ap pending_count e)) empty

  prioritize-Refines :
      (s : EventConnection A E) (e : E)
      → s.receiver ≡ prioritizing e
      → Inv s
      → Refines s (prioritize_pending_event s e)
  unfolding Refines stream prioritize_pending_event return_event return_closed return_error
  prioritize-Refines s e at i =
      receive_cases (Refines s) s.messages s.channels_closed _ _ (return_error s e)
        (λ a rest there. deliver-Refines s a rest there) (λ empty. stays (stream s))
        (λ empty. report-Refines s e i (omega (arith, ap prioritizing_count at)) empty)

  if-Refines :
      (s t u : EventConnection A E) (b : Bool)
      → Refines s t
      → Refines s u
      → Refines s (if b then t else u)
  if-Refines s t u true x y = x
  if-Refines s t u false x y = y

  enter-Refines : (s : EventConnection A E) → Refines s (enter s)
  unfolding Refines stream enter
  enter-Refines s =
      if-Refines s s (record s { receiver = entered }) s.closed (stays (stream s))
        (stays (stream s))

  Step-Refines : {s t : EventConnection A E} → Inv s → Step s t → Refines s t
  unfolding Refines stream read_error leave enter drain_first return_closed
  Step-Refines i (checks s at) = check_context-Refines s at
  Step-Refines i (reads s m at) = read_message-Refines s m at
  Step-Refines i (fails s e at) = ends-Refines s leaving (ap held at) (ap is_running at) refl
  Step-Refines i (puts s a at room) = put_message-Refines s a at
  Step-Refines i (drops s a at h) = drop_message-Refines s a at
  Step-Refines i (leaves s at) = reader-Refines s returned (ap held at) (ap is_running at)
  Step-Refines i (enters s at) = enter-Refines s
  Step-Refines i (drains s at) =
      take_message-Refines s _ (behind_first-Refines s s.pending_err refl i)
  Step-Refines i (waits_message s at) = take_message-Refines s s λ h. stays (stream s)
  Step-Refines i (waits_error s at) = take_error-Refines s s (stays (stream s))
  Step-Refines i (waits_done s at h) = stays (stream s)
  Step-Refines i (drains_error s at) = take_error-Refines s _ (stays (stream s))
  Step-Refines i (drains_message s at) = take_message-Refines s _ λ h. stays (stream s)
  Step-Refines i (prioritizes s e at) = prioritize-Refines s e at i
  Step-Refines i (cancels s) = stays (stream s)
  Step-Refines i (closes s) = stays (stream s)
  Step-Refines i (closes_channels s h at) = stays (stream s)

  -- Every step of the read loop, of a receiver and of Close is, for a client, a step of a stream or none:
  -- events are taken in the order in which they arrived, only the last one may be lost and only when
  -- the reading ends, and at most one error comes, behind the last event.
  pub Reach-refines :
      {s t : EventConnection A E} → Reach s → Step s t → StreamStep (stream s) (stream t)
  unfolding Refines
  Reach-refines r step = Step-Refines (Reach-Inv r) step
