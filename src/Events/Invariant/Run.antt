-- ===== src/Events/Invariant/Run.antt =====
-- That every step of the event connection keeps the invariant.
use go_ring.Common.{
  ◌≤◌, ◌≡◌, ◌≢◌, refl, ap, ◌∙◌, subst, Bool, true, false, Option, none, some, [], ◌∷◌, ◌++◌, length,
  ltb, if◌then◌else◌, append_assoc, arith, length-append, ltb→lt,
}
use go_ring.Events.{
  checking, reading, leaving, returned, sending, idle, prioritizing, EventConnection,
  message_capacity, error_capacity, check_context, read_message, read_error, put_message,
  drop_message, leave, return_event, return_error, return_closed, take_message, take_error, enter,
  drain_first, prioritize_pending_event, Step, Reach, behind_first, waiting, entered, done_error,
  done_message, checks, reads, fails, puts, drops, leaves, enters, drains, waits_message,
  waits_error, waits_done, drains_error, drains_message, prioritizes, cancels, closes,
  closes_channels, opens, more,
}
use go_ring.Events.Invariant.{
  held, is_running, pending_count, prioritizing_count, Inv, open_events-Inv, reader-Inv,
  failure-Inv, receiver-Inv, deliver-Inv, receive_cases, length-if, queue_grows, length_of_some,
  held-stopped, only_delivered,
}

module _ {A E : Type 0} where
  if-Inv : (b : Bool) (s t : EventConnection A E) → Inv s → Inv t → Inv (if b then s else t)
  if-Inv true s t i j = i
  if-Inv false s t i j = j

  check_context-Inv :
      (s : EventConnection A E) → s.reader ≡ checking → Inv s → Inv (check_context s)
  unfolding check_context
  check_context-Inv s at i =
      if-Inv s.canceled (record s { reader = leaving }) (record s { reader = reading })
        (reader-Inv s leaving (ap held at) (λ h. cc) i)
        (reader-Inv s reading (ap held at) (λ h. ap is_running at) i)

  read_message-Inv :
      (s : EventConnection A E) (m : Option A) → s.reader ≡ reading → Inv s → Inv (read_message s m)
  unfolding read_message
  read_message-Inv s none at i = reader-Inv s checking (ap held at) (λ h. ap is_running at) i
  read_message-Inv s (some a) at i = record {
    order =
        queue_grows _ _ _ a (i.running (ap is_running at)).0
          (subst (λ q. s.delivered ++ (s.messages ++ (held q ++ s.dropped)) ≡ s.read) at i.order);
    bound = i.bound;
    running = λ h. i.running (ap is_running at);
    once = i.once;
    complete = i.complete;
    last = i.last;
  }

  read_error-Inv :
      (s : EventConnection A E) (e : E) → s.reader ≡ reading → Inv s → Inv (read_error s e)
  unfolding read_error
  read_error-Inv s e at i =
      let (dropped, quiet) = i.running (ap is_running at) in
      let one = length-if s.errors e (ltb (length s.errors) error_capacity) in
      record {
        order =
            subst (λ q. s.delivered ++ (s.messages ++ (held q ++ s.dropped)) ≡ s.read) at i.order;
        bound = i.bound;
        running = λ h. cc;
        once = omega (arith, quiet, one);
        complete = λ h. dropped;
        last = λ h. absurd (omega (arith, h, quiet));
      }

  put_message-Inv :
      (s : EventConnection A E) (a : A)
      → s.reader ≡ sending a
      → ltb (length s.messages) message_capacity ≡ true
      → Inv s
      → Inv (put_message s a)
  unfolding put_message
  put_message-Inv s a at room i = record {
    order =
        ap (◌++◌ s.delivered) (append_assoc s.messages (a ∷ []) s.dropped)
        ∙ subst (λ q. s.delivered ++ (s.messages ++ (held q ++ s.dropped)) ≡ s.read) at i.order;
    bound = omega (arith, ltb→lt _ _ room, length-append s.messages (a ∷ []));
    running = λ h. i.running (ap is_running at);
    once = i.once;
    complete = i.complete;
    last = λ h. absurd (omega (arith, h, (i.running (ap is_running at)).1));
  }

  drop_message-Inv :
      (s : EventConnection A E) (a : A) → s.reader ≡ sending a → Inv s → Inv (drop_message s a)
  unfolding drop_message
  drop_message-Inv s a at i =
      let quiet = (i.running (ap is_running at)).1 in
      record {
        order =
            subst (λ q. s.delivered ++ (s.messages ++ (held q ++ s.dropped)) ≡ s.read) at i.order;
        bound = i.bound;
        running = λ h. cc;
        once = i.once;
        complete = λ h. absurd (omega (arith, h, quiet));
        last = i.last;
      }

  take_message-Inv :
      (s t : EventConnection A E) → Inv s → (s.messages ≡ [] → Inv t) → Inv (take_message s t)
  unfolding take_message return_event return_closed
  take_message-Inv s t i j =
      receive_cases Inv s.messages s.channels_closed _ _ t
        (λ a rest e. receiver-Inv _ idle refl (deliver-Inv s a rest e i))
        (λ e. receiver-Inv s idle refl i) j

  take_error-Inv : (s t : EventConnection A E) → Inv s → Inv t → Inv (take_error s t)
  unfolding take_error return_closed
  take_error-Inv s t i j =
      receive_cases Inv s.errors s.channels_closed _ _ t
        (λ x rest e.
          failure-Inv s s.pending_err (prioritizing x) rest s.reported (omega (arith, ap length e))
            i.last i)
        (λ e. receiver-Inv s idle refl i) (λ e. j)

  behind_first-Inv :
      (s : EventConnection A E) (p : Option E)
      → s.pending_err ≡ p
      → s.messages ≡ []
      → Inv s
      → Inv (behind_first s p)
  unfolding behind_first return_error
  behind_first-Inv s none e empty i = receiver-Inv s waiting refl i
  behind_first-Inv s (some x) e empty i =
      failure-Inv s none idle s.errors (x ∷ s.reported) (omega (arith, ap pending_count e))
        (λ h. ap length empty) i

  drain_first-Inv : (s : EventConnection A E) → Inv s → Inv (drain_first s)
  unfolding drain_first
  drain_first-Inv s i =
      take_message-Inv s (behind_first s s.pending_err) i
        (λ e. behind_first-Inv s s.pending_err refl e i)

  prioritize_pending_event-Inv :
      (s : EventConnection A E) (e : E)
      → s.receiver ≡ prioritizing e
      → Inv s
      → Inv (prioritize_pending_event s e)
  unfolding prioritize_pending_event return_event return_closed return_error
  prioritize_pending_event-Inv s e at i =
      receive_cases Inv s.messages s.channels_closed _ _ (return_error s e)
        (λ a rest there. deliver-Inv _ a rest there (
          failure-Inv s (some e) idle s.errors s.reported (omega (arith, ap prioritizing_count at))
            i.last i))
        (λ empty. receiver-Inv s idle refl i)
        (λ empty.
          failure-Inv s s.pending_err idle s.errors (e ∷ s.reported)
            (omega (arith, ap prioritizing_count at)) (λ h. ap length empty) i)

  enter-Inv : (s : EventConnection A E) → Inv s → Inv (enter s)
  unfolding enter
  enter-Inv s i =
      if-Inv s.closed s (record s { receiver = entered }) i (receiver-Inv s entered refl i)

  -- A part that the invariant does not speak of.
  other-Inv :
      (s : EventConnection A E) (closed canceled channels_closed : Bool)
      → Inv s
      → Inv (record s { closed = closed; canceled = canceled; channels_closed = channels_closed })
  other-Inv s closed canceled channels_closed i = record {
    order = i.order;
    bound = i.bound;
    running = i.running;
    once = i.once;
    complete = i.complete;
    last = i.last;
  }

  leave-Inv : (s : EventConnection A E) → s.reader ≡ leaving → Inv s → Inv (leave s)
  unfolding leave
  leave-Inv s at i =
      other-Inv _ s.closed true s.channels_closed (reader-Inv s returned (ap held at) (λ h. cc) i)

  pub Step-Inv : {s t : EventConnection A E} → Step s t → Inv s → Inv t
  unfolding return_closed
  Step-Inv (checks s at) i = check_context-Inv s at i
  Step-Inv (reads s m at) i = read_message-Inv s m at i
  Step-Inv (fails s e at) i = read_error-Inv s e at i
  Step-Inv (puts s a at room) i = put_message-Inv s a at room i
  Step-Inv (drops s a at h) i = drop_message-Inv s a at i
  Step-Inv (leaves s at) i = leave-Inv s at i
  Step-Inv (enters s at) i = enter-Inv s i
  Step-Inv (drains s at) i = drain_first-Inv s i
  Step-Inv (waits_message s at) i = take_message-Inv s s i (λ h. i)
  Step-Inv (waits_error s at) i = take_error-Inv s s i i
  Step-Inv (waits_done s at h) i = receiver-Inv s done_error refl i
  Step-Inv (drains_error s at) i = take_error-Inv s _ i (receiver-Inv s done_message refl i)
  Step-Inv (drains_message s at) i = take_message-Inv s _ i (λ h. receiver-Inv s idle refl i)
  Step-Inv (prioritizes s e at) i = prioritize_pending_event-Inv s e at i
  Step-Inv (cancels s) i = other-Inv s s.closed true s.channels_closed i
  Step-Inv (closes s) i = other-Inv s true s.canceled s.channels_closed i
  Step-Inv (closes_channels s h at) i = other-Inv s s.closed s.canceled true i

  pub Reach-Inv : {s : EventConnection A E} → Reach s → Inv s
  Reach-Inv opens = open_events-Inv
  Reach-Inv (more r step) = Step-Inv step (Reach-Inv r)

  -- In whatever order the read loop, a receiver and Close take turns: the events that Receive returned,
  -- those in the queue, the one in the hand of the read loop and one that it dropped at the end are, in
  -- this order, the events that were read from the wire, and at most 100 events are in the queue.
  pub Reach-order :
      {s : EventConnection A E}
      → Reach s
      → (s.delivered ++ (s.messages ++ (held s.reader ++ s.dropped)) ≡ s.read)
        × (length s.messages ≤ 100)
  Reach-order r = let i = Reach-Inv r in (i.order, i.bound)

  -- Once Receive has returned a read error, it has returned all events that were read from the wire, in
  -- their order, and it returns the error no second time.
  pub Reach-reported :
      {s : EventConnection A E}
      → Reach s
      → s.reported ≢ []
      → (s.delivered ≡ s.read) × (length s.reported ≡ 1)
  Reach-reported {s} r h =
      let i = Reach-Inv r in
      let some_reported = length_of_some s.reported h in
      let none_dropped = i.complete (omega (arith, some_reported)) in
      let none_held = held-stopped s.reader λ on. omega (arith, some_reported, (i.running on).1) in
      (
        only_delivered s.delivered s.messages (held s.reader) s.dropped (i.last some_reported)
            none_held none_dropped i.order,
        omega (arith, some_reported, i.once),
      )
