-- ===== src/Events/Invariant.antt =====
-- What holds in all states of the event connection.
pub mod Run
pub mod Refinement
use go_ring.Common.{
  ℕ, ◌+◌, ◌≤◌, ◌<◌, ◌≡◌, ◌≢◌, refl, sym, ap, ◌∙◌, subst, Bool, true, false, Option, none, some,
  List, [], ◌∷◌, ◌++◌, length, ltb, if◌then◌else◌, append_assoc, append-nil, arith, length-append,
  inl, inr, Bool-cases, suc, ltb→lt, ◌⊎◌,
}
use go_ring.Events.{
  ReaderPhase, checking, reading, leaving, returned, sending, ReceiverPhase, idle, prioritizing,
  EventConnection, message_capacity, error_capacity, receive, open_events, check_context,
  read_message, read_error, put_message, drop_message, leave, return_event, return_error,
  return_closed, take_message, take_error, enter, drain_first, prioritize_pending_event, Step,
  Reach, behind_first, waiting, entered, done_error, done_message, checks, reads, fails, puts,
  drops, leaves, enters, drains, waits_message, waits_error, waits_done, drains_error,
  drains_message, prioritizes, cancels, closes, closes_channels, opens, more,
}

-- The event that the read loop has in hand.
abbrev held : {A : Type 0} → ReaderPhase A → List A
held (sending a) = a ∷ []
held _ = []

abbrev is_running : {A : Type 0} → ReaderPhase A → Bool
is_running leaving = false
is_running returned = false
is_running _ = true

abbrev pending_count : {E : Type 0} → Option E → ℕ
pending_count none = 0
pending_count (some e) = 1

abbrev prioritizing_count : {E : Type 0} → ReceiverPhase E → ℕ
prioritizing_count (prioritizing e) = 1
prioritizing_count _ = 0

receive_cases {κ} :
    {X S : Type 0} (P : S → Type κ) (xs : List X) (closed : Bool) (value : X → List X → S)
    (not_ok otherwise : S)
    → ((x : X) (rest : List X) → xs ≡ x ∷ rest → P (value x rest))
    → (xs ≡ [] → P not_ok)
    → (xs ≡ [] → P otherwise)
    → P (receive xs closed value not_ok otherwise)
receive_cases P (x ∷ rest) closed value not_ok otherwise a b c = a x rest refl
receive_cases P [] true value not_ok otherwise a b c = b refl
receive_cases P [] false value not_ok otherwise a b c = c refl

length-if :
    {E : Type 0} (xs : List E) (x : E) (b : Bool)
    → length (if b then xs ++ x ∷ [] else xs) ≤ length xs + 1
length-if xs x true = omega (arith, length-append xs (x ∷ []))
length-if xs x false = omega arith

-- A new event goes behind all that were read.
queue_grows :
    {A : Type 0} (d m dropped : List A) {read : List A} (a : A)
    → length dropped ≡ 0
    → d ++ (m ++ dropped) ≡ read
    → d ++ (m ++ a ∷ dropped) ≡ read ++ a ∷ []
queue_grows d m [] a empty e =
    sym (append_assoc d m (a ∷ [])) ∙ ap (λ q. q ++ a ∷ []) (ap (◌++◌ d) (sym (append-nil m)) ∙ e)
queue_grows d m (x ∷ dropped) a empty e = absurd (omega (arith, empty))

length_of_some : {E : Type 0} (xs : List E) → xs ≢ [] → 1 ≤ length xs
length_of_some [] h = absurd (h refl)
length_of_some (x ∷ xs) h = omega arith

held-stopped : {A : Type 0} (q : ReaderPhase A) → (is_running q ≡ true → ⊥) → length (held q) ≡ 0
held-stopped checking h = refl
held-stopped reading h = refl
held-stopped leaving h = refl
held-stopped returned h = refl
held-stopped (sending a) h = absurd (h refl)

only_delivered :
    {A : Type 0} (d m h dropped : List A) {read : List A}
    → length m ≡ 0
    → length h ≡ 0
    → length dropped ≡ 0
    → d ++ (m ++ (h ++ dropped)) ≡ read
    → d ≡ read
only_delivered d [] [] [] em eh ed order = sym (append-nil d) ∙ order
only_delivered d (x ∷ m) h dropped em eh ed order = absurd (omega (arith, em))
only_delivered d [] (x ∷ h) dropped em eh ed order = absurd (omega (arith, eh))
only_delivered d [] [] (x ∷ dropped) em eh ed order = absurd (omega (arith, ed))

module _ {A E : Type 0} where
  -- The read errors that are somewhere on their way.
  abbrev failures : EventConnection A E → ℕ
  failures s =
      length s.errors
      + pending_count s.pending_err
      + prioritizing_count s.receiver
      + length s.reported

  pub record Inv (s : EventConnection A E) : Type 0 where
    pub order : s.delivered ++ (s.messages ++ (held s.reader ++ s.dropped)) ≡ s.read
    pub bound : length s.messages ≤ message_capacity
    pub running : is_running s.reader ≡ true → (length s.dropped ≡ 0) × (failures s ≡ 0)
    pub once : failures s ≤ 1
    pub complete : 1 ≤ failures s → length s.dropped ≡ 0
    pub last : 1 ≤ length s.reported → length s.messages ≡ 0

  open_events-Inv : Inv open_events
  unfolding open_events
  open_events-Inv = record {
    order = refl;
    bound = omega arith;
    running = λ h. (refl, refl);
    once = omega arith;
    complete = λ h. refl;
    last = λ h. refl;
  }

  -- The read loop moves on with the same event in hand.
  reader-Inv :
      (s : EventConnection A E) (q : ReaderPhase A)
      → held s.reader ≡ held q
      → (is_running q ≡ true → is_running s.reader ≡ true)
      → Inv s
      → Inv (record s { reader = q })
  reader-Inv s q same on i = record {
    order = subst (λ h. s.delivered ++ (s.messages ++ (h ++ s.dropped)) ≡ s.read) same i.order;
    bound = i.bound;
    running = λ h. i.running (on h);
    once = i.once;
    complete = i.complete;
    last = i.last;
  }

  -- Read errors move on, or are lost.
  failure-Inv :
      (s : EventConnection A E) (p : Option E) (r : ReceiverPhase E) (es out : List E)
      → length es + pending_count p + prioritizing_count r + length out ≤ failures s
      → (1 ≤ length out → length s.messages ≡ 0)
      → Inv s
      → Inv (record s { pending_err = p; receiver = r; errors = es; reported = out })
  failure-Inv s p r es out fewer last i = record {
    order = i.order;
    bound = i.bound;
    running = λ h. ((i.running h).0, omega (arith, fewer, (i.running h).1));
    once = omega (arith, fewer, i.once);
    complete = λ h. i.complete (omega (arith, fewer, h));
    last = last;
  }

  -- The receiver moves on without a read error.
  receiver-Inv :
      (s : EventConnection A E) (r : ReceiverPhase E)
      → prioritizing_count r ≡ 0
      → Inv s
      → Inv (record s { receiver = r })
  receiver-Inv s r plain i =
      failure-Inv s s.pending_err r s.errors s.reported (omega (arith, plain)) i.last i

  -- The first event in the queue is returned.
  deliver-Inv :
      (s : EventConnection A E) (a : A) (rest : List A)
      → s.messages ≡ a ∷ rest
      → Inv s
      → Inv (record s { messages = rest; delivered = s.delivered ++ a ∷ [] })
  deliver-Inv s a rest e i =
      let longer : length s.messages ≡ suc (length rest) = ap length e in
      record {
        order =
            append_assoc s.delivered (a ∷ []) (rest ++ (held s.reader ++ s.dropped))
            ∙ subst (λ q. s.delivered ++ (q ++ (held s.reader ++ s.dropped)) ≡ s.read) e i.order;
        bound = omega (arith, i.bound, longer);
        running = i.running;
        once = i.once;
        complete = i.complete;
        last = λ h. absurd (omega (arith, i.last h, longer));
      }
