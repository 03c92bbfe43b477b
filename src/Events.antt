-- ===== src/Events.antt =====
-- pkg/dependencies/websocket/events.go: the account event connection. The read loop, one receiver and
-- `Close` take turns in any order; each is cut where it touches what it shares with the others.
pub mod Invariant
use go_ring.Common.{
  ℕ, ◌+◌, ◌≡◌, Bool, true, false, Option, none, some, List, [], ◌∷◌, ◌++◌, length, ltb,
  if◌then◌else◌,
}

-- Where `processMessages` stands: at its select, in ReadMessage, at the select that sends an event,
-- behind `return`, or behind the deferred calls.
pub data ReaderPhase (A : Type 0) : Type 0 where
  checking reading leaving returned : ReaderPhase A
  sending : A → ReaderPhase A

-- Where `receiveRecord` stands: not called, behind the test of `closed`, at the select that waits, at
-- the two selects below `ctx.Done()`, or in `prioritizePendingEvent`.
pub data ReceiverPhase (E : Type 0) : Type 0 where
  idle entered waiting done_error done_message : ReceiverPhase E
  prioritizing : E → ReceiverPhase E

-- `messages` and `errors` are the buffered channels. The four lists below record what happened: events
-- that were read and decoded, returned, dropped at the end, and the read errors that were returned.
pub record EventConnection (A E : Type 0) : Type 0 where
  pub closed : Bool
  pub canceled : Bool
  pub channels_closed : Bool
  pub pending_err : Option E
  pub messages : List A
  pub errors : List E
  pub reader : ReaderPhase A
  pub receiver : ReceiverPhase E
  pub read : List A
  pub delivered : List A
  pub dropped : List A
  pub reported : List E

abbrev pub message_capacity : ℕ
message_capacity = 100

abbrev pub error_capacity : ℕ
error_capacity = 10

-- A select with one receive and a default: what each of its outcomes leads to.
abbrev pub receive : {X S : Type 0} → List X → Bool → (X → List X → S) → S → S → S
receive (x ∷ rest) closed value not_ok otherwise = value x rest
receive [] closed value not_ok otherwise = if closed then not_ok else otherwise

module _ {A E : Type 0} where
  unfoldable pub open_events : EventConnection A E
  open_events = record {
    closed = false;
    canceled = false;
    channels_closed = false;
    pending_err = none;
    messages = [];
    errors = [];
    reader = checking;
    receiver = idle;
    read = [];
    delivered = [];
    dropped = [];
    reported = [];
  }

  -- The select at the head of the loop.
  unfoldable pub check_context : EventConnection A E → EventConnection A E
  check_context s =
      if s.canceled then record s { reader = leaving } else record s { reader = reading }

  -- ReadMessage returned a message; `none` where it is no event frame.
  unfoldable pub read_message : EventConnection A E → Option A → EventConnection A E
  read_message s none = record s { reader = checking }
  read_message s (some event) = record s { reader = sending event; read = s.read ++ event ∷ [] }

  -- ReadMessage failed; the error is dropped where the channel is full.
  unfoldable pub read_error : EventConnection A E → E → EventConnection A E
  read_error s e =
      let errors = if ltb (length s.errors) error_capacity then s.errors ++ e ∷ [] else s.errors in
      record s { reader = leaving; errors = errors }

  unfoldable pub put_message : EventConnection A E → A → EventConnection A E
  put_message s event = record s { reader = checking; messages = s.messages ++ event ∷ [] }

  unfoldable pub drop_message : EventConnection A E → A → EventConnection A E
  drop_message s event = record s { reader = leaving; dropped = event ∷ s.dropped }

  -- The deferred calls.
  unfoldable pub leave : EventConnection A E → EventConnection A E
  leave s = record s { reader = returned; canceled = true }

  -- `receiveRecord` returns an event, a read error, or that the connection is closed.
  unfoldable pub return_event : EventConnection A E → A → List A → EventConnection A E
  return_event s event rest = record s {
    receiver = idle;
    messages = rest;
    delivered = s.delivered ++ event ∷ [];
  }

  unfoldable pub return_error : EventConnection A E → E → EventConnection A E
  return_error s e = record s { receiver = idle; reported = e ∷ s.reported }

  unfoldable pub return_closed : EventConnection A E → EventConnection A E
  return_closed s = record s { receiver = idle }

  -- A receive from `messageChan`, with what the `default` case does; an empty channel that is closed
  -- gives `!ok`.
  unfoldable pub take_message : EventConnection A E → EventConnection A E → EventConnection A E
  unfolding return_event return_closed
  take_message s otherwise =
      receive s.messages s.channels_closed (return_event s) (return_closed s) otherwise

  -- The same for `errChan`.
  unfoldable pub take_error : EventConnection A E → EventConnection A E → EventConnection A E
  unfolding return_closed
  take_error s otherwise =
      let prioritize =
        λ (e : E) (rest : List E). record s { receiver = prioritizing e; errors = rest } in
      receive s.errors s.channels_closed prioritize (return_closed s) otherwise

  -- The head of `receiveRecord`.
  unfoldable pub enter : EventConnection A E → EventConnection A E
  enter s = if s.closed then s else record s { receiver = entered }

  -- Behind the first select, a pending error is returned, or else the next select waits.
  unfoldable pub behind_first : EventConnection A E → Option E → EventConnection A E
  unfolding return_error
  behind_first s none = record s { receiver = waiting }
  behind_first s (some e) = return_error (record s { pending_err = none }) e

  unfoldable pub drain_first : EventConnection A E → EventConnection A E
  unfolding take_message behind_first
  drain_first s = take_message s (behind_first s s.pending_err)

  -- `prioritizePendingEvent`
  unfoldable pub prioritize_pending_event : EventConnection A E → E → EventConnection A E
  unfolding return_event return_closed return_error
  prioritize_pending_event s e =
      receive s.messages s.channels_closed (return_event (record s { pending_err = some e }))
        (return_closed s) (return_error s e)

pub data Step {A E : Type 0} : EventConnection A E → EventConnection A E → Type 0 where
  checks : (s : EventConnection A E) → s.reader ≡ checking → Step s (check_context s)
  reads : (s : EventConnection A E) (m : Option A) → s.reader ≡ reading → Step s (read_message s m)
  fails : (s : EventConnection A E) (e : E) → s.reader ≡ reading → Step s (read_error s e)
  puts :
      (s : EventConnection A E) (a : A)
      → s.reader ≡ sending a
      → ltb (length s.messages) message_capacity ≡ true
      → Step s (put_message s a)
  drops :
      (s : EventConnection A E) (a : A)
      → s.reader ≡ sending a
      → s.canceled ≡ true
      → Step s (drop_message s a)
  leaves : (s : EventConnection A E) → s.reader ≡ leaving → Step s (leave s)
  enters : (s : EventConnection A E) → s.receiver ≡ idle → Step s (enter s)
  drains : (s : EventConnection A E) → s.receiver ≡ entered → Step s (drain_first s)
  waits_message : (s : EventConnection A E) → s.receiver ≡ waiting → Step s (take_message s s)
  waits_error : (s : EventConnection A E) → s.receiver ≡ waiting → Step s (take_error s s)
  waits_done :
      (s : EventConnection A E)
      → s.receiver ≡ waiting
      → s.canceled ≡ true
      → Step s (record s { receiver = done_error })
  drains_error :
      (s : EventConnection A E)
      → s.receiver ≡ done_error
      → Step s (take_error s (record s { receiver = done_message }))
  drains_message :
      (s : EventConnection A E)
      → s.receiver ≡ done_message
      → Step s (take_message s (return_closed s))
  prioritizes :
      (s : EventConnection A E) (e : E)
      → s.receiver ≡ prioritizing e
      → Step s (prioritize_pending_event s e)
  cancels : (s : EventConnection A E) → Step s (record s { canceled = true })
  closes : (s : EventConnection A E) → Step s (record s { closed = true })
  closes_channels :
      (s : EventConnection A E)
      → s.closed ≡ true
      → s.reader ≡ returned
      → Step s (record s { channels_closed = true })

pub data Reach {A E : Type 0} : EventConnection A E → Type 0 where
  opens : Reach open_events
  more : {s t : EventConnection A E} → Reach s → Step s t → Reach t
