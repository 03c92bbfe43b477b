-- ===== src/Tests/Events.antt =====
-- The theorems on pkg/dependencies/websocket/events.go at concrete runs.
use Prim.Native.String.{String}
use go_ring.Common.{ℕ, ◌≡◌, ◌≤◌, refl, none, some, [], ◌∷◌, ◌++◌, length, false}
use go_ring.Events.{
  EventConnection, open_events, leaving, idle, prioritizing, check_context, read_message,
  put_message, read_error, enter, drain_first, take_error, take_message, return_event, return_error,
  prioritize_pending_event, behind_first, Reach, opens, more, checks, reads, fails, puts, enters,
  drains, waits_error, prioritizes,
}
use go_ring.Events.Invariant.Run.{Reach-order, Reach-reported}
use go_ring.Events.Invariant.Refinement.{StreamStep, stream, Reach-refines}

-- The event 1 was read and then the connection failed.
abbrev failed : EventConnection ℕ String
failed = record {
  closed = false;
  canceled = false;
  channels_closed = false;
  pending_err = none;
  messages = 1 ∷ [];
  errors = "gone" ∷ [];
  reader = leaving;
  receiver = idle;
  read = 1 ∷ [];
  delivered = [];
  dropped = [];
  reported = [];
}

-- The client took the event, and has the error in hand.
abbrev drained : EventConnection ℕ String
drained = record failed {
  messages = [];
  errors = [];
  receiver = prioritizing "gone";
  delivered = 1 ∷ [];
}

failed-Reach : Reach failed
unfolding open_events check_context read_message put_message read_error
failed-Reach =
    more
      (more (more (more (more opens (checks _ refl)) (reads _ (some 1) refl)) (puts _ 1 refl refl))
        (checks _ refl))
      (fails _ "gone" refl)

drained-Reach : Reach drained
unfolding enter drain_first take_message take_error return_event behind_first
drained-Reach =
    more
      (more (more (more (more failed-Reach (enters _ refl)) (drains _ refl)) (enters _ refl))
        (drains _ refl))
      (waits_error _ refl)

Reach-order_example :
    (failed.delivered ++ (failed.messages ++ ([] ++ failed.dropped)) ≡ failed.read)
    × (length failed.messages ≤ 100)
Reach-order_example = Reach-order failed-Reach

Reach-reported_example : (drained.delivered ≡ drained.read) × (length (failed.errors) ≡ 1)
unfolding prioritize_pending_event return_error
Reach-reported_example = Reach-reported (more drained-Reach (prioritizes _ "gone" refl)) (λ e. cc)

Reach-refines_example :
    StreamStep
      (stream drained)
      (stream (record drained { receiver = idle; reported = "gone" ∷ [] }))
unfolding prioritize_pending_event return_error
Reach-refines_example = Reach-refines drained-Reach (prioritizes _ "gone" refl)
