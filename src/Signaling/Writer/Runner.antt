-- ===== src/Signaling/Writer/Runner.antt =====
-- `Run` and `Send` of pkg/dependencies/websocket/writer.go as a step relation: senders, the closing
-- of `done` and the one goroutine in `Run` take turns in any order.
pub mod Invariant
use go_ring.Common.{
  ℕ, ◌+◌, ◌≡◌, Bool, true, false, Option, none, some, List, [], ◌∷◌, ◌++◌, map, ◌==◌, if◌then◌else◌,
}
use go_ring.Signaling.Writer.{
  WriterJson, Request, SignalingWriter, queue, remove_from, remove, next, drain,
}

-- Where `Run` stands: at the head of its loop, in the select that waits for `wake`, behind `next`
-- with a request in hand, or returned.
pub data Phase : Type 0 where
  checking waiting finished : Phase
  holding : Request → Phase

-- `wake` is the buffered channel with room for one token. The lists of identities record what
-- happened: requests that `queue` took, that got their result, and that `remove` cut out.
pub record System : Type 0 where
  pub writer : SignalingWriter
  pub wake : Bool
  pub done : Bool
  pub phase : Phase
  pub accepted : List ℕ
  pub answered : List ℕ
  pub canceled : List ℕ

abbrev pub ids : List Request → List ℕ
ids = map (λ r. r.id)

module _ (json : WriterJson) where
  -- `Send` up to its select: `queue`, with the token that it leaves in `wake`.
  unfoldable pub send : System → Request → System
  unfolding queue
  send s r =
      let (writer, ok) = queue json s.writer r in
      if ok then record s { writer = writer; wake = true; accepted = r.id ∷ s.accepted } else s

-- `Send` gives up on a request that has not been taken yet.
unfoldable pub cancel : System → ℕ → System
unfolding remove
cancel s id =
    let there = (remove_from id s.writer.priority).1 in
    let there' = (remove_from id s.writer.normal).1 in
    record s {
      writer = remove s.writer id;
      canceled =
          if there then id ∷ s.canceled else (if there' then id ∷ s.canceled else s.canceled);
    }

abbrev pub phase_of : Option Request → Phase
phase_of none = waiting
phase_of (some r) = holding r

-- `w.next()` and the test for nil.
unfoldable pub poll : System → System
unfolding next
poll s =
    let (writer, request) = next s.writer in record s { writer = writer; phase = phase_of request }

-- `w.drain()` and the return.
unfoldable pub finish : System → System
unfolding drain
finish s =
    let (writer, queued) = drain s.writer in
    record s { writer = writer; phase = finished; answered = ids queued ++ s.answered }

-- `request.result <- err`, then back to the head of the loop.
unfoldable pub answer : System → Request → System
answer s r = record s { phase = checking; answered = r.id ∷ s.answered }

pub data Step (json : WriterJson) : System → System → Type 0 where
  sends : (s : System) (r : Request) → Step json s (send json s r)
  cancels : (s : System) (id : ℕ) → Step json s (cancel s id)
  closes : (s : System) → Step json s (record s { done = true })
  sees_done : (s : System) → s.phase ≡ checking → s.done ≡ true → Step json s (finish s)
  polls : (s : System) → s.phase ≡ checking → s.done ≡ false → Step json s (poll s)
  wakes :
      (s : System)
      → s.phase ≡ waiting
      → s.wake ≡ true
      → Step json s (record s { wake = false; phase = checking })
  stops : (s : System) → s.phase ≡ waiting → s.done ≡ true → Step json s (finish s)
  too_late :
      (s : System) (r : Request)
      → s.phase ≡ holding r
      → s.done ≡ true
      → Step json s (finish (answer s r))
  writes :
      (s : System) (r : Request) → s.phase ≡ holding r → s.done ≡ false → Step json s (answer s r)

pub data Reach (json : WriterJson) (s : System) : System → Type 0 where
  here : Reach json s s
  further : {t u : System} → Reach json s t → Step json t u → Reach json s u

abbrev pub new_signaling_writer : System
new_signaling_writer = record {
  writer = record { priority = []; normal = []; streak = 0 };
  wake = false;
  done = false;
  phase = checking;
  accepted = [];
  answered = [];
  canceled = [];
}
