-- ===== src/Signaling/Writer/Runner/Invariant.antt =====
-- What holds of the writer of pkg/dependencies/websocket/writer.go in every interleaving.
use mathlib.Core.List.{map-append}
use go_ring.Common.{
  ℕ, ◌+◌, ◌≤◌, ◌<◌, ◌≡◌, refl, ◌⊎◌, inl, inr, Bool, true, false, ◌&&◌, none, some, List, [], ◌∷◌,
  ◌++◌, length, length-append, leb, ◌==◌, arith, Bool-cases, if◌then◌else◌,
}
use go_ring.Signaling.Writer.{WriterJson, Request, SignalingWriter, queue, remove_from, next, drain}
use go_ring.Signaling.Writer.Runner.{
  Phase, checking, waiting, finished, holding, System, ids, send, cancel, poll, finish, answer,
  Step, sends, cancels, closes, sees_done, polls, wakes, stops, too_late, writes, Reach, here,
  further, new_signaling_writer,
}

abbrev pub count : ℕ → List ℕ → ℕ
count id [] = 0
count id (x ∷ xs) = (if x == id then 1 else 0) + count id xs

count-append : (id : ℕ) (xs ys : List ℕ) → count id (xs ++ ys) ≡ count id xs + count id ys
count-append id [] ys = omega arith
count-append id (x ∷ xs) ys = omega (arith, count-append id xs ys)

-- How often the request stands in the queues or in the hand of `Run`.
abbrev pub held : ℕ → Phase → ℕ
held id (holding r) = if r.id == id then 1 else 0
held id checking = 0
held id waiting = 0
held id finished = 0

abbrev pub queued : ℕ → SignalingWriter → ℕ
queued id w = count id (ids w.priority) + count id (ids w.normal)

abbrev pub size : SignalingWriter → ℕ
size w = length w.priority + length w.normal

pub record Inv (s : System) : Type 0 where
  -- No more than 128 requests wait.
  pub within : size s.writer ≤ 128
  -- No wakeup is lost: while `Run` waits and something is queued, the token is there.
  pub awake : s.phase ≡ waiting → 0 < size s.writer → s.wake ≡ true

-- Every request that was taken is queued, in hand, answered or canceled, each time it was taken.
abbrev pub Conserved : ℕ → System → Type 0
Conserved id s =
    count id s.accepted
    ≡ count id s.answered + count id s.canceled + queued id s.writer + held id s.phase

queue_lem :
    (json : WriterJson) (w : SignalingWriter) (r : Request) (id : ℕ)
    → (((queue json w r).1 ≡ false) × ((queue json w r).0 ≡ w))
      ⊎ (((queue json w r).1 ≡ true)
          × (size (queue json w r).0 ≡ size w + 1)
          × (size w < 128)
          × (queued id (queue json w r).0 ≡ queued id w + (if r.id == id then 1 else 0)))
unfolding queue
queue_lem json w r id = ground (
  arith,
  length-append w.priority (r ∷ []),
  length-append w.normal (r ∷ []),
  count-append id (ids w.priority) (ids (r ∷ [])),
  count-append id (ids w.normal) (ids (r ∷ [])),
  map-append (λ (q : Request). q.id) w.priority (r ∷ []),
  map-append (λ (q : Request). q.id) w.normal (r ∷ []),
)

abbrev one_if : Bool → ℕ
one_if true = 1
one_if false = 0

remove_from_lem :
    (other id : ℕ) (qs : List Request)
    → (length (remove_from other qs).0 ≤ length qs)
      × (count id (ids (remove_from other qs).0) + one_if ((remove_from other qs).1 && other == id)
          ≡ count id (ids qs))
unfolding remove_from
remove_from_lem other id [] = omega arith
remove_from_lem other id (q ∷ qs) = ground (arith, remove_from_lem other id qs)

cancel_lem :
    (s : System) (other id : ℕ)
    → (size (cancel s other).writer ≤ size s.writer)
      × (count id (cancel s other).canceled + queued id (cancel s other).writer
          ≡ count id s.canceled + queued id s.writer)
unfolding cancel
cancel_lem s other id =
    ground
      (arith, remove_from_lem other id s.writer.priority, remove_from_lem other id s.writer.normal)

abbrev Taken : SignalingWriter → ℕ → Type 0
Taken w id =
    (((next w).1 ≡ none) × ((next w).0 ≡ w) × (size w ≡ 0))
    ⊎ ((r : Request) × ((next w).1 ≡ some r)
        × (size w ≡ size (next w).0 + 1)
        × (queued id w ≡ queued id (next w).0 + (if r.id == id then 1 else 0)))

next_parts :
    (priority normal : List Request) (streak id : ℕ)
    → Taken (record { priority = priority; normal = normal; streak = streak }) id
unfolding next
next_parts [] [] streak id = inl (refl, refl, omega arith)
next_parts [] (n ∷ ns) streak id = inr (n, refl, omega arith, omega arith)
next_parts (p ∷ ps) [] streak id = inr (p, refl, omega arith, omega arith)
next_parts (p ∷ ps) (n ∷ ns) streak id = elim (Bool-cases (leb 4 streak)) [
  | inl turn ↦
      inr (n, rw (turn, next), rw (turn, next) (omega arith), rw (turn, next) (omega arith))
  | inr urgent ↦
      inr (p, rw (urgent, next), rw (urgent, next) (omega arith), rw (urgent, next) (omega arith))
]

cancel_rest :
    (s : System) (other : ℕ)
    → ((cancel s other).accepted ≡ s.accepted)
      × ((cancel s other).answered ≡ s.answered)
      × ((cancel s other).phase ≡ s.phase)
unfolding cancel
cancel_rest s other = (refl, refl, refl)

-- `next` takes one request out, or nothing from empty queues.
next_lem : (w : SignalingWriter) (id : ℕ) → Taken w id
next_lem w id = next_parts w.priority w.normal w.streak id

send-Inv : (json : WriterJson) (s : System) (r : Request) → Inv s → Inv (send json s r)
unfolding send
send-Inv json s r v = ground (arith, queue_lem json s.writer r 0)

poll-Inv : (s : System) → Inv s → Inv (poll s)
unfolding poll
poll-Inv s v = ground (arith, next_lem s.writer 0)

finish-Inv : (s : System) → Inv (finish s)
unfolding finish
finish-Inv s = ground arith

Step-Inv : {json : WriterJson} {s t : System} → Step json s t → Inv s → Inv t
unfolding answer
Step-Inv (sends s r) v = send-Inv _ s r v
Step-Inv (cancels s id) v = record {
  within = omega (arith, cancel_lem s id 0);
  awake = unfold cancel in λ p q. v.awake p (omega (arith, cancel_lem s id 0));
}
Step-Inv (closes s) v = record { within = v.within; awake = v.awake }
Step-Inv (sees_done s p d) v = finish-Inv s
Step-Inv (polls s p d) v = poll-Inv s v
Step-Inv (wakes s p w) v = ground arith
Step-Inv (stops s p d) v = finish-Inv s
Step-Inv (too_late s r p d) v = finish-Inv _
Step-Inv (writes s r p d) v = ground arith

Reach-Inv : {json : WriterJson} {s t : System} → Reach json s t → Inv s → Inv t
Reach-Inv here v = v
Reach-Inv (further r st) v = Step-Inv st (Reach-Inv r v)

-- In every interleaving of senders, cancellations, the closing of `done` and `Run`, at most 128
-- requests wait, and `Run` never waits without a token in `wake` while a request is queued.
pub reachable-Inv : (json : WriterJson) (s : System) → Reach json new_signaling_writer s → Inv s
reachable-Inv json s r =
    Reach-Inv r (record { within = omega arith; awake = λ p q. absurd (ground arith) })

send-Conserved :
    (json : WriterJson) (s : System) (r : Request) (id : ℕ)
    → Conserved id s
    → Conserved id (send json s r)
unfolding send
send-Conserved json s r id v = ground (arith, queue_lem json s.writer r id)

poll-Conserved :
    (s : System) (id : ℕ) → held id s.phase ≡ 0 → Conserved id s → Conserved id (poll s)
unfolding poll
poll-Conserved s id h v = ground (arith, next_lem s.writer id)

finish-Conserved :
    (s : System) (id : ℕ) → held id s.phase ≡ 0 → Conserved id s → Conserved id (finish s)
unfolding finish drain
finish-Conserved s id h v = ground (
  arith,
  map-append (λ (q : Request). q.id) s.writer.priority s.writer.normal,
  count-append id (ids (s.writer.priority ++ s.writer.normal)) s.answered,
  count-append id (ids s.writer.priority) (ids s.writer.normal),
)

cancel-Conserved : (s : System) (other id : ℕ) → Conserved id s → Conserved id (cancel s other)
cancel-Conserved s other id v =
    let unchanged = cancel_rest s other in
    rw (unchanged.0, unchanged.1, unchanged.2) (omega (arith, cancel_lem s other id))

answer-Conserved :
    (s : System) (r : Request) (id : ℕ)
    → s.phase ≡ holding r
    → Conserved id s
    → Conserved id (answer s r)
unfolding answer
answer-Conserved s r id p v = ground arith

Step-Conserved :
    {json : WriterJson} {s t : System} (id : ℕ) → Step json s t → Conserved id s → Conserved id t
Step-Conserved id (sends s r) v = send-Conserved _ s r id v
Step-Conserved id (cancels s other) v = cancel-Conserved s other id v
Step-Conserved id (closes s) v = v
Step-Conserved id (sees_done s p d) v = finish-Conserved s id (rw p) v
Step-Conserved id (polls s p d) v = poll-Conserved s id (rw p) v
Step-Conserved id (wakes s p w) v = ground arith
Step-Conserved id (stops s p d) v = finish-Conserved s id (rw p) v
Step-Conserved id (too_late s r p d) v =
    finish-Conserved (answer s r) id (unfold answer in refl) (answer-Conserved s r id p v)
Step-Conserved id (writes s r p d) v = answer-Conserved s r id p v

Reach-Conserved :
    {json : WriterJson} {s t : System} (id : ℕ) → Reach json s t → Conserved id s → Conserved id t
Reach-Conserved id here v = v
Reach-Conserved id (further r st) v = Step-Conserved id st (Reach-Conserved id r v)

-- In every interleaving no request is lost and none is answered twice: as often as it was taken, it
-- is answered, canceled, still queued, or in the hand of `Run`.
pub reachable-Conserved :
    (json : WriterJson) (s : System) (id : ℕ)
    → Reach json new_signaling_writer s
    → count id s.accepted
      ≡ count id s.answered + count id s.canceled + queued id s.writer + held id s.phase
reachable-Conserved json s id r = Reach-Conserved id r (omega arith)
