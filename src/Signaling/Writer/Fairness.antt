-- ===== src/Signaling/Writer/Fairness.antt =====
-- The order in which pkg/dependencies/websocket/writer.go serves its requests.
use go_ring.Common.{
  ℕ, suc, ◌+◌, ◌-◌, ◌*◌, ◌≤◌, ◌<◌, ◌≡◌, ◌≢◌, refl, sym, subst, ◌⊎◌, inl, inr, true, false, ◌||◌,
  none, some, List, [], ◌∷◌, ◌++◌, length, is_empty, leb, ◌==◌, arith, Bool-cases, Option-cases,
}
use mathlib.Core.List.{Memᴰ}
use go_ring.Signaling.Writer.{
  WriterJson, Request, SignalingWriter, priority_signaling_message, queue, remove_from, remove,
  next,
}

-- What happens to the queues, one call at a time: the lock of the writer makes each call atomic.
pub data Op : Type 0 where
  enqueue : Request → Op
  take : Op
  cancel : ℕ → Op

module _ (json : WriterJson) where
  -- The writer after the calls, and the requests that `next` gave, oldest first.
  pub run : SignalingWriter → List Op → SignalingWriter × List Request
  run w [] = (w, [])
  run w (enqueue r ∷ ops) = run (queue json w r).0 ops
  run w (cancel id ∷ ops) = run (remove w id) ops
  run w (take ∷ ops) =
      let (w', got) = next w in
      let (w'', taken) = run w' ops in (w'', elim got [ none ↦ taken | some r ↦ r ∷ taken ])

-- How many calls of `next` the operations make.
unfoldable pub takes : List Op → ℕ
takes [] = 0
takes (take ∷ ops) = suc (takes ops)
takes (enqueue r ∷ ops) = takes ops
takes (cancel id ∷ ops) = takes ops

-- The request is not canceled.
abbrev pub Keeps : ℕ → List Op → Type 0
Keeps id [] = Unit {0}
Keeps id (enqueue r ∷ ops) = Keeps id ops
Keeps id (take ∷ ops) = Keeps id ops
Keeps id (cancel other ∷ ops) = (other ≢ id) × Keeps id ops

-- The request stands in the normal queue behind `n` others.
pub data Waits (r : Request) : ℕ → List Request → Type 0 where
  first : (qs : List Request) → Waits r 0 (r ∷ qs)
  behind : {n : ℕ} {qs : List Request} (q : Request) → Waits r n qs → Waits r (suc n) (q ∷ qs)

Waits-append : (r q : Request) (n : ℕ) (qs : List Request) → Waits r n qs → Waits r n (qs ++ q ∷ [])
Waits-append r q _ _ (first qs) = first (qs ++ q ∷ [])
Waits-append r q _ _ (behind {n} {qs} p w) = behind p (Waits-append r q n qs w)

module _ (json : WriterJson) (r : Request) where
  queue-Waits :
      (w : SignalingWriter) (q : Request) (n : ℕ)
      → Waits r n w.normal
      → Waits r n (queue json w q).0.normal
  unfolding queue
  queue-Waits w q n h = elim (Bool-cases (leb 128 (length w.priority + length w.normal))) [
    | inl full ↦ rw (full, queue) h
    | inr room ↦ elim (Bool-cases (priority_signaling_message json q.message)) [
      | inl urgent ↦ rw (room, urgent, queue) h
      | inr plain ↦ rw (room, plain, queue) (Waits-append r q n w.normal h)
    ]
  ]

-- How many more calls of `next` a request behind `n` others may have to wait for.
abbrev cost : ℕ → ℕ → ℕ
cost n streak = n * 5 + (4 - streak) + 1

module _ (r : Request) where
  remove_from-Waits :
      (id n : ℕ) (qs : List Request)
      → Waits r n qs
      → id ≢ r.id
      → (m : ℕ) × (m ≤ n) × Waits r m (remove_from id qs).0
  unfolding remove_from
  remove_from-Waits id _ _ (first qs) other =
      let miss : r.id == id ≡ false = ground arith in
      (0, omega arith, rw (miss, remove_from) (first _))
  remove_from-Waits id _ _ (behind {n} {qs} q h) other = elim (Bool-cases (q.id == id)) [
    | inl hit ↦ (n, omega arith, rw (hit, remove_from) h)
    | inr miss ↦
        let (m, le, h') = remove_from-Waits id n qs h other in
        (suc m, omega arith, rw (miss, remove_from) (behind q h'))
  ]

  remove-Waits :
      (w : SignalingWriter) (id n : ℕ)
      → Waits r n w.normal
      → id ≢ r.id
      → (m : ℕ) × (m ≤ n) × Waits r m (remove w id).normal × ((remove w id).streak ≡ w.streak)
  unfolding remove
  remove-Waits w id n h other = elim (Bool-cases (remove_from id w.priority).1) [
    | inl hit ↦ (n, omega arith, rw (hit, remove) h, ground arith)
    | inr miss ↦
        let (m, le, h') = remove_from-Waits id n w.normal h other in
        (m, le, rw (miss, remove) h', ground arith)
  ]

  -- A call of `next` gives the request, or brings it nearer.
  abbrev Progress : SignalingWriter → ℕ → Type 0
  Progress w n =
      ((next w).1 ≡ some r)
      ⊎ ((m : ℕ) × Waits r m (next w).0.normal × (cost m (next w).0.streak < cost n w.streak))

  next-urgent :
      (w : SignalingWriter)
      → is_empty w.normal ≡ false
      → is_empty w.priority || leb 4 w.streak ≡ false
      → ((next w).0.normal ≡ w.normal) × ((next w).0.streak ≡ w.streak + 1) × (w.streak < 4)
  unfolding next
  next-urgent w n u = ground arith

  next-turn :
      (w : SignalingWriter) (q : Request) (qs : List Request)
      → w.normal ≡ q ∷ qs
      → is_empty w.priority || leb 4 w.streak ≡ true
      → ((next w).1 ≡ some q) × ((next w).0.normal ≡ qs) × ((next w).0.streak ≡ 0)
  unfolding next
  next-turn w q qs e t = ground arith

  Waits-full : (n : ℕ) (qs : List Request) → Waits r n qs → is_empty qs ≡ false
  Waits-full _ _ (first qs) = refl
  Waits-full _ _ (behind q h) = refl

  next-normal :
      (w : SignalingWriter) (n : ℕ) (qs : List Request)
      → w.normal ≡ qs
      → Waits r n qs
      → is_empty w.priority || leb 4 w.streak ≡ true
      → Progress w n
  next-normal w _ _ e (first qs) t = inl (next-turn w r qs e t).0
  next-normal w _ _ e (behind {n} {qs} q h) t =
      let (got, rest, streak) = next-turn w q qs e t in
      inr (n, subst (Waits r n) (sym rest) h, omega arith)

  next-Progress : (w : SignalingWriter) (n : ℕ) → Waits r n w.normal → Progress w n
  next-Progress w n h = elim (Bool-cases (is_empty w.priority || leb 4 w.streak)) [
    | inl turn ↦ next-normal w n w.normal refl h turn
    | inr urgent ↦
        let (rest, streak, few) = next-urgent w (Waits-full n w.normal h) urgent in
        inr (n, subst (Waits r n) (sym rest) h, omega arith)
  ]

module _ (json : WriterJson) (r : Request) where
  queue-streak : (w : SignalingWriter) (q : Request) → (queue json w q).0.streak ≡ w.streak
  unfolding queue
  queue-streak w q = ground arith

  served :
      (ops : List Op) (w : SignalingWriter) (n : ℕ)
      → Waits r n w.normal
      → Keeps r.id ops
      → cost n w.streak ≤ takes ops
      → Memᴰ r (run json w ops).1
  unfolding run takes
  served [] w n h k c = absurd (omega arith)
  served (enqueue q ∷ ops) w n h k c =
      served ops (queue json w q).0 n (queue-Waits json r w q n h) k
        (omega (arith, queue-streak w q))
  served (cancel id ∷ ops) w n h (other, k) c =
      let (m, le, h', streak) = remove-Waits r w id n h other in
      served ops (remove w id) m h' k (omega arith)
  served (take ∷ ops) w n h k c = elim (next-Progress r w n h) [
    | inl got ↦ rw (got, run) (Memᴰ.head refl)
    | inr (m, h', less) ↦
        let rest = served ops (next w).0 m h' k (omega arith) in
        elim (Option-cases (next w).1) [
          | inl nothing ↦ rw (nothing, run) rest
          | inr (q, got) ↦ rw (got, run) (Memᴰ.tail rest)
        ]
  ]

  -- Priority traffic does not starve the rest: a request that waits in the normal queue behind `n`
  -- others, and is not canceled, is given within the next 5 * (n + 1) calls of `next`, whatever is
  -- queued or canceled in between.
  pub served_in_time :
      (ops : List Op) (w : SignalingWriter) (n : ℕ)
      → Waits r n w.normal
      → Keeps r.id ops
      → 5 * (n + 1) ≤ takes ops
      → Memᴰ r (run json w ops).1
  served_in_time ops w n h k c = served ops w n h k (omega arith)
