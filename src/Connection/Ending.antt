-- ===== src/Connection/Ending.antt =====
-- That the end of a signaling connection is the end of what runs on it, whatever comes in between.
use Prim.Native.String.{String}
use go_ring.Common.{
  ℕ, true_not_false, true, false, ◌≡◌, refl, sym, ◌∙◌, subst, ◌⊎◌, inl, inr, Option, none, some,
  List, [], ◌∷◌, if◌then◌else◌, Bool-cases,
}
use go_ring.Common.Maps.{Map, insert, delete, AllEntries-map, nat_eq_instance, string_eq_instance}
use go_ring.Signaling.Message.{Message}
use go_ring.Connection.{
  ConnectionError, Task, Found, SignalingConnection, new_connection, end_child, remove_channel,
  remove_session, terminate_push, terminate_playback, perform, run_task, begin_fail, begin_close,
  fail_tasks, close_tasks, mark_failed, mark_closed, look_up, deliver, receive, register_pending,
  remove_pending, register_session, register_channel, register_push, register_playback,
}
use go_ring.Connection.Routing.{Delivered, deliver-Delivered, receive-Later}
use go_ring.Connection.Children.{
  HasEnded, AllOf, Later, Later-queues, Later-end_child, Later-remove_channel, Later-remove_session,
  terminate_push-EndsChild, terminate_playback-EndsChild, Later-perform, perform-HasEnded,
}
use go_ring.Connection.Failing.{
  Registered, of_registered, IsDue, fail_tasks-AllDue, close_tasks-AllDue,
}

-- What the reader, the callers, the children and the call of `fail` or `Close` that closed the connection
-- do, in any order. The reader looks up one message at a time.
pub data Step : SignalingConnection → SignalingConnection → Type 0 where
  looks_up :
      (m : Message) (s : SignalingConnection)
      → s.held ≡ none
      → Step s (record s { held = some (m, look_up m s) })
  delivers :
      (outcome : Option ConnectionError) (m : Message) (found : Found) (s : SignalingConnection)
      → s.held ≡ some (m, found)
      → Step s (deliver outcome m found (record s { held = none }))
  begins_fail : (e : ConnectionError) (s : SignalingConnection) → Step s (begin_fail e s)
  begins_close : (s : SignalingConnection) → Step s (begin_close s)
  runs_task : (s : SignalingConnection) → Step s (run_task s)
  child_ends :
      (e : ConnectionError) (child : ℕ) (s : SignalingConnection) → Step s (end_child e child s)
  push_ends :
      (e : ConnectionError) (dialog : String) (push : ℕ) (s : SignalingConnection)
      → Step s (terminate_push e dialog push s)
  playback_ends :
      (e : ConnectionError) (dialog : String) (playback : ℕ) (s : SignalingConnection)
      → Step s (terminate_playback e dialog playback s)
  receives : (channel : ℕ) (s : SignalingConnection) → Step s (receive channel s)
  removes : (dialog : String) (s : SignalingConnection) → Step s (remove_session dialog s)
  removes_pending : (dialog : String) (s : SignalingConnection) → Step s (remove_pending dialog s)
  removes_channel : (name : String) (s : SignalingConnection) → Step s (remove_channel name s)
  registers_pending :
      (dialog : String) (channel : ℕ) (s : SignalingConnection)
      → Step s (register_pending dialog channel s)
  registers_session :
      (dialog : String) (session : ℕ) (s : SignalingConnection)
      → Step s (register_session dialog session s)
  registers_channel :
      (name : String) (channel : ℕ) (s : SignalingConnection)
      → Step s (register_channel name channel s)
  registers_push :
      (dialog : String) (push : ℕ) (s : SignalingConnection) → Step s (register_push dialog push s)
  registers_playback :
      (dialog : String) (playback : ℕ) (s : SignalingConnection)
      → Step s (register_playback dialog playback s)

pub data Reach : SignalingConnection → Type 0 where
  starts : Reach new_connection
  more : {s t : SignalingConnection} → Reach s → Step s t → Reach t

-- The child has ended, or what is left of the call that closed the connection ends it.
abbrev pub EndsOrIsDue : SignalingConnection → ℕ → Type 0
EndsOrIsDue s child = HasEnded s child ⊎ IsDue child s.todo

abbrev AllEnd : SignalingConnection → Type 0
AllEnd s =
    AllOf (EndsOrIsDue s) s.sessions
    × AllOf (EndsOrIsDue s) s.playbacks
    × AllOf (EndsOrIsDue s) s.pushes

abbrev Inv : SignalingConnection → Type 0
Inv s = s.closed ≡ true → AllEnd s

-- Along `Later`, where each child that has to end still has to.
AllEnd-map :
    (s u t : SignalingConnection)
    → Later u t
    → ((child : ℕ) → EndsOrIsDue s child → EndsOrIsDue t child)
    → u.sessions ≡ s.sessions
    → u.playbacks ≡ s.playbacks
    → u.pushes ≡ s.pushes
    → AllEnd s
    → AllEnd t
AllEnd-map s u t l f a b c (x, y, z) =
    let g : (m n : Map String ℕ) → n ≡ m → AllOf (EndsOrIsDue s) m → AllOf (EndsOrIsDue t) n =
      λ m n e h.
        subst (AllOf (EndsOrIsDue t)) (sym e) (AllEntries-map _ _ m (λ dialog child. f child) h) in
    (
      l.sessions_kept (EndsOrIsDue t) (g s.sessions u.sessions a x),
      l.playbacks_kept (EndsOrIsDue t) (g s.playbacks u.playbacks b y),
      l.pushes_kept (EndsOrIsDue t) (g s.pushes u.pushes c z),
    )

Later-EndsOrIsDue :
    {s t : SignalingConnection} (child : ℕ) → Later s t → EndsOrIsDue s child → EndsOrIsDue t child
Later-EndsOrIsDue child l (inl ended) = inl (l.ended_kept child ended)
Later-EndsOrIsDue child l (inr due) = inr (subst (IsDue child) (sym l.same_todo) due)

Later-Inv : {s t : SignalingConnection} → Later s t → Inv s → Inv t
Later-Inv {s} {t} l i c =
    AllEnd-map s s t l (λ child. Later-EndsOrIsDue child l) refl refl refl
      (i (sym l.same_closed ∙ c))

shut_or :
    (s a b : SignalingConnection)
    → (s.closed ≡ true → Inv a)
    → (s.closed ≡ false → Inv b)
    → Inv (if s.closed then a else b)
shut_or s a b f g = elim (Bool-cases s.closed) [
  | inl shut ↦ rw shut (f shut)
  | inr still_open ↦ rw still_open (g still_open)
]

all_due :
    (s : SignalingConnection) (t : SignalingConnection)
    → AllOf (λ child. IsDue child t.todo) s.sessions
      × AllOf (λ child. IsDue child t.todo) s.playbacks
      × AllOf (λ child. IsDue child t.todo) s.pushes
    → t.sessions ≡ s.sessions
    → t.playbacks ≡ s.playbacks
    → t.pushes ≡ s.pushes
    → AllEnd t
all_due s t (x, y, z) a b c =
    let g : (m n : Map String ℕ)
        → n ≡ m
        → AllOf (λ child. IsDue child t.todo) m
        → AllOf (EndsOrIsDue t) n =
      λ m n e h.
        subst (AllOf (EndsOrIsDue t)) (sym e)
          (AllEntries-map _ _ m (λ dialog child due. inr due) h) in
    (g s.sessions t.sessions a x, g s.playbacks t.playbacks b y, g s.pushes t.pushes c z)

begin_fail-Inv : (e : ConnectionError) (s : SignalingConnection) → Inv s → Inv (begin_fail e s)
unfolding begin_fail
begin_fail-Inv e s i =
    shut_or s s _ (λ c. i)
      (λ c _.
        all_due s (record (mark_failed e s) { todo = fail_tasks e s }) (fail_tasks-AllDue e s) refl
          refl refl)

begin_close-Inv : (s : SignalingConnection) → Inv s → Inv (begin_close s)
unfolding begin_close
begin_close-Inv s i =
    shut_or s s _ (λ c. i)
      (λ c _.
        all_due s (record (mark_closed s) { todo = close_tasks s }) (close_tasks-AllDue s) refl refl
          refl)

run_task-Inv : (s : SignalingConnection) → Inv s → Inv (run_task s)
unfolding run_task
run_task-Inv s i = go s.todo refl
  where
    go : (ts : List Task) → s.todo ≡ ts → Inv (run_task s)
    go [] e = rw (e, run_task) i
    go (t ∷ ts) e =
        let u : SignalingConnection = record s { todo = ts } in
        let l = Later-perform t u in
        let due : (child : ℕ) → EndsOrIsDue s child → EndsOrIsDue (perform t u) child = λ child h.
          elim h [
            | inl ended ↦ inl (l.ended_kept child ended)
            | inr later ↦ elim (subst (IsDue child) e later) [
              | inl here ↦ inl (perform-HasEnded t child u here)
              | inr behind ↦ inr (subst (IsDue child) (sym l.same_todo) behind)
            ]
          ] in
        rw (e, run_task)
          (λ c. AllEnd-map s u (perform t u) l due refl refl refl (i (sym l.same_closed ∙ c)))

Delivered-Inv : {s t : SignalingConnection} → Delivered s t → Inv s → Inv t
Delivered-Inv (inl later) i = Later-Inv later i
Delivered-Inv {s} (inr (e, failed)) i = subst Inv (sym failed) (begin_fail-Inv e s i)

-- What is registered finds the connection open.
register-Inv : (s t : SignalingConnection) → t.closed ≡ s.closed → s.closed ≡ false → Inv t
register-Inv s t same still_open c = absurd (true_not_false (sym c ∙ same ∙ still_open))

unregistered-Inv :
    (s t : SignalingConnection) → Inv s → t.closed ≡ s.closed → Inv (if s.closed then s else t)
unregistered-Inv s t i same = shut_or s s t (λ c. i) (register-Inv s t same)

Step-Inv : {s t : SignalingConnection} → Step s t → Inv s → Inv t
unfolding register_pending register_session register_channel register_push register_playback
    remove_pending
Step-Inv (looks_up m s none_held) i =
    Later-Inv
      (Later-queues s s.done s.terminal s.pending s.channels s.queues s.handled
        (some (m, look_up m s)))
      i
Step-Inv (delivers outcome m found s at) i =
    let l = Later-queues s s.done s.terminal s.pending s.channels s.queues s.handled none in
    Delivered-Inv (deliver-Delivered outcome m found (record s { held = none })) (Later-Inv l i)
Step-Inv (begins_fail e s) i = begin_fail-Inv e s i
Step-Inv (begins_close s) i = begin_close-Inv s i
Step-Inv (runs_task s) i = run_task-Inv s i
Step-Inv (child_ends e child s) i = Later-Inv (Later-end_child e child s) i
Step-Inv (push_ends e dialog push s) i = Later-Inv (terminate_push-EndsChild e dialog push s).0 i
Step-Inv (playback_ends e dialog playback s) i =
    Later-Inv (terminate_playback-EndsChild e dialog playback s).0 i
Step-Inv (receives channel s) i = Later-Inv (receive-Later channel s) i
Step-Inv (removes dialog s) i = Later-Inv (Later-remove_session dialog s) i
Step-Inv (removes_pending dialog s) i =
    Later-Inv
      (Later-queues s s.done s.terminal (delete dialog s.pending) s.channels s.queues s.handled
        s.held)
      i
Step-Inv (removes_channel name s) i = Later-Inv (Later-remove_channel name s) i
Step-Inv (registers_pending dialog channel s) i = unregistered-Inv s _ i refl
Step-Inv (registers_session dialog session s) i =
    let t : SignalingConnection = record s { pending = delete dialog s.pending } in
    let u : SignalingConnection = record t { sessions = insert dialog session s.sessions } in
    shut_or s t u
      (λ c.
        Later-Inv
          (Later-queues s s.done s.terminal (delete dialog s.pending) s.channels s.queues s.handled
            s.held)
          i)
      (register-Inv s u refl)
Step-Inv (registers_channel name channel s) i = unregistered-Inv s _ i refl
Step-Inv (registers_push dialog push s) i = unregistered-Inv s _ i refl
Step-Inv (registers_playback dialog playback s) i = unregistered-Inv s _ i refl

Reach-Inv : {s : SignalingConnection} → Reach s → Inv s
unfolding new_connection
Reach-Inv starts = λ c. absurd (true_not_false (sym c))
Reach-Inv (more r step) = Step-Inv step (Reach-Inv r)

-- Whatever came in between: once a connection is closed, by fail or by Close, every session, playback and
-- push subscription that is registered with it has ended with an error, or is ended by a call that fail
-- or Close still has to make; so when these have made their calls, all have ended.
pub Reach-ended :
    {s : SignalingConnection}
    → Reach s
    → s.closed ≡ true
    → (dialog : String) (child : ℕ) → Registered s dialog child
    → EndsOrIsDue s child
Reach-ended {s} r c dialog child there =
    of_registered (EndsOrIsDue s) s dialog child (Reach-Inv r c) there
