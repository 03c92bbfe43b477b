-- ===== src/Connection/Failing.antt =====
-- That the children of a signaling connection end with it: `fail` and `Close` of
-- pkg/ring/signaling_connection.go, each from its start to its end.
use Prim.Native.String.{String}
use go_ring.Common.{
  ℕ, ◌≡◌, ◌⊎◌, refl, inl, inr, Bool, true, false, true_not_false, some, List, [], ◌∷◌, ◌++◌,
  if◌then◌else◌,
}
use go_ring.Common.Maps.{Map, lookup, AllEntries-lookup, AllEntries-map, string_eq_instance}
use go_ring.Connection.{
  ConnectionError, closed_error, Task, end_session, end_playback, end_push, close_session, set_done,
  SignalingConnection, perform, run_tasks, tasks, fail_tasks, close_tasks, mark_failed, mark_closed,
  fail, close,
}
use go_ring.Connection.Children.{
  HasEnded, AllOf, Later, Later-refl, Later-trans, child_of, Later-perform, perform-HasEnded,
}

-- One of the tasks ends the child.
abbrev pub IsDue : ℕ → List Task → Type 0
IsDue child [] = ⊥
IsDue child (t ∷ ts) = (child_of t ≡ some child) ⊎ IsDue child ts

IsDue-before : (child : ℕ) (xs ys : List Task) → IsDue child xs → IsDue child (xs ++ ys)
IsDue-before child [] ys d = elim d [ ]
IsDue-before child (x ∷ xs) ys (inl here) = inl here
IsDue-before child (x ∷ xs) ys (inr later) = inr (IsDue-before child xs ys later)

IsDue-behind : (child : ℕ) (xs ys : List Task) → IsDue child ys → IsDue child (xs ++ ys)
IsDue-behind child [] ys d = d
IsDue-behind child (x ∷ xs) ys d = inr (IsDue-behind child xs ys d)

tasks-IsDue :
    (f : String → ℕ → Task)
    → ((dialog : String) (child : ℕ) → child_of (f dialog child) ≡ some child)
    → (m : Map String ℕ) → AllOf (λ child. IsDue child (tasks f m)) m
unfolding tasks
tasks-IsDue f ends [] = tt
tasks-IsDue f ends ((dialog, child) ∷ m) =
    (inl (ends dialog child), AllEntries-map _ _ m (λ k v d. inr d) (tasks-IsDue f ends m))

abbrev pub AllDue : SignalingConnection → List Task → Type 0
AllDue s ts =
    AllOf (λ child. IsDue child ts) s.sessions
    × AllOf (λ child. IsDue child ts) s.playbacks
    × AllOf (λ child. IsDue child ts) s.pushes

AllOf-map :
    (P Q : ℕ → Type 0) (m : Map String ℕ)
    → ((child : ℕ) → P child → Q child)
    → AllOf P m
    → AllOf Q m
AllOf-map P Q m f a = AllEntries-map _ _ m (λ k v h. f v h) a

-- The order of the three loops.
in_order :
    (s : SignalingConnection) (a b c : List Task)
    → AllOf (λ child. IsDue child a) s.sessions
    → AllOf (λ child. IsDue child b) s.playbacks
    → AllOf (λ child. IsDue child c) s.pushes
    → AllDue s (a ++ b ++ c)
in_order s a b c x y z = (
  AllOf-map _ _ s.sessions (λ child d. IsDue-before child (a ++ b) c (IsDue-before child a b d)) x,
  AllOf-map _ _ s.playbacks (λ child d. IsDue-before child (a ++ b) c (IsDue-behind child a b d)) y,
  AllOf-map _ _ s.pushes (λ child d. IsDue-behind child (a ++ b) c d) z,
)

pub fail_tasks-AllDue : (e : ConnectionError) (s : SignalingConnection) → AllDue s (fail_tasks e s)
unfolding fail_tasks
fail_tasks-AllDue e s =
    in_order s (tasks (end_session e) s.sessions) (tasks (end_playback e) s.playbacks)
      (tasks (end_push e) s.pushes) (tasks-IsDue (end_session e) (λ dialog child. refl) s.sessions)
      (tasks-IsDue (end_playback e) (λ dialog child. refl) s.playbacks)
      (tasks-IsDue (end_push e) (λ dialog child. refl) s.pushes)

pub close_tasks-AllDue : (s : SignalingConnection) → AllDue s (close_tasks s)
unfolding close_tasks
close_tasks-AllDue s =
    let playbacks = tasks (end_playback closed_error) s.playbacks in
    in_order s (tasks close_session s.sessions) (set_done ∷ playbacks)
      (tasks (end_push closed_error) s.pushes)
      (tasks-IsDue close_session (λ dialog child. refl) s.sessions)
      (AllOf-map _ _ s.playbacks (λ child d. inr d)
        (tasks-IsDue (end_playback closed_error) (λ dialog child. refl) s.playbacks))
      (tasks-IsDue (end_push closed_error) (λ dialog child. refl) s.pushes)

Later-run_tasks : (ts : List Task) (s : SignalingConnection) → Later s (run_tasks ts s)
unfolding run_tasks
Later-run_tasks [] s = Later-refl s
Later-run_tasks (t ∷ ts) s = Later-trans (Later-perform t s) (Later-run_tasks ts (perform t s))

run_tasks-HasEnded :
    (ts : List Task) (child : ℕ) (s : SignalingConnection)
    → IsDue child ts
    → HasEnded (run_tasks ts s) child
unfolding run_tasks
run_tasks-HasEnded [] child s d = elim d [ ]
run_tasks-HasEnded (t ∷ ts) child s (inl here) =
    (Later-run_tasks ts (perform t s)).ended_kept child (perform-HasEnded t child s here)
run_tasks-HasEnded (t ∷ ts) child s (inr later) = run_tasks-HasEnded ts child (perform t s) later

abbrev pub Registered : SignalingConnection → String → ℕ → Type 0
Registered s dialog child =
    (lookup dialog s.sessions ≡ some child)
    ⊎ (lookup dialog s.playbacks ≡ some child)
    ⊎ (lookup dialog s.pushes ≡ some child)

pub of_registered :
    (P : ℕ → Type 0) (s : SignalingConnection) (dialog : String) (child : ℕ)
    → AllOf P s.sessions × AllOf P s.playbacks × AllOf P s.pushes
    → Registered s dialog child
    → P child
of_registered P s dialog child (a, b, c) (inl session) =
    AllEntries-lookup _ dialog child s.sessions a session
of_registered P s dialog child (a, b, c) (inr (inl playback)) =
    AllEntries-lookup _ dialog child s.playbacks b playback
of_registered P s dialog child (a, b, c) (inr (inr push)) =
    AllEntries-lookup _ dialog child s.pushes c push

if-closed :
    (P : SignalingConnection → Type 0) (b : Bool) (s t : SignalingConnection)
    → b ≡ false
    → P t
    → P (if b then s else t)
if-closed P true s t h p = absurd (true_not_false h)
if-closed P false s t h p = p

-- When an open connection fails, every session, playback and push subscription that is registered with it
-- ends with an error.
pub fail-ended :
    (e : ConnectionError) (s : SignalingConnection)
    → s.closed ≡ false
    → (dialog : String) (child : ℕ) → Registered s dialog child
    → HasEnded (fail e s) child
unfolding fail
fail-ended e s still_open dialog child r =
    if-closed (λ t. HasEnded t child) s.closed _ _ still_open
      (run_tasks-HasEnded (fail_tasks e s) child (mark_failed e s)
        (of_registered (λ c. IsDue c (fail_tasks e s)) s dialog child (fail_tasks-AllDue e s) r))

-- When an open connection is closed, every session, playback and push subscription that is registered
-- with it ends with an error.
pub close-ended :
    (s : SignalingConnection)
    → s.closed ≡ false
    → (dialog : String) (child : ℕ) → Registered s dialog child
    → HasEnded (close s) child
unfolding close
close-ended s still_open dialog child r =
    if-closed (λ t. HasEnded t child) s.closed _ _ still_open
      (run_tasks-HasEnded (close_tasks s) child (mark_closed s)
        (of_registered (λ c. IsDue c (close_tasks s)) s dialog child (close_tasks-AllDue s) r))
