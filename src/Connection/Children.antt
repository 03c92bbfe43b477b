-- ===== src/Connection/Children.antt =====
-- What the operations on a connection keep of its children: a child that ended stays ended, and none is
-- registered on the way.
use Prim.Native.String.{String}
use go_ring.Common.{
  ℕ, ◌≡◌, refl, subst, ◌∙◌, inl, inr, Bool, true, Option, none, some, List, Bool-cases,
  Option-cases,
}
use go_ring.Common.Maps.{
  Map, lookup, insert, delete, lookup-insert, lookup-insert_self, AllEntries, AllEntries-delete,
  AllEntries-map, nat_eq_instance, string_eq_instance,
}
use go_ring.Signaling.Message.{Message}
use go_ring.Connection.{
  ConnectionError, closed_error, Task, end_session, end_playback, end_push, close_session, set_done,
  Found, SignalingConnection, end_child, end_and, remove_channel, remove_playback, remove_session,
  terminate_push, terminate_playback, shut_session, perform,
}

abbrev pub HasEnded : SignalingConnection → ℕ → Type 0
HasEnded s child = (e : ConnectionError) × lookup child s.ended ≡ some e

abbrev pub AllOf : (ℕ → Type 0) → Map String ℕ → Type 0
AllOf P m = AllEntries (λ dialog child. P child) m

-- What may happen to a connection that stays as open as it is.
pub record Later (s t : SignalingConnection) : Type 1 where
  pub same_closed : t.closed ≡ s.closed
  pub same_todo : t.todo ≡ s.todo
  pub sessions_kept : (P : ℕ → Type 0) → AllOf P s.sessions → AllOf P t.sessions
  pub playbacks_kept : (P : ℕ → Type 0) → AllOf P s.playbacks → AllOf P t.playbacks
  pub pushes_kept : (P : ℕ → Type 0) → AllOf P s.pushes → AllOf P t.pushes
  pub ended_kept : (child : ℕ) → HasEnded s child → HasEnded t child

pub Later-refl : (s : SignalingConnection) → Later s s
Later-refl s = record {
  same_closed = refl;
  same_todo = refl;
  sessions_kept = λ P a. a;
  playbacks_kept = λ P a. a;
  pushes_kept = λ P a. a;
  ended_kept = λ c h. h;
}

pub Later-trans : {s t u : SignalingConnection} → Later s t → Later t u → Later s u
Later-trans a b = record {
  same_closed = b.same_closed ∙ a.same_closed;
  same_todo = b.same_todo ∙ a.same_todo;
  sessions_kept = λ P x. b.sessions_kept P (a.sessions_kept P x);
  playbacks_kept = λ P x. b.playbacks_kept P (a.playbacks_kept P x);
  pushes_kept = λ P x. b.pushes_kept P (a.pushes_kept P x);
  ended_kept = λ c h. b.ended_kept c (a.ended_kept c h);
}

AllOf-delete :
    (P : ℕ → Type 0) (dialog : String) (m : Map String ℕ) → AllOf P m → AllOf P (delete dialog m)
AllOf-delete P dialog m a =
    AllEntries-map _ _ (delete dialog m) (λ k v h. h.0) (AllEntries-delete _ dialog m a)

HasEnded-insert :
    (e : ConnectionError) (child other : ℕ) (s : SignalingConnection)
    → HasEnded s other
    → HasEnded (record s { ended = insert child e s.ended }) other
HasEnded-insert e child other s h = elim (Bool-cases (nat_eq_instance.beq child other)) [
  | inl hit ↦ (e, rw (lookup-insert child other e s.ended, hit) refl)
  | inr miss ↦ (h.0, rw (lookup-insert child other e s.ended, miss) h.1)
]

-- The fields that no claim is about.
pub Later-queues :
    (s : SignalingConnection) (done : Bool) (terminal : Option ConnectionError) (p c : Map String ℕ)
    (q : Map ℕ (List Message)) (h : List (ℕ × Message)) (held : Option (Message × Found))
    → Later s (record s {
      done = done;
      terminal = terminal;
      pending = p;
      channels = c;
      queues = q;
      handled = h;
      held = held;
    })
Later-queues s done terminal p c q h held = record {
  same_closed = refl;
  same_todo = refl;
  sessions_kept = λ P a. a;
  playbacks_kept = λ P a. a;
  pushes_kept = λ P a. a;
  ended_kept = λ c h. h;
}

pub Later-end_child :
    (e : ConnectionError) (child : ℕ) (s : SignalingConnection) → Later s (end_child e child s)
unfolding end_child
Later-end_child e child s = elim (Option-cases (lookup child s.ended)) [
  | inl new ↦
      rw (new, end_child)
        record {
          same_closed = refl;
          same_todo = refl;
          sessions_kept = λ P a. a;
          playbacks_kept = λ P a. a;
          pushes_kept = λ P a. a;
          ended_kept = λ c h. HasEnded-insert e child c s h;
        }
  | inr old ↦ rw (old.1, end_child) (Later-refl s)
]

end_child-HasEnded :
    (e : ConnectionError) (child : ℕ) (s : SignalingConnection)
    → HasEnded (end_child e child s) child
unfolding end_child
end_child-HasEnded e child s = elim (Option-cases (lookup child s.ended)) [
  | inl new ↦ rw (new, end_child) (e, lookup-insert_self child e s.ended)
  | inr old ↦ rw (old.1, end_child) old
]

pub Later-remove_channel :
    (dialog : String) (s : SignalingConnection) → Later s (remove_channel dialog s)
unfolding remove_channel
Later-remove_channel dialog s = record {
  same_closed = refl;
  same_todo = refl;
  sessions_kept = λ P a. a;
  playbacks_kept = λ P a. a;
  pushes_kept = λ P a. AllOf-delete P dialog s.pushes a;
  ended_kept = λ c h. h;
}

Later-remove_playback :
    (dialog : String) (s : SignalingConnection) → Later s (remove_playback dialog s)
unfolding remove_playback
Later-remove_playback dialog s = record {
  same_closed = refl;
  same_todo = refl;
  sessions_kept = λ P a. a;
  playbacks_kept = λ P a. AllOf-delete P dialog s.playbacks a;
  pushes_kept = λ P a. a;
  ended_kept = λ c h. h;
}

pub Later-remove_session :
    (dialog : String) (s : SignalingConnection) → Later s (remove_session dialog s)
unfolding remove_session
Later-remove_session dialog s = record {
  same_closed = refl;
  same_todo = refl;
  sessions_kept = λ P a. AllOf-delete P dialog s.sessions a;
  playbacks_kept = λ P a. a;
  pushes_kept = λ P a. a;
  ended_kept = λ c h. h;
}

-- An end of a child.
abbrev pub EndsChild : ℕ → SignalingConnection → SignalingConnection → Type 1
EndsChild child s t = Later s t × HasEnded t child

end_child-EndsChild :
    (e : ConnectionError) (child : ℕ) (s : SignalingConnection)
    → EndsChild child s (end_child e child s)
end_child-EndsChild e child s = (Later-end_child e child s, end_child-HasEnded e child s)

end_and-EndsChild :
    (remove : SignalingConnection → SignalingConnection)
    → ((s : SignalingConnection) → Later s (remove s))
    → (e : ConnectionError) (child : ℕ) (s : SignalingConnection)
    → EndsChild child s (end_and remove e child s)
unfolding end_and
end_and-EndsChild remove removes e child s = elim (Option-cases (lookup child s.ended)) [
  | inl new ↦
      rw (new, end_and)
        (
          Later-trans (Later-end_child e child s) (removes (end_child e child s)),
          (removes (end_child e child s)).ended_kept child (end_child-HasEnded e child s),
        )
  | inr old ↦ rw (old.1, end_and) (Later-refl s, old)
]

pub terminate_push-EndsChild :
    (e : ConnectionError) (dialog : String) (push : ℕ) (s : SignalingConnection)
    → EndsChild push s (terminate_push e dialog push s)
unfolding terminate_push
terminate_push-EndsChild e dialog push s =
    end_and-EndsChild (remove_channel dialog) (Later-remove_channel dialog) e push s

pub terminate_playback-EndsChild :
    (e : ConnectionError) (dialog : String) (playback : ℕ) (s : SignalingConnection)
    → EndsChild playback s (terminate_playback e dialog playback s)
unfolding terminate_playback
terminate_playback-EndsChild e dialog playback s =
    end_and-EndsChild (remove_playback dialog) (Later-remove_playback dialog) e playback s

-- The child that a task ends.
abbrev pub child_of : Task → Option ℕ
child_of (end_session e dialog child) = some child
child_of (end_playback e dialog child) = some child
child_of (end_push e dialog child) = some child
child_of (close_session dialog child) = some child
child_of set_done = none

some-injective : (a b : ℕ) → some a ≡ some b → a ≡ b
some-injective a b h = cc

ended_other :
    (s t : SignalingConnection) (a b : ℕ) → EndsChild a s t → some a ≡ some b → HasEnded t b
ended_other s t a b e h = subst (HasEnded t) (some-injective a b h) e.1

pub Later-perform : (t : Task) (s : SignalingConnection) → Later s (perform t s)
unfolding perform shut_session
Later-perform (end_session e dialog child) s = Later-end_child e child s
Later-perform (end_playback e dialog child) s = (terminate_playback-EndsChild e dialog child s).0
Later-perform (end_push e dialog child) s = (terminate_push-EndsChild e dialog child s).0
Later-perform (close_session dialog child) s =
    (end_and-EndsChild (remove_session dialog) (Later-remove_session dialog) closed_error child s).0
Later-perform set_done s =
    Later-queues s true (some closed_error) s.pending s.channels s.queues s.handled s.held

pub perform-HasEnded :
    (t : Task) (child : ℕ) (s : SignalingConnection)
    → child_of t ≡ some child
    → HasEnded (perform t s) child
unfolding perform shut_session
perform-HasEnded (end_session e dialog c) child s h =
    ended_other s _ c child (end_child-EndsChild e c s) h
perform-HasEnded (end_playback e dialog c) child s h =
    ended_other s _ c child (terminate_playback-EndsChild e dialog c s) h
perform-HasEnded (end_push e dialog c) child s h =
    ended_other s _ c child (terminate_push-EndsChild e dialog c s) h
perform-HasEnded (close_session dialog c) child s h =
    ended_other s _ c child
      (end_and-EndsChild (remove_session dialog) (Later-remove_session dialog) closed_error c s) h
perform-HasEnded set_done child s h = absurd (cc)
