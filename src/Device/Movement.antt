-- ===== src/Device/Movement.antt =====
-- That a device session tracks the movements that its device took.
pub mod Closing
use Prim.Native.String.{String}
use text.Mathlib.Text.{◌==◌ as str_eq}
use go_ring.Common.{
  true_not_false, Bool, true, false, not, ◌≡◌, ◌≢◌, refl, sym, ap, ◌∙◌, subst, Option, none, some,
  List, [], ◌∷◌, ◌++◌, map, if◌then◌else◌, arith, All,
}
use go_ring.Common.Maps.{
  Map, lookup, insert, delete, lookup-insert, lookup-insert_self, lookup-delete, beq_refl,
}
use go_ring.Common.Fallible.{ok, guard-ok_cases, ok-injective}
use go_ring.Device.{
  Axis, pan, tilt, axis_eq, axis_eq_instance, Sent, called, sent_close, InFlight, moving, stopping,
  DeviceSession, call_on, set_call, continuous_method, begin_move, begin_stop, end_move, end_stop,
  stop_call, close_with_context, terminate, new_device_session, valid_direction, or_empty,
}

-- The axes take turns with `terminate` and `Close` in any order.
pub data Step {F : Type 0} (valid_speed : F → Bool) (zero : F)
    : DeviceSession → DeviceSession → Type 0 where
  moves :
      (s t : DeviceSession) (axis : Axis) (direction : String) (speed : F) (sent : Sent F)
      → call_on axis s ≡ none
      → begin_move valid_speed zero s axis direction speed ≡ ok (t, sent)
      → Step valid_speed zero s t
  stops :
      (s t : DeviceSession) (axis : Axis) (sent : Sent F)
      → call_on axis s ≡ none
      → begin_stop valid_speed zero s axis ≡ ok (t, sent)
      → Step valid_speed zero s t
  move_ends :
      (s : DeviceSession) (axis : Axis) (direction : String) (previous : Option String)
      (success : Bool)
      → call_on axis s ≡ some (moving direction previous)
      → Step valid_speed zero s (end_move s axis direction previous success)
  stop_ends :
      (s : DeviceSession) (axis : Axis) (direction : String) (success : Bool)
      → call_on axis s ≡ some (stopping direction)
      → Step valid_speed zero s (end_stop s axis success)
  closes :
      (s : DeviceSession)
      → s.pan_call ≡ none
      → s.tilt_call ≡ none
      → Step valid_speed zero s (close_with_context valid_speed zero s).0
  terminates : (s : DeviceSession) → Step valid_speed zero s (terminate s)

pub data Reach {F : Type 0} (valid_speed : F → Bool) (zero : F) : DeviceSession → Type 0 where
  starts : Reach valid_speed zero new_device_session
  more :
      {s t : DeviceSession}
      → Reach valid_speed zero s
      → Step valid_speed zero s t
      → Reach valid_speed zero t

-- What is tracked on an axis, by the call in flight, what is in the map and what the device took.
TracksAs : Option InFlight → Option String → Option String → Type 0
TracksAs none tracked took = tracked ≡ took
TracksAs (some (moving d previous)) tracked took = (tracked ≡ some d) × (previous ≡ took)
TracksAs (some (stopping d)) tracked took = (tracked ≡ some d) × (took ≡ some d)

Tracks : DeviceSession → Axis → Type 0
Tracks s axis = TracksAs (call_on axis s) (lookup axis s.movement) (lookup axis s.acknowledged)

abbrev Inv : DeviceSession → Type 0
Inv s = s.closed ≡ false → (axis : Axis) → Tracks s axis

TracksAs-subst :
    (c : Option InFlight) {m n k l : Option String}
    → m ≡ n
    → k ≡ l
    → TracksAs c n l
    → TracksAs c m k
TracksAs-subst c {m} {n} {k} {l} e f t =
    subst (λ x. TracksAs c m x) (sym f) (subst (λ x. TracksAs c x l) (sym e) t)

-- A step on one axis: what is tracked there, and that the other axis keeps what it had.
step_on :
    (s : DeviceSession) (b : Axis) (c : Option InFlight) (m k : Map Axis String)
    → TracksAs c (lookup b m) (lookup b k)
    → ((a : Axis) → axis_eq b a ≡ false → lookup a m ≡ lookup a s.movement)
    → ((a : Axis) → axis_eq b a ≡ false → lookup a k ≡ lookup a s.acknowledged)
    → ((a : Axis) → Tracks s a)
    → (a : Axis) → Tracks (set_call b c (record s { movement = m; acknowledged = k })) a
unfolding Tracks call_on set_call
step_on s pan c m k here same_m same_k t pan = here
step_on s tilt c m k here same_m same_k t tilt = here
step_on s pan c m k here same_m same_k t tilt =
    TracksAs-subst s.tilt_call (same_m tilt refl) (same_k tilt refl) (t tilt)
step_on s tilt c m k here same_m same_k t pan =
    TracksAs-subst s.pan_call (same_m pan refl) (same_k pan refl) (t pan)

-- A change at one key of the map leaves the other axis.
insert-other :
    (b : Axis) (d : String) (m : Map Axis String) (a : Axis)
    → axis_eq b a ≡ false
    → lookup a (insert b d m) ≡ lookup a m
insert-other b d m a off = lookup-insert b a d m ∙ ap (λ q. if q then some d else lookup a m) off

delete-other :
    (b : Axis) (m : Map Axis String) (a : Axis)
    → axis_eq b a ≡ false
    → lookup a (delete b m) ≡ lookup a m
delete-other b m a off = lookup-delete b a m ∙ ap (λ q. if q then none else lookup a m) off

delete-same : (b : Axis) (m : Map Axis String) → lookup b (delete b m) ≡ none
delete-same b m = lookup-delete b b m ∙ ap (λ q. if q then none else lookup b m) (beq_refl b)

-- What is tracked where the call in flight is known.
at_call :
    (s : DeviceSession) (a : Axis) (c : Option InFlight)
    → call_on a s ≡ c
    → Tracks s a
    → TracksAs c (lookup a s.movement) (lookup a s.acknowledged)
unfolding Tracks
at_call s a c e t = subst (λ q. TracksAs q (lookup a s.movement) (lookup a s.acknowledged)) e t

end_move-Tracks :
    (s : DeviceSession) (b : Axis) (d : String) (p : Option String) (success : Bool)
    → call_on b s ≡ some (moving d p)
    → ((a : Axis) → Tracks s a)
    → (a : Axis) → Tracks (end_move s b d p success) a
unfolding end_move TracksAs
end_move-Tracks s b d p true e t =
    let here = at_call s b (some (moving d p)) e (t b) in
    step_on s b none s.movement (insert b d s.acknowledged)
      (here.0 ∙ sym (lookup-insert_self b d s.acknowledged)) (λ a off. refl)
      (insert-other b d s.acknowledged) t
end_move-Tracks s b d (some p) false e t =
    let here = at_call s b (some (moving d (some p))) e (t b) in
    step_on s b none (insert b p s.movement) s.acknowledged
      (lookup-insert_self b p s.movement ∙ here.1) (insert-other b p s.movement) (λ a off. refl) t
end_move-Tracks s b d none false e t =
    let here = at_call s b (some (moving d none)) e (t b) in
    step_on s b none (delete b s.movement) s.acknowledged (delete-same b s.movement ∙ here.1)
      (delete-other b s.movement) (λ a off. refl) t

end_stop-Tracks :
    (s : DeviceSession) (b : Axis) (d : String) (success : Bool)
    → call_on b s ≡ some (stopping d)
    → ((a : Axis) → Tracks s a)
    → (a : Axis) → Tracks (end_stop s b success) a
unfolding end_stop TracksAs
end_stop-Tracks s b d true e t =
    step_on s b none (delete b s.movement) (delete b s.acknowledged)
      (delete-same b s.movement ∙ sym (delete-same b s.acknowledged)) (delete-other b s.movement)
      (delete-other b s.acknowledged) t
end_stop-Tracks s b d false e t =
    let here = at_call s b (some (stopping d)) e (t b) in
    step_on s b none s.movement s.acknowledged (here.0 ∙ sym here.1) (λ a off. refl) (λ a off. refl)
      t

or_empty-some : (o : Option String) → not (str_eq (or_empty o) "") ≡ true → o ≡ some (or_empty o)
or_empty-some (some d) h = refl
or_empty-some none h = cc

not-true : (b : Bool) → not b ≡ true → b ≡ false
not-true true h = absurd (cc)
not-true false h = refl

end_move-closed :
    (s : DeviceSession) (b : Axis) (d : String) (p : Option String) (success : Bool)
    → (end_move s b d p success).closed ≡ s.closed
unfolding end_move set_call
end_move-closed s pan d p true = refl
end_move-closed s tilt d p true = refl
end_move-closed s pan d (some x) false = refl
end_move-closed s tilt d (some x) false = refl
end_move-closed s pan d none false = refl
end_move-closed s tilt d none false = refl

end_stop-closed :
    (s : DeviceSession) (b : Axis) (success : Bool) → (end_stop s b success).closed ≡ s.closed
unfolding end_stop set_call
end_stop-closed s pan true = refl
end_stop-closed s tilt true = refl
end_stop-closed s pan false = refl
end_stop-closed s tilt false = refl

terminate-closed : (s : DeviceSession) → (terminate s).closed ≢ false
unfolding terminate
terminate-closed s e = cc

start-Tracks : (a : Axis) → Tracks new_device_session a
unfolding Tracks TracksAs call_on new_device_session lookup
start-Tracks pan = refl
start-Tracks tilt = refl

module _ {F : Type 0} (valid_speed : F → Bool) (zero : F) where
  begin_move-Tracks :
      (s t : DeviceSession) (b : Axis) (d : String) (speed : F) (sent : Sent F)
      → call_on b s ≡ none
      → begin_move valid_speed zero s b d speed ≡ ok (t, sent)
      → ((a : Axis) → Tracks s a)
      → (a : Axis) → Tracks t a
  unfolding begin_move TracksAs
  begin_move-Tracks s t b d speed sent free h tr a =
      guard-ok_cases (valid_direction b d) _ _ h λ _ h.
        guard-ok_cases (valid_speed speed) _ _ h λ _ h. guard-ok_cases (not s.closed) _ _ h λ _ h.
          subst (λ q. Tracks q a) (ap (λ q. q.0) (ok-injective h))
            (step_on s b (some (moving d (lookup b s.movement))) (insert b d s.movement)
              s.acknowledged (lookup-insert_self b d s.movement, at_call s b none free (tr b))
              (insert-other b d s.movement) (λ a off. refl) tr a)

  begin_stop-Tracks :
      (s t : DeviceSession) (b : Axis) (sent : Sent F)
      → call_on b s ≡ none
      → begin_stop valid_speed zero s b ≡ ok (t, sent)
      → ((a : Axis) → Tracks s a)
      → (a : Axis) → Tracks t a
  unfolding begin_stop TracksAs
  begin_stop-Tracks s t b sent free h tr a =
      let direction = or_empty (lookup b s.movement) in
      guard-ok_cases (not s.closed) _ _ h λ _ h.
        guard-ok_cases (not (str_eq direction "")) _ _ h λ some_direction h.
          let tracked = or_empty-some (lookup b s.movement) some_direction in
          subst (λ q. Tracks q a) (ap (λ q. q.0) (ok-injective h))
            (step_on s b (some (stopping direction)) s.movement s.acknowledged
              (tracked, sym (at_call s b none free (tr b)) ∙ tracked) (λ a off. refl)
              (λ a off. refl) tr a)

  begin_move-open :
      (s t : DeviceSession) (b : Axis) (d : String) (speed : F) (sent : Sent F)
      → begin_move valid_speed zero s b d speed ≡ ok (t, sent)
      → s.closed ≡ false
  unfolding begin_move
  begin_move-open s t b d speed sent h = guard-ok_cases (valid_direction b d) _ _ h λ _ h.
      guard-ok_cases (valid_speed speed) _ _ h
        λ _ h. guard-ok_cases (not s.closed) _ _ h λ still_open _. not-true s.closed still_open

  begin_stop-open :
      (s t : DeviceSession) (b : Axis) (sent : Sent F)
      → begin_stop valid_speed zero s b ≡ ok (t, sent)
      → s.closed ≡ false
  unfolding begin_stop
  begin_stop-open s t b sent h =
      guard-ok_cases (not s.closed) _ _ h λ still_open _. not-true s.closed still_open

  close-closed : (s : DeviceSession) → (close_with_context valid_speed zero s).0.closed ≡ true
  unfolding close_with_context
  close-closed s = ground arith

  Step-Inv : {s t : DeviceSession} → Step valid_speed zero s t → Inv s → Inv t
  Step-Inv (moves s t b d speed sent free h) i _ a =
      begin_move-Tracks s t b d speed sent free h (i (begin_move-open s t b d speed sent h)) a
  Step-Inv (stops s t b sent free h) i _ a =
      begin_stop-Tracks s t b sent free h (i (begin_stop-open s t b sent h)) a
  Step-Inv (move_ends s b d p success e) i c a =
      end_move-Tracks s b d p success e (i (sym (end_move-closed s b d p success) ∙ c)) a
  Step-Inv (stop_ends s b d success e) i c a =
      end_stop-Tracks s b d success e (i (sym (end_stop-closed s b success) ∙ c)) a
  Step-Inv (closes s p q) i c a = absurd (true_not_false (sym (close-closed s) ∙ c))
  Step-Inv (terminates s) i c a = absurd (terminate-closed s c)

  Reach-Inv : {s : DeviceSession} → Reach valid_speed zero s → Inv s
  Reach-Inv starts = λ c a. start-Tracks a
  Reach-Inv (more r step) = Step-Inv step (Reach-Inv r)

  -- While a session is open and no PTZ call is in flight on an axis, the movement that it tracks there is
  -- the one that the device took last: that of the last continuous call on the axis that succeeded, and
  -- none after a stop that succeeded. Calls that fail, on either axis, do not change this.
  pub Reach-tracks :
      {s : DeviceSession}
      → Reach valid_speed zero s
      → s.closed ≡ false
      → (axis : Axis) → call_on axis s ≡ none
      → lookup axis s.movement ≡ lookup axis s.acknowledged
  unfolding TracksAs
  Reach-tracks {s} r c axis free = at_call s axis none free (Reach-Inv r c axis)
