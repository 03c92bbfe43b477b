-- ===== src/Device/Movement/Closing.antt =====
-- What closing a device session sends for the movements that it tracks.
use Prim.Native.String.{String}
use text.Mathlib.Text.{◌==◌ as str_eq}
use go_ring.Common.{
  true_not_false, Bool, true, false, ◌≡◌, refl, ◌∙◌, Option, none, some, List, [], ◌∷◌, ◌++◌, map,
  if◌then◌else◌, All,
}
use go_ring.Common.Maps.{Map, lookup}
use go_ring.Device.{
  Axis, pan, tilt, axis_eq, axis_eq_instance, Sent, called, sent_close, DeviceSession, call_on,
  continuous_method, stop_call, close_with_context,
}
use go_ring.Device.Movement.{Reach, Reach-tracks}

-- The direction of the first call on an axis.
pub stop_on : {F : Type 0} → Axis → List (Sent F) → Option String
stop_on axis [] = none
stop_on axis (sent_close ∷ rest) = stop_on axis rest
stop_on axis (called method direction speed ∷ rest) =
    if str_eq (continuous_method axis) method then some direction else stop_on axis rest

open_second : {A B : Type 0} (b : Bool) (x y : A × B) → b ≡ false → (if b then x else y).1 ≡ y.1
open_second true x y h = absurd (true_not_false h)
open_second false x y h = refl

same_method : (a b : Axis) → str_eq (continuous_method a) (continuous_method b) ≡ axis_eq b a
unfolding continuous_method
same_method pan pan = refl
same_method tilt tilt = refl
same_method pan tilt = refl
same_method tilt pan = refl

both_free :
    (axis : Axis) (s : DeviceSession)
    → s.pan_call ≡ none
    → s.tilt_call ≡ none
    → call_on axis s ≡ none
unfolding call_on
both_free pan s p q = p
both_free tilt s p q = q

pub IsStop : {F : Type 0} → F → Sent F → Type 0
IsStop zero sent_close = ⊥
IsStop zero (called method direction speed) = speed ≡ zero

module _ {F : Type 0} (valid_speed : F → Bool) (zero : F) where
  stop_on-map :
      (axis : Axis) (m : Map Axis String)
      → stop_on axis (map (stop_call valid_speed zero) m) ≡ lookup axis m
  unfolding stop_on stop_call lookup
  stop_on-map axis [] = refl
  stop_on-map axis ((b, d) ∷ m) = rw (same_method axis b, stop_on-map axis m) refl

  stops-IsStop : (m : Map Axis String) → All (IsStop zero) (map (stop_call valid_speed zero) m)
  unfolding IsStop stop_call
  stops-IsStop [] = tt
  stops-IsStop ((b, d) ∷ m) = (refl, stops-IsStop m)

  -- Closing an open session with no call in flight sends PTZ calls with speed zero, then the close
  -- message, and nothing else. On each axis the first of these calls is in the direction of the movement
  -- that the device took last there, and there is no call where it took none or a stop.
  pub Reach-close :
      {s : DeviceSession}
      → Reach valid_speed zero s
      → s.closed ≡ false
      → s.pan_call ≡ none
      → s.tilt_call ≡ none
      → (stops : List (Sent F)) × ((close_with_context valid_speed zero s).1
          ≡ stops ++ sent_close ∷ [])
        × All (IsStop zero) stops
        × ((axis : Axis) → stop_on axis stops ≡ lookup axis s.acknowledged)
  unfolding close_with_context call_on
  Reach-close {s} r c p q =
      let stops = map (stop_call valid_speed zero) s.movement in
      (
        stops,
        open_second s.closed _ _ c,
        stops-IsStop s.movement,
        λ axis.
            stop_on-map axis s.movement
            ∙ Reach-tracks valid_speed zero r c axis (both_free axis s p q),
      )
