-- ===== src/Device.antt =====
-- pkg/ring/device_session.go: the PTZ movements that a device session keeps track of. `F` is float64.
-- Each function is what a call does between two of its locks; the mutex of an axis is the call that is
-- in flight on it.
pub mod Movement
use Prim.Native.String.{String}
use text.Mathlib.Text.{◌==◌ as str_eq}
use go_ring.Common.{
  Bool, true, false, not, ◌&&◌, ◌||◌, ◌≡◌, ◌↔◌, refl, Option, none, some, List, [], ◌∷◌, ◌++◌, map,
  if◌then◌else◌,
}
use go_ring.Common.Maps.{Eq, Map, lookup, insert, delete}
use go_ring.Common.Fallible.{Result, ok, err, ◌>>=◌, ◌>>◌, guard}

-- `PTZAxis`
pub data Axis : Type 0 where
  pan tilt : Axis

abbrev pub axis_eq : Axis → Axis → Bool
axis_eq pan pan = true
axis_eq tilt tilt = true
axis_eq pan tilt = false
axis_eq tilt pan = false

pub axis_eq_iff : (a b : Axis) → (axis_eq a b ≡ true) ↔ (a ≡ b)
axis_eq_iff pan pan = (λ h. refl, λ h. refl)
axis_eq_iff tilt tilt = (λ h. refl, λ h. refl)
axis_eq_iff pan tilt = (λ h. absurd (cc), λ h. absurd (cc))
axis_eq_iff tilt pan = (λ h. absurd (cc), λ h. absurd (cc))

instance abbrev pub axis_eq_instance : Eq Axis
axis_eq_instance = record { beq = axis_eq; beq_iff = axis_eq_iff }

pub data DeviceError : Type 0 where
  bad_request : String → DeviceError
  closed_error : DeviceError

-- What goes to the peer: an RPC call with method, direction and speed, or the close message.
pub data Sent (F : Type 0) : Type 0 where
  called : String → String → F → Sent F
  sent_close : Sent F

-- The call that holds the mutex of an axis: a move, with the direction that it asked for and the one
-- that was tracked before, or a stop.
pub data InFlight : Type 0 where
  moving : String → Option String → InFlight
  stopping : String → InFlight

-- `acknowledged` records what the device last took on each axis: a move, or a stop.
pub record DeviceSession : Type 0 where
  pub closed : Bool
  pub movement : Map Axis String
  pub pan_call : Option InFlight
  pub tilt_call : Option InFlight
  pub acknowledged : Map Axis String

unfoldable pub call_on : Axis → DeviceSession → Option InFlight
call_on pan s = s.pan_call
call_on tilt s = s.tilt_call

unfoldable pub set_call : Axis → Option InFlight → DeviceSession → DeviceSession
set_call pan c s = record s { pan_call = c }
set_call tilt c s = record s { tilt_call = c }

unfoldable pub continuous_method : Axis → String
continuous_method pan = "PTZ.Pan.Continuous"
continuous_method tilt = "PTZ.Tilt.Continuous"

-- The test at the head of `PanContinuous` and `TiltContinuous`.
unfoldable pub valid_direction : Axis → String → Bool
valid_direction pan d = str_eq d "LEFT" || str_eq d "RIGHT"
valid_direction tilt d = str_eq d "UP" || str_eq d "DOWN"

-- A map read at a missing key gives the zero value.
abbrev pub or_empty : Option String → String
or_empty none = ""
or_empty (some d) = d

module _ {F : Type 0} (valid_speed : F → Bool) (zero_speed : F) where
  -- `continuous` up to its call, which holds the mutex of the axis.
  unfoldable pub begin_move :
      DeviceSession → Axis → String → F → Result DeviceError (DeviceSession × Sent F)
  unfolding valid_direction set_call continuous_method
  begin_move s axis direction speed =
      let moved = record s { movement = insert axis direction s.movement } in
      guard (valid_direction axis direction) (bad_request "invalid direction")
      >> (guard (valid_speed speed) (bad_request "invalid speed")
          >> (guard (not s.closed) closed_error
              >> ok (
                set_call axis (some (moving direction (lookup axis s.movement))) moved,
                called (continuous_method axis) direction speed,
              )))

  -- `StopPTZ` up to its call; a missing movement reads as the empty string.
  unfoldable pub begin_stop : DeviceSession → Axis → Result DeviceError (DeviceSession × Sent F)
  unfolding set_call continuous_method
  begin_stop s axis =
      let direction = or_empty (lookup axis s.movement) in
      guard (not s.closed) closed_error
      >> (guard (not (str_eq direction "")) (bad_request "no tracked continuous movement")
          >> ok (
            set_call axis (some (stopping direction)) s,
            called (continuous_method axis) direction zero_speed,
          ))

  unfoldable pub stop_call : Axis × String → Sent F
  unfolding continuous_method
  stop_call (axis, direction) = called (continuous_method axis) direction zero_speed

  -- `closeWithContext` with `sendClose`; it takes both mutexes.
  unfoldable pub close_with_context : DeviceSession → DeviceSession × List (Sent F)
  unfolding stop_call
  close_with_context s =
      if s.closed
      then (s, [])
      else (record s { closed = true; movement = [] }, map stop_call s.movement ++ sent_close ∷ [])

-- The rest of `continuous`, by the success of the call.
unfoldable pub end_move : DeviceSession → Axis → String → Option String → Bool → DeviceSession
unfolding set_call
end_move s axis direction previous true =
    set_call axis none (record s { acknowledged = insert axis direction s.acknowledged })
end_move s axis direction (some d) false =
    set_call axis none (record s { movement = insert axis d s.movement })
end_move s axis direction none false =
    set_call axis none (record s { movement = delete axis s.movement })

-- The rest of `StopPTZ`.
unfoldable pub end_stop : DeviceSession → Axis → Bool → DeviceSession
unfolding set_call
end_stop s axis true =
    set_call axis none
      (record s { movement = delete axis s.movement; acknowledged = delete axis s.acknowledged })
end_stop s axis false = set_call axis none s

-- `terminate`, up to what it does to the core.
unfoldable pub terminate : DeviceSession → DeviceSession
terminate s = record s { closed = true }

unfoldable pub new_device_session : DeviceSession
new_device_session = record {
  closed = false;
  movement = [];
  pan_call = none;
  tilt_call = none;
  acknowledged = [];
}
