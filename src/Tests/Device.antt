-- ===== src/Tests/Device.antt =====
-- The theorems on pkg/ring/device_session.go at a concrete run.
use go_ring.Common.{◌≡◌, refl, none, some, List, [], ◌∷◌, ◌++◌, true, false, Bool, All}
use go_ring.Common.Maps.{lookup, insert}
use go_ring.Device.{
  Axis, pan, axis_eq_instance, moving, DeviceSession, Sent, sent_close, called, call_on, set_call,
  begin_move, end_move, new_device_session, close_with_context,
}
use go_ring.Device.Movement.{Reach, starts, more, moves, move_ends, Reach-tracks}
use go_ring.Device.Movement.Closing.{Reach-close, IsStop, stop_on}

abbrev fast : Bool → Bool
fast speed = true

-- A move to the left was taken.
abbrev turning : DeviceSession
turning = record new_device_session {
  movement = (pan, "LEFT") ∷ [];
  acknowledged = (pan, "LEFT") ∷ [];
}

abbrev asked : DeviceSession
asked = record new_device_session {
  movement = (pan, "LEFT") ∷ [];
  pan_call = some (moving "LEFT" none);
}

turning-Reach : Reach fast false turning
unfolding new_device_session begin_move end_move insert lookup set_call call_on
turning-Reach =
    more
      (more starts (
        moves new_device_session asked pan "LEFT" true (called "PTZ.Pan.Continuous" "LEFT" true)
          refl refl))
      (move_ends asked pan "LEFT" none true refl)

Reach-tracks_example : lookup pan turning.movement ≡ lookup pan turning.acknowledged
unfolding new_device_session call_on
Reach-tracks_example = Reach-tracks fast false turning-Reach refl pan refl

Reach-close_example :
    (stops : List (Sent Bool)) × ((close_with_context fast false turning).1
      ≡ stops ++ sent_close ∷ [])
    × All (IsStop false) stops
    × ((axis : Axis) → stop_on axis stops ≡ lookup axis turning.acknowledged)
unfolding new_device_session
Reach-close_example = Reach-close fast false turning-Reach refl refl refl
