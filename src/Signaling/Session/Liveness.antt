-- ===== src/Signaling/Session/Liveness.antt =====
-- The creation of a session and its timers, internal/signaling/session.go.
use Prim.Native.String.{String}
use text.Mathlib.TextEquality.{eq_iff}
use go_ring.Common.{ℕ, ◌+◌, ◌≤◌, ◌<◌, ◌≡◌, ◌≢◌, Option, some, Bytes, arith}
use go_ring.Common.Int.{pos}
use go_ring.Signaling.Session.{SessionError, Session, SessionConfig, new_session}

-- A session is made only from a configuration whose three identifiers are not empty and whose
-- signaling identifier is not the control one; its heartbeat is positive and at most a minute, it
-- ends after now and at most an hour later, its last pong is now, and its device, dialog and heartbeat
-- are those of the configuration.
pub new_session-bounds :
    (text : String → Bytes) (ctx_err : Option SessionError) (now : ℕ) (c : SessionConfig)
    (s : Session)
    → (new_session text ctx_err now c).1 ≡ some s
    → (c.dialog_id ≢ "")
      × (c.signal_id ≢ "")
      × (c.control_id ≢ "")
      × (c.signal_id ≢ c.control_id)
      × (0 < s.heartbeat)
      × (s.heartbeat ≤ 60000)
      × (now < s.expires_at)
      × (s.expires_at ≤ now + 3600000)
      × (s.last_pong ≡ now)
      × (s.device_id ≡ c.device_id)
      × (s.dialog_id ≡ c.dialog_id)
      × (c.heartbeat ≡ pos s.heartbeat)
unfolding new_session
new_session-bounds text ctx_err now c s made = ground (
  arith,
  eq_iff c.dialog_id "",
  eq_iff c.signal_id "",
  eq_iff c.control_id "",
  eq_iff c.signal_id c.control_id,
)
