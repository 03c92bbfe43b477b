-- ===== src/Signaling/Message.antt =====
-- The messages of internal/signaling/session.go, the names of internal/protocol/signaling.go and the
-- limits of internal/signaling/policy.go and writer_policy.go that the models use.
use Prim.Native.Nat.{ℕ}
use Prim.Native.String.{String}
use go_ring.Common.{Bytes}

-- `Body` is the raw JSON text.
pub record Message : Type 0 where
  pub method : String
  pub dialog_id : String
  pub riid : String
  pub body : Bytes

abbrev pub method_close : String
method_close = "close"

abbrev pub method_ping : String
method_ping = "ping"

abbrev pub method_pong : String
method_pong = "pong"

abbrev pub method_rpc : String
method_rpc = "rpc"

abbrev pub rpc_pan_continuous : String
rpc_pan_continuous = "PTZ.Pan.Continuous"

abbrev pub rpc_tilt_continuous : String
rpc_tilt_continuous = "PTZ.Tilt.Continuous"

abbrev pub json_rpc_version : String
json_rpc_version = "2.0"

abbrev pub field_method : String
field_method = "method"

abbrev pub field_command : String
field_command = "command"

abbrev pub field_params : String
field_params = "params"

abbrev pub field_speed : String
field_speed = "speed"

abbrev pub field_result : String
field_result = "result"

-- Durations are in milliseconds.
abbrev pub max_session_age : ℕ
max_session_age = 3600000

abbrev pub max_heartbeat_interval : ℕ
max_heartbeat_interval = 60000

abbrev pub missed_heartbeat_intervals : ℕ
missed_heartbeat_intervals = 3

abbrev pub rpc_response_timeout : ℕ
rpc_response_timeout = 10000

abbrev pub event_queue_capacity : ℕ
event_queue_capacity = 32

abbrev pub signaling_write_queue_capacity : ℕ
signaling_write_queue_capacity = 128

abbrev pub priority_write_burst_limit : ℕ
priority_write_burst_limit = 4
