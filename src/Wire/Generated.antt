-- ===== src/Wire/Generated.antt =====
-- pkg/dependencymodels/signaling: the properties that the tags of the generated body types require.
use Prim.Native.String.{String}
use go_ring.Common.{List, [], ◌∷◌}
use go_ring.Wire

-- The properties with the tag `binding:"required"`, by type.
unfoldable pub session_body : List String
session_body = "doorbot_id" ∷ "session_id" ∷ []

unfoldable pub server_close_body : List String
server_close_body = []

unfoldable pub server_ice_body : List String
server_ice_body = "ice" ∷ "mlineindex" ∷ []

unfoldable pub session_notification_body : List String
session_notification_body = "doorbot_id" ∷ "session_id" ∷ "is_ok" ∷ "text" ∷ []

unfoldable pub push_event_body : List String
push_event_body = "notification_scope" ∷ "notification_type" ∷ "payload" ∷ "subscription_id" ∷ []

unfoldable pub push_subscription_ack_body : List String
push_subscription_ack_body = "status" ∷ "subscription_id" ∷ []

unfoldable pub server_rpc_body : List String
server_rpc_body = "command" ∷ []

unfoldable pub live_answer_body : List String
live_answer_body = "doorbot_id" ∷ "session_id" ∷ "sdp" ∷ "session_info" ∷ "type" ∷ []

unfoldable pub playback_answer_body : List String
playback_answer_body = "doorbot_id" ∷ "session_id" ∷ "type" ∷ "sdp" ∷ []

unfoldable pub session_created_body : List String
session_created_body = "doorbot_id" ∷ "session_id" ∷ []

unfoldable pub live_ice_body : List String
live_ice_body = "doorbot_id" ∷ "ice" ∷ "mid" ∷ "mlineindex" ∷ []

unfoldable pub playback_close_body : List String
playback_close_body = "doorbot_id" ∷ "session_id" ∷ "reason" ∷ []

unfoldable pub ice_candidate_body : List String
ice_candidate_body = "doorbot_id" ∷ "session_id" ∷ "ice" ∷ "mlineindex" ∷ []

unfoldable pub live_view_body : List String
live_view_body = "doorbot_id" ∷ "sdp" ∷ "stream_options" ∷ "type" ∷ []

unfoldable pub session_microphone_body : List String
session_microphone_body = "doorbot_id" ∷ "session_id" ∷ "enabled" ∷ []

unfoldable pub playback_offer_body : List String
playback_offer_body = "doorbot_id" ∷ "entry_point" ∷ "sdp" ∷ "type" ∷ []

unfoldable pub push_subscription_body : List String
push_subscription_body = "subscription_id" ∷ []

unfoldable pub push_subscribe_body : List String
push_subscribe_body = "requested_notifications" ∷ []

unfoldable pub ptz_continuous_command_body : List String
ptz_continuous_command_body = "doorbot_id" ∷ "session_id" ∷ "command" ∷ []

unfoldable pub ptz_command_body : List String
ptz_command_body = "doorbot_id" ∷ "session_id" ∷ "command" ∷ []

unfoldable pub session_stream_audio_video_options_body : List String
session_stream_audio_video_options_body =
    "doorbot_id" ∷ "session_id" ∷ "audio_enabled" ∷ "video_enabled" ∷ []

unfoldable pub session_stream_audio_options_body : List String
session_stream_audio_options_body = "doorbot_id" ∷ "session_id" ∷ "audio_enabled" ∷ []

unfoldable pub session_stream_video_options_body : List String
session_stream_video_options_body = "doorbot_id" ∷ "session_id" ∷ "video_enabled" ∷ []

unfoldable pub ptz_wire_command : List String
ptz_wire_command = "jsonrpc" ∷ "id" ∷ "method" ∷ "params" ∷ []

unfoldable pub ptz_continuous_wire_command : List String
ptz_continuous_wire_command = "jsonrpc" ∷ "id" ∷ "method" ∷ "params" ∷ []

unfoldable pub ptz_wire_params : List String
ptz_wire_params = "sessionId" ∷ "timestamp" ∷ "version" ∷ "direction" ∷ []

unfoldable pub ptz_continuous_params : List String
ptz_continuous_params = "sessionId" ∷ "timestamp" ∷ "version" ∷ "direction" ∷ "speed" ∷ []

-- Those of the type of a frame's body.
unfoldable pub required_properties : Wire.GeneratedFrame → List String
unfolding session_body server_close_body server_ice_body session_notification_body push_event_body
    push_subscription_ack_body server_rpc_body live_answer_body playback_answer_body
    session_created_body live_ice_body playback_close_body ice_candidate_body live_view_body
    session_microphone_body playback_offer_body push_subscription_body push_subscribe_body
    ptz_continuous_command_body ptz_command_body session_stream_audio_video_options_body
    session_stream_audio_options_body session_stream_video_options_body
required_properties Wire.server_camera_started = session_body
required_properties Wire.server_close = server_close_body
required_properties Wire.server_ice = server_ice_body
required_properties Wire.session_notification = session_notification_body
required_properties Wire.session_pong = session_body
required_properties Wire.push_event = push_event_body
required_properties Wire.push_subscription_ack = push_subscription_ack_body
required_properties Wire.server_rpc = server_rpc_body
required_properties Wire.live_answer = live_answer_body
required_properties Wire.playback_answer = playback_answer_body
required_properties Wire.session_created = session_created_body
required_properties Wire.live_ice = live_ice_body
required_properties Wire.session_activate = session_body
required_properties Wire.playback_close = playback_close_body
required_properties Wire.session_close = session_body
required_properties Wire.ice_candidate = ice_candidate_body
required_properties Wire.live_view = live_view_body
required_properties Wire.session_microphone = session_microphone_body
required_properties Wire.session_ping = session_body
required_properties Wire.playback_offer = playback_offer_body
required_properties Wire.push_heartbeat = push_subscription_body
required_properties Wire.push_subscribe = push_subscribe_body
required_properties Wire.push_unsubscribe = push_subscription_body
required_properties Wire.ptz_continuous_command = ptz_continuous_command_body
required_properties Wire.ptz_command = ptz_command_body
required_properties Wire.stream_audio_video = session_stream_audio_video_options_body
required_properties Wire.stream_audio = session_stream_audio_options_body
required_properties Wire.stream_video = session_stream_video_options_body

-- Those of the command in a PTZ body, and of the parameters in the command.
unfoldable pub required_of_command : Wire.GeneratedFrame → List String
unfolding ptz_continuous_wire_command ptz_wire_command
required_of_command Wire.ptz_continuous_command = ptz_continuous_wire_command
required_of_command _ = ptz_wire_command

unfoldable pub required_of_params : Wire.GeneratedFrame → List String
unfolding ptz_continuous_params ptz_wire_params
required_of_params Wire.ptz_continuous_command = ptz_continuous_params
required_of_params _ = ptz_wire_params

-- The method that each frame travels under.
unfoldable pub frame_method : Wire.GeneratedFrame → String
frame_method Wire.server_camera_started = "camera_started"
frame_method Wire.server_close = "close"
frame_method Wire.server_ice = "ice"
frame_method Wire.session_notification = "notification"
frame_method Wire.session_pong = "pong"
frame_method Wire.push_event = "push_event"
frame_method Wire.push_subscription_ack = "push_subscription_ack"
frame_method Wire.server_rpc = "rpc"
frame_method Wire.live_answer = "sdp"
frame_method Wire.playback_answer = "sdp"
frame_method Wire.session_created = "session_created"
frame_method Wire.live_ice = "ice"
frame_method Wire.session_activate = "activate_session"
frame_method Wire.playback_close = "close"
frame_method Wire.session_close = "close"
frame_method Wire.ice_candidate = "ice"
frame_method Wire.live_view = "live_view"
frame_method Wire.session_microphone = "mic_enable"
frame_method Wire.session_ping = "ping"
frame_method Wire.playback_offer = "playback"
frame_method Wire.push_heartbeat = "push_heartbeat"
frame_method Wire.push_subscribe = "push_subscribe"
frame_method Wire.push_unsubscribe = "push_unsubscribe"
frame_method Wire.ptz_continuous_command = "rpc"
frame_method Wire.ptz_command = "rpc"
frame_method Wire.stream_audio_video = "stream_options"
frame_method Wire.stream_audio = "stream_options"
frame_method Wire.stream_video = "stream_options"
