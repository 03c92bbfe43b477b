-- ===== src/Tests/Session.antt =====
-- The theorems on internal/signaling/session.go at concrete inputs.
use Prim.Native.String.{String}
use go_ring.Common.{
  ℕ, ◌+◌, ◌<◌, ◌≤◌, ◌≡◌, ◌≢◌, refl, true, false, Option, none, some, [], ◌∷◌, inl, ◌⊎◌, arith,
  Bytes, codes,
}
use go_ring.Common.Int.{pos}
use go_ring.Common.Maps.{lookup, delete, nat_eq_instance, string_eq_instance}
use go_ring.Common.Decimal.{decimal, bytes_eq_instance}
use go_ring.Signaling.Message.{Message}
use go_ring.Signaling.Session.{
  RpcReply, SessionError, expired, closed_error, Session, SessionConfig, new_session, finish,
  on_tick,
}
use go_ring.Signaling.Session.Liveness.{new_session-bounds}
use go_ring.Signaling.Session.Ptz.{
  pan_step, is_some, validate_ptz_command, ptz_payload, ptz_command_method_value, is_continuous,
  validate-payload,
}
use go_ring.Signaling.Session.Rpc.{
  SessionJson, RpcCommand, handle, rpc_id, read_command, check_command,
}
use go_ring.Signaling.Session.Rpc.Routing.{belongs, handle-unchanged}
use go_ring.Signaling.Session.Rpc.Reply.{IsAnswerTo, AnswersCall, handle-reply}
use go_ring.Signaling.Session.Rpc.Invariant.{Inv}
use go_ring.Signaling.Session.Rpc.Finish.{finish_lem}
use go_ring.Signaling.Session.Rpc.Run.{
  here, further, ticks, handles, end_is_final, new_session-Reach-Inv,
}

abbrev control : Bytes
control = b'c' ∷ []

-- A session with one call on its way.
abbrev calling : Session
calling = record {
  device_id = pos 5;
  dialog_id = "d";
  signal_id = "s";
  control_id = control;
  heartbeat = 5000;
  last_pong = 0;
  expires_at = 3600000;
  terminal = none;
  closed = false;
  sequence = 1;
  pending = (rpc_id control 1, 1) ∷ [];
  replies = [];
  events = [];
}

abbrev command : RpcCommand
command = record {
  jsonrpc = "2.0";
  id = rpc_id control 1;
  has_result = true;
  error = none;
  method = "";
}

-- A decoder that reads every text as the same reply.
abbrev one_reply : SessionJson
one_reply = record {
  decode_identity = λ b. some (record { doorbot_id = pos 5; session_id = "s" });
  decode_rpc_body = λ b. some true;
  decode_fields = λ b. some (("command", 1 ∷ []) ∷ ("result", 2 ∷ []) ∷ []);
  decode_command = λ c b. some command;
  decode_wrapper = λ b. none;
  encode_message = λ m. none;
  decode_result = λ b. some control;
}

abbrev message : String → Message
message dialog = record { method = "rpc"; dialog_id = dialog; riid = ""; body = 0 ∷ [] }

abbrev silent : Message → Option SessionError
silent m = none

abbrev config : SessionConfig
config = record {
  device_id = pos 5;
  dialog_id = "d";
  signal_id = "s";
  control_id = "c";
  heartbeat = pos 5000;
  max_age = pos 0;
  has_send = true;
}

abbrev created : Session
created = record calling { sequence = 0; pending = [] }

new_session-bounds_example :
    (config.dialog_id ≢ "")
    × (config.signal_id ≢ "")
    × (config.control_id ≢ "")
    × (config.signal_id ≢ config.control_id)
    × (0 < 5000)
    × (5000 ≤ 60000)
    × (0 < created.expires_at)
    × (created.expires_at ≤ 0 + 3600000)
    × (created.last_pong ≡ 0)
    × (created.device_id ≡ pos 5)
    × (created.dialog_id ≡ "d")
    × (pos 5000 ≡ pos created.heartbeat)
unfolding new_session
new_session-bounds_example = new_session-bounds codes none 0 config created refl

abbrev no_speed : Option ℕ
no_speed = none

validate-payload_example :
    let p = ptz_payload pan_step none false 1 no_speed (pos 5) "s" control control 9 in
    (ptz_command_method_value p.method ≡ "PTZ.Pan.Step")
    × (p.direction ≡ 1)
    × (1 < 4)
    × (p.speed ≡ no_speed)
    × (is_some no_speed ≡ is_continuous p.method)
    × (p.doorbot_id ≡ pos 5)
    × (p.session_id ≡ "s")
    × (p.control_session_id ≡ control)
    × (p.rpc_id ≡ control)
    × (p.timestamp ≡ 9)
unfolding validate_ptz_command ptz_payload
validate-payload_example =
    validate-payload "PTZ.Pan.Step" 1 no_speed pan_step none false (pos 5) "s" control control 9
      refl

handle-unchanged_example : (handle one_reply 10 calling (message "other")).0 ≡ calling
unfolding belongs
handle-unchanged_example = handle-unchanged one_reply 10 calling (message "other") (inl refl)

handle-reply_example :
    let (t, e) = handle one_reply 10 calling (message "d") in
    ((c : RpcCommand) × (r : RpcReply) × (ch : ℕ) × IsAnswerTo one_reply calling (message "d") c r
      × (lookup c.id calling.pending ≡ some ch)
      × (e ≡ none)
      × AnswersCall one_reply calling c r ch t)
    ⊎ ((t.replies ≡ calling.replies)
        × (t.pending ≡ calling.pending)
        × ((c : RpcCommand) (r : RpcReply) (ch : ℕ)
            → IsAnswerTo one_reply calling (message "d") c r
            → lookup c.id calling.pending ≢ some ch))
handle-reply_example = handle-reply one_reply 10 calling (message "d")

-- The message is taken as the reply to the call.
answered : (handle one_reply 10 calling (message "d")).0.pending ≡ []
unfolding handle lookup decimal delete read_command check_command
answered = refl

finish_lem_example :
    ((finish calling expired).closed ≡ true)
    × ((finish calling expired).terminal ≡ some expired)
    × ((finish calling expired).pending ≡ [])
    × ((id : Bytes) (ch : ℕ)
        → lookup id calling.pending ≡ some ch
        → lookup ch (finish calling expired).replies
          ≡ some (record { result = []; error = some expired }))
    × (finish (finish calling expired) closed_error ≡ finish calling expired)
unfolding lookup
finish_lem_example =
    finish_lem calling expired closed_error
      (record {
        ended = λ e. absurd (cc);
        caused = λ e. absurd (cc);
        within = omega arith;
        opened = ((refl, omega arith, refl), tt);
        fresh = λ ch h. refl;
      })
      refl

end_is_final_example :
    let t = on_tick silent (some (1 ∷ [])) 20000 (finish calling expired) in
    (t.closed ≡ true) × (t.terminal ≡ some expired)
end_is_final_example =
    end_is_final one_reply silent (some (1 ∷ [])) calling
      (on_tick silent (some (1 ∷ [])) 20000 (finish calling expired)) expired refl
      (further here (ticks (finish calling expired) 20000))

new_session-Reach-Inv_example : Inv (handle one_reply 10 created (message "d")).0
unfolding new_session
new_session-Reach-Inv_example =
    new_session-Reach-Inv one_reply silent (some (1 ∷ [])) codes none 0 config created
      (handle one_reply 10 created (message "d")).0 refl
      (further here (handles created 10 (message "d")))
