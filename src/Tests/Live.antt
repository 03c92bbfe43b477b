-- ===== src/Tests/Live.antt =====
-- The theorem on pkg/dependencies/websocket/live_negotiation.go at a concrete input.
use mathlib.Core.List.{Memᴰ}
use Prim.Native.String.{String}
use go_ring.Common.{◌≢◌, refl, none, some, List, [], ◌∷◌}
use go_ring.Common.Int.{pos}
use go_ring.Common.Maps.{lookup}
use go_ring.Signaling.Message.{Message}
use go_ring.Live.{LiveNegotiation, NegotiationJson, Arrival, message, await_live_answer}
use go_ring.Live.Answer.{IsInterval, FromAnswer, await_live_answer-ok}

-- A decoder that reads every text as the same bodies.
abbrev one_body : NegotiationJson
one_body = record {
  decode_created = λ b. some (record { doorbot_id = pos 5; session_id = "s" });
  decode_object = λ b. some (("session_info", 1 ∷ []) ∷ []);
  decode_int = λ b. none;
  decode_answer = λ b. some (record {
    doorbot_id = pos 5;
    session_id = "s";
    sdp = "v=0";
    reserved_type = "answer";
    session_info = some "c";
  });
}

abbrev of_method : String → Arrival
of_method m = message (record { method = m; dialog_id = "d"; riid = "r"; body = [] })

abbrev arrivals : List Arrival
arrivals = of_method "session_created" ∷ of_method "sdp" ∷ []

abbrev negotiated : LiveNegotiation
negotiated = record {
  signal_id = "s";
  riid = "r";
  answer_sdp = "v=0";
  control_id = "c";
  heartbeat = 5000;
}

await_live_answer-ok_example :
    (m : Message) × Memᴰ (message m) arrivals
    × FromAnswer one_body (pos 5) m negotiated
    × IsInterval negotiated.heartbeat
    × (negotiated.signal_id ≢ "")
    × (negotiated.answer_sdp ≢ "")
unfolding await_live_answer lookup
await_live_answer-ok_example = await_live_answer-ok one_body (pos 5) arrivals negotiated refl
