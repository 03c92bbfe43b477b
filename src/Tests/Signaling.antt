-- ===== src/Tests/Signaling.antt =====
-- The theorems on pkg/dependencies/websocket/writer.go at concrete inputs.
use mathlib.Core.List.{Memᴰ}
use go_ring.Common.{ℕ, ◌+◌, ◌≡◌, none, List, [], ◌∷◌, arith}
use go_ring.Signaling.Writer.{WriterJson, Request, SignalingWriter}
use go_ring.Signaling.Writer.Fairness.{Op, enqueue, take, cancel, first, run, takes, served_in_time}
use go_ring.Signaling.Writer.Runner.{System, here, further, sends, send, new_signaling_writer}
use go_ring.Signaling.Writer.Runner.Invariant.{
  Inv, count, queued, held, reachable-Inv, reachable-Conserved,
}

-- A decoder that fails on every text.
abbrev no_json : WriterJson
no_json = record {
  decode_ptz_body = λ b. none;
  decode_object = λ b. none;
  decode_string = λ b. none;
  decode_number_is_zero = λ b. none;
}

abbrev request : ℕ → Request
request id = record {
  id = id;
  message = record { method = "rpc"; dialog_id = "d"; riid = ""; body = [] };
}

abbrev urgent : ℕ → Request
urgent id = record {
  id = id;
  message = record { method = "ping"; dialog_id = "d"; riid = ""; body = [] };
}

abbrev two_queues : SignalingWriter
two_queues = record { priority = urgent 1 ∷ urgent 2 ∷ []; normal = request 7 ∷ []; streak = 0 }

abbrev busy : List Op
busy =
    take
    ∷ enqueue (urgent 3)
    ∷ take
    ∷ enqueue (urgent 4)
    ∷ take
    ∷ cancel 9
    ∷ enqueue (urgent 5)
    ∷ take
    ∷ take
    ∷ []

served_in_time_example : Memᴰ (request 7) (run no_json two_queues busy).1
unfolding takes
served_in_time_example =
    served_in_time no_json (request 7) busy two_queues 0 (first [])
      ((λ e. absurd (omega arith)), tt) (omega arith)

abbrev sent : System
sent = send no_json new_signaling_writer (request 7)

reachable-Inv_example : Inv sent
reachable-Inv_example =
    reachable-Inv no_json sent (further here (sends new_signaling_writer (request 7)))

reachable-Conserved_example :
    count 7 sent.accepted
    ≡ count 7 sent.answered + count 7 sent.canceled + queued 7 sent.writer + held 7 sent.phase
reachable-Conserved_example =
    reachable-Conserved no_json sent 7 (further here (sends new_signaling_writer (request 7)))
