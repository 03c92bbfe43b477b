-- ===== src/Tests/Connection.antt =====
-- The theorems on pkg/ring/signaling_connection.go at a concrete run.
use go_ring.Common.{refl, inl, inr, [], ◌∷◌}
use go_ring.Common.Maps.{lookup, insert, delete, nat_eq_instance, string_eq_instance}
use go_ring.Connection.{
  SignalingConnection, new_connection, negotiation_queue_full, fail, close, begin_fail, run_task,
  perform, tasks, fail_tasks, end_child, register_session, register_playback,
}
use go_ring.Connection.Children.{HasEnded}
use go_ring.Connection.Failing.{fail-ended, close-ended}
use go_ring.Connection.Ending.{
  Reach, starts, more, registers_session, registers_playback, begins_fail, runs_task, EndsOrIsDue,
  Reach-ended,
}

-- A session and a playback.
abbrev two_children : SignalingConnection
two_children = record new_connection { sessions = ("d", 1) ∷ []; playbacks = ("p", 2) ∷ [] }

two_children-Reach : Reach two_children
unfolding new_connection register_session register_playback insert delete
two_children-Reach =
    more (more starts (registers_session "d" 1 new_connection))
      (registers_playback "p" 2 (register_session "d" 1 new_connection))

-- The connection has failed, and the session has ended, but not yet the playback.
abbrev failing : SignalingConnection
failing = run_task (begin_fail negotiation_queue_full two_children)

failing-Reach : Reach failing
failing-Reach =
    more (more two_children-Reach (begins_fail negotiation_queue_full two_children))
      (runs_task (begin_fail negotiation_queue_full two_children))

Reach-ended_example : EndsOrIsDue failing 2
unfolding begin_fail run_task perform fail_tasks tasks end_child new_connection insert lookup
Reach-ended_example = Reach-ended failing-Reach refl "p" 2 (inr (inl refl))

fail-ended_example : HasEnded (fail negotiation_queue_full two_children) 2
unfolding new_connection lookup
fail-ended_example = fail-ended negotiation_queue_full two_children refl "p" 2 (inr (inl refl))

close-ended_example : HasEnded (close two_children) 1
unfolding new_connection lookup
close-ended_example = close-ended two_children refl "d" 1 (inl refl)
