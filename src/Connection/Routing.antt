-- ===== src/Connection/Routing.antt =====
-- What a message that was received does to the children: `route` of pkg/ring/signaling_connection.go.
use text.Mathlib.Text.{◌==◌ as str_eq}
use go_ring.Common.{
  ℕ, ◌≡◌, refl, ◌⊎◌, inl, inr, Option, none, some, List, [], ◌∷◌, ◌++◌, length, ltb, Bool-cases,
  Option-cases,
}
use go_ring.Common.Maps.{lookup, insert, nat_eq_instance, string_eq_instance}
use go_ring.Signaling.Message.{Message, method_close, method_pong}
use go_ring.Connection.{
  ConnectionError, negotiation_queue_full, push_queue_full, backpressure, closed_error, Found,
  SignalingConnection, terminate_playback, begin_fail, send_or, handle_playback, handle_session,
  queue_overflow, deliver, receive, negotiation_queue_capacity,
}
use go_ring.Connection.Children.{
  Later, Later-refl, Later-trans, Later-queues, Later-end_child, terminate_push-EndsChild,
  terminate_playback-EndsChild,
}

-- What a message does to the rest: it fails the connection, or leaves it as open as it is.
abbrev pub Delivered : SignalingConnection → SignalingConnection → Type 1
Delivered s t = Later s t ⊎ ((e : ConnectionError) × (t ≡ begin_fail e s))

send_or-Delivered :
    (channel : ℕ) (m : Message) (otherwise : SignalingConnection → SignalingConnection)
    (s : SignalingConnection)
    → Delivered s (otherwise s)
    → Delivered s (send_or channel m otherwise s)
unfolding send_or
send_or-Delivered channel m otherwise s d =
    let queue : List Message = elim (lookup channel s.queues) [ none ↦ [] | some q ↦ q ] in
    elim (Bool-cases (ltb (length queue) negotiation_queue_capacity)) [
      | inl room ↦
          rw (room, send_or)
            (inl (
              Later-queues s s.done s.terminal s.pending s.channels
                (insert channel (queue ++ m ∷ []) s.queues) s.handled s.held))
      | inr full ↦ rw (full, send_or) d
    ]

handle_playback-Delivered :
    (playback : ℕ) (m : Message) (s : SignalingConnection)
    → Delivered s (handle_playback playback m s)
unfolding handle_playback
handle_playback-Delivered playback m s = elim (Bool-cases (str_eq m.method method_pong)) [
  | inl pong ↦ rw (pong, handle_playback) (inl (Later-refl s))
  | inr other ↦ elim (Bool-cases (str_eq m.method method_close)) [
    | inl over ↦
        rw (other, over, handle_playback)
          (inl (terminate_playback-EndsChild closed_error m.dialog_id playback s).0)
    | inr event ↦
        rw (other, event, handle_playback)
          (send_or-Delivered playback m (terminate_playback backpressure m.dialog_id playback) s
            (inl (terminate_playback-EndsChild backpressure m.dialog_id playback s).0))
  ]
]

handle_session-Later :
    (outcome : Option ConnectionError) (session : ℕ) (m : Message) (s : SignalingConnection)
    → Later s (handle_session outcome session m s)
unfolding handle_session
handle_session-Later outcome session m s =
    let handled = s.handled ++ (session, m) ∷ [] in
    let l = Later-queues s s.done s.terminal s.pending s.channels s.queues handled s.held in
    ended outcome l
  where
    ended :
        (o : Option ConnectionError)
        → Later s (record s { handled = s.handled ++ (session, m) ∷ [] })
        → Later s (handle_session o session m s)
    ended none l = l
    ended (some e) l =
        Later-trans l
          (Later-end_child e session (record s { handled = s.handled ++ (session, m) ∷ [] }))

queue_overflow-Delivered :
    (m : Message) (push : Option ℕ) (s : SignalingConnection)
    → Delivered s (queue_overflow m push s)
unfolding queue_overflow
queue_overflow-Delivered m (some push) s =
    inl (terminate_push-EndsChild push_queue_full m.dialog_id push s).0
queue_overflow-Delivered m none s = inr (negotiation_queue_full, refl)

pub deliver-Delivered :
    (outcome : Option ConnectionError) (m : Message) (found : Found) (s : SignalingConnection)
    → Delivered s (deliver outcome m found s)
unfolding deliver
deliver-Delivered outcome m found s = elim (Option-cases found.pending) [
  | inr (channel, p) ↦
      rw (p, deliver)
        (send_or-Delivered channel m (begin_fail negotiation_queue_full) s
          (inr (negotiation_queue_full, refl)))
  | inl p ↦ elim (Option-cases found.session) [
    | inr (session, q) ↦ rw (p, q, deliver) (inl (handle_session-Later outcome session m s))
    | inl q ↦ elim (Option-cases found.playback) [
      | inr (playback, r) ↦ rw (p, q, r, deliver) (handle_playback-Delivered playback m s)
      | inl r ↦ elim (Option-cases found.channel) [
        | inr (channel, c) ↦
            rw (p, q, r, c, deliver)
              (send_or-Delivered channel m (queue_overflow m found.push) s
                (queue_overflow-Delivered m found.push s))
        | inl c ↦ rw (p, q, r, c, deliver) (inl (Later-refl s))
      ]
    ]
  ]
]

pub receive-Later : (channel : ℕ) (s : SignalingConnection) → Later s (receive channel s)
unfolding receive
receive-Later channel s = go (lookup channel s.queues) refl
  where
    go : (o : Option (List Message)) → lookup channel s.queues ≡ o → Later s (receive channel s)
    go none e = rw (e, receive) (Later-refl s)
    go (some []) e = rw (e, receive) (Later-refl s)
    go (some (m ∷ queue)) e =
        rw (e, receive)
          (Later-queues s s.done s.terminal s.pending s.channels (insert channel queue s.queues)
            s.handled s.held)
