-- ===== src/Connection.antt =====
-- pkg/ring/signaling_connection.go with the registration functions of signaling_extras.go and
-- device_session_start.go: which messages go where, and how a connection ends. Sessions are named by
-- numbers, playbacks and push subscriptions by the number of their channel of events. What a call does
-- behind an unlock of `c.mu` is a function of its own, so that others can come in between.
pub mod Children
pub mod Failing
pub mod Routing
pub mod Ending
use Prim.Native.String.{String}
use text.Mathlib.Text.{◌==◌ as str_eq}
use go_ring.Common.{
  ℕ, Bool, true, false, Option, none, some, List, [], ◌∷◌, ◌++◌, length, ltb, if◌then◌else◌,
}
use go_ring.Common.Maps.{Map, lookup, insert, delete, string_eq_instance, nat_eq_instance}
use go_ring.Signaling.Message.{Message, method_close, method_pong}

-- Errors by their text; `cause` stands for an error of the layer below.
pub data ConnectionError : Type 0 where
  closed_error negotiation_queue_full push_queue_full backpressure : ConnectionError
  cause : ℕ → ConnectionError

-- What `fail` and `Close` do to the children, one call or one hold of the lock each.
pub data Task : Type 0 where
  end_session end_playback end_push : ConnectionError → String → ℕ → Task
  close_session : String → ℕ → Task
  set_done : Task

-- What `route` reads under the lock.
pub record Found : Type 0 where
  pub pending : Option ℕ
  pub session : Option ℕ
  pub channel : Option ℕ
  pub playback : Option ℕ
  pub push : Option ℕ

-- `queues` holds what is in each channel, `ended` the first cause that each child was terminated with
-- and `handled` the messages that were given to sessions. `todo` is what is left of the call of `fail`
-- or `Close` that closed the connection, and `held` the message that the reader has looked up.
pub record SignalingConnection : Type 0 where
  pub closed : Bool
  pub done : Bool
  pub terminal : Option ConnectionError
  pub pending : Map String ℕ
  pub channels : Map String ℕ
  pub queues : Map ℕ (List Message)
  pub sessions : Map String ℕ
  pub playbacks : Map String ℕ
  pub pushes : Map String ℕ
  pub ended : Map ℕ ConnectionError
  pub handled : List (ℕ × Message)
  pub todo : List Task
  pub held : Option (Message × Found)

abbrev pub negotiation_queue_capacity : ℕ
negotiation_queue_capacity = 128

unfoldable pub new_connection : SignalingConnection
new_connection = record {
  closed = false;
  done = false;
  terminal = none;
  pending = [];
  channels = [];
  queues = [];
  sessions = [];
  playbacks = [];
  pushes = [];
  ended = [];
  handled = [];
  todo = [];
  held = none;
}

-- `DeviceSession.terminate`, which does not touch the connection. A child ends once: the test of
-- `closed`, or sync.Once.
unfoldable pub end_child : ConnectionError → ℕ → SignalingConnection → SignalingConnection
end_child e child s = elim (lookup child s.ended) [
  | some before ↦ s
  | none ↦ record s { ended = insert child e s.ended }
]

-- The three ends of a child that also leaves the maps.
unfoldable pub end_and :
    (SignalingConnection → SignalingConnection)
    → ConnectionError
    → ℕ
    → SignalingConnection
    → SignalingConnection
unfolding end_child
end_and remove e child s = elim (lookup child s.ended) [
  | some before ↦ s
  | none ↦ remove (end_child e child s)
]

unfoldable pub remove_channel : String → SignalingConnection → SignalingConnection
remove_channel name s = record s {
  channels = delete name s.channels;
  pushes = delete name s.pushes;
}

unfoldable pub remove_playback : String → SignalingConnection → SignalingConnection
remove_playback dialog s = record s {
  playbacks = delete dialog s.playbacks;
  channels = delete dialog s.channels;
}

unfoldable pub remove_session : String → SignalingConnection → SignalingConnection
remove_session dialog s = record s {
  sessions = delete dialog s.sessions;
  pending = delete dialog s.pending;
}

-- `PushSubscription.terminate`
unfoldable pub terminate_push :
    ConnectionError → String → ℕ → SignalingConnection → SignalingConnection
unfolding end_and remove_channel
terminate_push e dialog push s = end_and (remove_channel dialog) e push s

-- `PlaybackSession.terminate`
unfoldable pub terminate_playback :
    ConnectionError → String → ℕ → SignalingConnection → SignalingConnection
unfolding end_and remove_playback
terminate_playback e dialog playback s = end_and (remove_playback dialog) e playback s

-- `DeviceSession.closeWithContext`, as far as the connection sees it.
unfoldable pub shut_session : String → ℕ → SignalingConnection → SignalingConnection
unfolding end_and remove_session
shut_session dialog session s = end_and (remove_session dialog) closed_error session s

unfoldable pub perform : Task → SignalingConnection → SignalingConnection
unfolding end_child terminate_playback terminate_push shut_session
perform (end_session e dialog session) s = end_child e session s
perform (end_playback e dialog playback) s = terminate_playback e dialog playback s
perform (end_push e dialog push) s = terminate_push e dialog push s
perform (close_session dialog session) s = shut_session dialog session s
perform set_done s = record s { done = true; terminal = some closed_error }

unfoldable pub run_tasks : List Task → SignalingConnection → SignalingConnection
unfolding perform
run_tasks [] s = s
run_tasks (t ∷ ts) s = run_tasks ts (perform t s)

-- A loop over children that were read from a map.
unfoldable pub tasks : (String → ℕ → Task) → Map String ℕ → List Task
tasks f [] = []
tasks f ((dialog, child) ∷ rest) = f dialog child ∷ tasks f rest

unfoldable pub fail_tasks : ConnectionError → SignalingConnection → List Task
unfolding tasks
fail_tasks e s =
    tasks (end_session e) s.sessions
    ++ tasks (end_playback e) s.playbacks
    ++ tasks (end_push e) s.pushes

unfoldable pub close_tasks : SignalingConnection → List Task
unfolding tasks
close_tasks s =
    tasks close_session s.sessions
    ++ set_done ∷ tasks (end_playback closed_error) s.playbacks
    ++ tasks (end_push closed_error) s.pushes

abbrev pub mark_failed : ConnectionError → SignalingConnection → SignalingConnection
mark_failed e s = record s { closed = true; done = true; terminal = some e }

abbrev pub mark_closed : SignalingConnection → SignalingConnection
mark_closed s = record s { closed = true }

-- `fail` up to its unlock.
unfoldable pub begin_fail : ConnectionError → SignalingConnection → SignalingConnection
unfolding fail_tasks
begin_fail e s = if s.closed then s else record (mark_failed e s) { todo = fail_tasks e s }

-- `Close` up to its first unlock; a second call only waits.
unfoldable pub begin_close : SignalingConnection → SignalingConnection
unfolding close_tasks
begin_close s = if s.closed then s else record (mark_closed s) { todo = close_tasks s }

-- The next step of the call that closed the connection.
unfoldable pub run_task : SignalingConnection → SignalingConnection
unfolding perform
run_task s = elim s.todo [ [] ↦ s | t ∷ ts ↦ perform t (record s { todo = ts }) ]

-- `fail` and `Close` where nothing comes in between.
unfoldable pub fail : ConnectionError → SignalingConnection → SignalingConnection
unfolding fail_tasks run_tasks
fail e s = if s.closed then s else run_tasks (fail_tasks e s) (mark_failed e s)

unfoldable pub close : SignalingConnection → SignalingConnection
unfolding close_tasks run_tasks
close s = if s.closed then s else run_tasks (close_tasks s) (mark_closed s)

-- The select with a default: a send to a channel that has room, or the default.
unfoldable pub send_or :
    ℕ
    → Message
    → (SignalingConnection → SignalingConnection)
    → SignalingConnection
    → SignalingConnection
send_or channel m otherwise s =
    let queue : List Message = elim (lookup channel s.queues) [ none ↦ [] | some q ↦ q ] in
    if ltb (length queue) negotiation_queue_capacity
    then record s { queues = insert channel (queue ++ m ∷ []) s.queues }
    else otherwise s

-- `PlaybackSession.handle`; the time of the last pong is not part of the model.
unfoldable pub handle_playback : ℕ → Message → SignalingConnection → SignalingConnection
unfolding terminate_playback send_or
handle_playback playback m s =
    if str_eq m.method method_pong
    then s
    else if str_eq m.method method_close
    then terminate_playback closed_error m.dialog_id playback s
    else send_or playback m (terminate_playback backpressure m.dialog_id playback) s

-- `DeviceSession.handle`; `outcome` is the error that it ends the session with, if it does.
unfoldable pub handle_session :
    Option ConnectionError → ℕ → Message → SignalingConnection → SignalingConnection
unfolding end_child
handle_session outcome session m s =
    let t = record s { handled = s.handled ++ (session, m) ∷ [] } in
    elim outcome [ none ↦ t | some e ↦ end_child e session t ]

-- `route` under the lock ...
unfoldable pub look_up : Message → SignalingConnection → Found
look_up m s = record {
  pending = lookup m.dialog_id s.pending;
  session = lookup m.dialog_id s.sessions;
  channel = lookup m.dialog_id s.channels;
  playback = lookup m.dialog_id s.playbacks;
  push = lookup m.dialog_id s.pushes;
}

-- ... and behind it.
unfoldable pub queue_overflow : Message → Option ℕ → SignalingConnection → SignalingConnection
unfolding terminate_push begin_fail
queue_overflow m (some push) s = terminate_push push_queue_full m.dialog_id push s
queue_overflow m none s = begin_fail negotiation_queue_full s

unfoldable pub deliver :
    Option ConnectionError → Message → Found → SignalingConnection → SignalingConnection
unfolding send_or handle_session handle_playback queue_overflow begin_fail
deliver outcome m found s = elim found.pending [
  | some channel ↦ send_or channel m (begin_fail negotiation_queue_full) s
  | none ↦ elim found.session [
    | some session ↦ handle_session outcome session m s
    | none ↦ elim found.playback [
      | some playback ↦ handle_playback playback m s
      | none ↦ elim found.channel [
        | some channel ↦ send_or channel m (queue_overflow m found.push) s
        | none ↦ s
      ]
    ]
  ]
]

-- The receipt of a message from a channel, by the caller that waits for it.
unfoldable pub receive : ℕ → SignalingConnection → SignalingConnection
receive channel s = elim (lookup channel s.queues) [
  | some (m ∷ queue) ↦ record s { queues = insert channel queue s.queues }
  | _ ↦ s
]

-- The parts of `prepareDeviceSession`, `startAndRegisterDeviceSession`, `registerChannel`,
-- `SubscribePush` and `StartPlayback` that register.
unfoldable pub register_pending : String → ℕ → SignalingConnection → SignalingConnection
register_pending dialog channel s =
    if s.closed then s else record s { pending = insert dialog channel s.pending }

-- The end of a negotiation that failed.
unfoldable pub remove_pending : String → SignalingConnection → SignalingConnection
remove_pending dialog s = record s { pending = delete dialog s.pending }

unfoldable pub register_session : String → ℕ → SignalingConnection → SignalingConnection
register_session dialog session s =
    let t = record s { pending = delete dialog s.pending } in
    if s.closed then t else record t { sessions = insert dialog session s.sessions }

unfoldable pub register_channel : String → ℕ → SignalingConnection → SignalingConnection
register_channel name channel s =
    if s.closed then s else record s { channels = insert name channel s.channels }

unfoldable pub register_push : String → ℕ → SignalingConnection → SignalingConnection
register_push dialog push s =
    if s.closed then s else record s { pushes = insert dialog push s.pushes }

unfoldable pub register_playback : String → ℕ → SignalingConnection → SignalingConnection
register_playback dialog playback s =
    if s.closed then s else record s { playbacks = insert dialog playback s.playbacks }
