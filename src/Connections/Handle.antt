-- ===== src/Connections/Handle.antt =====
-- `handleConn` from its start to its end: the handshake, what happens on the connection in its
-- order, and the deferred calls. The log lines are left out, and channels may still be opened after
-- the watchdog has closed the socket, as long as the SSH library has some to hand out.
use simple_git_server.Base.{
  ℕ, ◌+◌, ◌*◌, ◌/◌, ◌^◌, Bool, true, false, List, [], ◌∷◌, ◌++◌, if◌then◌else◌, Option, none, some,
}
use simple_git_server.Connections.{
  Phase, waiting, running, finished, Conn, fresh, conn_idle, begin, end, ChannelType, ChannelAnswer,
  open_channel, end_session, watch,
}

abbrev pub ssh_handshake_timeout : ℕ
ssh_handshake_timeout = 30 * 10 ^ 9

-- The client opens a channel, a session starts git, the git command of a session ends, a session
-- goes away, or the ticker of the watchdog fires. Sessions differ by their phase only.
pub data ConnEvent : Type 0 where
  channel_opened : ChannelType → Bool → ConnEvent
  git_started : ConnEvent
  git_ended : ℕ → ConnEvent
  session_left : ConnEvent
  ticked : ℕ → ConnEvent

-- What the code does to the socket and to the SSH connection; `idle_closed` is the close by the
-- watchdog, with its time.
pub data ConnEffect : Type 0 where
  deadline_set : ℕ → ConnEffect
  deadline_cleared requests_discarded watchdog_started : ConnEffect
  channel_answered : ChannelAnswer → ConnEffect
  idle_closed : ℕ → ConnEffect
  watchdog_stopped ssh_closed socket_closed : ConnEffect

abbrev pub is_waiting : Phase → Bool
is_waiting waiting = true
is_waiting _ = false

abbrev pub is_running : Phase → Bool
is_running running = true
is_running _ = false

abbrev pub is_at_rest : Phase → Bool
is_at_rest running = false
is_at_rest _ = true

abbrev pub behind : Phase → Option (List Phase) → Option (List Phase)
behind g none = none
behind g (some gs) = some (g ∷ gs)

-- The list with `new` in the place of the first phase that passes the test.
abbrev pub put_first : (Phase → Bool) → List Phase → List Phase → Option (List Phase)
put_first p new [] = none
put_first p new (g ∷ gs) = if p g then some (new ++ gs) else behind g (put_first p new gs)

-- The connection `d` with these goroutines, or `c` if no session is in the phase for the event.
abbrev pub with_goroutines : Conn → Conn → Option (List Phase) → Conn
with_goroutines c d none = c
with_goroutines c d (some gs) = record d { goroutines = gs }

-- A tick that reaches a watchdog that has not closed the connection yet.
unfoldable pub tick_conn : ℕ → ℕ → Conn → List ConnEffect × Conn
tick_conn idle now c =
    if c.closed
    then ([], c)
    else (if (watch idle now c).closed then idle_closed now ∷ [] else [], watch idle now c)

-- One event, and what is done about it.
unfoldable pub on_conn_event : ℕ → ConnEvent → Conn → List ConnEffect × Conn
on_conn_event idle (channel_opened kind accepted) c =
    (channel_answered (open_channel kind accepted c).0 ∷ [], (open_channel kind accepted c).1)
on_conn_event idle git_started c =
    ([], with_goroutines c (begin c) (put_first is_waiting (running ∷ []) c.goroutines))
on_conn_event idle (git_ended now) c =
    ([], with_goroutines c (end now c) (put_first is_running (finished ∷ []) c.goroutines))
on_conn_event idle session_left c =
    ([], with_goroutines c (end_session c) (put_first is_at_rest [] c.goroutines))
on_conn_event idle (ticked now) c = tick_conn idle now c

-- What is done, in order, until the client opens no more channels.
unfoldable pub serve_channels : ℕ → List ConnEvent → Conn → List ConnEffect
serve_channels idle [] c = []
serve_channels idle (e ∷ es) c =
    (on_conn_event idle e c).0 ++ serve_channels idle es (on_conn_event idle e c).1

-- The connection after these events.
abbrev pub conn_after : ℕ → List ConnEvent → Conn → Conn
conn_after idle [] c = c
conn_after idle (e ∷ es) c = conn_after idle es (on_conn_event idle e c).1

-- The connection that arrives at the time `now`; the handshake fails, or ends at the time that is
-- given.
unfoldable pub handle_conn : ℕ → ℕ → Option ℕ → List ConnEvent → List ConnEffect
handle_conn timeout now none events =
    deadline_set (now + ssh_handshake_timeout) ∷ socket_closed ∷ []
handle_conn timeout now (some later) events =
    deadline_set (now + ssh_handshake_timeout)
    ∷ deadline_cleared
    ∷ requests_discarded
    ∷ watchdog_started
    ∷ (serve_channels (conn_idle timeout) events (fresh later)
        ++ (watchdog_stopped ∷ ssh_closed ∷ socket_closed ∷ []))

-- The period of the watchdog's ticker.
unfoldable pub conn_tick_length : ℕ → ℕ
conn_tick_length timeout = conn_idle timeout / 4
