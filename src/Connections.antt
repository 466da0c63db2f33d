-- ===== src/Connections.antt =====
-- The connections of cmd/ssh-read-write/main.go: `acceptLoop`, `handleConn` with its idle watchdog,
-- and `connActivity`. The goroutine of each session is a phase in a list. A time is in nanoseconds.
-- What the SSH library does in the handshake is not part of the model, and a session whose
-- connection is gone leaves it, though its goroutine may still run: only the semaphore of git
-- commands counts it then.
pub mod Steps
pub mod Watchdog
pub mod Server
pub mod Handle
pub mod Runs
pub mod Idle
pub mod Tests
use simple_git_server.Base.{
  ℕ, zero, suc, ◌+◌, ◌-◌, ◌*◌, ◌^◌, ◌≡◌, Bool, true, false, List, [], ◌∷◌, ◌++◌, if◌then◌else◌, ltb,
  leb,
}

abbrev pub max_sessions_per_conn : ℕ
max_sessions_per_conn = 8

abbrev pub default_conn_idle_timeout : ℕ
default_conn_idle_timeout = 120 * 10 ^ 9

-- A session waits for a request, runs a git command, or has run one.
pub data Phase : Type 0 where
  waiting running finished : Phase

-- The goroutines of the sessions, the slots that they use, the activity, and whether the watchdog
-- has closed the connection.
pub record Conn : Type 0 where
  pub goroutines : List Phase
  pub sessions : ℕ
  pub active : ℕ
  pub last_used : ℕ
  pub closed : Bool

-- The connection after the handshake.
abbrev pub fresh : ℕ → Conn
fresh now = record { goroutines = []; sessions = 0; active = 0; last_used = now; closed = false }

-- cfg.connIdle()
unfoldable pub conn_idle : ℕ → ℕ
conn_idle timeout = if ltb 0 timeout then timeout else default_conn_idle_timeout

-- act.begin()
unfoldable pub begin : Conn → Conn
begin c = record c { active = c.active + 1 }

-- act.end()
unfoldable pub end : ℕ → Conn → Conn
end now c = record c { active = c.active - 1; last_used = now }

pub data ChannelType : Type 0 where
  session other_channel : ChannelType

pub data ChannelAnswer : Type 0 where
  unknown_channel_type resource_shortage accept_failed started : ChannelAnswer

abbrev pub accept_channel : Bool → Conn → ChannelAnswer × Conn
accept_channel true c = (started, record c { goroutines = waiting ∷ c.goroutines })
accept_channel false c = (accept_failed, record c { sessions = c.sessions - 1 })

-- The body of the loop over the channels that the client opens; the Boolean is whether
-- `newChannel.Accept` succeeds.
unfoldable pub open_channel : ChannelType → Bool → Conn → ChannelAnswer × Conn
open_channel other_channel accepted c = (unknown_channel_type, c)
open_channel session accepted c =
    if ltb c.sessions max_sessions_per_conn
    then accept_channel accepted (record c { sessions = c.sessions + 1 })
    else (resource_shortage, c)

-- The end of a session's goroutine.
unfoldable pub end_session : Conn → Conn
end_session c = record c { sessions = c.sessions - 1 }

-- One tick of the watchdog.
unfoldable pub watch : ℕ → ℕ → Conn → Conn
watch idle now c =
    if ltb 0 c.active
    then record c { last_used = now }
    else if leb (c.last_used + idle) now
    then record c { closed = true }
    else c

-- The connections that are handled, and the slots that they use.
pub record Listener : Type 0 where
  pub conns : List Conn
  pub conn_sem : ℕ

-- The body of the accept loop: a new connection is handled, or closed at once.
unfoldable pub accept_conn : ℕ → ℕ → Listener → Bool × Listener
accept_conn max_conns now l =
    if ltb l.conn_sem max_conns
    then (true, record { conns = fresh now ∷ l.conns; conn_sem = l.conn_sem + 1 })
    else (false, l)

-- The end of a connection's goroutine.
unfoldable pub end_conn : Listener → Listener
end_conn l = record l { conn_sem = l.conn_sem - 1 }
