-- ===== src/SshStall.antt =====
-- The progress of a git command over SSH in cmd/ssh-read-write/session.go: `progress`,
-- `progressReader`, `progressWriter` and `watchGitStall`. What happens to the streams and the
-- ticker is a sequence of events, each with the time in nanoseconds at which it happens.
pub mod Watch
pub mod Tests
use simple_git_server.Base.{
  ℕ, ◌+◌, ◌/◌, ◌*◌, ◌^◌, Bool, true, false, List, [], ◌∷◌, if◌then◌else◌, ltb, leb,
}

-- The time between two ticks of the watchdog.
unfoldable pub git_tick_length : ℕ → ℕ
git_tick_length idle = if ltb (idle / 4) (100 * 10 ^ 6) then 100 * 10 ^ 6 else idle / 4

-- When bytes last moved, whether the watchdog runs, and what it has done.
pub record GitSession : Type 0 where
  pub last : ℕ
  pub watching : Bool
  pub cancelled : Bool
  pub channel_closed : Bool

-- A read from the channel or a write to it of some bytes, a tick, or the end of the command.
pub data GitEvent : Type 0 where
  reads writes : ℕ → ℕ → GitEvent
  tick : ℕ → GitEvent
  stop : GitEvent

-- A mark, if some bytes have moved.
unfoldable pub mark_moved : ℕ → ℕ → GitSession → GitSession
mark_moved n now s = if ltb 0 n then record s { last = now } else s

-- The body of the watchdog's loop on a tick.
unfoldable pub git_watch_tick : ℕ → ℕ → GitSession → GitSession
git_watch_tick idle now s =
    if leb (s.last + idle) now
    then record s { cancelled = true; channel_closed = true; watching = false }
    else s

unfoldable pub on_git_event : ℕ → GitSession → GitEvent → GitSession
unfolding mark_moved git_watch_tick
on_git_event idle s (reads n now) = mark_moved n now s
on_git_event idle s (writes n now) = mark_moved n now s
on_git_event idle s (tick now) = if s.watching then git_watch_tick idle now s else s
on_git_event idle s stop = record s { watching = false }

unfoldable pub run_git_events : ℕ → GitSession → List GitEvent → GitSession
run_git_events idle s [] = s
run_git_events idle s (e ∷ es) = run_git_events idle (on_git_event idle s e) es

-- The session when git is started: the watchdog runs if there is a timeout.
unfoldable pub new_git_session : ℕ → ℕ → GitSession
new_git_session idle now = record {
  last = now;
  watching = ltb 0 idle;
  cancelled = false;
  channel_closed = false;
}
