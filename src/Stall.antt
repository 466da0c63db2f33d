-- ===== src/Stall.antt =====
-- The progress of one git request in githttp.go: `requestProgress`, `progressReader`, the progress
-- that `deadlineWriter` notes, and `watchStall`. What happens to the streams and the timer is a
-- sequence of events, each with the time in nanoseconds at which it happens.
pub mod Steps
pub mod Watch
pub mod Tests
use simple_git_server.Base.{
  ℕ, ◌+◌, ◌/◌, ◌*◌, ◌^◌, Bool, true, false, not, ◌&&◌, List, [], ◌∷◌, if◌then◌else◌, ltb,
}
use simple_git_server.Cgi.{BodyError, no_body_error, too_large, other_body_error}

-- The time between two ticks of the watchdog.
unfoldable pub tick_length : ℕ → ℕ
tick_length idle = if ltb (idle / 4) (10 * 10 ^ 6) then 10 * 10 ^ 6 else idle / 4

-- The progress of the request, whether its watchdog still runs, and what the watchdog has done.
pub record Transfer : Type 0 where
  pub last : ℕ
  pub body_done : Bool
  pub failure : BodyError
  pub watching : Bool
  pub cancelled : Bool
  pub deadline_expired : Bool

-- How a read of the client's body ends.
pub data ReadEnd : Type 0 where
  more eof over_limit broken : ReadEnd

-- A read or a write of some bytes, a tick of the watchdog, or the end of the request.
pub data StreamEvent : Type 0 where
  reads : ℕ → ReadEnd → ℕ → StreamEvent
  writes : ℕ → ℕ → StreamEvent
  tick : ℕ → StreamEvent
  stop : StreamEvent

-- A mark, if some bytes have moved.
unfoldable pub mark : ℕ → ℕ → Transfer → Transfer
mark n now t = if ltb 0 n then record t { last = now } else t

-- failRead: the first error is kept.
unfoldable pub fail_read : BodyError → Transfer → Transfer
fail_read e t = elim (t.failure) [
  | no_body_error ↦ record t { failure = e }
  | too_large ↦ t
  | other_body_error ↦ t
]

unfoldable pub end_read : ReadEnd → Transfer → Transfer
end_read more t = t
end_read eof t = record t { body_done = true }
end_read over_limit t = fail_read too_large t
end_read broken t = fail_read other_body_error t

abbrev pub is_failed : BodyError → Bool
is_failed no_body_error = false
is_failed too_large = true
is_failed other_body_error = true

-- The body of the watchdog's loop on a tick.
unfoldable pub watch_tick : ℕ → ℕ → Transfer → Transfer
watch_tick idle now t =
    if not (is_failed t.failure) && ltb now (t.last + idle)
    then t
    else record t { deadline_expired = not t.body_done; cancelled = true; watching = false }

unfoldable pub on_event : ℕ → Transfer → StreamEvent → Transfer
on_event idle t (reads n e now) = end_read e (mark n now t)
on_event idle t (writes n now) = mark n now t
on_event idle t (tick now) = if t.watching then watch_tick idle now t else t
on_event idle t stop = record t { watching = false }

unfoldable pub run_events : ℕ → Transfer → List StreamEvent → Transfer
run_events idle t [] = t
run_events idle t (e ∷ es) = run_events idle (on_event idle t e) es

-- The transfer when the request starts: the watchdog runs if there is a timeout.
unfoldable pub new_transfer : ℕ → ℕ → Transfer
new_transfer idle now = record {
  last = now;
  body_done = false;
  failure = no_body_error;
  watching = ltb 0 idle;
  cancelled = false;
  deadline_expired = false;
}
