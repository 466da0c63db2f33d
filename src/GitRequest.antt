-- ===== src/GitRequest.antt =====
-- One git request of githttp.go from the start of git on: `runGitCGIRequest` with the count of
-- running git commands of main.go, `gitBegin` and `gitEnd`. The watchdog, the streams, the client
-- that goes away and the shutdown of the server are a sequence of events. What the git child
-- writes, when it is killed or not, is a parameter; it is none for a child that does not end.
pub mod Replies
pub mod Tests
use simple_git_server.Base.{
  ℕ, ◌+◌, ◌-◌, Bool, true, false, ◌||◌, Option, none, some, List, [], ◌∷◌, ◌++◌,
}
use simple_git_server.Cgi.{Child, Reply, run_git_cgi}
use simple_git_server.Stall.{StreamEvent, Transfer, run_events, new_transfer}

-- Something happens to the streams or the timer of the request, the client goes away, which ends
-- `r.Context()`, or the server shuts down.
pub data RequestEvent : Type 0 where
  streams : StreamEvent → RequestEvent
  client_gone shutting_down : RequestEvent

-- What happens to the streams.
abbrev pub stream_events : List RequestEvent → List StreamEvent
stream_events [] = []
stream_events (streams e ∷ es) = e ∷ stream_events es
stream_events (client_gone ∷ es) = stream_events es
stream_events (shutting_down ∷ es) = stream_events es

-- The client goes away or the server shuts down before the request ends.
abbrev pub context_done : List RequestEvent → Bool
context_done [] = false
context_done (streams e ∷ es) = context_done es
context_done (client_gone ∷ es) = true
context_done (shutting_down ∷ es) = true

unfoldable pub git_begin : ℕ → ℕ
git_begin active = active + 1

unfoldable pub git_end : ℕ → ℕ
git_end active = active - 1

-- The command's context is cancelled before the request ends: by its watchdog, or from outside.
unfoldable pub request_cancelled : ℕ → ℕ → List RequestEvent → Bool
request_cancelled idle now events =
    (run_events idle (new_transfer idle now) (stream_events events)).cancelled
    || context_done events

-- The reply, which is none if the request never ends, whether the command's context was cancelled,
-- and the count of running git commands while it ran and afterwards.
pub record Answered : Type 0 where
  pub reply : Option Reply
  pub cancelled : Bool
  pub active_during : ℕ
  pub active_after : ℕ

-- `events` are those until the request ends, if it does.
unfoldable pub run_git_cgi_request :
    (Bool → Option Child) → ℕ → ℕ → List RequestEvent → ℕ → Answered
unfolding git_begin git_end
run_git_cgi_request child idle now events active =
    let t = run_events idle (new_transfer idle now) (stream_events events) in
    let cancelled = request_cancelled idle now events in
    elim (child cancelled) [
      | none ↦ record {
        reply = none;
        cancelled = cancelled;
        active_during = git_begin active;
        active_after = git_begin active;
      }
      | some c ↦ record {
        reply = some (run_git_cgi c t.failure);
        cancelled = cancelled;
        active_during = git_begin active;
        active_after = git_end (git_begin active);
      }
    ]
