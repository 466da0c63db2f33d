-- ===== src/Exchange.antt =====
-- One HTTP request from end to end, as `newRootHandler` of main.go handles it: the route, the git
-- handler of githttp.go with its slot and its command, the go-import pages of goimport.go, and the
-- answer.
pub mod Commands
pub mod Ending
pub mod Body
pub mod Tests
use simple_git_server.Base.{
  ℕ, ◌-◌, ◌+◌, Bool, true, false, List, [], ◌∷◌, ◌++◌, Option, none, some, if◌then◌else◌, leb,
}
use simple_git_server.Text.{Bytes, codes}
use simple_git_server.Config.{ServerConfig, max_request_body}
use simple_git_server.Containment.{FileSystem}
use simple_git_server.Routing.{Route, path_too_long, git, pulse, go_import, not_found, route}
use simple_git_server.Backend
use simple_git_server.Backend.{HttpRequest, GitCommand, Served, ServerEnv, Slots, serve_git}
use simple_git_server.Cgi.{Child, CgiResponse, Reply, error_page, sent, aborted}
use simple_git_server.GoImport.{GoImport, no_such_project, no_page, page, serve_go_import}
use simple_git_server.GitRequest.{
  RequestEvent, streams, client_gone, shutting_down, Answered, run_git_cgi_request,
}
use simple_git_server.Stall.{StreamEvent, reads, writes, tick, stop, over_limit}

-- What the client gets: an error page with its status, the response of git, the page of a project,
-- or the line with the version. The connection may be closed instead, and git may not end;
-- `unanswered` means that the fuel of the containment check ran out.
pub data Answer : Type 0 where
  error_answer : ℕ → Bytes → Answer
  git_answer : CgiResponse → Answer
  page_answer : Bytes → Answer
  pulse_answer connection_closed never_ends unanswered : Answer

-- What a request did: its answer, the command that ran for it, the slots and the count of running
-- git commands while it was served, both afterwards, and how many bytes of the body git was given.
pub record Exchange : Type 0 where
  pub answer : Answer
  pub ran : Option GitCommand
  pub slots_during : Slots
  pub active_during : ℕ
  pub slots_after : Slots
  pub active_after : ℕ
  pub given : ℕ

abbrev pub reply_answer : Option Reply → Answer
reply_answer none = never_ends
reply_answer (some (error_page code msg)) = error_answer code msg
reply_answer (some (sent response)) = git_answer response
reply_answer (some aborted) = connection_closed

abbrev pub page_not_found : Answer
page_not_found = error_answer 404 (codes "404 page not found")

abbrev pub import_answer : GoImport → Answer
import_answer no_such_project = page_not_found
import_answer no_page = unanswered
import_answer (page body) = page_answer body

-- The answer of a handler that runs nothing.
abbrev pub without_git : Slots → ℕ → Answer → Exchange
without_git slots active a = record {
  answer = a;
  ran = none;
  slots_during = slots;
  active_during = active;
  slots_after = slots;
  active_after = active;
  given = 0;
}

-- The events without the reads, which end with an error.
abbrev pub without_reads : List RequestEvent → List RequestEvent
without_reads [] = []
without_reads (streams (reads n e now) ∷ es) = without_reads es
without_reads (e ∷ es) = e ∷ without_reads es

-- The events when the body is read through `http.MaxBytesReader`: it delivers the bytes up to the
-- limit, and then an error instead of more.
unfoldable pub limit_body : ℕ → List RequestEvent → List RequestEvent
limit_body limit [] = []
limit_body limit (streams (reads n e now) ∷ es) =
    let rest = streams (reads n e now) ∷ limit_body (limit - n) es in
    if leb n limit then rest else streams (reads limit over_limit now) ∷ without_reads es
limit_body limit (streams (writes n now) ∷ es) = streams (writes n now) ∷ limit_body limit es
limit_body limit (streams (tick now) ∷ es) = streams (tick now) ∷ limit_body limit es
limit_body limit (streams stop ∷ es) = streams stop ∷ limit_body limit es
limit_body limit (client_gone ∷ es) = client_gone ∷ limit_body limit es
limit_body limit (shutting_down ∷ es) = shutting_down ∷ limit_body limit es

-- The bytes that the reads of the body deliver.
abbrev pub body_length : List RequestEvent → ℕ
body_length [] = 0
body_length (streams (reads n e now) ∷ es) = n + body_length es
body_length (_ ∷ es) = body_length es

-- A request to git, when the handler has decided; `during` and `slots` are while and afterwards, if
-- git ends.
abbrev pub after_serving :
    (GitCommand → Bool → Option Child)
    → ℕ
    → ℕ
    → List RequestEvent
    → ℕ
    → Slots
    → Slots
    → Served
    → Exchange
after_serving child idle now events active during slots (Backend.rejected code msg) =
    record (without_git slots active (error_answer code msg)) { slots_during = during }
after_serving child idle now events active during slots Backend.busy =
    record (without_git slots active
      (error_answer 503 (codes "too many concurrent git requests"))) { slots_during = during }
after_serving child idle now events active during slots (Backend.not_found e) =
    record (without_git slots active page_not_found) { slots_during = during }
after_serving child idle now events active during slots Backend.no_answer =
    record (without_git slots active unanswered) { slots_during = during }
after_serving child idle now events active during slots (Backend.runs command) =
    let a = run_git_cgi_request (child command) idle now events active in
    record {
      answer = reply_answer a.reply;
      ran = some command;
      slots_during = during;
      active_during = a.active_during;
      slots_after = elim (a.reply) [ none ↦ during | some r ↦ slots ];
      active_after = a.active_after;
      given = body_length events;
    }

module _ (fs : FileSystem) (look_path : Bytes → Option Bytes) (env : ServerEnv) (cfg : ServerConfig)
    (child : GitCommand → Bool → Option Child) where
  -- `child` is what a command writes, when it is killed or not, or none if it does not end;
  -- `events` is what happens while it runs, with the reads of the body as the client sends it.
  unfoldable pub handle : ℕ → List RequestEvent → HttpRequest → Slots → ℕ → Exchange
  handle now events r slots active = elim (route cfg r.path) [
    | path_too_long ↦ without_git slots active (error_answer 414 (codes "request path too long"))
    | git ↦
        let served = serve_git fs look_path env cfg r slots in
        after_serving child cfg.git_idle_timeout now (limit_body (max_request_body cfg) events)
          active served.1 served.2 served.0
    | pulse ↦ without_git slots active pulse_answer
    | go_import ↦ without_git slots active (import_answer (serve_go_import fs cfg r.path))
    | not_found ↦ without_git slots active page_not_found
  ]
