-- ===== src/Session/Tests.antt =====
-- Runs of a session, and instances of its theorems.
use simple_git_server.Base.{
  not, ◌||◌, ◌≤◌, ◌≡◌, ◌↔◌, refl, true, false, List, [], ◌∷◌, ◌++◌, if◌then◌else◌, any, arith, some,
  Result, ok, err, ℤ, pos, negsuc,
}
use simple_git_server.Text.{Bytes, codes, equal, has_suffix, trim_prefix}
use simple_git_server.Text.Unicode.{trim_space}
use simple_git_server.FilePath.{is_abs, rel, diverge, join_path, parts}
use simple_git_server.FilePath.Relative.{stays}
use simple_git_server.GitPath.{has_dot_dot_segment}
use simple_git_server.Command.{
  GitService, upload_pack, check_words, classify, allow, finish_command, strip_quotes,
  split_git_command, parse_git_ssh_command,
}
use simple_git_server.Command.Words.{Allowed}
use simple_git_server.Containment.{FsError, not_exist}
use simple_git_server.Containment.Disk.{srv, inside, disk, disk_sane}
use simple_git_server.RepoPath.{
  check_name, strip_repo, with_git, abs_path, join_under, check_existing, within_root,
  resolve_repo_path,
}
use simple_git_server.RepoPath.Existing.{IsServable}
use simple_git_server.Session.{
  Effect, Request, RequestType, env, exec, shell, other_type, stop_guard, reply, run_command,
  exit_status, close, answer, handle_session, parse_exec_payload, exit_status_bytes, Counts,
  GitExit, success, ran, SessionConfig, start_git, run_git_command,
}
use simple_git_server.Session.Wire.{Holds, parse_exec_payload-Holds_iff}
use simple_git_server.Session.Loop.{
  ends_session, answers, tally, is_exit, is_run, is_close, handle_session-tallies,
}
use simple_git_server.Session.Ending.{Ends, handle_session-Ends}
use simple_git_server.Session.Guard.{
  ClientEvent, sends, session_request_deadline, guarded_session, in_time, leaves_in_time,
  guarded_session-handle_session,
}
use simple_git_server.Session.Run.{run_git_command-IsServable}

abbrev line : Bytes
line = codes "git-upload-pack '/r.git'"

abbrev payload : Bytes
payload = 0 ∷ 0 ∷ 0 ∷ 24 ∷ codes "git-upload-pack '/r.git'"

abbrev request : RequestType → Bytes → Request
request k p = record { kind = k; want_reply = true; payload = p }

abbrev requests : List Request
requests =
    request env []
    ∷ request (other_type (codes "pty-req")) []
    ∷ request exec payload
    ∷ request shell []
    ∷ []

session-requests :
    handle_session (λ l. negsuc 0) requests
    ≡ reply true
      ∷ reply false
      ∷ stop_guard
      ∷ reply true
      ∷ run_command line
      ∷ exit_status (255 ∷ 255 ∷ 255 ∷ 255 ∷ [])
      ∷ close
      ∷ []
unfolding handle_session answer parse_exec_payload exit_status_bytes
session-requests = refl

handle_session-Ends_example :
    (es : List Effect) × Ends (λ l. pos 0) (request exec payload) es
    × (handle_session (λ l. pos 0) requests
        ≡ answers (request env [] ∷ request (other_type (codes "pty-req")) [] ∷ []) ++ es)
handle_session-Ends_example =
    handle_session-Ends (λ l. pos 0)
      (request env [] ∷ request (other_type (codes "pty-req")) [] ∷ []) (request exec payload)
      (request shell [] ∷ []) (refl, (refl, tt)) refl (omega arith)

handle_session-tallies_example :
    (tally is_exit (handle_session (λ l. pos 0) requests)
      ≡ (if any (λ r. ends_session r.kind) requests then 1 else 0))
    × (tally is_run (handle_session (λ l. pos 0) requests) ≤ 1)
    × (tally is_close (handle_session (λ l. pos 0) requests) ≡ 1)
handle_session-tallies_example = handle_session-tallies (λ l. pos 0) requests

parse_exec_payload-Holds_iff_example : (parse_exec_payload payload ≡ some line) ↔ Holds payload line
parse_exec_payload-Holds_iff_example = parse_exec_payload-Holds_iff payload line (omega arith)

abbrev config : SessionConfig
config = record { git_repos_folder = srv; enable_ssh_read = true; enable_ssh_write = false }

abbrev idle : Counts
idle = record { git_sem = some (0, 2); active = 0; git_wg = 0 }

abbrev during : Counts
during = record { git_sem = some (1, 2); active = 1; git_wg = 1 }

abbrev no_cwd : Result FsError Bytes
no_cwd = err not_exist

abbrev git : GitService → Bytes → GitExit
git s p = success

parsed :
    parse_git_ssh_command line true false
    ≡ ok (record { service = upload_pack; repo = codes "/r.git" })
unfolding parse_git_ssh_command check_words classify allow finish_command strip_quotes
    split_git_command equal trim_space
parsed = refl

found : resolve_repo_path disk no_cwd srv (codes "/r.git") ≡ ok inside
unfolding resolve_repo_path check_name strip_repo with_git abs_path join_under check_existing
    within_root stays rel diverge join_path parts has_dot_dot_segment has_suffix trim_prefix
    trim_space
found = refl

fetched :
    (run_git_command disk no_cwd git config line idle).0 ≡ ran during upload_pack inside success
unfolding run_git_command start_git parse_git_ssh_command check_words classify allow finish_command
    strip_quotes split_git_command equal trim_space resolve_repo_path check_name strip_repo with_git
    abs_path join_under check_existing within_root stays rel diverge join_path parts
    has_dot_dot_segment has_suffix trim_prefix
fetched = refl

run_git_command-IsServable_example : Allowed upload_pack true false × IsServable disk srv inside
run_git_command-IsServable_example =
    run_git_command-IsServable disk disk_sane no_cwd git config line idle (unfold is_abs in refl)
      fetched

-- A client that sets a variable in time, and asks for a command too late.
abbrev exits : Bytes → ℤ
exits l = pos 0

abbrev slow_client : List ClientEvent
slow_client = sends 1000 (request env []) ∷ sends 31000000000 (request shell []) ∷ []

too_slow :
    ((guarded_session exits (session_request_deadline 0) slow_client).effects
      ≡ reply true ∷ close ∷ [])
    × ((guarded_session exits (session_request_deadline 0) slow_client).waits_until ≡ 30000000000)
    × ((guarded_session exits (session_request_deadline 0) slow_client).guard_fired ≡ true)
unfolding guarded_session session_request_deadline answer handle_session
too_slow = (refl, refl, refl)

guarded_session-handle_session_example :
    ((guarded_session exits 30000000000 slow_client).waits_until ≤ 30000000000)
    × ((guarded_session exits 30000000000 slow_client).effects
        ≡ handle_session exits (in_time 30000000000 slow_client))
    × ((guarded_session exits 30000000000 slow_client).guard_fired
        ≡ not (
            any (λ r. ends_session r.kind) (in_time 30000000000 slow_client)
            || leaves_in_time 30000000000 slow_client))
guarded_session-handle_session_example =
    guarded_session-handle_session exits 30000000000 slow_client
