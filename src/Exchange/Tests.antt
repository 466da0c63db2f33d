-- ===== src/Exchange/Tests.antt =====
-- Requests from end to end, and instances of the theorems on them.
use simple_git_server.Base.{
  ◌<◌, ◌≡◌, ◌↔◌, refl, Bool, true, false, List, [], ◌∷◌, ◌≢◌, Option, none, inr, min, some, arith,
  pos,
}
use simple_git_server.Text.{
  codes, equal, before, after?, has_byte, has_prefix, has_suffix, trim_prefix, trim_suffix, count,
  split, join,
}
use simple_git_server.Text.Unicode.{trim_space, equal_fold}
use simple_git_server.FilePath.{is_abs, rel, diverge, join_path, dir, clean, parts}
use simple_git_server.FilePath.Relative.{stays}
use simple_git_server.GitPath.{
  sanitize_git_path_info, has_dot_dot_segment, check_cleaned, is_repo_segment,
}
use simple_git_server.Containment.{repo_within_root, walk_up, contained_in}
use simple_git_server.Containment.Disk.{disk, disk_sane}
use simple_git_server.Config.{ServerConfig, max_request_body, config_of}
use simple_git_server.Routing.{path_info_of, route, is_git_request}
use simple_git_server.Backend.{
  GitCommand, Slots, check_cgi_env_limits, is_receive_pack_request, dispatch, serve_git_http_write,
  serve_with_slot, serve_git, header_get,
}
use simple_git_server.Backend.Query.{query_get}
use simple_git_server.Backend.Tests.{server, env, look_path, fetch}
use simple_git_server.Cgi.{
  Child, writes, valid_status, status_of, run_git_cgi, write_cgi_response, read_headers, trim_line,
  strip_line_end,
}
use simple_git_server.Stall.{
  run_events, new_transfer, reads, more, eof, on_event, end_read, mark, fail_read,
}
use simple_git_server.GitRequest.{RequestEvent, streams, request_cancelled, run_git_cgi_request}
use simple_git_server.GitRequest.Replies.{NoResponse}
use simple_git_server.Exchange.{
  error_answer, git_answer, pulse_answer, handle, limit_body, body_length,
}
use simple_git_server.Exchange.Commands.{RanGit, handle-RanGit}
use simple_git_server.Exchange.Ending.{Restores, handle-Restores}
use simple_git_server.Exchange.Body.{too_large_answer, handle-Limited}

-- A command that answers with a body of two bytes.
abbrev answers : GitCommand → Bool → Option Child
answers command killed = some (writes (codes "Status: 200 OK\r\n\r\nok"))

-- A client that sends a body of 13 bytes.
abbrev sends_body : List RequestEvent
sends_body = streams (reads 6 more 1) ∷ streams (reads 7 eof 2) ∷ []

abbrev free : Slots
free = record { used = 1; size = 2 }

abbrev full : Slots
full = record { used = 2; size = 2 }

answered :
    (command : GitCommand) × ((handle disk look_path env server answers 0 [] fetch free 0).ran
      ≡ some command)
    × ((handle disk look_path env server answers 0 [] fetch free 0).answer
        ≡ git_answer (record { status = pos 200; headers = []; body = codes "ok" }))
    × ((handle disk look_path env server answers 0 [] fetch full 0).answer
        ≡ error_answer 503 (codes "too many concurrent git requests"))
    × ((handle disk look_path env server answers 0 []
          (record fetch { path = codes "/pulse" })
          full
          0).answer
        ≡ pulse_answer)
unfolding handle route is_git_request serve_git serve_with_slot dispatch serve_git_http_write
    sanitize_git_path_info path_info_of repo_within_root walk_up contained_in stays rel diverge
    join_path dir clean parts trim_prefix has_prefix equal is_abs has_suffix trim_suffix count split
    before has_dot_dot_segment check_cleaned is_repo_segment is_receive_pack_request query_get
    config_of run_git_cgi_request request_cancelled limit_body valid_status run_git_cgi
    write_cgi_response read_headers trim_line strip_line_end run_events new_transfer
    check_cgi_env_limits header_get trim_space equal_fold after? has_byte join status_of
answered = (_, refl, refl, refl, refl)

handle-RanGit_example : RanGit disk look_path env server answers fetch free answered.0
handle-RanGit_example = handle-RanGit disk look_path env server answers 0 [] fetch free 0 answered.1

answers-ends : (command : GitCommand) (killed : Bool) → answers command killed ≢ none
answers-ends command killed e = cc

handle-Restores_example :
    Restores disk look_path env server answers free 0
      (handle disk look_path env server answers 0 [] fetch free 0)
handle-Restores_example =
    handle-Restores disk look_path env server answers 0 [] fetch free 0 disk_sane
      (unfold is_abs in refl) (omega arith) (λ c. answers-ends c true)
      (inr (λ c. answers-ends c false))

-- A server that takes ten bytes.
abbrev small : ServerConfig
small = record server { git_max_request_body = 10 }

abbrev no_response : GitCommand → Bool → Option Child
no_response command killed = some (writes [])

sent_body :
    (command : GitCommand) × ((handle disk look_path env small no_response 0 sends_body fetch free
        0).ran
      ≡ some command)
    × ((handle disk look_path env small no_response 0 sends_body fetch free 0).answer
        ≡ too_large_answer)
    × ((handle disk look_path env small no_response 0 sends_body fetch free 0).given ≡ 10)
unfolding handle route is_git_request serve_git serve_with_slot dispatch serve_git_http_write
    sanitize_git_path_info path_info_of repo_within_root walk_up contained_in stays rel diverge
    join_path dir clean parts trim_prefix has_prefix equal is_abs has_suffix trim_suffix count split
    before has_dot_dot_segment check_cleaned is_repo_segment is_receive_pack_request query_get
    config_of run_git_cgi_request request_cancelled limit_body valid_status run_git_cgi
    write_cgi_response read_headers trim_line strip_line_end run_events new_transfer
    check_cgi_env_limits header_get trim_space equal_fold after? has_byte join status_of on_event
    end_read mark fail_read max_request_body
sent_body = (_, refl, refl, refl)

handle-Limited_example :
    ((handle disk look_path env small no_response 0 sends_body fetch free 0).given
      ≡ min (max_request_body small) (body_length sends_body))
    × (((handle disk look_path env small no_response 0 sends_body fetch free 0).answer
          ≡ too_large_answer)
        ↔ ((k : Child) × (no_response sent_body.0 (
                request_cancelled small.git_idle_timeout 0
                  (limit_body (max_request_body small) sends_body))
              ≡ some k)
            × NoResponse k
            × (max_request_body small < body_length sends_body)))
handle-Limited_example =
    handle-Limited disk look_path env small no_response 0 sends_body fetch free 0 tt sent_body.1
