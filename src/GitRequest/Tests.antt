-- ===== src/GitRequest/Tests.antt =====
-- A request whose body is too large, and an instance of the theorem on it.
use simple_git_server.Base.{
  ◌+◌, ◌<◌, ◌≡◌, ◌↔◌, ◌⊎◌, refl, true, false, Bool, List, [], ◌∷◌, Option, none, some,
}
use simple_git_server.Text.{split}
use simple_git_server.Cgi.{Child, writes, too_large, run_git_cgi, write_cgi_response, read_headers}
use simple_git_server.Stall
use simple_git_server.Stall.{
  more, over_limit, StreamEvent, run_events, on_event, end_read, mark, fail_read, watch_tick,
  new_transfer,
}
use simple_git_server.Stall.Watch.{Stalls}
use simple_git_server.GitRequest.{
  RequestEvent, request_cancelled, streams, client_gone, shutting_down, stream_events,
  run_git_cgi_request,
}
use simple_git_server.GitRequest.Replies.{
  first_failure, NoResponse, Interrupted, too_large_page, run_git_cgi_request-Answered,
}

-- A child that is killed before it writes its headers.
abbrev killed_early : Bool → Option Child
killed_early cancelled = some (writes [])

-- A child that ends only when it is killed.
abbrev hangs : Bool → Option Child
hangs true = some (writes [])
hangs false = none

abbrev oversized : List RequestEvent
oversized =
    streams (Stall.reads 9 more 10)
    ∷ streams (Stall.reads 9 over_limit 20)
    ∷ streams (Stall.tick 25)
    ∷ []

outcomes :
    ((run_git_cgi_request killed_early 60 0 oversized 3).reply ≡ some too_large_page)
    × ((run_git_cgi_request killed_early 60 0 oversized 3).cancelled ≡ true)
    × ((run_git_cgi_request killed_early 0 0 oversized 3).cancelled ≡ false)
    × ((run_git_cgi_request killed_early 0 0 (shutting_down ∷ []) 3).cancelled ≡ true)
    × ((run_git_cgi_request hangs 0 0 [] 3).reply ≡ none)
    × ((run_git_cgi_request hangs 0 0 (client_gone ∷ []) 3).active_after ≡ 3)
unfolding run_git_cgi_request request_cancelled run_git_cgi write_cgi_response read_headers split
    run_events on_event end_read mark fail_read watch_tick new_transfer
outcomes = (refl, refl, refl, refl, refl, refl)

run_git_cgi_request-Answered_example :
    (((run_git_cgi_request hangs 60 0 oversized 3).cancelled ≡ true)
      ↔ (Interrupted oversized ⊎ ((0 < 60) × Stalls 60 0 false (stream_events oversized))))
    × (((run_git_cgi_request hangs 60 0 oversized 3).reply ≡ some too_large_page) ↔ (
        (k : Child) × (hangs (run_git_cgi_request hangs 60 0 oversized 3).cancelled ≡ some k)
        × NoResponse k
        × (first_failure (stream_events oversized) ≡ too_large)))
    × ((run_git_cgi_request hangs 60 0 oversized 3).active_during ≡ 3 + 1)
    × (((hangs (run_git_cgi_request hangs 60 0 oversized 3).cancelled ≡ none)
          × ((run_git_cgi_request hangs 60 0 oversized 3).reply ≡ none)
          × ((run_git_cgi_request hangs 60 0 oversized 3).active_after ≡ 3 + 1))
        ⊎ ((k : Child) × (hangs (run_git_cgi_request hangs 60 0 oversized 3).cancelled ≡ some k)
            × ((run_git_cgi_request hangs 60 0 oversized 3).active_after ≡ 3)))
run_git_cgi_request-Answered_example = run_git_cgi_request-Answered hangs 60 0 3 oversized
