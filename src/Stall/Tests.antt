-- ===== src/Stall/Tests.antt =====
-- A request that stalls, and an instance of the theorem on it.
use simple_git_server.Base.{◌<◌, ◌≡◌, ◌↔◌, refl, true, false, List, [], ◌∷◌}
use simple_git_server.Stall.{
  more, eof, over_limit, StreamEvent, reads, writes, tick, stop, run_events, on_event, end_read,
  mark, fail_read, watch_tick, new_transfer,
}
use simple_git_server.Stall.Watch.{Stalls, run_events-Stalls_iff}

-- With a timeout of 60: the body ends at 50, output follows at 90, and then nothing.
abbrev silent : List StreamEvent
silent =
    reads 5 more 30
    ∷ tick 45
    ∷ reads 0 eof 50
    ∷ writes 7 90
    ∷ tick 105
    ∷ tick 150
    ∷ writes 3 151
    ∷ stop
    ∷ []

-- It is cancelled, without the read deadline, as the body is read; a body over the limit is
-- cancelled at the next tick, and without a timeout nothing is.
outcomes :
    ((run_events 60 (new_transfer 60 0) silent).cancelled ≡ true)
    × ((run_events 60 (new_transfer 60 0) silent).deadline_expired ≡ false)
    × ((run_events 60 (new_transfer 60 0) (reads 9 over_limit 1 ∷ tick 15 ∷ [])).cancelled ≡ true)
    × ((run_events 0 (new_transfer 0 0) silent).cancelled ≡ false)
unfolding run_events on_event end_read mark fail_read watch_tick new_transfer
outcomes = (refl, refl, refl, refl)

run_events-Stalls_iff_example :
    ((run_events 60 (new_transfer 60 0) silent).cancelled ≡ true)
    ↔ ((0 < 60) × Stalls 60 0 false silent)
run_events-Stalls_iff_example = run_events-Stalls_iff 60 0 silent
