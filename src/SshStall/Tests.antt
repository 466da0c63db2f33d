-- ===== src/SshStall/Tests.antt =====
-- A git command over SSH that stalls, and instances of the theorems on it.
use simple_git_server.Base.{◌≤◌, ◌≡◌, ◌≢◌, refl, true, false, List, [], ◌∷◌, ◌++◌, map, arith, All}
use simple_git_server.Stall.{run_events, new_transfer}
use simple_git_server.SshStall.{
  GitEvent, reads, writes, tick, stop, git_tick_length, on_git_event, run_git_events,
  new_git_session,
}
use simple_git_server.SshStall.Watch.{
  as_stream, ticks, run_git_events-run_events, run_git_events-cancels,
}

-- With a timeout of a second: bytes move until 1.3 seconds.
abbrev busy : List GitEvent
busy = reads 4 100000000 ∷ tick 250000000 ∷ writes 9 1300000000 ∷ tick 1500000000 ∷ []

outcomes :
    ((run_git_events 1000000000 (new_git_session 1000000000 0) busy).cancelled ≡ false)
    × ((run_git_events 1000000000 (new_git_session 1000000000 0) busy).last ≡ 1300000000)
    × ((run_git_events 0 (new_git_session 0 0) (tick 99000000000 ∷ [])).cancelled ≡ false)
unfolding run_git_events on_git_event new_git_session
outcomes = (refl, refl, refl)

busy_runs : All (λ e. e ≢ stop) busy
busy_runs = ((λ e. cc), ((λ e. cc), ((λ e. cc), ((λ e. cc), tt))))

run_git_events-run_events_example :
    ((run_git_events 1000000000 (new_git_session 1000000000 0) busy).cancelled
      ≡ (run_events 1000000000 (new_transfer 1000000000 0) (map as_stream busy)).cancelled)
    × ((run_git_events 1000000000 (new_git_session 1000000000 0) busy).channel_closed
        ≡ (run_git_events 1000000000 (new_git_session 1000000000 0) busy).cancelled)
run_git_events-run_events_example = run_git_events-run_events 1000000000 0 busy

quiet_from : (run_git_events 1000000000 (new_git_session 1000000000 0) busy).last ≤ 1500000000
quiet_from = omega (arith, outcomes.1)

run_git_events-cancels_example :
    ((run_git_events 1000000000
        (new_git_session 1000000000 0)
        (busy ++ ticks (git_tick_length 1000000000) 1500000000 5)).cancelled
      ≡ true)
    × ((run_git_events 1000000000
          (new_git_session 1000000000 0)
          (busy ++ ticks (git_tick_length 1000000000) 1500000000 5)).channel_closed
        ≡ true)
run_git_events-cancels_example =
    run_git_events-cancels 1000000000 0 1500000000 busy (omega arith) busy_runs quiet_from
