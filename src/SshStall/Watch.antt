-- ===== src/SshStall/Watch.antt =====
-- When the watchdog of a git command over SSH cancels it.
use simple_git_server.Base.{
  ℕ, zero, suc, ◌+◌, ◌*◌, ◌≤◌, ◌<◌, ◌≡◌, ◌≢◌, refl, ap, ◌∙◌, true, not, List, [], ◌∷◌, ◌++◌, map,
  arith, All,
}
use simple_git_server.Cgi.{no_body_error}
use simple_git_server.Stall
use simple_git_server.Stall.{Transfer, run_events, on_event, new_transfer}
use simple_git_server.SshStall.{
  GitSession, GitEvent, reads, writes, tick, stop, mark_moved, git_watch_tick, on_git_event,
  run_git_events, new_git_session, git_tick_length,
}

-- The event as one of an HTTP request.
abbrev pub as_stream : GitEvent → Stall.StreamEvent
as_stream (reads n now) = Stall.reads n Stall.more now
as_stream (writes n now) = Stall.writes n now
as_stream (tick now) = Stall.tick now
as_stream stop = Stall.stop

-- The states of the two watchdogs agree, and the channel is closed if the command is cancelled.
record Agrees (s : GitSession) (t : Transfer) : Type 0 where
  last_is : s.last ≡ t.last
  watching_is : s.watching ≡ t.watching
  cancelled_is : s.cancelled ≡ t.cancelled
  closed_is : s.channel_closed ≡ s.cancelled
  sound : t.failure ≡ no_body_error

on_event-Agrees :
    (idle : ℕ) (s : GitSession) (t : Transfer) (e : GitEvent)
    → Agrees s t
    → Agrees (on_git_event idle s e) (on_event idle t (as_stream e))
unfolding on_git_event on_event mark_moved Stall.mark Stall.end_read git_watch_tick Stall.watch_tick
on_event-Agrees idle s t (reads n now) h = ground arith
on_event-Agrees idle s t (writes n now) h = ground arith
on_event-Agrees idle s t (tick now) h = ground arith
on_event-Agrees idle s t stop h = ground arith

run_events-Agrees :
    (idle : ℕ) (s : GitSession) (t : Transfer) (es : List GitEvent)
    → Agrees s t
    → Agrees (run_git_events idle s es) (run_events idle t (map as_stream es))
unfolding run_git_events run_events
run_events-Agrees idle s t [] h = h
run_events-Agrees idle s t (e ∷ es) h =
    run_events-Agrees idle (on_git_event idle s e) (on_event idle t (as_stream e)) es
      (on_event-Agrees idle s t e h)

start-Agrees : (idle start : ℕ) → Agrees (new_git_session idle start) (new_transfer idle start)
unfolding new_git_session new_transfer
start-Agrees idle start = record {
  last_is = refl;
  watching_is = refl;
  cancelled_is = refl;
  closed_is = refl;
  sound = refl;
}

-- The watchdog of a command over SSH cancels it, and closes its channel, exactly when the watchdog
-- of an HTTP request would cancel that on the same reads, writes and ticks, none of which fails.
pub run_git_events-run_events :
    (idle start : ℕ) (es : List GitEvent)
    → ((run_git_events idle (new_git_session idle start) es).cancelled
        ≡ (run_events idle (new_transfer idle start) (map as_stream es)).cancelled)
      × ((run_git_events idle (new_git_session idle start) es).channel_closed
          ≡ (run_git_events idle (new_git_session idle start) es).cancelled)
run_git_events-run_events idle start es =
    let h =
      run_events-Agrees idle (new_git_session idle start) (new_transfer idle start) es
        (start-Agrees idle start) in
    (h.cancelled_is, h.closed_is)

run-append :
    (idle : ℕ) (s : GitSession) (es fs : List GitEvent)
    → run_git_events idle s (es ++ fs) ≡ run_git_events idle (run_git_events idle s es) fs
unfolding run_git_events
run-append idle s [] fs = refl
run-append idle s (e ∷ es) fs = run-append idle (on_git_event idle s e) es fs

-- The watchdog runs until it cancels.
abbrev Live : GitSession → Type 0
Live s = s.watching ≡ not s.cancelled

start-Live : (idle start : ℕ) → 0 < idle → Live (new_git_session idle start)
unfolding new_git_session
start-Live idle start h = ground arith

step-Live :
    (idle : ℕ) (s : GitSession) (e : GitEvent) → e ≢ stop → Live s → Live (on_git_event idle s e)
unfolding on_git_event mark_moved git_watch_tick
step-Live idle s (reads n now) ne h = ground arith
step-Live idle s (writes n now) ne h = ground arith
step-Live idle s (tick now) ne h = ground arith
step-Live idle s stop ne h = absurd (ne refl)

run-Live :
    (idle : ℕ) (s : GitSession) (es : List GitEvent)
    → All (λ e. e ≢ stop) es
    → Live s
    → Live (run_git_events idle s es)
unfolding run_git_events
run-Live idle s [] r h = h
run-Live idle s (e ∷ es) (ne, r) h =
    run-Live idle (on_git_event idle s e) es r (step-Live idle s e ne h)

-- Some ticks behind a time, with nothing between them.
abbrev pub ticks : ℕ → ℕ → ℕ → List GitEvent
ticks period t zero = []
ticks period t (suc n) = tick (t + period) ∷ ticks period (t + period) n

-- A tick leaves the time of the last bytes and a command that is cancelled, and cancels if it is
-- due.
tick_keeps :
    (idle now : ℕ) (s : GitSession)
    → ((on_git_event idle s (tick now)).last ≡ s.last)
      × (s.cancelled ≡ true → (on_git_event idle s (tick now)).cancelled ≡ true)
unfolding on_git_event git_watch_tick
tick_keeps idle now s = (ground arith, λ h. ground arith)

tick_due :
    (idle now : ℕ) (s : GitSession)
    → Live s
    → s.last + idle ≤ now
    → (on_git_event idle s (tick now)).cancelled ≡ true
unfolding on_git_event git_watch_tick
tick_due idle now s live due = ground arith

-- Ticks that reach the timeout cancel.
quiet_ticks :
    (idle period t n : ℕ) (s : GitSession)
    → Live s
    → s.last + idle ≤ t + suc n * period
    → (run_git_events idle s (ticks period t (suc n))).cancelled ≡ true
unfolding run_git_events
quiet_ticks idle period t zero s live due = tick_due idle (t + period) s live (omega arith)
quiet_ticks idle period t (suc n) s live due =
    let k = tick_keeps idle (t + period) s in
    quiet_ticks idle period (t + period) n (on_git_event idle s (tick (t + period)))
      (step-Live idle s (tick (t + period)) (λ q. cc) live) (omega (arith, k.0))

five_ticks : (idle : ℕ) → idle ≤ 5 * git_tick_length idle
unfolding git_tick_length
five_ticks idle = ground arith

-- Whatever a command over SSH has moved before, once no byte moves in either direction its watchdog
-- cancels it, and closes its channel, within five ticks: a stalled command does not keep its slot.
-- There is a timeout, and the command has not ended.
pub run_git_events-cancels :
    (idle start t : ℕ) (es : List GitEvent)
    → 0 < idle
    → All (λ e. e ≢ stop) es
    → (run_git_events idle (new_git_session idle start) es).last ≤ t
    → ((run_git_events idle
          (new_git_session idle start)
          (es ++ ticks (git_tick_length idle) t 5)).cancelled
        ≡ true)
      × ((run_git_events idle
            (new_git_session idle start)
            (es ++ ticks (git_tick_length idle) t 5)).channel_closed
          ≡ true)
run_git_events-cancels idle start t es on going quiet =
    let s = run_git_events idle (new_git_session idle start) es in
    let live = run-Live idle (new_git_session idle start) es going (start-Live idle start on) in
    let c =
      ap (λ u. u.cancelled)
        (run-append idle (new_git_session idle start) es (ticks (git_tick_length idle) t 5))
      ∙ quiet_ticks idle (git_tick_length idle) t 4 s live (omega (arith, five_ticks idle)) in
    let k = run_git_events-run_events idle start (es ++ ticks (git_tick_length idle) t 5) in
    (c, k.1 ∙ c)
