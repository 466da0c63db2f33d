-- ===== src/Connections/Tests.antt =====
-- A connection whose session runs git, and instances of the theorems on it.
use simple_git_server.Base.{
  ◌+◌, ◌*◌, ◌≤◌, ◌≡◌, ◌↔◌, refl, true, false, List, [], ◌∷◌, ◌++◌, length, All, any, none, some,
  arith,
}
use simple_git_server.Connections.{
  max_sessions_per_conn, waiting, running, finished, Conn, fresh, begin, end, session, open_channel,
  resource_shortage, watch, Listener, accept_conn, conn_idle, end_session, started,
}
use simple_git_server.Connections.Steps.{
  running_count, Reachable, start, next, opens, starts, stops,
}
use simple_git_server.Connections.Handle.{
  ConnEvent, channel_opened, git_started, git_ended, session_left, ticked, deadline_set,
  deadline_cleared, requests_discarded, watchdog_started, channel_answered, idle_closed,
  watchdog_stopped, ssh_closed, socket_closed, tick_conn, on_conn_event, serve_channels, conn_after,
  handle_conn, conn_tick_length,
}
use simple_git_server.Connections.Idle.{
  is_quiet, Paced, last_tick, closes_within, handle_conn-closes,
}
use simple_git_server.Connections.Watchdog.{watch-closes_iff}
use simple_git_server.Connections.Server.{
  ReachableServer, listens, goes_on, arrives, works, total_running, ReachableServer-bounds,
}

abbrev opened : Conn
opened = record (fresh 5) { goroutines = waiting ∷ []; sessions = 1 }

abbrev cloning : Conn
cloning = record opened { goroutines = running ∷ []; active = 1 }

abbrev cloned : Conn
cloned = record cloning { goroutines = finished ∷ []; active = 0; last_used = 90 }

opened_reached : Reachable 60 opened
unfolding open_channel
opened_reached = next (start 5 refl) (opens session true refl)

cloning_reached : Reachable 60 cloning
unfolding begin
cloning_reached = next opened_reached (starts [] [] refl refl)

cloned_reached : Reachable 60 cloned
unfolding end
cloned_reached = next cloning_reached (stops 90 [] [] refl refl)

-- Eight sessions take every slot, and the next channel is refused.
ninth_refused :
    (open_channel session true (record (fresh 0) { sessions = 8 })).0 ≡ resource_shortage
unfolding open_channel
ninth_refused = refl

watch-closes_iff_example :
    ((watch 60 150 cloned).closed ≡ true)
    ↔ ((running_count cloned.goroutines ≡ 0) × (cloned.last_used + 60 ≤ 150))
watch-closes_iff_example = watch-closes_iff 60 150 cloned_reached refl

abbrev busy_conn : Listener
busy_conn = record { conns = opened ∷ []; conn_sem = 1 }

busy_reached : ReachableServer 1 60 busy_conn
unfolding accept_conn open_channel
busy_reached =
    goes_on (goes_on (listens refl) (arrives 5 refl))
      (works [] (fresh 5) opened [] refl (opens session true refl) refl)

ReachableServer-bounds_example :
    (busy_conn.conn_sem ≡ length busy_conn.conns)
    × (length busy_conn.conns ≤ 1)
    × (total_running busy_conn.conns ≤ 1 * max_sessions_per_conn)
ReachableServer-bounds_example = ReachableServer-bounds 1 60 busy_reached

-- A connection that clones once, and then opens channels without a command.
abbrev clone_once : List ConnEvent
clone_once = channel_opened session true ∷ git_started ∷ git_ended 90 ∷ session_left ∷ []

abbrev idle_on : List ConnEvent
idle_on =
    ticked 150
    ∷ ticked 250
    ∷ channel_opened session true
    ∷ ticked 350
    ∷ ticked 450
    ∷ ticked 500
    ∷ []

-- The handshake that fails, and the whole of that connection.
handled :
    (handle_conn 400 1 none idle_on ≡ deadline_set 30000000001 ∷ socket_closed ∷ [])
    × (handle_conn 400 1 (some 5) (clone_once ++ idle_on)
        ≡ deadline_set 30000000001
          ∷ deadline_cleared
          ∷ requests_discarded
          ∷ watchdog_started
          ∷ channel_answered started
          ∷ channel_answered started
          ∷ idle_closed 500
          ∷ watchdog_stopped
          ∷ ssh_closed
          ∷ socket_closed
          ∷ [])
unfolding handle_conn serve_channels on_conn_event tick_conn watch open_channel begin end
    end_session conn_idle
handled = (refl, refl)

after_clone :
    ((conn_after (conn_idle 400) clone_once (fresh 5)).closed ≡ false)
    × (running_count (conn_after (conn_idle 400) clone_once (fresh 5)).goroutines ≡ 0)
    × ((conn_after (conn_idle 400) clone_once (fresh 5)).last_used ≡ 90)
unfolding on_conn_event open_channel begin end end_session
after_clone = (refl, refl, refl)

idle_quiet : All (λ e. is_quiet e ≡ true) idle_on
idle_quiet = (refl, (refl, (refl, (refl, (refl, (refl, tt))))))

idle-Paced :
    Paced (conn_tick_length 400) (conn_after (conn_idle 400) clone_once (fresh 5)).last_used idle_on
unfolding conn_tick_length conn_idle
idle-Paced =
    rw after_clone.2 (omega arith, (omega arith, (omega arith, (omega arith, (omega arith, tt)))))

idle_reaches :
    (conn_after (conn_idle 400) clone_once (fresh 5)).last_used + conn_idle 400
    ≤ last_tick (conn_after (conn_idle 400) clone_once (fresh 5)).last_used idle_on
unfolding conn_idle
idle_reaches = rw after_clone.2 (omega arith)

handle_conn-closes_example :
    any
      (closes_within ((conn_after (conn_idle 400) clone_once (fresh 5)).last_used + conn_idle 400) (
        (conn_after (conn_idle 400) clone_once (fresh 5)).last_used
        + conn_idle 400
        + conn_tick_length 400))
      (handle_conn 400 1 (some 5) (clone_once ++ idle_on))
    ≡ true
handle_conn-closes_example =
    handle_conn-closes 400 1 5 clone_once idle_on after_clone.0 after_clone.1 idle_quiet idle-Paced
      idle_reaches
