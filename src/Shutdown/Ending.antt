-- ===== src/Shutdown/Ending.antt =====
-- The shutdown of the HTTP server: it ends in time, whatever ended the wait, and leaves nothing
-- behind.
use simple_git_server.Base.{
  ℕ, ◌+◌, ◌≤◌, ◌≡◌, refl, ap, ◌∙◌, Bool, true, false, List, [], ◌∷◌, ◌++◌, append_assoc, Option,
  none, some, leb, max, arith, Bool-cases, inl, inr, length,
}
use simple_git_server.Config.{ServerConfig}
use simple_git_server.Supervise.{
  Process, Signal, returns, taken, stop_child, ssh_child_stop_timeout,
}
use simple_git_server.Supervise.Stop.{Ended, by_itself, killed, stop_child-running}
use simple_git_server.Shutdown.{
  shutdown_timeout, git_shutdown_grace, poll_interval, Server, servers_of, WaitEnd, Trigger,
  server_failed, signalled, ssh_exited, Action, server_shut_down, git_cancelled, git_waited,
  ssh_stopped, exit_code, closed_at, shut_down_servers, Outside, done_of, exit_code_for, after_stop,
  stop_ssh, end_time, shut_down,
}
use simple_git_server.Shutdown.Waiting.{Settled, wait_for_git_commands-ends}

-- Every server is shut down, in order.
abbrev pub ShutsAll : List Server → List Action → Type 0
ShutsAll [] [] = Unit
ShutsAll [] (a ∷ as') = ⊥
ShutsAll (s ∷ ss) [] = ⊥
ShutsAll (s ∷ ss) (a ∷ as') = (b : Bool) × (a ≡ server_shut_down s b) × ShutsAll ss as'

closed_bounds : (deadline now : ℕ) (o : Option ℕ) → (closed_at deadline now o).1 ≤ max now deadline
closed_bounds deadline now none = omega arith
closed_bounds deadline now (some t) = elim (Bool-cases (leb t deadline)) [
  | inl e ↦ rw e (ground (arith, e))
  | inr e ↦ rw e (omega arith)
]

-- The servers are shut down by the deadline, or at once if it has passed.
servers_closed :
    (idle_at : Server → Option ℕ) (deadline now : ℕ) (ss : List Server)
    → ShutsAll ss (shut_down_servers idle_at deadline now ss).0
      × ((shut_down_servers idle_at deadline now ss).1 ≤ max now deadline)
unfolding shut_down_servers
servers_closed idle_at deadline now [] = (tt, omega arith)
servers_closed idle_at deadline now (s ∷ ss) =
    let c = closed_at deadline now (idle_at s) in
    let ih = servers_closed idle_at deadline c.1 ss in
    ((c.0, refl, ih.0), omega (arith, ih.1, closed_bounds deadline now (idle_at s)))

-- The time that SIGKILL takes, if there is a process.
abbrev pub kill_time : Option Process → ℕ
kill_time none = 0
kill_time (some p) = p.on_kill

-- The child is gone after `stop`: it had ended before, or was brought to its end.
abbrev pub Gone : Bool → Process → List Signal → ℕ → Type 0
Gone true p sent t = (sent ≡ []) × (t ≡ 0)
Gone false p sent t = Ended ssh_child_stop_timeout p sent t

-- What the last actions are: a child whose end has not been noticed is stopped, and the exit code
-- tells whether a signal ended the wait.
abbrev pub Last : Bool → Option Process → Trigger → List Action → Type 0
Last ended none trigger last = last ≡ exit_code (exit_code_for trigger) ∷ []
Last ended (some p) ssh_exited last = last ≡ exit_code 1 ∷ []
Last ended (some p) server_failed last =
    (sent : List Signal) × (t : ℕ) × Gone ended p sent t
    × (last ≡ ssh_stopped sent ∷ exit_code 1 ∷ [])
Last ended (some p) signalled last =
    (sent : List Signal) × (t : ℕ) × Gone ended p sent t
    × (last ≡ ssh_stopped sent ∷ exit_code 0 ∷ [])

-- The end of the process: every server has been shut down, then the git commands were cancelled and
-- waited for, then came the last actions, all in bounded time.
pub record Finishes (o : Outside) (trigger : Trigger) (servers : List Server) (now most : ℕ)
    (result : Option (List Action × ℕ)) : Type 0 where
  pub closed : List Action
  pub waited : WaitEnd
  pub last : List Action
  pub ends_at : ℕ
  pub grace_ends : ℕ
  pub result_is : result ≡ some (closed ++ (git_cancelled ∷ git_waited waited ∷ last), ends_at)
  pub all_closed : ShutsAll servers closed
  pub settled : Settled o.active grace_ends waited
  pub grace_bound : grace_ends ≤ now + shutdown_timeout + git_shutdown_grace
  pub last_is : Last o.ssh_ended o.ssh trigger last
  pub in_time :
      ends_at
      ≤ now
        + shutdown_timeout
        + git_shutdown_grace
        + poll_interval
        + most
        + ssh_child_stop_timeout
        + kill_time o.ssh

-- The last step, from any actions before it.
abbrev Stops : Outside → Trigger → List Action → ℕ → Option Process → Type 0
Stops o trigger actions now ssh =
    (last : List Action) × (t : ℕ) × (stop_ssh o trigger actions now ssh
      ≡ some (actions ++ last, t))
    × Last o.ssh_ended ssh trigger last
    × (t ≤ now + ssh_child_stop_timeout + kill_time ssh)

Gone-bound :
    (ended : Bool) (p : Process) (sent : List Signal) (t : ℕ)
    → Gone ended p sent t
    → t ≤ ssh_child_stop_timeout + p.on_kill
Gone-bound true p sent t g = omega (arith, g.1)
Gone-bound false p sent t (by_itself e o b) = omega arith
Gone-bound false p sent t (killed e a b o) = b

stop-Gone :
    (late : Bool) (p : Process) (ended : Bool)
    → (sent : List Signal) × (t : ℕ) × (stop_child ssh_child_stop_timeout late p
          (some (done_of ended))
        ≡ returns sent t taken)
      × Gone ended p sent t
stop-Gone late p true = ([], 0, unfold stop_child in refl, (refl, refl))
stop-Gone late p false =
    let s = stop_child-running ssh_child_stop_timeout late p in
    (s.sent, s.after, s.stopping_is, s.ended)

stop_ssh-Stops :
    (o : Outside) (trigger : Trigger) (actions : List Action) (now : ℕ) (ssh : Option Process)
    → Stops o trigger actions now ssh
unfolding stop_ssh
stop_ssh-Stops o server_failed actions now none = (_, now, refl, refl, omega arith)
stop_ssh-Stops o signalled actions now none = (_, now, refl, refl, omega arith)
stop_ssh-Stops o ssh_exited actions now none = (_, now, refl, refl, omega arith)
stop_ssh-Stops o ssh_exited actions now (some p) = (_, now, refl, refl, omega arith)
stop_ssh-Stops o server_failed actions now (some p) =
    let s = stop-Gone o.late p o.ssh_ended in
    (
      ssh_stopped s.0 ∷ exit_code 1 ∷ [],
      now + s.1,
      rw (s.2, after_stop) refl,
      (s.0, s.1, s.3, refl),
      omega (arith, Gone-bound o.ssh_ended p s.0 s.1 s.3),
    )
stop_ssh-Stops o signalled actions now (some p) =
    let s = stop-Gone o.late p o.ssh_ended in
    (
      ssh_stopped s.0 ∷ exit_code 0 ∷ [],
      now + s.1,
      rw (s.2, after_stop) refl,
      (s.0, s.1, s.3, refl),
      omega (arith, Gone-bound o.ssh_ended p s.0 s.1 s.3),
    )

-- Whatever ends the wait of `main`, the process ends, and in bounded time: every server is shut
-- down, the git commands are cancelled and waited for, an SSH child that may still run is stopped,
-- by SIGKILL only if it outlives SIGTERM, and the exit code is 0 exactly after a signal. `most` is
-- the longest lag of a sleep.
pub shut_down-Finishes :
    (o : Outside) (trigger : Trigger) (servers : List Server) (now most : ℕ)
    → ((t : ℕ) → o.lag t ≤ most)
    → Finishes o trigger servers now most (shut_down o trigger servers now)
unfolding shut_down
shut_down-Finishes o trigger servers now most lags =
    let c = servers_closed o.idle_at (now + shutdown_timeout) now servers in
    let after = shut_down_servers o.idle_at (now + shutdown_timeout) now servers in
    let w = wait_for_git_commands-ends o.active o.lag most lags git_shutdown_grace after.1 in
    let s =
      stop_ssh-Stops o trigger (after.0 ++ (git_cancelled ∷ git_waited w.0 ∷ [])) (end_time w.0)
        o.ssh in
    record {
      closed = after.0;
      waited = w.0;
      last = s.0;
      ends_at = s.1;
      grace_ends = after.1 + git_shutdown_grace;
      result_is =
          rw (w.1, shut_down)
            (s.2
              ∙ ap (λ l. some (l, s.1))
                  (append_assoc after.0 (git_cancelled ∷ git_waited w.0 ∷ []) s.0));
      all_closed = c.0;
      settled = w.2;
      grace_bound = omega (arith, c.1);
      last_is = s.3;
      in_time = omega (arith, c.1, w.3, s.4);
    }

-- No more servers are started than the error channel has places, so none of them waits to report.
pub length-servers_of : (cfg : ServerConfig) → length (servers_of cfg) ≤ 2
unfolding servers_of
length-servers_of cfg = ground arith
