-- ===== src/Shutdown.antt =====
-- The second half of `main` in main.go: what is started, what ends the wait, and the shutdown, with
-- `waitForGitCommands`. A time is in nanoseconds. What is outside of the program is a parameter:
-- when the connections of a server are idle, how many git commands run at a time, and the SSH
-- process.
pub mod Waiting
pub mod Ending
pub mod Tests
use simple_git_server.Base.{
  ℕ, zero, suc, ◌+◌, ◌*◌, ◌/◌, ◌^◌, Bool, true, false, List, [], ◌∷◌, ◌++◌, Option, none, some, ltb,
  leb, if◌then◌else◌, max,
}
use simple_git_server.Text.{Bytes}
use simple_git_server.Config.{ServerConfig}
use simple_git_server.Supervise.{
  Done, running, reported, taken, Signal, Process, Stopping, returns, hangs, stop_child,
  ssh_child_stop_timeout,
}

abbrev pub shutdown_timeout : ℕ
shutdown_timeout = 5 * 10 ^ 9

abbrev pub git_shutdown_grace : ℕ
git_shutdown_grace = 3 * 10 ^ 9

abbrev pub poll_interval : ℕ
poll_interval = 20 * 10 ^ 6

-- A listener: its address, and whether it speaks TLS.
pub record Server : Type 0 where
  pub addr : Bytes
  pub tls : Bool

abbrev pub server_if : Bool → Server → List Server
server_if true s = s ∷ []
server_if false s = []

-- The servers that `main` starts, in order.
unfoldable pub servers_of : ServerConfig → List Server
servers_of cfg =
    server_if cfg.enable_http_read (record { addr = cfg.http_on; tls = false })
    ++ server_if cfg.enable_https_read (record { addr = cfg.https_on; tls = true })

-- How the wait for the git commands ends, and when: none is left, or some are and it gives up.
pub data WaitEnd : Type 0 where
  all_gone : ℕ → WaitEnd
  gave_up : ℕ → ℕ → WaitEnd

-- `waitForGitCommands` up to a deadline. `active` is how many git commands run at a time, and `lag`
-- how much longer a sleep takes than asked for; the fuel bounds the rounds.
unfoldable pub wait_loop : (ℕ → ℕ) → (ℕ → ℕ) → ℕ → ℕ → ℕ → Option WaitEnd
wait_loop active lag zero deadline now = none
wait_loop active lag (suc fuel) deadline now =
    let rest = wait_loop active lag fuel deadline (now + poll_interval + lag now) in
    if ltb 0 (active now)
    then (if ltb deadline now then some (gave_up now (active now)) else rest)
    else some (all_gone now)

unfoldable pub wait_for_git_commands : (ℕ → ℕ) → (ℕ → ℕ) → ℕ → ℕ → Option WaitEnd
unfolding wait_loop
wait_for_git_commands active lag d now =
    wait_loop active lag (suc (suc (d / poll_interval))) (now + d) now

-- What ends the wait of `main`: an error of a server, a signal, or the end of the SSH process.
pub data Trigger : Type 0 where
  server_failed signalled ssh_exited : Trigger

-- What the process does when it ends.
pub data Action : Type 0 where
  server_shut_down : Server → Bool → Action
  git_cancelled : Action
  git_waited : WaitEnd → Action
  ssh_stopped : List Signal → Action
  exit_code : ℕ → Action

-- `Shutdown` of a server whose connections are idle at a time, or never: whether it is in time, and
-- when it returns.
abbrev pub closed_at : ℕ → ℕ → Option ℕ → Bool × ℕ
closed_at deadline now none = (false, max now deadline)
closed_at deadline now (some t) =
    if leb t deadline then (true, max now t) else (false, max now deadline)

-- The shutdown of the servers one after the other, under one deadline, and the time at its end.
unfoldable pub shut_down_servers : (Server → Option ℕ) → ℕ → ℕ → List Server → List Action × ℕ
shut_down_servers idle_at deadline now [] = ([], now)
shut_down_servers idle_at deadline now (s ∷ ss) =
    let (in_time, later) = closed_at deadline now (idle_at s) in
    let (rest, end) = shut_down_servers idle_at deadline later ss in
    (server_shut_down s in_time ∷ rest, end)

-- What is outside while the process ends; `ssh` is there if the SSH server was started, and
-- `ssh_ended` if its process has ended before it would be stopped.
pub record Outside : Type 0 where
  pub idle_at : Server → Option ℕ
  pub active : ℕ → ℕ
  pub lag : ℕ → ℕ
  pub ssh : Option Process
  pub ssh_ended : Bool
  pub late : Bool

-- The channel of the child when it is to be stopped; `main` has not received from it.
abbrev pub done_of : Bool → Done
done_of true = reported
done_of false = running

abbrev pub exit_code_for : Trigger → ℕ
exit_code_for signalled = 0
exit_code_for server_failed = 1
exit_code_for ssh_exited = 1

-- The last step: the SSH process is stopped if there is one and it has not ended by itself. `none`
-- means that the process never ends.
abbrev pub after_stop : ℕ → List Action → ℕ → Stopping → Option (List Action × ℕ)
after_stop code actions now (hangs sent) = none
after_stop code actions now (returns sent t d) =
    some (actions ++ (ssh_stopped sent ∷ exit_code code ∷ []), now + t)

unfoldable pub stop_ssh :
    Outside → Trigger → List Action → ℕ → Option Process → Option (List Action × ℕ)
stop_ssh o trigger actions now none =
    some (actions ++ (exit_code (exit_code_for trigger) ∷ []), now)
stop_ssh o ssh_exited actions now (some p) =
    some (actions ++ (exit_code (exit_code_for ssh_exited) ∷ []), now)
stop_ssh o server_failed actions now (some p) =
    after_stop (exit_code_for server_failed) actions now
      (stop_child ssh_child_stop_timeout o.late p (some (done_of o.ssh_ended)))
stop_ssh o signalled actions now (some p) =
    after_stop (exit_code_for signalled) actions now
      (stop_child ssh_child_stop_timeout o.late p (some (done_of o.ssh_ended)))

abbrev pub end_time : WaitEnd → ℕ
end_time (all_gone t) = t
end_time (gave_up t n) = t

-- `main` from the end of its wait, at a time; the result is what it does and when it ends.
unfoldable pub shut_down : Outside → Trigger → List Server → ℕ → Option (List Action × ℕ)
shut_down o trigger servers now =
    let (closed, later) = shut_down_servers o.idle_at (now + shutdown_timeout) now servers in
    elim (wait_for_git_commands o.active o.lag git_shutdown_grace later) [
      | none ↦ none
      | some w ↦
          stop_ssh o trigger (closed ++ (git_cancelled ∷ git_waited w ∷ [])) (end_time w) o.ssh
    ]
