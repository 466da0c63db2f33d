-- ===== src/Shutdown/Tests.antt =====
-- A shutdown with a slow client, git commands that end, and an SSH child, and instances of the
-- theorems.
use simple_git_server.Base.{
  ℕ, ◌+◌, ◌≤◌, ◌≡◌, refl, true, false, [], ◌∷◌, some, leb, if◌then◌else◌, arith,
}
use simple_git_server.Text.{codes}
use simple_git_server.Supervise.{sigterm, stop_child}
use simple_git_server.Shutdown.{
  Server, all_gone, gave_up, Outside, signalled, server_shut_down, git_cancelled, git_waited,
  ssh_stopped, exit_code, wait_loop, wait_for_git_commands, shut_down_servers, stop_ssh, shut_down,
  poll_interval,
}
use simple_git_server.Shutdown.Waiting.{wait_for_git_commands-finds}
use simple_git_server.Shutdown.Ending.{Finishes, shut_down-Finishes}

abbrev http : Server
http = record { addr = codes ":80"; tls = false }

-- Two git commands until 50 milliseconds after the start.
abbrev two_for_a_while : ℕ → ℕ
two_for_a_while t = if leb 50000000 t then 0 else 2

abbrev no_lag : ℕ → ℕ
no_lag t = 0

abbrev outside : Outside
outside = record {
  idle_at = λ s. some 10000000;
  active = two_for_a_while;
  lag = no_lag;
  ssh = some (record { on_term = some 1000; on_kill = 1 });
  ssh_ended = false;
  late = false;
}

ends_well :
    shut_down outside signalled (http ∷ []) 0
    ≡ some (
      server_shut_down http true
          ∷ git_cancelled
          ∷ git_waited (all_gone 50000000)
          ∷ ssh_stopped (sigterm ∷ [])
          ∷ exit_code 0
          ∷ [],
      50001000,
    )
unfolding shut_down shut_down_servers wait_for_git_commands wait_loop stop_ssh stop_child
ends_well = refl

gives_up : wait_for_git_commands (λ t. 1) no_lag 50000000 7 ≡ some (gave_up 60000007 1)
unfolding wait_for_git_commands wait_loop
gives_up = refl

shut_down-Finishes_example :
    Finishes outside signalled (http ∷ []) 0 0 (shut_down outside signalled (http ∷ []) 0)
shut_down-Finishes_example = shut_down-Finishes outside signalled (http ∷ []) 0 0 (λ t. omega arith)

gone_later : (t : ℕ) → 50000000 ≤ t → two_for_a_while t ≡ 0
gone_later t h = ground arith

wait_for_git_commands-finds_example :
    (t : ℕ) × (wait_for_git_commands two_for_a_while no_lag 3000000000 0 ≡ some (all_gone t))
    × (t ≤ 50000000 + poll_interval + 0)
wait_for_git_commands-finds_example =
    wait_for_git_commands-finds two_for_a_while no_lag 0 (λ t. omega arith) 3000000000 0 50000000
      gone_later (omega arith) (omega arith)
