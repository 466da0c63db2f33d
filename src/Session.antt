-- ===== src/Session.antt =====
-- One SSH session of cmd/ssh-read-write/session.go: `parseExecPayload`, `writeExitStatus`,
-- `handleSession` and `runGitCommand`. What a session does is the list of its effects, in order.
pub mod Wire
pub mod Ending
pub mod Loop
pub mod Run
pub mod Guard
pub mod Tests
use simple_git_server.Base.{
  ℕ, zero, suc, ◌+◌, ◌-◌, ◌*◌, ◌/◌, ◌%◌, ◌^◌, Bool, true, false, List, [], ◌∷◌, ◌++◌, ◌==◌,
  if◌then◌else◌, ltb, Option, none, some, length, take, drop, Result, ok, err, ◌>>=◌, ℤ, pos,
  negsuc,
}
use simple_git_server.Text.{Bytes, codes}
use simple_git_server.Command.{
  GitService, receive_pack, upload_pack, CommandError, ParsedGitCommand, parse_git_ssh_command,
}
use simple_git_server.Containment.{FsError, FileSystem}
use simple_git_server.RepoPath.{RepoPathError, resolve_repo_path}

-- The payload of an exec request: the length of the command in four bytes, then the command. `int`
-- has 64 bits, so the length is never negative.
unfoldable pub parse_exec_payload : Bytes → Option Bytes
parse_exec_payload (a ∷ b ∷ c ∷ d ∷ rest) =
    let n = a * 2 ^ 24 + b * 2 ^ 16 + c * 2 ^ 8 + d in
    if ltb (length (a ∷ b ∷ c ∷ d ∷ rest)) (4 + n) then none else some (take n rest)
parse_exec_payload _ = none

-- uint32(code)
unfoldable pub to_u32 : ℤ → ℕ
to_u32 (pos n) = n % 2 ^ 32
to_u32 (negsuc n) = 2 ^ 32 - 1 - n % 2 ^ 32

-- The four bytes of an exit status.
unfoldable pub exit_status_bytes : ℤ → Bytes
unfolding to_u32
exit_status_bytes code =
    let s = to_u32 code in
    (s / 2 ^ 24 % 256) ∷ (s / 2 ^ 16 % 256) ∷ (s / 2 ^ 8 % 256) ∷ (s % 256) ∷ []

pub data RequestType : Type 0 where
  env exec shell : RequestType
  other_type : Bytes → RequestType

pub record Request : Type 0 where
  pub kind : RequestType
  pub want_reply : Bool
  pub payload : Bytes

-- What a session does on its channel.
pub data Effect : Type 0 where
  stop_guard : Effect
  reply : Bool → Effect
  stderr : Bytes → Effect
  run_command : Bytes → Effect
  exit_status : Bytes → Effect
  close : Effect

unfoldable pub answer : Request → Bool → List Effect
answer r b = if r.want_reply then reply b ∷ [] else []

abbrev pub shell_disabled : Bytes
shell_disabled =
    codes
      "simple-git-server-ssh-read-write: shell disabled; use git receive-pack / upload-pack only\n"

abbrev pub failure : ℤ
failure = pos 128

-- The loop of `handleSession`, where `run_git` is the exit code of a command; the channel is closed
-- at the end in any case.
unfoldable pub serve_exec : (Bytes → ℤ) → Request → Option Bytes → List Effect
serve_exec run_git r none = answer r false ++ (exit_status (exit_status_bytes failure) ∷ close ∷ [])
serve_exec run_git r (some line) =
    answer r true
    ++ (run_command line ∷ exit_status (exit_status_bytes (run_git line)) ∷ close ∷ [])

unfoldable pub handle_session : (Bytes → ℤ) → List Request → List Effect
unfolding serve_exec
handle_session run_git [] = close ∷ []
handle_session run_git (r ∷ rs) = elim (r.kind) [
  | env ↦ answer r true ++ handle_session run_git rs
  | exec ↦ stop_guard ∷ serve_exec run_git r (parse_exec_payload r.payload)
  | shell ↦
      stop_guard
      ∷ (answer r false
          ++ (stderr shell_disabled ∷ exit_status (exit_status_bytes failure) ∷ close ∷ []))
  | other_type t ↦ answer r false ++ handle_session run_git rs
]

-- The state that sessions share: the semaphore of git processes (none is a nil channel), the
-- connection's count of running commands, and the server's wait group.
pub record Counts : Type 0 where
  pub git_sem : Option (ℕ × ℕ)
  pub active : ℕ
  pub git_wg : ℕ

-- How a command ends: what the client is told, or git itself with its exit.
pub data GitExit : Type 0 where
  success : GitExit
  exit_code : ℤ → GitExit
  exec_error : GitExit

pub data Outcome : Type 0 where
  bad_command : CommandError → Outcome
  bad_path : RepoPathError → Outcome
  busy : Outcome
  -- git ran, while the counts were these
  ran : Counts → GitService → Bytes → GitExit → Outcome

unfoldable pub exit_code_of : Outcome → ℤ
exit_code_of (ran during service path success) = pos 0
exit_code_of (ran during service path (exit_code n)) = n
exit_code_of _ = failure

-- Takes a slot of the semaphore (in use, capacity), if there is one free.
unfoldable pub acquire : Option (ℕ × ℕ) → Option (Option (ℕ × ℕ))
acquire none = some none
acquire (some (used, cap)) = if ltb used cap then some (some (used + 1, cap)) else none

unfoldable pub release : Option (ℕ × ℕ) → Option (ℕ × ℕ)
release none = none
release (some (used, cap)) = some (used - 1, cap)

pub record SessionConfig : Type 0 where
  pub git_repos_folder : Bytes
  pub enable_ssh_read : Bool
  pub enable_ssh_write : Bool

-- `begin` and `Add(1)`, and the deferred calls in reverse order.
unfoldable pub enter : Counts → Option (ℕ × ℕ) → Counts
enter c sem = record { git_sem = sem; active = c.active + 1; git_wg = c.git_wg + 1 }

unfoldable pub leave : Counts → Counts
unfolding release
leave c = record { git_sem = release c.git_sem; active = c.active - 1; git_wg = c.git_wg - 1 }

module _ (fs : FileSystem) (cwd : Result FsError Bytes) (git : GitService → Bytes → GitExit) where
  -- The part from the semaphore on.
  unfoldable pub start_git : Counts → GitService → Bytes → Outcome × Counts
  unfolding acquire enter leave
  start_git c service path = elim (acquire c.git_sem) [
    | none ↦ (busy, c)
    | some sem ↦
        let during = enter c sem in (ran during service path (git service path), leave during)
  ]

  unfoldable pub run_git_command : SessionConfig → Bytes → Counts → Outcome × Counts
  run_git_command cfg cmd_line c =
      elim (parse_git_ssh_command cmd_line cfg.enable_ssh_read cfg.enable_ssh_write) [
        | err e ↦ (bad_command e, c)
        | ok parsed ↦ elim (resolve_repo_path fs cwd cfg.git_repos_folder parsed.repo) [
          | err e ↦ (bad_path e, c)
          | ok path ↦ start_git c parsed.service path
        ]
      ]
