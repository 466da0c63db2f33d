-- ===== src/Supervise.antt =====
-- ssh_supervise.go: the arguments of the supervised SSH server, the search for its binary, and how
-- it is stopped. A time is in nanoseconds. When the process ends on a signal is a parameter.
pub mod Stop
pub mod Tests
use simple_git_server.Base.{
  ℕ, ◌+◌, Bool, true, false, ◌||◌, ◌&&◌, List, [], ◌∷◌, ◌++◌, Option, none, some, ltb, min,
  if◌then◌else◌, ◌==◌, ◌*◌, ◌^◌,
}
use simple_git_server.Text.{Bytes, codes, equal}
use simple_git_server.Text.Decimal.{decimal}
use simple_git_server.Text.Numbers.{format_bool}
use simple_git_server.Duration.{duration_string}
use simple_git_server.Config.{ServerConfig, or_default, default_ssh_read_write_binary}

abbrev pub ssh_child_stop_timeout : ℕ
ssh_child_stop_timeout = 5 * 10 ^ 9

unfoldable pub ssh_read_write_args : ServerConfig → List Bytes
ssh_read_write_args cfg =
    codes "--git-repos-folder"
    ∷ cfg.git_repos_folder
    ∷ codes "--ssh-on"
    ∷ cfg.ssh_on
    ∷ codes "--ssh-host-key"
    ∷ cfg.ssh_host_key
    ∷ codes "--ssh-authorized-keys"
    ∷ cfg.ssh_authorized_keys
    ∷ (codes "--enable-ssh-read=" ++ format_bool cfg.enable_ssh_read)
    ∷ (codes "--enable-ssh-write=" ++ format_bool cfg.enable_ssh_write)
    ∷ (codes "--git-max-concurrent=" ++ decimal cfg.git_max_concurrent)
    ∷ (codes "--git-idle-timeout=" ++ duration_string cfg.git_idle_timeout)
    ∷ []

-- `look_path` is `exec.LookPath`.
unfoldable pub resolve_ssh_read_write_binary : (Bytes → Option Bytes) → Bytes → Option Bytes
unfolding or_default
resolve_ssh_read_write_binary look_path name =
    look_path (or_default name default_ssh_read_write_binary)

-- The channel `done`: the process runs, its end has been reported, or the report has been taken
-- out.
pub data Done : Type 0 where
  running reported taken : Done

pub data Signal : Type 0 where
  sigterm sigkill : Signal

-- The process: how long after SIGTERM it ends, if it does, and how long after SIGKILL.
pub record Process : Type 0 where
  pub on_term : Option ℕ
  pub on_kill : ℕ

-- What `stop` does: the signals that it sends to the process group, and how long it takes until it
-- returns; `hangs` waits forever.
pub data Stopping : Type 0 where
  returns : List Signal → ℕ → Done → Stopping
  hangs : List Signal → Stopping

-- The second `select`: the end of the process, or the timeout. When both are there at the same
-- time, either may be taken: `late` says which.
abbrev pub await_end : ℕ → Bool → Process → Option ℕ → Stopping
await_end timeout late p none = returns (sigterm ∷ sigkill ∷ []) (timeout + p.on_kill) taken
await_end timeout late p (some t) =
    if ltb t timeout || (t == timeout && late)
    then returns (sigterm ∷ []) t taken
    else returns (sigterm ∷ sigkill ∷ []) (min t (timeout + p.on_kill)) taken

-- `stop` of a child; `none` is a nil pointer.
unfoldable pub stop_child : ℕ → Bool → Process → Option Done → Stopping
stop_child timeout late p none = returns [] 0 taken
stop_child timeout late p (some reported) = returns [] 0 taken
stop_child timeout late p (some running) = await_end timeout late p p.on_term
stop_child timeout late p (some taken) = hangs (sigterm ∷ sigkill ∷ [])
