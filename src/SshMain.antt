-- ===== src/SshMain.antt =====
-- `main` of cmd/ssh-read-write/main.go: its flags, the checks in their order, what it serves, and
-- the loop over the signals. The file system, `exec.LookPath`, `net.Listen` and the SSH library are
-- parameters.
pub mod Handover
pub mod Reload
pub mod Serves
pub mod Tests
use simple_git_server.Base.{
  ℕ, ◌+◌, ◌*◌, ◌^◌, Bool, true, false, not, ◌&&◌, List, [], ◌∷◌, Option, none, some, Result, ok,
  err, ◌>>=◌, ◌>>◌, ℤ, pos, negsuc, leb, if◌then◌else◌,
}
use simple_git_server.Text.{Bytes, codes, equal}
use simple_git_server.Flag.{
  Kind, bool_flag, string_flag, int_flag, duration_flag, FlagError, help_requested, FlagSet,
  flags_of, parse_args,
}
use simple_git_server.Auth.{KeyLine, KeyStore, StoreError, reload, new_key_store}
use simple_git_server.Session.{SessionConfig}
use simple_git_server.Config.{default_ssh_on, below, to_ℕ}

pub record SshFlags : Type 0 where
  pub version : Bool
  pub git_repos_folder : Bytes
  pub ssh_on : Bytes
  pub ssh_host_key : Bytes
  pub ssh_authorized_keys : Bytes
  pub enable_ssh_read : Bool
  pub enable_ssh_write : Bool
  pub git_max_concurrent : ℤ
  pub ssh_max_connections : ℤ
  pub git_idle_timeout : ℤ

abbrev pub default_ssh_flags : SshFlags
default_ssh_flags = record {
  version = false;
  git_repos_folder = codes "/home/git";
  ssh_on = default_ssh_on;
  ssh_host_key = [];
  ssh_authorized_keys = [];
  enable_ssh_read = true;
  enable_ssh_write = false;
  git_max_concurrent = pos 32;
  ssh_max_connections = pos 128;
  git_idle_timeout = pos (60 * 10 ^ 9);
}

abbrev pub ssh_flags : List (Bytes × Kind SshFlags)
ssh_flags =
    (codes "version", bool_flag (λ b f. record f { version = b }))
    ∷ (codes "git-repos-folder", string_flag (λ s f. record f { git_repos_folder = s }))
    ∷ (codes "ssh-on", string_flag (λ s f. record f { ssh_on = s }))
    ∷ (codes "ssh-host-key", string_flag (λ s f. record f { ssh_host_key = s }))
    ∷ (codes "ssh-authorized-keys", string_flag (λ s f. record f { ssh_authorized_keys = s }))
    ∷ (codes "enable-ssh-read", bool_flag (λ b f. record f { enable_ssh_read = b }))
    ∷ (codes "enable-ssh-write", bool_flag (λ b f. record f { enable_ssh_write = b }))
    ∷ (codes "git-max-concurrent", int_flag (λ n f. record f { git_max_concurrent = n }))
    ∷ (codes "ssh-max-connections", int_flag (λ n f. record f { ssh_max_connections = n }))
    ∷ (codes "git-idle-timeout", duration_flag (λ d f. record f { git_idle_timeout = d }))
    ∷ []

-- `fraction` is what `time.ParseDuration` makes of a fraction.
unfoldable pub parse_ssh_flags :
    (ℕ → Bytes → ℕ) → List Bytes → Result FlagError (SshFlags × List Bytes)
parse_ssh_flags fraction args = parse_args (flags_of fraction ssh_flags) args default_ssh_flags

pub data SshStartError : Type 0 where
  host_key_required authorized_keys_required : SshStartError
  bad_git_max_concurrent bad_ssh_max_connections bad_git_idle_timeout : SshStartError
  serves_nothing git_not_found bad_host_key : SshStartError
  bad_authorized_keys : StoreError → SshStartError
  cannot_listen : SshStartError

abbrev pub refuse_if : Bool → SshStartError → Result SshStartError (Unit {0})
refuse_if true e = err e
refuse_if false e = ok tt

abbrev pub or_refuse {ℓ} : {A : Type ℓ} → Option A → SshStartError → Result SshStartError A
or_refuse (some a) e = ok a
or_refuse none e = err e

-- The checks of `main` on the flags alone.
unfoldable pub check_ssh_flags : SshFlags → Result SshStartError (Unit {0})
check_ssh_flags f = do
  refuse_if (equal f.ssh_host_key []) host_key_required
  refuse_if (equal f.ssh_authorized_keys []) authorized_keys_required
  refuse_if (below f.git_max_concurrent 1) bad_git_max_concurrent
  refuse_if (below f.ssh_max_connections 1) bad_ssh_max_connections
  refuse_if (below f.git_idle_timeout 0) bad_git_idle_timeout
  refuse_if (not f.enable_ssh_read && not f.enable_ssh_write) serves_nothing

-- What is outside of the program: files, the search path, the SSH library, the network.
pub record SshWorld (Key Signer : Type 0) : Type 0 where
  pub read_file : Bytes → Option Bytes
  pub look_path : Bytes → Option Bytes
  pub parse_private_key : Bytes → Option Signer
  pub marshal : Key → Bytes
  pub parse_line : Bytes → Option (KeyLine Key)
  pub can_listen : Bytes → Bool

-- What is served: the configuration of the sessions, the limits, and the keys.
pub record SshServer (Key Signer : Type 0) : Type 0 where
  pub config : SessionConfig
  pub git_slots : ℕ
  pub git_idle_timeout : ℕ
  pub max_conns : ℕ
  pub listens_on : Bytes
  pub host_key : Signer
  pub keys : KeyStore Key

module _ {Key Signer : Type 0} (w : SshWorld Key Signer) where
  unfoldable pub load_host_key : Bytes → Option Signer
  load_host_key path = elim (w.read_file path) [ none ↦ none | some raw ↦ w.parse_private_key raw ]

  abbrev pub load_keys : Bytes → Result SshStartError (KeyStore Key × ℕ)
  load_keys path = elim (new_key_store w.marshal w.parse_line path (w.read_file path)) [
    | ok k ↦ ok k
    | err e ↦ err (bad_authorized_keys e)
  ]

  abbrev pub server_of : SshFlags → Signer → KeyStore Key → SshServer Key Signer
  server_of f signer keys = record {
    config = record {
      git_repos_folder = f.git_repos_folder;
      enable_ssh_read = f.enable_ssh_read;
      enable_ssh_write = f.enable_ssh_write;
    };
    git_slots = to_ℕ f.git_max_concurrent;
    git_idle_timeout = to_ℕ f.git_idle_timeout;
    max_conns = to_ℕ f.ssh_max_connections;
    listens_on = f.ssh_on;
    host_key = signer;
    keys = keys;
  }

  unfoldable pub start_ssh : SshFlags → Result SshStartError (SshServer Key Signer)
  start_ssh f = do
    check_ssh_flags f
    git ← or_refuse (w.look_path (codes "git")) git_not_found
    signer ← or_refuse (load_host_key f.ssh_host_key) bad_host_key
    keys ← load_keys f.ssh_authorized_keys
    refuse_if (not (w.can_listen f.ssh_on)) cannot_listen
    ok (server_of f signer keys.0)

  -- `main` up to the listening; `flag.Parse` ends the process on an error of the flags.
  pub data Start : Type 0 where
    usage : FlagError → Start
    shows_version : Start
    fails : SshStartError → Start
    serves : SshServer Key Signer → Start

  abbrev pub started : Result SshStartError (SshServer Key Signer) → Start
  started (ok s) = serves s
  started (err e) = fails e

  abbrev pub after_flags : Result FlagError (SshFlags × List Bytes) → Start
  after_flags (err e) = usage e
  after_flags (ok (f, rest)) = if f.version then shows_version else started (start_ssh f)

  unfoldable pub ssh_main : (ℕ → Bytes → ℕ) → List Bytes → Start
  ssh_main fraction args = after_flags (parse_ssh_flags fraction args)

-- What the loop of `main` waits for: an error of `acceptLoop`, SIGHUP with what reading the key
-- file gives, or another signal.
pub data MainEvent : Type 0 where
  accept_error : MainEvent
  sighup : Option Bytes → MainEvent
  terminated : MainEvent

-- What the process does when it ends, in order.
pub data Closing : Type 0 where
  close_listener cancel_git_commands wait_for_git_commands : Closing
  exit_code : ℕ → Closing

module _ {Key : Type 0} (marshal : Key → Bytes) (parse_line : Bytes → Option (KeyLine Key)) where
  -- The loop: the keys when it ends or the events are over, and how the process ends.
  unfoldable pub main_loop : KeyStore Key → List MainEvent → KeyStore Key × List Closing
  main_loop keys [] = (keys, [])
  main_loop keys (accept_error ∷ es) = (keys, close_listener ∷ exit_code 1 ∷ [])
  main_loop keys (sighup read ∷ es) = main_loop (reload marshal parse_line keys read).0 es
  main_loop keys (terminated ∷ es) =
      (keys, close_listener ∷ cancel_git_commands ∷ wait_for_git_commands ∷ exit_code 0 ∷ [])

-- `waitForGitCommands`: the time after which it returns, and whether it gave up. `gone` is when the
-- last of the commands has ended.
unfoldable pub wait_for_git_wg : ℕ → Option ℕ → ℕ × Bool
wait_for_git_wg d none = (d, true)
wait_for_git_wg d (some t) = if leb t d then (t, false) else (d, true)
