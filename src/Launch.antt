-- ===== src/Launch.antt =====
-- The first half of `main` in main.go: the flags, the configuration made of them, the checks behind
-- it in their order, and what is started. Files, `exec.LookPath` and the start of a process are
-- parameters.
pub mod Started
pub mod Child
pub mod Tests
use simple_git_server.Base.{
  ℕ, ◌*◌, ◌^◌, Bool, true, false, not, List, [], ◌∷◌, Option, none, some, Result, ok, err, ◌>>=◌,
  ◌>>◌, ℤ, pos, if◌then◌else◌,
}
use simple_git_server.Text.{Bytes, codes}
use simple_git_server.Flag.{
  Kind, bool_flag, string_flag, int_flag, duration_flag, FlagError, flags_of, parse_args,
}
use simple_git_server.Containment.{FileSystem}
use simple_git_server.Config.{
  Flags, ServerConfig, ConfigError, build_config, with_limits, default_ssh_on,
  default_ssh_read_write_binary, SshReadWriteOptions, HttpWriteOptions, default_http_write_binary,
  default_prefix, default_max_git_request_body,
}
use simple_git_server.Backend.{resolve_http_write_binary}
use simple_git_server.Supervise.{ssh_read_write_args, resolve_ssh_read_write_binary}
use simple_git_server.Shutdown.{Server, servers_of}

-- The flags: those that `buildConfig` takes, and the limits.
pub record MainFlags : Type 0 where
  pub version : Bool
  pub config : Flags
  pub git_max_concurrent : ℤ
  pub git_idle_timeout : ℤ
  pub git_max_request_body : ℤ

abbrev pub default_flags : MainFlags
default_flags = record {
  version = false;
  config = record {
    go_import_domain = [];
    git_repos_folder = codes "/home/git";
    enable_http_read = true;
    http_on = codes "127.0.0.1:64180";
    enable_https_read = false;
    https_on = codes "127.0.0.1:64143";
    https_cert = [];
    https_key = [];
    enable_go_import = false;
    http_git_repos_prefix = default_prefix;
    go_import_git_url = [];
    ssh = record {
      enable = false;
      ssh_on = default_ssh_on;
      host_key = [];
      authorized_keys = [];
      ssh_read_write_binary = default_ssh_read_write_binary;
      enable_ssh_write = false;
    };
    http_write = record { enable = false; http_write_binary = default_http_write_binary };
  };
  git_max_concurrent = pos 32;
  git_idle_timeout = pos (60 * 10 ^ 9);
  git_max_request_body = pos default_max_git_request_body;
}

abbrev pub in_config : (Flags → Flags) → MainFlags → MainFlags
in_config g f = record f { config = g f.config }

abbrev pub in_ssh : (SshReadWriteOptions → SshReadWriteOptions) → MainFlags → MainFlags
in_ssh g = in_config (λ c. record c { ssh = g c.ssh })

abbrev pub in_http_write : (HttpWriteOptions → HttpWriteOptions) → MainFlags → MainFlags
in_http_write g = in_config (λ c. record c { http_write = g c.http_write })

abbrev pub main_flags : List (Bytes × Kind MainFlags)
main_flags =
    (codes "version", bool_flag (λ b f. record f { version = b }))
    ∷ (
      codes "git-repos-folder",
      string_flag (λ s. in_config (λ c. record c { git_repos_folder = s })),
    )
    ∷ (
      codes "http-git-repos-prefix",
      string_flag (λ s. in_config (λ c. record c { http_git_repos_prefix = s })),
    )
    ∷ (
      codes "enable-http-read",
      bool_flag (λ b. in_config (λ c. record c { enable_http_read = b })),
    )
    ∷ (codes "http-on", string_flag (λ s. in_config (λ c. record c { http_on = s })))
    ∷ (
      codes "enable-https-read",
      bool_flag (λ b. in_config (λ c. record c { enable_https_read = b })),
    )
    ∷ (codes "https-on", string_flag (λ s. in_config (λ c. record c { https_on = s })))
    ∷ (codes "https-cert", string_flag (λ s. in_config (λ c. record c { https_cert = s })))
    ∷ (codes "https-key", string_flag (λ s. in_config (λ c. record c { https_key = s })))
    ∷ (codes "enable-http-write", bool_flag (λ b. in_http_write (λ w. record w { enable = b })))
    ∷ (
      codes "http-write-binary",
      string_flag (λ s. in_http_write (λ w. record w { http_write_binary = s })),
    )
    ∷ (codes "enable-ssh-read", bool_flag (λ b. in_ssh (λ s. record s { enable = b })))
    ∷ (codes "ssh-on", string_flag (λ v. in_ssh (λ s. record s { ssh_on = v })))
    ∷ (codes "ssh-host-key", string_flag (λ v. in_ssh (λ s. record s { host_key = v })))
    ∷ (
      codes "ssh-authorized-keys",
      string_flag (λ v. in_ssh (λ s. record s { authorized_keys = v })),
    )
    ∷ (
      codes "ssh-read-write-binary",
      string_flag (λ v. in_ssh (λ s. record s { ssh_read_write_binary = v })),
    )
    ∷ (codes "enable-ssh-write", bool_flag (λ b. in_ssh (λ s. record s { enable_ssh_write = b })))
    ∷ (
      codes "enable-go-import",
      bool_flag (λ b. in_config (λ c. record c { enable_go_import = b })),
    )
    ∷ (
      codes "go-import-domain",
      string_flag (λ s. in_config (λ c. record c { go_import_domain = s })),
    )
    ∷ (
      codes "go-import-git-url",
      string_flag (λ s. in_config (λ c. record c { go_import_git_url = s })),
    )
    ∷ (codes "git-max-concurrent", int_flag (λ n f. record f { git_max_concurrent = n }))
    ∷ (codes "git-idle-timeout", duration_flag (λ d f. record f { git_idle_timeout = d }))
    ∷ (codes "git-max-request-body", int_flag (λ n f. record f { git_max_request_body = n }))
    ∷ []

-- `fraction` is what `time.ParseDuration` makes of a fraction.
unfoldable pub parse_main_flags :
    (ℕ → Bytes → ℕ) → List Bytes → Result FlagError (MainFlags × List Bytes)
parse_main_flags fraction args = parse_args (flags_of fraction main_flags) args default_flags

pub data LaunchError : Type 0 where
  bad_config : ConfigError → LaunchError
  git_not_found http_write_not_found ssh_not_found ssh_not_started : LaunchError

abbrev pub or_fail {ℓ} : {A : Type ℓ} → Option A → LaunchError → Result LaunchError A
or_fail (some a) e = ok a
or_fail none e = err e

abbrev pub config_checked : Result ConfigError ServerConfig → Result LaunchError ServerConfig
config_checked (ok c) = ok c
config_checked (err e) = err (bad_config e)

-- The configuration with the servers to start, and the command of the SSH child if there is one.
pub record Launched : Type 0 where
  pub config : ServerConfig
  pub servers : List Server
  pub ssh_argv : Option (List Bytes)

-- `buildConfig`, and the limits.
unfoldable pub configure : FileSystem → MainFlags → Result ConfigError ServerConfig
configure fs f = do
  cfg ← build_config fs f.config
  with_limits f.git_max_concurrent f.git_idle_timeout f.git_max_request_body cfg

unfoldable pub check_http_write :
    (Bytes → Option Bytes) → ServerConfig → Result LaunchError (Unit {0})
check_http_write look_path cfg =
    if cfg.enable_http_write
    then or_fail (resolve_http_write_binary look_path cfg.http_write_binary) http_write_not_found
      >>= (λ b. ok tt)
    else ok tt

module _ (look_path : Bytes → Option Bytes) (can_start : List Bytes → Bool) where
  -- `startSSHReadWrite`
  abbrev pub start_child : ServerConfig → Bytes → Result LaunchError (Option (List Bytes))
  start_child cfg binary =
      if can_start (binary ∷ ssh_read_write_args cfg)
      then ok (some (binary ∷ ssh_read_write_args cfg))
      else err ssh_not_started

  unfoldable pub start_ssh_child : ServerConfig → Result LaunchError (Option (List Bytes))
  start_ssh_child cfg =
      if cfg.enable_ssh_read
      then or_fail (resolve_ssh_read_write_binary look_path cfg.ssh_read_write_binary) ssh_not_found
        >>= start_child cfg
      else ok none

  unfoldable pub launch : FileSystem → MainFlags → Result LaunchError Launched
  launch fs f = do
    cfg ← config_checked (configure fs f)
    git ← or_fail (look_path (codes "git")) git_not_found
    check_http_write look_path cfg
    ssh_argv ← start_ssh_child cfg
    ok (record { config = cfg; servers = servers_of cfg; ssh_argv = ssh_argv })

-- `main` until the servers run; `flag.Parse` ends the process on an error of the flags.
pub data MainStart : Type 0 where
  usage : FlagError → MainStart
  shows_version : MainStart
  fails : LaunchError → MainStart
  runs : Launched → MainStart

abbrev pub launched : Result LaunchError Launched → MainStart
launched (ok l) = runs l
launched (err e) = fails e

unfoldable pub main_start :
    (ℕ → Bytes → ℕ)
    → FileSystem
    → (Bytes → Option Bytes)
    → (List Bytes → Bool)
    → List Bytes
    → MainStart
main_start fraction fs look_path can_start args = elim (parse_main_flags fraction args) [
  | err e ↦ usage e
  | ok (f, rest) ↦ if f.version then shows_version else launched (launch look_path can_start fs f)
]
