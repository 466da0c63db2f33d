-- ===== src/Config.antt =====
-- The configuration of main.go, ssh_supervise.go and http_write.go: `buildConfig` with its option
-- records, and the checks of `main` behind it. A duration is in nanoseconds. `os.Stat` is a
-- parameter.
pub mod Valid
pub mod Limits
pub mod Prefix
pub mod Tests
use simple_git_server.Base.{
  ℕ, Bool, true, false, not, ◌&&◌, ◌||◌, [], ◌∷◌, ◌++◌, ◌==◌, if◌then◌else◌, Result, ok, err, ◌>>=◌,
  ◌>>◌, ℤ, pos, negsuc, ltb, ◌*◌, ◌^◌,
}
use simple_git_server.Text.{Bytes, codes, equal, has_prefix, has_suffix}
use simple_git_server.Text.Unicode.{trim_space}
use simple_git_server.Containment.{FsError, FileSystem, FileKind}
use simple_git_server.GitPath.{root_path}

abbrev pub default_ssh_on : Bytes
default_ssh_on = codes "127.0.0.1:64222"

abbrev pub default_ssh_read_write_binary : Bytes
default_ssh_read_write_binary = codes "simple-git-server-ssh-read-write"

abbrev pub default_http_write_binary : Bytes
default_http_write_binary = codes "simple-git-server-http-write"

abbrev pub default_prefix : Bytes
default_prefix = root_path

abbrev pub default_git_max_concurrent : ℕ
default_git_max_concurrent = 32

abbrev pub default_git_idle_timeout : ℕ
default_git_idle_timeout = 60 * 10 ^ 9

abbrev pub default_max_git_request_body : ℕ
default_max_git_request_body = 100 * 2 ^ 20

pub record SshReadWriteOptions : Type 0 where
  pub enable : Bool
  pub ssh_on : Bytes
  pub host_key : Bytes
  pub authorized_keys : Bytes
  pub ssh_read_write_binary : Bytes
  pub enable_ssh_write : Bool

pub record HttpWriteOptions : Type 0 where
  pub enable : Bool
  pub http_write_binary : Bytes

-- The arguments of `buildConfig`.
pub record Flags : Type 0 where
  pub go_import_domain : Bytes
  pub git_repos_folder : Bytes
  pub enable_http_read : Bool
  pub http_on : Bytes
  pub enable_https_read : Bool
  pub https_on : Bytes
  pub https_cert : Bytes
  pub https_key : Bytes
  pub enable_go_import : Bool
  pub http_git_repos_prefix : Bytes
  pub go_import_git_url : Bytes
  pub ssh : SshReadWriteOptions
  pub http_write : HttpWriteOptions

pub record ServerConfig : Type 0 where
  pub enable_http_read : Bool
  pub http_on : Bytes
  pub enable_https_read : Bool
  pub https_on : Bytes
  pub https_cert : Bytes
  pub https_key : Bytes
  pub git_repos_folder : Bytes
  pub http_git_repos_prefix : Bytes
  pub enable_go_import : Bool
  pub go_import_domain : Bytes
  pub go_import_git_url : Bytes
  pub git_max_concurrent : ℕ
  pub git_idle_timeout : ℕ
  pub git_max_request_body : ℕ
  pub enable_ssh_read : Bool
  pub ssh_on : Bytes
  pub ssh_host_key : Bytes
  pub ssh_authorized_keys : Bytes
  pub ssh_read_write_binary : Bytes
  pub enable_ssh_write : Bool
  pub enable_http_write : Bool
  pub http_write_binary : Bytes

pub data ConfigError : Type 0 where
  nothing_to_serve https_cert_required https_key_required go_import_domain_required : ConfigError
  http_write_needs_listener ssh_write_needs_read ssh_host_key_required : ConfigError
  ssh_authorized_keys_required host_key_file authorized_keys_file : ConfigError
  bad_git_max_concurrent bad_git_idle_timeout bad_git_max_request_body : ConfigError

-- An error if the test holds.
abbrev pub reject_if : Bool → ConfigError → Result ConfigError (Unit {0})
reject_if true e = err e
reject_if false e = ok tt

unfoldable pub is_blank : Bytes → Bool
is_blank s = equal (trim_space s) []

unfoldable pub check_file : FileSystem → Bytes → ConfigError → Result ConfigError (Unit {0})
check_file fs path e = elim (fs.stat path) [ ok k ↦ ok tt | err x ↦ err e ]

unfoldable pub check_listeners : Flags → Result ConfigError (Unit {0})
check_listeners f = do
  reject_if (not f.enable_http_read && not f.enable_https_read && not f.ssh.enable) nothing_to_serve
  reject_if (f.enable_https_read && equal f.https_cert []) https_cert_required
  reject_if (f.enable_https_read && equal f.https_key []) https_key_required
  reject_if (f.enable_go_import && is_blank f.go_import_domain) go_import_domain_required
  reject_if (f.http_write.enable && not f.enable_http_read && not f.enable_https_read)
      http_write_needs_listener
  reject_if (f.ssh.enable_ssh_write && not f.ssh.enable) ssh_write_needs_read

unfoldable pub check_ssh : FileSystem → SshReadWriteOptions → Result ConfigError (Unit {0})
check_ssh fs ssh = elim (ssh.enable) [
  | false ↦ ok tt
  | true ↦ do
    reject_if (is_blank ssh.host_key) ssh_host_key_required
    reject_if (is_blank ssh.authorized_keys) ssh_authorized_keys_required
    check_file fs ssh.host_key host_key_file
    check_file fs ssh.authorized_keys authorized_keys_file
]

-- The prefix with a `/` at both ends.
unfoldable pub normalize_prefix : Bytes → Bytes
normalize_prefix p =
    let given = if equal p [] then default_prefix else p in
    let led = if has_prefix given root_path then given else root_path ++ given in
    if has_suffix led root_path then led else led ++ root_path

-- A value, or the default for the empty text.
unfoldable pub or_default : Bytes → Bytes → Bytes
or_default s d = if equal s [] then d else s

unfoldable pub config_of : Flags → ServerConfig
config_of f =
    let prefix = normalize_prefix f.http_git_repos_prefix in
    record {
      enable_http_read = f.enable_http_read;
      http_on = f.http_on;
      enable_https_read = f.enable_https_read;
      https_on = f.https_on;
      https_cert = f.https_cert;
      https_key = f.https_key;
      git_repos_folder = f.git_repos_folder;
      http_git_repos_prefix = prefix;
      enable_go_import = f.enable_go_import;
      go_import_domain = trim_space f.go_import_domain;
      go_import_git_url =
          or_default f.go_import_git_url
            (codes "https://{domain}" ++ (prefix ++ codes "{repo}.git"));
      git_max_concurrent = default_git_max_concurrent;
      git_idle_timeout = default_git_idle_timeout;
      git_max_request_body = 0;
      enable_ssh_read = f.ssh.enable;
      ssh_on = or_default f.ssh.ssh_on default_ssh_on;
      ssh_host_key = f.ssh.host_key;
      ssh_authorized_keys = f.ssh.authorized_keys;
      ssh_read_write_binary = or_default f.ssh.ssh_read_write_binary default_ssh_read_write_binary;
      enable_ssh_write = f.ssh.enable_ssh_write;
      enable_http_write = f.http_write.enable;
      http_write_binary = or_default f.http_write.http_write_binary default_http_write_binary;
    }

unfoldable pub build_config : FileSystem → Flags → Result ConfigError ServerConfig
build_config fs f = do check_listeners f; check_ssh fs f.ssh; ok (config_of f)

-- n < k for a natural number k
abbrev pub below : ℤ → ℕ → Bool
below (pos n) k = ltb n k
below (negsuc n) k = true

abbrev pub to_ℕ : ℤ → ℕ
to_ℕ (pos n) = n
to_ℕ (negsuc n) = 0

-- The checks of `main` on the limits, and the limits put into the configuration.
unfoldable pub with_limits : ℤ → ℤ → ℤ → ServerConfig → Result ConfigError ServerConfig
with_limits concurrent idle body cfg = do
  reject_if (below concurrent 1) bad_git_max_concurrent
  reject_if (below idle 0) bad_git_idle_timeout
  reject_if (below body 1) bad_git_max_request_body
  ok (record cfg {
    git_max_concurrent = to_ℕ concurrent;
    git_idle_timeout = to_ℕ idle;
    git_max_request_body = to_ℕ body;
  })

-- maxRequestBody
unfoldable pub max_request_body : ServerConfig → ℕ
max_request_body c =
    if ltb 0 c.git_max_request_body then c.git_max_request_body else default_max_git_request_body
