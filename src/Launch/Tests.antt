-- ===== src/Launch/Tests.antt =====
-- The start of a server with SSH, and instances of the theorems on it.
use simple_git_server.Base.{ℕ, ◌≡◌, ◌↔◌, refl, true, List, [], ◌∷◌, Option, some, ok, arith, Bool}
use simple_git_server.Dict.{lookup, insert}
use simple_git_server.Text.{Bytes, codes, equal, split, before, after?}
use simple_git_server.Text.Numbers.{parse_bool}
use simple_git_server.Text.Unicode.{trim_space}
use simple_git_server.Auth.{
  KeyStore, new_key_store, parse_authorized_keys, add_line, keep_key, is_skipped,
  unenforceable_options,
}
use simple_git_server.Containment.Disk.{disk}
use simple_git_server.Config.{
  build_config, config_of, with_limits, check_listeners, check_ssh, check_file, is_blank,
  or_default, nothing_to_serve, ssh_write_needs_read,
}
use simple_git_server.Flag.{read_arg, parse_one, parse_args, flags_of, set_kind}
use simple_git_server.Supervise.{resolve_ssh_read_write_binary}
use simple_git_server.SshMain.{SshWorld, load_host_key, serves, ssh_main}
use simple_git_server.SshMain.Serves.{Provides, promised}
use simple_git_server.Launch.{
  MainFlags, default_flags, parse_main_flags, bad_config, Launched, configure, check_http_write,
  start_ssh_child, launch, fails, main_start,
}
use simple_git_server.Launch.Started.{Started, launch-Started_iff}
use simple_git_server.Launch.Child.{launch-ssh_main}

abbrev no_fraction : ℕ → Bytes → ℕ
no_fraction unit digits = 0

abbrev found : Bytes → Option Bytes
found name = some name

abbrev startable : List Bytes → Bool
startable argv = true

-- Without an HTTP listener nothing is served, and pushing over SSH wants the SSH server.
refusals :
    (main_start no_fraction disk found startable (codes "--enable-http-read=false" ∷ [])
      ≡ fails (bad_config nothing_to_serve))
    × (main_start no_fraction disk found startable (codes "--enable-ssh-write" ∷ [])
        ≡ fails (bad_config ssh_write_needs_read))
unfolding main_start parse_main_flags parse_args parse_one read_arg flags_of set_kind lookup equal
    before after? parse_bool launch configure build_config check_listeners is_blank trim_space
refusals = (refl, refl)

abbrev with_ssh : MainFlags
with_ssh = record default_flags {
  config = record default_flags.config {
    ssh = record default_flags.config.ssh {
      enable = true;
      host_key = codes "/k";
      authorized_keys = codes "/a";
    };
  };
}

started : (l : Launched) × (launch found startable disk with_ssh ≡ ok l)
unfolding launch configure build_config check_listeners check_ssh check_file is_blank equal
    trim_space config_of with_limits check_http_write start_ssh_child resolve_ssh_read_write_binary
    or_default
started = (_, refl)

launch-Started_iff_example :
    (launch found startable disk with_ssh ≡ ok started.0)
    ↔ Started found startable disk with_ssh started.0
launch-Started_iff_example = launch-Started_iff found startable disk with_ssh started.0

abbrev world : SshWorld Bytes Bytes
world = record {
  read_file = λ path. some (codes "k1");
  look_path = found;
  parse_private_key = λ raw. some raw;
  marshal = λ k. k;
  parse_line = λ s. some (record { key = s; comment = []; options = [] });
  can_listen = λ address. true;
}

abbrev keys : KeyStore Bytes
keys = record { path = codes "/a"; keys = some ((codes "k1", codes "k1") ∷ []) }

provided : Provides world started.0.config (codes "k1") keys
unfolding new_key_store parse_authorized_keys add_line keep_key is_skipped unenforceable_options
    split trim_space insert started load_host_key
provided = record {
  git = codes "git";
  count = 1;
  git_is = refl;
  signer_is = refl;
  keys_are = refl;
  listens = refl;
}

launch-ssh_main_example :
    (binary : Bytes) × (args : List Bytes) × (started.0.ssh_argv ≡ some (binary ∷ args))
    × (ssh_main world no_fraction args ≡ serves (promised world started.0.config (codes "k1") keys))
unfolding started
launch-ssh_main_example =
    launch-ssh_main found startable disk with_ssh started.0 world no_fraction 60 (codes "k1") keys
      started.1 refl (omega arith) refl (omega arith) provided
