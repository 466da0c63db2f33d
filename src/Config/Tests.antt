-- ===== src/Config/Tests.antt =====
-- A configuration, and instances of the theorems on it.
use simple_git_server.Base.{◌≡◌, ◌↔◌, refl, true, false, [], ok, err, arith, pos}
use simple_git_server.Text.{codes, equal, has_prefix, has_suffix}
use simple_git_server.Text.Unicode.{trim_space}
use simple_git_server.Containment.Disk.{disk}
use simple_git_server.Config.{
  Flags, build_config, config_of, check_listeners, check_ssh, normalize_prefix, is_blank,
  http_write_needs_listener, ServerConfig,
}
use simple_git_server.Config.Valid.{HasListeners, HasKeys, build_config_iff}
use simple_git_server.Config.Limits.{Limited}

abbrev pub flags : Flags
flags = record {
  go_import_domain = codes "example.org";
  git_repos_folder = codes "/srv";
  enable_http_read = true;
  http_on = codes "127.0.0.1:64180";
  enable_https_read = false;
  https_on = [];
  https_cert = [];
  https_key = [];
  enable_go_import = true;
  http_git_repos_prefix = codes "git";
  go_import_git_url = [];
  ssh = record {
    enable = false;
    ssh_on = [];
    host_key = [];
    authorized_keys = [];
    ssh_read_write_binary = [];
    enable_ssh_write = false;
  };
  http_write = record { enable = false; http_write_binary = [] };
}

built : build_config disk flags ≡ ok (config_of flags)
unfolding build_config check_listeners check_ssh is_blank equal trim_space
built = refl

push_alone :
    build_config disk (record flags {
      enable_http_read = false;
      ssh = record {
        enable = true;
        ssh_on = [];
        host_key = codes "/k";
        authorized_keys = codes "/a";
        ssh_read_write_binary = [];
        enable_ssh_write = true;
      };
      http_write = record { enable = true; http_write_binary = [] };
    })
    ≡ err http_write_needs_listener
unfolding build_config check_listeners check_ssh is_blank equal trim_space
push_alone = refl

prefixed : normalize_prefix (codes "git") ≡ codes "/git/"
unfolding normalize_prefix equal has_prefix has_suffix
prefixed = refl

build_config_iff_example :
    (build_config disk flags ≡ ok (config_of flags))
    ↔ (HasListeners flags × (flags.ssh.enable ≡ true → HasKeys disk flags.ssh))
build_config_iff_example = build_config_iff disk flags

abbrev limited_config : ServerConfig
limited_config = record (config_of flags) {
  git_max_concurrent = 4;
  git_idle_timeout = 0;
  git_max_request_body = 9;
}

abbrev limits_hold : Limited (pos 4) (pos 0) (pos 9) (config_of flags) limited_config
limits_hold = record {
  slots = 4;
  timeout = 0;
  most = 9;
  concurrent_is = refl;
  idle_is = refl;
  body_is = refl;
  some_slot = omega arith;
  some_body = omega arith;
  new_is = refl;
}
