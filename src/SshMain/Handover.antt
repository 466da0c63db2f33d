-- ===== src/SshMain/Handover.antt =====
-- What `ssh_supervise.go` passes to cmd/ssh-read-write/main.go arrives there.
use simple_git_server.Base.{
  ℕ, ◌*◌, ◌^◌, ◌<◌, ◌≡◌, refl, sym, ◌∙◌, subst, Bool, List, [], ◌∷◌, ◌++◌, some, Result, ok, pos,
}
use simple_git_server.Dict.{lookup}
use simple_git_server.Text.{Bytes, codes, equal, before, after?}
use simple_git_server.Text.Decimal.{decimal}
use simple_git_server.Text.Numbers.{format_bool, parse_bool-format_bool, parse_int-decimal}
use simple_git_server.Duration.{duration_string, parse_duration}
use simple_git_server.Duration.RoundTrip.{parse_duration-duration_string}
use simple_git_server.Flag.{read_arg, FlagError, flags_of, parse_args}
use simple_git_server.Flag.Laws.{
  parse_args-string, parse_args-bool, parse_args-int, parse_args-duration,
}
use simple_git_server.Config.{ServerConfig}
use simple_git_server.Supervise.{ssh_read_write_args}
use simple_git_server.SshMain.{SshFlags, default_ssh_flags, ssh_flags, parse_ssh_flags}

-- The settings of the child for a configuration of the parent.
abbrev pub handed_over : ServerConfig → SshFlags
handed_over cfg = record default_ssh_flags {
  git_repos_folder = cfg.git_repos_folder;
  ssh_on = cfg.ssh_on;
  ssh_host_key = cfg.ssh_host_key;
  ssh_authorized_keys = cfg.ssh_authorized_keys;
  enable_ssh_read = cfg.enable_ssh_read;
  enable_ssh_write = cfg.enable_ssh_write;
  git_max_concurrent = pos cfg.git_max_concurrent;
  git_idle_timeout = pos cfg.git_idle_timeout;
}

module _ (fraction : ℕ → Bytes → ℕ) where
  abbrev parse : List Bytes → SshFlags → Result FlagError (SshFlags × List Bytes)
  parse = parse_args (flags_of fraction ssh_flags)

  parse-texts :
      (folder on key keys : Bytes) (rest : List Bytes) (f : SshFlags)
      → parse
          (codes "--git-repos-folder"
            ∷ folder
            ∷ codes "--ssh-on"
            ∷ on
            ∷ codes "--ssh-host-key"
            ∷ key
            ∷ codes "--ssh-authorized-keys"
            ∷ keys
            ∷ rest)
          f
        ≡ parse rest (record f {
          git_repos_folder = folder;
          ssh_on = on;
          ssh_host_key = key;
          ssh_authorized_keys = keys;
        })
  unfolding read_arg equal before after? lookup
  parse-texts folder on key keys rest f =
      parse_args-string fraction ssh_flags (codes "--git-repos-folder") (codes "git-repos-folder")
        folder
        (codes "--ssh-on"
          ∷ on
          ∷ codes "--ssh-host-key"
          ∷ key
          ∷ codes "--ssh-authorized-keys"
          ∷ keys
          ∷ rest)
        f refl refl
      ∙ parse_args-string fraction ssh_flags (codes "--ssh-on") (codes "ssh-on") on
          (codes "--ssh-host-key" ∷ key ∷ codes "--ssh-authorized-keys" ∷ keys ∷ rest)
          (record f { git_repos_folder = folder }) refl refl
      ∙ parse_args-string fraction ssh_flags (codes "--ssh-host-key") (codes "ssh-host-key") key
          (codes "--ssh-authorized-keys" ∷ keys ∷ rest)
          (record f { git_repos_folder = folder; ssh_on = on }) refl refl
      ∙ parse_args-string fraction ssh_flags (codes "--ssh-authorized-keys")
          (codes "ssh-authorized-keys") keys rest
          (record f { git_repos_folder = folder; ssh_on = on; ssh_host_key = key }) refl refl

  parse-capabilities :
      (read write : Bool) (rest : List Bytes) (f : SshFlags)
      → parse
          ((codes "--enable-ssh-read=" ++ format_bool read)
            ∷ (codes "--enable-ssh-write=" ++ format_bool write)
            ∷ rest)
          f
        ≡ parse rest (record f { enable_ssh_read = read; enable_ssh_write = write })
  unfolding read_arg equal before after? lookup
  parse-capabilities read write rest f =
      parse_args-bool fraction ssh_flags (codes "--enable-ssh-read=" ++ format_bool read)
        (codes "enable-ssh-read") (format_bool read)
        ((codes "--enable-ssh-write=" ++ format_bool write) ∷ rest) f refl refl
        (parse_bool-format_bool read)
      ∙ parse_args-bool fraction ssh_flags (codes "--enable-ssh-write=" ++ format_bool write)
          (codes "enable-ssh-write") (format_bool write) rest (record f { enable_ssh_read = read })
          refl refl (parse_bool-format_bool write)

  parse-limits :
      (n t k : ℕ) (f : SshFlags)
      → 0 < n
      → n < 2 ^ 63
      → t ≡ k * 10 ^ 9
      → k * 10 ^ 9 < 2 ^ 63
      → parse
          ((codes "--git-max-concurrent=" ++ decimal n)
            ∷ (codes "--git-idle-timeout=" ++ duration_string t)
            ∷ [])
          f
        ≡ ok (record f { git_max_concurrent = pos n; git_idle_timeout = pos t }, [])
  unfolding read_arg equal before after? lookup parse_args
  parse-limits n t k f some_slot slots whole time =
      parse_args-int fraction ssh_flags (codes "--git-max-concurrent=" ++ decimal n)
        (codes "git-max-concurrent") (decimal n)
        ((codes "--git-idle-timeout=" ++ duration_string t) ∷ []) f refl refl
        (parse_int-decimal n some_slot slots)
      ∙ parse_args-duration fraction ssh_flags (codes "--git-idle-timeout=" ++ duration_string t)
          (codes "git-idle-timeout") (duration_string t) []
          (record f { git_max_concurrent = pos n }) refl refl
          (subst (λ d. parse_duration fraction (duration_string d) ≡ some (pos d)) (sym whole)
            (parse_duration-duration_string fraction k time))

  -- The supervised SSH server reads from its arguments the settings of the parent's configuration:
  -- its folder, address, key files, capabilities and limits, and nothing else is changed. The limit
  -- on git commands is at least 1, the idle timeout is a number of whole seconds, and both are
  -- below 2 ^ 63.
  pub parse_ssh_flags-ssh_read_write_args :
      (cfg : ServerConfig) (k : ℕ)
      → 0 < cfg.git_max_concurrent
      → cfg.git_max_concurrent < 2 ^ 63
      → cfg.git_idle_timeout ≡ k * 10 ^ 9
      → k * 10 ^ 9 < 2 ^ 63
      → parse_ssh_flags fraction (ssh_read_write_args cfg) ≡ ok (handed_over cfg, [])
  unfolding parse_ssh_flags ssh_read_write_args
  parse_ssh_flags-ssh_read_write_args cfg k some_slot slots whole time =
      parse-texts cfg.git_repos_folder cfg.ssh_on cfg.ssh_host_key cfg.ssh_authorized_keys
        ((codes "--enable-ssh-read=" ++ format_bool cfg.enable_ssh_read)
          ∷ (codes "--enable-ssh-write=" ++ format_bool cfg.enable_ssh_write)
          ∷ limits)
        default_ssh_flags
      ∙ parse-capabilities cfg.enable_ssh_read cfg.enable_ssh_write limits texts
      ∙ parse-limits cfg.git_max_concurrent cfg.git_idle_timeout k
          (record texts {
            enable_ssh_read = cfg.enable_ssh_read;
            enable_ssh_write = cfg.enable_ssh_write;
          })
          some_slot slots whole time
    where
      limits : List Bytes
      limits =
          (codes "--git-max-concurrent=" ++ decimal cfg.git_max_concurrent)
          ∷ (codes "--git-idle-timeout=" ++ duration_string cfg.git_idle_timeout)
          ∷ []

      texts : SshFlags
      texts = record default_ssh_flags {
        git_repos_folder = cfg.git_repos_folder;
        ssh_on = cfg.ssh_on;
        ssh_host_key = cfg.ssh_host_key;
        ssh_authorized_keys = cfg.ssh_authorized_keys;
      }
