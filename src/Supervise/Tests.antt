-- ===== src/Supervise/Tests.antt =====
-- The arguments for a small configuration, processes that stop_child or have to be killed, and an
-- instance.
use simple_git_server.Base.{◌≡◌, refl, true, false, [], ◌∷◌, some, none}
use simple_git_server.Text.{codes, equal}
use simple_git_server.Text.Decimal.{decimal}
use simple_git_server.Text.Numbers.{format_bool}
use simple_git_server.Duration.{duration_string, clock_text, fraction_digits}
use simple_git_server.Config.{ServerConfig}
use simple_git_server.Routing.Tests.{at_root}
use simple_git_server.Supervise.{
  ssh_read_write_args, Process, returns, hangs, sigterm, sigkill, running, reported, taken,
  stop_child, ssh_child_stop_timeout,
}

abbrev pub small : ServerConfig
small = record at_root {
  git_repos_folder = codes "/srv";
  ssh_on = codes ":22";
  ssh_host_key = codes "/k";
  ssh_authorized_keys = codes "/a";
  enable_ssh_read = true;
  enable_ssh_write = false;
  git_max_concurrent = 32;
  git_idle_timeout = 90000000000;
}

arguments :
    ssh_read_write_args small
    ≡ codes "--git-repos-folder"
      ∷ codes "/srv"
      ∷ codes "--ssh-on"
      ∷ codes ":22"
      ∷ codes "--ssh-host-key"
      ∷ codes "/k"
      ∷ codes "--ssh-authorized-keys"
      ∷ codes "/a"
      ∷ codes "--enable-ssh-read=true"
      ∷ codes "--enable-ssh-write=false"
      ∷ codes "--git-max-concurrent=32"
      ∷ codes "--git-idle-timeout=1m30s"
      ∷ []
unfolding ssh_read_write_args decimal format_bool duration_string clock_text fraction_digits equal
arguments = refl

-- A process that ends two seconds after SIGTERM, and one that never does.
abbrev gentle : Process
gentle = record { on_term = some 2000000000; on_kill = 1000 }

abbrev stubborn : Process
stubborn = record { on_term = none; on_kill = 1000 }

endings :
    (stop_child ssh_child_stop_timeout false gentle (some running)
      ≡ returns (sigterm ∷ []) 2000000000 taken)
    × (stop_child ssh_child_stop_timeout false stubborn (some running)
        ≡ returns (sigterm ∷ sigkill ∷ []) 5000001000 taken)
    × (stop_child ssh_child_stop_timeout false stubborn (some reported) ≡ returns [] 0 taken)
    × (stop_child ssh_child_stop_timeout false gentle (some taken) ≡ hangs (sigterm ∷ sigkill ∷ []))
unfolding stop_child
endings = (refl, refl, refl, refl)
