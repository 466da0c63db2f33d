-- ===== src/SshMain/Serves.antt =====
-- The SSH server that main.go starts with an accepted configuration passes the checks of
-- cmd/ssh-read-write/main.go, and serves what the configuration says.
use simple_git_server.Base.{
  ℕ, ◌*◌, ◌^◌, ◌≤◌, ◌<◌, ◌≡◌, refl, ap, sym, ◌∙◌, subst, true, false, [], ◌∷◌, some, ok, ◌>>=◌,
  ◌>>◌, ℤ, arith,
}
use simple_git_server.Text.{Bytes, codes, equal}
use simple_git_server.Text.Unicode.{trim_space}
use simple_git_server.Auth.{KeyStore, new_key_store}
use simple_git_server.Containment.{FileSystem}
use simple_git_server.Config.{Flags, ServerConfig, build_config, config_of, with_limits, is_blank}
use simple_git_server.Config.Valid.{build_config_iff, build_config_only}
use simple_git_server.Config.Limits.{with_limits-Limited_iff}
use simple_git_server.Supervise.{ssh_read_write_args}
use simple_git_server.SshMain.{
  check_ssh_flags, SshWorld, SshServer, load_host_key, load_keys, or_refuse, start_ssh, serves,
  ssh_main,
}
use simple_git_server.SshMain.Handover.{handed_over, parse_ssh_flags-ssh_read_write_args}

is_blank-empty : (s : Bytes) → is_blank s ≡ false → equal s [] ≡ false
unfolding is_blank equal
is_blank-empty [] h = unfold trim_space in cc h
is_blank-empty (c ∷ s) h = refl

-- A configuration with the SSH listener that the parent has accepted, its limits included.
pub record Accepted (fs : FileSystem) (f : Flags) (cfg : ServerConfig) : Type 0 where
  pub built : ServerConfig
  pub concurrent : ℤ
  pub idle : ℤ
  pub body : ℤ
  pub built_is : build_config fs f ≡ ok built
  pub limited : with_limits concurrent idle body built ≡ ok cfg
  pub ssh_enabled : f.ssh.enable ≡ true

record Checked (cfg : ServerConfig) : Type 0 where
  host_key : equal cfg.ssh_host_key [] ≡ false
  authorized_keys : equal cfg.ssh_authorized_keys [] ≡ false
  some_slot : 1 ≤ cfg.git_max_concurrent
  reads : cfg.enable_ssh_read ≡ true

Accepted-Checked :
    (fs : FileSystem) (f : Flags) {cfg : ServerConfig} → Accepted fs f cfg → Checked cfg
unfolding config_of
Accepted-Checked fs f {cfg} a =
    let only = build_config_only fs f a.built_is in
    let valid = (build_config_iff fs f).0 (a.built_is ∙ ap ok only) in
    let keys = valid.1 a.ssh_enabled in
    let l = (with_limits-Limited_iff a.concurrent a.idle a.body a.built cfg).0 a.limited in
    let limits = λ (c : ServerConfig). record c {
      git_max_concurrent = l.slots;
      git_idle_timeout = l.timeout;
      git_max_request_body = l.most;
    } in
    let is : cfg ≡ limits (config_of f) = subst (λ c. cfg ≡ limits c) only l.new_is in
    subst Checked (sym is) (record {
      host_key = is_blank-empty f.ssh.host_key keys.host_key;
      authorized_keys = is_blank-empty f.ssh.authorized_keys keys.authorized_keys;
      some_slot = l.some_slot;
      reads = a.ssh_enabled;
    })

-- The checks of the child on its flags never refuse a configuration that the parent has accepted.
check-Checked : (cfg : ServerConfig) → Checked cfg → check_ssh_flags (handed_over cfg) ≡ ok tt
unfolding check_ssh_flags
check-Checked cfg h = ground (arith, h.host_key, h.authorized_keys, h.some_slot, h.reads)

module _ {Key Signer : Type 0} (w : SshWorld Key Signer) where
  -- What the child needs from outside: git, a host key, usable keys, and its address.
  pub record Provides (cfg : ServerConfig) (signer : Signer) (keys : KeyStore Key) : Type 0 where
    pub git : Bytes
    pub count : ℕ
    pub git_is : w.look_path (codes "git") ≡ some git
    pub signer_is : load_host_key w cfg.ssh_host_key ≡ some signer
    pub keys_are :
        new_key_store w.marshal w.parse_line cfg.ssh_authorized_keys
          (w.read_file cfg.ssh_authorized_keys)
        ≡ ok (keys, count)
    pub listens : w.can_listen cfg.ssh_on ≡ true

  -- What the child is to serve for this configuration of its parent.
  abbrev pub promised : ServerConfig → Signer → KeyStore Key → SshServer Key Signer
  promised cfg signer keys = record {
    config = record {
      git_repos_folder = cfg.git_repos_folder;
      enable_ssh_read = cfg.enable_ssh_read;
      enable_ssh_write = cfg.enable_ssh_write;
    };
    git_slots = cfg.git_max_concurrent;
    git_idle_timeout = cfg.git_idle_timeout;
    max_conns = 128;
    listens_on = cfg.ssh_on;
    host_key = signer;
    keys = keys;
  }

  start_ssh-Checked :
      (cfg : ServerConfig) (signer : Signer) (keys : KeyStore Key)
      → Checked cfg
      → Provides cfg signer keys
      → start_ssh w (handed_over cfg) ≡ ok (promised cfg signer keys)
  unfolding start_ssh
  start_ssh-Checked cfg signer keys h p =
      let loaded : load_keys w cfg.ssh_authorized_keys ≡ ok (keys, p.count) =
        rw (p.keys_are, load_keys) refl in
      rw (check-Checked cfg h, p.git_is, p.signer_is, ◌>>=◌, or_refuse, loaded, p.listens, ◌>>◌)
        refl

  -- If the parent has accepted its flags with the SSH listener enabled, and git, the key files and
  -- the address are there, then the child that it starts passes all of its own checks and serves
  -- exactly the parent's folder, address, capabilities and limits, with the keys of those files.
  -- The idle timeout is a number of whole seconds, and the limits are below 2 ^ 63.
  pub ssh_main-ssh_read_write_args :
      (fraction : ℕ → Bytes → ℕ) (fs : FileSystem) (f : Flags) (cfg : ServerConfig) (k : ℕ)
      (signer : Signer) (keys : KeyStore Key)
      → Accepted fs f cfg
      → cfg.git_max_concurrent < 2 ^ 63
      → cfg.git_idle_timeout ≡ k * 10 ^ 9
      → k * 10 ^ 9 < 2 ^ 63
      → Provides cfg signer keys
      → ssh_main w fraction (ssh_read_write_args cfg) ≡ serves (promised cfg signer keys)
  unfolding ssh_main
  ssh_main-ssh_read_write_args fraction fs f cfg k signer keys a slots whole time p =
      let h = Accepted-Checked fs f a in
      rw
        (
          parse_ssh_flags-ssh_read_write_args fraction cfg k h.some_slot slots whole time,
          start_ssh-Checked cfg signer keys h p,
        )
        refl
