-- ===== src/Launch/Child.antt =====
-- The SSH server that the HTTP server supervises: from the flags of main.go to what
-- cmd/ssh-read-write/main.go serves.
use simple_git_server.Base.{
  ℕ, ◌*◌, ◌^◌, ◌<◌, ◌≡◌, ◌⊎◌, ap, sym, ◌∙◌, subst, Bool, true, false, ◌||◌, List, ◌∷◌, Option, some,
  ok, >>=-succeeds, arith, Bool-cases, inl, inr, length,
}
use simple_git_server.Text.{Bytes}
use simple_git_server.Auth.{KeyStore}
use simple_git_server.Containment.{FileSystem}
use simple_git_server.Config.{ServerConfig, build_config, config_of}
use simple_git_server.Config.Valid.{build_config_iff, build_config_only}
use simple_git_server.Config.Limits.{with_limits-Limited_iff}
use simple_git_server.Supervise.{ssh_read_write_args}
use simple_git_server.SshMain.{SshWorld, serves, ssh_main}
use simple_git_server.SshMain.Serves.{Accepted, Provides, promised, ssh_main-ssh_read_write_args}
use simple_git_server.Launch.{MainFlags, Launched, configure, launch}
use simple_git_server.Launch.Started.{ChildIs, listeners, launch-Started}

-- The listeners of an accepted configuration are those that the flags enable, and the limits are
-- the flags'.
record Configured (fs : FileSystem) (f : MainFlags) (cfg : ServerConfig) : Type 0 where
  accepted : f.config.ssh.enable ≡ true → Accepted fs f.config cfg
  ssh_is : cfg.enable_ssh_read ≡ f.config.ssh.enable
  http_is : cfg.enable_http_read ≡ f.config.enable_http_read
  https_is : cfg.enable_https_read ≡ f.config.enable_https_read
  served : (f.config.enable_http_read || f.config.enable_https_read || f.config.ssh.enable) ≡ true

configure-Configured :
    (fs : FileSystem) (f : MainFlags) {cfg : ServerConfig}
    → configure fs f ≡ ok cfg
    → Configured fs f cfg
unfolding configure config_of
configure-Configured fs f {cfg} h =
    let b = >>=-succeeds (build_config fs f.config) _ h in
    let only = build_config_only fs f.config b.1 in
    let valid = (build_config_iff fs f.config).0 (b.1 ∙ ap ok only) in
    let l =
      (with_limits-Limited_iff f.git_max_concurrent f.git_idle_timeout f.git_max_request_body b.0
          cfg).0
        b.2 in
    let limits = λ (c : ServerConfig). record c {
      git_max_concurrent = l.slots;
      git_idle_timeout = l.timeout;
      git_max_request_body = l.most;
    } in
    let is : cfg ≡ limits (config_of f.config) = subst (λ c. cfg ≡ limits c) only l.new_is in
    record {
      accepted = λ on. record {
        built = b.0;
        concurrent = f.git_max_concurrent;
        idle = f.git_idle_timeout;
        body = f.git_max_request_body;
        built_is = b.1;
        limited = b.2;
        ssh_enabled = on;
      };
      ssh_is = ap (λ c. c.enable_ssh_read) is;
      http_is = ap (λ c. c.enable_http_read) is;
      https_is = ap (λ c. c.enable_https_read) is;
      served = valid.0.serves;
    }

some_server :
    (cfg : ServerConfig)
    → (cfg.enable_http_read || cfg.enable_https_read) ≡ true
    → 0 < length (listeners cfg.enable_http_read cfg.enable_https_read cfg.http_on cfg.https_on)
some_server cfg h = go cfg.enable_http_read cfg.enable_https_read h
  where
    go : (b c : Bool) → (b || c) ≡ true → 0 < length (listeners b c cfg.http_on cfg.https_on)
    go true true h = omega arith
    go true false h = omega arith
    go false true h = omega arith
    go false false h = cc

-- The HTTP server never starts with nothing to serve: a listener is started, or the SSH server is.
pub launch-serves :
    (look_path : Bytes → Option Bytes) (can_start : List Bytes → Bool) (fs : FileSystem)
    (f : MainFlags) {l : Launched}
    → launch look_path can_start fs f ≡ ok l
    → (0 < length l.servers) ⊎ ((argv : List Bytes) × (l.ssh_argv ≡ some argv))
launch-serves look_path can_start fs f {l} h =
    let s = launch-Started look_path can_start fs f h in
    let c = configure-Configured fs f s.configured in
    elim (Bool-cases f.config.ssh.enable) [
      | inl on ↦
          let child =
            subst (λ b. ChildIs look_path can_start l.config b l.ssh_argv) (c.ssh_is ∙ on)
              s.child_is in
          inr (child.0 ∷ ssh_read_write_args l.config, child.3)
      | inr off ↦ inl (
          subst (λ ss. 0 < length ss) (sym s.servers_are)
            (some_server l.config (ground (arith, c.http_is, c.https_is, c.served, off))))
    ]

-- If the HTTP server starts with SSH enabled, then the command that it starts for the SSH server is
-- the binary with arguments on which that server, given git, its key files and its address, passes
-- all of its own checks and serves exactly the parent's folder, address, capabilities and limits,
-- on up to 128 connections, with the keys of those files. The idle timeout is a number of whole
-- seconds, and the limits are below 2 ^ 63.
pub launch-ssh_main :
    {Key Signer : Type 0} (look_path : Bytes → Option Bytes) (can_start : List Bytes → Bool)
    (fs : FileSystem) (f : MainFlags) (l : Launched) (w : SshWorld Key Signer)
    (fraction : ℕ → Bytes → ℕ) (k : ℕ) (signer : Signer) (keys : KeyStore Key)
    → launch look_path can_start fs f ≡ ok l
    → f.config.ssh.enable ≡ true
    → l.config.git_max_concurrent < 2 ^ 63
    → l.config.git_idle_timeout ≡ k * 10 ^ 9
    → k * 10 ^ 9 < 2 ^ 63
    → Provides w l.config signer keys
    → (binary : Bytes) × (args : List Bytes) × (l.ssh_argv ≡ some (binary ∷ args))
      × (ssh_main w fraction args ≡ serves (promised w l.config signer keys))
launch-ssh_main look_path can_start fs f l w fraction k signer keys h on slots whole time p =
    let s = launch-Started look_path can_start fs f h in
    let c = configure-Configured fs f s.configured in
    let child =
      subst (λ b. ChildIs look_path can_start l.config b l.ssh_argv) (c.ssh_is ∙ on) s.child_is in
    (
      child.0,
      ssh_read_write_args l.config,
      child.3,
      ssh_main-ssh_read_write_args w fraction fs f.config l.config k signer keys (c.accepted on)
          slots whole time p,
    )
