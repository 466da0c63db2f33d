-- ===== src/Launch/Started.antt =====
-- What has been checked, and what runs, when the HTTP server has started.
use simple_git_server.Base.{
  ◌≡◌, ◌↔◌, refl, ap, sym, ◌∙◌, ◌++◌, [], Bool-cases, inl, inr, subst, Bool, true, false, List, ◌∷◌,
  Option, none, some, Result, ok, err, >>=-succeeds,
}
use simple_git_server.Text.{Bytes, codes}
use simple_git_server.Containment.{FileSystem}
use simple_git_server.Config.{ServerConfig, ConfigError}
use simple_git_server.Backend.{resolve_http_write_binary}
use simple_git_server.Supervise.{ssh_read_write_args, resolve_ssh_read_write_binary}
use simple_git_server.Shutdown.{Server, server_if, servers_of}
use simple_git_server.Launch.{
  MainFlags, LaunchError, Launched, config_checked, or_fail, git_not_found, configure,
  check_http_write, start_ssh_child, start_child, launch,
}

-- The helper of HTTP push is there, if that is enabled.
abbrev pub HasHelper : (Bytes → Option Bytes) → ServerConfig → Type 0
HasHelper look_path cfg =
    cfg.enable_http_write ≡ true
    → (b : Bytes) × (resolve_http_write_binary look_path cfg.http_write_binary ≡ some b)

-- The command of the child that a configuration asks for, or none.
abbrev pub ChildIs :
    (Bytes → Option Bytes)
    → (List Bytes → Bool)
    → ServerConfig
    → Bool
    → Option (List Bytes)
    → Type 0
ChildIs look_path can_start cfg false argv = argv ≡ none
ChildIs look_path can_start cfg true argv =
    (binary : Bytes) × (resolve_ssh_read_write_binary look_path cfg.ssh_read_write_binary
      ≡ some binary)
    × (can_start (binary ∷ ssh_read_write_args cfg) ≡ true)
    × (argv ≡ some (binary ∷ ssh_read_write_args cfg))

-- The listeners, when HTTP and HTTPS are enabled or not.
abbrev pub listeners : Bool → Bool → Bytes → Bytes → List Server
listeners true true http https =
    record { addr = http; tls = false } ∷ record { addr = https; tls = true } ∷ []
listeners true false http https = record { addr = http; tls = false } ∷ []
listeners false true http https = record { addr = https; tls = true } ∷ []
listeners false false http https = []

-- The server has started: the flags make its configuration, git and the helper of HTTP push are
-- there, and what runs is what the configuration asks for.
pub record Started (look_path : Bytes → Option Bytes) (can_start : List Bytes → Bool)
    (fs : FileSystem) (f : MainFlags) (l : Launched) : Type 0 where
  pub configured : configure fs f ≡ ok l.config
  pub git : Bytes
  pub git_is : look_path (codes "git") ≡ some git
  pub helper : HasHelper look_path l.config
  pub servers_are :
      l.servers
      ≡ listeners l.config.enable_http_read l.config.enable_https_read l.config.http_on
          l.config.https_on
  pub child_is : ChildIs look_path can_start l.config l.config.enable_ssh_read l.ssh_argv

helper_there :
    (look_path : Bytes → Option Bytes) (cfg : ServerConfig)
    → check_http_write look_path cfg ≡ ok tt
    → HasHelper look_path cfg
unfolding check_http_write
helper_there look_path cfg h on =
    go (resolve_http_write_binary look_path cfg.http_write_binary) refl
  where
    go :
        (o : Option Bytes)
        → resolve_http_write_binary look_path cfg.http_write_binary ≡ o
        → (b : Bytes) × (resolve_http_write_binary look_path cfg.http_write_binary ≡ some b)
    go none k = cc (rw (on, k) at h)
    go (some b) k = (b, k)

checked-configure :
    {r : Result ConfigError ServerConfig} {c : ServerConfig} → config_checked r ≡ ok c → r ≡ ok c
checked-configure {r} {c} h = go r h
  where
    go : (r : Result ConfigError ServerConfig) → config_checked r ≡ ok c → r ≡ ok c
    go (ok d) h = cc
    go (err e) h = cc

or_fail-some : (e : LaunchError) {o : Option Bytes} {g : Bytes} → or_fail o e ≡ ok g → o ≡ some g
or_fail-some e {o} {g} h = go o h
  where
    go : (o : Option Bytes) → or_fail o e ≡ ok g → o ≡ some g
    go (some a) h = cc
    go none h = cc

module _ (look_path : Bytes → Option Bytes) (can_start : List Bytes → Bool) where
  resolved_child :
      (cfg : ServerConfig) {binary : Bytes}
      → cfg.enable_ssh_read ≡ true
      → resolve_ssh_read_write_binary look_path cfg.ssh_read_write_binary ≡ some binary
      → start_ssh_child look_path can_start cfg ≡ start_child look_path can_start cfg binary
  unfolding start_ssh_child
  resolved_child cfg e k = simp (e, k) refl

  start_child_iff :
      (cfg : ServerConfig) (binary : Bytes) {argv : Option (List Bytes)}
      → (start_child look_path can_start cfg binary ≡ ok argv) ↔ (
          (can_start (binary ∷ ssh_read_write_args cfg) ≡ true)
          × (argv ≡ some (binary ∷ ssh_read_write_args cfg)))
  start_child_iff cfg binary = elim (Bool-cases (can_start (binary ∷ ssh_read_write_args cfg))) [
    | inl c ↦ rw c (λ h. (refl, cc), λ h. ap ok (sym h.1))
    | inr c ↦ rw c (λ h. cc, λ h. cc (h.0))
  ]

  child_started :
      (cfg : ServerConfig) (b : Bool) {argv : Option (List Bytes)}
      → cfg.enable_ssh_read ≡ b
      → start_ssh_child look_path can_start cfg ≡ ok argv
      → ChildIs look_path can_start cfg b argv
  unfolding start_ssh_child
  child_started cfg false e h = cc (rw e at h)
  child_started cfg true {argv} e h =
      go (resolve_ssh_read_write_binary look_path cfg.ssh_read_write_binary) refl
    where
      go :
          (o : Option Bytes)
          → resolve_ssh_read_write_binary look_path cfg.ssh_read_write_binary ≡ o
          → ChildIs look_path can_start cfg true argv
      go none k = cc (rw (e, k) at h)
      go (some binary) k =
          let c = (start_child_iff cfg binary).0 (sym (resolved_child cfg e k) ∙ h) in
          (binary, k, c.0, c.1)

  listeners-servers_of :
      (cfg : ServerConfig)
      → servers_of cfg
        ≡ listeners cfg.enable_http_read cfg.enable_https_read cfg.http_on cfg.https_on
  unfolding servers_of
  listeners-servers_of cfg = go cfg.enable_http_read cfg.enable_https_read
    where
      go :
          (b c : Bool)
          → server_if b (record { addr = cfg.http_on; tls = false })
              ++ server_if c (record { addr = cfg.https_on; tls = true })
            ≡ listeners b c cfg.http_on cfg.https_on
      go true true = refl
      go true false = refl
      go false true = refl
      go false false = refl

  pub launch-Started :
      (fs : FileSystem) (f : MainFlags) {l : Launched}
      → launch look_path can_start fs f ≡ ok l
      → Started look_path can_start fs f l
  unfolding launch
  launch-Started fs f {l} h =
      let c = >>=-succeeds (config_checked (configure fs f)) _ h in
      let g = >>=-succeeds (or_fail (look_path (codes "git")) git_not_found) _ c.2 in
      let w = >>=-succeeds (check_http_write look_path c.0) _ g.2 in
      let s = >>=-succeeds (start_ssh_child look_path can_start c.0) _ w.2 in
      let l_is : record { config = c.0; servers = servers_of c.0; ssh_argv = s.0 } ≡ l = cc (s.2) in
      subst (Started look_path can_start fs f) l_is (record {
        configured = checked-configure c.1;
        git = g.0;
        git_is = or_fail-some git_not_found g.1;
        helper = helper_there look_path c.0 w.1;
        servers_are = listeners-servers_of c.0;
        child_is = child_started c.0 c.0.enable_ssh_read refl s.1;
      })

  helper_checked :
      (cfg : ServerConfig) → HasHelper look_path cfg → check_http_write look_path cfg ≡ ok tt
  unfolding check_http_write
  helper_checked cfg h = elim (Bool-cases cfg.enable_http_write) [
    | inl e ↦ simp (e, (h e).1) refl
    | inr e ↦ simp e refl
  ]

  child_starts :
      (cfg : ServerConfig) (b : Bool) {argv : Option (List Bytes)}
      → cfg.enable_ssh_read ≡ b
      → ChildIs look_path can_start cfg b argv
      → start_ssh_child look_path can_start cfg ≡ ok argv
  unfolding start_ssh_child
  child_starts cfg false e h = rw e (ap ok (sym h))
  child_starts cfg true e (binary, k, c, a) =
      resolved_child cfg e k ∙ (start_child_iff cfg binary).1 (c, a)

  Started-launch :
      (fs : FileSystem) (f : MainFlags) (l : Launched)
      → Started look_path can_start fs f l
      → launch look_path can_start fs f ≡ ok l
  unfolding launch
  Started-launch fs f l s =
      rw
        (
          s.configured,
          s.git_is,
          helper_checked l.config s.helper,
          child_starts l.config l.config.enable_ssh_read refl s.child_is,
        )
        (ap (λ x. ok (record { config = l.config; servers = x; ssh_argv = l.ssh_argv }))
          (listeners-servers_of l.config ∙ sym s.servers_are))

  -- A server starts, with this in place, exactly if the flags make this configuration, git is
  -- there, and the helper if HTTP push is enabled, it runs the listeners that are enabled and no
  -- others, each at its address, and it supervises an SSH server with the configuration's
  -- arguments, which can be started, exactly if SSH is enabled.
  pub launch-Started_iff :
      (fs : FileSystem) (f : MainFlags) (l : Launched)
      → (launch look_path can_start fs f ≡ ok l) ↔ Started look_path can_start fs f l
  launch-Started_iff fs f l = (launch-Started fs f, Started-launch fs f l)
