-- ===== src/Exchange/Commands.antt =====
-- Which requests run git, and what a request that ends gives back.
use simple_git_server.Base.{
  ℕ, ◌<◌, ◌≡◌, refl, Bool, List, Option, none, some, ltb, ltb→lt, Bool-cases, inl, inr,
}
use simple_git_server.Text.{Bytes}
use simple_git_server.Config.{ServerConfig, max_request_body}
use simple_git_server.Containment.{FileSystem}
use simple_git_server.Routing.{Route, path_too_long, git, pulse, go_import, not_found, route}
use simple_git_server.Backend
use simple_git_server.Backend.{
  HttpRequest, GitCommand, Served, ServerEnv, Slots, check_cgi_env_limits, serve_git,
  serve_with_slot, release_slot,
}
use simple_git_server.Backend.Serve.{Runs, serve_with_slot-Runs}
use simple_git_server.Cgi.{Child}
use simple_git_server.GitRequest.{RequestEvent}
use simple_git_server.Exchange.{limit_body, after_serving, handle}

module _ (fs : FileSystem) (look_path : Bytes → Option Bytes) (env : ServerEnv) (cfg : ServerConfig)
    (child : GitCommand → Bool → Option Child) where
  -- What holds when git has run for a request.
  pub record RanGit (r : HttpRequest) (slots : Slots) (command : GitCommand) : Type 0 where
    pub routed : route cfg r.path ≡ git
    pub within_limits : check_cgi_env_limits r ≡ none
    pub slot_free : slots.used < slots.size
    pub runs : Runs fs look_path env cfg r command

  pub after_serving-ran :
      (now : ℕ) (events : List RequestEvent) (active : ℕ) (during slots : Slots) (s : Served)
      {command : GitCommand}
      → (after_serving child cfg.git_idle_timeout now events active during slots s).ran
        ≡ some command
      → s ≡ Backend.runs command
  after_serving-ran now events active during slots (Backend.rejected code msg) h = cc
  after_serving-ran now events active during slots Backend.busy h = cc
  after_serving-ran now events active during slots (Backend.not_found e) h = cc
  after_serving-ran now events active during slots Backend.no_answer h = cc
  after_serving-ran now events active during slots (Backend.runs command) h = cc

  served-RanGit :
      (r : HttpRequest) (slots : Slots) {command : GitCommand}
      → route cfg r.path ≡ git
      → (serve_git fs look_path env cfg r slots).0 ≡ Backend.runs command
      → RanGit r slots command
  unfolding serve_git
  served-RanGit r slots {command} g h = go (check_cgi_env_limits r) refl
    where
      go : (o : Option (ℕ × Bytes)) → check_cgi_env_limits r ≡ o → RanGit r slots command
      go (some (code, msg)) e = cc (rw (e, serve_git) at h)
      go none e = elim (Bool-cases (ltb slots.used slots.size)) [
        | inr f ↦ cc (rw (e, f, serve_git) at h)
        | inl f ↦ record {
          routed = g;
          within_limits = e;
          slot_free = ltb→lt slots.used slots.size f;
          runs = serve_with_slot-Runs fs look_path env cfg r (rw (e, f, serve_git) at h);
        }
      ]

  -- From end to end, git runs for a request only if the path is one of the git endpoints', the
  -- parts that go into its environment are within their limits, a slot was free, the path sanitizes
  -- to one that is contained in the repositories' folder, and the command is the read-only backend
  -- or, for a push that is enabled, the helper.
  pub handle-RanGit :
      (now : ℕ) (events : List RequestEvent) (r : HttpRequest) (slots : Slots) (active : ℕ)
      {command : GitCommand}
      → (handle fs look_path env cfg child now events r slots active).ran ≡ some command
      → RanGit r slots command
  unfolding handle
  handle-RanGit now events r slots active {command} h = go (route cfg r.path) refl
    where
      go : (x : Route) → route cfg r.path ≡ x → RanGit r slots command
      go path_too_long e = cc (rw (e, handle) at h)
      go pulse e = cc (rw (e, handle) at h)
      go go_import e = cc (rw (e, handle) at h)
      go not_found e = cc (rw (e, handle) at h)
      go git e =
          let s = serve_git fs look_path env cfg r slots in
          served-RanGit r slots e (
            after_serving-ran now (limit_body (max_request_body cfg) events) active s.1 s.2 s.0
              (rw (e, handle) at h))
