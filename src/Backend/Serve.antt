-- ===== src/Backend/Serve.antt =====
-- `serveGit`: which requests run a command, which command, and that the slot comes back.
use simple_git_server.Base.{
  ℕ, ◌≤◌, ◌≡◌, inl, inr, refl, sym, ap, ◌∙◌, true, false, List, [], ◌∷◌, arith, ltb, Option, none,
  some, Result, ok, err, Bool-cases,
}
use simple_git_server.Text.{Bytes, codes}
use simple_git_server.GitPath.{SanitizeError, sanitize_git_path_info}
use simple_git_server.Containment.{FileSystem, ContainError, repo_within_root}
use simple_git_server.Config.{ServerConfig, max_request_body}
use simple_git_server.Routing.{path_info_of}
use simple_git_server.Backend.{
  HttpRequest, GitCommand, rejected, busy, runs, push_off, ServerEnv, Slots, git_backend_args,
  git_backend_env, is_receive_pack_request, resolve_http_write_binary, check_cgi_env_limits,
  serve_git_http_write, dispatch, serve_with_slot, serve_git, release_slot,
}

module _ (fs : FileSystem) (look_path : Bytes → Option Bytes) (env : ServerEnv)
    (cfg : ServerConfig) where
  -- The command is the read-only backend, for a request that is no push, or the helper for pushes,
  -- for a push that is enabled.
  pub data Chooses (r : HttpRequest) (path : Bytes) (argv : List Bytes) : Type 0 where
    reads :
        is_receive_pack_request r path ≡ false
        → argv ≡ codes "git" ∷ git_backend_args (codes "false")
        → Chooses r path argv
    pushes :
        (binary : Bytes)
        → is_receive_pack_request r path ≡ true
        → cfg.enable_http_write ≡ true
        → resolve_http_write_binary look_path cfg.http_write_binary ≡ some binary
        → argv ≡ binary ∷ []
        → Chooses r path argv

  -- What holds of a command that the handler runs.
  pub record Runs (r : HttpRequest) (command : GitCommand) : Type 0 where
    pub path : Bytes
    pub sanitized : sanitize_git_path_info (path_info_of cfg r.path) ≡ ok path
    pub contained : repo_within_root fs cfg.git_repos_folder path ≡ some (ok tt)
    pub chosen : Chooses r path command.argv
    pub environment_is : command.environment ≡ git_backend_env env cfg path r
    pub limit_is : command.body_limit ≡ max_request_body cfg

  same_command : {a b : GitCommand} → runs a ≡ runs b → a ≡ b
  same_command h = cc

  helper_missing :
      (r : HttpRequest) (path : Bytes)
      → is_receive_pack_request r path ≡ true
      → cfg.enable_http_write ≡ true
      → resolve_http_write_binary look_path cfg.http_write_binary ≡ none
      → dispatch fs look_path env cfg r path ≡ rejected 502 (codes "HTTP push helper unavailable")
  unfolding dispatch serve_git_http_write
  helper_missing r path p w e = simp (p, w) (rw (e, serve_git_http_write))

  helper_found :
      (r : HttpRequest) (path binary : Bytes)
      → is_receive_pack_request r path ≡ true
      → cfg.enable_http_write ≡ true
      → resolve_http_write_binary look_path cfg.http_write_binary ≡ some binary
      → dispatch fs look_path env cfg r path
        ≡ runs (record {
          argv = binary ∷ [];
          environment = git_backend_env env cfg path r;
          body_limit = max_request_body cfg;
        })
  unfolding dispatch serve_git_http_write
  helper_found r path binary p w e = simp (p, w) (rw (e, serve_git_http_write))

  push_disabled :
      (r : HttpRequest) (path : Bytes)
      → is_receive_pack_request r path ≡ true
      → cfg.enable_http_write ≡ false
      → dispatch fs look_path env cfg r path ≡ rejected 403 push_off
  unfolding dispatch
  push_disabled r path p w = simp (p, w)

  dispatch_chooses :
      (r : HttpRequest) (path : Bytes) {command : GitCommand}
      → dispatch fs look_path env cfg r path ≡ runs command
      → Chooses r path command.argv
        × (command.environment ≡ git_backend_env env cfg path r)
        × (command.body_limit ≡ max_request_body cfg)
  unfolding dispatch serve_git_http_write
  dispatch_chooses r path {command} h = elim (Bool-cases (is_receive_pack_request r path)) [
    | inr p ↦
        let e = same_command (rw (p, dispatch) at h) in
        (
          reads p (ap (λ (c : GitCommand). c.argv) (sym e)),
          ap (λ (c : GitCommand). c.environment) (sym e),
          ap (λ (c : GitCommand). c.body_limit) (sym e),
        )
    | inl p ↦ elim (Bool-cases cfg.enable_http_write) [
      | inr w ↦ cc (sym (push_disabled r path p w) ∙ h)
      | inl w ↦ go p w (resolve_http_write_binary look_path cfg.http_write_binary) refl
    ]
  ]
    where
      go :
          is_receive_pack_request r path ≡ true
          → cfg.enable_http_write ≡ true
          → (o : Option Bytes) → resolve_http_write_binary look_path cfg.http_write_binary ≡ o
          → Chooses r path command.argv
            × (command.environment ≡ git_backend_env env cfg path r)
            × (command.body_limit ≡ max_request_body cfg)
      go p w none e = cc (sym (helper_missing r path p w e) ∙ h)
      go p w (some binary) e =
          let x = same_command (sym (helper_found r path binary p w e) ∙ h) in
          (
            pushes binary p w e (ap (λ (c : GitCommand). c.argv) (sym x)),
            ap (λ (c : GitCommand). c.environment) (sym x),
            ap (λ (c : GitCommand). c.body_limit) (sym x),
          )

  -- A command is run only for a path that sanitizes and is contained in the repositories' folder;
  -- it is the read-only backend for a request that is no push, and for a push the configured
  -- helper, which needs `--enable-http-write` and a binary that is found; it reads at most the
  -- configured body.
  pub serve_with_slot-Runs :
      (r : HttpRequest) {command : GitCommand}
      → serve_with_slot fs look_path env cfg r ≡ runs command
      → Runs r command
  unfolding serve_with_slot
  serve_with_slot-Runs r {command} h = clean (sanitize_git_path_info (path_info_of cfg r.path)) refl
    where
      contain :
          (path : Bytes)
          → sanitize_git_path_info (path_info_of cfg r.path) ≡ ok path
          → (o : Option (Result ContainError (Unit {0})))
          → repo_within_root fs cfg.git_repos_folder path ≡ o
          → Runs r command
      contain path s none e = cc (rw (s, e, serve_with_slot) at h)
      contain path s (some (err x)) e = cc (rw (s, e, serve_with_slot) at h)
      contain path s (some (ok u)) e =
          let c = dispatch_chooses r path (rw (s, e, serve_with_slot) at h) in
          record {
            path = path;
            sanitized = s;
            contained = e;
            chosen = c.0;
            environment_is = c.1;
            limit_is = c.2;
          }

      clean :
          (o : Result SanitizeError Bytes)
          → sanitize_git_path_info (path_info_of cfg r.path) ≡ o
          → Runs r command
      clean (err x) e = cc (rw (e, serve_with_slot) at h)
      clean (ok path) e = contain path e (repo_within_root fs cfg.git_repos_folder path) refl

  -- With HTTP push off no request runs anything but the read-only backend.
  pub serve_with_slot_read_only :
      (r : HttpRequest) {command : GitCommand}
      → cfg.enable_http_write ≡ false
      → serve_with_slot fs look_path env cfg r ≡ runs command
      → command.argv ≡ codes "git" ∷ git_backend_args (codes "false")
  serve_with_slot_read_only r {command} off h = go (serve_with_slot-Runs r h).chosen
    where
      go :
          {path : Bytes}
          → Chooses r path command.argv
          → command.argv ≡ codes "git" ∷ git_backend_args (codes "false")
      go (reads p e) = e
      go (pushes binary p on b e) = cc (sym off ∙ on)

  -- If no more slots are in use than there are, a request leaves as many in use as it found, and
  -- while it is served no more are in use than there are; a request within the limits on its parts
  -- is turned away as busy if every slot is in use.
  pub serve_git_slots :
      (r : HttpRequest) (slots : Slots)
      → slots.used ≤ slots.size
      → ((serve_git fs look_path env cfg r slots).2 ≡ slots)
        × ((serve_git fs look_path env cfg r slots).1.used ≤ slots.size)
        × (check_cgi_env_limits r ≡ none
            → slots.used ≡ slots.size
            → (serve_git fs look_path env cfg r slots).0 ≡ busy)
  unfolding serve_git release_slot
  serve_git_slots r slots h = go (check_cgi_env_limits r) refl
    where
      go :
          (o : Option (ℕ × Bytes))
          → check_cgi_env_limits r ≡ o
          → ((serve_git fs look_path env cfg r slots).2 ≡ slots)
            × ((serve_git fs look_path env cfg r slots).1.used ≤ slots.size)
            × (check_cgi_env_limits r ≡ none
                → slots.used ≡ slots.size
                → (serve_git fs look_path env cfg r slots).0 ≡ busy)
      go (some (code, msg)) e = rw (e, serve_git) (refl, h, λ x. cc)
      go none e = elim (Bool-cases (ltb slots.used slots.size)) [
        | inl l ↦ rw (e, l, serve_git) (ground arith, ground arith, λ _ full. absurd (ground arith))
        | inr l ↦ rw (e, l, serve_git) (refl, h, λ _ _. refl)
      ]
