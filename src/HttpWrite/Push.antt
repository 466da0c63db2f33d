-- ===== src/HttpWrite/Push.antt =====
-- A push over HTTP through the helper: githttp.go starts it, and it starts git.
use simple_git_server.Base.{ℕ, ◌≡◌, refl, List, [], ◌∷◌, Option, none, some, drop}
use simple_git_server.Text.{Bytes, codes}
use simple_git_server.Config.{ServerConfig, max_request_body}
use simple_git_server.Containment.{FileSystem}
use simple_git_server.Flag.{parse_args}
use simple_git_server.Backend.{
  HttpRequest, ServerEnv, GitCommand, runs, git_backend_args, git_backend_env, serve_git_http_write,
  resolve_http_write_binary,
}
use simple_git_server.HttpWrite.{runs_git, run_git_http_backend, http_write_main}

-- The helper without arguments.
helper_runs :
    (look_path : Bytes → Option Bytes) (environ : List Bytes) (fraction : ℕ → Bytes → ℕ)
    {git : Bytes}
    → look_path (codes "git") ≡ some git
    → http_write_main look_path environ fraction []
      ≡ runs_git (codes "git" ∷ git_backend_args (codes "true")) environ
unfolding http_write_main run_git_http_backend parse_args git_backend_args
helper_runs look_path environ fraction h = rw (h, http_write_main, run_git_http_backend) refl

module _ (fs : FileSystem) (look_path : Bytes → Option Bytes) (env : ServerEnv) (cfg : ServerConfig)
    (fraction : ℕ → Bytes → ℕ) where
  -- What the helper does that the server starts for a push: it runs the backend of git, with
  -- receive-pack on, and the dumb protocol off, exactly as the server itself would with that
  -- switch, in the environment that the server made for the request. Git is on the path.
  pub http_write_main-serve_git_http_write :
      (r : HttpRequest) (path_info : Bytes) {run : GitCommand} {git : Bytes}
      → serve_git_http_write fs look_path env cfg r path_info ≡ runs run
      → look_path (codes "git") ≡ some git
      → http_write_main look_path run.environment fraction (drop 1 run.argv)
        ≡ runs_git
            (codes "git" ∷ git_backend_args (codes "true"))
            (git_backend_env env cfg path_info r)
  unfolding serve_git_http_write
  http_write_main-serve_git_http_write r path_info {run} h git =
      go (resolve_http_write_binary look_path cfg.http_write_binary) refl
    where
      go :
          (o : Option Bytes)
          → resolve_http_write_binary look_path cfg.http_write_binary ≡ o
          → http_write_main look_path run.environment fraction (drop 1 run.argv)
            ≡ runs_git
                (codes "git" ∷ git_backend_args (codes "true"))
                (git_backend_env env cfg path_info r)
      go none e = cc (rw (e, serve_git_http_write) at h)
      go (some binary) e =
          let run_is : run ≡ record {
            argv = binary ∷ [];
            environment = git_backend_env env cfg path_info r;
            body_limit = max_request_body cfg;
          } =
            cc (rw (e, serve_git_http_write) at h) in
          rw run_is (helper_runs look_path (git_backend_env env cfg path_info r) fraction git)
