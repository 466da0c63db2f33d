-- ===== src/Backend/Answers.antt =====
-- `serveGit` gives every request an answer.
use simple_git_server.Base.{◌≡◌, ◌≢◌, refl, true, arith, Option, some, Result, ok, err}
use simple_git_server.Text.{Bytes}
use simple_git_server.FilePath.{is_abs}
use simple_git_server.GitPath.{SanitizeError, sanitize_git_path_info}
use simple_git_server.GitPath.Sanitize.{sanitize-IsGitPath}
use simple_git_server.Containment.{FileSystem, ContainError, repo_within_root}
use simple_git_server.Containment.Paths.{Resolves}
use simple_git_server.Containment.Verdict.{within_root_answers}
use simple_git_server.Config.{ServerConfig}
use simple_git_server.Routing.{path_info_of}
use simple_git_server.Backend.{
  HttpRequest, no_answer, ServerEnv, serve_git_http_write, dispatch, serve_with_slot,
}

-- Under an absolute folder of repositories whose symlinks the system resolves, every request is
-- answered: the walk of the containment check never runs out of fuel.
pub serve_with_slot_answers :
    (fs : FileSystem) (look_path : Bytes → Option Bytes) (env : ServerEnv) (cfg : ServerConfig)
    → Resolves fs
    → is_abs cfg.git_repos_folder ≡ true
    → (r : HttpRequest) → serve_with_slot fs look_path env cfg r ≢ no_answer
unfolding serve_with_slot
serve_with_slot_answers fs look_path env cfg sane abs r h =
    clean (sanitize_git_path_info (path_info_of cfg r.path)) refl
  where
    dispatched : (path : Bytes) → dispatch fs look_path env cfg r path ≢ no_answer
    dispatched path = unfold dispatch serve_git_http_write in λ x. ground arith

    contain :
        (path : Bytes)
        → sanitize_git_path_info (path_info_of cfg r.path) ≡ ok path
        → (v : Result ContainError (Unit {0}))
        → repo_within_root fs cfg.git_repos_folder path ≡ some v
        → ⊥
    contain path s (err x) e = ground (arith, rw (s, e, serve_with_slot) at h)
    contain path s (ok u) e = dispatched path (rw (s, e, serve_with_slot) at h)

    clean :
        (o : Result SanitizeError Bytes) → sanitize_git_path_info (path_info_of cfg r.path) ≡ o → ⊥
    clean (err x) e = ground (arith, rw (e, serve_with_slot) at h)
    clean (ok path) e =
        let (v, w) =
          within_root_answers fs sane cfg.git_repos_folder abs
            (sanitize-IsGitPath (path_info_of cfg r.path) e) in
        contain path e v w
