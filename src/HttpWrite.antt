-- ===== src/HttpWrite.antt =====
-- cmd/http-write/main.go: `main` and `runGitHTTPBackend`, the helper that runs git for one push
-- over HTTP. `exec.LookPath` and the environment that the process inherits are parameters.
pub mod Push
pub mod Tests
use simple_git_server.Base.{
  ℕ, Bool, true, false, List, [], ◌∷◌, Option, none, some, Result, ok, err, if◌then◌else◌,
}
use simple_git_server.Text.{Bytes, codes}
use simple_git_server.Flag.{
  Kind, bool_flag, FlagError, bad_syntax, help_requested, undefined, needs_argument, bad_value,
  flags_of, parse_args,
}

pub record HelperFlags : Type 0 where
  pub version : Bool

abbrev pub helper_flags : List (Bytes × Kind HelperFlags)
helper_flags = (codes "version", bool_flag (λ b f. record f { version = b })) ∷ []

-- What the helper does: it ends, or runs a command in an environment.
pub data HelperRun : Type 0 where
  usage : FlagError → HelperRun
  shows_version git_not_found : HelperRun
  runs_git : List Bytes → List Bytes → HelperRun

abbrev pub backend_argv : List Bytes
backend_argv =
    codes "git"
    ∷ codes "-c"
    ∷ codes "http.receivepack=true"
    ∷ codes "-c"
    ∷ codes "http.getanyfile=false"
    ∷ codes "http-backend"
    ∷ []

module _ (look_path : Bytes → Option Bytes) (environ : List Bytes) where
  unfoldable pub run_git_http_backend : HelperRun
  run_git_http_backend = elim (look_path (codes "git")) [
    | none ↦ git_not_found
    | some git ↦ runs_git backend_argv environ
  ]

  abbrev pub helper_after : Result FlagError (HelperFlags × List Bytes) → HelperRun
  helper_after (err e) = usage e
  helper_after (ok (f, rest)) = if f.version then shows_version else run_git_http_backend

  -- `main` on its arguments; the fraction of a duration is never asked for.
  unfoldable pub http_write_main : (ℕ → Bytes → ℕ) → List Bytes → HelperRun
  http_write_main fraction args =
      helper_after (parse_args (flags_of fraction helper_flags) args (record { version = false }))

-- How the process ends; `git_succeeds` is whether git succeeds.
unfoldable pub helper_exit_code : Bool → HelperRun → ℕ
helper_exit_code git_succeeds (usage e) = elim e [
  | help_requested ↦ 0
  | bad_syntax ↦ 2
  | undefined ↦ 2
  | needs_argument ↦ 2
  | bad_value ↦ 2
]
helper_exit_code git_succeeds shows_version = 0
helper_exit_code git_succeeds git_not_found = 1
helper_exit_code git_succeeds (runs_git argv env) = if git_succeeds then 0 else 1
