-- ===== src/HttpWrite/Tests.antt =====
-- Runs of the helper, and an instance of the theorem on a push.
use simple_git_server.Base.{ℕ, ◌≡◌, refl, true, [], ◌∷◌, drop, Option, some, none, negsuc}
use simple_git_server.Dict.{lookup}
use simple_git_server.Text.{Bytes, codes, equal, before, after?}
use simple_git_server.Config.{ServerConfig}
use simple_git_server.Containment.Disk.{disk}
use simple_git_server.Routing.Tests.{at_root}
use simple_git_server.Backend.{
  HttpRequest, ServerEnv, GitCommand, runs, git_backend_args, git_backend_env, serve_git_http_write,
  resolve_http_write_binary,
}
use simple_git_server.Text.Numbers.{parse_bool}
use simple_git_server.Flag.{read_arg, flags_of, parse_one, parse_args, undefined}
use simple_git_server.HttpWrite.{
  usage, shows_version, git_not_found, runs_git, run_git_http_backend, http_write_main,
  helper_exit_code,
}
use simple_git_server.HttpWrite.Push.{http_write_main-serve_git_http_write}

abbrev found : Bytes → Option Bytes
found name = some name

abbrev nothing : Bytes → Option Bytes
nothing name = none

abbrev no_fraction : ℕ → Bytes → ℕ
no_fraction unit digits = 0

versions :
    (http_write_main found [] no_fraction (codes "--version" ∷ []) ≡ shows_version)
    × (http_write_main found [] no_fraction (codes "-version=false" ∷ codes "x" ∷ [])
        ≡ runs_git (codes "git" ∷ git_backend_args (codes "true")) [])
    × (http_write_main nothing [] no_fraction [] ≡ git_not_found)
    × (http_write_main found [] no_fraction (codes "-v" ∷ []) ≡ usage undefined)
    × (helper_exit_code true (usage undefined) ≡ 2)
unfolding http_write_main run_git_http_backend parse_args parse_one read_arg flags_of lookup equal
    before after? git_backend_args helper_exit_code parse_bool
versions = (refl, refl, refl, refl, refl)

abbrev pushing : ServerConfig
pushing = record at_root {
  git_repos_folder = codes "/srv";
  enable_http_write = true;
  http_write_binary = codes "helper";
}

abbrev env : ServerEnv
env = record { path_var = []; home = codes "/root" }

abbrev push : HttpRequest
push = record {
  method = codes "POST";
  path = codes "/r.git/git-receive-pack";
  raw_query = [];
  header = [];
  content_length = negsuc 0;
  remote_addr = codes "192.0.2.1:99";
  proto = codes "HTTP/1.1";
}

push_runs :
    (c : GitCommand) × (serve_git_http_write disk found env pushing push
        (codes "/r.git/git-receive-pack")
      ≡ runs c)
unfolding serve_git_http_write resolve_http_write_binary
push_runs = (_, refl)

http_write_main-serve_git_http_write_example :
    http_write_main found push_runs.0.environment no_fraction (drop 1 push_runs.0.argv)
    ≡ runs_git
        (codes "git" ∷ git_backend_args (codes "true"))
        (git_backend_env env pushing (codes "/r.git/git-receive-pack") push)
http_write_main-serve_git_http_write_example =
    http_write_main-serve_git_http_write disk found env pushing no_fraction push
      (codes "/r.git/git-receive-pack") push_runs.1 refl
