-- ===== src/Backend.antt =====
-- The git requests of githttp.go: `serveGit`, `serveGitHTTPWrite`, `checkCGIEnvLimits`,
-- `isReceivePackRequest`, `gitBackendArgs` and `gitBackendEnv`, with `resolveHTTPWriteBinary` of
-- http_write.go. `exec.LookPath`, the environment of the server and the file system are parameters.
-- Deadlines of the connection are not part of the model.
pub mod Query
pub mod Limits
pub mod Answers
pub mod Serve
pub mod Interleave
pub mod Tests
use Query.{query_get}
use simple_git_server.Base.{
  ℕ, ◌+◌, ◌-◌, ◌*◌, ◌^◌, Bool, true, false, not, ◌||◌, List, [], ◌∷◌, ◌++◌, ◌==◌, if◌then◌else◌,
  ltb, Option, none, some, length, Result, ok, err, ℤ, pos, negsuc,
}
use simple_git_server.Text.{Bytes, codes, equal, has_suffix, trim_suffix}
use simple_git_server.Text.Decimal.{decimal}
use simple_git_server.Dict.{lookup}
use simple_git_server.GitPath.{
  SanitizeError, empty_path, too_deep, path_escape, not_a_repo, sanitize_git_path_info, root_path,
}
use simple_git_server.Containment.{FileSystem, ContainError, repo_within_root}
use simple_git_server.Config.{ServerConfig, default_http_write_binary, max_request_body}
use simple_git_server.Routing.{path_info_of}

-- What the server reads of an HTTP request; the header names are in canonical form.
pub record HttpRequest : Type 0 where
  pub method : Bytes
  pub path : Bytes
  pub raw_query : Bytes
  pub header : List (Bytes × Bytes)
  pub content_length : ℤ
  pub remote_addr : Bytes
  pub proto : Bytes

abbrev pub or_empty : Option Bytes → Bytes
or_empty none = []
or_empty (some v) = v

-- r.Header.Get(name)
unfoldable pub header_get : HttpRequest → Bytes → Bytes
unfolding lookup
header_get r name = or_empty (lookup name r.header)

-- What runs a command: its arguments, environment and the limit on the body that it reads.
pub record GitCommand : Type 0 where
  pub argv : List Bytes
  pub environment : List Bytes
  pub body_limit : ℕ

-- What the handler does: an error response, or a command whose output is the response.
pub data Served : Type 0 where
  rejected : ℕ → Bytes → Served
  busy : Served
  not_found : ContainError → Served
  runs : GitCommand → Served
  -- the walk of the containment check ran out of fuel
  no_answer : Served

unfoldable pub git_backend_args : Bytes → List Bytes
git_backend_args receive_pack =
    codes "-c"
    ∷ (codes "http.receivepack=" ++ receive_pack)
    ∷ codes "-c"
    ∷ codes "http.getanyfile=false"
    ∷ codes "http-backend"
    ∷ []

abbrev pub max_cgi_env_value : ℕ
max_cgi_env_value = 32 * 2 ^ 10

unfoldable pub check_cgi_env_limits : HttpRequest → Option (ℕ × Bytes)
check_cgi_env_limits r =
    if ltb max_cgi_env_value (length r.raw_query)
    then some (414, codes "query string too long")
    else if ltb max_cgi_env_value (length (header_get r (codes "Content-Type")))
    then some (431, codes "Content-Type header too long")
    else if ltb max_cgi_env_value (length (header_get r (codes "Authorization")))
    then some (431, codes "Authorization header too long")
    else none

unfoldable pub is_receive_pack_request : HttpRequest → Bytes → Bool
is_receive_pack_request r path_info =
    has_suffix path_info (codes "/git-receive-pack")
    || equal (query_get r.raw_query (codes "service")) (codes "git-receive-pack")

-- The variable, if its value is not empty.
abbrev pub optional : Bytes → Bytes → List Bytes
optional name value = if equal value [] then [] else (name ++ value) ∷ []

abbrev pub content_length_entry : ℤ → List Bytes
content_length_entry (pos n) = (codes "CONTENT_LENGTH=" ++ decimal n) ∷ []
content_length_entry (negsuc n) = []

-- The environment of the server: PATH and HOME.
pub record ServerEnv : Type 0 where
  pub path_var : Bytes
  pub home : Bytes

unfoldable pub git_backend_env : ServerEnv → ServerConfig → Bytes → HttpRequest → List Bytes
git_backend_env env cfg path_info r =
    (codes "PATH="
      ++ (if equal env.path_var [] then codes "/usr/local/bin:/usr/bin:/bin" else env.path_var))
    ∷ codes "LANG=C"
    ∷ (codes "GIT_PROJECT_ROOT=" ++ cfg.git_repos_folder)
    ∷ codes "GIT_HTTP_EXPORT_ALL=1"
    ∷ (codes "PATH_INFO=" ++ path_info)
    ∷ (codes "REQUEST_METHOD=" ++ r.method)
    ∷ (codes "QUERY_STRING=" ++ r.raw_query)
    ∷ (codes "SCRIPT_NAME=" ++ trim_suffix cfg.http_git_repos_prefix root_path)
    ∷ (codes "REMOTE_ADDR=" ++ r.remote_addr)
    ∷ codes "REMOTE_USER="
    ∷ (codes "SERVER_PROTOCOL=" ++ r.proto)
    ∷ (optional (codes "HOME=") env.home
        ++ (optional (codes "CONTENT_TYPE=") (header_get r (codes "Content-Type"))
            ++ (content_length_entry r.content_length
                ++ (optional (codes "HTTP_AUTHORIZATION=") (header_get r (codes "Authorization"))
                    ++ (optional (codes "HTTP_CONTENT_ENCODING=")
                          (header_get r (codes "Content-Encoding"))
                        ++ optional (codes "HTTP_GIT_PROTOCOL=")
                            (header_get r (codes "Git-Protocol")))))))

abbrev pub push_off : Bytes
push_off =
    codes
      "HTTP push (git-receive-pack) is disabled; enable with --enable-http-write (private network only, no auth) or use SSH"

-- The texts of the errors of `sanitizeGitPathInfo`.
abbrev pub sanitize_message : SanitizeError → Bytes
sanitize_message empty_path = codes "empty path"
sanitize_message too_deep = codes "path too deep"
sanitize_message path_escape = codes "path escape"
sanitize_message not_a_repo = codes "repo segment must end in .git"

-- resolveHTTPWriteBinary
unfoldable pub resolve_http_write_binary : (Bytes → Option Bytes) → Bytes → Option Bytes
unfolding equal
resolve_http_write_binary look_path name =
    look_path (if equal name [] then default_http_write_binary else name)

-- The semaphore of git commands: slots in use, and their number.
pub record Slots : Type 0 where
  pub used : ℕ
  pub size : ℕ

-- The deferred receive from the semaphore.
unfoldable pub release_slot : Slots → Slots
release_slot s = record s { used = s.used - 1 }

module _ (fs : FileSystem) (look_path : Bytes → Option Bytes) (env : ServerEnv)
    (cfg : ServerConfig) where
  unfoldable pub serve_git_http_write : HttpRequest → Bytes → Served
  serve_git_http_write r path_info =
      elim (resolve_http_write_binary look_path cfg.http_write_binary) [
        | none ↦ rejected 502 (codes "HTTP push helper unavailable")
        | some binary ↦ runs (record {
          argv = binary ∷ [];
          environment = git_backend_env env cfg path_info r;
          body_limit = max_request_body cfg;
        })
      ]

  -- The part of `serveGit` behind the path checks.
  unfoldable pub dispatch : HttpRequest → Bytes → Served
  dispatch r cleaned =
      if is_receive_pack_request r cleaned
      then if not cfg.enable_http_write
        then rejected 403 push_off
        else serve_git_http_write r cleaned
      else runs (record {
        argv = codes "git" ∷ git_backend_args (codes "false");
        environment = git_backend_env env cfg cleaned r;
        body_limit = max_request_body cfg;
      })

  abbrev pub contained_or_not :
      HttpRequest → Bytes → Option (Result ContainError (Unit {0})) → Served
  contained_or_not r cleaned none = no_answer
  contained_or_not r cleaned (some (err e)) = not_found e
  contained_or_not r cleaned (some (ok _)) = dispatch r cleaned

  -- The part of `serveGit` that runs with a slot taken.
  unfoldable pub serve_with_slot : HttpRequest → Served
  serve_with_slot r = elim (sanitize_git_path_info (path_info_of cfg r.path)) [
    | err e ↦ rejected 400 (codes "bad git path: " ++ sanitize_message e)
    | ok cleaned ↦ contained_or_not r cleaned (repo_within_root fs cfg.git_repos_folder cleaned)
  ]

  -- The response, the slots while it is made, and the slots afterwards.
  unfoldable pub serve_git : HttpRequest → Slots → Served × Slots × Slots
  serve_git r slots = elim (check_cgi_env_limits r) [
    | some (code, msg) ↦ (rejected code msg, slots, slots)
    | none ↦
        let during = record slots { used = slots.used + 1 } in
        if ltb slots.used slots.size
        then (serve_with_slot r, during, release_slot during)
        else (busy, slots, slots)
  ]
