-- ===== src/Routing.antt =====
-- The root handler of main.go: `newRootHandler`, `isGitRequest`, `truncateForLog` and the status
-- recorder of `accessLog`. A route is what the handler hands the request to.
pub mod Routes
pub mod Recorder
pub mod Tests
use simple_git_server.Base.{
  ℕ, Bool, true, false, not, ◌&&◌, List, [], ◌∷◌, ◌++◌, ◌==◌, if◌then◌else◌, ltb, leb, length, take,
}
use simple_git_server.Text.{
  Bytes, codes, equal, before, has_prefix, has_suffix, trim_prefix, trim_suffix,
}
use simple_git_server.FilePath.{slash}
use simple_git_server.GitPath.{root_path, dot_git}
use simple_git_server.Config.{ServerConfig, default_git_max_concurrent}

abbrev pub pulse_path : Bytes
pulse_path = codes "/pulse"

abbrev pub max_url_path_len : ℕ
max_url_path_len = 4096

abbrev pub max_logged_path_len : ℕ
max_logged_path_len = 256

-- isGitRequest, for the prefix of the configuration
unfoldable pub is_git_request : Bytes → Bytes → Bool
is_git_request prefix path =
    let seg = before (trim_prefix path root_path) slash in
    if not (has_prefix path prefix)
    then false
    else if not (equal prefix root_path)
    then true
    else not (equal seg dot_git) && has_suffix seg dot_git

pub data Route : Type 0 where
  path_too_long git pulse go_import not_found : Route

unfoldable pub route : ServerConfig → Bytes → Route
route cfg path =
    if ltb max_url_path_len (length path)
    then path_too_long
    else if is_git_request cfg.http_git_repos_prefix path
    then git
    else if equal path pulse_path
    then pulse
    else if cfg.enable_go_import
    then go_import
    else not_found

-- The path that `serveGit` reads the repository from.
unfoldable pub path_info_of : ServerConfig → Bytes → Bytes
path_info_of cfg path = trim_prefix path (trim_suffix cfg.http_git_repos_prefix root_path)

abbrev pub truncated_mark : Bytes
truncated_mark = codes "...(truncated)"

unfoldable pub truncate_for_log : Bytes → Bytes
truncate_for_log s =
    if leb (length s) max_logged_path_len then s else take max_logged_path_len s ++ truncated_mark

-- What a handler does with the response writer.
pub data Call : Type 0 where
  write_header : ℕ → Call
  write flush : Call

-- The status that the recorder holds, 0 before any; the writer below it is a flusher.
unfoldable pub record_call : ℕ → Call → ℕ
record_call status (write_header code) = code
record_call status write = if status == 0 then 200 else status
record_call status flush = if status == 0 then 200 else status

unfoldable pub recorded : ℕ → List Call → ℕ
unfolding record_call
recorded status [] = status
recorded status (c ∷ cs) = recorded (record_call status c) cs
