-- ===== src/Backend/Tests.antt =====
-- Requests to a small server, and instances of the theorems on them.
use simple_git_server.Base.{
  [], ◌∷◌, length, ◌≤◌, ◌≡◌, refl, false, [], arith, Option, some, none, negsuc,
}
use simple_git_server.Text.{
  Bytes, codes, equal, before, has_prefix, has_suffix, trim_prefix, trim_suffix, count, split,
}
use simple_git_server.FilePath.{is_abs, rel, diverge, join_path, dir, clean, parts}
use simple_git_server.FilePath.Relative.{stays}
use simple_git_server.GitPath.{
  sanitize_git_path_info, has_dot_dot_segment, check_cleaned, is_repo_segment,
}
use simple_git_server.Containment.{repo_within_root, walk_up, contained_in}
use simple_git_server.Containment.Disk.{disk}
use simple_git_server.Config.{ServerConfig, config_of}
use simple_git_server.Routing.{path_info_of}
use simple_git_server.Routing.Tests.{at_root}
use simple_git_server.Backend.{
  header_get, HttpRequest, runs, busy, ServerEnv, Slots, check_cgi_env_limits, git_backend_env,
  is_receive_pack_request, dispatch, serve_git_http_write, serve_with_slot, serve_git,
}
use simple_git_server.Backend.Query.{query_get}
use simple_git_server.Backend.Limits.{HasLonger, git_backend_env_unlimited}
use simple_git_server.Backend.Interleave.{
  Load, ReachableLoad, idles, next_load, holds, ReachableLoad-slots,
}
use simple_git_server.Backend.Serve.{Runs, serve_with_slot-Runs, serve_git_slots}

abbrev pub server : ServerConfig
server = record at_root { git_repos_folder = codes "/srv"; enable_http_write = false }

abbrev pub env : ServerEnv
env = record { path_var = []; home = codes "/root" }

abbrev pub look_path : Bytes → Option Bytes
look_path name = some name

abbrev pub fetch : HttpRequest
fetch = record {
  method = codes "GET";
  path = codes "/r.git/info/refs";
  raw_query = codes "service=git-upload-pack";
  header = [];
  content_length = negsuc 0;
  remote_addr = codes "192.0.2.1:99";
  proto = codes "HTTP/1.1";
}

fetch_runs : (c : _) × (serve_with_slot disk look_path env server fetch ≡ runs c)
unfolding serve_with_slot dispatch serve_git_http_write sanitize_git_path_info path_info_of
    repo_within_root walk_up contained_in stays rel diverge join_path dir clean parts trim_prefix
    has_prefix equal is_abs has_suffix trim_suffix count split before has_dot_dot_segment
    check_cleaned is_repo_segment is_receive_pack_request query_get config_of
fetch_runs = (_, refl)

serve_with_slot-Runs_example : Runs disk look_path env server fetch fetch_runs.0
serve_with_slot-Runs_example = serve_with_slot-Runs disk look_path env server fetch fetch_runs.1

abbrev full : Slots
full = record { used = 2; size = 2 }

serve_git_slots_example :
    ((serve_git disk look_path env server fetch full).2 ≡ full)
    × ((serve_git disk look_path env server fetch full).1.used ≤ full.size)
    × (check_cgi_env_limits fetch ≡ none
        → full.used ≡ full.size
        → (serve_git disk look_path env server fetch full).0 ≡ busy)
serve_git_slots_example = serve_git_slots disk look_path env server fetch full (omega arith)

git_backend_env_unlimited_example :
    (r : HttpRequest) × (check_cgi_env_limits r ≡ none)
    × HasLonger 131072 (git_backend_env env server fetch.path r)
git_backend_env_unlimited_example = git_backend_env_unlimited env server fetch.path 131072

abbrev one_fetch : Load
one_fetch = record { slots = record { used = 1; size = 2 }; holding = fetch ∷ [] }

one_fetch_reached : ReachableLoad disk look_path env server 2 one_fetch
unfolding serve_git check_cgi_env_limits header_get
one_fetch_reached = next_load (idles refl) (holds fetch refl refl)

ReachableLoad-slots_example :
    (one_fetch.slots.used ≡ length one_fetch.holding)
    × (length one_fetch.holding ≤ 2)
    × (one_fetch.slots.size ≡ 2)
ReachableLoad-slots_example = ReachableLoad-slots disk look_path env server 2 one_fetch_reached
