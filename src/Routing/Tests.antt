-- ===== src/Routing/Tests.antt =====
-- Routes of some paths, and instances of the theorems on them.
use simple_git_server.Base.{◌+◌, ◌≤◌, ◌≡◌, ◌↔◌, refl, true, length}
use simple_git_server.Text.{codes, equal, before, has_prefix, has_suffix, trim_prefix, trim_suffix}
use simple_git_server.FilePath.{slash}
use simple_git_server.GitPath.{root_path, is_repo_segment}
use simple_git_server.Config.{ServerConfig, config_of}
use simple_git_server.Config.Prefix.{IsPrefix}
use simple_git_server.Config.Tests.{flags}
use simple_git_server.Routing.{
  git, go_import, route, path_info_of, is_git_request, max_url_path_len,
}
use simple_git_server.Routing.Routes.{route-git_iff}

-- Git endpoints under `/git/`.
abbrev pub prefixed : ServerConfig
prefixed = record (config_of flags) {
  http_git_repos_prefix = codes "/git/";
  enable_go_import = true;
}

-- Git endpoints at the root.
abbrev pub at_root : ServerConfig
at_root = record (config_of flags) { http_git_repos_prefix = root_path; enable_go_import = true }

prefix_is : IsPrefix (codes "/git/")
unfolding has_prefix has_suffix
prefix_is = record { begins = refl; ends = refl }

routes :
    (route prefixed (codes "/git/r.git/HEAD") ≡ git)
    × (route at_root (codes "/r.git/HEAD") ≡ git)
    × (route at_root (codes "/.git/HEAD") ≡ go_import)
    × (path_info_of prefixed (codes "/git/r.git/HEAD") ≡ codes "/r.git/HEAD")
unfolding route is_git_request path_info_of equal before has_prefix has_suffix trim_prefix
    trim_suffix config_of
routes = (refl, refl, refl, refl)

route-git_iff_example : (route at_root (codes "/r.git/HEAD") ≡ git) ↔ (
    (length (codes "r.git/HEAD") + 1 ≤ max_url_path_len)
    × (is_repo_segment (before (codes "r.git/HEAD") slash) ≡ true))
route-git_iff_example = route-git_iff at_root (codes "r.git/HEAD") refl
