-- ===== src/RepoPath/Tests.antt =====
-- Runs of the repository path checks, and instances of their theorems.
use simple_git_server.Base.{◌≡◌, ◌⊎◌, refl, false, ok, err, Result}
use simple_git_server.Text.{Bytes, codes, has_suffix, trim_prefix}
use simple_git_server.Text.Unicode.{trim_space}
use simple_git_server.FilePath.{is_abs, join_path, rel, diverge, parts}
use simple_git_server.FilePath.Clean.{cleaned}
use simple_git_server.FilePath.Relative.{stays}
use simple_git_server.GitPath.{has_dot_dot_segment}
use simple_git_server.Containment.{FsError, not_exist}
use simple_git_server.Containment.Disk.{srv, inside, disk}
use simple_git_server.RepoPath.{
  RepoPathError, empty_repository_path, invalid_repository_path, absolute_not_allowed, path_escapes,
  check_name, strip_repo, with_git, abs_path, join_under, check_existing, within_root,
  resolve_repo_path_opts, resolve_repo_path,
}
use simple_git_server.RepoPath.Lexical.{IsPathOf, resolve_lexical}
use simple_git_server.RepoPath.Refusals.{Refused}

abbrev no_cwd : Result FsError Bytes
no_cwd = err not_exist

resolved : resolve_repo_path disk no_cwd srv (codes " /r ") ≡ ok inside
unfolding resolve_repo_path check_name strip_repo with_git abs_path join_under check_existing
    within_root stays rel diverge join_path parts has_dot_dot_segment has_suffix trim_prefix
    trim_space
resolved = refl

refused :
    (resolve_repo_path disk no_cwd srv (codes "./") ≡ err empty_repository_path)
    × (resolve_repo_path disk no_cwd srv (codes "a/../r.git") ≡ err invalid_repository_path)
    × (resolve_repo_path disk no_cwd srv (codes "//r.git") ≡ err absolute_not_allowed)
    × (resolve_repo_path disk no_cwd srv (codes "x.git") ≡ err path_escapes)
unfolding resolve_repo_path check_name strip_repo with_git abs_path join_under check_existing
    within_root stays rel diverge join_path parts has_dot_dot_segment has_suffix trim_prefix
    trim_space
refused = (refl, refl, refl, refl)

resolve_lexical_example :
    ((e : RepoPathError) × Refused (strip_repo (codes "team/r")) e
      × (resolve_repo_path_opts disk no_cwd srv (codes "team/r") false ≡ err e))
    ⊎ ((full : Bytes) × IsPathOf (cleaned srv) (strip_repo (codes "team/r")) full
        × (resolve_repo_path_opts disk no_cwd srv (codes "team/r") false ≡ ok full))
resolve_lexical_example = resolve_lexical disk no_cwd srv (codes "team/r") (unfold is_abs in refl)
