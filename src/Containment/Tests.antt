-- ===== src/Containment/Tests.antt =====
-- Runs of the containment check on a small file system, and instances of its theorems.
use simple_git_server.Base.{◌≡◌, ◌↔◌, refl, true, List, [], ◌∷◌, All, some, Result, ok, err}
use simple_git_server.Text.{Bytes, codes, equal, join, trim_prefix, has_prefix}
use simple_git_server.FilePath.{is_abs, render, clean, parts, diverge, join_path, dir, rel}
use simple_git_server.FilePath.Names.{IsPart}
use simple_git_server.FilePath.Relative.{stays}
use simple_git_server.GitPath.{is_repo_segment}
use simple_git_server.GitPath.Sanitize.{IsGitPath}
use simple_git_server.Containment.{
  ContainError, repository_escapes, repo_within_root, walk_up, contained_in,
}
use simple_git_server.Containment.Walk.{Walks}
use simple_git_server.Containment.Verdict.{Beneath, within_root-Walks, within_root-Beneath}
use simple_git_server.Containment.Disk.{srv, inside, disk, repo-IsPart, disk_sane}

abbrev git_path : Bytes
git_path = codes "/r.git"

git_path_is : IsGitPath git_path
git_path_is = record {
  repo = codes "r.git";
  below = [];
  named = (repo-IsPart, tt);
  path_is = unfold render join in refl;
  repo_is = unfold is_repo_segment in refl;
}

within_root-Walks_example :
    (rs : List Bytes) × (v : Result ContainError (Unit {0})) × All IsPart rs
    × (srv ≡ render true rs)
    × (repo_within_root disk srv git_path ≡ some v)
    × Walks disk rs (git_path_is.repo ∷ git_path_is.below) v
within_root-Walks_example =
    within_root-Walks disk disk_sane srv (unfold is_abs in refl) git_path_is (unfold equal in refl)

within_root-Beneath_example :
    (repo_within_root disk srv git_path ≡ some (ok tt)) ↔ Beneath srv inside
within_root-Beneath_example =
    within_root-Beneath disk disk_sane srv (unfold is_abs in refl) git_path_is
      (unfold equal in refl) (unfold equal join_path clean trim_prefix has_prefix in refl)

-- A symlink out of the root is refused, and a missing repository is left to git.
symlink_refused :
    (repo_within_root disk srv (codes "/x.git/HEAD") ≡ some (err repository_escapes))
    × (repo_within_root disk srv (codes "/y.git/info/refs") ≡ some (ok tt))
unfolding repo_within_root walk_up contained_in stays rel diverge join_path dir clean parts
    trim_prefix has_prefix equal is_abs
symlink_refused = (refl, refl)
