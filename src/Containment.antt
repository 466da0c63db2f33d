-- ===== src/Containment.antt =====
-- The containment checks of githttp.go, `repoWithinRoot` and `containedIn`, over what the operating
-- system answers: `filepath.EvalSymlinks` is a parameter.
pub mod Paths
pub mod Walk
pub mod Verdict
pub mod Disk
pub mod Tests
use simple_git_server.Base.{
  ℕ, zero, suc, Bool, true, false, ◌||◌, List, [], ◌∷◌, ◌==◌, if◌then◌else◌, ltb, length, Option,
  none, some, Result, ok, err, ◌>>=◌,
}
use simple_git_server.Text.{Bytes, equal, trim_prefix}
use simple_git_server.FilePath.{slash, rel, join_path, dir}
use simple_git_server.FilePath.Relative.{stays}

-- An error of the operating system, as `os.IsNotExist` tells them apart.
pub data FsError : Type 0 where
  not_exist other : FsError

-- What `os.Stat` finds.
pub data FileKind : Type 0 where
  directory plain : FileKind

pub record FileSystem : Type 0 where
  pub eval_symlinks : Bytes → Result FsError Bytes
  pub stat : Bytes → Result FsError FileKind

pub data ContainError : Type 0 where
  empty_repo_segment root_unresolved path_unresolved repository_escapes : ContainError

-- The test of `containedIn`: `filepath.Rel` succeeds, and what it gives does not climb.
unfoldable pub contained_in : Bytes → Bytes → Result ContainError (Unit {0})
unfolding stays
contained_in root target = if stays (rel root target) then ok tt else err repository_escapes

module _ (fs : FileSystem) where
  -- The loop of `repoWithinRoot`; `none` means that the fuel ran out.
  unfoldable pub walk_up : ℕ → Bytes → Bytes → Option (Result ContainError (Unit {0}))
  walk_up zero root probe = none
  walk_up (suc fuel) root probe =
      let parent = dir probe in
      let rest = walk_up fuel root parent in
      elim (fs.eval_symlinks probe) [
        | ok resolved ↦ some (contained_in root resolved)
        | err other ↦ some (err path_unresolved)
        | err not_exist ↦
            if equal parent probe || ltb (length parent) (length root) then some (ok tt) else rest
      ]

  unfoldable pub repo_within_root : Bytes → Bytes → Option (Result ContainError (Unit {0}))
  unfolding equal
  repo_within_root root path_info =
      let rest = trim_prefix path_info (slash ∷ []) in
      if equal rest [] then some (err empty_repo_segment) else elim (fs.eval_symlinks root) [
        | err e ↦ some (err root_unresolved)
        | ok resolved ↦
            let probe = join_path resolved rest in walk_up (suc (length probe)) resolved probe
      ]
