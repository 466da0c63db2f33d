-- ===== src/RepoPath.antt =====
-- The repository path of cmd/ssh-read-write/session.go: `resolveRepoPathOpts`, `resolveRepoPath`
-- and `withinRoot`. The operating system's answers (`os.Getwd`, `os.Stat`, `filepath.EvalSymlinks`)
-- are parameters.
pub mod Refusals
pub mod Lexical
pub mod Existing
pub mod Tests
use simple_git_server.Base.{
  Bool, true, false, not, ◌||◌, [], ◌∷◌, ◌++◌, ◌==◌, if◌then◌else◌, Result, ok, err, ◌>>=◌, ◌>>◌,
}
use simple_git_server.Text.{Bytes, codes, equal, has_suffix, trim_prefix}
use simple_git_server.Text.Unicode.{trim_space}
use simple_git_server.FilePath.{slash, dot, is_abs, clean, join_path, rel}
use simple_git_server.FilePath.Relative.{stays}
use simple_git_server.GitPath.{has_dot_dot_segment, dot_git}
use simple_git_server.Containment.{FsError, FileSystem, FileKind, directory, plain}

pub data RepoPathError : Type 0 where
  empty_repository_path invalid_repository_path absolute_not_allowed no_working_directory :
      RepoPathError
  path_escapes not_found not_a_directory root_unresolved : RepoPathError

-- filepath.Abs, in the working directory given.
unfoldable pub abs_path : Result FsError Bytes → Bytes → Result RepoPathError Bytes
abs_path cwd root =
    if is_abs root
    then ok (clean root)
    else elim cwd [ ok w ↦ ok (join_path w root) | err e ↦ err no_working_directory ]

-- withinRoot: the target, with symlinks resolved, is inside the root.
unfoldable pub within_root : FileSystem → Bytes → Bytes → Result RepoPathError (Unit {0})
within_root fs root target = elim (fs.eval_symlinks root) [
  | err e ↦ err root_unresolved
  | ok resolved_root ↦ elim (fs.eval_symlinks target) [
    | err e ↦ err not_found
    | ok resolved ↦ if stays (rel resolved_root resolved) then ok tt else err path_escapes
  ]
]

-- The name as it came, without blanks around it and without a leading `/` and then `./`.
unfoldable pub strip_repo : Bytes → Bytes
strip_repo repo = trim_prefix (trim_prefix (trim_space repo) (slash ∷ [])) (codes "./")

unfoldable pub with_git : Bytes → Bytes
with_git cleaned = if has_suffix cleaned dot_git then cleaned else cleaned ++ dot_git

-- The checks before the path is joined to the root.
unfoldable pub check_name : Bytes → Result RepoPathError Bytes
check_name repo =
    if equal repo []
    then err empty_repository_path
    else if has_dot_dot_segment repo
    then err invalid_repository_path
    else if equal (clean repo) dot || has_dot_dot_segment (clean repo)
    then err invalid_repository_path
    else if is_abs (clean repo)
    then err absolute_not_allowed
    else ok (with_git (clean repo))

-- The joined path, if it stays under the root.
unfoldable pub join_under : Bytes → Bytes → Result RepoPathError Bytes
join_under abs_root name =
    let full = clean (join_path abs_root name) in
    if stays (rel abs_root full) then ok full else err path_escapes

-- The checks on what is there.
unfoldable pub check_existing : FileSystem → Bytes → Bytes → Result RepoPathError Bytes
check_existing fs abs_root full = elim (fs.stat full) [
  | err e ↦ err not_found
  | ok plain ↦ err not_a_directory
  | ok directory ↦ within_root fs abs_root full >> ok full
]

unfoldable pub resolve_repo_path_opts :
    FileSystem → Result FsError Bytes → Bytes → Bytes → Bool → Result RepoPathError Bytes
resolve_repo_path_opts fs cwd root repo check_exists = do
  name ← check_name (strip_repo repo)
  abs_root ← abs_path cwd root
  full ← join_under abs_root name
  if check_exists then check_existing fs abs_root full else ok full

unfoldable pub resolve_repo_path :
    FileSystem → Result FsError Bytes → Bytes → Bytes → Result RepoPathError Bytes
unfolding resolve_repo_path_opts
resolve_repo_path fs cwd root repo = resolve_repo_path_opts fs cwd root repo true
