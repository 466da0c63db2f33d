-- ===== src/GitPath.antt =====
-- The path checks of githttp.go: `sanitizeGitPathInfo` and `hasDotDotSegment`. An error is the
-- message that the code puts in it.
pub mod Names
pub mod Sanitize
pub mod Tests
use simple_git_server.Base.{
  ℕ, Bool, ◌||◌, not, [], ◌∷◌, ◌==◌, if◌then◌else◌, ltb, any, Result, ok, err,
}
use simple_git_server.Text.{
  Bytes, codes, equal, has_prefix, has_suffix, trim_prefix, count, before, split,
}
use simple_git_server.FilePath.{slash, dot, dot_dot, clean}

pub data SanitizeError : Type 0 where
  empty_path too_deep path_escape not_a_repo : SanitizeError

-- maxGitPathSegments
abbrev pub max_git_path_segments : ℕ
max_git_path_segments = 32

abbrev pub root_path : Bytes
root_path = slash ∷ []

abbrev pub dot_git : Bytes
dot_git = codes ".git"

unfoldable pub has_dot_dot_segment : Bytes → Bool
unfolding split equal
has_dot_dot_segment p = any (λ seg. equal seg dot_dot) (split p slash)

-- The test on the first segment.
unfoldable pub is_repo_segment : Bytes → Bool
unfolding equal has_suffix
is_repo_segment seg = not (equal seg [] || not (has_suffix seg dot_git) || equal seg dot_git)

-- The checks behind `path.Clean`.
unfoldable pub check_cleaned : Bytes → Result SanitizeError Bytes
check_cleaned cleaned =
    let full = if has_prefix cleaned root_path then cleaned else slash ∷ cleaned in
    if equal cleaned dot || equal cleaned root_path
    then err empty_path
    else if has_dot_dot_segment full
    then err path_escape
    else if not (is_repo_segment (before (trim_prefix full root_path) slash))
    then err not_a_repo
    else ok full

unfoldable pub sanitize_git_path_info : Bytes → Result SanitizeError Bytes
unfolding check_cleaned
sanitize_git_path_info path_info =
    if equal path_info [] || equal path_info root_path
    then err empty_path
    else if ltb max_git_path_segments (count path_info slash)
    then err too_deep
    else check_cleaned
        (clean (if has_prefix path_info root_path then path_info else slash ∷ path_info))
