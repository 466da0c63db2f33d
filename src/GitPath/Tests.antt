-- ===== src/GitPath/Tests.antt =====
-- Runs of the path checks, and instances of their theorems.
use simple_git_server.Base.{
  ◌≡◌, refl, ok, err, ◌≤◌, ◌+◌, ◌||◌, true, length, [], ltb, if◌then◌else◌,
}
use simple_git_server.Text.{Bytes, codes, equal, has_prefix, trim_prefix, before, count}
use simple_git_server.FilePath.{slash, clean, parts}
use simple_git_server.GitPath.{
  sanitize_git_path_info, too_deep, not_a_repo, empty_path, max_git_path_segments, root_path,
  has_dot_dot_segment, is_repo_segment,
}
use simple_git_server.FilePath.Clean.{cleaned}
use simple_git_server.GitPath.Sanitize.{
  IsGitPath, verdict, rooted, sanitize_verdict, sanitize-IsGitPath, verdict, rooted,
  sanitize_verdict, sanitize-length,
}

abbrev messy : Bytes
messy = codes "/a/../repo.git//./info/refs"

abbrev tidy : Bytes
tidy = codes "/repo.git/info/refs"

sanitize-messy : sanitize_git_path_info messy ≡ ok tidy
unfolding sanitize_git_path_info equal has_prefix trim_prefix before clean count has_dot_dot_segment
    is_repo_segment
sanitize-messy = refl

refused :
    (sanitize_git_path_info (codes "/") ≡ err empty_path)
    × (sanitize_git_path_info (codes "/x/..") ≡ err empty_path)
    × (sanitize_git_path_info (codes "/repo/x.git") ≡ err not_a_repo)
    × (sanitize_git_path_info (codes "/.git/config") ≡ err not_a_repo)
unfolding sanitize_git_path_info equal has_prefix trim_prefix before clean count has_dot_dot_segment
    is_repo_segment
refused = (refl, refl, refl, refl)

sanitize-IsGitPath_example : IsGitPath tidy
sanitize-IsGitPath_example = sanitize-IsGitPath messy sanitize-messy

sanitize_verdict_example : sanitize_git_path_info messy ≡ (
    if equal messy [] || equal messy root_path
    then err empty_path
    else if ltb max_git_path_segments (count messy slash)
    then err too_deep
    else verdict (cleaned (rooted messy)))
sanitize_verdict_example = sanitize_verdict messy

sanitize-length_example :
    (length (parts tidy) ≤ max_git_path_segments + 1)
    × (has_prefix messy root_path ≡ true → length (parts tidy) ≤ max_git_path_segments)
sanitize-length_example = sanitize-length messy sanitize-messy
