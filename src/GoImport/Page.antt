-- ===== src/GoImport/Page.antt =====
-- Which requests get a go-import page, and what the page says.
use simple_git_server.Base.{
  ◌≡◌, ◌≢◌, refl, ap, Bool, true, false, [], ◌∷◌, ◌++◌, arith, All-append, length, length-append,
  Option, none, some, Result, ok, err, Bool-cases, inl, inr,
}
use simple_git_server.Text.{Bytes, join, has_prefix}
use simple_git_server.Text.Laws.{equal_ne, has_suffix-append}
use simple_git_server.FilePath.{slash, join_path, is_abs, render}
use simple_git_server.FilePath.Names.{IsPart}
use simple_git_server.GitPath.{root_path, dot_git, is_repo_segment}
use simple_git_server.GitPath.Sanitize.{IsGitPath}
use simple_git_server.Containment.{
  FsError, FileSystem, FileKind, directory, plain, ContainError, repo_within_root,
}
use simple_git_server.Containment.Paths.{Resolves}
use simple_git_server.Containment.Verdict.{within_root_answers}
use simple_git_server.Config.{ServerConfig}
use simple_git_server.GoImport.{
  project_from_path, valid_project_name, is_contained, repo_exists, page_body, page, no_page,
  serve_go_import,
}
use simple_git_server.GoImport.Names.{IsProjectName, valid_project_name-IsProjectName_iff}

-- What holds of a request that gets the page `body`.
pub record IsServed (fs : FileSystem) (cfg : ServerConfig) (path body : Bytes) : Type 0 where
  pub named : IsProjectName (project_from_path path)
  pub found :
      fs.stat (join_path cfg.git_repos_folder (project_from_path path ++ dot_git)) ≡ ok directory
  pub contained :
      repo_within_root fs cfg.git_repos_folder (root_path ++ project_from_path path ++ dot_git)
      ≡ some (ok tt)
  pub body_is : body ≡ page_body cfg (project_from_path path)

is_contained-true :
    (o : Option (Result ContainError (Unit {0}))) → is_contained o ≡ some true → o ≡ some (ok tt)
is_contained-true none h = cc h
is_contained-true (some (err e)) h = ground arith
is_contained-true (some (ok u)) h = refl

repo_exists-true :
    (fs : FileSystem) (cfg : ServerConfig) (project : Bytes)
    → repo_exists fs cfg project ≡ some true
    → (fs.stat (join_path cfg.git_repos_folder (project ++ dot_git)) ≡ ok directory)
      × (repo_within_root fs cfg.git_repos_folder (root_path ++ project ++ dot_git) ≡ some (ok tt))
unfolding repo_exists
repo_exists-true fs cfg project h =
    go (fs.stat (join_path cfg.git_repos_folder (project ++ dot_git))) refl
  where
    go :
        (o : Result FsError FileKind)
        → fs.stat (join_path cfg.git_repos_folder (project ++ dot_git)) ≡ o
        → (fs.stat (join_path cfg.git_repos_folder (project ++ dot_git)) ≡ ok directory)
          × (repo_within_root fs cfg.git_repos_folder (root_path ++ project ++ dot_git)
              ≡ some (ok tt))
    go (err e) w = ground (arith, rw (w, repo_exists) at h)
    go (ok plain) w = ground (arith, rw (w, repo_exists) at h)
    go (ok directory) w = (w, is_contained-true _ (rw (w, repo_exists) at h))

-- A page is served only for a visible plain name whose repository is a directory that is contained
-- in the repositories' folder, and it is the page of that project.
pub serve_go_import-IsServed :
    (fs : FileSystem) (cfg : ServerConfig) (path : Bytes) {body : Bytes}
    → serve_go_import fs cfg path ≡ page body
    → IsServed fs cfg path body
unfolding serve_go_import
serve_go_import-IsServed fs cfg path {body} h =
    elim (Bool-cases (valid_project_name (project_from_path path))) [
      | inr e ↦ cc (rw (e, serve_go_import) at h)
      | inl e ↦ go e (repo_exists fs cfg (project_from_path path)) refl
    ]
  where
    go :
        valid_project_name (project_from_path path) ≡ true
        → (o : Option Bool) → repo_exists fs cfg (project_from_path path) ≡ o
        → IsServed fs cfg path body
    go e none w = cc (rw (e, w, serve_go_import) at h)
    go e (some false) w = cc (rw (e, w, serve_go_import) at h)
    go e (some true) w =
        let r = repo_exists-true fs cfg (project_from_path path) w in
        record {
          named = (valid_project_name-IsProjectName_iff (project_from_path path)).0 e;
          found = r.0;
          contained = r.1;
          body_is = cc (rw (e, w, serve_go_import) at h);
        }

project-IsPart : (p : Bytes) → IsProjectName p → IsPart (p ++ dot_git)
unfolding has_prefix
project-IsPart [] n = absurd (n.ne_nil refl)
project-IsPart (c ∷ p) n = record {
  ne_nil = λ e. cc e;
  ne_dot = λ e. ground (arith, n.visible);
  ne_dot_dot = λ e. ground (arith, n.visible);
  one = All-append (λ c. c ≢ slash) (c ∷ p) dot_git n.no_slash (ground arith);
}

own_suffix : (p q : Bytes) → p ++ q ≡ q → p ≡ []
own_suffix [] q e = refl
own_suffix (c ∷ p) q e = absurd (omega (arith, ap length e, length-append p q))

project_segment : (p : Bytes) → IsProjectName p → is_repo_segment (p ++ dot_git) ≡ true
unfolding is_repo_segment
project_segment p n =
    rw
      (
        equal_ne (p ++ dot_git) [] (project-IsPart p n).ne_nil,
        has_suffix-append p dot_git,
        equal_ne (p ++ dot_git) dot_git (λ e. n.ne_nil (own_suffix p dot_git e)),
      )
      refl

-- The repository of a visible plain name has a path that the git endpoints take.
pub IsProjectName-IsGitPath : (p : Bytes) → IsProjectName p → IsGitPath (root_path ++ p ++ dot_git)
unfolding render join
IsProjectName-IsGitPath p n = record {
  repo = p ++ dot_git;
  below = [];
  named = (project-IsPart p n, tt);
  path_is = refl;
  repo_is = project_segment p n;
}

repo_exists_answers :
    (fs : FileSystem) (cfg : ServerConfig) (p : Bytes)
    → Resolves fs
    → is_abs cfg.git_repos_folder ≡ true
    → IsProjectName p
    → repo_exists fs cfg p ≢ none
unfolding repo_exists
repo_exists_answers fs cfg p sane abs n h =
    go (fs.stat (join_path cfg.git_repos_folder (p ++ dot_git))) refl
      (within_root_answers fs sane cfg.git_repos_folder abs (IsProjectName-IsGitPath p n))
  where
    go :
        (o : Result FsError FileKind)
        → fs.stat (join_path cfg.git_repos_folder (p ++ dot_git)) ≡ o
        → (v : Result ContainError (Unit {0})) × (repo_within_root fs cfg.git_repos_folder
              (root_path ++ p ++ dot_git)
            ≡ some v)
        → ⊥
    go (err e) w v = ground (arith, rw (w, repo_exists) at h)
    go (ok plain) w v = ground (arith, rw (w, repo_exists) at h)
    go (ok directory) w (err e, v) = ground (arith, rw (w, v, repo_exists) at h)
    go (ok directory) w (ok u, v) = ground (arith, rw (w, v, repo_exists) at h)

-- Under an absolute folder of repositories whose symlinks the system resolves, every path is
-- answered.
pub serve_go_import_answers :
    (fs : FileSystem) (cfg : ServerConfig)
    → Resolves fs
    → is_abs cfg.git_repos_folder ≡ true
    → (path : Bytes) → serve_go_import fs cfg path ≢ no_page
unfolding serve_go_import
serve_go_import_answers fs cfg sane abs path h =
    elim (Bool-cases (valid_project_name (project_from_path path))) [
      | inr e ↦ ground (arith, rw (e, serve_go_import) at h)
      | inl e ↦ go e (repo_exists fs cfg (project_from_path path)) refl
    ]
  where
    go :
        valid_project_name (project_from_path path) ≡ true
        → (o : Option Bool) → repo_exists fs cfg (project_from_path path) ≡ o
        → ⊥
    go e none w =
        repo_exists_answers fs cfg (project_from_path path) sane abs
          ((valid_project_name-IsProjectName_iff (project_from_path path)).0 e) w
    go e (some false) w = ground (arith, rw (e, w, serve_go_import) at h)
    go e (some true) w = ground (arith, rw (e, w, serve_go_import) at h)
