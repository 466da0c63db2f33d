-- ===== src/GoImport.antt =====
-- The go-import pages of goimport.go. `os.Stat` and `filepath.EvalSymlinks` are parameters.
pub mod Names
pub mod Spelling
pub mod Page
pub mod Tests
use simple_git_server.Base.{
  Bool, true, false, not, ◌&&◌, ◌||◌, [], ◌∷◌, ◌++◌, if◌then◌else◌, Option, none, some, Result, ok,
  err,
}
use simple_git_server.Text.{Bytes, codes, equal, trim_prefix, before, has_prefix, has_byte}
use simple_git_server.Text.Replace.{replace_all, escape_string}
use simple_git_server.FilePath.{slash, dot, base, join_path}
use simple_git_server.GitPath.{root_path, dot_git}
use simple_git_server.Containment.{
  FsError, FileSystem, FileKind, directory, plain, ContainError, repo_within_root,
}
use simple_git_server.Config.{ServerConfig}

-- The first part of the path.
unfoldable pub project_from_path : Bytes → Bytes
project_from_path path =
    let rest = trim_prefix path root_path in if equal rest [] then [] else before rest slash

unfoldable pub repo_url_for : ServerConfig → Bytes → Bytes
repo_url_for cfg project =
    replace_all (replace_all cfg.go_import_git_url (codes "{domain}") cfg.go_import_domain)
      (codes "{repo}") project

unfoldable pub go_import_meta : ServerConfig → Bytes → Bytes
go_import_meta cfg project =
    (cfg.go_import_domain ++ root_path ++ project) ++ codes " git " ++ repo_url_for cfg project

unfoldable pub valid_project_name : Bytes → Bool
valid_project_name p =
    if equal p [] || has_prefix p dot
    then false
    else not (has_byte p slash || has_byte p b'\\') && equal p (base p)

abbrev is_contained : Option (Result ContainError (Unit {0})) → Option Bool
is_contained none = none
is_contained (some (err e)) = some false
is_contained (some (ok _)) = some true

unfoldable pub page_body : ServerConfig → Bytes → Bytes
page_body cfg project =
    let meta = escape_string (go_import_meta cfg project) in
    codes "<!DOCTYPE html>\n<html>\n<head>\n<meta name=\"go-import\" content=\""
    ++ meta
    ++ codes "\">\n<title>"
    ++ escape_string cfg.go_import_domain
    ++ root_path
    ++ escape_string project
    ++ codes "</title>\n</head>\n<body>\n<code>"
    ++ meta
    ++ codes "</code>\n</body>\n</html>\n"

-- What the handler does: a 404, or a page; `no_page` means that the fuel of the containment check
-- ran out.
pub data GoImport : Type 0 where
  no_such_project no_page : GoImport
  page : Bytes → GoImport

module _ (fs : FileSystem) where
  unfoldable pub repo_exists : ServerConfig → Bytes → Option Bool
  repo_exists cfg project = elim (fs.stat (join_path cfg.git_repos_folder (project ++ dot_git))) [
    | err e ↦ some false
    | ok plain ↦ some false
    | ok directory ↦
        is_contained (repo_within_root fs cfg.git_repos_folder (root_path ++ project ++ dot_git))
  ]

  unfoldable pub serve_go_import : ServerConfig → Bytes → GoImport
  serve_go_import cfg path =
      let project = project_from_path path in
      let exists = repo_exists cfg project in
      if not (valid_project_name project) then no_such_project else elim exists [
        | none ↦ no_page
        | some false ↦ no_such_project
        | some true ↦ page (page_body cfg project)
      ]
