-- ===== src/GoImport/Tests.antt =====
-- A go-import page, and instances of the theorems on it.
use simple_git_server.Base.{◌≡◌, refl, ◌++◌, arith, All}
use simple_git_server.Text.{Bytes, codes, equal, before, has_prefix, has_byte, trim_prefix, split}
use simple_git_server.Text.Replace.{IsInert}
use simple_git_server.FilePath.{is_abs, rel, diverge, join_path, dir, clean, parts, base}
use simple_git_server.FilePath.Relative.{stays}
use simple_git_server.GitPath.{root_path}
use simple_git_server.Containment.{repo_within_root, walk_up, contained_in}
use simple_git_server.Containment.Disk.{disk}
use simple_git_server.Config.{ServerConfig, config_of}
use simple_git_server.Routing.Tests.{at_root}
use simple_git_server.GoImport.{
  project_from_path, valid_project_name, repo_exists, page_body, page, no_such_project,
  serve_go_import,
}
use simple_git_server.GoImport.Names.{IsProjectName}
use simple_git_server.GoImport.Page.{IsServed, serve_go_import-IsServed}
use simple_git_server.GoImport.Spelling.{page_body-IsInert}

abbrev site : ServerConfig
site = record at_root {
  git_repos_folder = codes "/srv";
  go_import_domain = codes "example.org";
  go_import_git_url = codes "https://{domain}/{repo}.git";
}

page_served : serve_go_import disk site (codes "/r/sub") ≡ page (page_body site (codes "r"))
unfolding serve_go_import repo_exists project_from_path valid_project_name repo_within_root walk_up
    contained_in stays rel diverge join_path dir clean parts trim_prefix has_prefix equal is_abs
    before has_byte base split config_of
page_served = refl

-- The link out of the root is no project, and neither are a hidden name and a name that is missing.
others_missing :
    (serve_go_import disk site (codes "/x") ≡ no_such_project)
    × (serve_go_import disk site (codes "/.git") ≡ no_such_project)
    × (serve_go_import disk site (codes "/") ≡ no_such_project)
unfolding serve_go_import repo_exists project_from_path valid_project_name repo_within_root walk_up
    contained_in stays rel diverge join_path dir clean parts trim_prefix has_prefix equal is_abs
    before has_byte base split config_of
others_missing = (refl, refl, refl)

named_r : IsProjectName (codes "r")
unfolding has_prefix
named_r = record {
  ne_nil = λ e. ground arith;
  visible = refl;
  no_slash = ground arith;
  no_backslash = ground arith;
}

serve_go_import-IsServed_example : IsServed disk site (codes "/r/sub") (page_body site (codes "r"))
serve_go_import-IsServed_example = serve_go_import-IsServed disk site (codes "/r/sub") page_served

page_body-IsInert_example :
    (meta domain name : Bytes) × All IsInert meta
    × All IsInert domain
    × All IsInert name
    × (page_body site (codes "r")
        ≡ codes "<!DOCTYPE html>\n<html>\n<head>\n<meta name=\"go-import\" content=\""
          ++ meta
          ++ codes "\">\n<title>"
          ++ domain
          ++ root_path
          ++ name
          ++ codes "</title>\n</head>\n<body>\n<code>"
          ++ meta
          ++ codes "</code>\n</body>\n</html>\n")
page_body-IsInert_example = page_body-IsInert site (codes "r")
