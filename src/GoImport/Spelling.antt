-- ===== src/GoImport/Spelling.antt =====
-- The URL and the page of a project, as they are spelled.
use simple_git_server.Base.{◌≡◌, refl, ap, ◌∙◌, ◌++◌, arith, All}
use simple_git_server.Text.{Bytes, codes, has_prefix}
use simple_git_server.Text.Laws.{Lacks}
use simple_git_server.Text.Replace.{
  replace_from, replace_all, replace_all-append, IsInert, escape_string, escape_string-IsInert,
}
use simple_git_server.GitPath.{root_path, dot_git}
use simple_git_server.Config.{ServerConfig}
use simple_git_server.GoImport.{repo_url_for, go_import_meta, page_body}

-- The domain put into the default template.
domain_filled :
    (domain prefix : Bytes)
    → Lacks b'{' prefix
    → replace_all
        (codes "https://{domain}" ++ (prefix ++ codes "{repo}.git"))
        (codes "{domain}")
        domain
      ≡ codes "https://" ++ (domain ++ (prefix ++ codes "{repo}.git"))
unfolding replace_all replace_from has_prefix
domain_filled domain prefix p =
    ap (λ t. codes "https://" ++ (domain ++ t))
      (replace_all-append prefix (codes "{repo}.git") b'{' (codes "domain}") domain p)

repo_filled :
    (project : Bytes)
    → replace_all (codes "{repo}.git") (codes "{repo}") project ≡ project ++ dot_git
unfolding replace_all replace_from has_prefix
repo_filled project = refl

-- With the default template the URL of a project is `https://`, the domain, the prefix and the
-- project's repository, if neither the domain nor the prefix has a brace in it.
pub repo_url_for_default :
    (cfg : ServerConfig) (project : Bytes)
    → cfg.go_import_git_url
      ≡ codes "https://{domain}" ++ (cfg.http_git_repos_prefix ++ codes "{repo}.git")
    → Lacks b'{' cfg.go_import_domain
    → Lacks b'{' cfg.http_git_repos_prefix
    → repo_url_for cfg project
      ≡ codes "https://"
        ++ (cfg.go_import_domain ++ (cfg.http_git_repos_prefix ++ (project ++ dot_git)))
unfolding repo_url_for
repo_url_for_default cfg project h d p =
    let domain = cfg.go_import_domain in
    let prefix = cfg.http_git_repos_prefix in
    ap (λ t. replace_all (replace_all t (codes "{domain}") domain) (codes "{repo}") project) h
    ∙ ap (λ t. replace_all t (codes "{repo}") project) (domain_filled domain prefix p)
    ∙ replace_all-append (codes "https://") (domain ++ (prefix ++ codes "{repo}.git")) b'{'
        (codes "repo}") project (ground arith)
    ∙ ap (λ t. codes "https://" ++ t)
        (replace_all-append domain (prefix ++ codes "{repo}.git") b'{' (codes "repo}") project d)
    ∙ ap (λ t. codes "https://" ++ (domain ++ t))
        (replace_all-append prefix (codes "{repo}.git") b'{' (codes "repo}") project p)
    ∙ ap (λ t. codes "https://" ++ (domain ++ (prefix ++ t))) (repo_filled project)

-- The page is a fixed text around four texts from the configuration and the request, and none of
-- these has a byte that ends the attribute or begins a tag.
pub page_body-IsInert :
    (cfg : ServerConfig) (project : Bytes)
    → (meta domain name : Bytes) × All IsInert meta
      × All IsInert domain
      × All IsInert name
      × (page_body cfg project
          ≡ codes "<!DOCTYPE html>\n<html>\n<head>\n<meta name=\"go-import\" content=\""
            ++ meta
            ++ codes "\">\n<title>"
            ++ domain
            ++ root_path
            ++ name
            ++ codes "</title>\n</head>\n<body>\n<code>"
            ++ meta
            ++ codes "</code>\n</body>\n</html>\n")
unfolding page_body
page_body-IsInert cfg project = (
  escape_string (go_import_meta cfg project),
  escape_string cfg.go_import_domain,
  escape_string project,
  escape_string-IsInert (go_import_meta cfg project),
  escape_string-IsInert cfg.go_import_domain,
  escape_string-IsInert project,
  refl,
)
