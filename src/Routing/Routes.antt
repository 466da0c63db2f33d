-- ===== src/Routing/Routes.antt =====
-- Where a request goes.
use simple_git_server.Base.{
  ℕ, ◌+◌, ◌≤◌, ◌≡◌, ◌≢◌, ◌↔◌, refl, sym, ap, ◌∙◌, true, false, not, ◌&&◌, [], ◌∷◌, ◌++◌, arith, leb,
  length, take, drop, length-append, length-take, append_assoc, Bool-cases, take-append, leb→le,
  leb_false→lt, inl, inr, All-append_right, ◌⊎◌, ap₂, subst,
}
use simple_git_server.Text.{
  Bytes, codes, equal, before, has_prefix, has_suffix, trim_prefix, trim_suffix,
}
use simple_git_server.Text.Laws.{
  Lacks, has_prefix-append, has_prefix_sound, has_suffix_sound, trim_prefix-append,
}
use simple_git_server.FilePath.{slash}
use simple_git_server.GitPath.{root_path, dot_git, is_repo_segment}
use simple_git_server.Config.{ServerConfig}
use simple_git_server.Config.Prefix.{IsPrefix}
use simple_git_server.Routing.{
  git, pulse, pulse_path, is_git_request, route, path_info_of, truncate_for_log,
  max_logged_path_len, truncated_mark, max_url_path_len,
}

-- A prefix is its trimmed form and a separator.
prefix_parts : (p : Bytes) → IsPrefix p → p ≡ trim_suffix p root_path ++ root_path
unfolding trim_suffix
prefix_parts p h = rw h.ends (has_suffix_sound p root_path h.ends)

git-has_prefix :
    (cfg : ServerConfig) (path : Bytes)
    → route cfg path ≡ git
    → has_prefix path cfg.http_git_repos_prefix ≡ true
unfolding route is_git_request
git-has_prefix cfg path g = ground arith

-- Under a prefix with a `/` at both ends, the path info of every git request begins with `/` and is
-- what follows the trimmed prefix in the path.
pub path_info_of-git :
    (cfg : ServerConfig) (path : Bytes)
    → IsPrefix cfg.http_git_repos_prefix
    → route cfg path ≡ git
    → (has_prefix (path_info_of cfg path) root_path ≡ true)
      × (path ≡ trim_suffix cfg.http_git_repos_prefix root_path ++ path_info_of cfg path)
unfolding path_info_of
path_info_of-git cfg path h g =
    let p = cfg.http_git_repos_prefix in
    let t = trim_suffix p root_path in
    let rest = drop (length p) path in
    let whole : path ≡ t ++ (root_path ++ rest) =
      has_prefix_sound path p (git-has_prefix cfg path g)
      ∙ ap (λ q. q ++ rest) (prefix_parts p h)
      ∙ append_assoc t root_path rest in
    let info : trim_prefix path t ≡ root_path ++ rest =
      ap (λ q. trim_prefix q t) whole ∙ trim_prefix-append t (root_path ++ rest) in
    (
      ap (λ q. has_prefix q root_path) info ∙ has_prefix-append root_path rest,
      whole ∙ ap (λ q. t ++ q) (sym info),
    )

prefix-Lacks : (s p : Bytes) → Lacks slash s → has_prefix s p ≡ true → Lacks slash p
unfolding has_prefix
prefix-Lacks s [] l h = tt
prefix-Lacks [] (y ∷ p) l h = cc
prefix-Lacks (x ∷ s) (y ∷ p) (n, l) h = (ground arith, prefix-Lacks s p l (ground arith))

tail_ends :
    (c : ℕ) (p t : Bytes) → c ∷ p ≡ t ++ root_path → (p ≡ []) ⊎ ((u : Bytes) × (p ≡ u ++ root_path))
tail_ends c p [] e = inl cc
tail_ends c p (d ∷ t) e = inr (t, cc)

-- The only such prefix that `/pulse` begins with is the root.
pulse_prefix : (p : Bytes) → IsPrefix p → has_prefix pulse_path p ≡ true → p ≡ root_path
pulse_prefix [] h k = unfold has_prefix in absurd (no h.begins)
  where
    no : false ≡ true → ⊥
    no e = cc
pulse_prefix (c ∷ p) h k = elim (tail_ends c p _ (has_suffix_sound (c ∷ p) root_path h.ends)) [
  | inl e ↦ ap₂ ◌∷◌ (first h.begins) e
  | inr (u, e) ↦ absurd (
      (All-append_right (λ x. x ≢ slash) u root_path
          (subst (Lacks slash) e (prefix-Lacks (codes "pulse") p (omega arith) (rest k)))).0
        refl)
]
  where
    first : has_prefix (c ∷ p) root_path ≡ true → c ≡ slash
    first e = unfold has_prefix in ground arith

    rest : has_prefix pulse_path (c ∷ p) ≡ true → has_prefix (codes "pulse") p ≡ true
    rest e = unfold has_prefix in ground arith

-- Whatever the prefix of the git endpoints, `/pulse` is answered as the pulse and never taken for
-- a repository or a package.
pub route-pulse :
    (cfg : ServerConfig) → IsPrefix cfg.http_git_repos_prefix → route cfg pulse_path ≡ pulse
unfolding route
route-pulse cfg h = rw (not_git cfg.http_git_repos_prefix h) (unfold equal in refl)
  where
    not_git : (p : Bytes) → IsPrefix p → is_git_request p pulse_path ≡ false
    not_git p h =
        unfold is_git_request in
        elim (Bool-cases (has_prefix pulse_path p)) [
          | inr e ↦ rw e
          | inl e ↦
              rw (pulse_prefix p h e)
                (unfold has_prefix trim_prefix before has_suffix equal in refl)
        ]

segment_test :
    (seg : Bytes) → (not (equal seg dot_git) && has_suffix seg dot_git) ≡ is_repo_segment seg
unfolding is_repo_segment
segment_test [] = refl
segment_test (c ∷ s) = ground arith

git_at_root :
    (path : Bytes) → is_git_request root_path (slash ∷ path) ≡ is_repo_segment (before path slash)
unfolding is_git_request equal
git_at_root path =
    rw (has_prefix-append root_path path, trim_prefix-append root_path path)
      (segment_test (before path slash))

-- Mounted at the root, a request goes to git exactly if its path is at most 4096 bytes long and its
-- first segment ends in `.git` and is longer than that.
pub route-git_iff :
    (cfg : ServerConfig) (path : Bytes)
    → cfg.http_git_repos_prefix ≡ root_path
    → (route cfg (slash ∷ path) ≡ git)
      ↔ ((length path + 1 ≤ max_url_path_len) × (is_repo_segment (before path slash) ≡ true))
unfolding route
route-git_iff cfg path p =
    rw (p)
      (rw (git_at_root path) (λ g. (ground arith, ground arith), λ g. ground (arith, g.0, g.1)))

-- A logged path is the path itself up to 256 bytes, and else its first 256 bytes and a mark: never
-- more than 270 bytes.
pub truncate_for_log-length :
    (s : Bytes)
    → (length (truncate_for_log s) ≤ max_logged_path_len + 14)
      × (length s ≤ max_logged_path_len → truncate_for_log s ≡ s)
      × (take max_logged_path_len (truncate_for_log s) ≡ take max_logged_path_len s)
unfolding truncate_for_log
truncate_for_log-length s = elim (Bool-cases (leb (length s) max_logged_path_len)) [
  | inl e ↦ rw e (omega (arith, leb→le (length s) max_logged_path_len e), λ _. refl, refl)
  | inr e ↦
      let more = leb_false→lt (length s) max_logged_path_len e in
      let cut : length (take max_logged_path_len s) ≡ max_logged_path_len =
        omega (arith, length-take max_logged_path_len s, more) in
      rw e (
        omega (arith, cut, length-append (take max_logged_path_len s) truncated_mark),
        λ l. absurd (omega (arith, more, l)),
        ap (λ n. take n (take max_logged_path_len s ++ truncated_mark)) (sym cut)
            ∙ take-append (take max_logged_path_len s) truncated_mark,
      )
]
