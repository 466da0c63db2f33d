-- ===== src/RepoPath/Lexical.antt =====
-- The path that `resolveRepoPathOpts` builds: names below the root, of which the last ends in
-- `.git`.
use simple_git_server.Base.{
  ◌≡◌, ◌≢◌, ◌⊎◌, inl, inr, refl, sym, ap, ◌∙◌, subst, true, false, List, [], ◌∷◌, ◌++◌, arith, All,
  All-append, Result, ok, err, length, length-append, Bool-cases, append_assoc,
}
use simple_git_server.Text.{Bytes, equal, has_suffix, split, join}
use simple_git_server.Text.Laws.{equal_iff, has_suffix-append, split-join}
use simple_git_server.FilePath.{slash, dot, is_abs, clean, render}
use simple_git_server.FilePath.Clean.{
  cleaned, cleaned_no_climb, cleaned-IsPart, clean-render, clean_parts, join_path_names,
}
use simple_git_server.FilePath.Names.{IsPart, parts-Lacks}
use simple_git_server.FilePath.Relative.{stays-rel_iff}
use simple_git_server.GitPath.{has_dot_dot_segment, dot_git}
use simple_git_server.GitPath.Names.{has_dot_dot_segment-false}
use simple_git_server.Containment.{FsError, FileSystem}
use simple_git_server.RepoPath.{
  RepoPathError, abs_path, strip_repo, with_git, check_name, join_under, resolve_repo_path_opts,
}
use simple_git_server.RepoPath.Refusals.{Refused, check_name-Refused, Suffixed, with_git-Suffixed}

-- Names joined by separators, of which the last ends in `.git`.
pub record IsRepoName (name : Bytes) : Type 0 where
  pub first : Bytes
  pub rest : List Bytes
  pub named : All IsPart (first ∷ rest)
  pub split_is : split name slash ≡ first ∷ rest
  pub ends : has_suffix name dot_git ≡ true

-- The last of the names with a text behind it.
grow_last : List Bytes → Bytes → List Bytes
grow_last [] t = t ∷ []
grow_last (p ∷ []) t = (p ++ t) ∷ []
grow_last (p ∷ q ∷ ps) t = p ∷ grow_last (q ∷ ps) t

git-IsPart : (p : Bytes) → IsPart p → IsPart (p ++ dot_git)
git-IsPart [] h = absurd (h.ne_nil refl)
git-IsPart (c ∷ p) h = record {
  ne_nil = λ e. cc;
  ne_dot = λ e. omega (arith, ap length e, length-append p dot_git);
  ne_dot_dot = λ e. omega (arith, ap length e, length-append p dot_git);
  one = All-append (λ x. x ≢ slash) (c ∷ p) dot_git h.one (omega arith);
}

grow_last-IsPart :
    (p : Bytes) (ps : List Bytes) → All IsPart (p ∷ ps) → All IsPart (grow_last (p ∷ ps) dot_git)
unfolding grow_last
grow_last-IsPart p [] (h, _) = (git-IsPart p h, tt)
grow_last-IsPart p (q ∷ ps) (h, k) = (h, grow_last-IsPart q ps k)

join-grow_last :
    (p : Bytes) (ps : List Bytes) (t : Bytes)
    → join (grow_last (p ∷ ps) t) slash ≡ join (p ∷ ps) slash ++ t
unfolding grow_last join
join-grow_last p [] t = refl
join-grow_last p (q ∷ []) t = sym (append_assoc p (slash ∷ q) t)
join-grow_last p (q ∷ r ∷ ps) t =
    ap (λ k. p ++ (slash ∷ k)) (join-grow_last q (r ∷ ps) t)
    ∙ sym (append_assoc p (slash ∷ join (q ∷ r ∷ ps) slash) t)

grow_last-cons :
    (p : Bytes) (ps : List Bytes) (t : Bytes)
    → (q : Bytes) × (qs : List Bytes) × (grow_last (p ∷ ps) t ≡ q ∷ qs)
unfolding grow_last
grow_last-cons p [] t = (p ++ t, [], refl)
grow_last-cons p (q ∷ ps) t = (p, grow_last (q ∷ ps) t, refl)

-- Names are given the suffix if they lack it.
with_git-IsRepoName :
    (p : Bytes) (ps : List Bytes)
    → All IsPart (p ∷ ps)
    → IsRepoName (with_git (join (p ∷ ps) slash))
unfolding with_git
with_git-IsRepoName p ps h = elim (Bool-cases (has_suffix (join (p ∷ ps) slash) dot_git)) [
  | inl e ↦ rw e (record {
    first = p;
    rest = ps;
    named = h;
    split_is = split-join p ps slash (parts-Lacks (p ∷ ps) h);
    ends = e;
  })
  | inr e ↦
      let (q, qs, x) = grow_last-cons p ps dot_git in
      let k = subst (All IsPart) x (grow_last-IsPart p ps h) in
      rw e (record {
        first = q;
        rest = qs;
        named = k;
        split_is =
            ap (λ t. split t slash) (sym (join-grow_last p ps dot_git) ∙ ap (λ t. join t slash) x)
            ∙ split-join q qs slash (parts-Lacks (q ∷ qs) k);
        ends = has_suffix-append (join (p ∷ ps) slash) dot_git;
      })
]

relative_names :
    (repo : Bytes) (names : List Bytes)
    → clean repo ≡ render false names
    → equal (clean repo) dot ≡ false
    → (p : Bytes) × (ps : List Bytes) × (names ≡ p ∷ ps) × (clean repo ≡ join (p ∷ ps) slash)
unfolding render
relative_names repo [] e n = absurd (true_false (sym n ∙ (equal_iff (clean repo) dot).1 e))
  where
    true_false : false ≡ true → ⊥
    true_false h = cc
relative_names repo (p ∷ ps) e n = (p, ps, refl, e)

clean_relative : (repo : Bytes) → is_abs repo ≡ false → clean repo ≡ render false (cleaned repo)
unfolding clean
clean_relative repo h = rw h

clean_abs : (repo : Bytes) → is_abs repo ≡ true → is_abs (clean repo) ≡ true
clean_abs repo h = rw (clean-render repo h) (unfold is_abs render in refl)

checked :
    (repo : Bytes) {name : Bytes}
    → check_name repo ≡ ok name
    → (has_dot_dot_segment repo ≡ false)
      × (equal (clean repo) dot ≡ false)
      × (is_abs (clean repo) ≡ false)
      × (name ≡ with_git (clean repo))
unfolding check_name
checked repo h = (ground arith, ground arith, ground arith, ground arith)

-- A name that passes the checks is names joined by separators, the last one ending in `.git`.
pub check_name-IsRepoName :
    (repo : Bytes) {name : Bytes} → check_name repo ≡ ok name → IsRepoName name
check_name-IsRepoName repo {name} h =
    let (climbs, dotted, absolute, e) = checked repo h in
    elim (Bool-cases (is_abs repo)) [
      | inl a ↦ cc (sym (clean_abs repo a) ∙ absolute)
      | inr r ↦
          let (p, ps, names, c) =
            relative_names repo (cleaned repo) (clean_relative repo r) dotted in
          subst IsRepoName (sym (e ∙ ap with_git c)) (
            with_git-IsRepoName p ps (
              subst (All IsPart) names
                (cleaned_no_climb repo (has_dot_dot_segment-false repo climbs))))
    ]

-- The path is the root's names, and below them names of which the last ends in `.git`.
pub record IsRepoPath (root : List Bytes) (full : Bytes) : Type 0 where
  pub name : Bytes
  pub is_name : IsRepoName name
  pub full_is : full ≡ render true (root ++ (is_name.first ∷ is_name.rest))

-- The path is the root's names, and below them the names of the cleaned repository name with the
-- suffix.
pub record IsPathOf (root : List Bytes) (repo full : Bytes) : Type 0 where
  pub path : IsRepoPath root full
  pub suffixed : Suffixed (clean repo) path.name

-- Joining a checked name to an absolute root always stays below the root.
pub join_under_names :
    (rs : List Bytes) (name : Bytes) (n : IsRepoName name)
    → All IsPart rs
    → join_under (render true rs) name ≡ ok (render true (rs ++ (n.first ∷ n.rest)))
unfolding join_under
join_under_names rs name n h =
    let all = rs ++ (n.first ∷ n.rest) in
    let named = All-append IsPart rs (n.first ∷ n.rest) h n.named in
    let joined =
      ap clean (join_path_names rs name (n.first ∷ n.rest) h n.named n.split_is)
      ∙ clean_parts all named in
    rw (joined) (rw ((stays-rel_iff rs all h named).1 (n.first ∷ n.rest, refl)))

abs_path-clean :
    (cwd : Result FsError Bytes) (root : Bytes)
    → is_abs root ≡ true
    → abs_path cwd root ≡ ok (clean root)
unfolding abs_path
abs_path-clean cwd root h = rw h

pub abs_path_named :
    (cwd : Result FsError Bytes) (root : Bytes)
    → is_abs root ≡ true
    → abs_path cwd root ≡ ok (render true (cleaned root))
abs_path_named cwd root h = abs_path-clean cwd root h ∙ ap ok (clean-render root h)

-- Under an absolute root the checks that read no file either refuse a repository name, with the
-- error for the fault that it has (it is empty, climbs with `..`, stands for the root, or is
-- absolute), or give the path that lies below the cleaned root by the names of the cleaned name,
-- with `.git` behind it unless it ends in that. That the path escapes is never the answer.
pub resolve_lexical :
    (fs : FileSystem) (cwd : Result FsError Bytes) (root repo : Bytes)
    → is_abs root ≡ true
    → ((e : RepoPathError) × Refused (strip_repo repo) e
        × (resolve_repo_path_opts fs cwd root repo false ≡ err e))
      ⊎ ((full : Bytes) × IsPathOf (cleaned root) (strip_repo repo) full
          × (resolve_repo_path_opts fs cwd root repo false ≡ ok full))
unfolding resolve_repo_path_opts
resolve_lexical fs cwd root repo h = go (check_name (strip_repo repo)) refl
  where
    go :
        (r : Result RepoPathError Bytes)
        → check_name (strip_repo repo) ≡ r
        → ((e : RepoPathError) × Refused (strip_repo repo) e
            × (resolve_repo_path_opts fs cwd root repo false ≡ err e))
          ⊎ ((full : Bytes) × IsPathOf (cleaned root) (strip_repo repo) full
              × (resolve_repo_path_opts fs cwd root repo false ≡ ok full))
    go (err e) c = inl (e, check_name-Refused (strip_repo repo) c, rw c)
    go (ok name) c =
        let n = check_name-IsRepoName (strip_repo repo) c in
        let full = render true (cleaned root ++ (n.first ∷ n.rest)) in
        inr (
          full,
          record {
            path = record { name = name; is_name = n; full_is = refl };
            suffixed =
                subst (Suffixed (clean (strip_repo repo))) (sym (checked (strip_repo repo) c).3)
                  (with_git-Suffixed (clean (strip_repo repo)));
          },
          rw (
            c,
            abs_path_named cwd root h,
            join_under_names (cleaned root) name n (cleaned-IsPart root h),
          ),
        )
