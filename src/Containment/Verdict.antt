-- ===== src/Containment/Verdict.antt =====
-- `repoWithinRoot` on a sanitized path: it always answers, and for a path that exists it passes
-- exactly if the path resolves beneath the resolved root.
use simple_git_server.Base.{
  suc, true, false, ◌⊎◌, ◌≡◌, ◌↔◌, refl, sym, ap, ◌∙◌, subst, List, [], ◌∷◌, ◌++◌, arith, length,
  All, All-append, All-append_right, some, Result, ok, err, Bool-cases, inl, inr, length-append,
}
use simple_git_server.Text.{Bytes, equal, trim_prefix}
use simple_git_server.FilePath.{slash, is_abs, render, join_path}
use simple_git_server.FilePath.Clean.{render-injective}
use simple_git_server.FilePath.Names.{IsPart, is_abs-render}
use simple_git_server.Containment.{
  FsError, empty_repo_segment, root_unresolved, FileSystem, ContainError, contained_in,
  repo_within_root,
}
use simple_git_server.Containment.Walk.{
  Walks, found, broken, up, walk_up-Walks, contained_in_iff, probe_of, within_root_starts,
}
use simple_git_server.Containment.Paths.{IsNamed, Resolves, length-names}
use simple_git_server.GitPath.Sanitize.{IsGitPath}

-- The target is the root or lies beneath it, both as paths from `/` over plain names.
pub record Beneath (root target : Bytes) : Type 0 where
  pub names : List Bytes
  pub below : List Bytes
  pub named : All IsPart names
  pub below_named : All IsPart below
  pub root_is : root ≡ render true names
  pub target_is : target ≡ render true (names ++ below)

-- A walk whose first probe resolves has that answer.
walks_found :
    (fs : FileSystem) (root qs : List Bytes) {v : Result ContainError (Unit {0})} {t : Bytes}
    → fs.eval_symlinks (render true (root ++ qs)) ≡ ok t
    → Walks fs root qs v
    → v ≡ contained_in (render true root) t
walks_found fs root qs e (found q e' h) =
    h ∙ ap (contained_in (render true root)) (same (sym e' ∙ e))
  where
    same : {a b : Bytes} → ◌≡◌ {A = Result FsError Bytes} (ok a) (ok b) → a ≡ b
    same h = cc
walks_found fs root qs e (broken e' h) = cc (sym e' ∙ e)
walks_found fs root qs e (up ps s _ e' w) = cc (sym e' ∙ e)

pub contained-Beneath :
    (rs : List Bytes) (t : Bytes)
    → All IsPart rs
    → IsNamed t
    → (contained_in (render true rs) t ≡ ok tt) ↔ Beneath (render true rs) t
contained-Beneath rs t h (ts, k, e) = (there, back)
  where
    there : contained_in (render true rs) t ≡ ok tt → Beneath (render true rs) t
    there c =
        let (rest, x) =
          (contained_in_iff rs ts h k).0 (ap (contained_in (render true rs)) (sym e) ∙ c) in
        record {
          names = rs;
          below = rest;
          named = h;
          below_named = All-append_right IsPart rs rest (subst (All IsPart) x k);
          root_is = refl;
          target_is = e ∙ ap (render true) x;
        }

    back : Beneath (render true rs) t → contained_in (render true rs) t ≡ ok tt
    back b =
        let same = render-injective rs b.names h b.named b.root_is in
        let all_named = All-append IsPart b.names b.below b.named b.below_named in
        let x = render-injective ts (b.names ++ b.below) k all_named (sym e ∙ b.target_is) in
        ap (contained_in (render true rs)) e
        ∙ (contained_in_iff rs ts h k).1 (b.below, x ∙ ap (λ n. n ++ b.below) (sym same))

some_ok : (v : Result ContainError (Unit {0})) → some v ≡ some (ok tt) → v ≡ ok tt
some_ok v h = cc

module _ (fs : FileSystem) (sane : Resolves fs) (root : Bytes) (abs : is_abs root ≡ true) where
  -- For every sanitized path, under an absolute root that resolves, on a system that resolves
  -- symlinks to clean absolute paths, the check gives an answer (its loop ends), and the answer is
  -- that of the first among the path and its parents that exists or cannot be read: whether what it
  -- resolves to is contained in the resolved root, or unreadable.
  pub within_root-Walks :
      {resolved q : Bytes} (g : IsGitPath q)
      → fs.eval_symlinks root ≡ ok resolved
      → (rs : List Bytes) × (v : Result ContainError (Unit {0})) × All IsPart rs
        × (resolved ≡ render true rs)
        × (repo_within_root fs root q ≡ some v)
        × Walks fs rs (g.repo ∷ g.below) v
  within_root-Walks {resolved} {q} g e =
      let (rs, named, r) = sane.named root resolved abs e in
      let e' = e ∙ ap ok r in
      let qs = g.repo ∷ g.below in
      let (v, w, d) =
        walk_up-Walks fs rs (suc (length (render true (rs ++ qs)))) qs
          (sane.again root (render true rs) e') (All-append IsPart rs qs named g.named)
          (omega (arith, length-names (rs ++ qs), length-append rs qs)) in
      (rs, v, named, r, within_root_starts fs root rs named g e' ∙ w, d)

  -- Under an absolute root that resolves, on a system that resolves symlinks to clean absolute
  -- paths, a sanitized path that exists passes exactly if it resolves to the resolved root or
  -- beneath it: so no symlink at any depth of a served path leads out of the root.
  pub within_root-Beneath :
      {resolved q target : Bytes}
      → IsGitPath q
      → fs.eval_symlinks root ≡ ok resolved
      → fs.eval_symlinks (join_path resolved (trim_prefix q (slash ∷ []))) ≡ ok target
      → (repo_within_root fs root q ≡ some (ok tt)) ↔ Beneath resolved target
  within_root-Beneath {resolved} {q} {target} g e t =
      let (rs, v, named, r, w, d) = within_root-Walks g e in
      let qs = g.repo ∷ g.below in
      let probe =
        ap (λ p. join_path p (trim_prefix q (slash ∷ []))) r ∙ probe_of fs root rs named g in
      let t' = ap fs.eval_symlinks (sym probe) ∙ t in
      let answer = walks_found fs rs qs t' d in
      let c =
        contained-Beneath rs target named
          (sane.named (render true (rs ++ qs)) target (is_abs-render (rs ++ qs)) t') in
      (
        λ h. subst (λ p. Beneath p target) (sym r) (c.0 (sym answer ∙ some_ok v (sym w ∙ h))),
        λ b. w ∙ ap some (answer ∙ c.1 (subst (λ p. Beneath p target) r b)),
      )

  -- The check always answers on a sanitized path, also under a root that does not resolve.
  pub within_root_answers :
      {q : Bytes}
      → IsGitPath q
      → (v : Result ContainError (Unit {0})) × (repo_within_root fs root q ≡ some v)
  unfolding repo_within_root
  within_root_answers {q} g = go (fs.eval_symlinks root) refl
    where
      go :
          (o : Result FsError Bytes)
          → fs.eval_symlinks root ≡ o
          → (v : Result ContainError (Unit {0})) × (repo_within_root fs root q ≡ some v)
      go (ok resolved) e = let (rs, v, n, r, w, d) = within_root-Walks g e in (v, w)
      go (err x) e = unresolved e (Bool-cases (equal (trim_prefix q (slash ∷ [])) []))
        where
          unresolved :
              fs.eval_symlinks root ≡ err x
              → (equal (trim_prefix q (slash ∷ [])) [] ≡ true)
                ⊎ (equal (trim_prefix q (slash ∷ [])) [] ≡ false)
              → (v : Result ContainError (Unit {0})) × (repo_within_root fs root q ≡ some v)
          unresolved e (inl b) = (err empty_repo_segment, rw (b, repo_within_root))
          unresolved e (inr b) = (err root_unresolved, rw (b, e, repo_within_root))
