-- ===== src/Containment/Walk.antt =====
-- The walk of `repoWithinRoot` from the requested path towards the root: it ends, and its answer is
-- that of the first path on the way that the operating system does not call missing.
use simple_git_server.Base.{
  ℕ, zero, suc, ◌<◌, ◌≡◌, ◌≢◌, ◌↔◌, refl, sym, ap, ◌∙◌, subst, true, false, ◌||◌, List, [], ◌∷◌,
  ◌++◌, arith, ltb, length, All, All-append_left, some, Result, ok, err, length-append, append-nil,
  append_assoc, le→ltb, inl, inr, ◌⊎◌, Bool-cases,
}
use simple_git_server.Text.{Bytes, equal, join, trim_prefix}
use simple_git_server.Text.Laws.{equal_ne, split-join, trim_prefix-append}
use simple_git_server.FilePath.{slash, render, dir, rel, join_path}
use simple_git_server.FilePath.Clean.{dir-concat, render-injective, join_path_names}
use simple_git_server.FilePath.Names.{IsPart, parts-Lacks}
use simple_git_server.FilePath.Relative.{stays, Extends, stays-rel_iff}
use simple_git_server.Containment.{
  FsError, not_exist, other, FileSystem, ContainError, path_unresolved, contained_in, walk_up,
  repo_within_root,
}
use simple_git_server.GitPath.Sanitize.{IsGitPath}
use simple_git_server.Containment.Paths.{
  Snoc, snoc, length-render-append, concat-ne, none_left, last,
}

module _ (fs : FileSystem) (root : List Bytes) where
  -- The answer for the names below the root, read off the operating system's answers: that for the
  -- path itself if it exists or cannot be read, and else that for the names without the last.
  pub data Walks : List Bytes → Result ContainError (Unit {0}) → Type 0 where
    found :
        {qs : List Bytes} {v : Result ContainError (Unit {0})} (q : Bytes)
        → fs.eval_symlinks (render true (root ++ qs)) ≡ ok q
        → v ≡ contained_in (render true root) q
        → Walks qs v
    broken :
        {qs : List Bytes} {v : Result ContainError (Unit {0})}
        → fs.eval_symlinks (render true (root ++ qs)) ≡ err other
        → v ≡ err path_unresolved
        → Walks qs v
    up :
        {qs : List Bytes} {v : Result ContainError (Unit {0})} (ps : List Bytes) (s : Bytes)
        → qs ≡ ps ++ s ∷ []
        → fs.eval_symlinks (render true (root ++ qs)) ≡ err not_exist
        → Walks ps v
        → Walks qs v

  abbrev Decided : ℕ → List Bytes → Type 0
  Decided fuel qs =
      (v : Result ContainError (Unit {0})) × (walk_up fs fuel (render true root)
          (render true (root ++ qs))
        ≡ some v)
      × Walks qs v

  -- Above the root's own path the walk goes up by one name.
  parent_of :
      (ps : List Bytes) (s : Bytes)
      → All IsPart (root ++ (ps ++ s ∷ []))
      → dir (render true (root ++ (ps ++ s ∷ []))) ≡ render true (root ++ ps)
  parent_of ps s h =
      ap (λ k. dir (render true k)) (sym (append_assoc root ps (s ∷ [])))
      ∙ dir-concat (root ++ ps) s (subst (All IsPart) (sym (append_assoc root ps (s ∷ []))) h)

  goes_on :
      (ps : List Bytes) (s : Bytes)
      → All IsPart (root ++ (ps ++ s ∷ []))
      → (equal (render true (root ++ ps)) (render true (root ++ (ps ++ s ∷ [])))
          || ltb (length (render true (root ++ ps))) (length (render true root)))
        ≡ false
  goes_on ps s h =
      let h' = subst (All IsPart) (sym (append_assoc root ps (s ∷ []))) h in
      let apart = λ (e : render true (root ++ ps) ≡ render true (root ++ (ps ++ s ∷ []))).
        concat-ne (root ++ ps) s (
          render-injective (root ++ ps) (root ++ (ps ++ s ∷ []))
            (All-append_left IsPart (root ++ ps) (s ∷ []) h') h e
          ∙ sym (append_assoc root ps (s ∷ []))) in
      rw (equal_ne _ _ apart) (le→ltb _ _ (length-render-append root ps))

  step_up :
      (fuel : ℕ) (ps : List Bytes) (s : Bytes)
      → All IsPart (root ++ (ps ++ s ∷ []))
      → fs.eval_symlinks (render true (root ++ (ps ++ s ∷ []))) ≡ err not_exist
      → walk_up fs (suc fuel) (render true root) (render true (root ++ (ps ++ s ∷ [])))
        ≡ walk_up fs fuel (render true root) (render true (root ++ ps))
  unfolding walk_up
  step_up fuel ps s h e = rw (e, walk_up) (rw (parent_of ps s h) (rw (goes_on ps s h)))

  at_once :
      (fuel : ℕ) (qs : List Bytes)
      → ((q : Bytes) × (fs.eval_symlinks (render true (root ++ qs)) ≡ ok q))
        ⊎ (fs.eval_symlinks (render true (root ++ qs)) ≡ err other)
      → Decided (suc fuel) qs
  unfolding walk_up
  at_once fuel qs (inl (q, e)) =
      (contained_in (render true root) q, rw (e, walk_up), found q e refl)
  at_once fuel qs (inr e) = (err path_unresolved, rw (e, walk_up), broken e refl)

  next_up :
      (fuel : ℕ) (ps : List Bytes) (s : Bytes)
      → All IsPart (root ++ (ps ++ s ∷ []))
      → fs.eval_symlinks (render true (root ++ (ps ++ s ∷ []))) ≡ err not_exist
      → Decided fuel ps
      → Decided (suc fuel) (ps ++ s ∷ [])
  next_up fuel ps s h e (v, w, d) = (v, step_up fuel ps s h e ∙ w, up ps s refl e d)

  advance :
      (fuel : ℕ)
      → fs.eval_symlinks (render true root) ≡ ok (render true root)
      → ((ps : List Bytes) → All IsPart (root ++ ps) → length ps < fuel → Decided fuel ps)
      → {qs : List Bytes} → Snoc qs
      → All IsPart (root ++ qs)
      → length qs < suc fuel
      → (r : Result FsError Bytes) → fs.eval_symlinks (render true (root ++ qs)) ≡ r
      → Decided (suc fuel) qs
  advance fuel self ih {qs} sn h lt (ok q) e = at_once fuel qs (inl (q, e))
  advance fuel self ih {qs} sn h lt (err other) e = at_once fuel qs (inr e)
  advance fuel self ih none_left h lt (err not_exist) e =
      cc (ap (λ k. fs.eval_symlinks (render true k)) (append-nil root) ∙ self)
  advance fuel self ih (last ps s) h lt (err not_exist) e = next_up fuel ps s h e (
      ih ps
        (All-append_left IsPart (root ++ ps) (s ∷ [])
          (subst (All IsPart) (sym (append_assoc root ps (s ∷ []))) h))
        (omega (arith, length-append ps (s ∷ []))))

  -- With more fuel than names below the root the walk gives an answer, the one described above.
  pub walk_up-Walks :
      (fuel : ℕ) (qs : List Bytes)
      → fs.eval_symlinks (render true root) ≡ ok (render true root)
      → All IsPart (root ++ qs)
      → length qs < fuel
      → Decided fuel qs
  walk_up-Walks zero qs self h lt = absurd (omega arith)
  walk_up-Walks (suc fuel) qs self h lt =
      advance fuel self (λ ps k l. walk_up-Walks fuel ps self k l) (snoc qs) h lt
        (fs.eval_symlinks (render true (root ++ qs))) refl

pub contained_in_iff :
    (root ts : List Bytes)
    → All IsPart root
    → All IsPart ts
    → (contained_in (render true root) (render true ts) ≡ ok tt) ↔ Extends root ts
unfolding contained_in
contained_in_iff root ts h k = elim (Bool-cases (stays (rel (render true root) (render true ts)))) [
  | inl e ↦ rw e (λ _. (stays-rel_iff root ts h k).0 e, λ _. refl)
  | inr e ↦ rw e (λ x. cc, λ x. cc ((stays-rel_iff root ts h k).1 x))
]

trim_git_path :
    (s : Bytes) (ss : List Bytes)
    → trim_prefix (render true (s ∷ ss)) (slash ∷ []) ≡ join (s ∷ ss) slash
unfolding render
trim_git_path s ss = trim_prefix-append (slash ∷ []) (join (s ∷ ss) slash)

join-ne-nil : (s : Bytes) (ss : List Bytes) → All IsPart (s ∷ ss) → join (s ∷ ss) slash ≢ []
unfolding join
join-ne-nil [] ss h e = absurd (h.0.ne_nil refl)
join-ne-nil (c ∷ s) [] h e = cc
join-ne-nil (c ∷ s) (q ∷ ss) h e = cc

module _ (fs : FileSystem) (root : Bytes) (rs : List Bytes) (named : All IsPart rs) where
  -- For a sanitized path the check probes the root's names followed by the path's.
  pub probe_of :
      {q : Bytes} (g : IsGitPath q)
      → join_path (render true rs) (trim_prefix q (slash ∷ []))
        ≡ render true (rs ++ (g.repo ∷ g.below))
  probe_of g =
      ap (λ p. join_path (render true rs) (trim_prefix p (slash ∷ []))) g.path_is
      ∙ ap (join_path (render true rs)) (trim_git_path g.repo g.below)
      ∙ join_path_names rs (join (g.repo ∷ g.below) slash) (g.repo ∷ g.below) named g.named
          (split-join g.repo g.below slash (parts-Lacks (g.repo ∷ g.below) g.named))

  pub within_root_starts :
      {q : Bytes} (g : IsGitPath q)
      → fs.eval_symlinks root ≡ ok (render true rs)
      → repo_within_root fs root q
        ≡ walk_up fs
            (suc (length (render true (rs ++ (g.repo ∷ g.below)))))
            (render true rs)
            (render true (rs ++ (g.repo ∷ g.below)))
  unfolding repo_within_root
  within_root_starts {q} g e =
      let rest : trim_prefix q (slash ∷ []) ≡ join (g.repo ∷ g.below) slash =
        ap (λ p. trim_prefix p (slash ∷ [])) g.path_is ∙ trim_git_path g.repo g.below in
      let kept = λ (x : trim_prefix q (slash ∷ []) ≡ []).
        join-ne-nil g.repo g.below g.named (sym rest ∙ x) in
      rw (equal_ne (trim_prefix q (slash ∷ [])) [] kept, e, probe_of g)
