-- ===== src/FilePath/Clean.antt =====
-- What `clean` and `join_path` return: paths of plain names.
use mathlib.Core.List.{reverse-reverse, reverse-append}
use simple_git_server.Base.{
  ◌≡◌, ◌≢◌, refl, sym, ap, ◌∙◌, true, false, List, [], ◌∷◌, ◌++◌, reverse, arith, ◌==◌, All,
  All-append_left, All-append_right, All-map, append-nil, append_assoc, any,
}
use simple_git_server.Text.{Bytes, equal, split, join}
use simple_git_server.Text.Laws.{Lacks, split-Lacks, split-join, split-append}
use simple_git_server.FilePath.{
  slash, dot_dot, is_abs, push, keep, render, clean, join_path, through_slash, dir, parts,
}
use simple_git_server.FilePath.Names.{
  IsPart, MayKeep, keep-IsPart, keep-append, keep_parts, reverse-All, parts-Lacks, parts-render,
  is_abs-render,
}

-- The names that cleaning keeps.
abbrev pub cleaned : Bytes → List Bytes
cleaned p = reverse (keep (is_abs p) [] (split p slash))

pub clean-render : (p : Bytes) → is_abs p ≡ true → clean p ≡ render true (cleaned p)
unfolding clean
clean-render p h = rw h

clean_keeps :
    (p : Bytes) (k : List Bytes)
    → is_abs p ≡ true
    → keep true [] (split p slash) ≡ k
    → clean p ≡ render true (reverse k)
unfolding clean
clean_keeps p k h e = rw (h, e)

abbrev pub HasNoClimb : Bytes → Type 0
HasNoClimb p = All (λ s. s ≢ dot_dot) (split p slash)

zip_All {ℓ κ μ} :
    {A : Type ℓ} (P : A → Type κ) (Q : A → Type μ) (xs : List A)
    → All P xs
    → All Q xs
    → All (λ x. P x × Q x) xs
zip_All P Q [] h k = tt
zip_All P Q (x ∷ xs) (p, h) (q, k) = ((p, q), zip_All P Q xs h k)

-- Cleaning an absolute path, or one with no `..`, leaves plain names only.
pub cleaned-IsPart : (p : Bytes) → is_abs p ≡ true → All IsPart (cleaned p)
cleaned-IsPart p h = reverse-All IsPart (keep (is_abs p) [] (split p slash)) (
    keep-IsPart (is_abs p) [] (split p slash) tt (
      All-map (Lacks slash) (MayKeep (is_abs p)) (split p slash) (λ s l. (l, λ _. h))
        (split-Lacks p slash)))

pub cleaned_no_climb : (p : Bytes) → HasNoClimb p → All IsPart (cleaned p)
cleaned_no_climb p h = reverse-All IsPart (keep (is_abs p) [] (split p slash)) (
    keep-IsPart (is_abs p) [] (split p slash) tt (
      All-map (λ s. Lacks slash s × (s ≢ dot_dot)) (MayKeep (is_abs p)) (split p slash)
        (λ s b. (b.0, λ e. absurd (b.1 e)))
        (zip_All (Lacks slash) (λ s. s ≢ dot_dot) (split p slash) (split-Lacks p slash) h)))

-- The names of a path from the root, read back by `split`.
pub keep-render :
    (ss : List Bytes) → All IsPart ss → keep true [] (split (render true ss) slash) ≡ reverse ss
unfolding render
keep-render [] h = unfold split join keep push equal in refl
keep-render (s ∷ ss) h =
    rw (split-append [] (join (s ∷ ss) slash) slash, split-join s ss slash (parts-Lacks (s ∷ ss) h))
      (unfold split in keep_blank ∙ append-nil (reverse (s ∷ ss)))
  where
    keep_blank : keep true [] ([] ∷ s ∷ ss) ≡ reverse (s ∷ ss) ++ []
    keep_blank = unfold keep push equal in keep_parts true [] (s ∷ ss) h

-- A path of plain names from the root is clean already.
pub clean_parts : (ss : List Bytes) → All IsPart ss → clean (render true ss) ≡ render true ss
clean_parts ss h =
    clean_keeps (render true ss) (reverse ss) (is_abs-render ss) (keep-render ss h)
    ∙ ap (render true) (reverse-reverse ss)

keep_behind :
    (ss : List Bytes)
    → All IsPart ss
    → (ts : List Bytes)
    → keep true [] (split (render true ss) slash ++ ts) ≡ keep true (reverse ss) ts
keep_behind ss h ts =
    keep-append true [] (split (render true ss) slash) ts
    ∙ ap (λ k. keep true k ts) (keep-render ss h)

-- filepath.Join of a path from the root and any other path.
pub join_path_parts :
    (ss : List Bytes) (p : Bytes)
    → All IsPart ss
    → join_path (render true ss) p ≡ render true (reverse (keep true (reverse ss) (split p slash)))
unfolding join_path
join_path_parts ss p h =
    unfold render in
    clean_keeps (render true ss ++ (slash ∷ p)) (keep true (reverse ss) (split p slash)) refl
      (ap (keep true []) (split-append (render true ss) p slash) ∙ keep_behind ss h (split p slash))

-- filepath.Join of a path from the root and a path of plain names.
pub join_path_names :
    (ss : List Bytes) (p : Bytes) (qs : List Bytes)
    → All IsPart ss
    → All IsPart qs
    → split p slash ≡ qs
    → join_path (render true ss) p ≡ render true (ss ++ qs)
join_path_names ss p qs h k e =
    join_path_parts ss p h
    ∙ ap (render true) (
        rw (
          e,
          keep_parts true (reverse ss) qs k,
          reverse-append (reverse qs) (reverse ss),
          reverse-reverse ss,
          reverse-reverse qs,
        ))

Lacks-no_slash : (b : Bytes) → Lacks slash b → any (λ x. x == slash) b ≡ false
Lacks-no_slash [] h = refl
Lacks-no_slash (c ∷ b) (hc, h) = ground (arith, Lacks-no_slash b h)

any-slash : (a b : Bytes) → any (λ x. x == slash) (a ++ (slash ∷ b)) ≡ true
any-slash [] b = refl
any-slash (c ∷ a) b = ground (arith, any-slash a b)

through_slash-lacking : (b : Bytes) → Lacks slash b → through_slash b ≡ []
unfolding through_slash
through_slash-lacking [] h = refl
through_slash-lacking (c ∷ b) h = rw (Lacks-no_slash (c ∷ b) h, through_slash)

pub through_slash-append :
    (a b : Bytes) → Lacks slash b → through_slash (a ++ (slash ∷ b)) ≡ a ++ (slash ∷ [])
unfolding through_slash
through_slash-append [] b h = ap (◌∷◌ slash) (through_slash-lacking b h)
through_slash-append (c ∷ a) b h =
    rw (any-slash (c ∷ a) b, through_slash) (ap (◌∷◌ c) (through_slash-append a b h))

join-concat :
    (s : Bytes) (ss : List Bytes) (t : Bytes)
    → join ((s ∷ ss) ++ t ∷ []) slash ≡ join (s ∷ ss) slash ++ (slash ∷ t)
unfolding join
join-concat s [] t = refl
join-concat s (q ∷ ss) t =
    ap (λ k. s ++ (slash ∷ k)) (join-concat q ss t)
    ∙ sym (append_assoc s (slash ∷ join (q ∷ ss) slash) (slash ∷ t))

-- filepath.Dir takes the last name away.
pub dir-concat :
    (ss : List Bytes) (s : Bytes)
    → All IsPart (ss ++ s ∷ [])
    → dir (render true (ss ++ s ∷ [])) ≡ render true ss
unfolding dir
dir-concat [] s h =
    unfold render join in
    ap clean (through_slash-append [] s h.0.one)
    ∙ unfold clean split keep push equal is_abs render join in refl
dir-concat (q ∷ ss) s h =
    ap clean up
    ∙ clean_keeps (render true (q ∷ ss) ++ (slash ∷ [])) (reverse (q ∷ ss))
        (unfold is_abs render in refl)
        (ap (keep true []) (split-append (render true (q ∷ ss)) [] slash)
          ∙ keep_behind (q ∷ ss) (All-append_left IsPart (q ∷ ss) (s ∷ []) h) (split [] slash)
          ∙ unfold split keep push equal in refl)
    ∙ ap (render true) (reverse-reverse (q ∷ ss))
  where
    up : through_slash (render true ((q ∷ ss) ++ s ∷ [])) ≡ render true (q ∷ ss) ++ (slash ∷ [])
    up =
        unfold render in
        ap (λ k. through_slash (slash ∷ k)) (join-concat q ss s)
        ∙ through_slash-append (slash ∷ join (q ∷ ss) slash) s
            (All-append_right IsPart (q ∷ ss) (s ∷ []) h).0.one

pub render-injective :
    (ss ts : List Bytes) → All IsPart ss → All IsPart ts → render true ss ≡ render true ts → ss ≡ ts
render-injective ss ts h k e = sym (parts-render ss h) ∙ ap parts e ∙ parts-render ts k
