-- ===== src/GitPath/Sanitize.antt =====
-- `sanitizeGitPathInfo` against its description by names.
use simple_git_server.Base.{
  ◌+◌, ◌≤◌, ◌≡◌, refl, ap, ◌∙◌, true, false, ◌||◌, List, [], ◌∷◌, arith, if◌then◌else◌, ltb, All,
  length, Result, ok, err, Bool-cases, inl, inr,
}
use simple_git_server.Text.{Bytes, equal, has_prefix, count, join}
use simple_git_server.Text.Laws.{equal_iff, equal_ne}
use simple_git_server.FilePath.{slash, dot, is_abs, render, parts}
use simple_git_server.FilePath.Clean.{
  cleaned, cleaned-IsPart, clean-render, clean_parts, render-injective,
}
use simple_git_server.FilePath.Names.{IsPart, parts-render}
use simple_git_server.GitPath.{
  SanitizeError, empty_path, too_deep, not_a_repo, root_path, is_repo_segment, check_cleaned,
  sanitize_git_path_info, max_git_path_segments,
}
use simple_git_server.GitPath.Names.{render-no_climb, before-render, length-cleaned, count-render}

-- The path with a leading separator.
abbrev pub rooted : Bytes → Bytes
rooted p = if has_prefix p root_path then p else slash ∷ p

-- What becomes of a path whose cleaned form has these names.
abbrev pub verdict : List Bytes → Result SanitizeError Bytes
verdict [] = err empty_path
verdict (s ∷ ss) = if is_repo_segment s then ok (render true (s ∷ ss)) else err not_a_repo

pub rooted-is_abs : (p : Bytes) → is_abs (rooted p) ≡ true
unfolding is_abs has_prefix
rooted-is_abs [] = refl
rooted-is_abs (c ∷ p) = ground arith

render-has_prefix : (ss : List Bytes) → has_prefix (render true ss) root_path ≡ true
unfolding render has_prefix
render-has_prefix ss = refl

render-ne-dot : (ss : List Bytes) → equal (render true ss) dot ≡ false
render-ne-dot ss = equal_ne (render true ss) dot (λ e. unfold render in ground arith)

render-root : (ss : List Bytes) → All IsPart ss → equal (render true ss) root_path ≡ true → ss ≡ []
render-root ss h e = render-injective ss [] h tt (unfold render join in (equal_iff _ _).0 e)

pub check_cleaned_names :
    (ss : List Bytes) → All IsPart ss → check_cleaned (render true ss) ≡ verdict ss
unfolding check_cleaned
check_cleaned_names [] h = unfold render join equal in refl
check_cleaned_names (s ∷ ss) h = elim (Bool-cases (equal (render true (s ∷ ss)) root_path)) [
  | inl e ↦ cc (render-root (s ∷ ss) h e)
  | inr e ↦ elim (Bool-cases (is_repo_segment s)) [
    | inl r ↦ rw (
      render-ne-dot (s ∷ ss),
      e,
      render-has_prefix (s ∷ ss),
      render-no_climb s ss h,
      before-render s ss h,
      r,
    )
    | inr r ↦ rw (
      render-ne-dot (s ∷ ss),
      e,
      render-has_prefix (s ∷ ss),
      render-no_climb s ss h,
      before-render s ss h,
      r,
    )
  ]
]

-- On every path: an empty path or the root is refused as empty, one with more than 32 separators
-- as too deep, and any other by the names that `path.Clean` leaves behind a leading separator: no
-- name is an empty path again, a first name that is no `*.git` is refused as no repository, and
-- else the result is the path over those names. So "path escape" is never the answer.
pub sanitize_verdict :
    (p : Bytes)
    → sanitize_git_path_info p ≡ (
        if equal p [] || equal p root_path
        then err empty_path
        else if ltb max_git_path_segments (count p slash)
        then err too_deep
        else verdict (cleaned (rooted p)))
unfolding sanitize_git_path_info
sanitize_verdict p = rw (
  clean-render (rooted p) (rooted-is_abs p),
  check_cleaned_names (cleaned (rooted p)) (cleaned-IsPart (rooted p) (rooted-is_abs p)),
)

-- What is known of a path that passes.
pub record IsGitPath (q : Bytes) : Type 0 where
  pub repo : Bytes
  pub below : List Bytes
  pub named : All IsPart (repo ∷ below)
  pub path_is : q ≡ render true (repo ∷ below)
  pub repo_is : is_repo_segment repo ≡ true

verdict_sound :
    (ss : List Bytes) {q : Bytes}
    → All IsPart ss
    → verdict ss ≡ ok q
    → IsGitPath q × (q ≡ render true ss)
verdict_sound [] h e = cc
verdict_sound (s ∷ ss) {q} h e = elim (Bool-cases (is_repo_segment s)) [
  | inl r ↦
      let p : q ≡ render true (s ∷ ss) = ground arith in
      (record { repo = s; below = ss; named = h; path_is = p; repo_is = r }, p)
  | inr r ↦ cc (rw r at e)
]

passes :
    (p : Bytes) {q : Bytes}
    → sanitize_git_path_info p ≡ ok q
    → (verdict (cleaned (rooted p)) ≡ ok q) × (count p slash ≤ max_git_path_segments)
passes p h = (ground (arith, sanitize_verdict p), ground (arith, sanitize_verdict p))

-- A path that passes is the path from the root over plain names (none is empty, `.` or `..`), of
-- which the first ends in `.git` and is longer than that.
pub sanitize-IsGitPath : (p : Bytes) {q : Bytes} → sanitize_git_path_info p ≡ ok q → IsGitPath q
sanitize-IsGitPath p h =
    (verdict_sound (cleaned (rooted p)) (cleaned-IsPart (rooted p) (rooted-is_abs p))
      (passes p h).0).0

count-rooted : (p : Bytes) → count (rooted p) slash ≤ count p slash + 1
unfolding count
count-rooted p = ground arith

-- A path that passes has at most 33 names, and at most 32 if it had a leading separator.
pub sanitize-length :
    (p : Bytes) {q : Bytes}
    → sanitize_git_path_info p ≡ ok q
    → (length (parts q) ≤ max_git_path_segments + 1)
      × (has_prefix p root_path ≡ true → length (parts q) ≤ max_git_path_segments)
sanitize-length p {q} h =
    let named = cleaned-IsPart (rooted p) (rooted-is_abs p) in
    let same = (verdict_sound (cleaned (rooted p)) named (passes p h).0).1 in
    let counted = ap length (ap parts same ∙ parts-render (cleaned (rooted p)) named) in
    (
      omega (
        arith,
        counted,
        length-cleaned (rooted p) (rooted-is_abs p),
        count-rooted p,
        (passes p h).1,
      ),
      λ l. omega (
        arith,
        counted,
        length-cleaned (rooted p) (rooted-is_abs p),
        ap (λ b. count (if b then p else slash ∷ p) slash) l,
        (passes p h).1,
      ),
    )

git_path_again :
    (s : Bytes) (ss : List Bytes)
    → All IsPart (s ∷ ss)
    → is_repo_segment s ≡ true
    → length (s ∷ ss) ≤ max_git_path_segments
    → sanitize_git_path_info (render true (s ∷ ss)) ≡ ok (render true (s ∷ ss))
unfolding sanitize_git_path_info
git_path_again s ss h r l = elim (Bool-cases (equal (render true (s ∷ ss)) root_path)) [
  | inl e ↦ cc (render-root (s ∷ ss) h e)
  | inr e ↦
      rw
        (
          e,
          equal_ne (render true (s ∷ ss)) [] (λ x. unfold render in ground arith),
          count-render s ss h,
          render-has_prefix (s ∷ ss),
          clean_parts (s ∷ ss) h,
          check_cleaned_names (s ∷ ss) h,
          r,
        )
        (ground arith)
]

-- Sanitizing the result of a path that began with a separator changes nothing.
pub sanitize-sanitize :
    (p : Bytes) {q : Bytes}
    → has_prefix p root_path ≡ true
    → sanitize_git_path_info p ≡ ok q
    → sanitize_git_path_info q ≡ ok q
sanitize-sanitize p {q} l h =
    let g = sanitize-IsGitPath p h in
    rw (g.path_is) (
      git_path_again g.repo g.below g.named g.repo_is (
        omega (
          arith,
          (sanitize-length p h).1 l,
          ap length (ap parts g.path_is ∙ parts-render (g.repo ∷ g.below) g.named),
        )))
