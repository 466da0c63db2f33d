-- ===== src/RepoPath/Existing.antt =====
-- `resolveRepoPath` with its checks on the file system.
use simple_git_server.Base.{
  ◌≡◌, refl, sym, ap, ◌∙◌, subst, true, List, ◌∷◌, ◌++◌, All, Result, ok, err, Bool-cases, inl, inr,
}
use simple_git_server.Text.{Bytes}
use simple_git_server.FilePath.{is_abs, render, rel}
use simple_git_server.FilePath.Clean.{cleaned, cleaned-IsPart}
use simple_git_server.FilePath.Names.{IsPart, is_abs-render}
use simple_git_server.FilePath.Relative.{stays}
use simple_git_server.Containment.{FsError, FileSystem, FileKind, directory, plain, contained_in}
use simple_git_server.Containment.Paths.{IsNamed, Resolves}
use simple_git_server.Containment.Verdict.{Beneath, contained-Beneath}
use simple_git_server.RepoPath.{
  RepoPathError, within_root, check_name, strip_repo, check_existing, resolve_repo_path_opts,
  resolve_repo_path,
}
use simple_git_server.RepoPath.Lexical.{
  IsRepoPath, abs_path_named, check_name-IsRepoName, join_under_names,
}

-- What is known of a path that is handed to git: it is a directory named below the root, and it
-- resolves beneath what the root resolves to.
pub record IsServable (fs : FileSystem) (root full : Bytes) : Type 0 where
  pub lexical : IsRepoPath (cleaned root) full
  pub is_directory : fs.stat full ≡ ok directory
  pub resolved_root : Bytes
  pub resolved : Bytes
  pub root_resolves : fs.eval_symlinks (render true (cleaned root)) ≡ ok resolved_root
  pub full_resolves : fs.eval_symlinks full ≡ ok resolved
  pub beneath : Beneath resolved_root resolved

within_root_inv :
    (fs : FileSystem) (root target : Bytes)
    → within_root fs root target ≡ ok tt
    → (r : Bytes) × (t : Bytes) × (fs.eval_symlinks root ≡ ok r)
      × (fs.eval_symlinks target ≡ ok t)
      × (stays (rel r t) ≡ true)
unfolding within_root
within_root_inv fs root target h = go (fs.eval_symlinks root) (fs.eval_symlinks target) refl refl
  where
    go :
        (x y : Result FsError Bytes)
        → fs.eval_symlinks root ≡ x
        → fs.eval_symlinks target ≡ y
        → (r : Bytes) × (t : Bytes) × (fs.eval_symlinks root ≡ ok r)
          × (fs.eval_symlinks target ≡ ok t)
          × (stays (rel r t) ≡ true)
    go (err e) y p q = cc (rw (p, within_root) at h)
    go (ok r) (err e) p q = cc (rw (p, q, within_root) at h)
    go (ok r) (ok t) p q = elim (Bool-cases (stays (rel r t))) [
      | inl s ↦ (r, t, p, q, s)
      | inr s ↦ cc (rw (p, q, s, within_root) at h)
    ]

check_existing_inv :
    (fs : FileSystem) (root full : Bytes) {f : Bytes}
    → check_existing fs root full ≡ ok f
    → (fs.stat full ≡ ok directory) × (within_root fs root full ≡ ok tt) × (full ≡ f)
unfolding check_existing
check_existing_inv fs root full {f} h = go (fs.stat full) (within_root fs root full) refl refl
  where
    go :
        (s : Result FsError FileKind) (w : Result RepoPathError (Unit {0}))
        → fs.stat full ≡ s
        → within_root fs root full ≡ w
        → (fs.stat full ≡ ok directory) × (within_root fs root full ≡ ok tt) × (full ≡ f)
    go (err e) w p q = cc (rw (p, check_existing) at h)
    go (ok plain) w p q = cc (rw (p, check_existing) at h)
    go (ok directory) (err e) p q = cc (rw (p, q, check_existing) at h)
    go (ok directory) (ok u) p q = (p, q, same (rw (p, q, check_existing) at h))
      where
        same : ◌≡◌ {A = Result RepoPathError Bytes} (ok full) (ok f) → full ≡ f
        same e = cc

stays-Beneath :
    (rs : List Bytes) (r t : Bytes)
    → All IsPart rs
    → r ≡ render true rs
    → IsNamed t
    → stays (rel r t) ≡ true
    → Beneath r t
stays-Beneath rs r t h e n s =
    subst (λ p. Beneath p t) (sym e)
      ((contained-Beneath rs t h n).0 (passes (ap (λ p. stays (rel p t)) (sym e) ∙ s)))
  where
    passes : stays (rel (render true rs) t) ≡ true → contained_in (render true rs) t ≡ ok tt
    passes x = unfold contained_in in rw x

servable :
    (fs : FileSystem) (sane : Resolves fs) (root full : Bytes)
    → is_abs root ≡ true
    → IsRepoPath (cleaned root) full
    → fs.stat full ≡ ok directory
    → within_root fs (render true (cleaned root)) full ≡ ok tt
    → IsServable fs root full
servable fs sane root full abs p d w =
    let (r, t, er, et, s) = within_root_inv fs (render true (cleaned root)) full w in
    let (rs, rn, re) =
      sane.named (render true (cleaned root)) r (is_abs-render (cleaned root)) er in
    let tn =
      sane.named full t (subst (λ q. is_abs q ≡ true) (sym p.full_is) (is_abs-render _)) et in
    record {
      lexical = p;
      is_directory = d;
      resolved_root = r;
      resolved = t;
      root_resolves = er;
      full_resolves = et;
      beneath = stays-Beneath rs r t rn re tn s;
    }

-- Under an absolute root, on a system that resolves symlinks to clean absolute paths, every path
-- that is handed to git lies below the root by its names, the last of which ends in `.git`; it is a
-- directory, and with all symlinks resolved it is the resolved root or lies beneath it.
pub resolve_repo_path-IsServable :
    (fs : FileSystem)
    → Resolves fs
    → (cwd : Result FsError Bytes) (root repo : Bytes) {full : Bytes} → is_abs root ≡ true
    → resolve_repo_path fs cwd root repo ≡ ok full
    → IsServable fs root full
unfolding resolve_repo_path
resolve_repo_path-IsServable fs sane cwd root repo {full} abs h =
    go (check_name (strip_repo repo)) refl
  where
    go :
        (r : Result RepoPathError Bytes)
        → check_name (strip_repo repo) ≡ r
        → IsServable fs root full
    go (err e) c = cc (rw (c, resolve_repo_path_opts) at h)
    go (ok name) c =
        let n = check_name-IsRepoName (strip_repo repo) c in
        let path = render true (cleaned root ++ (n.first ∷ n.rest)) in
        let joined = join_under_names (cleaned root) name n (cleaned-IsPart root abs) in
        let (d, w, e) =
          check_existing_inv fs (render true (cleaned root)) path
            (rw (c, abs_path_named cwd root abs, joined, resolve_repo_path_opts) at h) in
        subst (IsServable fs root) e
          (servable fs sane root path abs (record { name = name; is_name = n; full_is = refl }) d w)
