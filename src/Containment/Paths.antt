-- ===== src/Containment/Paths.antt =====
-- Paths from the root over plain names, and what the code relies on in `filepath.EvalSymlinks`.
use simple_git_server.Base.{
  ◌≤◌, ◌≡◌, ◌≢◌, ap, true, List, [], ◌∷◌, ◌++◌, arith, length, All, ok, length-append,
}
use simple_git_server.Text.{Bytes, join}
use simple_git_server.FilePath.{slash, is_abs, render}
use simple_git_server.FilePath.Names.{IsPart}
use simple_git_server.Containment.{FileSystem}

-- A path from the root over plain names.
abbrev pub IsNamed : Bytes → Type 0
IsNamed p = (ts : List Bytes) × All IsPart ts × (p ≡ render true ts)

-- What the code relies on in `filepath.EvalSymlinks`: an absolute path resolves to a clean absolute
-- path, and a resolved path to itself.
pub record Resolves (fs : FileSystem) : Type 0 where
  pub named : (p q : Bytes) → is_abs p ≡ true → fs.eval_symlinks p ≡ ok q → IsNamed q
  pub again : (p q : Bytes) → fs.eval_symlinks p ≡ ok q → fs.eval_symlinks q ≡ ok q

-- The names end in a last one, if there are any.
pub data Snoc : List Bytes → Type 0 where
  none_left : Snoc []
  last : (ps : List Bytes) (s : Bytes) → Snoc (ps ++ s ∷ [])

pub snoc : (qs : List Bytes) → Snoc qs
snoc [] = none_left
snoc (q ∷ qs) = go (snoc qs)
  where
    go : {qs : List Bytes} → Snoc qs → Snoc (q ∷ qs)
    go none_left = last [] q
    go (last ps s) = last (q ∷ ps) s

length-join-append :
    (s : Bytes) (ss ts : List Bytes)
    → length (join (s ∷ ss) slash) ≤ length (join ((s ∷ ss) ++ ts) slash)
unfolding join
length-join-append s [] [] = omega arith
length-join-append s [] (t ∷ ts) = omega (arith, length-append s (slash ∷ join (t ∷ ts) slash))
length-join-append s (q ∷ ss) ts = omega (
  arith,
  length-append s (slash ∷ join (q ∷ ss) slash),
  length-append s (slash ∷ join ((q ∷ ss) ++ ts) slash),
  length-join-append q ss ts,
)

pub length-render-append :
    (ss ts : List Bytes) → length (render true ss) ≤ length (render true (ss ++ ts))
unfolding render
length-render-append [] ts = unfold join in omega arith
length-render-append (s ∷ ss) ts = omega (arith, length-join-append s ss ts)

pub length-names : (ss : List Bytes) → length ss ≤ length (render true ss)
unfolding render join
length-names [] = omega arith
length-names (s ∷ []) = omega arith
length-names (s ∷ q ∷ ss) =
    omega (arith, length-append s (slash ∷ join (q ∷ ss) slash), length-names (q ∷ ss))

pub concat-ne : (ss : List Bytes) (s : Bytes) → ss ≢ ss ++ s ∷ []
concat-ne ss s e = omega (arith, ap length e, length-append ss (s ∷ []))
