-- ===== src/FilePath.antt =====
-- The functions of Go's `path` and `path/filepath` that the server calls, on a system whose
-- separator is `/`. A path is read as its parts between the separators.
pub mod Names
pub mod Clean
pub mod Relative
use simple_git_server.Base.{
  ℕ, Bool, true, false, not, ◌&&◌, ◌||◌, List, [], ◌∷◌, ◌++◌, map, reverse, Option, none, some,
  ◌==◌, if◌then◌else◌, any,
}
use simple_git_server.Text.{Bytes, equal, has_prefix, split, join}

abbrev pub slash : ℕ
slash = b'/'

abbrev pub dot : Bytes
dot = b'.' ∷ []

abbrev pub dot_dot : Bytes
dot_dot = b'.' ∷ b'.' ∷ []

-- filepath.IsAbs: the path begins with a separator.
unfoldable pub is_abs : Bytes → Bool
is_abs [] = false
is_abs (c ∷ s) = c == slash

-- What `..` does to the parts that are kept, the last of them first: it takes one away, is lost at
-- the root, and is kept itself at the start of a relative path.
unfoldable pub pop : Bool → List Bytes → List Bytes
unfolding equal
pop rooted [] = if rooted then [] else dot_dot ∷ []
pop rooted (t ∷ out) = if equal t dot_dot then dot_dot ∷ t ∷ out else out

-- Keeps one more part.
unfoldable pub push : Bool → Bytes → List Bytes → List Bytes
unfolding equal pop
push rooted s out =
    if equal s [] || equal s dot then out else if equal s dot_dot then pop rooted out else s ∷ out

unfoldable pub keep : Bool → List Bytes → List Bytes → List Bytes
unfolding push
keep rooted out [] = out
keep rooted out (s ∷ ss) = keep rooted (push rooted s out) ss

-- The path with these parts.
unfoldable pub render : Bool → List Bytes → Bytes
unfolding join
render true parts = slash ∷ join parts slash
render false [] = dot
render false (p ∷ ps) = join (p ∷ ps) slash

-- path.Clean and filepath.Clean
unfoldable pub clean : Bytes → Bytes
unfolding is_abs keep render split
clean p = render (is_abs p) (reverse (keep (is_abs p) [] (split p slash)))

-- filepath.Join of two elements: empty ones are left out.
unfoldable pub join_path : Bytes → Bytes → Bytes
unfolding clean
join_path [] [] = []
join_path [] (c ∷ b) = clean (c ∷ b)
join_path (c ∷ a) b = clean ((c ∷ a) ++ (slash ∷ b))

-- The path up to its last separator, the separator with it.
unfoldable pub through_slash : Bytes → Bytes
through_slash [] = []
through_slash (c ∷ s) = elim (any (λ x. x == slash) (c ∷ s)) [
  | true ↦ c ∷ through_slash s
  | false ↦ []
]

-- filepath.Dir
unfoldable pub dir : Bytes → Bytes
unfolding clean through_slash
dir p = clean (through_slash p)

unfoldable pub nonempty : List Bytes → List Bytes
nonempty [] = []
nonempty ([] ∷ ss) = nonempty ss
nonempty ((c ∷ s) ∷ ss) = (c ∷ s) ∷ nonempty ss

-- The parts of a cleaned path.
unfoldable pub parts : Bytes → List Bytes
unfolding split nonempty
parts p = nonempty (split p slash)

-- The two lists behind their common beginning.
unfoldable pub diverge : List Bytes → List Bytes → List Bytes × List Bytes
unfolding equal
diverge [] ts = ([], ts)
diverge (b ∷ bs) [] = (b ∷ bs, [])
diverge (b ∷ bs) (t ∷ ts) = let rest = diverge bs ts in if equal b t then rest else (b ∷ bs, t ∷ ts)

-- filepath.Rel(base, target): `none` is its error. The rest of the target stands behind one `..`
-- for each part of the base that is left.
abbrev pub climb : List Bytes → List Bytes → Option Bytes
climb [] ts = some (join ts slash)
climb (b ∷ bs) ts =
    if equal b dot_dot then none else some (join (map (λ _. dot_dot) (b ∷ bs) ++ ts) slash)

abbrev pub base_parts : Bytes → List Bytes
base_parts b = if equal b dot then [] else parts b

unfoldable pub rel : Bytes → Bytes → Option Bytes
rel base target =
    let b = clean base in
    let t = clean target in
    let ends = diverge (base_parts b) (parts t) in
    if equal b t
    then some dot
    else if is_abs b && not (is_abs t) || not (is_abs b) && is_abs t
    then none
    else climb ends.0 ends.1

-- The path without the separators at its end; the argument is reversed.
abbrev pub strip_end : Bytes → Bytes
strip_end [] = []
strip_end (c ∷ s) = elim (c == slash) [ true ↦ strip_end s | false ↦ c ∷ s ]

abbrev pub last_part : List Bytes → Bytes
last_part [] = []
last_part (p ∷ []) = p
last_part (p ∷ q ∷ ps) = last_part (q ∷ ps)

-- filepath.Base
unfoldable pub base : Bytes → Bytes
unfolding equal
base p =
    if equal p []
    then dot
    else let kept = reverse (strip_end (reverse p)) in
      if equal kept [] then slash ∷ [] else last_part (split kept slash)
