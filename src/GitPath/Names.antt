-- ===== src/GitPath/Names.antt =====
-- Facts on names that the path checks rest on: no part climbs, the first part, counts of
-- separators.
use simple_git_server.Base.{
  ℕ, ◌+◌, ◌≤◌, ◌≡◌, ◌≢◌, refl, ap, ◌∙◌, Bool, true, false, List, [], ◌∷◌, ◌++◌, arith, All, any,
  length, length-append, reverse,
}
use mathlib.Core.List.{reverse-append}
use simple_git_server.Text.{
  Bytes, equal, count, before, split, join, grow_head, has_prefix, trim_prefix,
}
use simple_git_server.Text.Laws.{
  Lacks, equal_iff, equal_ne, split-append, split-join, before-append, before-lacking,
}
use simple_git_server.FilePath.{slash, dot_dot, pop, push, keep, render, is_abs}
use simple_git_server.FilePath.Clean.{cleaned, HasNoClimb}
use simple_git_server.FilePath.Names.{IsPart, parts-Lacks}
use simple_git_server.GitPath.{has_dot_dot_segment, root_path}

any-dot_dot :
    (ss : List Bytes) → All (λ s. s ≢ dot_dot) ss → any (λ seg. equal seg dot_dot) ss ≡ false
any-dot_dot [] h = refl
any-dot_dot (s ∷ ss) (p, h) = rw (equal_ne s dot_dot p) (any-dot_dot ss h)

All-dot_dot :
    (ss : List Bytes) → any (λ seg. equal seg dot_dot) ss ≡ false → All (λ s. s ≢ dot_dot) ss
All-dot_dot [] h = tt
All-dot_dot (s ∷ ss) h =
    (ground (arith, equal_iff s dot_dot), All-dot_dot ss (ground (arith, equal_iff s dot_dot)))

pub has_dot_dot_segment-false : (p : Bytes) → has_dot_dot_segment p ≡ false → HasNoClimb p
unfolding has_dot_dot_segment
has_dot_dot_segment-false p h = All-dot_dot (split p slash) h

pub HasNoClimb-has_dot_dot_segment : (p : Bytes) → HasNoClimb p → has_dot_dot_segment p ≡ false
unfolding has_dot_dot_segment
HasNoClimb-has_dot_dot_segment p h = any-dot_dot (split p slash) h

-- Splitting the path over some names gives an empty part and the names.
pub split-render :
    (s : Bytes) (ss : List Bytes)
    → All IsPart (s ∷ ss)
    → split (render true (s ∷ ss)) slash ≡ [] ∷ s ∷ ss
unfolding render
split-render s ss h =
    split-append [] (join (s ∷ ss) slash) slash
    ∙ unfold split in ap (◌∷◌ []) (split-join s ss slash (parts-Lacks (s ∷ ss) h))

parts_ne_dot_dot : (ss : List Bytes) → All IsPart ss → All (λ s. s ≢ dot_dot) ss
parts_ne_dot_dot [] h = tt
parts_ne_dot_dot (s ∷ ss) (p, h) = (p.ne_dot_dot, parts_ne_dot_dot ss h)

pub render-no_climb :
    (s : Bytes) (ss : List Bytes)
    → All IsPart (s ∷ ss)
    → has_dot_dot_segment (render true (s ∷ ss)) ≡ false
render-no_climb s ss h =
    HasNoClimb-has_dot_dot_segment (render true (s ∷ ss))
      (rw (split-render s ss h) (λ e. ground arith, parts_ne_dot_dot (s ∷ ss) h))

-- The first name of a path.
pub before-render :
    (s : Bytes) (ss : List Bytes)
    → All IsPart (s ∷ ss)
    → before (trim_prefix (render true (s ∷ ss)) root_path) slash ≡ s
unfolding render trim_prefix has_prefix join
before-render s [] h = before-lacking s slash h.0.one
before-render s (q ∷ ss) h = before-append s (join (q ∷ ss) slash) slash h.0.one

length-grow_head : (c : ℕ) (ps : List Bytes) → 1 ≤ length ps → length (grow_head c ps) ≡ length ps
length-grow_head c [] h = elim h [ ]
length-grow_head c (p ∷ ps) h = refl

-- A split has one part more than the text has separators.
pub length-split : (s : Bytes) (b : ℕ) → length (split s b) ≡ count s b + 1
unfolding split count
length-split [] b = refl
length-split (c ∷ s) b = ground (arith, length-split s b, length-grow_head c (split s b))

length-push :
    (rooted : Bool) (s : Bytes) (out : List Bytes) → length (push rooted s out) ≤ length out + 1
unfolding push pop
length-push rooted s [] = ground arith
length-push rooted s (t ∷ out) = ground arith

pub length-keep :
    (rooted : Bool) (out ss : List Bytes) → length (keep rooted out ss) ≤ length out + length ss
unfolding keep
length-keep rooted out [] = omega arith
length-keep rooted out (s ∷ ss) =
    omega (arith, length-keep rooted (push rooted s out) ss, length-push rooted s out)

pub length-reverse {ℓ} : {A : Type ℓ} (xs : List A) → length (reverse xs) ≡ length xs
length-reverse [] = refl
length-reverse (x ∷ xs) =
    ap length (reverse-append (x ∷ []) xs)
    ∙ omega (arith, length-append (reverse xs) (x ∷ []), length-reverse xs)

count-append : (s t : Bytes) (b : ℕ) → count (s ++ t) b ≡ count s b + count t b
unfolding count
count-append [] t b = omega arith
count-append (c ∷ s) t b = omega (arith, count-append s t b)

count-lacking : (s : Bytes) (b : ℕ) → Lacks b s → count s b ≡ 0
unfolding count
count-lacking [] b h = refl
count-lacking (c ∷ s) b (hc, h) = ground (arith, count-lacking s b h)

-- A path over names has one separator for each of them.
pub count-render :
    (s : Bytes) (ss : List Bytes)
    → All IsPart (s ∷ ss)
    → count (render true (s ∷ ss)) slash ≡ length (s ∷ ss)
count-render s ss h =
    omega (arith, length-split (render true (s ∷ ss)) slash, ap length (split-render s ss h))

-- Cleaning a path with a leading separator leaves at most as many names as it has separators.
pub length-cleaned : (p : Bytes) → is_abs p ≡ true → length (cleaned p) ≤ count p slash
unfolding is_abs
length-cleaned [] h = cc
length-cleaned (c ∷ p) h =
    let e : c ≡ slash = ground arith in
    rw (e, split-append [] p slash, length-reverse)
      (unfold keep push equal split count in
        omega (arith, length-keep true [] (split p slash), length-split p slash))
