-- ===== src/FilePath/Names.antt =====
-- Plain names, and what cleaning does with parts that are plain names.
use mathlib.Core.List.{reverse-append}
use simple_git_server.Base.{
  ◌≡◌, ◌≢◌, refl, ap, Bool, true, List, [], ◌∷◌, ◌++◌, reverse, arith, All, All-append, All-map,
  append_assoc,
}
use simple_git_server.Text.{Bytes, split, join}
use simple_git_server.Text.Laws.{Lacks, equal_iff, equal_ne, split-join, split-append}
use simple_git_server.FilePath.{
  slash, dot, dot_dot, is_abs, pop, push, keep, render, nonempty, parts,
}

-- A part that names something: not empty, not `.`, not `..`, and without a separator.
pub record IsPart (s : Bytes) : Type 0 where
  pub ne_nil : s ≢ []
  pub ne_dot : s ≢ dot
  pub ne_dot_dot : s ≢ dot_dot
  pub one : Lacks slash s

pub push-IsPart :
    (rooted : Bool) (s : Bytes) (out : List Bytes)
    → All IsPart out
    → Lacks slash s
    → (s ≡ dot_dot → rooted ≡ true)
    → All IsPart (push rooted s out)
unfolding push pop
push-IsPart rooted s [] h l up =
    ground (arith, equal_iff s [], equal_iff s dot, equal_iff s dot_dot, up)
push-IsPart rooted s (t ∷ out) (ht, h) l up = ground (
  arith,
  equal_iff s [],
  equal_iff s dot,
  equal_iff s dot_dot,
  up,
  equal_iff t dot_dot,
  ht.ne_dot_dot,
)

-- A part that only climbs where a root stops it.
abbrev pub MayKeep : Bool → Bytes → Type 0
MayKeep rooted s = Lacks slash s × (s ≡ dot_dot → rooted ≡ true)

pub keep-IsPart :
    (rooted : Bool) (out ss : List Bytes)
    → All IsPart out
    → All (MayKeep rooted) ss
    → All IsPart (keep rooted out ss)
unfolding keep
keep-IsPart rooted out [] h t = h
keep-IsPart rooted out (s ∷ ss) h ((l, up), t) =
    keep-IsPart rooted (push rooted s out) ss (push-IsPart rooted s out h l up) t

pub keep-append :
    (rooted : Bool) (out ss ts : List Bytes)
    → keep rooted out (ss ++ ts) ≡ keep rooted (keep rooted out ss) ts
unfolding keep
keep-append rooted out [] ts = refl
keep-append rooted out (s ∷ ss) ts = keep-append rooted (push rooted s out) ss ts

pub push_part :
    (rooted : Bool) (s : Bytes) (out : List Bytes) → IsPart s → push rooted s out ≡ s ∷ out
unfolding push
push_part rooted s out p =
    rw (equal_ne s [] p.ne_nil, equal_ne s dot p.ne_dot, equal_ne s dot_dot p.ne_dot_dot)

-- Plain names are all kept.
pub keep_parts :
    (rooted : Bool) (out ss : List Bytes) → All IsPart ss → keep rooted out ss ≡ reverse ss ++ out
unfolding keep
keep_parts rooted out [] h = refl
keep_parts rooted out (s ∷ ss) (p, h) = rw (
  push_part rooted s out p,
  keep_parts rooted (s ∷ out) ss h,
  reverse-append (s ∷ []) ss,
  append_assoc,
)

pub reverse-All {ℓ κ} : {A : Type ℓ} (P : A → Type κ) (xs : List A) → All P xs → All P (reverse xs)
reverse-All P [] h = tt
reverse-All P (x ∷ xs) (p, h) =
    rw (reverse-append (x ∷ []) xs)
      (All-append P (reverse xs) (x ∷ []) (reverse-All P xs h) (p, tt))

pub nonempty_parts : (ss : List Bytes) → All IsPart ss → nonempty ss ≡ ss
unfolding nonempty
nonempty_parts [] h = refl
nonempty_parts ([] ∷ ss) (p, h) = absurd (p.ne_nil refl)
nonempty_parts ((c ∷ s) ∷ ss) (p, h) = ap (◌∷◌ (c ∷ s)) (nonempty_parts ss h)

pub parts-Lacks : (ss : List Bytes) → All IsPart ss → All (Lacks slash) ss
parts-Lacks ss = All-map IsPart (Lacks slash) ss (λ s p. p.one)

-- The path from the root over these names has these parts.
pub parts-render : (ss : List Bytes) → All IsPart ss → parts (render true ss) ≡ ss
unfolding parts render
parts-render [] h = unfold split join in refl
parts-render (s ∷ ss) h =
    rw (split-append [] (join (s ∷ ss) slash) slash, split-join s ss slash (parts-Lacks (s ∷ ss) h))
      (unfold split in nonempty_parts (s ∷ ss) h)

pub is_abs-render : (ss : List Bytes) → is_abs (render true ss) ≡ true
unfolding is_abs render
is_abs-render ss = refl
