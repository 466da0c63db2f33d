-- ===== src/Text/Laws.antt =====
-- Laws of the byte-string functions.
use simple_git_server.Base.{
  ℕ, zero, suc, ◌∙◌, ◌-◌, ◌≡◌, ◌≢◌, ◌↔◌, inl, inr, refl, ap, true, false, List, [], ◌∷◌, ◌++◌,
  arith, ◌==◌, length, take, drop, All, length-append, drop-append, Bool-cases,
}
use simple_git_server.Text.{
  Bytes, equal, has_prefix, trim_prefix, has_suffix, before, split, join, grow_head,
}

-- No byte of the text is `b`.
abbrev pub Lacks : ℕ → Bytes → Type 0
Lacks b = All (λ c. c ≢ b)

-- The comparison of two strings decides whether they are the same.
pub equal_iff : (s t : Bytes) → (equal s t ≡ true) ↔ (s ≡ t)
unfolding equal
equal_iff [] [] = ground arith
equal_iff [] (d ∷ t) = ground arith
equal_iff (c ∷ s) [] = ground arith
equal_iff (c ∷ s) (d ∷ t) = ground (arith, equal_iff s t)

pub equal_self : (a : Bytes) → equal a a ≡ true
equal_self a = (equal_iff a a).1 refl

pub equal_ne : (a b : Bytes) → a ≢ b → equal a b ≡ false
equal_ne a b h = ground (arith, equal_iff a b)

pub has_prefix-append : (p s : Bytes) → has_prefix (p ++ s) p ≡ true
unfolding has_prefix
has_prefix-append [] s = refl
has_prefix-append (x ∷ p) s = ground (arith, has_prefix-append p s)

pub has_prefix_sound : (s p : Bytes) → has_prefix s p ≡ true → s ≡ p ++ drop (length p) s
unfolding has_prefix
has_prefix_sound s [] h = refl
has_prefix_sound [] (y ∷ p) h = cc
has_prefix_sound (x ∷ s) (y ∷ p) h = ground (arith, has_prefix_sound s p)

pub trim_prefix-append : (p s : Bytes) → trim_prefix (p ++ s) p ≡ s
unfolding trim_prefix
trim_prefix-append p s = rw (has_prefix-append p s) (drop-append p s)

pub has_suffix-append : (s p : Bytes) → has_suffix (s ++ p) p ≡ true
unfolding has_suffix
has_suffix-append s p =
    let e : length (s ++ p) - length p ≡ length s = omega (arith, length-append s p) in
    rw (e, drop-append s p) (ground (arith, equal_self p, length-append s p))

pub take-append-drop : (n : ℕ) (xs : Bytes) → take n xs ++ drop n xs ≡ xs
take-append-drop zero xs = refl
take-append-drop (suc n) [] = refl
take-append-drop (suc n) (x ∷ xs) = ap (◌∷◌ x) (take-append-drop n xs)

-- A text with the suffix `p` is some text and then `p`.
pub has_suffix_sound : (s p : Bytes) → has_suffix s p ≡ true → s ≡ take (length s - length p) s ++ p
unfolding has_suffix
has_suffix_sound s p h =
    let n = length s - length p in ground (arith, equal_iff (drop n s) p, take-append-drop n s)

-- Splitting never gives the empty list.
pub split-ne-nil : (s : Bytes) (b : ℕ) → split s b ≢ []
unfolding split
split-ne-nil [] b = λ e. cc
split-ne-nil (c ∷ s) b = elim (Bool-cases (c == b)) [
  | inl e ↦ rw e (λ h. cc)
  | inr e ↦ rw e (grow_head-ne-nil c (split s b))
]
  where
    grow_head-ne-nil : (c : ℕ) (ps : List Bytes) → grow_head c ps ≢ []
    grow_head-ne-nil c [] = λ h. cc
    grow_head-ne-nil c (p ∷ ps) = λ h. cc

grow_head-Lacks :
    (b c : ℕ) (ps : List Bytes) → c ≢ b → All (Lacks b) ps → All (Lacks b) (grow_head c ps)
grow_head-Lacks b c [] h t = ((h, tt), tt)
grow_head-Lacks b c (p ∷ ps) h (hp, t) = ((h, hp), t)

-- No part of a split holds the separator.
pub split-Lacks : (s : Bytes) (b : ℕ) → All (Lacks b) (split s b)
unfolding split
split-Lacks [] b = (tt, tt)
split-Lacks (c ∷ s) b = elim (Bool-cases (c == b)) [
  | inl e ↦ rw e (tt, split-Lacks s b)
  | inr e ↦ rw e (grow_head-Lacks b c (split s b) (ground arith) (split-Lacks s b))
]

-- A text without the separator is one part.
pub split-lacking : (p : Bytes) (b : ℕ) → Lacks b p → split p b ≡ p ∷ []
unfolding split
split-lacking [] b h = refl
split-lacking (c ∷ p) b (hc, h) = ground (arith, split-lacking p b h)

-- A part without the separator, cut off at the separator behind it.
pub split-cons : (p s : Bytes) (b : ℕ) → Lacks b p → split (p ++ (b ∷ s)) b ≡ p ∷ split s b
unfolding split
split-cons [] s b h = ground arith
split-cons (c ∷ p) s b (hc, h) = ground (arith, split-cons p s b h)

-- Splitting a join gives the parts back, if there is a part and none holds the separator.
pub split-join :
    (p : Bytes) (ps : List Bytes) (b : ℕ)
    → All (Lacks b) (p ∷ ps)
    → split (join (p ∷ ps) b) b ≡ p ∷ ps
unfolding join
split-join p [] b (h, _) = split-lacking p b h
split-join p (q ∷ ps) b (h, t) =
    split-cons p (join (q ∷ ps) b) b h ∙ ap (◌∷◌ p) (split-join q ps b t)

-- A split of two texts with the separator between them is the two splits.
pub split-append : (s t : Bytes) (b : ℕ) → split (s ++ (b ∷ t)) b ≡ split s b ++ split t b
unfolding split
split-append [] t b = ground arith
split-append (c ∷ s) t b = elim (Bool-cases (c == b)) [
  | inl e ↦ rw (e, split-append s t b)
  | inr e ↦ rw (e, split-append s t b) (grow_head-append (split s b) (split-ne-nil s b))
]
  where
    grow_head-append :
        (ps : List Bytes) → ps ≢ [] → grow_head c (ps ++ split t b) ≡ grow_head c ps ++ split t b
    grow_head-append [] h = absurd (h refl)
    grow_head-append (p ∷ ps) h = refl

-- What stands before the first separator is the first part of the split.
pub before-Lacks : (s : Bytes) (b : ℕ) → Lacks b (before s b)
unfolding before
before-Lacks [] b = tt
before-Lacks (c ∷ s) b = elim (Bool-cases (c == b)) [
  | inl e ↦ rw (e, before) tt
  | inr e ↦ rw (e, before) (ground arith, before-Lacks s b)
]

pub before-append : (p s : Bytes) (b : ℕ) → Lacks b p → before (p ++ (b ∷ s)) b ≡ p
unfolding before
before-append [] s b h = ground arith
before-append (c ∷ p) s b (hc, h) = ground (arith, before-append p s b h)

pub before-lacking : (p : Bytes) (b : ℕ) → Lacks b p → before p b ≡ p
unfolding before
before-lacking [] b h = refl
before-lacking (c ∷ p) b (hc, h) = ground (arith, before-lacking p b h)
