-- ===== src/FilePath/Relative.antt =====
-- When a target lies beneath a base, told from `rel`: the test that three functions of the server
-- make with `rel == ".." || strings.HasPrefix(rel, "../")`.
use simple_git_server.Base.{
  ◌≡◌, ◌≢◌, ◌↔◌, refl, sym, ap, ◌∙◌, Bool, true, false, not, ◌||◌, List, [], ◌∷◌, ◌++◌, map, Option,
  none, some, arith, if◌then◌else◌, All, Bool-cases, append-nil, inl, inr,
}
use simple_git_server.Text.{Bytes, equal, has_prefix, join, before}
use simple_git_server.Text.Laws.{
  equal_iff, equal_self, equal_ne, has_prefix_sound, before-append, before-lacking,
}
use simple_git_server.FilePath.{slash, dot, dot_dot, render, diverge, climb, rel}
use simple_git_server.FilePath.Clean.{clean_parts, render-injective}
use simple_git_server.FilePath.Names.{IsPart, parts-render, is_abs-render}

-- rel == ".." || strings.HasPrefix(rel, ".."+string(os.PathSeparator))
unfoldable pub climbs : Bytes → Bool
unfolding equal has_prefix
climbs r = equal r dot_dot || has_prefix r (b'.' ∷ b'.' ∷ slash ∷ [])

-- filepath.Rel succeeds and does not climb.
unfoldable pub stays : Option Bytes → Bool
unfolding climbs
stays none = false
stays (some r) = not (climbs r)

-- One list of names continues another.
abbrev pub Extends : List Bytes → List Bytes → Type 0
Extends bs ts = (rest : List Bytes) × (ts ≡ bs ++ rest)

diverge-append : (bs ts : List Bytes) → diverge bs (bs ++ ts) ≡ ([], ts)
unfolding diverge
diverge-append [] ts = refl
diverge-append (b ∷ bs) ts = rw (equal_self b) (diverge-append bs ts)

diverge_sound : (bs ts : List Bytes) → (diverge bs ts).0 ≡ [] → ts ≡ bs ++ (diverge bs ts).1
unfolding diverge
diverge_sound [] ts h = refl
diverge_sound (b ∷ bs) [] h = cc
diverge_sound (b ∷ bs) (t ∷ ts) h = ground (arith, equal_iff b t, diverge_sound bs ts)

diverge_parts :
    (bs ts : List Bytes)
    → All IsPart bs
    → All IsPart ts
    → All IsPart (diverge bs ts).0 × All IsPart (diverge bs ts).1
unfolding diverge
diverge_parts [] ts h k = (tt, k)
diverge_parts (b ∷ bs) [] h k = (h, tt)
diverge_parts (b ∷ bs) (t ∷ ts) h k = elim (Bool-cases (equal b t)) [
  | inl e ↦ rw e (diverge_parts bs ts h.1 k.1)
  | inr e ↦ rw e (h, k)
]

before-join :
    (t : Bytes) (ts : List Bytes) → All IsPart (t ∷ ts) → before (join (t ∷ ts) slash) slash ≡ t
unfolding join
before-join t [] h = before-lacking t slash h.0.one
before-join t (q ∷ ts) h = before-append t (join (q ∷ ts) slash) slash h.0.one

before_climb : (r : Bytes) → climbs r ≡ true → before r slash ≡ dot_dot
unfolding climbs
before_climb r h = elim (Bool-cases (equal r dot_dot)) [
  | inl e ↦ rw ((equal_iff r dot_dot).0 e) (unfold before in refl)
  | inr e ↦ rw (has_prefix_sound r (b'.' ∷ b'.' ∷ slash ∷ []) (rw e at h)) (unfold before in refl)
]

-- Names only never climb.
join-stays : (ts : List Bytes) → All IsPart ts → climbs (join ts slash) ≡ false
join-stays [] h = unfold climbs join in refl
join-stays (t ∷ ts) h = elim (Bool-cases (climbs (join (t ∷ ts) slash))) [
  | inl e ↦ absurd (h.0.ne_dot_dot (sym (before-join t ts h) ∙ before_climb _ e))
  | inr e ↦ e
]

dots_climb :
    (bs ts : List Bytes) → climbs (join (dot_dot ∷ (map (λ _. dot_dot) bs ++ ts)) slash) ≡ true
unfolding climbs join equal has_prefix
dots_climb [] [] = refl
dots_climb [] (t ∷ ts) = refl
dots_climb (b ∷ bs) ts = refl

climb-stays :
    (bs ts : List Bytes) → All IsPart bs → All IsPart ts → (stays (climb bs ts) ≡ true) ↔ (bs ≡ [])
unfolding stays
climb-stays [] ts h k = (λ _. refl, λ _. rw (join-stays ts k))
climb-stays (b ∷ bs) ts (hb, h) k =
    rw (equal_ne b dot_dot hb.ne_dot_dot, dots_climb bs ts) (λ e. cc, λ e. cc)

render-ne-dot : (bs : List Bytes) → render true bs ≢ dot
unfolding render
render-ne-dot bs e = ground arith

rel_parts :
    (bs ts : List Bytes)
    → All IsPart bs
    → All IsPart ts
    → rel (render true bs) (render true ts) ≡ (
        if equal (render true bs) (render true ts)
        then some dot
        else climb (diverge bs ts).0 (diverge bs ts).1)
unfolding rel
rel_parts bs ts h k = rw (
  clean_parts bs h,
  clean_parts ts k,
  is_abs-render bs,
  is_abs-render ts,
  equal_ne (render true bs) dot (render-ne-dot bs),
  parts-render bs h,
  parts-render ts k,
)

-- Between two paths of names from the root, the test passes exactly for a target whose names
-- continue the base's.
pub stays-rel_iff :
    (bs ts : List Bytes)
    → All IsPart bs
    → All IsPart ts
    → (stays (rel (render true bs) (render true ts)) ≡ true) ↔ Extends bs ts
stays-rel_iff bs ts h k =
    rw (rel_parts bs ts h k) (elim (Bool-cases (equal (render true bs) (render true ts))) [
      | inl e ↦ rw e (
        λ _. ([], sym (render-injective bs ts h k ((equal_iff _ _).0 e)) ∙ sym (append-nil bs)),
        λ _. unfold stays climbs equal has_prefix in refl,
      )
      | inr e ↦ rw e (
        λ s. ((diverge bs ts).1, diverge_sound bs ts ((climb-stays _ _ (ends.0) (ends.1)).0 s)),
        λ x. (climb-stays _ _ (ends.0) (ends.1)).1 (
            ap (λ (d : List Bytes × List Bytes). d.0)
              (ap (diverge bs) (x.1) ∙ diverge-append bs (x.0))),
      )
    ])
  where
    ends : All IsPart (diverge bs ts).0 × All IsPart (diverge bs ts).1
    ends = diverge_parts bs ts h k
