-- ===== src/GoImport/Names.antt =====
-- The project names that goimport.go takes.
use simple_git_server.Base.{ℕ, ◌≡◌, ◌≢◌, ◌↔◌, refl, true, false, [], ◌∷◌, arith, reverse}
use mathlib.Core.List.{reverse_aux}
use mathlib.Core.List.{reverse-reverse}
use simple_git_server.Text.{Bytes, has_byte, has_prefix}
use simple_git_server.Text.Laws.{Lacks, equal_iff, equal_self, equal_ne, split-lacking}
use simple_git_server.FilePath.{slash, dot, base, strip_end}
use simple_git_server.GoImport.{valid_project_name}

-- A plain name that is not hidden.
pub record IsProjectName (p : Bytes) : Type 0 where
  pub ne_nil : p ≢ []
  pub visible : has_prefix p dot ≡ false
  pub no_slash : Lacks slash p
  pub no_backslash : Lacks b'\\' p

has_byte-Lacks : (p : Bytes) (b : ℕ) → has_byte p b ≡ false → Lacks b p
unfolding has_byte
has_byte-Lacks [] b h = tt
has_byte-Lacks (c ∷ p) b h = (ground arith, has_byte-Lacks p b (ground arith))

Lacks-has_byte : (p : Bytes) (b : ℕ) → Lacks b p → has_byte p b ≡ false
unfolding has_byte
Lacks-has_byte [] b h = refl
Lacks-has_byte (c ∷ p) b (hc, h) = ground (arith, Lacks-has_byte p b h)

Lacks-reverse_aux : (p q : Bytes) (b : ℕ) → Lacks b p → Lacks b q → Lacks b (reverse_aux p q)
Lacks-reverse_aux [] q b h k = k
Lacks-reverse_aux (c ∷ p) q b (hc, h) k = Lacks-reverse_aux p (c ∷ q) b h (hc, k)

Lacks-reverse : (p : Bytes) (b : ℕ) → Lacks b p → Lacks b (reverse p)
Lacks-reverse p b h = Lacks-reverse_aux p [] b h tt

strip_end-Lacks : (p : Bytes) → Lacks slash p → strip_end p ≡ p
strip_end-Lacks [] h = refl
strip_end-Lacks (c ∷ p) (hc, h) = ground arith

-- A name without a separator is its own last element.
base-Lacks : (p : Bytes) → p ≢ [] → Lacks slash p → base p ≡ p
unfolding base
base-Lacks p ne h = rw (
  equal_ne p [] ne,
  strip_end-Lacks (reverse p) (Lacks-reverse p slash h),
  reverse-reverse p,
  equal_ne p [] ne,
  split-lacking p slash h,
)

-- The names taken are the visible plain ones: the comparison with `filepath.Base` refuses nothing
-- that the other tests let through.
pub valid_project_name-IsProjectName_iff :
    (p : Bytes) → (valid_project_name p ≡ true) ↔ IsProjectName p
unfolding valid_project_name
valid_project_name-IsProjectName_iff p = (
  λ h. record {
    ne_nil = λ e. ground (arith, equal_iff p []);
    visible = ground arith;
    no_slash = has_byte-Lacks p slash (ground arith);
    no_backslash = has_byte-Lacks p b'\\' (ground arith);
  },
  λ n.
      rw
        (
          equal_ne p [] n.ne_nil,
          n.visible,
          Lacks-has_byte p slash n.no_slash,
          Lacks-has_byte p b'\\' n.no_backslash,
          base-Lacks p n.ne_nil n.no_slash,
        )
        (equal_self p),
)
