-- ===== src/Text/Unicode.antt =====
-- What Go reads in a byte string as UTF-8: the white space that `TrimSpace` and `Fields` cut, and
-- the case of letters.
use simple_git_server.Base.{
  ℕ, zero, suc, ◌+◌, Bool, List, [], ◌∷◌, ◌++◌, reverse, map, if◌then◌else◌, length, Option, none,
  some, ◌≤◌, ◌≡◌, ◌≢◌, refl, ap, All, ◌∙◌, arith,
}
use mathlib.Core.List.{reverse-append, reverse-reverse}
use simple_git_server.Text.{Bytes, equal, has_prefix}
use simple_git_server.Text.Runes.{within}

-- The encodings of unicode.IsSpace.
abbrev space_encodings : List Bytes
space_encodings =
    (9 ∷ [])
    ∷ (10 ∷ [])
    ∷ (11 ∷ [])
    ∷ (12 ∷ [])
    ∷ (13 ∷ [])
    ∷ (32 ∷ [])
    ∷ (0xC2 ∷ 0x85 ∷ [])
    ∷ (0xC2 ∷ 0xA0 ∷ [])
    ∷ (0xE1 ∷ 0x9A ∷ 0x80 ∷ [])
    ∷ (0xE2 ∷ 0x80 ∷ 0x80 ∷ [])
    ∷ (0xE2 ∷ 0x80 ∷ 0x81 ∷ [])
    ∷ (0xE2 ∷ 0x80 ∷ 0x82 ∷ [])
    ∷ (0xE2 ∷ 0x80 ∷ 0x83 ∷ [])
    ∷ (0xE2 ∷ 0x80 ∷ 0x84 ∷ [])
    ∷ (0xE2 ∷ 0x80 ∷ 0x85 ∷ [])
    ∷ (0xE2 ∷ 0x80 ∷ 0x86 ∷ [])
    ∷ (0xE2 ∷ 0x80 ∷ 0x87 ∷ [])
    ∷ (0xE2 ∷ 0x80 ∷ 0x88 ∷ [])
    ∷ (0xE2 ∷ 0x80 ∷ 0x89 ∷ [])
    ∷ (0xE2 ∷ 0x80 ∷ 0x8A ∷ [])
    ∷ (0xE2 ∷ 0x80 ∷ 0xA8 ∷ [])
    ∷ (0xE2 ∷ 0x80 ∷ 0xA9 ∷ [])
    ∷ (0xE2 ∷ 0x80 ∷ 0xAF ∷ [])
    ∷ (0xE2 ∷ 0x81 ∷ 0x9F ∷ [])
    ∷ (0xE3 ∷ 0x80 ∷ 0x80 ∷ [])
    ∷ []

-- The length of the first of these encodings that the text begins with, or 0.
leading : List Bytes → Bytes → ℕ
unfolding has_prefix
leading [] s = 0
leading (e ∷ es) s = if has_prefix s e then length e else leading es s

-- Cuts encodings off the front; the first argument counts the bytes of one that are still to cut.
trim_front : List Bytes → ℕ → Bytes → Bytes
unfolding leading
trim_front es skip [] = []
trim_front es (suc k) (c ∷ s) = trim_front es k s
trim_front es zero (c ∷ s) = elim (leading es (c ∷ s)) [ zero ↦ c ∷ s | suc w ↦ trim_front es w s ]

-- strings.TrimSpace and bytes.TrimSpace: no encoding of a space is the end of another, so the back
-- is cut as the front of the reversed text.
unfoldable pub trim_space : Bytes → Bytes
unfolding trim_front
trim_space s =
    reverse (trim_front (map reverse space_encodings) 0 (reverse (trim_front space_encodings 0 s)))

-- Trimming does nothing to a text whose first and last bytes are printable ASCII.
abbrev pub IsPrint : ℕ → Type 0
IsPrint c = (33 ≤ c) × (c ≤ 126)

abbrev BeginsOtherwise : ℕ → Bytes → Type 0
BeginsOtherwise c [] = ⊥
BeginsOtherwise c (x ∷ e) = x ≢ c

leading_none :
    (c : ℕ) (s : Bytes) (es : List Bytes) → All (BeginsOtherwise c) es → leading es (c ∷ s) ≡ 0
unfolding leading
leading_none c s [] h = refl
leading_none c s ([] ∷ es) h = absurd h.0
leading_none c s ((x ∷ e) ∷ es) (p, h) = ground (arith, leading_none c s es h)

leading_print : (c : ℕ) (s : Bytes) → IsPrint c → leading space_encodings (c ∷ s) ≡ 0
leading_print c s h = leading_none c s space_encodings (omega arith)

leading_print_back :
    (c : ℕ) (s : Bytes) → IsPrint c → leading (map reverse space_encodings) (c ∷ s) ≡ 0
leading_print_back c s h = leading_none c s (map reverse space_encodings) (omega arith)

pub trim_space_print :
    (c : ℕ) (s : Bytes) (d : ℕ)
    → IsPrint c
    → IsPrint d
    → trim_space (c ∷ (s ++ d ∷ [])) ≡ c ∷ (s ++ d ∷ [])
unfolding trim_space trim_front
trim_space_print c s d h k =
    rw (leading_print c (s ++ d ∷ []) h, trim_front)
      (rw (reverse-append (c ∷ s) (d ∷ [])) (
        rw (leading_print_back d (reverse (c ∷ s)) k, trim_front)
          (reverse-append (d ∷ []) (reverse (c ∷ s))
            ∙ ap (λ t. t ++ d ∷ []) (reverse-reverse (c ∷ s)))))

-- strings.ToLower, as far as it can give ASCII: the two letters beyond ASCII whose lower case is in
-- ASCII are U+0130 and U+212A; every other byte beyond ASCII is left, and is not in ASCII after
-- lowering either.
lower_byte : ℕ → ℕ
lower_byte c = if within b'A' b'Z' c then c + 32 else c

-- The lower case of the letter at the front, and how many more bytes it was written in.
lower_rune : Bytes → ℕ × ℕ
unfolding lower_byte has_prefix
lower_rune [] = (0, 0)
lower_rune (c ∷ s) =
    if has_prefix (c ∷ s) (0xC4 ∷ 0xB0 ∷ [])
    then (b'i', 1)
    else if has_prefix (c ∷ s) (0xE2 ∷ 0x84 ∷ 0xAA ∷ [])
    then (b'k', 2)
    else (lower_byte c, 0)

lower_from : ℕ → Bytes → Bytes
unfolding lower_rune
lower_from skip [] = []
lower_from (suc k) (c ∷ s) = lower_from k s
lower_from zero (c ∷ s) = (lower_rune (c ∷ s)).0 ∷ lower_from (lower_rune (c ∷ s)).1 s

unfoldable pub to_lower : Bytes → Bytes
unfolding lower_from
to_lower s = lower_from 0 s

-- The text up to the first space.
first_word : Bytes → Bytes
unfolding leading
first_word [] = []
first_word (c ∷ s) = elim (leading space_encodings (c ∷ s)) [ zero ↦ c ∷ first_word s | suc w ↦ [] ]

-- strings.Fields(s)[0], if there is a field.
unfoldable pub first_field : Bytes → Option Bytes
unfolding trim_front first_word
first_field s = elim (trim_front space_encodings 0 s) [
  | [] ↦ none
  | c ∷ rest ↦ some (first_word (c ∷ rest))
]

-- The letter at the front with its case folded, as far as it folds into ASCII, and how many more
-- bytes it was written in: U+017F and U+212A fold to letters of ASCII.
fold_rune : Bytes → ℕ × ℕ
unfolding lower_byte has_prefix
fold_rune [] = (0, 0)
fold_rune (c ∷ s) =
    if has_prefix (c ∷ s) (0xC5 ∷ 0xBF ∷ [])
    then (b's', 1)
    else if has_prefix (c ∷ s) (0xE2 ∷ 0x84 ∷ 0xAA ∷ [])
    then (b'k', 2)
    else (lower_byte c, 0)

fold_from : ℕ → Bytes → Bytes
unfolding fold_rune
fold_from skip [] = []
fold_from (suc k) (c ∷ s) = fold_from k s
fold_from zero (c ∷ s) = (fold_rune (c ∷ s)).0 ∷ fold_from (fold_rune (c ∷ s)).1 s

-- strings.EqualFold(s, t) for a text `t` in ASCII
unfoldable pub equal_fold : Bytes → Bytes → Bool
unfolding fold_from equal
equal_fold s t = equal (fold_from 0 s) (fold_from 0 t)

-- A blank at the front is cut.
pub trim_space-blank : (s : Bytes) → trim_space (b' ' ∷ s) ≡ trim_space s
unfolding trim_space trim_front leading has_prefix
trim_space-blank s = refl
