-- ===== src/Text/Runes.antt =====
-- The runes that Go reads in a byte string.
use simple_git_server.Base.{
  ℕ, zero, suc, Bool, ◌&&◌, List, [], ◌∷◌, ◌==◌, if◌then◌else◌, leb, ltb, take, ◌<◌, ◌≡◌, arith,
}
use simple_git_server.Text.{Bytes}

-- The bytes of U+FFFD, which stands for a byte that is not part of a valid encoding.
abbrev replacement : Bytes
replacement = 0xEF ∷ 0xBF ∷ 0xBD ∷ []

abbrev pub within : ℕ → ℕ → ℕ → Bool
within lo hi c = leb lo c && leb c hi

-- The range that the second byte of an encoding of three or four bytes must lie in.
second_low : ℕ → ℕ
second_low c = if c == 0xE0 then 0xA0 else if c == 0xF0 then 0x90 else 0x80

second_high : ℕ → ℕ
second_high c = if c == 0xED then 0x9F else if c == 0xF4 then 0x8F else 0xBF

-- The length of the valid encoding at the front, or 0 if there is none (utf8.DecodeRune).
rune_width : Bytes → ℕ
unfolding second_low second_high
rune_width [] = 0
rune_width (c ∷ []) = if ltb c 0x80 then 1 else 0
rune_width (c ∷ d ∷ []) =
    if ltb c 0x80 then 1 else if within 0xC2 0xDF c && within 0x80 0xBF d then 2 else 0
rune_width (c ∷ d ∷ e ∷ []) =
    if ltb c 0x80
    then 1
    else if within 0xC2 0xDF c && within 0x80 0xBF d
    then 2
    else if within 0xE0 0xEF c && within (second_low c) (second_high c) d && within 0x80 0xBF e
    then 3
    else 0
rune_width (c ∷ d ∷ e ∷ f ∷ s) =
    if ltb c 0x80
    then 1
    else if within 0xC2 0xDF c && within 0x80 0xBF d
    then 2
    else if within 0xE0 0xEF c && within (second_low c) (second_high c) d && within 0x80 0xBF e
    then 3
    else if within 0xF0 0xF4 c
        && within (second_low c) (second_high c) d
        && within 0x80 0xBF e
        && within 0x80 0xBF f
    then 4
    else 0

-- The runes that `range` yields, each as the bytes that `WriteRune` writes for it; the first
-- argument counts the bytes of a rune that are still to pass over.
runes_from : ℕ → Bytes → List Bytes
unfolding rune_width
runes_from skip [] = []
runes_from (suc k) (c ∷ s) = runes_from k s
runes_from zero (c ∷ s) = elim (rune_width (c ∷ s)) [
  | zero ↦ replacement ∷ runes_from zero s
  | suc w ↦ take (suc w) (c ∷ s) ∷ runes_from w s
]

unfoldable pub runes : Bytes → List Bytes
unfolding runes_from
runes s = runes_from zero s

abbrev pub IsAscii : ℕ → Type 0
IsAscii c = c < 128

rune_width_ascii : (c : ℕ) (s : Bytes) → IsAscii c → rune_width (c ∷ s) ≡ 1
unfolding rune_width
rune_width_ascii c [] h = ground arith
rune_width_ascii c (d ∷ []) h = ground arith
rune_width_ascii c (d ∷ e ∷ []) h = ground arith
rune_width_ascii c (d ∷ e ∷ f ∷ s) h = ground arith

-- An ASCII byte is a rune.
pub runes_ascii : (c : ℕ) (s : Bytes) → IsAscii c → runes (c ∷ s) ≡ (c ∷ []) ∷ runes s
unfolding runes runes_from
runes_ascii c s h = rw (rune_width_ascii c s h, runes_from)
