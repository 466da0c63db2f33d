-- ===== src/Text.antt =====
-- Go strings as byte sequences, and the functions of the `strings` package that the server calls.
pub mod Decimal
pub mod Laws
pub mod Numbers
pub mod Replace
pub mod Runes
pub mod Unicode
use Prim.Native.Char.{code}
use Prim.Native.String.{String}
use simple_git_server.Base.{
  ℕ, ◌+◌, ◌-◌, Bool, true, false, ◌&&◌, ◌||◌, List, [], ◌∷◌, ◌++◌, reverse, Option, none, some,
  ◌==◌, if◌then◌else◌, length, drop, take, leb,
}

abbrev pub Bytes : Type 0
Bytes = List ℕ

-- The code points of a literal: its bytes, as every literal is ASCII.
abbrev pub codes : String → Bytes
codes String.[] = []
codes (String.◌∷◌ c s) = code c ∷ codes s

-- `a == b` on strings.
unfoldable pub equal : Bytes → Bytes → Bool
equal [] [] = true
equal (x ∷ xs) (y ∷ ys) = x == y && equal xs ys
equal _ _ = false

-- strings.HasPrefix(s, p)
unfoldable pub has_prefix : Bytes → Bytes → Bool
has_prefix s [] = true
has_prefix [] (y ∷ p) = false
has_prefix (x ∷ s) (y ∷ p) = x == y && has_prefix s p

-- strings.TrimPrefix(s, p)
unfoldable pub trim_prefix : Bytes → Bytes → Bytes
unfolding has_prefix
trim_prefix s p = if has_prefix s p then drop (length p) s else s

-- strings.HasSuffix(s, p)
unfoldable pub has_suffix : Bytes → Bytes → Bool
unfolding equal
has_suffix s p = leb (length p) (length s) && equal (drop (length s - length p) s) p

-- strings.TrimSuffix(s, p)
unfoldable pub trim_suffix : Bytes → Bytes → Bytes
unfolding has_suffix
trim_suffix s p = if has_suffix s p then take (length s - length p) s else s

-- strings.Count(s, string(b)) for one byte
unfoldable pub count : Bytes → ℕ → ℕ
count [] b = 0
count (c ∷ s) b = (if c == b then 1 else 0) + count s b

-- The text before the first `b`, and the text behind it if there is a `b`.
unfoldable pub before : Bytes → ℕ → Bytes
before [] b = []
before (c ∷ s) b = elim (c == b) [ true ↦ [] | false ↦ c ∷ before s b ]

unfoldable pub after? : Bytes → ℕ → Option Bytes
after? [] b = none
after? (c ∷ s) b = elim (c == b) [ true ↦ some s | false ↦ after? s b ]

-- strings.IndexByte(s, b) ≥ 0
unfoldable pub has_byte : Bytes → ℕ → Bool
has_byte [] b = false
has_byte (c ∷ s) b = c == b || has_byte s b

-- strings.Split(s, string(b)) for one byte
abbrev pub grow_head : ℕ → List Bytes → List Bytes
grow_head c [] = (c ∷ []) ∷ []
grow_head c (p ∷ ps) = (c ∷ p) ∷ ps

unfoldable pub split : Bytes → ℕ → List Bytes
split [] b = [] ∷ []
split (c ∷ s) b = let rest = split s b in if c == b then [] ∷ rest else grow_head c rest

-- strings.Join(parts, string(b)) for one byte
unfoldable pub join : List Bytes → ℕ → Bytes
join [] b = []
join (p ∷ []) b = p
join (p ∷ q ∷ ps) b = p ++ (b ∷ join (q ∷ ps) b)
