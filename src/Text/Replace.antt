-- ===== src/Text/Replace.antt =====
-- Texts with parts replaced: `strings.ReplaceAll` and `html.EscapeString`.
use simple_git_server.Base.{
  ℕ, zero, suc, ◌-◌, ◌≡◌, ◌≢◌, refl, ap, ◌∙◌, true, false, if◌then◌else◌, [], ◌∷◌, ◌++◌, ◌==◌,
  arith, All, All-append, length,
}
use simple_git_server.Text.{Bytes, codes, has_prefix}
use simple_git_server.Text.Laws.{Lacks}

-- The rest of the text behind `skip` bytes of a match.
unfoldable pub replace_from : ℕ → Bytes → Bytes → Bytes → Bytes
replace_from skip [] old new = []
replace_from (suc skip) (c ∷ s) old new = replace_from skip s old new
replace_from zero (c ∷ s) old new = elim (has_prefix (c ∷ s) old) [
  | true ↦ new ++ replace_from (length old - 1) s old new
  | false ↦ c ∷ replace_from 0 s old new
]

-- strings.ReplaceAll(s, old, new) for a text `old` that is not empty
unfoldable pub replace_all : Bytes → Bytes → Bytes → Bytes
replace_all s old new = replace_from 0 s old new

keep_byte :
    (c b : ℕ) (s old new : Bytes)
    → c ≢ b
    → replace_from 0 (c ∷ s) (b ∷ old) new ≡ c ∷ replace_from 0 s (b ∷ old) new
unfolding replace_from has_prefix
keep_byte c b s old new h = ground arith

-- A text without the first byte of `old` is kept.
pub replace_all-append :
    (s t : Bytes) (b : ℕ) (old new : Bytes)
    → Lacks b s
    → replace_all (s ++ t) (b ∷ old) new ≡ s ++ replace_all t (b ∷ old) new
unfolding replace_all
replace_all-append [] t b old new h = refl
replace_all-append (c ∷ s) t b old new (hc, h) =
    keep_byte c b (s ++ t) old new hc ∙ ap (◌∷◌ c) (replace_all-append s t b old new h)

abbrev escape_byte : ℕ → Bytes
escape_byte c =
    if c == b'&'
    then codes "&amp;"
    else if c == b'\''
    then codes "&#39;"
    else if c == b'<'
    then codes "&lt;"
    else if c == b'>'
    then codes "&gt;"
    else if c == b'"'
    then codes "&#34;"
    else c ∷ []

-- html.EscapeString(s)
unfoldable pub escape_string : Bytes → Bytes
escape_string [] = []
escape_string (c ∷ s) = escape_byte c ++ escape_string s

-- The byte neither ends an attribute nor begins or ends a tag.
abbrev pub IsInert : ℕ → Type 0
IsInert c = (c ≢ b'<') × (c ≢ b'>') × (c ≢ b'"') × (c ≢ b'\'')

escape_byte-IsInert : (c : ℕ) → All IsInert (escape_byte c)
escape_byte-IsInert c = ground arith

pub escape_string-IsInert : (s : Bytes) → All IsInert (escape_string s)
unfolding escape_string
escape_string-IsInert [] = tt
escape_string-IsInert (c ∷ s) =
    All-append IsInert (escape_byte c) (escape_string s) (escape_byte-IsInert c)
      (escape_string-IsInert s)
