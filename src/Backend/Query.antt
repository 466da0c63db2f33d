-- ===== src/Backend/Query.antt =====
-- Go's `URL.Query().Get` on a raw query.
use simple_git_server.Base.{
  ℕ, ◌+◌, ◌-◌, ◌*◌, Bool, ◌&&◌, ◌||◌, List, [], ◌∷◌, ◌==◌, if◌then◌else◌, leb, Option, none, some,
}
use simple_git_server.Text.{Bytes, equal, before, after?, has_byte, split}

abbrev in_range : ℕ → ℕ → ℕ → Bool
in_range lo hi c = leb lo c && leb c hi

-- The value of a hexadecimal digit.
hex : ℕ → Option ℕ
hex c =
    if in_range b'0' b'9' c
    then some (c - b'0')
    else if in_range b'a' b'f' c
    then some (c - b'a' + 10)
    else if in_range b'A' b'F' c
    then some (c - b'A' + 10)
    else none

abbrev hex_pair : Option ℕ → Option ℕ → Option ℕ
hex_pair none _ = none
hex_pair (some a) none = none
hex_pair (some a) (some b) = some (a * 16 + b)

abbrev prepend : Option ℕ → Option Bytes → Option Bytes
prepend none _ = none
prepend (some c) none = none
prepend (some c) (some s) = some (c ∷ s)

-- url.QueryUnescape: `+` is a blank, and `%` begins two hexadecimal digits.
unfoldable pub query_unescape : Bytes → Option Bytes
unfolding hex
query_unescape [] = some []
query_unescape (c ∷ []) = if c == b'%' then none else some ((if c == b'+' then b' ' else c) ∷ [])
query_unescape (c ∷ d ∷ []) =
    let rest = query_unescape (d ∷ []) in
    if c == b'%' then none else prepend (some (if c == b'+' then b' ' else c)) rest
query_unescape (c ∷ d ∷ e ∷ s) =
    let coded = query_unescape s in
    let plain = query_unescape (d ∷ e ∷ s) in
    if c == b'%'
    then prepend (hex_pair (hex d) (hex e)) coded
    else prepend (some (if c == b'+' then b' ' else c)) plain

abbrev value_text : Option Bytes → Bytes
value_text none = []
value_text (some v) = v

-- One `key=value`; none if it is empty or malformed.
query_pair : Bytes → Option (Bytes × Bytes)
unfolding query_unescape before after? has_byte
query_pair piece =
    if equal piece [] || has_byte piece b';'
    then none
    else elim (query_unescape (before piece b'=')) [
      | none ↦ none
      | some k ↦ elim (query_unescape (value_text (after? piece b'='))) [
        | none ↦ none
        | some v ↦ some (k, v)
      ]
    ]

get_from : List Bytes → Bytes → Bytes
unfolding query_pair equal
get_from [] name = []
get_from (p ∷ ps) name =
    let rest = get_from ps name in
    elim (query_pair p) [ none ↦ rest | some (k, v) ↦ if equal k name then v else rest ]

-- The first value of the name, or the empty text.
unfoldable pub query_get : Bytes → Bytes → Bytes
unfolding get_from split
query_get raw name = get_from (split raw b'&') name
