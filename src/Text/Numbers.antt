-- ===== src/Text/Numbers.antt =====
-- `strconv.ParseBool`, `strconv.FormatBool`, and `strconv.ParseInt` with base 0 for 64 bits.
use simple_git_server.Base.{
  ℕ, zero, suc, ◌+◌, ◌-◌, ◌*◌, ◌^◌, ◌<◌, ◌≡◌, ◌≢◌, refl, ap, sym, subst, ◌∙◌, Bool, true, false,
  not, ◌&&◌, ◌||◌, List, [], ◌∷◌, append-nil, ◌==◌, arith, if◌then◌else◌, leb, ltb, lt→ltb,
  Bool-cases, inl, inr, Option, none, some, ℤ, pos, negsuc,
}
use simple_git_server.Text.{Bytes, codes, equal, has_byte}
use simple_git_server.Text.Decimal.{
  decimal, is_digit, leading_int, leading_int-decimal, decimal-BeginsDigits,
}

unfoldable pub format_bool : Bool → Bytes
format_bool true = codes "true"
format_bool false = codes "false"

abbrev one_of : List Bytes → Bytes → Bool
one_of [] s = false
one_of (t ∷ ts) s = equal s t || one_of ts s

unfoldable pub parse_bool : Bytes → Option Bool
unfolding equal
parse_bool s =
    if one_of (codes "1" ∷ codes "t" ∷ codes "T" ∷ codes "true" ∷ codes "TRUE" ∷ codes "True" ∷ [])
      s
    then some true
    else if one_of
        (codes "0" ∷ codes "f" ∷ codes "F" ∷ codes "false" ∷ codes "FALSE" ∷ codes "False" ∷ []) s
    then some false
    else none

abbrev lower : ℕ → ℕ
lower c = if leb b'A' c && leb c b'Z' then c + 32 else c

-- The value of a digit in a base up to 36; 36 for other bytes.
unfoldable pub digit_value : ℕ → ℕ
digit_value c =
    if is_digit c
    then c - b'0'
    else if leb b'a' (lower c) && leb (lower c) b'z'
    then lower c - b'a' + 10
    else 36

-- The digits of a base, underscores skipped.
unfoldable pub read_digits : ℕ → ℕ → Bytes → Option ℕ
read_digits base n [] = some n
read_digits base n (c ∷ s) =
    let skipped = read_digits base n s in
    let counted = read_digits base (n * base + digit_value c) s in
    if c == b'_' then skipped else if ltb (digit_value c) base then counted else none

-- Every underscore stands between a digit and a digit.
unfoldable pub underscore_ok : Bool → Bytes → Bool
underscore_ok saw [] = saw
underscore_ok saw (c ∷ s) =
    let inside = underscore_ok false s in
    let behind = underscore_ok true s in if c == b'_' then saw && inside else behind

abbrev with_base : ℕ → Bytes → Bool → Bytes → Option ℕ
with_base base digits saw text =
    if has_byte digits b'_' && not (underscore_ok saw text) then none else read_digits base 0 digits

-- A number behind a zero: its base is told by a letter, if it has three bytes, or is 8.
abbrev behind_zero : Bytes → Option ℕ
behind_zero [] = some 0
behind_zero (c ∷ []) = with_base 8 (c ∷ []) true (c ∷ [])
behind_zero (c ∷ d ∷ s) =
    if lower c == b'b'
    then with_base 2 (d ∷ s) true (d ∷ s)
    else if lower c == b'o'
    then with_base 8 (d ∷ s) true (d ∷ s)
    else if lower c == b'x'
    then with_base 16 (d ∷ s) true (d ∷ s)
    else with_base 8 (c ∷ d ∷ s) true (c ∷ d ∷ s)

-- strconv.ParseUint(s, 0, 64) without its bound, which the bound of `parse_int` implies
unfoldable pub parse_uint : Bytes → Option ℕ
parse_uint [] = none
parse_uint (c ∷ s) = if c == b'0' then behind_zero s else with_base 10 (c ∷ s) false (c ∷ s)

abbrev positive : Option ℕ → Option ℤ
positive none = none
positive (some n) = if ltb n (2 ^ 63) then some (pos n) else none

abbrev negative : Option ℕ → Option ℤ
negative none = none
negative (some zero) = some (pos 0)
negative (some (suc n)) = if ltb n (2 ^ 63) then some (negsuc n) else none

-- strconv.ParseInt(s, 0, 64)
unfoldable pub parse_int : Bytes → Option ℤ
parse_int [] = none
parse_int (c ∷ s) =
    if c == b'-'
    then negative (parse_uint s)
    else if c == b'+'
    then positive (parse_uint s)
    else positive (parse_uint (c ∷ s))

-- A text of digits only is read in base 10, and holds no underscore.
read_digits-leading :
    (s : Bytes) (n m : ℕ)
    → leading_int n s ≡ (m, [])
    → (read_digits 10 n s ≡ some m) × (has_byte s b'_' ≡ false)
unfolding leading_int read_digits has_byte digit_value
read_digits-leading [] n m h = (ap (λ p. some p.0) h, refl)
read_digits-leading (c ∷ s) n m h = elim (Bool-cases (is_digit c)) [
  | inl e ↦
      let ih = read_digits-leading s (10 * n + (c - b'0')) m (rw (e, leading_int) at h) in
      (ground (arith, ih.0), ground (arith, ih.1))
  | inr e ↦ absurd (ground arith)
]

pub parse_bool-format_bool : (b : Bool) → parse_bool (format_bool b) ≡ some b
unfolding parse_bool format_bool
parse_bool-format_bool true = refl
parse_bool-format_bool false = refl

-- A number of at least 1 that 63 bits hold is read back from its decimal digits.
pub parse_int-decimal : (n : ℕ) → 0 < n → n < 2 ^ 63 → parse_int (decimal n) ≡ some (pos n)
unfolding parse_int parse_uint
parse_int-decimal n h small =
    let b = decimal-BeginsDigits n in
    let whole = ap (leading_int 0) (sym (append-nil (decimal n))) ∙ leading_int-decimal n [] tt in
    subst (λ t. leading_int 0 t ≡ (n, []) → parse_int t ≡ some (pos n)) (sym b.text_is)
      (text_is b.first b.others b.digit (b.no_zero (lt→ltb 0 n h))) whole
  where
    text_is :
        (c : ℕ) (s : Bytes)
        → is_digit c ≡ true
        → c ≢ b'0'
        → leading_int 0 (c ∷ s) ≡ (n, [])
        → parse_int (c ∷ s) ≡ some (pos n)
    text_is c s d z e =
        let r = read_digits-leading (c ∷ s) 0 n e in
        let zero : (c == b'0') ≡ false = ground arith in
        let minus : (c == b'-') ≡ false = ground arith in
        let plus : (c == b'+') ≡ false = ground arith in
        rw (minus, plus, zero, r.1, r.0, lt→ltb n (2 ^ 63) small) refl
