-- ===== src/Duration.antt =====
-- Go's `time.Duration` as text: `String` for durations that are not negative, and `ParseDuration`,
-- in nanoseconds. What the floating point arithmetic of `ParseDuration` makes of a fraction is a
-- parameter.
pub mod Terms
pub mod RoundTrip
use simple_git_server.Base.{
  ℕ, zero, suc, ◌+◌, ◌-◌, ◌*◌, ◌/◌, ◌%◌, ◌^◌, Bool, true, false, not, ◌||◌, List, [], ◌∷◌, ◌++◌,
  ◌==◌, if◌then◌else◌, ltb, length, Option, none, some, ℤ, pos, negsuc,
}
use simple_git_server.Text.{Bytes, codes, equal}
use simple_git_server.Text.Decimal.{decimal, is_digit, leading_int}

-- The last digits of a number as a fraction: no zeros at the end, and no point if nothing is left.
-- `out` is empty until a digit is printed.
unfoldable pub fraction_digits : ℕ → ℕ → Bytes → Bytes
fraction_digits zero v out = elim out [ [] ↦ [] | c ∷ s ↦ b'.' ∷ c ∷ s ]
fraction_digits (suc prec) v out =
    let kept = fraction_digits prec (v / 10) ((b'0' + v % 10) ∷ out) in
    let dropped = fraction_digits prec (v / 10) [] in
    if not (v % 10 == 0) || not (equal out []) then kept else dropped

-- d in a unit of 10 ^ prec nanoseconds.
unfoldable pub in_unit : ℕ → ℕ → Bytes → Bytes
in_unit prec d unit = decimal (d / 10 ^ prec) ++ (fraction_digits prec (d % 10 ^ prec) [] ++ unit)

-- Whole seconds as hours, minutes and seconds, with the text that follows the seconds.
unfoldable pub clock_text : ℕ → Bytes → Bytes
clock_text s behind =
    let seconds = decimal (s % 60) ++ behind in
    if s / 60 == 0
    then seconds
    else let minutes = decimal (s / 60 % 60) ++ (b'm' ∷ seconds) in
      if s / 60 / 60 == 0 then minutes else decimal (s / 60 / 60) ++ (b'h' ∷ minutes)

-- Duration.String, for d ≥ 0
unfoldable pub duration_string : ℕ → Bytes
duration_string d =
    if d == 0
    then codes "0s"
    else if ltb d (10 ^ 3)
    then in_unit 0 d (codes "ns")
    else if ltb d (10 ^ 6)
    then in_unit 3 d (0xC2 ∷ 0xB5 ∷ b's' ∷ [])
    else if ltb d (10 ^ 9)
    then in_unit 6 d (codes "ms")
    else clock_text (d / 10 ^ 9) (fraction_digits 9 (d % 10 ^ 9) [] ++ codes "s")

unfoldable pub unit_of : Bytes → Option ℕ
unit_of u =
    if equal u (codes "ns")
    then some 1
    else if equal u (codes "us")
        || equal u (0xC2 ∷ 0xB5 ∷ b's' ∷ [])
        || equal u (0xCE ∷ 0xBC ∷ b's' ∷ [])
    then some (10 ^ 3)
    else if equal u (codes "ms")
    then some (10 ^ 6)
    else if equal u (codes "s")
    then some (10 ^ 9)
    else if equal u (codes "m")
    then some (60 * 10 ^ 9)
    else if equal u (codes "h")
    then some (3600 * 10 ^ 9)
    else none

-- The bytes up to a point or a digit, and the rest.
unfoldable pub split_unit : Bytes → Bytes × Bytes
split_unit [] = ([], [])
split_unit (c ∷ s) =
    let (u, rest) = split_unit s in if c == b'.' || is_digit c then ([], c ∷ s) else (c ∷ u, rest)

-- The digits at the front, and the rest.
unfoldable pub split_digits : Bytes → Bytes × Bytes
split_digits [] = ([], [])
split_digits (c ∷ s) =
    let (d, rest) = split_digits s in if is_digit c then (c ∷ d, rest) else ([], c ∷ s)

-- A point and the digits behind it, if there is a point.
unfoldable pub split_fraction : Bytes → Bytes × Bytes
split_fraction [] = ([], [])
split_fraction (c ∷ s) = if c == b'.' then split_digits s else ([], c ∷ s)

module _ (fraction : ℕ → Bytes → ℕ) where
  -- One number with its unit added to `d`; the fraction digits count in parts of the unit.
  unfoldable pub add_term : ℕ → Bytes → Bytes → Bytes → ℕ → Option ℕ
  add_term v whole frac u d = elim (unit_of u) [
    | none ↦ none
    | some unit ↦
        let sum = d + (v * unit + (if equal frac [] then 0 else fraction unit frac)) in
        if equal whole [] || ltb (2 ^ 63) sum then none else some sum
  ]

  -- The terms of a duration: the fuel bounds their number.
  unfoldable pub parse_terms : ℕ → Bytes → ℕ → Option ℕ
  parse_terms fuel [] d = some d
  parse_terms zero (c ∷ s) d = none
  parse_terms (suc fuel) (c ∷ s) d =
      let (v, behind) = leading_int 0 (c ∷ s) in
      let (frac, more) = split_fraction behind in
      let (u, rest) = split_unit more in
      let number = if is_digit c then c ∷ [] else frac in
      elim (add_term v number frac u d) [ none ↦ none | some e ↦ parse_terms fuel rest e ]

  abbrev pub signed : Bool → Option ℕ → Option ℤ
  signed minus none = none
  signed true (some zero) = some (pos 0)
  signed true (some (suc n)) = some (negsuc n)
  signed false (some n) = if ltb n (2 ^ 63) then some (pos n) else none

  unfoldable pub parse_unsigned : Bool → Bytes → Option ℤ
  parse_unsigned minus s =
      if equal s (codes "0")
      then some (pos 0)
      else if equal s []
      then none
      else signed minus (parse_terms (length s) s 0)

  -- time.ParseDuration
  unfoldable pub parse_duration : Bytes → Option ℤ
  parse_duration [] = none
  parse_duration (c ∷ s) =
      if c == b'-'
      then parse_unsigned true s
      else if c == b'+'
      then parse_unsigned false s
      else parse_unsigned false (c ∷ s)
