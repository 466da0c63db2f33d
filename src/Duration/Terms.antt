-- ===== src/Duration/Terms.antt =====
-- The reading of a duration's terms, hours, minutes and seconds, and of a text made of them.
use simple_git_server.Base.{
  ℕ, suc, ◌+◌, ◌*◌, ◌^◌, ◌≤◌, ◌<◌, ◌≡◌, ◌≢◌, refl, ap, sym, subst, ◌∙◌, true, false, [], ◌∷◌, ◌++◌,
  ◌==◌, arith, if◌then◌else◌, ltb, length, length-append, none, some, pos, le→ltb, lt→ltb,
}
use simple_git_server.Text.{Bytes, codes, equal}
use simple_git_server.Text.Decimal.{
  decimal, is_digit, leading_int, leading_int-decimal, decimal-BeginsDigits,
}
use simple_git_server.Text.Laws.{equal_ne}
use simple_git_server.Duration.{
  unit_of, split_unit, split_fraction, add_term, parse_terms, parse_unsigned, parse_duration,
}

-- A letter that names a unit.
pub record IsUnit (c unit : ℕ) : Type 0 where
  pub no_digit : is_digit c ≡ false
  pub no_point : (c == b'.') ≡ false
  pub unit_is : unit_of (c ∷ []) ≡ some unit

-- The text of a later term, or nothing.
abbrev pub IsNext : Bytes → Type 0
IsNext [] = Unit
IsNext (c ∷ s) = is_digit c ≡ true

split_unit-next : (s : Bytes) → IsNext s → split_unit s ≡ ([], s)
unfolding split_unit
split_unit-next [] h = refl
split_unit-next (c ∷ s) h = ground arith

split_unit-letter :
    (c : ℕ) (s : Bytes) {unit : ℕ} → IsUnit c unit → IsNext s → split_unit (c ∷ s) ≡ (c ∷ [], s)
unfolding split_unit
split_unit-letter c s u h = ground (arith, u.no_digit, u.no_point, split_unit-next s h)

split_fraction-letter :
    (c : ℕ) (s : Bytes) {unit : ℕ} → IsUnit c unit → split_fraction (c ∷ s) ≡ ([], c ∷ s)
unfolding split_fraction
split_fraction-letter c s u = ground (arith, u.no_point)

seconds-IsUnit : IsUnit b's' (10 ^ 9)
unfolding unit_of equal
seconds-IsUnit = record { no_digit = refl; no_point = refl; unit_is = refl }

minutes-IsUnit : IsUnit b'm' (60 * 10 ^ 9)
unfolding unit_of equal
minutes-IsUnit = record { no_digit = refl; no_point = refl; unit_is = refl }

hours-IsUnit : IsUnit b'h' (3600 * 10 ^ 9)
unfolding unit_of equal
hours-IsUnit = record { no_digit = refl; no_point = refl; unit_is = refl }

decimal-IsNext : (n : ℕ) (s : Bytes) → IsNext (decimal n ++ s)
decimal-IsNext n s =
    let b = decimal-BeginsDigits n in subst (λ t. IsNext (t ++ s)) (sym b.text_is) b.digit

abbrev pub seconds_text : ℕ → Bytes
seconds_text n = decimal n ++ (b's' ∷ [])

abbrev pub minutes_text : ℕ → ℕ → Bytes
minutes_text m n = decimal m ++ (b'm' ∷ seconds_text n)

abbrev pub hours_text : ℕ → ℕ → ℕ → Bytes
hours_text h m n = decimal h ++ (b'h' ∷ minutes_text m n)

-- A number takes one byte at least.
pub length-decimal : (n : ℕ) (s : Bytes) → 1 + length s ≤ length (decimal n ++ s)
length-decimal n s =
    let b = decimal-BeginsDigits n in
    omega (arith, ap (λ t. length (t ++ s)) b.text_is, length-append b.others s)

module _ (fraction : ℕ → Bytes → ℕ) where
  add_term-whole :
      (v : ℕ) (c d : ℕ) (u : Bytes) {unit : ℕ}
      → unit_of u ≡ some unit
      → d + v * unit ≤ 2 ^ 63
      → add_term fraction v (c ∷ []) [] u d ≡ some (d + v * unit)
  unfolding add_term equal
  add_term-whole v c d u {unit} e small =
      rw (e, add_term) (within (d + (v * unit + 0)) (omega arith))
    where
      within :
          (m : ℕ)
          → m ≡ d + v * unit
          → (if ltb (2 ^ 63) m then none else some m) ≡ some (d + v * unit)
      within m k = rw k (rw (le→ltb (2 ^ 63) (d + v * unit) small))

  read_term :
      (fuel n c d f : ℕ) (o rest : Bytes) {unit : ℕ}
      → IsUnit c unit
      → IsNext rest
      → d + n * unit ≤ 2 ^ 63
      → is_digit f ≡ true
      → leading_int 0 (f ∷ (o ++ (c ∷ rest))) ≡ (n, c ∷ rest)
      → parse_terms fraction (suc fuel) (f ∷ (o ++ (c ∷ rest))) d
        ≡ parse_terms fraction fuel rest (d + n * unit)
  unfolding parse_terms
  read_term fuel n c d f o rest u h small digit e =
      rw
        (
          e,
          split_fraction-letter c rest u,
          split_unit-letter c rest u h,
          digit,
          add_term-whole n f d (c ∷ []) u.unit_is small,
          e,
          split_fraction-letter c rest u,
          split_unit-letter c rest u h,
          parse_terms,
        )
        refl

  -- One term is read, and added.
  parse_terms-term :
      (fuel n c d : ℕ) (rest : Bytes) {unit : ℕ}
      → IsUnit c unit
      → IsNext rest
      → d + n * unit ≤ 2 ^ 63
      → parse_terms fraction (suc fuel) (decimal n ++ (c ∷ rest)) d
        ≡ parse_terms fraction fuel rest (d + n * unit)
  parse_terms-term fuel n c d rest u h small =
      let b = decimal-BeginsDigits n in
      ap (λ t. parse_terms fraction (suc fuel) (t ++ (c ∷ rest)) d) b.text_is
      ∙ read_term fuel n c d b.first b.others rest u h small b.digit (
          ap (λ t. leading_int 0 (t ++ (c ∷ rest))) (sym b.text_is)
          ∙ leading_int-decimal n (c ∷ rest) u.no_digit)

  pub parse_seconds :
      (fuel n d : ℕ)
      → d + n * 10 ^ 9 ≤ 2 ^ 63
      → parse_terms fraction (suc fuel) (seconds_text n) d ≡ some (d + n * 10 ^ 9)
  parse_seconds fuel n d small =
      parse_terms-term fuel n b's' d [] seconds-IsUnit tt small ∙ unfold parse_terms in refl

  pub parse_minutes :
      (fuel m n d : ℕ)
      → d + m * (60 * 10 ^ 9) + n * 10 ^ 9 ≤ 2 ^ 63
      → parse_terms fraction (suc (suc fuel)) (minutes_text m n) d
        ≡ some (d + m * (60 * 10 ^ 9) + n * 10 ^ 9)
  parse_minutes fuel m n d small =
      parse_terms-term (suc fuel) m b'm' d (seconds_text n) minutes-IsUnit
        (decimal-IsNext n (b's' ∷ [])) (omega (arith, small))
      ∙ parse_seconds fuel n (d + m * (60 * 10 ^ 9)) small

  pub parse_hours :
      (fuel h m n d : ℕ)
      → d + h * (3600 * 10 ^ 9) + m * (60 * 10 ^ 9) + n * 10 ^ 9 ≤ 2 ^ 63
      → parse_terms fraction (suc (suc (suc fuel))) (hours_text h m n) d
        ≡ some (d + h * (3600 * 10 ^ 9) + m * (60 * 10 ^ 9) + n * 10 ^ 9)
  parse_hours fuel h m n d small =
      parse_terms-term (suc (suc fuel)) h b'h' d (minutes_text m n) hours-IsUnit
        (decimal-IsNext m (b'm' ∷ seconds_text n)) (omega (arith, small))
      ∙ parse_minutes fuel m n (d + h * (3600 * 10 ^ 9)) small

  -- The terms of the whole text give the duration.
  pub parse_duration-terms :
      (n c r : ℕ) (rest : Bytes)
      → parse_terms fraction (length (decimal n ++ (c ∷ rest))) (decimal n ++ (c ∷ rest)) 0 ≡ some r
      → r < 2 ^ 63
      → parse_duration fraction (decimal n ++ (c ∷ rest)) ≡ some (pos r)
  unfolding parse_duration parse_unsigned
  parse_duration-terms n c r rest e small =
      let b = decimal-BeginsDigits n in
      subst
        (λ t.
          parse_terms fraction (length (t ++ (c ∷ rest))) (t ++ (c ∷ rest)) 0 ≡ some r
          → parse_duration fraction (t ++ (c ∷ rest)) ≡ some (pos r))
        (sym b.text_is) (text_is b.first b.others b.digit) e
    where
      text_is :
          (f : ℕ) (o : Bytes)
          → is_digit f ≡ true
          → parse_terms fraction (length (f ∷ (o ++ (c ∷ rest)))) (f ∷ (o ++ (c ∷ rest))) 0 ≡ some r
          → parse_duration fraction (f ∷ (o ++ (c ∷ rest))) ≡ some (pos r)
      text_is f o d k =
          let minus : (f == b'-') ≡ false = ground arith in
          let plus : (f == b'+') ≡ false = ground arith in
          let one : f ∷ (o ++ (c ∷ rest)) ≢ codes "0" =
            λ p. omega (arith, ap (λ (t : Bytes). length t) p, length-append o (c ∷ rest)) in
          rw
            (
              minus,
              plus,
              equal_ne (f ∷ (o ++ (c ∷ rest))) (codes "0") one,
              equal_ne (f ∷ (o ++ (c ∷ rest))) [] (λ p. cc),
              k,
              lt→ltb r (2 ^ 63) small,
            )
            refl
