-- ===== src/Duration/RoundTrip.antt =====
-- A duration of whole seconds is read back from its text.
use simple_git_server.Base.{
  ℕ, suc, ◌+◌, ◌-◌, ◌*◌, ◌/◌, ◌%◌, ◌^◌, ◌≤◌, ◌<◌, ◌≡◌, inl, inr, refl, ap, sym, subst, ◌∙◌, false,
  [], ◌∷◌, ◌==◌, arith, length, some, pos, Bool-cases, le→ltb,
}
use simple_git_server.Text.{Bytes, codes, equal}
use simple_git_server.Text.Decimal.{leading_int}
use simple_git_server.Duration.{
  fraction_digits, clock_text, duration_string, unit_of, split_unit, split_fraction, add_term,
  parse_terms, parse_unsigned, parse_duration,
}
use simple_git_server.Duration.Terms.{
  seconds_text, minutes_text, hours_text, parse_seconds, parse_minutes, parse_hours, length-decimal,
  parse_duration-terms,
}

zero_fraction : fraction_digits 9 0 [] ≡ []
unfolding fraction_digits equal
zero_fraction = refl

-- Whole seconds have no fraction.
duration_string-clock : (k : ℕ) → 0 < k → duration_string (k * 10 ^ 9) ≡ clock_text k (codes "s")
unfolding duration_string
duration_string-clock k h =
    let a : (k * 10 ^ 9 == 0) ≡ false = ground arith in
    let r : k * 10 ^ 9 % 10 ^ 9 ≡ 0 = omega arith in
    let q : k * 10 ^ 9 / 10 ^ 9 ≡ k = omega arith in
    rw
      (
        a,
        le→ltb (k * 10 ^ 9) (10 ^ 3) (omega arith),
        le→ltb (k * 10 ^ 9) (10 ^ 6) (omega arith),
        le→ltb (k * 10 ^ 9) (10 ^ 9) (omega arith),
        q,
        r,
        zero_fraction,
      )
      refl

module _ (fraction : ℕ → Bytes → ℕ) where
  -- A count of seconds, as it is written and read.
  parse-clock :
      (k : ℕ)
      → k * 10 ^ 9 < 2 ^ 63
      → parse_duration fraction (clock_text k (codes "s")) ≡ some (pos (k * 10 ^ 9))
  unfolding clock_text
  parse-clock k small = elim (Bool-cases (k / 60 == 0)) [
    | inl e ↦ rw e (
        parse_duration-terms fraction (k % 60) b's' (k * 10 ^ 9) []
          (seconds_read (length (seconds_text (k % 60))) (ground (arith, e)) last) small)
    | inr e ↦ rw e (elim (Bool-cases (k / 60 / 60 == 0)) [
      | inl z ↦ rw z (
          parse_duration-terms fraction (k / 60 % 60) b'm' (k * 10 ^ 9) (seconds_text (k % 60))
            (minutes_read (length (minutes_text (k / 60 % 60) (k % 60))) (ground (arith, z)) middle)
            small)
      | inr z ↦ rw z (
          parse_duration-terms fraction (k / 60 / 60) b'h' (k * 10 ^ 9)
            (minutes_text (k / 60 % 60) (k % 60))
            (hours_read (length (hours_text (k / 60 / 60) (k / 60 % 60) (k % 60))) first) small)
    ])
  ]
    where
      last : 2 ≤ length (seconds_text (k % 60))
      last = length-decimal (k % 60) (b's' ∷ [])

      middle : 4 ≤ length (minutes_text (k / 60 % 60) (k % 60))
      middle = omega (arith, last, length-decimal (k / 60 % 60) (b'm' ∷ seconds_text (k % 60)))

      first : 6 ≤ length (hours_text (k / 60 / 60) (k / 60 % 60) (k % 60))
      first =
          omega (
            arith,
            middle,
            length-decimal (k / 60 / 60) (b'h' ∷ minutes_text (k / 60 % 60) (k % 60)),
          )

      seconds_read :
          (fuel : ℕ)
          → k / 60 ≡ 0
          → 2 ≤ fuel
          → parse_terms fraction fuel (seconds_text (k % 60)) 0 ≡ some (k * 10 ^ 9)
      seconds_read fuel e enough =
          let f : fuel ≡ suc (fuel - 1) = omega arith in
          let v : 0 + k % 60 * 10 ^ 9 ≡ k * 10 ^ 9 = omega arith in
          rw (f, parse_seconds fraction (fuel - 1) (k % 60) 0 (omega arith)) (ap some v)

      minutes_read :
          (fuel : ℕ)
          → k / 60 / 60 ≡ 0
          → 4 ≤ fuel
          → parse_terms fraction fuel (minutes_text (k / 60 % 60) (k % 60)) 0 ≡ some (k * 10 ^ 9)
      minutes_read fuel e enough =
          let f : fuel ≡ suc (suc (fuel - 2)) = omega arith in
          let v : 0 + k / 60 % 60 * (60 * 10 ^ 9) + k % 60 * 10 ^ 9 ≡ k * 10 ^ 9 = omega arith in
          rw (f, parse_minutes fraction (fuel - 2) (k / 60 % 60) (k % 60) 0 (omega arith))
            (ap some v)

      hours_read :
          (fuel : ℕ)
          → 6 ≤ fuel
          → parse_terms fraction fuel (hours_text (k / 60 / 60) (k / 60 % 60) (k % 60)) 0
            ≡ some (k * 10 ^ 9)
      hours_read fuel enough =
          let f : fuel ≡ suc (suc (suc (fuel - 3))) = omega arith in
          let v : 0 + k / 60 / 60 * (3600 * 10 ^ 9) + k / 60 % 60 * (60 * 10 ^ 9) + k % 60 * 10 ^ 9
              ≡ k * 10 ^ 9 =
            omega arith in
          rw
            (
              f,
              parse_hours fraction (fuel - 3) (k / 60 / 60) (k / 60 % 60) (k % 60) 0 (omega arith),
            )
            (ap some v)

  parse-zero : parse_duration fraction (duration_string 0) ≡ some (pos 0)
  unfolding parse_duration duration_string parse_unsigned parse_terms add_term unit_of split_unit
      split_fraction equal leading_int
  parse-zero = refl

  -- A number of whole seconds below 2 ^ 63 nanoseconds is read back from its text.
  pub parse_duration-duration_string :
      (k : ℕ)
      → k * 10 ^ 9 < 2 ^ 63
      → parse_duration fraction (duration_string (k * 10 ^ 9)) ≡ some (pos (k * 10 ^ 9))
  parse_duration-duration_string k small = elim (Bool-cases (k == 0)) [
    | inl e ↦
        let z : k ≡ 0 = ground (arith, e) in
        subst
          (λ n. parse_duration fraction (duration_string (n * 10 ^ 9)) ≡ some (pos (n * 10 ^ 9)))
          (sym z) parse-zero
    | inr e ↦
        ap (parse_duration fraction) (duration_string-clock k (ground (arith, e)))
        ∙ parse-clock k small
  ]
