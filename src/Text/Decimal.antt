-- ===== src/Text/Decimal.antt =====
-- Decimal numbers: `strconv.FormatInt` for numbers that are not negative, and the reading of the
-- digits at the front of a text, as `strconv` and `time` do it.
use simple_git_server.Base.{
  ℕ, zero, suc, ◌+◌, ◌-◌, ◌*◌, ◌/◌, ◌%◌, ◌<◌, ◌≡◌, ◌≢◌, refl, subst, ap, ◌∙◌, Bool, true, false,
  ◌&&◌, [], ◌∷◌, ◌++◌, ◌==◌, arith, if◌then◌else◌, leb, ltb, Bool-cases, inl, inr,
}
use simple_git_server.Text.{Bytes}

digits : ℕ → ℕ → Bytes → Bytes
digits zero n out = out
digits (suc fuel) n out =
    let more = digits fuel (n / 10) ((b'0' + n % 10) ∷ out) in
    if n / 10 == 0 then (b'0' + n % 10) ∷ out else more

-- strconv.FormatInt(n, 10) for n ≥ 0: a number has at most as many digits as its successor counts.
unfoldable pub decimal : ℕ → Bytes
unfolding digits
decimal n = digits (suc n) n []

abbrev pub is_digit : ℕ → Bool
is_digit c = leb b'0' c && leb c b'9'

-- The digits at the front, read behind the digits of `n`, and what follows them.
unfoldable pub leading_int : ℕ → Bytes → ℕ × Bytes
leading_int n [] = (n, [])
leading_int n (c ∷ s) = elim (is_digit c) [
  | true ↦ leading_int (10 * n + (c - b'0')) s
  | false ↦ (n, c ∷ s)
]

-- Something that is no digit, or nothing, comes next.
abbrev pub EndsDigits : Bytes → Type 0
EndsDigits [] = Unit
EndsDigits (c ∷ s) = is_digit c ≡ false

pub leading_int-EndsDigits : (n : ℕ) (s : Bytes) → EndsDigits s → leading_int n s ≡ (n, s)
unfolding leading_int
leading_int-EndsDigits n [] h = refl
leading_int-EndsDigits n (c ∷ s) h = ground arith

digits-append :
    (fuel n : ℕ) (out rest : Bytes) → digits fuel n out ++ rest ≡ digits fuel n (out ++ rest)
unfolding digits
digits-append zero n out rest = refl
digits-append (suc fuel) n out rest = elim (Bool-cases (n / 10 == 0)) [
  | inl e ↦ simp e
  | inr e ↦ simp e (digits-append fuel (n / 10) ((b'0' + n % 10) ∷ out) rest)
]

read_digit :
    (m n : ℕ) (s : Bytes) → leading_int m ((b'0' + n % 10) ∷ s) ≡ leading_int (10 * m + n % 10) s
unfolding leading_int
read_digit m n s =
    let d : is_digit (b'0' + n % 10) ≡ true = ground arith in
    let e : b'0' + n % 10 - b'0' ≡ n % 10 = omega arith in
    rw (d, leading_int) (ap (λ k. leading_int (10 * m + k) s) e)

-- The digits of a number are read as the number.
leading_int-digits :
    (fuel n : ℕ) (out : Bytes) → n < fuel → leading_int 0 (digits fuel n out) ≡ leading_int n out
unfolding digits
leading_int-digits zero n out h = absurd (omega (arith, h))
leading_int-digits (suc fuel) n out h = elim (Bool-cases (n / 10 == 0)) [
  | inl e ↦
      let k : 10 * 0 + n % 10 ≡ n = ground (arith, e) in
      simp e (read_digit 0 n out ∙ ap (λ m. leading_int m out) k)
  | inr e ↦
      let k : 10 * (n / 10) + n % 10 ≡ n = omega arith in
      simp e (
        leading_int-digits fuel (n / 10) ((b'0' + n % 10) ∷ out) (ground (arith, e))
        ∙ read_digit (n / 10) n out
        ∙ ap (λ m. leading_int m out) k)
]

pub leading_int-decimal :
    (n : ℕ) (rest : Bytes) → EndsDigits rest → leading_int 0 (decimal n ++ rest) ≡ (n, rest)
unfolding decimal
leading_int-decimal n rest h =
    ap (leading_int 0) (digits-append (suc n) n [] rest)
    ∙ leading_int-digits (suc n) n rest (omega arith)
    ∙ leading_int-EndsDigits n rest h

-- The text begins with a digit, and not with a zero if this is to be so.
pub record BeginsDigits (positive : Bool) (s : Bytes) : Type 0 where
  pub first : ℕ
  pub others : Bytes
  pub text_is : s ≡ first ∷ others
  pub digit : is_digit first ≡ true
  pub no_zero : positive ≡ true → first ≢ b'0'

digits-BeginsDigits :
    (fuel n : ℕ) (out : Bytes) → n < fuel → BeginsDigits (ltb 0 n) (digits fuel n out)
unfolding digits
digits-BeginsDigits zero n out h = absurd (omega (arith, h))
digits-BeginsDigits (suc fuel) n out h = elim (Bool-cases (n / 10 == 0)) [
  | inl e ↦ simp e (record {
    first = b'0' + n % 10;
    others = out;
    text_is = refl;
    digit = ground arith;
    no_zero = λ p z. ground (arith, e);
  })
  | inr e ↦
      let b : ltb 0 (n / 10) ≡ ltb 0 n = ground (arith, e) in
      simp e (
        subst (λ p. BeginsDigits p (digits fuel (n / 10) ((b'0' + n % 10) ∷ out))) b
          (digits-BeginsDigits fuel (n / 10) ((b'0' + n % 10) ∷ out) (ground (arith, e))))
]

pub decimal-BeginsDigits : (n : ℕ) → BeginsDigits (ltb 0 n) (decimal n)
unfolding decimal
decimal-BeginsDigits n = digits-BeginsDigits (suc n) n [] (omega arith)
