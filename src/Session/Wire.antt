-- ===== src/Session/Wire.antt =====
-- The numbers that a session reads and writes in four bytes.
use simple_git_server.Base.{
  ℕ, ◌+◌, ◌*◌, ◌/◌, ◌%◌, ◌^◌, ◌<◌, ◌≡◌, ◌↔◌, ◌≢◌, sym, ap, ap₂, ◌∙◌, false, [], ◌∷◌, ◌++◌, arith,
  if◌then◌else◌, ltb, All, Option, none, some, length, take, drop, length-append, length-take,
  take-append, Bool-cases, inl, inr, ℤ, pos, negsuc,
}
use simple_git_server.Text.{Bytes}
use simple_git_server.Text.Laws.{take-append-drop}
use simple_git_server.Session.{parse_exec_payload, to_u32, exit_status_bytes}

abbrev pub IsByte : ℕ → Type 0
IsByte c = c < 256

-- A 32-bit number, most significant byte first.
abbrev pub be32 : ℕ → Bytes
be32 n = (n / 2 ^ 24 % 256) ∷ (n / 2 ^ 16 % 256) ∷ (n / 2 ^ 8 % 256) ∷ (n % 256) ∷ []

-- The number that four bytes stand for.
abbrev pub from_be32 : Bytes → ℕ
from_be32 (a ∷ b ∷ c ∷ d ∷ _) = a * 2 ^ 24 + b * 2 ^ 16 + c * 2 ^ 8 + d
from_be32 _ = 0

be32-from :
    (a b c d : ℕ)
    → IsByte a
    → IsByte b
    → IsByte c
    → IsByte d
    → be32 (from_be32 (a ∷ b ∷ c ∷ d ∷ [])) ≡ a ∷ b ∷ c ∷ d ∷ []
be32-from a b c d ha hb hc hd =
    let n = a * 2 ^ 24 + b * 2 ^ 16 + c * 2 ^ 8 + d in
    let ea : n / 2 ^ 24 % 256 ≡ a = omega arith in
    let eb : n / 2 ^ 16 % 256 ≡ b = omega arith in
    let ec : n / 2 ^ 8 % 256 ≡ c = omega arith in
    let ed : n % 256 ≡ d = omega arith in λ i. ea i ∷ eb i ∷ ec i ∷ ed i ∷ []

from-be32 : (n : ℕ) → n < 2 ^ 32 → from_be32 (be32 n) ≡ n
from-be32 n h = omega arith

-- The payload holds the length of the command, the command, and perhaps more.
pub record Holds (payload line : Bytes) : Type 0 where
  pub rest : Bytes
  pub fits : length line < 2 ^ 32
  pub payload_is : payload ≡ be32 (length line) ++ line ++ rest

-- What the code computes once the four bytes are apart.
cut : ℕ → Bytes → Option Bytes
cut n rest = if ltb (4 + length rest) (4 + n) then none else some (take n rest)

parse-cut :
    (a b c d : ℕ) (rest : Bytes)
    → parse_exec_payload (a ∷ b ∷ c ∷ d ∷ rest) ≡ cut (from_be32 (a ∷ b ∷ c ∷ d ∷ [])) rest
unfolding parse_exec_payload cut
parse-cut a b c d rest = ground arith

cut_reads : (s rest : Bytes) → cut (length s) (s ++ rest) ≡ some s
unfolding cut
cut_reads s rest =
    let long : ltb (4 + length (s ++ rest)) (4 + length s) ≡ false =
      ground (arith, length-append s rest) in
    rw (long, take-append s rest)

reads : (payload line : Bytes) → Holds payload line → parse_exec_payload payload ≡ some line
reads payload line h =
    ap parse_exec_payload h.payload_is
    ∙ parse-cut _ _ _ _ (line ++ h.rest)
    ∙ ap (λ n. cut n (line ++ h.rest)) (from-be32 (length line) h.fits)
    ∙ cut_reads line h.rest

cut_sound :
    (n : ℕ) (rest line : Bytes)
    → cut n rest ≡ some line
    → (length line ≡ n) × (rest ≡ line ++ drop n rest)
unfolding cut
cut_sound n rest line h = elim (Bool-cases (ltb (4 + length rest) (4 + n))) [
  | inl e ↦ cc (rw e at h)
  | inr e ↦
      let same : take n rest ≡ line = same_line (rw e at h) in
      (
        ap length (sym same) ∙ length-take n rest ∙ ground arith,
        sym (take-append-drop n rest) ∙ ap (λ t. t ++ drop n rest) same,
      )
]
  where
    same_line : ◌≡◌ {A = Option Bytes} (some (take n rest)) (some line) → take n rest ≡ line
    same_line e = cc

too_short : (p line : Bytes) → length p < 4 → parse_exec_payload p ≢ some line
unfolding parse_exec_payload
too_short [] line l h = cc
too_short (a ∷ []) line l h = cc
too_short (a ∷ b ∷ []) line l h = cc
too_short (a ∷ b ∷ c ∷ []) line l h = cc
too_short (a ∷ b ∷ c ∷ d ∷ rest) line l h = absurd (omega arith)

holds :
    (a b c d : ℕ) (rest line : Bytes)
    → All IsByte (a ∷ b ∷ c ∷ d ∷ [])
    → parse_exec_payload (a ∷ b ∷ c ∷ d ∷ rest) ≡ some line
    → Holds (a ∷ b ∷ c ∷ d ∷ rest) line
holds a b c d rest line (ha, (hb, (hc, (hd, _)))) h =
    let n = from_be32 (a ∷ b ∷ c ∷ d ∷ []) in
    let (size, r) = cut_sound n rest line (sym (parse-cut a b c d rest) ∙ h) in
    let four = sym (be32-from a b c d ha hb hc hd) ∙ ap be32 (sym size) in
    record { rest = drop n rest; fits = omega arith; payload_is = ap₂ (λ x y. x ++ y) four r }

-- A payload of bytes is read as a command exactly if it holds that command behind its length: so
-- nothing is read beyond the payload, and what an SSH client writes is read back.
pub parse_exec_payload-Holds_iff :
    (payload line : Bytes)
    → All IsByte payload
    → (parse_exec_payload payload ≡ some line) ↔ Holds payload line
parse_exec_payload-Holds_iff payload line bytes = (there payload bytes, reads payload line)
  where
    there : (p : Bytes) → All IsByte p → parse_exec_payload p ≡ some line → Holds p line
    there [] b h = absurd (too_short [] line (omega arith) h)
    there (a ∷ []) b h = absurd (too_short (a ∷ []) line (omega arith) h)
    there (a ∷ b ∷ []) _ h = absurd (too_short (a ∷ b ∷ []) line (omega arith) h)
    there (a ∷ b ∷ c ∷ []) _ h = absurd (too_short (a ∷ b ∷ c ∷ []) line (omega arith) h)
    there (a ∷ b ∷ c ∷ d ∷ rest) (ha, (hb, (hc, (hd, _)))) h =
        holds a b c d rest line (ha, (hb, (hc, (hd, tt)))) h

-- The four bytes of an exit status are bytes, and stand for the code as a 32-bit number, whatever
-- the code is: -1 becomes 2 ^ 32 - 1.
pub exit_status-be32 :
    (code : ℤ)
    → All IsByte (exit_status_bytes code)
      × (from_be32 (exit_status_bytes code) ≡ to_u32 code)
      × (to_u32 code < 2 ^ 32)
unfolding exit_status_bytes to_u32
exit_status-be32 (pos n) = (omega arith, omega arith, omega arith)
exit_status-be32 (negsuc n) = (omega arith, omega arith, omega arith)
