-- ===== src/Command/Split.antt =====
-- What `splitGitCommand` does to plain words and to one quoted argument, and `stripQuotes` to that.
use mathlib.Core.List.{foldl}
use simple_git_server.Base.{
  ℕ, ◌-◌, ◌≡◌, ◌≢◌, refl, sym, ap, ◌∙◌, true, List, [], ◌∷◌, ◌++◌, arith, All, length, take,
  length-append, take-append, append_assoc, append-nil, last?, some, leb,
}
use simple_git_server.Text.{Bytes, equal}
use simple_git_server.Text.Laws.{Lacks}
use simple_git_server.Text.Unicode.{trim_space_print}
use simple_git_server.Text.Runes.{runes, runes_ascii, IsAscii}
use simple_git_server.Command.{
  Splitter, flush, split_rune, split_git_command, quote, double_quote, strip_quotes,
}

-- A byte that `splitGitCommand` copies: ASCII, neither a quote nor a blank.
abbrev pub IsPlain : ℕ → Type 0
IsPlain c = IsAscii c × (c ≢ quote) × (c ≢ double_quote) × (c ≢ b' ') × (c ≢ b'\t')

abbrev state : List Bytes → Bytes → ℕ → Splitter
state parts cur q = record { parts = parts; cur = cur; in_quote = q }

abbrev run : Splitter → Bytes → Splitter
run t s = foldl split_rune t (runes s)

run-cons :
    (t : Splitter) (c : ℕ) (s : Bytes) → IsAscii c → run t (c ∷ s) ≡ run (split_rune t (c ∷ [])) s
run-cons t c s h = rw (runes_ascii c s h)

copies :
    (parts : List Bytes) (cur : Bytes) (c : ℕ)
    → IsPlain c
    → split_rune (state parts cur 0) (c ∷ []) ≡ state parts (cur ++ c ∷ []) 0
unfolding split_rune
copies parts cur c h = ground arith

copies_quoted :
    (parts : List Bytes) (cur : Bytes) (c : ℕ)
    → c ≢ quote
    → split_rune (state parts cur quote) (c ∷ []) ≡ state parts (cur ++ c ∷ []) quote
unfolding split_rune
copies_quoted parts cur c h = ground arith

-- A run of plain bytes is copied.
run_plain :
    (w rest : Bytes) (parts : List Bytes) (cur : Bytes)
    → All IsPlain w
    → run (state parts cur 0) (w ++ rest) ≡ run (state parts (cur ++ w) 0) rest
run_plain [] rest parts cur h = rw (append-nil cur)
run_plain (c ∷ w) rest parts cur (p, h) =
    run-cons (state parts cur 0) c (w ++ rest) p.0
    ∙ ap (λ t. run t (w ++ rest)) (copies parts cur c p)
    ∙ run_plain w rest parts (cur ++ c ∷ []) h
    ∙ ap (λ k. run (state parts k 0) rest) (append_assoc cur (c ∷ []) w)

-- So is a run within single quotes, blanks and double quotes too.
run_quoted :
    (w rest : Bytes) (parts : List Bytes) (cur : Bytes)
    → All IsAscii w
    → Lacks quote w
    → run (state parts cur quote) (w ++ rest) ≡ run (state parts (cur ++ w) quote) rest
run_quoted [] rest parts cur h l = rw (append-nil cur)
run_quoted (c ∷ w) rest parts cur (p, h) (n, l) =
    run-cons (state parts cur quote) c (w ++ rest) p
    ∙ ap (λ t. run t (w ++ rest)) (copies_quoted parts cur c n)
    ∙ run_quoted w rest parts (cur ++ c ∷ []) h l
    ∙ ap (λ k. run (state parts k quote) rest) (append_assoc cur (c ∷ []) w)

-- A text between single quotes.
abbrev pub quoted : Bytes → Bytes
quoted s = quote ∷ (s ++ quote ∷ [])

-- Words, each with a blank behind it, in front of an argument.
abbrev pub spell : List Bytes → Bytes → Bytes
spell [] arg = arg
spell (w ∷ ws) arg = w ++ (b' ' ∷ spell ws arg)

abbrev pub IsWord : Bytes → Type 0
IsWord w = All IsPlain w × (w ≢ [])

run_blank :
    (parts : List Bytes) (w rest : Bytes)
    → w ≢ []
    → run (state parts w 0) (b' ' ∷ rest) ≡ run (state (parts ++ w ∷ []) [] 0) rest
run_blank parts [] rest h = absurd (h refl)
run_blank parts (c ∷ w) rest h =
    run-cons (state parts (c ∷ w) 0) b' ' rest (omega arith) ∙ unfold split_rune in refl

run_argument :
    (parts : List Bytes) (s : Bytes)
    → All IsAscii s
    → Lacks quote s
    → run (state parts [] 0) (quoted s) ≡ state parts (quoted s) 0
run_argument parts s h l =
    run-cons (state parts [] 0) quote (s ++ quote ∷ []) (omega arith)
    ∙ ap (λ t. run t (s ++ quote ∷ [])) {y = state parts (quote ∷ []) quote}
        (unfold split_rune in refl)
    ∙ run_quoted s (quote ∷ []) parts (quote ∷ []) h l
    ∙ run-cons (state parts (quote ∷ s) quote) quote [] (omega arith)
    ∙ unfold split_rune runes in refl

run-spell :
    (ws parts : List Bytes) (s : Bytes)
    → All IsWord ws
    → All IsAscii s
    → Lacks quote s
    → run (state parts [] 0) (spell ws (quoted s)) ≡ state (parts ++ ws) (quoted s) 0
run-spell [] parts s k h l =
    run_argument parts s h l ∙ ap (λ p. state p (quoted s) 0) (sym (append-nil parts))
run-spell (w ∷ ws) parts s ((p, n), k) h l =
    run_plain w (b' ' ∷ spell ws (quoted s)) parts [] p
    ∙ run_blank parts w (spell ws (quoted s)) n
    ∙ run-spell ws (parts ++ w ∷ []) s k h l
    ∙ ap (λ q. state q (quoted s) 0) (append_assoc parts (w ∷ []) ws)

-- Plain words and a quoted argument are split into the words and the argument with its quotes.
pub split-spell :
    (ws : List Bytes) (s : Bytes)
    → All IsWord ws
    → All IsAscii s
    → Lacks quote s
    → split_git_command (spell ws (quoted s)) ≡ ws ++ quoted s ∷ []
split-spell ws s k h l =
    unfold split_git_command in
    ap (λ t. (flush t).parts) (run-spell ws [] s k h l) ∙ unfold flush equal in refl

last?-concat : (s : Bytes) (d : ℕ) → last? (s ++ d ∷ []) ≡ some d
last?-concat [] d = refl
last?-concat (c ∷ []) d = refl
last?-concat (c ∷ e ∷ s) d = last?-concat (e ∷ s) d

-- The quotes of a quoted text are stripped, whatever is between them.
pub strip-quoted : (s : Bytes) → strip_quotes (quoted s) ≡ s
unfolding strip_quotes
strip-quoted s =
    let n = length-append s (quote ∷ []) in
    let size : length (quoted s) - 2 ≡ length s = omega (arith, n) in
    let long : leb 2 (length (quoted s)) ≡ true = ground (arith, n) in
    rw (trim_space_print quote s quote (omega arith) (omega arith), long, last?-concat-cons)
      (ap (λ k. take k (s ++ quote ∷ [])) size ∙ take-append s (quote ∷ []))
  where
    last?-concat-cons : last? (quoted s) ≡ some quote
    last?-concat-cons = last?-concat (quote ∷ s) quote
