-- ===== src/Flag.antt =====
-- Go's `flag` package as the commands use it: the arguments are read one after the other until one
-- is no flag. What a flag does to the settings, and whether it is Boolean, is a parameter.
pub mod Laws
use simple_git_server.Base.{
  Bool, true, false, ◌||◌, List, [], ◌∷◌, ◌==◌, if◌then◌else◌, Option, none, some, Result, ok, err,
  All, ◌≡◌, refl, ◌++◌, ◌∙◌, arith, ℕ, ℤ,
}
use mathlib.Core.Option
use simple_git_server.Dict.{lookup}
use simple_git_server.Text.{Bytes, codes, equal, before, after?}
use simple_git_server.Text.Numbers.{parse_bool, parse_int}
use simple_git_server.Duration.{parse_duration}

pub data Arg : Type 0 where
  positional terminator malformed : Arg
  named : Bytes → Option Bytes → Arg

-- A name with the text behind its `=`, if there is one; no `-` or `=` stands first.
unfoldable pub read_name : Bytes → Arg
read_name [] = malformed
read_name (c ∷ s) =
    if c == b'-' || c == b'=' then malformed else named (before (c ∷ s) b'=') (after? (c ∷ s) b'=')

unfoldable pub read_arg : Bytes → Arg
unfolding read_name
read_arg [] = positional
read_arg (c ∷ []) = positional
read_arg (c ∷ d ∷ s) =
    if c == b'-'
    then (if d == b'-'
        then elim s [ [] ↦ terminator | e ∷ t ↦ read_name (e ∷ t) ]
        else read_name (d ∷ s))
    else positional

pub data FlagError : Type 0 where
  bad_syntax help_requested undefined needs_argument bad_value : FlagError

-- The flags of a command: which are Boolean (`none` if there is no such flag), and what setting one
-- to a text does (`none` if the text is no value of it).
pub record FlagSet {ℓ} (S : Type ℓ) : Type ℓ where
  pub is_bool : Bytes → Option Bool
  pub set : Bytes → Bytes → S → Option S

-- The types of the flags that the commands declare, each with what a value does to the settings.
pub data Kind {ℓ} (S : Type ℓ) : Type ℓ where
  bool_flag : (Bool → S → S) → Kind S
  string_flag : (Bytes → S → S) → Kind S
  int_flag : (ℤ → S → S) → Kind S
  duration_flag : (ℤ → S → S) → Kind S

module _ {ℓ} {S : Type ℓ} (fraction : ℕ → Bytes → ℕ) where
  unfoldable pub bool_kind : Option (Kind S) → Option Bool
  bool_kind none = none
  bool_kind (some (bool_flag f)) = some true
  bool_kind (some (string_flag f)) = some false
  bool_kind (some (int_flag f)) = some false
  bool_kind (some (duration_flag f)) = some false

  -- The `Set` methods of the flag values.
  unfoldable pub set_kind : Option (Kind S) → Bytes → S → Option S
  set_kind none v s = none
  set_kind (some (bool_flag f)) v s = Option.map (λ b. f b s) (parse_bool v)
  set_kind (some (string_flag f)) v s = some (f v s)
  set_kind (some (int_flag f)) v s = Option.map (λ n. f n s) (parse_int v)
  set_kind (some (duration_flag f)) v s = Option.map (λ n. f n s) (parse_duration fraction v)

  -- The flags that a command declares, under their names.
  unfoldable pub flags_of : List (Bytes × Kind S) → FlagSet S
  unfolding bool_kind set_kind
  flags_of table = record {
    is_bool = λ name. bool_kind (lookup name table);
    set = λ name. set_kind (lookup name table);
  }

-- What becomes of an argument: parsing ends, or goes on behind this one or behind the next one.
pub data Parsed {ℓ} (S : Type ℓ) : Type ℓ where
  ends_before ends_behind : Parsed S
  fails : FlagError → Parsed S
  goes_on takes_next : S → Parsed S

module _ {ℓ} {S : Type ℓ} (flags : FlagSet S) where
  abbrev pub set_to : Bytes → Bytes → S → (S → Parsed S) → Parsed S
  set_to name value s then_so = elim (flags.set name value s) [
    | none ↦ fails bad_value
    | some t ↦ then_so t
  ]

  abbrev pub set_flag : Option Bool → Bytes → Option Bytes → Option Bytes → S → Parsed S
  set_flag none name value next s =
      fails
        (if equal name (codes "help") || equal name (codes "h") then help_requested else undefined)
  set_flag (some true) name none next s = set_to name (codes "true") s goes_on
  set_flag (some true) name (some v) next s = set_to name v s goes_on
  set_flag (some false) name (some v) next s = set_to name v s goes_on
  set_flag (some false) name none none s = fails needs_argument
  set_flag (some false) name none (some v) s = set_to name v s takes_next

  -- FlagSet.parseOne
  unfoldable pub parse_one : Arg → Option Bytes → S → Parsed S
  parse_one positional next s = ends_before
  parse_one terminator next s = ends_behind
  parse_one malformed next s = fails bad_syntax
  parse_one (named name value) next s = set_flag (flags.is_bool name) name value next s

  -- The settings, and the arguments that are not flags.
  unfoldable pub parse_args : List Bytes → S → Result FlagError (S × List Bytes)
  parse_args [] s = ok (s, [])
  parse_args (a ∷ []) s = elim (parse_one (read_arg a) none s) [
    | ends_before ↦ ok (s, a ∷ [])
    | ends_behind ↦ ok (s, [])
    | fails e ↦ err e
    | goes_on t ↦ ok (t, [])
    | takes_next t ↦ ok (t, [])
  ]
  parse_args (a ∷ b ∷ rest) s = elim (parse_one (read_arg a) (some b) s) [
    | ends_before ↦ ok (s, a ∷ b ∷ rest)
    | ends_behind ↦ ok (s, b ∷ rest)
    | fails e ↦ err e
    | goes_on t ↦ parse_args (b ∷ rest) t
    | takes_next t ↦ parse_args rest t
  ]

  parse_one-value :
      (b : Bool) (name value : Bytes) (next : Option Bytes) (s t : S)
      → flags.is_bool name ≡ some b
      → flags.set name value s ≡ some t
      → parse_one (named name (some value)) next s ≡ goes_on t
  unfolding parse_one
  parse_one-value true name value next s t d e = rw (d, set_flag, set_to, e) refl
  parse_one-value false name value next s t d e = rw (d, set_flag, set_to, e) refl

  -- A flag written with its value is set, whatever stands behind it.
  pub parse_args-value :
      (a name value : Bytes) (rest : List Bytes) (s : S) {b : Bool} {t : S}
      → read_arg a ≡ named name (some value)
      → flags.is_bool name ≡ some b
      → flags.set name value s ≡ some t
      → parse_args (a ∷ rest) s ≡ parse_args rest t
  unfolding parse_args
  parse_args-value a name value [] s {b} {t} r d e =
      rw (r, parse_one-value b name value none s t d e, parse_args) refl
  parse_args-value a name value (n ∷ rest) s {b} {t} r d e =
      rw (r, parse_one-value b name value (some n) s t d e, parse_args) refl

  -- A flag that is not Boolean takes the argument behind it.
  pub parse_args-next :
      (a name value : Bytes) (rest : List Bytes) (s : S) {t : S}
      → read_arg a ≡ named name none
      → flags.is_bool name ≡ some false
      → flags.set name value s ≡ some t
      → parse_args (a ∷ value ∷ rest) s ≡ parse_args rest t
  unfolding parse_args parse_one
  parse_args-next a name value rest s r d e = rw (r, d, parse_one, e, parse_args) refl
