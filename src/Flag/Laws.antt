-- ===== src/Flag/Laws.antt =====
-- The reading of one flag that a command declares, by its type.
use simple_git_server.Base.{ℕ, ◌≡◌, refl, Bool, true, false, List, ◌∷◌, none, some, ℤ}
use simple_git_server.Dict.{lookup}
use simple_git_server.Text.{Bytes}
use simple_git_server.Text.Numbers.{parse_bool, parse_int}
use simple_git_server.Duration.{parse_duration}
use simple_git_server.Flag.{
  read_arg, named, Kind, bool_flag, string_flag, int_flag, duration_flag, bool_kind, set_kind,
  flags_of, parse_args, parse_args-value, parse_args-next,
}

module _ {ℓ} {S : Type ℓ} (fraction : ℕ → Bytes → ℕ) (table : List (Bytes × Kind S)) where
  pub parse_args-string :
      (a name value : Bytes) (rest : List Bytes) (s : S) {g : Bytes → S → S}
      → read_arg a ≡ named name none
      → lookup name table ≡ some (string_flag g)
      → parse_args (flags_of fraction table) (a ∷ value ∷ rest) s
        ≡ parse_args (flags_of fraction table) rest (g value s)
  unfolding flags_of
  parse_args-string a name value rest s r e =
      parse_args-next (flags_of fraction table) a name value rest s r (rw (e, bool_kind) refl)
        (rw (e, set_kind) refl)

  pub parse_args-bool :
      (a name value : Bytes) (rest : List Bytes) (s : S) {g : Bool → S → S} {b : Bool}
      → read_arg a ≡ named name (some value)
      → lookup name table ≡ some (bool_flag g)
      → parse_bool value ≡ some b
      → parse_args (flags_of fraction table) (a ∷ rest) s
        ≡ parse_args (flags_of fraction table) rest (g b s)
  unfolding flags_of
  parse_args-bool a name value rest s r e v =
      parse_args-value (flags_of fraction table) a name value rest s {b = true} r
        (rw (e, bool_kind) refl) (rw (e, set_kind, v) refl)

  pub parse_args-int :
      (a name value : Bytes) (rest : List Bytes) (s : S) {g : ℤ → S → S} {n : ℤ}
      → read_arg a ≡ named name (some value)
      → lookup name table ≡ some (int_flag g)
      → parse_int value ≡ some n
      → parse_args (flags_of fraction table) (a ∷ rest) s
        ≡ parse_args (flags_of fraction table) rest (g n s)
  unfolding flags_of
  parse_args-int a name value rest s r e v =
      parse_args-value (flags_of fraction table) a name value rest s {b = false} r
        (rw (e, bool_kind) refl) (rw (e, set_kind, v) refl)

  pub parse_args-duration :
      (a name value : Bytes) (rest : List Bytes) (s : S) {g : ℤ → S → S} {d : ℤ}
      → read_arg a ≡ named name (some value)
      → lookup name table ≡ some (duration_flag g)
      → parse_duration fraction value ≡ some d
      → parse_args (flags_of fraction table) (a ∷ rest) s
        ≡ parse_args (flags_of fraction table) rest (g d s)
  unfolding flags_of
  parse_args-duration a name value rest s r e v =
      parse_args-value (flags_of fraction table) a name value rest s {b = false} r
        (rw (e, bool_kind) refl) (rw (e, set_kind, v) refl)
