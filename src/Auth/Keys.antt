-- ===== src/Auth/Keys.antt =====
-- What `parseAuthorizedKeys` makes of a file, line by line.
use simple_git_server.Base.{
  ◌≡◌, refl, sym, ap, ◌∙◌, Bool, false, ◌||◌, List, [], ◌∷◌, arith, if◌then◌else◌, any, Option,
  none, some, Bool-cases, inl, inr,
}
use simple_git_server.Dict.{lookup, insert, has_key, lookup-insert}
use simple_git_server.Text.{Bytes, equal, split}
use simple_git_server.Text.Unicode.{trim_space}
use simple_git_server.Auth.{
  KeyLine, is_skipped, unenforceable_options, keep_key, add_line, add_lines, parse_authorized_keys,
}
use simple_git_server.Auth.Options.{all_allowed, unenforceable-nil_iff}

has_key-insert {ℓ} :
    {V : Type ℓ} (k j : Bytes) (v : V) (m : List (Bytes × V))
    → has_key j (insert k v m) ≡ (equal k j || has_key j m)
unfolding has_key
has_key-insert k j v m = rw (lookup-insert k j v m, has_key) (ground arith)

module _ {Key : Type 0} (marshal : Key → Bytes) (parse_line : Bytes → Option (KeyLine Key)) where
  -- The line holds a key with these bytes, all of whose options are on the allowlist.
  abbrev pub grants : Bytes → Bytes → Bool
  grants m line =
      if is_skipped (trim_space line) then false else elim (parse_line (trim_space line)) [
        | none ↦ false
        | some l ↦ if all_allowed l.options then equal (marshal l.key) m else false
      ]

  pub has_key-keep_key :
      (m : Bytes) (l : KeyLine Key) (out : List (Bytes × Key))
      → has_key m (keep_key marshal parse_line l out)
        ≡ ((if all_allowed l.options then equal (marshal l.key) m else false) || has_key m out)
  unfolding keep_key
  has_key-keep_key m l out = go (unenforceable_options l.options) refl
    where
      go :
          (os : List Bytes)
          → unenforceable_options l.options ≡ os
          → has_key m (keep_key marshal parse_line l out)
            ≡ ((if all_allowed l.options then equal (marshal l.key) m else false) || has_key m out)
      go [] e =
          rw (e, keep_key)
            (rw ((unenforceable-nil_iff l.options).0 e)
              (has_key-insert (marshal l.key) m l.key out))
      go (o ∷ os) e = elim (Bool-cases (all_allowed l.options)) [
        | inl a ↦ cc (sym e ∙ (unenforceable-nil_iff l.options).1 a)
        | inr a ↦ rw (e, keep_key) (rw a)
      ]

  has_key-add_line :
      (m line : Bytes) (out : List (Bytes × Key))
      → has_key m (add_line marshal parse_line (trim_space line) out)
        ≡ (grants m line || has_key m out)
  unfolding add_line
  has_key-add_line m line out = elim (Bool-cases (is_skipped (trim_space line))) [
    | inl e ↦ rw (e, add_line)
    | inr e ↦ rw (e, add_line) (go (parse_line (trim_space line)))
  ]
    where
      go :
          (o : Option (KeyLine Key))
          → has_key m (elim o as (λ _. List (Bytes × Key)) [
            | none ↦ out
            | some l ↦ keep_key marshal parse_line l out
          ])
            ≡ (elim o as (λ _. Bool) [
              | none ↦ false
              | some l ↦ if all_allowed l.options then equal (marshal l.key) m else false
            ]
                || has_key m out)
      go none = refl
      go (some l) = has_key-keep_key m l out

  has_key-add_lines :
      (m : Bytes) (lines : List Bytes) (out : List (Bytes × Key))
      → has_key m (add_lines marshal parse_line lines out) ≡ (any (grants m) lines || has_key m out)
  unfolding add_lines
  has_key-add_lines m [] out = refl
  has_key-add_lines m (line ∷ lines) out =
      has_key-add_lines m lines (add_line marshal parse_line (trim_space line) out)
      ∙ ap (λ b. any (grants m) lines || b) (has_key-add_line m line out)
      ∙ shuffle (any (grants m) lines) (grants m line) (has_key m out)
    where
      shuffle : (a b c : Bool) → (a || (b || c)) ≡ ((b || a) || c)
      shuffle a b c = ground arith

  -- A key is in the set that a file yields exactly if some line of the file grants it.
  pub has_key-parse_authorized_keys :
      (raw m : Bytes)
      → has_key m (parse_authorized_keys marshal parse_line raw) ≡ any (grants m) (split raw b'\n')
  unfolding parse_authorized_keys
  has_key-parse_authorized_keys raw m =
      has_key-add_lines m (split raw b'\n') [] ∙ unfold has_key lookup in ground arith
