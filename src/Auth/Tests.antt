-- ===== src/Auth/Tests.antt =====
-- Runs of the key store with a toy reader of key lines, and instances of its theorems.
use simple_git_server.Base.{◌≡◌, ◌↔◌, ◌⊎◌, refl, true, false, [], ◌∷◌, All, Option, none, some, err}
use simple_git_server.Dict.{lookup, insert, has_key}
use simple_git_server.Text.{Bytes, codes, equal, before, split, after?}
use simple_git_server.Text.Unicode.{trim_space, to_lower}
use simple_git_server.Auth.{
  KeyLine, KeyStore, option_name, is_allowed, is_skipped, unenforceable_options, keep_key, add_line,
  parse_authorized_keys, authorized, reload, new_key_store, no_usable_keys,
}
use simple_git_server.Auth.Enforce.{Enforceable, keep_key-Enforceable_iff}
use simple_git_server.Auth.Store.{Reflects, reloads-Reflects}

-- A line is an option, a blank and a key, or a key alone.
abbrev read_line : Bytes → Option (KeyLine Bytes)
read_line s = elim (after? s b' ') [
  | none ↦ some (record { key = s; comment = []; options = [] })
  | some k ↦ some (record { key = k; comment = []; options = before s b' ' ∷ [] })
]

abbrev same : Bytes → Bytes
same k = k

abbrev file : Bytes
file = codes "# keys\n Restrict k1 \ncommand=x k2\n\nk3"

abbrev blank : KeyStore Bytes
blank = record { path = codes "/keys"; keys = none }

abbrev loaded : KeyStore Bytes
loaded = (reload same read_line blank (some file)).0

who :
    (authorized same read_line loaded (codes "k1") ≡ true)
    × (authorized same read_line loaded (codes "k2") ≡ false)
    × (authorized same read_line loaded (codes "k3") ≡ true)
unfolding reload parse_authorized_keys add_line keep_key authorized has_key lookup insert is_skipped
    unenforceable_options is_allowed option_name before split trim_space to_lower after?
who = (refl, refl, refl)

revoked :
    new_key_store same read_line (codes "/keys") (some (codes "command=x k2\n"))
    ≡ err no_usable_keys
unfolding new_key_store parse_authorized_keys add_line keep_key has_key lookup insert is_skipped
    unenforceable_options is_allowed option_name before split trim_space to_lower after?
revoked = refl

abbrev shouted : KeyLine Bytes
shouted = record { key = codes "k1"; comment = []; options = codes " NO-PTY" ∷ codes "from=x" ∷ [] }

keep_key-Enforceable_iff_example :
    (has_key (codes "k1") (keep_key same read_line shouted []) ≡ true) ↔ (
      (All Enforceable shouted.options × (equal (same shouted.key) (codes "k1") ≡ true))
      ⊎ (has_key {V = Bytes} (codes "k1") [] ≡ true))
keep_key-Enforceable_iff_example = keep_key-Enforceable_iff same read_line (codes "k1") shouted []

loaded-Reflects : Reflects same read_line loaded (some file)
loaded-Reflects = reloads-Reflects same read_line blank none (some file ∷ []) tt
