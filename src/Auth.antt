-- ===== src/Auth.antt =====
-- The authorized keys of cmd/ssh-read-write/auth.go. `ssh.ParseAuthorizedKey` and `Marshal` of the
-- SSH library, and what `os.ReadFile` answers, are parameters; a key is authorized by the bytes
-- that `Marshal` gives for it.
pub mod Options
pub mod Keys
pub mod Enforce
pub mod Store
pub mod Tests
use simple_git_server.Base.{
  ℕ, Bool, true, false, not, ◌||◌, List, [], ◌∷◌, ◌==◌, if◌then◌else◌, Option, none, some, any,
  head?, length, Result, ok, err,
}
use simple_git_server.Dict.{lookup, insert, has_key}
use simple_git_server.Text.{Bytes, codes, equal, before, split}
use simple_git_server.Text.Unicode.{trim_space, to_lower}

-- allowedOptions
abbrev pub allowed_options : List Bytes
allowed_options =
    codes "no-pty"
    ∷ codes "no-port-forwarding"
    ∷ codes "no-agent-forwarding"
    ∷ codes "no-x11-forwarding"
    ∷ codes "no-user-rc"
    ∷ codes "restrict"
    ∷ []

-- The name of an option, as it is looked up.
unfoldable pub option_name : Bytes → Bytes
option_name opt = before (to_lower (trim_space opt)) b'='

unfoldable pub is_allowed : Bytes → Bool
unfolding equal
is_allowed opt = any (λ a. equal a (option_name opt)) allowed_options

unfoldable pub unenforceable_options : List Bytes → List Bytes
unenforceable_options [] = []
unenforceable_options (opt ∷ opts) =
    let rest = unenforceable_options opts in if is_allowed opt then rest else opt ∷ rest

-- An empty line or a comment.
unfoldable pub is_skipped : Bytes → Bool
is_skipped [] = true
is_skipped (c ∷ s) = c == b'#'

pub data StoreError : Type 0 where
  no_usable_keys : StoreError
  unreadable : StoreError

-- What `ssh.ParseAuthorizedKey` reads in a line.
pub record KeyLine (Key : Type 0) : Type 0 where
  pub key : Key
  pub comment : Bytes
  pub options : List Bytes

pub record KeyStore (Key : Type 0) : Type 0 where
  pub path : Bytes
  pub keys : Option (List (Bytes × Key))

module _ {Key : Type 0} (marshal : Key → Bytes) (parse_line : Bytes → Option (KeyLine Key)) where
  -- The key is kept unless an option of its line cannot be enforced.
  unfoldable pub keep_key : KeyLine Key → List (Bytes × Key) → List (Bytes × Key)
  keep_key l out = elim (unenforceable_options l.options) [
    | [] ↦ insert (marshal l.key) l.key out
    | o ∷ os ↦ out
  ]

  -- One round of the loop, on a line without the blanks around it.
  unfoldable pub add_line : Bytes → List (Bytes × Key) → List (Bytes × Key)
  add_line line out =
      if is_skipped line
      then out
      else elim (parse_line line) [ none ↦ out | some l ↦ keep_key l out ]

  unfoldable pub add_lines : List Bytes → List (Bytes × Key) → List (Bytes × Key)
  add_lines [] out = out
  add_lines (line ∷ lines) out = add_lines lines (add_line (trim_space line) out)

  unfoldable pub parse_authorized_keys : Bytes → List (Bytes × Key)
  unfolding add_lines
  parse_authorized_keys raw = add_lines (split raw b'\n') []

  unfoldable pub authorized : KeyStore Key → Key → Bool
  authorized store key = elim (store.keys) [ none ↦ false | some m ↦ has_key (marshal key) m ]

  -- `reload`, where `read` is what reading the file gives.
  unfoldable pub reload : KeyStore Key → Option Bytes → KeyStore Key × Result StoreError ℕ
  reload store none = (store, err unreadable)
  reload store (some raw) =
      let keys = parse_authorized_keys raw in (record store { keys = some keys }, ok (length keys))

  unfoldable pub new_key_store : Bytes → Option Bytes → Result StoreError (KeyStore Key × ℕ)
  unfolding reload
  new_key_store path read =
      let (store, n) = reload (record { path = path; keys = none }) read in
      elim n [ err e ↦ err e | ok k ↦ if k == 0 then err no_usable_keys else ok (store, k) ]

  -- `publicKeyCallback`, where `fingerprint` is what goes into the permissions; an error is the
  -- user's name.
  unfoldable pub public_key_callback :
      (Key → Bytes) → KeyStore Key → Bytes → Key → Result Bytes Bytes
  public_key_callback fingerprint store user key =
      if authorized store key then ok (fingerprint key) else err user
