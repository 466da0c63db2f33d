-- ===== src/Auth/Store.antt =====
-- The key store over its life: the first load, reloads, and who is let in.
use simple_git_server.Base.{
  ℕ, ◌<◌, ◌≡◌, ◌≢◌, ◌⊎◌, refl, sym, ◌∙◌, Bool, true, false, List, [], ◌∷◌, arith, if◌then◌else◌,
  any, ◌==◌, Option, none, some, length, Bool-cases, inl, inr, ok, err,
}
use simple_git_server.Dict.{lookup, has_key}
use simple_git_server.Text.{Bytes, split}
use simple_git_server.Text.Laws.{equal_self}
use simple_git_server.Auth.{
  KeyLine, KeyStore, no_usable_keys, parse_authorized_keys, authorized, reload, new_key_store,
  public_key_callback,
}
use simple_git_server.Auth.Keys.{grants, has_key-parse_authorized_keys}

module _ {Key : Type 0} (marshal : Key → Bytes) (parse_line : Bytes → Option (KeyLine Key)) where
  -- Some line of the file grants the key.
  abbrev pub granted : Key → Bytes → Bool
  granted key raw = any (grants marshal parse_line (marshal key)) (split raw b'\n')

  -- The store after these reloads, each with what reading the file gave.
  abbrev pub reloads : KeyStore Key → List (Option Bytes) → KeyStore Key
  reloads store [] = store
  reloads store (read ∷ reads) = reloads (reload marshal parse_line store read).0 reads

  -- The last file that could be read, or else the one given.
  abbrev pub last_read : Option Bytes → List (Option Bytes) → Option Bytes
  last_read found [] = found
  last_read found (none ∷ reads) = last_read found reads
  last_read found (some raw ∷ reads) = last_read (some raw) reads

  -- The store answers for this file.
  abbrev pub Reflects : KeyStore Key → Option Bytes → Type 0
  Reflects store none = Unit
  Reflects store (some raw) =
      (key : Key) → authorized marshal parse_line store key ≡ granted key raw

  reload-Reflects :
      (store : KeyStore Key) (raw : Bytes)
      → Reflects (reload marshal parse_line store (some raw)).0 (some raw)
  unfolding reload authorized
  reload-Reflects store raw key = has_key-parse_authorized_keys marshal parse_line raw (marshal key)

  -- After any reloads of a store that answers for the file it last read, a key is let in exactly if
  -- a line of the last file that could be read grants it: an unreadable file changes nothing, and a
  -- file without that key revokes it, even one with no key at all.
  pub reloads-Reflects :
      (store : KeyStore Key) (found : Option Bytes) (reads : List (Option Bytes))
      → Reflects store found
      → Reflects (reloads store reads) (last_read found reads)
  reloads-Reflects store found [] h = h
  reloads-Reflects store found (none ∷ reads) h =
      reloads-Reflects (reload marshal parse_line store none).0 found reads (unfold reload in h)
  reloads-Reflects store found (some raw ∷ reads) h =
      reloads-Reflects (reload marshal parse_line store (some raw)).0 (some raw) reads
        (reload-Reflects store raw)

  has_key_some : (m : List (Bytes × Key)) → length m ≢ 0 → (j : Bytes) × (has_key j m ≡ true)
  unfolding has_key lookup
  has_key_some [] h = absurd (h refl)
  has_key_some ((j, v) ∷ m) h = (j, rw (equal_self j, has_key, lookup))

  -- The store of a first load.
  abbrev first_store : Bytes → Bytes → KeyStore Key
  first_store path raw = record {
    path = path;
    keys = some (parse_authorized_keys marshal parse_line raw);
  }

  empty_keys : (m : List (Bytes × Key)) → length m ≡ 0 → (j : Bytes) → has_key j m ≡ false
  unfolding has_key lookup
  empty_keys [] h j = refl
  empty_keys (x ∷ m) h j = absurd (omega arith)

  -- The first load of a file that can be read gives a store that answers for it, with its number of
  -- keys, if some line grants some key, and refuses to start if no line grants any.
  pub new_key_store-Reflects :
      (path raw : Bytes)
      → ((m : Bytes) × (store : KeyStore Key) × (n : ℕ) × (any
              (grants marshal parse_line m)
              (split raw b'\n')
            ≡ true)
          × (new_key_store marshal parse_line path (some raw) ≡ ok (store, n))
          × (0 < n)
          × Reflects store (some raw))
        ⊎ (((m : Bytes) → any (grants marshal parse_line m) (split raw b'\n') ≡ false)
            × (new_key_store marshal parse_line path (some raw) ≡ err no_usable_keys))
  unfolding new_key_store
  new_key_store-Reflects path raw =
      let keys = parse_authorized_keys marshal parse_line raw in
      let grant = has_key-parse_authorized_keys marshal parse_line raw in
      elim (Bool-cases (length keys == 0)) [
        | inl e ↦ inr (λ m. sym (grant m) ∙ empty_keys keys (ground arith) m, rw (e, new_key_store))
        | inr e ↦
            let (j, found) = has_key_some keys (λ z. ground arith) in
            inl (
              j,
              first_store path raw,
              length keys,
              sym (grant j) ∙ found,
              rw (e, new_key_store),
              ground arith,
              reload-Reflects (record { path = path; keys = none }) raw,
            )
      ]

  -- The callback lets a client in, with the fingerprint of its key, exactly if a line of the file
  -- that the store answers for grants that key.
  pub public_key_callback-granted :
      (fingerprint : Key → Bytes) (store : KeyStore Key) (raw user : Bytes) (key : Key)
      → Reflects store (some raw)
      → public_key_callback marshal parse_line fingerprint store user key
        ≡ (if granted key raw then ok (fingerprint key) else err user)
  unfolding public_key_callback
  public_key_callback-granted fingerprint store raw user key h = rw (h key)
