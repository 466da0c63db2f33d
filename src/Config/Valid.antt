-- ===== src/Config/Valid.antt =====
-- Which flags `buildConfig` accepts.
use simple_git_server.Base.{
  ◌≡◌, ◌↔◌, ◌⊎◌, inl, inr, refl, true, false, ◌||◌, [], arith, Result, ok, err, Bool-cases,
}
use simple_git_server.Text.{Bytes, equal}
use simple_git_server.Containment.{FsError, FileSystem, FileKind}
use simple_git_server.Config.{
  SshReadWriteOptions, Flags, ServerConfig, ConfigError, is_blank, check_file, check_listeners,
  check_ssh, config_of, build_config, host_key_file, authorized_keys_file,
}

-- The file is there.
abbrev pub Exists : FileSystem → Bytes → Type 0
Exists fs path = (k : FileKind) × (fs.stat path ≡ ok k)

-- What the flags need to name for the listeners that they enable.
pub record HasListeners (f : Flags) : Type 0 where
  pub serves : (f.enable_http_read || f.enable_https_read || f.ssh.enable) ≡ true
  pub cert : f.enable_https_read ≡ true → equal f.https_cert [] ≡ false
  pub key : f.enable_https_read ≡ true → equal f.https_key [] ≡ false
  pub domain : f.enable_go_import ≡ true → is_blank f.go_import_domain ≡ false
  pub http_writes : f.http_write.enable ≡ true → (f.enable_http_read || f.enable_https_read) ≡ true
  pub ssh_writes : f.ssh.enable_ssh_write ≡ true → f.ssh.enable ≡ true

pub record HasKeys (fs : FileSystem) (s : SshReadWriteOptions) : Type 0 where
  pub host_key : is_blank s.host_key ≡ false
  pub authorized_keys : is_blank s.authorized_keys ≡ false
  pub host_key_there : Exists fs s.host_key
  pub authorized_keys_there : Exists fs s.authorized_keys

listeners_there : (f : Flags) → check_listeners f ≡ ok tt → HasListeners f
unfolding check_listeners
listeners_there f h = record {
  serves = ground arith;
  cert = λ e. ground arith;
  key = λ e. ground arith;
  domain = λ e. ground arith;
  http_writes = λ e. ground arith;
  ssh_writes = λ e. ground arith;
}

listeners_back : (f : Flags) → HasListeners f → check_listeners f ≡ ok tt
unfolding check_listeners
listeners_back f h = ground arith

file_there :
    (fs : FileSystem) (path : Bytes) (e : ConfigError)
    → check_file fs path e ≡ ok tt
    → Exists fs path
unfolding check_file
file_there fs path e h = go (fs.stat path) refl
  where
    go : (r : Result FsError FileKind) → fs.stat path ≡ r → Exists fs path
    go (ok k) x = (k, x)
    go (err x) y = cc (rw (y, check_file) at h)

file_back :
    (fs : FileSystem) (path : Bytes) (e : ConfigError)
    → Exists fs path
    → check_file fs path e ≡ ok tt
unfolding check_file
file_back fs path e (k, x) = rw (x, check_file)

check_file-cases :
    (fs : FileSystem) (path : Bytes) (e : ConfigError)
    → (check_file fs path e ≡ ok tt) ⊎ (check_file fs path e ≡ err e)
unfolding check_file
check_file-cases fs path e = go (fs.stat path) refl
  where
    go :
        (r : Result FsError FileKind)
        → fs.stat path ≡ r
        → (check_file fs path e ≡ ok tt) ⊎ (check_file fs path e ≡ err e)
    go (ok k) x = inl (rw (x, check_file))
    go (err y) x = inr (rw (x, check_file))

keys_there :
    (fs : FileSystem) (s : SshReadWriteOptions)
    → check_ssh fs s ≡ ok tt
    → s.enable ≡ true
    → HasKeys fs s
unfolding check_ssh
keys_there fs s h e = record {
  host_key = ground arith;
  authorized_keys = ground arith;
  host_key_there = file_there fs s.host_key host_key_file (ground arith);
  authorized_keys_there = file_there fs s.authorized_keys authorized_keys_file (ground arith);
}

keys_back :
    (fs : FileSystem) (s : SshReadWriteOptions)
    → (s.enable ≡ true → HasKeys fs s)
    → check_ssh fs s ≡ ok tt
unfolding check_ssh
keys_back fs s h = elim (Bool-cases s.enable) [
  | inr e ↦ ground arith
  | inl e ↦
      let k = h e in
      ground (
        arith,
        k.host_key,
        k.authorized_keys,
        file_back fs s.host_key host_key_file k.host_key_there,
        file_back fs s.authorized_keys authorized_keys_file k.authorized_keys_there,
      )
]

-- The flags are accepted, and give the configuration that they spell, exactly if every listener and
-- every capability that they enable has what it needs: something is served, HTTPS has a
-- certificate and a key, go-import has a domain, HTTP push has an HTTP or HTTPS listener, SSH push
-- has the SSH listener, and that has two key files that exist.
pub build_config_iff :
    (fs : FileSystem) (f : Flags)
    → (build_config fs f ≡ ok (config_of f))
      ↔ (HasListeners f × (f.ssh.enable ≡ true → HasKeys fs f.ssh))
unfolding build_config
build_config_iff fs f = (
  λ h. (listeners_there f (first h), λ e. keys_there fs f.ssh (second h) e),
  λ v. rw (listeners_back f v.0, keys_back fs f.ssh v.1),
)
  where
    first : build_config fs f ≡ ok (config_of f) → check_listeners f ≡ ok tt
    first h = ground arith

    second : build_config fs f ≡ ok (config_of f) → check_ssh fs f.ssh ≡ ok tt
    second h = ground arith

-- A configuration that is built is the one that the flags spell.
pub build_config_only :
    (fs : FileSystem) (f : Flags) {c : ServerConfig} → build_config fs f ≡ ok c → c ≡ config_of f
unfolding build_config
build_config_only fs f h = ground arith
