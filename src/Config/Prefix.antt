-- ===== src/Config/Prefix.antt =====
-- The prefix of the git endpoints.
use simple_git_server.Base.{
  ◌≡◌, ap, ◌∙◌, true, [], ◌∷◌, ◌++◌, if◌then◌else◌, Bool-cases, inl, inr, append_assoc,
}
use simple_git_server.Text.{Bytes, equal, has_prefix, has_suffix}
use simple_git_server.Text.Laws.{has_prefix-append, has_suffix-append, has_prefix_sound}
use simple_git_server.GitPath.{root_path}
use simple_git_server.Config.{normalize_prefix}

-- The prefix begins and ends with a separator.
pub record IsPrefix (p : Bytes) : Type 0 where
  pub begins : has_prefix p root_path ≡ true
  pub ends : has_suffix p root_path ≡ true

has_prefix_grow : (s t p : Bytes) → has_prefix s p ≡ true → has_prefix (s ++ t) p ≡ true
has_prefix_grow s t p h =
    ap (λ x. has_prefix (x ++ t) p) (has_prefix_sound s p h)
    ∙ ap (λ x. has_prefix x p) (append_assoc p _ t)
    ∙ has_prefix-append p _

lead : Bytes → Bytes
lead p = if has_prefix p root_path then p else root_path ++ p

lead_begins : (p : Bytes) → has_prefix (lead p) root_path ≡ true
unfolding lead
lead_begins p = elim (Bool-cases (has_prefix p root_path)) [
  | inl e ↦ rw e e
  | inr e ↦ rw e (has_prefix-append root_path p)
]

-- Whatever the flag, the prefix in use begins and ends with `/`.
pub normalize_prefix-IsPrefix : (p : Bytes) → IsPrefix (normalize_prefix p)
unfolding normalize_prefix lead
normalize_prefix-IsPrefix p = go (lead (if equal p [] then root_path else p)) (lead_begins _)
  where
    go :
        (led : Bytes)
        → has_prefix led root_path ≡ true
        → IsPrefix (if has_suffix led root_path then led else led ++ root_path)
    go led h = elim (Bool-cases (has_suffix led root_path)) [
      | inl e ↦ rw e (record { begins = h; ends = e })
      | inr e ↦ rw e (record {
        begins = has_prefix_grow led root_path root_path h;
        ends = has_suffix-append led root_path;
      })
    ]

not-IsPrefix-nil : ¬ IsPrefix []
unfolding has_prefix
not-IsPrefix-nil h = cc h.begins

-- A prefix that begins and ends with `/` is used as it is.
pub normalize_prefix_kept : (p : Bytes) → IsPrefix p → normalize_prefix p ≡ p
unfolding normalize_prefix equal has_suffix
normalize_prefix_kept [] h = absurd (not-IsPrefix-nil h)
normalize_prefix_kept (c ∷ p) h = rw (h.begins, equal) (rw h.ends)
