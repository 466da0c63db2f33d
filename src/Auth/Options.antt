-- ===== src/Auth/Options.antt =====
-- When no option of a line is unenforceable to the code.
use simple_git_server.Base.{
  ◌≡◌, ◌↔◌, inl, inr, refl, Bool, true, false, List, [], ◌∷◌, if◌then◌else◌, Bool-cases,
}
use simple_git_server.Text.{Bytes}
use simple_git_server.Auth.{is_allowed, unenforceable_options}

-- Every option is on the allowlist.
abbrev pub all_allowed : List Bytes → Bool
all_allowed [] = true
all_allowed (opt ∷ opts) = if is_allowed opt then all_allowed opts else false

pub unenforceable-nil_iff :
    (opts : List Bytes) → (unenforceable_options opts ≡ []) ↔ (all_allowed opts ≡ true)
unfolding unenforceable_options
unenforceable-nil_iff [] = (λ _. refl, λ _. refl)
unenforceable-nil_iff (opt ∷ opts) = elim (Bool-cases (is_allowed opt)) [
  | inl e ↦ rw e (unenforceable-nil_iff opts)
  | inr e ↦ rw e (λ h. cc, λ h. cc)
]
