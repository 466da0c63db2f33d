-- ===== src/Auth/Enforce.antt =====
-- Which keys the options of their lines let in.
use simple_git_server.Base.{
  ◌≡◌, ◌↔◌, ◌⊎◌, inl, inr, refl, sym, ap, ◌∙◌, subst, Bool, true, false, ◌||◌, List, [], ◌∷◌, ◌++◌,
  arith, if◌then◌else◌, All, Bool-cases, ◌==◌, Option,
}
use simple_git_server.Dict.{has_key}
use simple_git_server.Text.{Bytes, codes, equal, before}
use simple_git_server.Text.Laws.{Lacks, equal_iff, before-append}
use simple_git_server.Text.Unicode.{trim_space, to_lower}
use simple_git_server.Auth.{KeyLine, option_name, is_allowed, keep_key}
use simple_git_server.Auth.Options.{all_allowed}
use simple_git_server.Auth.Keys.{has_key-keep_key}

-- The names of the options that the server can enforce, which grants no more than it does anyway.
pub data IsEnforced (name : Bytes) : Type 0 where
  no_pty : name ≡ codes "no-pty" → IsEnforced name
  no_port_forwarding : name ≡ codes "no-port-forwarding" → IsEnforced name
  no_agent_forwarding : name ≡ codes "no-agent-forwarding" → IsEnforced name
  no_x11_forwarding : name ≡ codes "no-x11-forwarding" → IsEnforced name
  no_user_rc : name ≡ codes "no-user-rc" → IsEnforced name
  restrict : name ≡ codes "restrict" → IsEnforced name

-- The option, trimmed and in lower case, is such a name, alone or with a value behind `=`.
pub record Enforceable (opt : Bytes) : Type 0 where
  pub name : Bytes
  pub enforced : IsEnforced name
  pub spelled :
      (to_lower (trim_space opt) ≡ name)
      ⊎ ((value : Bytes) × (to_lower (trim_space opt) ≡ name ++ (b'=' ∷ value)))

-- A text is what stands before a byte, and perhaps that byte with a rest.
before-cases : (s : Bytes) (b : _) → (s ≡ before s b) ⊎ ((v : Bytes) × (s ≡ before s b ++ (b ∷ v)))
unfolding before
before-cases [] b = inl refl
before-cases (c ∷ s) b = go (c == b) refl (before-cases s b)
  where
    go :
        (t : Bool)
        → (c == b) ≡ t
        → (s ≡ before s b) ⊎ ((v : Bytes) × (s ≡ before s b ++ (b ∷ v)))
        → (c ∷ s ≡ before (c ∷ s) b) ⊎ ((v : Bytes) × (c ∷ s ≡ before (c ∷ s) b ++ (b ∷ v)))
    go true e h = rw (e, before) (inr (s, ap (λ x. x ∷ s) (ground (arith, e))))
    go false e (inl h) = rw (e, before) (inl (ap (◌∷◌ c) h))
    go false e (inr (v, h)) = rw (e, before) (inr (v, ap (◌∷◌ c) h))

before_whole : (s : Bytes) (b : _) → Lacks b s → before s b ≡ s
unfolding before
before_whole [] b h = refl
before_whole (c ∷ s) b (n, h) = ground (arith, n, before_whole s b h)

IsEnforced-Lacks : (name : Bytes) → IsEnforced name → Lacks b'=' name
IsEnforced-Lacks name (no_pty e) = subst (Lacks b'=') (sym e) (omega arith)
IsEnforced-Lacks name (no_port_forwarding e) = subst (Lacks b'=') (sym e) (omega arith)
IsEnforced-Lacks name (no_agent_forwarding e) = subst (Lacks b'=') (sym e) (omega arith)
IsEnforced-Lacks name (no_x11_forwarding e) = subst (Lacks b'=') (sym e) (omega arith)
IsEnforced-Lacks name (no_user_rc e) = subst (Lacks b'=') (sym e) (omega arith)
IsEnforced-Lacks name (restrict e) = subst (Lacks b'=') (sym e) (omega arith)

-- The name that the code looks up is the name of the option.
option_name_is : (opt : Bytes) (h : Enforceable opt) → option_name opt ≡ h.name
unfolding option_name
option_name_is opt h = go h.spelled
  where
    go :
        (to_lower (trim_space opt) ≡ h.name)
          ⊎ ((value : Bytes) × (to_lower (trim_space opt) ≡ h.name ++ (b'=' ∷ value)))
        → before (to_lower (trim_space opt)) b'=' ≡ h.name
    go (inl e) =
        ap (λ s. before s b'=') e ∙ before_whole h.name b'=' (IsEnforced-Lacks h.name h.enforced)
    go (inr (v, e)) =
        ap (λ s. before s b'=') e ∙ before-append h.name v b'=' (IsEnforced-Lacks h.name h.enforced)

listed : (opt name : Bytes) → option_name opt ≡ name → IsEnforced name → is_allowed opt ≡ true
unfolding is_allowed equal
listed opt name e (no_pty n) = rw (e, n) refl
listed opt name e (no_port_forwarding n) = rw (e, n) refl
listed opt name e (no_agent_forwarding n) = rw (e, n) refl
listed opt name e (no_x11_forwarding n) = rw (e, n) refl
listed opt name e (no_user_rc n) = rw (e, n) refl
listed opt name e (restrict n) = rw (e, n) refl

-- What is on the allowlist of the code can be enforced.
unlisted : (opt : Bytes) → is_allowed opt ≡ true → IsEnforced (option_name opt)
unfolding is_allowed
unlisted opt h =
    let n = option_name opt in
    elim (Bool-cases (equal (codes "no-pty") n)) [
      | inl e ↦ no_pty (sym ((equal_iff (codes "no-pty") n).0 e))
      | inr a ↦ elim (Bool-cases (equal (codes "no-port-forwarding") n)) [
        | inl e ↦ no_port_forwarding (sym ((equal_iff (codes "no-port-forwarding") n).0 e))
        | inr b ↦ elim (Bool-cases (equal (codes "no-agent-forwarding") n)) [
          | inl e ↦ no_agent_forwarding (sym ((equal_iff (codes "no-agent-forwarding") n).0 e))
          | inr c ↦ elim (Bool-cases (equal (codes "no-x11-forwarding") n)) [
            | inl e ↦ no_x11_forwarding (sym ((equal_iff (codes "no-x11-forwarding") n).0 e))
            | inr d ↦ elim (Bool-cases (equal (codes "no-user-rc") n)) [
              | inl e ↦ no_user_rc (sym ((equal_iff (codes "no-user-rc") n).0 e))
              | inr f ↦ elim (Bool-cases (equal (codes "restrict") n)) [
                | inl e ↦ restrict (sym ((equal_iff (codes "restrict") n).0 e))
                | inr g ↦ cc (rw (a, b, c, d, f, g) at h)
              ]
            ]
          ]
        ]
      ]
    ]

is_allowed-Enforceable_iff : (opt : Bytes) → (is_allowed opt ≡ true) ↔ Enforceable opt
is_allowed-Enforceable_iff opt = (
  λ h. record {
    name = option_name opt;
    enforced = unlisted opt h;
    spelled = unfold option_name in before-cases (to_lower (trim_space opt)) b'=';
  },
  λ h. listed opt h.name (option_name_is opt h) h.enforced,
)

all_allowed-Enforceable_iff : (opts : List Bytes) → (all_allowed opts ≡ true) ↔ All Enforceable opts
all_allowed-Enforceable_iff [] = (λ h. tt, λ h. refl)
all_allowed-Enforceable_iff (opt ∷ opts) =
    let one = is_allowed-Enforceable_iff opt in
    let rest = all_allowed-Enforceable_iff opts in
    elim (Bool-cases (is_allowed opt)) [
      | inl e ↦ rw e (λ h. (one.0 e, rest.0 h), λ h. rest.1 h.1)
      | inr e ↦ rw e (λ h. cc, λ h. cc (sym e ∙ one.1 h.0))
    ]

either :
    {P : Type 0} (b c d : Bool)
    → (b ≡ true) ↔ P
    → (((if b then c else false) || d) ≡ true) ↔ ((P × (c ≡ true)) ⊎ (d ≡ true))
either true true d h = (λ e. inl (h.0 refl, refl), λ k. refl)
either true false d h = (λ e. inr e, λ k. elim k [ inl x ↦ cc (x.1) | inr e ↦ e ])
either false c d h = (λ e. inr e, λ k. elim k [ inl x ↦ cc (h.1 x.0) | inr e ↦ e ])

-- A key is in the set behind a line exactly if it was there before, or the line holds it and every
-- option of the line, trimmed and in lower case, is one of the six that only restrict, with or
-- without a value: any other option keeps the key of its line out.
pub keep_key-Enforceable_iff :
    {Key : Type 0} (marshal : Key → Bytes) (parse_line : Bytes → Option (KeyLine Key)) (key : Bytes)
    (line : KeyLine Key) (out : List (Bytes × Key))
    → (has_key key (keep_key marshal parse_line line out) ≡ true) ↔ (
        (All Enforceable line.options × (equal (marshal line.key) key ≡ true))
        ⊎ (has_key key out ≡ true))
keep_key-Enforceable_iff marshal parse_line key line out =
    subst
      (λ b. (b ≡ true) ↔ (
        (All Enforceable line.options × (equal (marshal line.key) key ≡ true))
        ⊎ (has_key key out ≡ true)))
      (sym (has_key-keep_key marshal parse_line key line out))
      (either (all_allowed line.options) (equal (marshal line.key) key) (has_key key out)
        (all_allowed-Enforceable_iff line.options))
