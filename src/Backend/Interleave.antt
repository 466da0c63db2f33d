-- ===== src/Backend/Interleave.antt =====
-- Git requests at the same time: they arrive and end in any order, and share the semaphore.
use simple_git_server.Base.{
  ℕ, ◌+◌, ◌≤◌, ◌<◌, ◌≡◌, ◌⊎◌, inl, inr, refl, ap, sym, ◌∙◌, subst, true, false, List, [], ◌∷◌, ◌++◌,
  arith, ltb, length, length-append, Bool-cases, Option, none, some,
}
use simple_git_server.Text.{Bytes}
use simple_git_server.Containment.{FileSystem}
use simple_git_server.Config.{ServerConfig}
use simple_git_server.Backend.{
  HttpRequest, ServerEnv, Slots, release_slot, check_cgi_env_limits, serve_git,
}

-- The slots, and the requests that hold one.
pub record Load : Type 0 where
  pub slots : Slots
  pub holding : List HttpRequest

abbrev pub no_load : ℕ → Load
no_load size = record { slots = record { used = 0; size = size }; holding = [] }

module _ (fs : FileSystem) (look_path : Bytes → Option Bytes) (env : ServerEnv)
    (cfg : ServerConfig) where
  -- The slots while a request is served.
  abbrev pub taken : HttpRequest → Slots → Slots
  taken r slots = (serve_git fs look_path env cfg r slots).1

  -- A request arrives and holds a slot, or is answered without one, or one that holds a slot ends.
  pub data LoadStep (l m : Load) : Type 0 where
    holds :
        (r : HttpRequest)
        → ltb l.slots.used (taken r l.slots).used ≡ true
        → m ≡ record { slots = taken r l.slots; holding = r ∷ l.holding }
        → LoadStep l m
    passes :
        (r : HttpRequest)
        → ltb l.slots.used (taken r l.slots).used ≡ false
        → m ≡ record { slots = taken r l.slots; holding = l.holding }
        → LoadStep l m
    ends :
        (rs : List HttpRequest) (r : HttpRequest) (qs : List HttpRequest)
        → l.holding ≡ rs ++ (r ∷ qs)
        → m ≡ record { slots = release_slot l.slots; holding = rs ++ qs }
        → LoadStep l m

  pub data ReachableLoad (size : ℕ) : Load → Type 0 where
    idles : {l : Load} → l ≡ no_load size → ReachableLoad size l
    next_load : {l m : Load} → ReachableLoad size l → LoadStep l m → ReachableLoad size m

  taken-cases :
      (r : HttpRequest) (s : Slots)
      → ((serve_git fs look_path env cfg r s).1 ≡ s)
        ⊎ (((serve_git fs look_path env cfg r s).1 ≡ record s { used = s.used + 1 })
            × (s.used < s.size))
  unfolding serve_git
  taken-cases r s = go (check_cgi_env_limits r) refl
    where
      go :
          (o : Option (ℕ × Bytes))
          → check_cgi_env_limits r ≡ o
          → ((serve_git fs look_path env cfg r s).1 ≡ s)
            ⊎ (((serve_git fs look_path env cfg r s).1 ≡ record s { used = s.used + 1 })
                × (s.used < s.size))
      go (some (code, msg)) e = inl (rw (e, serve_git) refl)
      go none e = elim (Bool-cases (ltb s.used s.size)) [
        | inl l ↦ rw (e, l, serve_git) (inr (refl, ground (arith, l)))
        | inr l ↦ inl (rw (e, l, serve_git) refl)
      ]

  record Counted (size : ℕ) (l : Load) : Type 0 where
    used_is : l.slots.used ≡ length l.holding
    size_is : l.slots.size ≡ size
    within : l.slots.used ≤ size

  step-Counted : (size : ℕ) {l m : Load} → LoadStep l m → Counted size l → Counted size m
  unfolding release_slot
  step-Counted size {l} (holds r t e) c = elim (taken-cases r l.slots) [
    | inl k ↦ absurd (ground (arith, t, ap (λ (s : Slots). s.used) k))
    | inr (k, room) ↦
        let u : (taken r l.slots).used ≡ l.slots.used + 1 = ap (λ (s : Slots). s.used) k in
        subst (Counted size) (sym e) (record {
          used_is = omega (arith, u, c.used_is);
          size_is = ap (λ (s : Slots). s.size) k ∙ c.size_is;
          within = omega (arith, u, room, c.size_is);
        })
  ]
  step-Counted size {l} (passes r t e) c = elim (taken-cases r l.slots) [
    | inl k ↦
        let u : (taken r l.slots).used ≡ l.slots.used = ap (λ (s : Slots). s.used) k in
        subst (Counted size) (sym e) (record {
          used_is = omega (arith, u, c.used_is);
          size_is = ap (λ (s : Slots). s.size) k ∙ c.size_is;
          within = omega (arith, u, c.within);
        })
    | inr (k, room) ↦ absurd (ground (arith, t, ap (λ (s : Slots). s.used) k))
  ]
  step-Counted size {l} (ends rs r qs k e) c = subst (Counted size) (sym e) (record {
    used_is = omega (arith, c.used_is, ap length k, length-append rs (r ∷ qs), length-append rs qs);
    size_is = c.size_is;
    within = omega (arith, c.within);
  })

  reachable-Counted : (size : ℕ) {l : Load} → ReachableLoad size l → Counted size l
  reachable-Counted size (idles e) =
      subst (Counted size) (sym e) (record { used_is = refl; size_is = refl; within = omega arith })
  reachable-Counted size (next_load r s) = step-Counted size s (reachable-Counted size r)

  -- In whatever order requests arrive and end, there are as many slots in use as requests that hold
  -- one, never more than the size, and the size stays.
  pub ReachableLoad-slots :
      (size : ℕ) {l : Load}
      → ReachableLoad size l
      → (l.slots.used ≡ length l.holding) × (length l.holding ≤ size) × (l.slots.size ≡ size)
  ReachableLoad-slots size r =
      let c = reachable-Counted size r in (c.used_is, omega (arith, c.used_is, c.within), c.size_is)
