-- ===== src/Config/Limits.antt =====
-- The limits that `main` puts into the configuration.
use simple_git_server.Base.{
  ℕ, ◌≤◌, ◌≡◌, ◌↔◌, refl, false, ltb, Result, ok, ℤ, pos, negsuc, arith, Bool-cases, inl, inr,
}
use simple_git_server.Config.{ServerConfig, ConfigError, with_limits, max_request_body}

-- What the checked limits are, and where they went.
pub record Limited (concurrent idle body : ℤ) (old new : ServerConfig) : Type 0 where
  pub slots : ℕ
  pub timeout : ℕ
  pub most : ℕ
  pub concurrent_is : concurrent ≡ pos slots
  pub idle_is : idle ≡ pos timeout
  pub body_is : body ≡ pos most
  pub some_slot : 1 ≤ slots
  pub some_body : 1 ≤ most
  pub new_is : new ≡ record old {
    git_max_concurrent = slots;
    git_idle_timeout = timeout;
    git_max_request_body = most;
  }

same_config :
    {a b : ServerConfig} {r : Result ConfigError ServerConfig} → r ≡ ok a → r ≡ ok b → b ≡ a
same_config h k = cc

ltb-zero : (i : ℕ) → ltb i 0 ≡ false
ltb-zero i = ground arith

taken :
    (c i b : ℕ) (old : ServerConfig)
    → 1 ≤ c
    → 1 ≤ b
    → with_limits (pos c) (pos i) (pos b) old
      ≡ ok (record old { git_max_concurrent = c; git_idle_timeout = i; git_max_request_body = b })
unfolding with_limits
taken c i b old hc hb = ground arith

limited :
    (concurrent idle body : ℤ) (old new : ServerConfig)
    → with_limits concurrent idle body old ≡ ok new
    → Limited concurrent idle body old new
unfolding with_limits
limited (negsuc c) idle body old new h = cc h
limited (pos c) (negsuc i) body old new h = elim (Bool-cases (ltb c 1)) [
  | inl e ↦ cc (rw e at h)
  | inr e ↦ cc (rw e at h)
]
limited (pos c) (pos i) (negsuc b) old new h = elim (Bool-cases (ltb c 1)) [
  | inl e ↦ cc (rw e at h)
  | inr e ↦ cc (rw (e, ltb-zero i) at h)
]
limited (pos c) (pos i) (pos b) old new h = elim (Bool-cases (ltb c 1)) [
  | inl e ↦ cc (rw e at h)
  | inr e ↦ elim (Bool-cases (ltb b 1)) [
    | inl k ↦ cc (rw (e, ltb-zero i, k) at h)
    | inr k ↦ record {
      slots = c;
      timeout = i;
      most = b;
      concurrent_is = refl;
      idle_is = refl;
      body_is = refl;
      some_slot = ground arith;
      some_body = ground arith;
      new_is = same_config (taken c i b old (ground arith) (ground arith)) h;
    }
  ]
]

-- The limits are taken exactly if each is in its range, and then they are in the configuration.
pub with_limits-Limited_iff :
    (concurrent idle body : ℤ) (old new : ServerConfig)
    → (with_limits concurrent idle body old ≡ ok new) ↔ Limited concurrent idle body old new
with_limits-Limited_iff concurrent idle body old new = (
  limited concurrent idle body old new,
  λ l.
      rw (l.concurrent_is, l.idle_is, l.body_is, l.new_is)
        (taken l.slots l.timeout l.most old l.some_slot l.some_body),
)

-- The body of a request to a server with checked limits is cut at the configured length, never at
-- the default.
pub Limited-max_request_body :
    {concurrent idle body : ℤ} {old new : ServerConfig} (l : Limited concurrent idle body old new)
    → max_request_body new ≡ l.most
unfolding max_request_body
Limited-max_request_body l = rw l.new_is (ground (arith, l.some_body))
