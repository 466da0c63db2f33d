-- ===== src/Shutdown/Waiting.antt =====
-- Waiting for the git commands: the loop ends in time, and what its end means.
use simple_git_server.Base.{
  ℕ, zero, suc, ◌+◌, ◌*◌, ◌/◌, ◌≤◌, ◌<◌, ◌≡◌, refl, some, ltb, arith, Bool-cases, inl, inr, lt→ltb,
  le→ltb, ltb→lt,
}
use simple_git_server.Shutdown.{
  poll_interval, WaitEnd, all_gone, gave_up, wait_loop, wait_for_git_commands, end_time,
}

-- What is true when the wait ends: no command is left, or some are and the deadline has passed.
abbrev pub Settled : (ℕ → ℕ) → ℕ → WaitEnd → Type 0
Settled active deadline (all_gone t) = active t ≡ 0
Settled active deadline (gave_up t n) = (active t ≡ n) × (0 < n) × (deadline < t)

module _ (active lag : ℕ → ℕ) (most : ℕ) (lags : (t : ℕ) → lag t ≤ most) where
  loop_ends :
      (fuel deadline now : ℕ)
      → deadline < now + fuel * poll_interval
      → now ≤ deadline + poll_interval + most
      → (w : WaitEnd) × (wait_loop active lag (suc fuel) deadline now ≡ some w)
        × Settled active deadline w
        × (end_time w ≤ deadline + poll_interval + most)
  unfolding wait_loop
  loop_ends zero deadline now enough bound = elim (Bool-cases (ltb 0 (active now))) [
    | inr e ↦ rw e (all_gone now, refl, ground (arith, e), bound)
    | inl e ↦
        let over : deadline < now = omega arith in
        rw (e, lt→ltb deadline now over)
          (gave_up now (active now), refl, (refl, ground (arith, e), over), bound)
  ]
  loop_ends (suc f) deadline now enough bound = elim (Bool-cases (ltb 0 (active now))) [
    | inr e ↦ rw e (all_gone now, refl, ground (arith, e), bound)
    | inl e ↦ rw e (elim (Bool-cases (ltb deadline now)) [
      | inl d ↦
          rw d (gave_up now (active now), refl, (refl, ground (arith, e), ground (arith, d)), bound)
      | inr d ↦
          let before : now ≤ deadline = ground (arith, d) in
          rw d (
            loop_ends f deadline (now + poll_interval + lag now) (omega arith)
              (omega (arith, lags now)))
    ])
  ]

  -- The wait for the git commands always ends, no later than a sleep behind its deadline (with
  -- `most` the longest lag of a sleep): either no command is left, or some are left and the
  -- deadline has passed.
  pub wait_for_git_commands-ends :
      (d now : ℕ)
      → (w : WaitEnd) × (wait_for_git_commands active lag d now ≡ some w)
        × Settled active (now + d) w
        × (end_time w ≤ now + d + poll_interval + most)
  unfolding wait_for_git_commands
  wait_for_git_commands-ends d now =
      loop_ends (suc (d / poll_interval)) (now + d) now (omega arith) (omega arith)

  loop_finds :
      (fuel deadline now gone : ℕ)
      → ((t : ℕ) → gone ≤ t → active t ≡ 0)
      → gone ≤ deadline
      → gone < now + fuel * poll_interval
      → now ≤ gone + poll_interval + most
      → (t : ℕ) × (wait_loop active lag (suc fuel) deadline now ≡ some (all_gone t))
        × (t ≤ gone + poll_interval + most)
  unfolding wait_loop
  loop_finds zero deadline now gone none_left within enough bound =
      rw (none_left now (omega arith)) (now, refl, bound)
  loop_finds (suc f) deadline now gone none_left within enough bound =
      elim (Bool-cases (ltb 0 (active now))) [
        | inr e ↦ rw e (now, refl, bound)
        | inl e ↦ elim (Bool-cases (ltb now gone)) [
          | inr late ↦ absurd (ground (arith, e, late, none_left now))
          | inl b ↦
              let early : now < gone = ltb→lt now gone b in
              rw (e, le→ltb deadline now (omega arith))
                (loop_finds f deadline (now + poll_interval + lag now) gone none_left within
                  (omega arith) (omega (arith, lags now)))
        ]
      ]

  -- If no git command runs from some time within the grace on, the wait ends because of that, at
  -- most one sleep behind that time.
  pub wait_for_git_commands-finds :
      (d now gone : ℕ)
      → ((t : ℕ) → gone ≤ t → active t ≡ 0)
      → now ≤ gone
      → gone ≤ now + d
      → (t : ℕ) × (wait_for_git_commands active lag d now ≡ some (all_gone t))
        × (t ≤ gone + poll_interval + most)
  unfolding wait_for_git_commands
  wait_for_git_commands-finds d now gone none_left after within =
      loop_finds (suc (d / poll_interval)) (now + d) now gone none_left within (omega arith)
        (omega arith)
