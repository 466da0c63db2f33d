-- ===== src/Supervise/Stop.antt =====
-- Stopping the supervised SSH server: `stop` returns, and the process is gone.
use simple_git_server.Base.{
  ℕ, ◌+◌, ◌≤◌, ◌≡◌, ◌≢◌, refl, Bool, ◌||◌, ◌&&◌, ◌==◌, List, [], ◌∷◌, Option, none, some, ltb, min,
  arith, Bool-cases, inl, inr,
}
use simple_git_server.Supervise.{
  Done, running, reported, taken, Signal, sigterm, sigkill, Process, Stopping, returns, await_end,
  stop_child,
}

-- The process does not end before the timeout when it is asked to.
abbrev pub Outlives : ℕ → Option ℕ → Type 0
Outlives timeout none = Unit
Outlives timeout (some t) = timeout ≤ t

-- How a running process came to its end after some time: on SIGTERM within the timeout, or on
-- SIGKILL because it had not ended until then.
pub data Ended (timeout : ℕ) (p : Process) (sent : List Signal) (t : ℕ) : Type 0 where
  by_itself : sent ≡ sigterm ∷ [] → p.on_term ≡ some t → t ≤ timeout → Ended timeout p sent t
  killed :
      sent ≡ sigterm ∷ sigkill ∷ []
      → timeout ≤ t
      → t ≤ timeout + p.on_kill
      → Outlives timeout p.on_term
      → Ended timeout p sent t

-- The process is stopped: `stop` returns after that time, with its end taken out of the channel.
pub record Stopped (timeout : ℕ) (p : Process) (s : Stopping) : Type 0 where
  pub sent : List Signal
  pub after : ℕ
  pub stopping_is : s ≡ returns sent after taken
  pub ended : Ended timeout p sent after

await-Stopped :
    (timeout : ℕ) (late : Bool) (p : Process) (o : Option ℕ)
    → p.on_term ≡ o
    → Stopped timeout p (await_end timeout late p o)
await-Stopped timeout late p none e = record {
  sent = sigterm ∷ sigkill ∷ [];
  after = timeout + p.on_kill;
  stopping_is = refl;
  ended = killed refl (omega arith) (omega arith) (rw e tt);
}
await-Stopped timeout late p (some t) e =
    elim (Bool-cases (ltb t timeout || (t == timeout && late))) [
      | inl b ↦ record {
        sent = sigterm ∷ [];
        after = t;
        stopping_is = rw b refl;
        ended = by_itself refl e (ground (arith, b));
      }
      | inr b ↦
          let over : timeout ≤ t = ground (arith, b) in
          record {
            sent = sigterm ∷ sigkill ∷ [];
            after = min t (timeout + p.on_kill);
            stopping_is = rw b refl;
            ended = killed refl (ground (arith, over)) (ground (arith, over)) (rw e over);
          }
    ]

-- A running child is always stopped, no later than the timeout and the time that SIGKILL takes: by
-- SIGTERM alone if it ends within the timeout, and by SIGKILL only if it has not.
pub stop_child-running :
    (timeout : ℕ) (late : Bool) (p : Process)
    → Stopped timeout p (stop_child timeout late p (some running))
unfolding stop_child
stop_child-running timeout late p = await-Stopped timeout late p p.on_term refl

-- `stop` returns unless the end of the child was taken out of its channel before.
pub stop_child-returns :
    (timeout : ℕ) (late : Bool) (p : Process) (d : Done)
    → d ≢ taken
    → (sent : List Signal) × (t : ℕ) × (stop_child timeout late p (some d) ≡ returns sent t taken)
      × (t ≤ timeout + p.on_kill)
stop_child-returns timeout late p running h = go (stop_child-running timeout late p)
  where
    bound : {sent : List Signal} {t : ℕ} → Ended timeout p sent t → t ≤ timeout + p.on_kill
    bound (by_itself e o b) = omega arith
    bound (killed e a b o) = b

    go :
        Stopped timeout p (stop_child timeout late p (some running))
        → (sent : List Signal) × (t : ℕ) × (stop_child timeout late p (some running)
            ≡ returns sent t taken)
          × (t ≤ timeout + p.on_kill)
    go s = (s.sent, s.after, s.stopping_is, bound s.ended)
stop_child-returns timeout late p reported h = ([], 0, unfold stop_child in refl, omega arith)
stop_child-returns timeout late p taken h = absurd (h refl)
