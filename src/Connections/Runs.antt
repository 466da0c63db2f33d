-- ===== src/Connections/Runs.antt =====
-- A run of `handleConn` is a sequence of the steps of a connection.
use simple_git_server.Base.{
  ℕ, ◌≡◌, refl, sym, ap, ◌∙◌, Bool, true, false, List, [], ◌∷◌, ◌++◌, Option, none, some,
  Bool-cases, inl, inr,
}
use simple_git_server.Connections.{Phase, waiting, running, finished, Conn, begin, end, end_session}
use simple_git_server.Connections.Steps.{
  Step, Reachable, next, opens, starts, stops, gives_up, leaves, ticks,
}
use simple_git_server.Connections.Handle.{
  ConnEvent, channel_opened, git_started, git_ended, session_left, ticked, is_waiting, is_running,
  is_at_rest, behind, put_first, with_goroutines, tick_conn, on_conn_event, conn_after,
}

-- The phase that is replaced, and what stands before it and behind it.
record Replaced (p : Phase → Bool) (new gs hs : List Phase) : Type 0 where
  before : List Phase
  phase : Phase
  rest : List Phase
  passes : p phase ≡ true
  was : gs ≡ before ++ (phase ∷ rest)
  becomes : hs ≡ before ++ (new ++ rest)

behind-Replaced :
    (p : Phase → Bool) (new : List Phase) (g : Phase) (gs : List Phase) {hs : List Phase}
    → (o : Option (List Phase)) → ((ks : List Phase) → o ≡ some ks → Replaced p new gs ks)
    → behind g o ≡ some hs
    → Replaced p new (g ∷ gs) hs
behind-Replaced p new g gs none k h = cc
behind-Replaced p new g gs {hs} (some ks) k h =
    let r = k ks refl in
    let e : g ∷ ks ≡ hs = cc in
    record {
      before = g ∷ r.before;
      phase = r.phase;
      rest = r.rest;
      passes = r.passes;
      was = ap (◌∷◌ g) r.was;
      becomes = sym e ∙ ap (◌∷◌ g) r.becomes;
    }

put_first-Replaced :
    (p : Phase → Bool) (new gs hs : List Phase)
    → put_first p new gs ≡ some hs
    → Replaced p new gs hs
put_first-Replaced p new [] hs h = cc
put_first-Replaced p new (g ∷ gs) hs h = elim (Bool-cases (p g)) [
  | inl e ↦ record {
    before = [];
    phase = g;
    rest = gs;
    passes = e;
    was = refl;
    becomes = cc (rw e at h);
  }
  | inr e ↦
      behind-Replaced p new g gs (put_first p new gs) (put_first-Replaced p new gs) (rw e at h)
]

module _ (idle : ℕ) {c : Conn} (r : Reachable idle c) where
  -- An event that moves one session is a step, or changes nothing if no session can move.
  moves :
      (d : Conn) (p : Phase → Bool) (new : List Phase)
      → ((hs : List Phase)
          → Replaced p new c.goroutines hs
          → Step idle c (record d { goroutines = hs }))
      → Reachable idle (with_goroutines c d (put_first p new c.goroutines))
  moves d p new k = go (put_first p new c.goroutines) refl
    where
      go :
          (o : Option (List Phase))
          → put_first p new c.goroutines ≡ o
          → Reachable idle (with_goroutines c d o)
      go none e = r
      go (some hs) e = next r (k hs (put_first-Replaced p new c.goroutines hs e))

  starts_first :
      (hs : List Phase)
      → Replaced is_waiting (running ∷ []) c.goroutines hs
      → Step idle c (record (begin c) { goroutines = hs })
  starts_first hs k = go k.phase k.passes k.was
    where
      go :
          (q : Phase)
          → is_waiting q ≡ true
          → c.goroutines ≡ k.before ++ (q ∷ k.rest)
          → Step idle c (record (begin c) { goroutines = hs })
      go waiting e w =
          starts k.before k.rest w (ap (λ gs. record (begin c) { goroutines = gs }) k.becomes)
      go running e w = cc
      go finished e w = cc

  stops_first :
      (now : ℕ) (hs : List Phase)
      → Replaced is_running (finished ∷ []) c.goroutines hs
      → Step idle c (record (end now c) { goroutines = hs })
  stops_first now hs k = go k.phase k.passes k.was
    where
      go :
          (q : Phase)
          → is_running q ≡ true
          → c.goroutines ≡ k.before ++ (q ∷ k.rest)
          → Step idle c (record (end now c) { goroutines = hs })
      go running e w =
          stops now k.before k.rest w (ap (λ gs. record (end now c) { goroutines = gs }) k.becomes)
      go waiting e w = cc
      go finished e w = cc

  removes_first :
      (hs : List Phase)
      → Replaced is_at_rest [] c.goroutines hs
      → Step idle c (record (end_session c) { goroutines = hs })
  removes_first hs k = go k.phase k.passes k.was
    where
      left :
          record (end_session c) { goroutines = hs }
          ≡ record (end_session c) { goroutines = k.before ++ k.rest }
      left = ap (λ gs. record (end_session c) { goroutines = gs }) k.becomes

      go :
          (q : Phase)
          → is_at_rest q ≡ true
          → c.goroutines ≡ k.before ++ (q ∷ k.rest)
          → Step idle c (record (end_session c) { goroutines = hs })
      go waiting e w = gives_up k.before k.rest w left
      go finished e w = leaves k.before k.rest w left
      go running e w = cc

  tick-Reachable : (now : ℕ) (b : Bool) → c.closed ≡ b → Reachable idle (tick_conn idle now c).1
  unfolding tick_conn
  tick-Reachable now true e = simp e r
  tick-Reachable now false e = simp e (next r (ticks now e refl))

  -- One event keeps a connection among those that the steps reach.
  event-Reachable : (e : ConnEvent) → Reachable idle (on_conn_event idle e c).1
  unfolding on_conn_event
  event-Reachable (channel_opened kind accepted) = next r (opens kind accepted refl)
  event-Reachable git_started = moves (begin c) is_waiting (running ∷ []) starts_first
  event-Reachable (git_ended now) = moves (end now c) is_running (finished ∷ []) (stops_first now)
  event-Reachable session_left = moves (end_session c) is_at_rest [] removes_first
  event-Reachable (ticked now) = tick-Reachable now c.closed refl

-- Every run of the code on a connection is one of the steps.
pub conn_after-Reachable :
    (idle : ℕ) (es : List ConnEvent) {c : Conn}
    → Reachable idle c
    → Reachable idle (conn_after idle es c)
conn_after-Reachable idle [] r = r
conn_after-Reachable idle (e ∷ es) r = conn_after-Reachable idle es (event-Reachable idle r e)
