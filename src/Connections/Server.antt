-- ===== src/Connections/Server.antt =====
-- The accept loop with its connections: how many there are at once, and how many git commands.
use simple_git_server.Base.{
  ℕ, ◌+◌, ◌*◌, ◌≤◌, ◌≡◌, refl, ap, sym, List, [], ◌∷◌, ◌++◌, arith, All, All-append,
  All-append_left, All-append_right, length, length-append, Bool-cases, inl, inr, ltb, subst,
}
use simple_git_server.Connections.{
  max_sessions_per_conn, Phase, waiting, running, finished, Conn, Listener, accept_conn, end_conn,
}
use simple_git_server.Connections.Steps.{
  running_count, Step, Reachable, start, next, Reachable-Tallies,
}

-- A step of the server: a connection arrives, one of those that are handled takes a step, or one of
-- them ends.
pub data ServerStep (max_conns idle : ℕ) (l m : Listener) : Type 0 where
  arrives : (now : ℕ) → m ≡ (accept_conn max_conns now l).1 → ServerStep max_conns idle l m
  works :
      (bs : List Conn) (c d : Conn) (ds : List Conn)
      → l.conns ≡ bs ++ (c ∷ ds)
      → Step idle c d
      → m ≡ record l { conns = bs ++ (d ∷ ds) }
      → ServerStep max_conns idle l m
  ends :
      (bs : List Conn) (c : Conn) (ds : List Conn)
      → l.conns ≡ bs ++ (c ∷ ds)
      → m ≡ record (end_conn l) { conns = bs ++ ds }
      → ServerStep max_conns idle l m

abbrev pub no_conns : Listener
no_conns = record { conns = []; conn_sem = 0 }

-- The states that the server can get into.
pub data ReachableServer (max_conns idle : ℕ) : Listener → Type 0 where
  listens : {l : Listener} → l ≡ no_conns → ReachableServer max_conns idle l
  goes_on :
      {l m : Listener}
      → ReachableServer max_conns idle l
      → ServerStep max_conns idle l m
      → ReachableServer max_conns idle m

-- The git commands of the connections that are handled.
abbrev pub total_running : List Conn → ℕ
total_running [] = 0
total_running (c ∷ cs) = running_count c.goroutines + total_running cs

record Handled (max_conns idle : ℕ) (l : Listener) : Type 0 where
  slots : l.conn_sem ≡ length l.conns
  within : l.conn_sem ≤ max_conns
  each : All (Reachable idle) l.conns

accept_conn-Handled :
    (max_conns idle now : ℕ) (l : Listener)
    → Handled max_conns idle l
    → Handled max_conns idle (accept_conn max_conns now l).1
unfolding accept_conn
accept_conn-Handled max_conns idle now l h = elim (Bool-cases (ltb l.conn_sem max_conns)) [
  | inr e ↦ rw e h
  | inl e ↦ rw e (record {
    slots = omega (arith, h.slots);
    within = ground (arith, e);
    each = (start now refl, h.each);
  })
]

step-Handled :
    (max_conns idle : ℕ) {l m : Listener}
    → ServerStep max_conns idle l m
    → Handled max_conns idle l
    → Handled max_conns idle m
unfolding end_conn
step-Handled max_conns idle {l} (arrives now e) h =
    subst (Handled max_conns idle) (sym e) (accept_conn-Handled max_conns idle now l h)
step-Handled max_conns idle {l} (works bs c d ds k s e) h =
    let each = subst (All (Reachable idle)) k h.each in
    let rest = All-append_right (Reachable idle) bs (c ∷ ds) each in
    subst (Handled max_conns idle) (sym e) (record {
      slots =
          omega (arith, h.slots, ap length k, length-append bs (c ∷ ds), length-append bs (d ∷ ds));
      within = h.within;
      each =
          All-append (Reachable idle) bs (d ∷ ds)
            (All-append_left (Reachable idle) bs (c ∷ ds) each) (next rest.0 s, rest.1);
    })
step-Handled max_conns idle {l} (ends bs c ds k e) h =
    let each = subst (All (Reachable idle)) k h.each in
    subst (Handled max_conns idle) (sym e) (record {
      slots = omega (arith, h.slots, ap length k, length-append bs (c ∷ ds), length-append bs ds);
      within = omega (arith, h.within);
      each =
          All-append (Reachable idle) bs ds (All-append_left (Reachable idle) bs (c ∷ ds) each)
            (All-append_right (Reachable idle) bs (c ∷ ds) each).1;
    })

reachable-Handled :
    (max_conns idle : ℕ) {l : Listener}
    → ReachableServer max_conns idle l
    → Handled max_conns idle l
reachable-Handled max_conns idle (listens e) =
    subst (Handled max_conns idle) (sym e)
      (record { slots = refl; within = omega arith; each = tt })
reachable-Handled max_conns idle (goes_on r s) =
    step-Handled max_conns idle s (reachable-Handled max_conns idle r)

running_count-length : (ps : List Phase) → running_count ps ≤ length ps
running_count-length [] = omega arith
running_count-length (running ∷ ps) = omega (arith, running_count-length ps)
running_count-length (waiting ∷ ps) = omega (arith, running_count-length ps)
running_count-length (finished ∷ ps) = omega (arith, running_count-length ps)

total_running-length :
    (idle : ℕ) (cs : List Conn)
    → All (Reachable idle) cs
    → total_running cs ≤ length cs * max_sessions_per_conn
total_running-length idle [] h = omega arith
total_running-length idle (c ∷ cs) (r, h) =
    let t = Reachable-Tallies idle r in
    omega
      (arith, t.slots, t.within, running_count-length c.goroutines, total_running-length idle cs h)

-- At any time no more connections are handled than the limit, the semaphore counts them, and their
-- sessions run at most that many git commands times the sessions of one connection.
pub ReachableServer-bounds :
    (max_conns idle : ℕ) {l : Listener}
    → ReachableServer max_conns idle l
    → (l.conn_sem ≡ length l.conns)
      × (length l.conns ≤ max_conns)
      × (total_running l.conns ≤ max_conns * max_sessions_per_conn)
ReachableServer-bounds max_conns idle {l} r =
    let h = reachable-Handled max_conns idle r in
    (
      h.slots,
      omega (arith, h.slots, h.within),
      omega (arith, h.slots, h.within, total_running-length idle l.conns h.each),
    )
