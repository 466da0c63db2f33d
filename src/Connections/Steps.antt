-- ===== src/Connections/Steps.antt =====
-- The steps of one connection, and that its counters tell what its sessions do.
use simple_git_server.Base.{
  ℕ, suc, ◌+◌, ◌≤◌, ◌≡◌, refl, ap, sym, Bool, true, false, List, [], ◌∷◌, ◌++◌, arith, length,
  length-append, Bool-cases, inl, inr, ltb, leb, subst,
}
use simple_git_server.Connections.{
  max_sessions_per_conn, Phase, waiting, running, finished, Conn, fresh, begin, end, ChannelType,
  session, other_channel, open_channel, accept_channel, end_session, watch,
}

abbrev pub running_count : List Phase → ℕ
running_count [] = 0
running_count (running ∷ ps) = suc (running_count ps)
running_count (waiting ∷ ps) = running_count ps
running_count (finished ∷ ps) = running_count ps

-- A step from one state to the next: the client opens a channel, a waiting session starts git, a
-- running one sees it end, a session that does not run git goes away, or the watchdog ticks.
pub data Step (idle : ℕ) (c d : Conn) : Type 0 where
  opens :
      (kind : ChannelType) (accepted : Bool) → d ≡ (open_channel kind accepted c).1 → Step idle c d
  starts :
      (ps qs : List Phase)
      → c.goroutines ≡ ps ++ (waiting ∷ qs)
      → d ≡ record (begin c) { goroutines = ps ++ (running ∷ qs) }
      → Step idle c d
  stops :
      (now : ℕ) (ps qs : List Phase)
      → c.goroutines ≡ ps ++ (running ∷ qs)
      → d ≡ record (end now c) { goroutines = ps ++ (finished ∷ qs) }
      → Step idle c d
  gives_up :
      (ps qs : List Phase)
      → c.goroutines ≡ ps ++ (waiting ∷ qs)
      → d ≡ record (end_session c) { goroutines = ps ++ qs }
      → Step idle c d
  leaves :
      (ps qs : List Phase)
      → c.goroutines ≡ ps ++ (finished ∷ qs)
      → d ≡ record (end_session c) { goroutines = ps ++ qs }
      → Step idle c d
  ticks : (now : ℕ) → c.closed ≡ false → d ≡ watch idle now c → Step idle c d

-- The states that a connection can get into.
pub data Reachable (idle : ℕ) : Conn → Type 0 where
  start : {c : Conn} (now : ℕ) → c ≡ fresh now → Reachable idle c
  next : {b c : Conn} → Reachable idle b → Step idle b c → Reachable idle c

-- The slots in use are those of the sessions, at most the limit, and the activity is the number of
-- git commands that run.
pub record Tallies (c : Conn) : Type 0 where
  pub slots : c.sessions ≡ length c.goroutines
  pub within : c.sessions ≤ max_sessions_per_conn
  pub work : c.active ≡ running_count c.goroutines

running_count-append :
    (ps qs : List Phase) → running_count (ps ++ qs) ≡ running_count ps + running_count qs
running_count-append [] qs = omega arith
running_count-append (running ∷ ps) qs = omega (arith, running_count-append ps qs)
running_count-append (waiting ∷ ps) qs = running_count-append ps qs
running_count-append (finished ∷ ps) qs = running_count-append ps qs

open_channel-Tallies :
    (kind : ChannelType) (accepted : Bool) (c : Conn)
    → Tallies c
    → Tallies (open_channel kind accepted c).1
unfolding open_channel
open_channel-Tallies other_channel accepted c t = t
open_channel-Tallies session accepted c t =
    elim (Bool-cases (ltb c.sessions max_sessions_per_conn)) [
      | inr e ↦ rw e t
      | inl e ↦ rw e (taken accepted e)
    ]
  where
    taken :
        (accepted : Bool)
        → ltb c.sessions max_sessions_per_conn ≡ true
        → Tallies (accept_channel accepted (record c { sessions = c.sessions + 1 })).1
    taken true e = record {
      slots = omega (arith, t.slots);
      within = ground (arith, e);
      work = t.work;
    }
    taken false e = record {
      slots = omega (arith, t.slots);
      within = omega (arith, t.within);
      work = t.work;
    }

-- What putting the phase `q` in the place of `p` does to the counts.
swapped :
    {gs : List Phase} (ps : List Phase) (p q : Phase) (qs : List Phase)
    → gs ≡ ps ++ (p ∷ qs)
    → (length (ps ++ (q ∷ qs)) ≡ length gs)
      × (running_count (ps ++ (q ∷ qs)) + running_count (p ∷ [])
          ≡ running_count gs + running_count (q ∷ []))
swapped ps p q qs e = (
  omega (arith, ap length e, length-append ps (p ∷ qs), length-append ps (q ∷ qs)),
  omega (
    arith,
    ap running_count e,
    running_count-append ps (p ∷ qs),
    running_count-append ps (q ∷ qs),
    running_count-append (p ∷ []) qs,
    running_count-append (q ∷ []) qs,
  ),
)

-- What taking the phase `p` out does to the counts.
removed :
    {gs : List Phase} (ps : List Phase) (p : Phase) (qs : List Phase)
    → gs ≡ ps ++ (p ∷ qs)
    → (suc (length (ps ++ qs)) ≡ length gs)
      × (running_count (ps ++ qs) + running_count (p ∷ []) ≡ running_count gs)
removed ps p qs e = (
  omega (arith, ap length e, length-append ps (p ∷ qs), length-append ps qs),
  omega (
    arith,
    ap running_count e,
    running_count-append ps (p ∷ qs),
    running_count-append ps qs,
    running_count-append (p ∷ []) qs,
  ),
)

watch-Tallies : (idle now : ℕ) (c : Conn) → Tallies c → Tallies (watch idle now c)
unfolding watch
watch-Tallies idle now c t = elim (Bool-cases (ltb 0 c.active)) [
  | inl e ↦ rw e (record { slots = t.slots; within = t.within; work = t.work })
  | inr e ↦ elim (Bool-cases (leb (c.last_used + idle) now)) [
    | inl l ↦ rw (e, l) (record { slots = t.slots; within = t.within; work = t.work })
    | inr l ↦ rw (e, l) t
  ]
]

-- One step keeps the counters right.
Step-Tallies : (idle : ℕ) {c d : Conn} → Step idle c d → Tallies c → Tallies d
unfolding begin end end_session
Step-Tallies idle {c} (opens kind accepted e) t =
    subst Tallies (sym e) (open_channel-Tallies kind accepted c t)
Step-Tallies idle {c} (starts ps qs h e) t =
    let k = swapped ps waiting running qs h in
    subst Tallies (sym e) (record {
      slots = omega (arith, t.slots, k.0);
      within = t.within;
      work = omega (arith, t.work, k.1);
    })
Step-Tallies idle {c} (stops now ps qs h e) t =
    let k = swapped ps running finished qs h in
    subst Tallies (sym e) (record {
      slots = omega (arith, t.slots, k.0);
      within = t.within;
      work = omega (arith, t.work, k.1);
    })
Step-Tallies idle {c} (gives_up ps qs h e) t =
    let k = removed ps waiting qs h in
    subst Tallies (sym e) (record {
      slots = omega (arith, t.slots, k.0);
      within = omega (arith, t.within);
      work = omega (arith, t.work, k.1);
    })
Step-Tallies idle {c} (leaves ps qs h e) t =
    let k = removed ps finished qs h in
    subst Tallies (sym e) (record {
      slots = omega (arith, t.slots, k.0);
      within = omega (arith, t.within);
      work = omega (arith, t.work, k.1);
    })
Step-Tallies idle {c} (ticks now o e) t = subst Tallies (sym e) (watch-Tallies idle now c t)

-- In every state that a connection gets into, the slots in use are those of its sessions and at
-- most the limit, and the activity that the watchdog reads is the number of git commands that run.
pub Reachable-Tallies : (idle : ℕ) {c : Conn} → Reachable idle c → Tallies c
Reachable-Tallies idle (start now e) =
    subst Tallies (sym e) (record { slots = refl; within = omega arith; work = refl })
Reachable-Tallies idle (next r s) = Step-Tallies idle s (Reachable-Tallies idle r)
