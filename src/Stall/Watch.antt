-- ===== src/Stall/Watch.antt =====
-- When the watchdog of a request cancels it.
use simple_git_server.Base.{
  ℕ, ◌+◌, ◌≤◌, ◌<◌, ◌≡◌, ◌≢◌, ◌↔◌, ◌⊎◌, inl, inr, refl, ap, sym, subst, ◌∙◌, Bool, true, false,
  ◌||◌, List, [], ◌∷◌, ◌++◌, arith, All, if◌then◌else◌, ltb, Bool-cases,
}
use simple_git_server.Stall.{
  Transfer, StreamEvent, reads, writes, tick, stop, mark, is_failed, on_event, run_events,
  new_transfer,
}
use simple_git_server.Stall.Steps.{
  ends_badly, Goes, mark-Goes, read-Goes, ended_stays, tick_waits, tick_cancels,
}

-- The time at which bytes last moved.
abbrev pub last_moved : ℕ → List StreamEvent → ℕ
last_moved at [] = at
last_moved at (reads n e now ∷ es) = last_moved (if ltb 0 n then now else at) es
last_moved at (writes n now ∷ es) = last_moved (if ltb 0 n then now else at) es
last_moved at (tick now ∷ es) = last_moved at es
last_moved at (stop ∷ es) = last_moved at es

-- Some read failed.
abbrev pub read_failed : Bool → List StreamEvent → Bool
read_failed b [] = b
read_failed b (reads n e now ∷ es) = read_failed (b || ends_badly e) es
read_failed b (writes n now ∷ es) = read_failed b es
read_failed b (tick now ∷ es) = read_failed b es
read_failed b (stop ∷ es) = read_failed b es

-- A tick, before the request ends, at which a read has failed or no bytes have moved for the
-- timeout.
pub record Stalls (idle at : ℕ) (failed : Bool) (es : List StreamEvent) : Type 0 where
  pub before_it : List StreamEvent
  pub now : ℕ
  pub behind_it : List StreamEvent
  pub events_are : es ≡ before_it ++ (tick now ∷ behind_it)
  pub running : All (λ e. e ≢ stop) before_it
  pub due : (read_failed failed before_it ≡ true) ⊎ (last_moved at before_it + idle ≤ now)

-- A stall among the events behind one that moves bytes.
later :
    {idle at at' : ℕ} {b b' : Bool} {t u : Transfer} {es : List StreamEvent} (e : StreamEvent)
    → Goes t u at' b'
    → e ≢ stop
    → ((pre : List StreamEvent) → last_moved at (e ∷ pre) ≡ last_moved at' pre)
    → ((pre : List StreamEvent) → read_failed b (e ∷ pre) ≡ read_failed b' pre)
    → Stalls idle u.last (is_failed u.failure) es
    → Stalls idle at b (e ∷ es)
later {idle} {at} {at'} {b} {b'} {t} {u} {es} e g ne moved failed s = record {
  before_it = e ∷ s.before_it;
  now = s.now;
  behind_it = s.behind_it;
  events_are = ap (◌∷◌ e) s.events_are;
  running = (ne, s.running);
  due = elim (s.due) [
    | inl f ↦ inl (failed s.before_it ∙ ap (λ c. read_failed c s.before_it) (sym g.failed_is) ∙ f)
    | inr l ↦ inr (
        subst (λ m. m + idle ≤ s.now)
          (sym (moved s.before_it ∙ ap (λ a. last_moved a s.before_it) (sym g.last_is))) l)
  ];
}

same_Goes : (t : Transfer) → Goes t t t.last (is_failed t.failure)
same_Goes t = record { last_is = refl; failed_is = refl; watching_is = refl; cancelled_is = refl }

-- A cancelled request has stalled.
cancelled-Stalls :
    (idle : ℕ) (t : Transfer) (es : List StreamEvent)
    → t.watching ≡ true
    → t.cancelled ≡ false
    → (run_events idle t es).cancelled ≡ true
    → Stalls idle t.last (is_failed t.failure) es
unfolding run_events on_event
cancelled-Stalls idle t [] w c h = cc
cancelled-Stalls idle t (reads n e now ∷ es) w c h =
    let g = read-Goes idle n now e t in
    later (reads n e now) g (λ q. cc) (λ pre. refl) (λ pre. refl)
      (cancelled-Stalls idle (on_event idle t (reads n e now)) es (g.watching_is ∙ w)
        (g.cancelled_is ∙ c) h)
cancelled-Stalls idle t (writes n now ∷ es) w c h =
    let g = mark-Goes n now t in
    later (writes n now) g (λ q. cc) (λ pre. refl) (λ pre. refl)
      (cancelled-Stalls idle (mark n now t) es (g.watching_is ∙ w) (g.cancelled_is ∙ c) h)
cancelled-Stalls idle t (stop ∷ es) w c h =
    cc (sym (ended_stays idle (record t { watching = false }) es refl) ∙ h)
cancelled-Stalls idle t (tick now ∷ es) w c h = elim (Bool-cases (is_failed t.failure)) [
  | inl f ↦ at_once (inl f)
  | inr f ↦ elim (Bool-cases (ltb now (t.last + idle))) [
    | inr l ↦ at_once (inr (ground (arith, l)))
    | inl l ↦
        later (tick now) (same_Goes t) (λ q. cc) (λ pre. refl) (λ pre. refl)
          (cancelled-Stalls idle t es w c
            (ap (λ u. (run_events idle u es).cancelled) (sym (tick_waits idle now t f l)) ∙ h))
  ]
]
  where
    at_once :
        (is_failed t.failure ≡ true) ⊎ (t.last + idle ≤ now)
        → Stalls idle t.last (is_failed t.failure) (tick now ∷ es)
    at_once d = record {
      before_it = [];
      now = now;
      behind_it = es;
      events_are = refl;
      running = tt;
      due = d;
    }

-- The condition for a stall, of a transfer behind an event.
carried :
    (idle now : ℕ) (pre : List StreamEvent) {at : ℕ} {b : Bool} {t u : Transfer}
    → Goes t u at b
    → (read_failed b pre ≡ true) ⊎ (last_moved at pre + idle ≤ now)
    → (read_failed (is_failed u.failure) pre ≡ true) ⊎ (last_moved u.last pre + idle ≤ now)
carried idle now pre g (inl f) = inl (ap (λ c. read_failed c pre) g.failed_is ∙ f)
carried idle now pre g (inr l) =
    inr (subst (λ m. m + idle ≤ now) (ap (λ a. last_moved a pre) (sym g.last_is)) l)

-- A request that stalls is cancelled.
Stalls-cancelled :
    (idle : ℕ) (t : Transfer) (pre : List StreamEvent) (now : ℕ) (post : List StreamEvent)
    → t.watching ≡ true
    → All (λ e. e ≢ stop) pre
    → (read_failed (is_failed t.failure) pre ≡ true) ⊎ (last_moved t.last pre + idle ≤ now)
    → (run_events idle t (pre ++ (tick now ∷ post))).cancelled ≡ true
unfolding run_events on_event
Stalls-cancelled idle t [] now post w r d =
    let c = tick_cancels idle now t w (overdue d) in
    ended_stays idle (on_event idle t (tick now)) post c.0 ∙ c.1
  where
    overdue :
        (is_failed t.failure ≡ true) ⊎ (t.last + idle ≤ now)
        → (is_failed t.failure ≡ true) ⊎ (ltb now (t.last + idle) ≡ false)
    overdue (inl f) = inl f
    overdue (inr l) = inr (ground (arith, l))
Stalls-cancelled idle t (reads n e at ∷ pre) now post w (_, r) d =
    let g = read-Goes idle n at e t in
    Stalls-cancelled idle (on_event idle t (reads n e at)) pre now post (g.watching_is ∙ w) r
      (carried idle now pre g d)
Stalls-cancelled idle t (writes n at ∷ pre) now post w (_, r) d =
    let g = mark-Goes n at t in
    Stalls-cancelled idle (mark n at t) pre now post (g.watching_is ∙ w) r
      (carried idle now pre g d)
Stalls-cancelled idle t (stop ∷ pre) now post w (ne, r) d = absurd (ne refl)
Stalls-cancelled idle t (tick at ∷ pre) now post w (_, r) d =
    elim (Bool-cases (is_failed t.failure)) [
      | inl f ↦ fires (inl f)
      | inr f ↦ elim (Bool-cases (ltb at (t.last + idle))) [
        | inr l ↦ fires (inr l)
        | inl l ↦
            ap (λ u. (run_events idle u (pre ++ (tick now ∷ post))).cancelled)
              (tick_waits idle at t f l)
            ∙ Stalls-cancelled idle t pre now post w r d
      ]
    ]
  where
    fires :
        (is_failed t.failure ≡ true) ⊎ (ltb at (t.last + idle) ≡ false)
        → (run_events idle (on_event idle t (tick at)) (pre ++ (tick now ∷ post))).cancelled ≡ true
    fires k =
        let c = tick_cancels idle at t w k in
        ended_stays idle (on_event idle t (tick at)) (pre ++ (tick now ∷ post)) c.0 ∙ c.1

-- However reads, writes and ticks follow one another, the watchdog of a request cancels it exactly
-- if there is a timeout and, before the request ends, a tick finds that a read of the body has
-- failed or that no byte has moved in either direction for the timeout.
pub run_events-Stalls_iff :
    (idle start : ℕ) (es : List StreamEvent)
    → ((run_events idle (new_transfer idle start) es).cancelled ≡ true)
      ↔ ((0 < idle) × Stalls idle start false es)
unfolding new_transfer
run_events-Stalls_iff idle start es = elim (Bool-cases (ltb 0 idle)) [
  | inr z ↦ (
    λ h. cc (sym (ended_stays idle (new_transfer idle start) es z) ∙ h),
    λ s. absurd (ground (arith, z, s.0)),
  )
  | inl p ↦ (
    λ h. (ground (arith, p), cancelled-Stalls idle (new_transfer idle start) es p refl h),
    λ s.
        let k = s.1 in
        ap (λ l. (run_events idle (new_transfer idle start) l).cancelled) k.events_are
        ∙ Stalls-cancelled idle (new_transfer idle start) k.before_it k.now k.behind_it p k.running
            k.due,
  )
]
