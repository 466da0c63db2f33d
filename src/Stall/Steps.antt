-- ===== src/Stall/Steps.antt =====
-- What one event does to a transfer.
use simple_git_server.Base.{
  ℕ, ◌+◌, ◌≡◌, ◌⊎◌, inl, inr, refl, ap, subst, ◌∙◌, Bool, true, false, ◌||◌, List, [], ◌∷◌, arith,
  if◌then◌else◌, ltb, Bool-cases,
}
use simple_git_server.Cgi.{BodyError, too_large, other_body_error}
use simple_git_server.Stall.{
  Transfer, ReadEnd, more, eof, over_limit, broken, StreamEvent, reads, writes, tick, stop, mark,
  fail_read, end_read, is_failed, watch_tick, on_event, run_events,
}

abbrev pub ends_badly : ReadEnd → Bool
ends_badly more = false
ends_badly eof = false
ends_badly over_limit = true
ends_badly broken = true

-- What stays of a transfer, and whether it has failed.
pub record Goes (t u : Transfer) (at : ℕ) (failed : Bool) : Type 0 where
  pub last_is : u.last ≡ at
  pub failed_is : is_failed u.failure ≡ failed
  pub watching_is : u.watching ≡ t.watching
  pub cancelled_is : u.cancelled ≡ t.cancelled

pub mark-Goes :
    (n now : ℕ) (t : Transfer)
    → Goes t (mark n now t) (if ltb 0 n then now else t.last) (is_failed t.failure)
unfolding mark
mark-Goes n now t = elim (Bool-cases (ltb 0 n)) [
  | inl e ↦
      rw e (record { last_is = refl; failed_is = refl; watching_is = refl; cancelled_is = refl })
  | inr e ↦
      rw e (record { last_is = refl; failed_is = refl; watching_is = refl; cancelled_is = refl })
]

fail_read-Goes :
    (e : BodyError) (t : Transfer) → is_failed e ≡ true → Goes t (fail_read e t) t.last true
unfolding fail_read
fail_read-Goes e t h = record {
  last_is = ground arith;
  failed_is = ground (arith, h);
  watching_is = ground arith;
  cancelled_is = ground arith;
}

end_read-Goes :
    (e : ReadEnd) (t : Transfer)
    → Goes t (end_read e t) t.last (is_failed t.failure || ends_badly e)
unfolding end_read
end_read-Goes more t = record {
  last_is = refl;
  failed_is = ground arith;
  watching_is = refl;
  cancelled_is = refl;
}
end_read-Goes eof t = record {
  last_is = refl;
  failed_is = ground arith;
  watching_is = refl;
  cancelled_is = refl;
}
end_read-Goes over_limit t =
    subst (Goes t (fail_read too_large t) t.last) (ground arith) (fail_read-Goes too_large t refl)
end_read-Goes broken t =
    subst (Goes t (fail_read other_body_error t) t.last) (ground arith)
      (fail_read-Goes other_body_error t refl)

-- What a read does.
pub read-Goes :
    (idle n now : ℕ) (e : ReadEnd) (t : Transfer)
    → Goes t
        (on_event idle t (reads n e now))
        (if ltb 0 n then now else t.last)
        (is_failed t.failure || ends_badly e)
unfolding on_event
read-Goes idle n now e t =
    let g = mark-Goes n now t in
    let k = end_read-Goes e (mark n now t) in
    record {
      last_is = k.last_is ∙ g.last_is;
      failed_is = k.failed_is ∙ ap (λ b. b || ends_badly e) g.failed_is;
      watching_is = k.watching_is ∙ g.watching_is;
      cancelled_is = k.cancelled_is ∙ g.cancelled_is;
    }

tick_ended : (idle now : ℕ) (t : Transfer) → t.watching ≡ false → on_event idle t (tick now) ≡ t
unfolding on_event
tick_ended idle now t h = simp h

-- A watchdog that has ended does nothing more.
pub ended_stays :
    (idle : ℕ) (t : Transfer) (es : List StreamEvent)
    → t.watching ≡ false
    → (run_events idle t es).cancelled ≡ t.cancelled
unfolding run_events on_event
ended_stays idle t [] h = refl
ended_stays idle t (reads n e now ∷ es) h =
    let g = read-Goes idle n now e t in
    ended_stays idle (on_event idle t (reads n e now)) es (g.watching_is ∙ h) ∙ g.cancelled_is
ended_stays idle t (writes n now ∷ es) h =
    let g = mark-Goes n now t in
    ended_stays idle (mark n now t) es (g.watching_is ∙ h) ∙ g.cancelled_is
ended_stays idle t (tick now ∷ es) h =
    ap (λ u. (run_events idle u es).cancelled) (tick_ended idle now t h) ∙ ended_stays idle t es h
ended_stays idle t (stop ∷ es) h = ended_stays idle (record t { watching = false }) es refl

watch_waits :
    (idle now : ℕ) (t : Transfer)
    → is_failed t.failure ≡ false
    → ltb now (t.last + idle) ≡ true
    → watch_tick idle now t ≡ t
unfolding watch_tick
watch_waits idle now t f l = simp (f, l)

-- A tick in time does nothing.
pub tick_waits :
    (idle now : ℕ) (t : Transfer)
    → is_failed t.failure ≡ false
    → ltb now (t.last + idle) ≡ true
    → on_event idle t (tick now) ≡ t
unfolding on_event
tick_waits idle now t f l = elim (Bool-cases t.watching) [
  | inl w ↦ simp w (watch_waits idle now t f l)
  | inr w ↦ simp w
]

watch_cancels :
    (idle now : ℕ) (t : Transfer)
    → (is_failed t.failure ≡ true) ⊎ (ltb now (t.last + idle) ≡ false)
    → ((watch_tick idle now t).watching ≡ false) × ((watch_tick idle now t).cancelled ≡ true)
unfolding watch_tick
watch_cancels idle now t (inl f) = simp f (refl, refl)
watch_cancels idle now t (inr l) = elim (Bool-cases (is_failed t.failure)) [
  | inl f ↦ simp f (refl, refl)
  | inr f ↦ simp (f, l) (refl, refl)
]

-- A tick that is due cancels.
pub tick_cancels :
    (idle now : ℕ) (t : Transfer)
    → t.watching ≡ true
    → (is_failed t.failure ≡ true) ⊎ (ltb now (t.last + idle) ≡ false)
    → ((on_event idle t (tick now)).watching ≡ false)
      × ((on_event idle t (tick now)).cancelled ≡ true)
unfolding on_event
tick_cancels idle now t w d = simp w (watch_cancels idle now t d)
