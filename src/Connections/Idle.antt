-- ===== src/Connections/Idle.antt =====
-- A connection that runs no git command is closed in time.
use simple_git_server.Base.{
  ℕ, ◌+◌, ◌≤◌, ◌<◌, ◌≡◌, refl, sym, ap, ◌∙◌, Bool, true, false, List, [], ◌∷◌, ◌++◌, arith, Option,
  none, some, Bool-cases, inl, inr, ltb, leb, ◌&&◌, any, All, append_assoc,
}
use simple_git_server.Connections.{
  Conn, fresh, conn_idle, ChannelType, session, other_channel, open_channel, accept_channel,
  end_session, watch, max_sessions_per_conn,
}
use simple_git_server.Connections.Steps.{running_count, start, Reachable-Tallies}
use simple_git_server.Connections.Handle.{
  ConnEvent, channel_opened, git_started, git_ended, session_left, ticked, ConnEffect, idle_closed,
  is_at_rest, put_first, with_goroutines, tick_conn, on_conn_event, serve_channels, conn_after,
  handle_conn, conn_tick_length,
}
use simple_git_server.Connections.Runs.{conn_after-Reachable}

-- No git command starts or ends.
abbrev pub is_quiet : ConnEvent → Bool
is_quiet git_started = false
is_quiet (git_ended now) = false
is_quiet _ = true

-- From the time `p` on, the ticks are at most `period` apart.
abbrev pub Paced : ℕ → ℕ → List ConnEvent → Type 0
Paced period p [] = Unit
Paced period p (ticked t ∷ es) = (t ≤ p + period) × Paced period t es
Paced period p (_ ∷ es) = Paced period p es

-- The time of the last tick, or `p`.
abbrev pub last_tick : ℕ → List ConnEvent → ℕ
last_tick p [] = p
last_tick p (ticked t ∷ es) = last_tick t es
last_tick p (_ ∷ es) = last_tick p es

-- The watchdog closes the connection, between these times.
abbrev pub closes_within : ℕ → ℕ → ConnEffect → Bool
closes_within low high (idle_closed t) = leb low t && leb t high
closes_within low high _ = false

module _ {A : Type 0} (p : A → Bool) where
  any-left : (xs ys : List A) → any p xs ≡ true → any p (xs ++ ys) ≡ true
  any-left [] ys h = cc
  any-left (x ∷ xs) ys h = elim (Bool-cases (p x)) [
    | inl e ↦ rw e refl
    | inr e ↦ rw e (any-left xs ys (rw e at h))
  ]

  any-right : (xs ys : List A) → any p ys ≡ true → any p (xs ++ ys) ≡ true
  any-right [] ys h = h
  any-right (x ∷ xs) ys h = elim (Bool-cases (p x)) [
    | inl e ↦ rw e refl
    | inr e ↦ rw e (any-right xs ys h)
  ]

-- An open connection without a git command whose last activity is as old as the times say.
record Quiet (idle low : ℕ) (c : Conn) : Type 0 where
  is_open : c.closed ≡ false
  no_work : c.active ≡ 0
  since : c.last_used + idle ≡ low

open_channel-Quiet :
    (idle low : ℕ) (kind : ChannelType) (accepted : Bool) (c : Conn)
    → Quiet idle low c
    → Quiet idle low (open_channel kind accepted c).1
unfolding open_channel
open_channel-Quiet idle low other_channel accepted c q = q
open_channel-Quiet idle low session accepted c q =
    elim (Bool-cases (ltb c.sessions max_sessions_per_conn)) [
      | inr e ↦ rw e q
      | inl e ↦ rw e (taken accepted)
    ]
  where
    taken :
        (accepted : Bool)
        → Quiet idle low (accept_channel accepted (record c { sessions = c.sessions + 1 })).1
    taken true = record { is_open = q.is_open; no_work = q.no_work; since = q.since }
    taken false = record { is_open = q.is_open; no_work = q.no_work; since = q.since }

leave-Quiet :
    (idle low : ℕ) (c : Conn)
    → Quiet idle low c
    → Quiet idle low (with_goroutines c (end_session c) (put_first is_at_rest [] c.goroutines))
unfolding end_session
leave-Quiet idle low c q = go (put_first is_at_rest [] c.goroutines)
  where
    go : (o : Option _) → Quiet idle low (with_goroutines c (end_session c) o)
    go none = q
    go (some gs) = record { is_open = q.is_open; no_work = q.no_work; since = q.since }

-- A tick closes the connection if it is due, and else changes nothing.
tick_due :
    (idle low now : ℕ) (c : Conn)
    → Quiet idle low c
    → low ≤ now
    → (tick_conn idle now c).0 ≡ idle_closed now ∷ []
unfolding tick_conn watch
tick_due idle low now c q h = ground (arith, q.is_open, q.no_work, q.since)

tick_early :
    (idle low now : ℕ) (c : Conn) → Quiet idle low c → now < low → (tick_conn idle now c).1 ≡ c
unfolding tick_conn watch
tick_early idle low now c q h = ground (arith, q.is_open, q.no_work, q.since)

-- Ticks that reach the end of the timeout close a quiet connection.
Quiet-closes :
    (idle low period p : ℕ) (es : List ConnEvent) (c : Conn)
    → Quiet idle low c
    → p < low
    → All (λ e. is_quiet e ≡ true) es
    → Paced period p es
    → low ≤ last_tick p es
    → any (closes_within low (low + period)) (serve_channels idle es c) ≡ true
unfolding serve_channels on_conn_event
Quiet-closes idle low period p [] c q l a d r = absurd (omega (arith, l, r))
Quiet-closes idle low period p (git_started ∷ es) c q l (h, a) d r = cc
Quiet-closes idle low period p (git_ended now ∷ es) c q l (h, a) d r = cc
Quiet-closes idle low period p (channel_opened kind accepted ∷ es) c q l (h, a) d r =
    Quiet-closes idle low period p es (open_channel kind accepted c).1
      (open_channel-Quiet idle low kind accepted c q) l a d r
Quiet-closes idle low period p (session_left ∷ es) c q l (h, a) d r =
    Quiet-closes idle low period p es
      (with_goroutines c (end_session c) (put_first is_at_rest [] c.goroutines))
      (leave-Quiet idle low c q) l a d r
Quiet-closes idle low period p (ticked t ∷ es) c q l (h, a) (d, ds) r =
    elim (Bool-cases (leb low t)) [
      | inl e ↦
          any-left (closes_within low (low + period)) (tick_conn idle t c).0
            (serve_channels idle es (tick_conn idle t c).1)
            (rw (tick_due idle low t c q (ground (arith, e))) (ground arith))
      | inr e ↦
          let early : t < low = ground (arith, e) in
          any-right (closes_within low (low + period)) (tick_conn idle t c).0
            (serve_channels idle es (tick_conn idle t c).1)
            (rw (tick_early idle low t c q early)
              (Quiet-closes idle low period t es c q early a ds r))
    ]

serve_channels-append :
    (idle : ℕ) (es fs : List ConnEvent) (c : Conn)
    → serve_channels idle (es ++ fs) c
      ≡ serve_channels idle es c ++ serve_channels idle fs (conn_after idle es c)
unfolding serve_channels
serve_channels-append idle [] fs c = refl
serve_channels-append idle (e ∷ es) fs c =
    ap (λ x. (on_conn_event idle e c).0 ++ x)
      (serve_channels-append idle es fs (on_conn_event idle e c).1)
    ∙ sym (
        append_assoc (on_conn_event idle e c).0 (serve_channels idle es (on_conn_event idle e c).1)
          (serve_channels idle fs (conn_after idle (e ∷ es) c)))

conn_idle_pos : (timeout : ℕ) → 0 < conn_idle timeout
unfolding conn_idle
conn_idle_pos timeout = ground arith

-- Whatever an authenticated connection has done before, once none of its sessions runs git the
-- watchdog closes it, at a time between the end of the timeout since its last activity and one
-- period of the ticker after that, however many channels the client opens meanwhile. It is not
-- closed before, no git command starts, and the ticks are at most one period apart and reach the
-- end of the timeout.
pub handle_conn-closes :
    (timeout now later : ℕ) (es fs : List ConnEvent)
    → (conn_after (conn_idle timeout) es (fresh later)).closed ≡ false
    → running_count (conn_after (conn_idle timeout) es (fresh later)).goroutines ≡ 0
    → All (λ e. is_quiet e ≡ true) fs
    → Paced
        (conn_tick_length timeout)
        (conn_after (conn_idle timeout) es (fresh later)).last_used
        fs
    → (conn_after (conn_idle timeout) es (fresh later)).last_used + conn_idle timeout
      ≤ last_tick (conn_after (conn_idle timeout) es (fresh later)).last_used fs
    → any
        (closes_within
          ((conn_after (conn_idle timeout) es (fresh later)).last_used + conn_idle timeout)
          ((conn_after (conn_idle timeout) es (fresh later)).last_used
            + conn_idle timeout
            + conn_tick_length timeout))
        (handle_conn timeout now (some later) (es ++ fs))
      ≡ true
unfolding handle_conn
handle_conn-closes timeout now later es fs o w quiet paced reach =
    let idle = conn_idle timeout in
    let c = conn_after idle es (fresh later) in
    let low = c.last_used + idle in
    let p = closes_within low (low + conn_tick_length timeout) in
    let t = Reachable-Tallies idle (conn_after-Reachable idle es (start later refl)) in
    let k =
      Quiet-closes idle low (conn_tick_length timeout) c.last_used fs c
        (record { is_open = o; no_work = t.work ∙ w; since = refl })
        (omega (arith, conn_idle_pos timeout)) quiet paced reach in
    any-left p (serve_channels idle (es ++ fs) (fresh later)) _ (
      ap (any p) (serve_channels-append idle es fs (fresh later))
      ∙ any-right p (serve_channels idle es (fresh later)) (serve_channels idle fs c) k)
