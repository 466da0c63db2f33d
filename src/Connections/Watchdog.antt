-- ===== src/Connections/Watchdog.antt =====
-- When the watchdog closes a connection.
use simple_git_server.Base.{ℕ, ◌+◌, ◌≤◌, ◌<◌, ◌≡◌, ◌↔◌, true, false, arith}
use simple_git_server.Connections.{Conn, watch}
use simple_git_server.Connections.Steps.{running_count, Reachable, Reachable-Tallies}

tick_closes :
    (idle now : ℕ) (c : Conn)
    → c.closed ≡ false
    → ((watch idle now c).closed ≡ true) ↔ ((c.active ≡ 0) × (c.last_used + idle ≤ now))
unfolding watch
tick_closes idle now c o = ground arith

-- A tick of the watchdog closes an open connection exactly if none of its sessions runs git and the
-- last activity is as long ago as the timeout: a clone or a push is never cut off by it, and a
-- connection that does no work is not kept.
pub watch-closes_iff :
    (idle now : ℕ) {c : Conn}
    → Reachable idle c
    → c.closed ≡ false
    → ((watch idle now c).closed ≡ true)
      ↔ ((running_count c.goroutines ≡ 0) × (c.last_used + idle ≤ now))
watch-closes_iff idle now {c} r o =
    let t = Reachable-Tallies idle r in
    let k = tick_closes idle now c o in
    (λ h. (omega (arith, t.work, (k.0 h).0), (k.0 h).1), λ h. k.1 (omega (arith, t.work, h.0), h.1))

-- While a session runs git, every tick counts as activity.
pub watch-renews :
    (idle now : ℕ) {c : Conn}
    → Reachable idle c
    → 0 < running_count c.goroutines
    → ((watch idle now c).last_used ≡ now) × ((watch idle now c).closed ≡ c.closed)
unfolding watch
watch-renews idle now {c} r h =
    let w = (Reachable-Tallies idle r).work in
    let a : 0 < c.active = omega (arith, w, h) in ground arith
