-- ===== src/Routing/Recorder.antt =====
-- The status that `accessLog` logs is the one that the client gets.
use simple_git_server.Base.{ℕ, ◌≡◌, ◌≢◌, refl, List, [], ◌∷◌, arith, All}
use simple_git_server.Routing.{Call, write_header, write, flush, recorded}

-- The call sends no header of its own.
abbrev pub IsBody : Call → Type 0
IsBody (write_header code) = ⊥
IsBody _ = Unit

-- The status that the server sends for a handler that begins with this call: a body without a
-- header goes out as 200.
abbrev pub sent : Call → ℕ
sent (write_header code) = code
sent _ = 200

body_keeps :
    (status : ℕ) (cs : List Call) → status ≢ 0 → All IsBody cs → recorded status cs ≡ status
unfolding recorded
body_keeps status [] n h = refl
body_keeps status (write_header code ∷ cs) n (b, h) = absurd b
body_keeps status (write ∷ cs) n (b, h) = ground (arith, body_keeps status cs n h)
body_keeps status (flush ∷ cs) n (b, h) = ground (arith, body_keeps status cs n h)

-- For a handler that writes its header first, if at all, and once, the recorded status is the one
-- that is sent.
pub recorded-sent :
    (c : Call) (cs : List Call) → sent c ≢ 0 → All IsBody cs → recorded 0 (c ∷ cs) ≡ sent c
unfolding recorded
recorded-sent (write_header code) cs n h = body_keeps code cs n h
recorded-sent write cs n h = body_keeps 200 cs n h
recorded-sent flush cs n h = body_keeps 200 cs n h
