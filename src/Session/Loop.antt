-- ===== src/Session/Loop.antt =====
-- The requests of a session: it answers until the first `exec` or `shell`, and ends there.
use simple_git_server.Base.{
  ℕ, ◌+◌, ◌≤◌, ◌≡◌, refl, sym, ap, ◌∙◌, Bool, true, false, List, [], ◌∷◌, ◌++◌, arith,
  if◌then◌else◌, All, any, append_assoc, Option, none, some, Bool-cases, inl, inr, ℤ,
}
use simple_git_server.Text.{Bytes}
use simple_git_server.Session.{
  RequestType, env, exec, shell, reply, other_type, Request, Effect, stderr, run_command,
  exit_status, close, answer, serve_exec, handle_session, parse_exec_payload, exit_status_bytes,
  failure, shell_disabled,
}

-- The request ends the session.
abbrev pub ends_session : RequestType → Bool
ends_session exec = true
ends_session shell = true
ends_session _ = false

abbrev pub is_env : RequestType → Bool
is_env env = true
is_env _ = false

-- What a request is answered with, if it wants that.
abbrev pub reply_if : Bool → Bool → List Effect
reply_if true b = reply b ∷ []
reply_if false b = []

-- The answers to requests that do not end the session: yes to `env`, no to others.
abbrev pub answers : List Request → List Effect
answers [] = []
answers (r ∷ rs) = reply_if r.want_reply (is_env r.kind) ++ answers rs

pub answer-reply_if : (r : Request) (b : Bool) → answer r b ≡ reply_if r.want_reply b
unfolding answer
answer-reply_if r b = go r.want_reply
  where
    go : (w : Bool) → (if w then reply b ∷ [] else []) ≡ reply_if w b
    go true = refl
    go false = refl

pub silent_step :
    (run_git : Bytes → ℤ) (r : Request) (rs : List Request)
    → ends_session r.kind ≡ false
    → handle_session run_git (r ∷ rs) ≡ answer r (is_env r.kind) ++ handle_session run_git rs
unfolding handle_session answer
silent_step run_git r rs h = go r.kind refl h
  where
    go :
        (k : RequestType)
        → r.kind ≡ k
        → ends_session r.kind ≡ false
        → handle_session run_git (r ∷ rs) ≡ answer r (is_env r.kind) ++ handle_session run_git rs
    go env e h = rw (e, handle_session)
    go exec e h = cc (rw e at h)
    go shell e h = cc (rw e at h)
    go (other_type t) e h = rw (e, handle_session)

pub ending_step :
    (run_git : Bytes → ℤ) (r : Request) (rs : List Request)
    → ends_session r.kind ≡ true
    → handle_session run_git (r ∷ rs) ≡ handle_session run_git (r ∷ [])
unfolding handle_session
ending_step run_git r rs h = go r.kind refl h
  where
    go :
        (k : RequestType)
        → r.kind ≡ k
        → ends_session r.kind ≡ true
        → handle_session run_git (r ∷ rs) ≡ handle_session run_git (r ∷ [])
    go env e h = cc (rw e at h)
    go exec e h = rw (e, handle_session)
    go shell e h = rw (e, handle_session)
    go (other_type t) e h = cc (rw e at h)

pub handle_session-append :
    (run_git : Bytes → ℤ) (pre : List Request) (r : Request) (post : List Request)
    → All (λ q. ends_session q.kind ≡ false) pre
    → ends_session r.kind ≡ true
    → handle_session run_git (pre ++ (r ∷ post)) ≡ answers pre ++ handle_session run_git (r ∷ [])
handle_session-append run_git [] r post h e = ending_step run_git r post e
handle_session-append run_git (q ∷ pre) r post (hq, h) e =
    silent_step run_git q (pre ++ (r ∷ post)) hq
    ∙ ap (λ a. a ++ handle_session run_git (pre ++ (r ∷ post))) (answer-reply_if q (is_env q.kind))
    ∙ ap (λ k. reply_if q.want_reply (is_env q.kind) ++ k)
        (handle_session-append run_git pre r post h e)
    ∙ sym (
        append_assoc (reply_if q.want_reply (is_env q.kind)) (answers pre)
          (handle_session run_git (r ∷ [])))

-- How many effects pass the test.
abbrev pub tally : (Effect → Bool) → List Effect → ℕ
tally p [] = 0
tally p (e ∷ es) = (if p e then 1 else 0) + tally p es

tally-append :
    (p : Effect → Bool) (es fs : List Effect) → tally p (es ++ fs) ≡ tally p es + tally p fs
tally-append p [] fs = omega arith
tally-append p (e ∷ es) fs = omega (arith, tally-append p es fs)

abbrev pub is_exit : Effect → Bool
is_exit (exit_status s) = true
is_exit _ = false

abbrev pub is_run : Effect → Bool
is_run (run_command s) = true
is_run _ = false

abbrev pub is_close : Effect → Bool
is_close close = true
is_close _ = false

answer_quiet :
    (r : Request) (b : Bool)
    → (tally is_exit (answer r b) ≡ 0)
      × (tally is_run (answer r b) ≡ 0)
      × (tally is_close (answer r b) ≡ 0)
unfolding answer
answer_quiet r b = elim (Bool-cases r.want_reply) [
  | inl e ↦ rw e (refl, refl, refl)
  | inr e ↦ rw e (refl, refl, refl)
]

exec_tallies :
    (run_git : Bytes → ℤ) (r : Request) (o : Option Bytes)
    → (tally is_exit (serve_exec run_git r o) ≡ 1)
      × (tally is_run (serve_exec run_git r o) ≤ 1)
      × (tally is_close (serve_exec run_git r o) ≡ 1)
unfolding serve_exec
exec_tallies run_git r none =
    let q = answer_quiet r false in
    let t = λ (p : Effect → Bool).
      tally-append p (answer r false) (exit_status (exit_status_bytes failure) ∷ close ∷ []) in
    (omega (arith, q.0, t is_exit), omega (arith, q.1, t is_run), omega (arith, q.2, t is_close))
exec_tallies run_git r (some line) =
    let q = answer_quiet r true in
    let t = λ (p : Effect → Bool).
      tally-append p (answer r true)
        (run_command line ∷ exit_status (exit_status_bytes (run_git line)) ∷ close ∷ []) in
    (omega (arith, q.0, t is_exit), omega (arith, q.1, t is_run), omega (arith, q.2, t is_close))

-- However many requests a client sends, its session reports one exit status if there is an `exec`
-- or a `shell` among them and none otherwise, runs at most one command, and closes the channel
-- once.
pub handle_session-tallies :
    (run_git : Bytes → ℤ) (rs : List Request)
    → (tally is_exit (handle_session run_git rs)
        ≡ (if any (λ r. ends_session r.kind) rs then 1 else 0))
      × (tally is_run (handle_session run_git rs) ≤ 1)
      × (tally is_close (handle_session run_git rs) ≡ 1)
unfolding handle_session
handle_session-tallies run_git [] = (refl, omega arith, refl)
handle_session-tallies run_git (r ∷ rs) = go r.kind refl (handle_session-tallies run_git rs)
  where
    go :
        (k : RequestType)
        → r.kind ≡ k
        → (tally is_exit (handle_session run_git rs)
            ≡ (if any (λ r. ends_session r.kind) rs then 1 else 0))
          × (tally is_run (handle_session run_git rs) ≤ 1)
          × (tally is_close (handle_session run_git rs) ≡ 1)
        → (tally is_exit (handle_session run_git (r ∷ rs))
            ≡ (if any (λ r. ends_session r.kind) (r ∷ rs) then 1 else 0))
          × (tally is_run (handle_session run_git (r ∷ rs)) ≤ 1)
          × (tally is_close (handle_session run_git (r ∷ rs)) ≡ 1)
    go env e ih =
        let q = answer_quiet r true in
        let t = λ (p : Effect → Bool). tally-append p (answer r true) (handle_session run_git rs) in
        rw (e, handle_session)
          (
            omega (arith, q.0, t is_exit, ih.0),
            omega (arith, q.1, t is_run, ih.1),
            omega (arith, q.2, t is_close, ih.2),
          )
    go (other_type s) e ih =
        let q = answer_quiet r false in
        let t =
          λ (p : Effect → Bool). tally-append p (answer r false) (handle_session run_git rs) in
        rw (e, handle_session)
          (
            omega (arith, q.0, t is_exit, ih.0),
            omega (arith, q.1, t is_run, ih.1),
            omega (arith, q.2, t is_close, ih.2),
          )
    go exec e ih =
        let t = exec_tallies run_git r (parse_exec_payload r.payload) in
        rw (e, handle_session) (omega (arith, t.0), omega (arith, t.1), omega (arith, t.2))
    go shell e ih =
        let q = answer_quiet r false in
        let t = λ (p : Effect → Bool).
          tally-append p (answer r false)
            (stderr shell_disabled ∷ exit_status (exit_status_bytes failure) ∷ close ∷ []) in
        rw (e, handle_session)
          (
            omega (arith, q.0, t is_exit),
            omega (arith, q.1, t is_run),
            omega (arith, q.2, t is_close),
          )
