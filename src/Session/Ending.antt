-- ===== src/Session/Ending.antt =====
-- What the request that ends a session does.
use simple_git_server.Base.{
  ◌≡◌, refl, sym, ap, ◌∙◌, true, false, List, [], ◌∷◌, ◌++◌, All, Option, none, some, ℤ,
}
use simple_git_server.Text.{Bytes}
use simple_git_server.Session.Wire.{IsByte, Holds, parse_exec_payload-Holds_iff}
use simple_git_server.Session.Loop.{
  ends_session, reply_if, answers, answer-reply_if, handle_session-append,
}
use simple_git_server.Session.{
  RequestType, env, exec, shell, stop_guard, other_type, Request, Effect, stderr, run_command,
  exit_status, close, serve_exec, handle_session, parse_exec_payload, exit_status_bytes,
  shell_disabled,
}

-- What the request that ends a session does: a `shell`, an `exec` whose payload holds no command,
-- or an `exec` of a command.
pub data Ends (run_git : Bytes → ℤ) (r : Request) (es : List Effect) : Type 0 where
  refuses_shell :
      r.kind ≡ shell
      → es
        ≡ stop_guard
          ∷ (reply_if r.want_reply false
              ++ (stderr shell_disabled ∷ exit_status (0 ∷ 0 ∷ 0 ∷ 128 ∷ []) ∷ close ∷ []))
      → Ends run_git r es
  refuses_payload :
      r.kind ≡ exec
      → ((line : Bytes) → Holds r.payload line → ⊥)
      → es
        ≡ stop_guard
          ∷ (reply_if r.want_reply false ++ (exit_status (0 ∷ 0 ∷ 0 ∷ 128 ∷ []) ∷ close ∷ []))
      → Ends run_git r es
  runs_command :
      (line : Bytes)
      → r.kind ≡ exec
      → Holds r.payload line
      → es
        ≡ stop_guard
          ∷ (reply_if r.want_reply true
              ++ (run_command line ∷ exit_status (exit_status_bytes (run_git line)) ∷ close ∷ []))
      → Ends run_git r es

last-Ends :
    (run_git : Bytes → ℤ) (r : Request)
    → All IsByte r.payload
    → ends_session r.kind ≡ true
    → Ends run_git r (handle_session run_git (r ∷ []))
unfolding handle_session serve_exec exit_status_bytes
last-Ends run_git r bytes h = go r.kind refl h
  where
    executes :
        (o : Option Bytes)
        → parse_exec_payload r.payload ≡ o
        → r.kind ≡ exec
        → Ends run_git r (stop_guard ∷ serve_exec run_git r o)
    executes none p e =
        refuses_payload e (λ l k. cc (sym p ∙ (parse_exec_payload-Holds_iff r.payload l bytes).1 k))
          (ap (λ x. stop_guard ∷ (x ++ (exit_status (0 ∷ 0 ∷ 0 ∷ 128 ∷ []) ∷ close ∷ [])))
            (answer-reply_if r false))
    executes (some line) p e =
        runs_command line e ((parse_exec_payload-Holds_iff r.payload line bytes).0 p) (
          ap
            (λ x.
              stop_guard
              ∷ (x
                  ++ (run_command line
                      ∷ exit_status (exit_status_bytes (run_git line))
                      ∷ close
                      ∷ [])))
            (answer-reply_if r true))

    go :
        (k : RequestType)
        → r.kind ≡ k
        → ends_session r.kind ≡ true
        → Ends run_git r (handle_session run_git (r ∷ []))
    go env e h = cc (rw e at h)
    go (other_type t) e h = cc (rw e at h)
    go exec e h = simp e (executes (parse_exec_payload r.payload) refl e)
    go shell e h = simp e (
        refuses_shell e (
          ap
            (λ x.
              stop_guard
              ∷ (x ++ (stderr shell_disabled ∷ exit_status (0 ∷ 0 ∷ 0 ∷ 128 ∷ []) ∷ close ∷ [])))
            (answer-reply_if r false)))

-- A session answers the requests before the first `exec` or `shell`: yes to `env`, no to others,
-- each only if it wants a reply. Then it does what that one request asks for, and nothing of what
-- the client sends behind it: it refuses a shell, or runs the one command that the payload holds
-- and reports its exit, or reports the exit 128 for a payload that holds none. The payload is a
-- list of bytes.
pub handle_session-Ends :
    (run_git : Bytes → ℤ) (pre : List Request) (r : Request) (post : List Request)
    → All (λ q. ends_session q.kind ≡ false) pre
    → ends_session r.kind ≡ true
    → All IsByte r.payload
    → (es : List Effect) × Ends run_git r es
      × (handle_session run_git (pre ++ (r ∷ post)) ≡ answers pre ++ es)
handle_session-Ends run_git pre r post h e bytes = (
  handle_session run_git (r ∷ []),
  last-Ends run_git r bytes e,
  handle_session-append run_git pre r post h e,
)
