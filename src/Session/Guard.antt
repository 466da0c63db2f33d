-- ===== src/Session/Guard.antt =====
-- The guard of a session in cmd/ssh-read-write: `sessionRequestDeadline` of main.go, and the timer
-- of `handleSession` that closes a channel on which no `exec` or `shell` comes. A time is in
-- nanoseconds, from the start of the session.
use simple_git_server.Base.{
  ℕ, ◌*◌, ◌^◌, ◌≤◌, ◌≡◌, refl, ap, sym, ◌∙◌, Bool, true, false, not, ◌&&◌, ◌||◌, List, [], ◌∷◌,
  ◌++◌, arith, if◌then◌else◌, ltb, any, Bool-cases, inl, inr, ℤ,
}
use simple_git_server.Text.{Bytes}
use simple_git_server.Session.{Request, Effect, close, answer, handle_session}
use simple_git_server.Session.Loop.{ends_session, is_env, silent_step, ending_step}

abbrev pub default_session_request_timeout : ℕ
default_session_request_timeout = 30 * 10 ^ 9

-- cfg.sessionRequestDeadline()
unfoldable pub session_request_deadline : ℕ → ℕ
session_request_deadline timeout =
    if ltb 0 timeout then timeout else default_session_request_timeout

-- The client sends a request, or closes the channel.
pub data ClientEvent : Type 0 where
  sends : ℕ → Request → ClientEvent
  closes : ℕ → ClientEvent

-- A session: its effects, when it no longer waits for a request, and whether the guard closed it.
pub record Guarded : Type 0 where
  pub effects : List Effect
  pub waits_until : ℕ
  pub guard_fired : Bool

abbrev pub closed_by_guard : ℕ → Guarded
closed_by_guard deadline = record {
  effects = close ∷ [];
  waits_until = deadline;
  guard_fired = true;
}

abbrev pub closed_by_client : ℕ → Guarded
closed_by_client t = record { effects = close ∷ []; waits_until = t; guard_fired = false }

-- `handleSession` with its timer: a request that comes when the guard has closed the channel is not
-- seen.
unfoldable pub guarded_session : (Bytes → ℤ) → ℕ → List ClientEvent → Guarded
guarded_session run_git deadline [] = closed_by_guard deadline
guarded_session run_git deadline (closes t ∷ es) =
    if ltb t deadline then closed_by_client t else closed_by_guard deadline
guarded_session run_git deadline (sends t r ∷ es) =
    let more = guarded_session run_git deadline es in
    let goes_on = record more { effects = answer r (is_env r.kind) ++ more.effects } in
    if ltb t deadline
    then (if ends_session r.kind
        then record {
          effects = handle_session run_git (r ∷ []);
          waits_until = t;
          guard_fired = false;
        }
        else goes_on)
    else closed_by_guard deadline

-- The requests that the client sends before the deadline, and before it closes the channel.
abbrev pub in_time : ℕ → List ClientEvent → List Request
in_time deadline [] = []
in_time deadline (closes t ∷ es) = []
in_time deadline (sends t r ∷ es) =
    let more = r ∷ in_time deadline es in if ltb t deadline then more else []

-- The client closes the channel before the deadline, with every request before that in time.
abbrev pub leaves_in_time : ℕ → List ClientEvent → Bool
leaves_in_time deadline [] = false
leaves_in_time deadline (closes t ∷ es) = ltb t deadline
leaves_in_time deadline (sends t r ∷ es) = ltb t deadline && leaves_in_time deadline es

-- Whatever a client sends, and when, its session waits no longer than the deadline. It does what it
-- does on the requests that come in time, and the guard closes the channel exactly if there is no
-- `exec` or `shell` among them and the client has not closed the channel in time itself.
pub guarded_session-handle_session :
    (run_git : Bytes → ℤ) (deadline : ℕ) (es : List ClientEvent)
    → ((guarded_session run_git deadline es).waits_until ≤ deadline)
      × ((guarded_session run_git deadline es).effects
          ≡ handle_session run_git (in_time deadline es))
      × ((guarded_session run_git deadline es).guard_fired
          ≡ not
              (any (λ r. ends_session r.kind) (in_time deadline es) || leaves_in_time deadline es))
unfolding guarded_session
guarded_session-handle_session run_git deadline [] =
    (omega arith, unfold handle_session in refl, refl)
guarded_session-handle_session run_git deadline (closes t ∷ es) =
    elim (Bool-cases (ltb t deadline)) [
      | inl e ↦ rw e (ground (arith, e), unfold handle_session in refl, refl)
      | inr e ↦ rw e (omega arith, unfold handle_session in refl, refl)
    ]
guarded_session-handle_session run_git deadline (sends t r ∷ es) =
    elim (Bool-cases (ltb t deadline)) [
      | inr e ↦ rw e (omega arith, unfold handle_session in refl, refl)
      | inl e ↦ rw e (elim (Bool-cases (ends_session r.kind)) [
        | inl k ↦
            rw k (ground (arith, e), sym (ending_step run_git r (in_time deadline es) k), refl)
        | inr k ↦
            let ih = guarded_session-handle_session run_git deadline es in
            rw k (
              ih.0,
              ap (λ m. answer r (is_env r.kind) ++ m) ih.1
                  ∙ sym (silent_step run_git r (in_time deadline es) k),
              ih.2,
            )
      ])
    ]
