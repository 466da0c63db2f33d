-- ===== src/Exchange/Body.antt =====
-- The limit on the body of a git request: how much of it git is given, and when it is refused.
use simple_git_server.Base.{
  ℕ, ◌+◌, ◌-◌, ◌≤◌, ◌<◌, ◌≡◌, ◌↔◌, refl, sym, ap, ◌∙◌, subst, List, [], ◌∷◌, Bool, Option, none,
  some, arith, leb, Bool-cases, inl, inr, min,
}
use simple_git_server.Text.{Bytes, codes}
use simple_git_server.Config.{ServerConfig, max_request_body}
use simple_git_server.Containment.{FileSystem}
use simple_git_server.Cgi.{Child, too_large, Reply, error_page, sent, aborted}
use simple_git_server.Routing.{Route, path_too_long, git, pulse, go_import, not_found, route}
use simple_git_server.Backend
use simple_git_server.Backend.{HttpRequest, GitCommand, Served, ServerEnv, Slots, serve_git}
use simple_git_server.Stall.{reads, writes, tick, stop, more, eof, over_limit, broken}
use simple_git_server.GitRequest.{
  RequestEvent, streams, client_gone, shutting_down, stream_events, request_cancelled,
  run_git_cgi_request,
}
use simple_git_server.GitRequest.Replies.{
  first_failure, NoResponse, too_large_page, cancelled_is, run_git_cgi_request-Answered,
}
use simple_git_server.Exchange.Commands.{after_serving-ran}
use simple_git_server.Exchange.{
  Answer, error_answer, reply_answer, limit_body, without_reads, body_length, after_serving, handle,
}

-- The client's connection does not fail: every read delivers some bytes, or the last ones.
abbrev pub IsSound : List RequestEvent → Type 0
IsSound [] = Unit
IsSound (streams (reads n more now) ∷ es) = IsSound es
IsSound (streams (reads n eof now) ∷ es) = IsSound es
IsSound (streams (reads n over_limit now) ∷ es) = ⊥
IsSound (streams (reads n broken now) ∷ es) = ⊥
IsSound (_ ∷ es) = IsSound es

without_reads-length : (es : List RequestEvent) → body_length (without_reads es) ≡ 0
without_reads-length [] = refl
without_reads-length (streams (reads n e now) ∷ es) = without_reads-length es
without_reads-length (streams (writes n now) ∷ es) = without_reads-length es
without_reads-length (streams (tick now) ∷ es) = without_reads-length es
without_reads-length (streams stop ∷ es) = without_reads-length es
without_reads-length (client_gone ∷ es) = without_reads-length es
without_reads-length (shutting_down ∷ es) = without_reads-length es

-- What the limit makes of a body: its first bytes, and an error exactly if there are more.
abbrev Limits : ℕ → List RequestEvent → Type 0
Limits limit es =
    (body_length (limit_body limit es) ≡ min limit (body_length es))
    × ((first_failure (stream_events (limit_body limit es)) ≡ too_large) ↔ (limit < body_length es))

read-Limits :
    (limit n now : ℕ) (es : List RequestEvent)
    → Limits (limit - n) es
    → Limits limit (streams (reads n more now) ∷ es) × Limits limit (streams (reads n eof now) ∷ es)
unfolding limit_body
read-Limits limit n now es ih = elim (Bool-cases (leb n limit)) [
  | inl e ↦
      let within : n ≤ limit = ground (arith, e) in
      let length : n + body_length (limit_body (limit - n) es) ≡ min limit (n + body_length es) =
        omega (arith, ih.0) in
      rw e (
        (length, (λ h. omega (arith, ih.1.0 h), λ h. ih.1.1 (omega arith))),
        (length, (λ h. omega (arith, ih.1.0 h), λ h. ih.1.1 (omega arith))),
      )
  | inr e ↦
      let over : limit < n = ground (arith, e) in
      let none = without_reads-length es in
      rw e (
        (omega (arith, none), (λ h. omega arith, λ h. refl)),
        (omega (arith, none), (λ h. omega arith, λ h. refl)),
      )
]

limit_body-Limits : (limit : ℕ) (es : List RequestEvent) → IsSound es → Limits limit es
unfolding limit_body
limit_body-Limits limit [] s = (omega arith, (λ h. cc, λ h. absurd (omega (arith, h))))
limit_body-Limits limit (streams (reads n more now) ∷ es) s =
    (read-Limits limit n now es (limit_body-Limits (limit - n) es s)).0
limit_body-Limits limit (streams (reads n eof now) ∷ es) s =
    (read-Limits limit n now es (limit_body-Limits (limit - n) es s)).1
limit_body-Limits limit (streams (reads n over_limit now) ∷ es) s = absurd s
limit_body-Limits limit (streams (reads n broken now) ∷ es) s = absurd s
limit_body-Limits limit (streams (writes n now) ∷ es) s = limit_body-Limits limit es s
limit_body-Limits limit (streams (tick now) ∷ es) s = limit_body-Limits limit es s
limit_body-Limits limit (streams stop ∷ es) s = limit_body-Limits limit es s
limit_body-Limits limit (client_gone ∷ es) s = limit_body-Limits limit es s
limit_body-Limits limit (shutting_down ∷ es) s = limit_body-Limits limit es s

abbrev pub too_large_answer : Answer
too_large_answer = error_answer 413 (codes "request body too large")

reply-too_large :
    (o : Option Reply) → (reply_answer o ≡ too_large_answer) ↔ (o ≡ some too_large_page)
reply-too_large none = (λ h. cc, λ h. cc)
reply-too_large (some (error_page code msg)) = (λ h. cc, λ h. cc)
reply-too_large (some (sent response)) = (λ h. cc, λ h. cc)
reply-too_large (some aborted) = (λ h. cc, λ h. cc)

module _ (fs : FileSystem) (look_path : Bytes → Option Bytes) (env : ServerEnv) (cfg : ServerConfig)
    (child : GitCommand → Bool → Option Child) where
  -- A request for which git runs is served with the body limited.
  handle_runs :
      (now : ℕ) (events : List RequestEvent) (r : HttpRequest) (slots : Slots) (active : ℕ)
      {command : GitCommand}
      → (handle fs look_path env cfg child now events r slots active).ran ≡ some command
      → handle fs look_path env cfg child now events r slots active
        ≡ after_serving child cfg.git_idle_timeout now
            (limit_body (max_request_body cfg) events)
            active
            (serve_git fs look_path env cfg r slots).1
            (serve_git fs look_path env cfg r slots).2
            (Backend.runs command)
  unfolding handle
  handle_runs now events r slots active {command} h = go (route cfg r.path) refl
    where
      go :
          (x : Route)
          → route cfg r.path ≡ x
          → handle fs look_path env cfg child now events r slots active
            ≡ after_serving child cfg.git_idle_timeout now
                (limit_body (max_request_body cfg) events)
                active
                (serve_git fs look_path env cfg r slots).1
                (serve_git fs look_path env cfg r slots).2
                (Backend.runs command)
      go path_too_long e = cc (rw (e, handle) at h)
      go pulse e = cc (rw (e, handle) at h)
      go go_import e = cc (rw (e, handle) at h)
      go not_found e = cc (rw (e, handle) at h)
      go git e =
          let s = serve_git fs look_path env cfg r slots in
          let limited = limit_body (max_request_body cfg) events in
          rw (e, handle)
            (ap (after_serving child cfg.git_idle_timeout now limited active s.1 s.2) (
              after_serving-ran fs look_path env cfg child now limited active s.1 s.2 s.0
                (rw (e, handle) at h)))

  -- When git runs for a request whose connection does not fail, it is given the first bytes of the
  -- body up to the configured limit, which is all of a body within the limit. The client is told
  -- that its body is too large exactly if it is longer than the limit and git has ended without a
  -- complete response.
  pub handle-Limited :
      (now : ℕ) (events : List RequestEvent) (r : HttpRequest) (slots : Slots) (active : ℕ)
      {command : GitCommand}
      → IsSound events
      → (handle fs look_path env cfg child now events r slots active).ran ≡ some command
      → ((handle fs look_path env cfg child now events r slots active).given
          ≡ min (max_request_body cfg) (body_length events))
        × (((handle fs look_path env cfg child now events r slots active).answer ≡ too_large_answer)
            ↔ ((k : Child) × (child command (
                    request_cancelled cfg.git_idle_timeout now
                      (limit_body (max_request_body cfg) events))
                  ≡ some k)
                × NoResponse k
                × (max_request_body cfg < body_length events)))
  handle-Limited now events r slots active {command} sound h =
      let limited = limit_body (max_request_body cfg) events in
      let is = handle_runs now events r slots active h in
      let l = limit_body-Limits (max_request_body cfg) events sound in
      let idle = cfg.git_idle_timeout in
      let page =
        reply-too_large (run_git_cgi_request (child command) idle now limited active).reply in
      let told = (run_git_cgi_request-Answered (child command) idle now active limited).1 in
      let c = cancelled_is (child command) idle now active limited in
      (
        ap (λ x. x.given) is ∙ l.0,
        (
          λ a.
              let (k, e, n, f) = told.0 (page.0 (sym (ap (λ x. x.answer) is) ∙ a)) in
              (k, subst (λ b. child command b ≡ some k) c e, n, l.1.0 f),
          λ q.
              let (k, e, n, f) = q in
              ap (λ x. x.answer) is
              ∙ page.1 (told.1 (k, subst (λ b. child command b ≡ some k) (sym c) e, n, l.1.1 f)),
        ),
      )
