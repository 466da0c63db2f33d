-- ===== src/GitRequest/Replies.antt =====
-- What a git request is answered with, and when its git command is cancelled.
use simple_git_server.Base.{
  ℕ, ◌+◌, ◌<◌, ◌≡◌, ◌↔◌, ◌⊎◌, inl, inr, refl, ◌∙◌, subst, Bool, true, false, ◌||◌, List, [], ◌∷◌,
  arith, Result, ok, err, Bool-cases, Option, none, some, sym, ap,
}
use simple_git_server.Text.{codes}
use simple_git_server.Cgi.{
  CgiError, CgiResponse, valid_status, write_cgi_response, Child, no_pipe, no_start, writes,
  BodyError, no_body_error, too_large, other_body_error, Reply, error_page, run_git_cgi,
}
use simple_git_server.Stall
use simple_git_server.Stall.{
  Transfer, ReadEnd, more, eof, over_limit, broken, StreamEvent, run_events, on_event, new_transfer,
}
use simple_git_server.Stall.Watch.{Stalls, run_events-Stalls_iff}
use simple_git_server.GitRequest.{
  RequestEvent, streams, client_gone, shutting_down, stream_events, context_done, git_begin,
  git_end, request_cancelled, Answered, run_git_cgi_request,
}

-- The first error of a read of the body.
abbrev pub first_failure : List StreamEvent → BodyError
first_failure [] = no_body_error
first_failure (Stall.reads n more now ∷ es) = first_failure es
first_failure (Stall.reads n eof now ∷ es) = first_failure es
first_failure (Stall.reads n over_limit now ∷ es) = too_large
first_failure (Stall.reads n broken now ∷ es) = other_body_error
first_failure (Stall.writes n now ∷ es) = first_failure es
first_failure (Stall.tick now ∷ es) = first_failure es
first_failure (Stall.stop ∷ es) = first_failure es

-- An error that is there, or the first one to come.
abbrev or_first : BodyError → BodyError → BodyError
or_first no_body_error b = b
or_first too_large b = too_large
or_first other_body_error b = other_body_error

event_failure :
    (idle : ℕ) (t : Transfer) (e : StreamEvent) (es : List StreamEvent)
    → or_first (on_event idle t e).failure (first_failure es)
      ≡ or_first t.failure (first_failure (e ∷ es))
unfolding on_event Stall.mark Stall.end_read Stall.fail_read Stall.watch_tick
event_failure idle t (Stall.reads n more now) es = ground arith
event_failure idle t (Stall.reads n eof now) es = ground arith
event_failure idle t (Stall.reads n over_limit now) es = ground arith
event_failure idle t (Stall.reads n broken now) es = ground arith
event_failure idle t (Stall.writes n now) es = ground arith
event_failure idle t (Stall.tick now) es = ground arith
event_failure idle t Stall.stop es = ground arith

run_failure :
    (idle : ℕ) (t : Transfer) (es : List StreamEvent)
    → (run_events idle t es).failure ≡ or_first t.failure (first_failure es)
unfolding run_events
run_failure idle t [] = ground arith
run_failure idle t (e ∷ es) = run_failure idle (on_event idle t e) es ∙ event_failure idle t e es

-- The child wrote no complete response.
abbrev pub NoResponse : Child → Type 0
NoResponse no_pipe = ⊥
NoResponse no_start = ⊥
NoResponse (writes output) = (e : CgiError) × (write_cgi_response output ≡ err e)

abbrev pub too_large_page : Reply
too_large_page = error_page 413 (codes "request body too large")

cgi_too_large :
    (c : Child) (b : BodyError)
    → (run_git_cgi c b ≡ too_large_page) ↔ (NoResponse c × (b ≡ too_large))
unfolding run_git_cgi
cgi_too_large no_pipe b = (λ h. absurd (ground arith), λ s. absurd s.0)
cgi_too_large no_start b = (λ h. absurd (ground arith), λ s. absurd s.0)
cgi_too_large (writes output) b = go (write_cgi_response output) refl b
  where
    go :
        (r : Result CgiError CgiResponse)
        → write_cgi_response output ≡ r
        → (b : BodyError)
        → (run_git_cgi (writes output) b ≡ too_large_page)
          ↔ (NoResponse (writes output) × (b ≡ too_large))
    go (ok response) e b = elim (Bool-cases (valid_status response.status)) [
      | inl v ↦ (λ h. cc (rw (e, v, run_git_cgi) at h), λ s. cc (s.0.1))
      | inr v ↦ (λ h. cc (rw (e, v, run_git_cgi) at h), λ s. cc (s.0.1))
    ]
    go (err x) e too_large = (λ h. ((x, e), refl), λ s. rw (e, run_git_cgi) refl)
    go (err x) e no_body_error =
        (λ h. let k = rw (e, run_git_cgi) at h in absurd (ground (arith, k)), λ s. cc (s.1))
    go (err x) e other_body_error =
        (λ h. let k = rw (e, run_git_cgi) at h in absurd (ground (arith, k)), λ s. cc (s.1))

either_iff :
    {S P : Type 0} (c d : Bool) → (d ≡ true) ↔ P → (c ≡ true) ↔ S → ((c || d) ≡ true) ↔ (P ⊎ S)
either_iff true d k h = (λ e. inr (h.0 refl), λ s. refl)
either_iff false true k h = (λ e. inl (k.0 refl), λ s. refl)
either_iff false false k h = (λ e. cc, λ s. elim s [ inl p ↦ k.1 p | inr q ↦ h.1 q ])

-- The client goes away, or the server shuts down, before the request ends.
abbrev pub Interrupted : List RequestEvent → Type 0
Interrupted [] = ⊥
Interrupted (e ∷ es) = (e ≡ client_gone) ⊎ (e ≡ shutting_down) ⊎ Interrupted es

context_done-Interrupted_iff : (es : List RequestEvent) → (context_done es ≡ true) ↔ Interrupted es
context_done-Interrupted_iff [] = (λ h. cc, λ h. absurd h)
context_done-Interrupted_iff (streams e ∷ es) = (
  λ h. inr (inr ((context_done-Interrupted_iff es).0 h)),
  λ h. elim h [
    | inl k ↦ cc
    | inr k ↦ elim k [ inl k ↦ cc | inr k ↦ (context_done-Interrupted_iff es).1 k ]
  ],
)
context_done-Interrupted_iff (client_gone ∷ es) = (λ h. inl refl, λ h. refl)
context_done-Interrupted_iff (shutting_down ∷ es) = (λ h. inr (inl refl), λ h. refl)

some-injective : {a b : Child} → some a ≡ some b → a ≡ b
some-injective h = cc

module _ (child : Bool → Option Child) where
  -- The outcome if the child, cancelled or not, does not end, or ends.
  abbrev Fared : Transfer → Bool → ℕ → Option Child → Answered → Type 0
  Fared t c active o a =
      (a.cancelled ≡ c)
      × ((a.reply ≡ some too_large_page)
          ↔ ((k : Child) × (o ≡ some k) × NoResponse k × (t.failure ≡ too_large)))
      × (a.active_during ≡ active + 1)
      × (((o ≡ none) × (a.reply ≡ none) × (a.active_after ≡ active + 1))
          ⊎ ((k : Child) × (o ≡ some k) × (a.active_after ≡ active)))

  run-Fared :
      (idle now active : ℕ) (es : List RequestEvent)
      → Fared
          (run_events idle (new_transfer idle now) (stream_events es))
          (request_cancelled idle now es)
          active
          (child (request_cancelled idle now es))
          (run_git_cgi_request child idle now es active)
  unfolding run_git_cgi_request git_begin git_end
  run-Fared idle now active es = go (child (request_cancelled idle now es)) refl
    where
      t : Transfer
      t = run_events idle (new_transfer idle now) (stream_events es)

      go :
          (o : Option Child)
          → child (request_cancelled idle now es) ≡ o
          → Fared t
              (request_cancelled idle now es)
              active
              o
              (run_git_cgi_request child idle now es active)
      go none e =
          rw (e, run_git_cgi_request) (refl, (λ h. cc, λ h. cc (h.1)), refl, inl (refl, refl, refl))
      go (some k) e =
          let large = cgi_too_large k t.failure in
          rw (e, run_git_cgi_request)
            (
              refl,
              (
                λ h. let x = large.0 (cc h) in (k, refl, x.0, x.1),
                λ h. ap some (large.1 (subst NoResponse (some-injective (sym h.1)) h.2, h.3)),
              ),
              refl,
              inr (k, refl, omega arith),
            )

  pub cancelled_is :
      (idle now active : ℕ) (es : List RequestEvent)
      → (run_git_cgi_request child idle now es active).cancelled ≡ request_cancelled idle now es
  cancelled_is idle now active es = (run-Fared idle now active es).0

  -- A git request with a timeout of `idle` is cancelled exactly if its client goes away or the
  -- server shuts down while it runs, or its watchdog finds it stalled. The client is told that its
  -- body is too large exactly if the first error of reading that was its size, and git, which has
  -- ended, had written no complete response. The count of running git commands is one more while it
  -- runs, and afterwards what it was; it stays if git does not end, and then there is no reply.
  pub run_git_cgi_request-Answered :
      (idle now active : ℕ) (es : List RequestEvent)
      → (((run_git_cgi_request child idle now es active).cancelled ≡ true)
          ↔ (Interrupted es ⊎ ((0 < idle) × Stalls idle now false (stream_events es))))
        × (((run_git_cgi_request child idle now es active).reply ≡ some too_large_page) ↔ (
            (k : Child) × (child (run_git_cgi_request child idle now es active).cancelled ≡ some k)
            × NoResponse k
            × (first_failure (stream_events es) ≡ too_large)))
        × ((run_git_cgi_request child idle now es active).active_during ≡ active + 1)
        × (((child (run_git_cgi_request child idle now es active).cancelled ≡ none)
              × ((run_git_cgi_request child idle now es active).reply ≡ none)
              × ((run_git_cgi_request child idle now es active).active_after ≡ active + 1))
            ⊎ ((k : Child) × (child (run_git_cgi_request child idle now es active).cancelled
                  ≡ some k)
                × ((run_git_cgi_request child idle now es active).active_after ≡ active)))
  unfolding request_cancelled new_transfer
  run_git_cgi_request-Answered idle now active es =
      let t = run_events idle (new_transfer idle now) (stream_events es) in
      let a = run_git_cgi_request child idle now es active in
      let failed : t.failure ≡ first_failure (stream_events es) =
        run_failure idle (new_transfer idle now) (stream_events es) in
      let f = run-Fared idle now active es in
      (
        subst
            (λ c.
              (c ≡ true)
              ↔ (Interrupted es ⊎ ((0 < idle) × Stalls idle now false (stream_events es))))
            (sym f.0)
            (either_iff t.cancelled (context_done es) (context_done-Interrupted_iff es)
              (run_events-Stalls_iff idle now (stream_events es))),
        subst
            (λ b.
              (a.reply ≡ some too_large_page)
              ↔ ((k : Child) × (child a.cancelled ≡ some k) × NoResponse k × (b ≡ too_large)))
            failed
            (subst
              (λ c.
                (a.reply ≡ some too_large_page)
                ↔ ((k : Child) × (child c ≡ some k) × NoResponse k × (t.failure ≡ too_large)))
              (sym f.0) f.1),
        f.2,
        subst
            (λ c.
              ((child c ≡ none) × (a.reply ≡ none) × (a.active_after ≡ active + 1))
              ⊎ ((k : Child) × (child c ≡ some k) × (a.active_after ≡ active)))
            (sym f.0) f.3,
      )
