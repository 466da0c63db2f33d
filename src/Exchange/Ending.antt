-- ===== src/Exchange/Ending.antt =====
-- What a request that ends gives back.
use simple_git_server.Base.{
  ℕ, ◌+◌, ◌≤◌, ◌≡◌, ◌≢◌, refl, Bool, true, false, ◌⊎◌, List, Option, none, some, arith, ltb,
  Bool-cases, inl, inr,
}
use simple_git_server.Text.{Bytes}
use simple_git_server.FilePath.{is_abs}
use simple_git_server.Config.{ServerConfig, max_request_body}
use simple_git_server.Containment.{FileSystem}
use simple_git_server.Containment.Paths.{Resolves}
use simple_git_server.Routing.{Route, path_too_long, git, pulse, go_import, not_found, route}
use simple_git_server.Backend
use simple_git_server.Backend.{
  HttpRequest, GitCommand, Served, ServerEnv, Slots, check_cgi_env_limits, serve_git,
  serve_with_slot, release_slot,
}
use simple_git_server.Backend.Serve.{serve_git_slots}
use simple_git_server.Backend.Answers.{serve_with_slot_answers}
use simple_git_server.Cgi.{Child, Reply}
use simple_git_server.GoImport.{GoImport, no_page, serve_go_import}
use simple_git_server.GoImport.Page.{serve_go_import_answers}
use simple_git_server.GitRequest.{
  RequestEvent, request_cancelled, git_begin, git_end, run_git_cgi_request,
}
use simple_git_server.Exchange.{
  Answer, never_ends, unanswered, limit_body, Exchange, reply_answer, import_answer, without_git,
  after_serving, handle,
}

module _ (fs : FileSystem) (look_path : Bytes → Option Bytes) (env : ServerEnv) (cfg : ServerConfig)
    (child : GitCommand → Bool → Option Child) where
  -- What a handler has done to the slots and the count of running commands when it has ended.
  pub record Restores (slots : Slots) (active : ℕ) (x : Exchange) : Type 0 where
    pub decided : x.answer ≢ unanswered
    pub ended : x.answer ≢ never_ends
    pub slots_back : x.slots_after ≡ slots
    pub active_back : x.active_after ≡ active
    pub slots_bound : x.slots_during.used ≤ slots.size
    pub active_bound : x.active_during ≤ active + 1

  -- A request for which no git runs, with the slots while it is served.
  turned_away-Restores :
      (active : ℕ) (during slots before : Slots) (a : Answer)
      → a ≢ unanswered
      → a ≢ never_ends
      → slots ≡ before
      → during.used ≤ before.size
      → Restores before active (record (without_git slots active a) { slots_during = during })
  turned_away-Restores active during slots before a n m e h = record {
    decided = n;
    ended = m;
    slots_back = e;
    active_back = refl;
    slots_bound = h;
    active_bound = omega arith;
  }

  reply-decided : (r : Reply) → reply_answer (some r) ≢ unanswered
  reply-decided r e = ground arith

  reply-ended : (r : Reply) → reply_answer (some r) ≢ never_ends
  reply-ended r e = ground arith

  after_running-Restores :
      (now : ℕ) (events : List RequestEvent) (active : ℕ) (during slots before : Slots)
      (command : GitCommand)
      → child command (request_cancelled cfg.git_idle_timeout now events) ≢ none
      → slots ≡ before
      → during.used ≤ before.size
      → Restores before active (
          after_serving child cfg.git_idle_timeout now events active during slots
            (Backend.runs command))
  unfolding run_git_cgi_request git_begin git_end
  after_running-Restores now events active during slots before command ends e h =
      go (child command (request_cancelled cfg.git_idle_timeout now events)) refl
    where
      go :
          (o : Option Child)
          → child command (request_cancelled cfg.git_idle_timeout now events) ≡ o
          → Restores before active (
              after_serving child cfg.git_idle_timeout now events active during slots
                (Backend.runs command))
      go none k = absurd (ends k)
      go (some c) k =
          rw (k, run_git_cgi_request)
            (record {
              decided = reply-decided _;
              ended = reply-ended _;
              slots_back = e;
              active_back = omega arith;
              slots_bound = h;
              active_bound = omega arith;
            })

  after_serving-Restores :
      (now : ℕ) (events : List RequestEvent) (active : ℕ) (during slots before : Slots) (s : Served)
      → ((command : GitCommand)
          → child command (request_cancelled cfg.git_idle_timeout now events) ≢ none)
      → s ≢ Backend.no_answer
      → slots ≡ before
      → during.used ≤ before.size
      → Restores before active
          (after_serving child cfg.git_idle_timeout now events active during slots s)
  after_serving-Restores now events active during slots before (Backend.rejected code msg) k n e h =
      turned_away-Restores active during slots before _ (λ x. cc) (λ x. cc) e h
  after_serving-Restores now events active during slots before Backend.busy k n e h =
      turned_away-Restores active during slots before _ (λ x. cc) (λ x. cc) e h
  after_serving-Restores now events active during slots before (Backend.not_found x) k n e h =
      turned_away-Restores active during slots before _ (λ x. cc) (λ x. cc) e h
  after_serving-Restores now events active during slots before Backend.no_answer k n e h =
      absurd (n refl)
  after_serving-Restores now events active during slots before (Backend.runs command) k n e h =
      after_running-Restores now events active during slots before command (k command) e h

  serve_git_answers :
      (r : HttpRequest) (slots : Slots)
      → Resolves fs
      → is_abs cfg.git_repos_folder ≡ true
      → (serve_git fs look_path env cfg r slots).0 ≢ Backend.no_answer
  unfolding serve_git
  serve_git_answers r slots sane abs h = go (check_cgi_env_limits r) refl
    where
      go : (o : Option (ℕ × Bytes)) → check_cgi_env_limits r ≡ o → ⊥
      go (some (code, msg)) e = ground (arith, rw (e, serve_git) at h)
      go none e = elim (Bool-cases (ltb slots.used slots.size)) [
        | inr f ↦ ground (arith, rw (e, f, serve_git) at h)
        | inl f ↦
            serve_with_slot_answers fs look_path env cfg sane abs r (rw (e, f, serve_git) at h)
      ]

  -- A killed command ends, and so does any command here, by itself or by being killed.
  command-ends :
      (cancelled : Bool)
      → ((command : GitCommand) → child command true ≢ none)
      → ((cancelled ≡ true) ⊎ ((command : GitCommand) → child command false ≢ none))
      → (command : GitCommand) → child command cancelled ≢ none
  command-ends true killed d command = killed command
  command-ends false killed (inl e) command = cc
  command-ends false killed (inr k) command = k command

  -- A request whose git command ends, by itself or because it is cancelled, is decided and ended on
  -- every route, and leaves the slots and the count of running git commands as it found them: while
  -- it is served no more slots are in use than there are, and it counts as one command at most. A
  -- killed command ends; the folder of repositories is absolute, the system resolves its symlinks,
  -- and no more slots were in use than there are.
  pub handle-Restores :
      (now : ℕ) (events : List RequestEvent) (r : HttpRequest) (slots : Slots) (active : ℕ)
      → Resolves fs
      → is_abs cfg.git_repos_folder ≡ true
      → slots.used ≤ slots.size
      → ((command : GitCommand) → child command true ≢ none)
      → ((request_cancelled cfg.git_idle_timeout now (limit_body (max_request_body cfg) events)
            ≡ true)
          ⊎ ((command : GitCommand) → child command false ≢ none))
      → Restores slots active (handle fs look_path env cfg child now events r slots active)
  unfolding handle
  handle-Restores now events r slots active sane abs h killed ends = go (route cfg r.path) refl
    where
      limited : List RequestEvent
      limited = limit_body (max_request_body cfg) events

      imported : (g : GoImport) → g ≢ no_page → import_answer g ≢ unanswered
      imported g n e = ground arith

      import_ended : (g : GoImport) → import_answer g ≢ never_ends
      import_ended g e = ground arith

      quiet :
          (a : Answer)
          → a ≢ unanswered
          → a ≢ never_ends
          → Restores slots active (without_git slots active a)
      quiet a n m = turned_away-Restores active slots slots slots a n m refl h

      go :
          (x : Route)
          → route cfg r.path ≡ x
          → Restores slots active (handle fs look_path env cfg child now events r slots active)
      go path_too_long e = rw (e, handle) (quiet _ (λ x. cc) (λ x. cc))
      go pulse e = rw (e, handle) (quiet _ (λ x. cc) (λ x. cc))
      go not_found e = rw (e, handle) (quiet _ (λ x. cc) (λ x. cc))
      go go_import e =
          let g = serve_go_import fs cfg r.path in
          rw (e, handle)
            (quiet _ (imported g (serve_go_import_answers fs cfg sane abs r.path)) (import_ended g))
      go git e =
          let s = serve_git fs look_path env cfg r slots in
          let k = serve_git_slots fs look_path env cfg r slots h in
          rw (e, handle)
            (after_serving-Restores now limited active s.1 s.2 slots s.0
              (command-ends (request_cancelled cfg.git_idle_timeout now limited) killed ends)
              (serve_git_answers r slots sane abs) k.0 k.1)
