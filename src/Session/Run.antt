-- ===== src/Session/Run.antt =====
-- `runGitCommand`: what it starts git on, and that it gives back what it takes.
use simple_git_server.Base.{
  ℕ, ◌+◌, ◌≤◌, ◌≡◌, ◌↔◌, refl, sym, ap, ◌∙◌, subst, true, arith, ltb, Option, none, some, Result,
  ok, err, Bool-cases, inl, inr,
}
use simple_git_server.Text.{Bytes}
use simple_git_server.FilePath.{is_abs}
use simple_git_server.Command.{GitService, CommandError, ParsedGitCommand, parse_git_ssh_command}
use simple_git_server.Command.Parse.{Accepts, parse-Accepts_iff}
use simple_git_server.Command.Words.{Allowed}
use simple_git_server.Containment.{FsError, FileSystem}
use simple_git_server.Containment.Paths.{Resolves}
use simple_git_server.RepoPath.{RepoPathError, resolve_repo_path}
use simple_git_server.RepoPath.Existing.{IsServable, resolve_repo_path-IsServable}
use simple_git_server.Session.{
  Counts, GitExit, busy, ran, SessionConfig, start_git, run_git_command,
}

-- At most as many slots are in use as there are.
abbrev pub IsBounded : Option (ℕ × ℕ) → Type 0
IsBounded none = Unit
IsBounded (some (used, size)) = used ≤ size

-- Every slot is in use.
abbrev pub IsFull : Option (ℕ × ℕ) → Type 0
IsFull none = ⊥
IsFull (some (used, size)) = size ≤ used

abbrev counts : Option (ℕ × ℕ) → ℕ → ℕ → Counts
counts sem active wg = record { git_sem = sem; active = active; git_wg = wg }

module _ (fs : FileSystem) (cwd : Result FsError Bytes) (git : GitService → Bytes → GitExit) where
  started_counts :
      (sem : Option (ℕ × ℕ)) (active wg : ℕ) (s : GitService) (p : Bytes)
      → (start_git fs cwd git (counts sem active wg) s p).1 ≡ counts sem active wg
  unfolding start_git
  started_counts none active wg s p = ground arith
  started_counts (some (used, size)) active wg s p = elim (Bool-cases (ltb used size)) [
    | inl e ↦ rw (e, start_git) (ground arith)
    | inr e ↦ rw (e, start_git)
  ]

  start_git-counts : (c : Counts) (s : GitService) (p : Bytes) → (start_git fs cwd git c s p).1 ≡ c
  start_git-counts c = started_counts c.git_sem c.active c.git_wg

  -- Whatever the command, and however git ends, the slot, the connection's count and the wait group
  -- are afterwards as they were before.
  pub run_git_command-counts :
      (cfg : SessionConfig) (line : Bytes) (c : Counts)
      → (run_git_command fs cwd git cfg line c).1 ≡ c
  unfolding run_git_command
  run_git_command-counts cfg line c =
      go (parse_git_ssh_command line cfg.enable_ssh_read cfg.enable_ssh_write) refl
    where
      resolve :
          (p : ParsedGitCommand) (r : Result RepoPathError Bytes)
          → parse_git_ssh_command line cfg.enable_ssh_read cfg.enable_ssh_write ≡ ok p
          → resolve_repo_path fs cwd cfg.git_repos_folder p.repo ≡ r
          → (run_git_command fs cwd git cfg line c).1 ≡ c
      resolve p (err e) h k = rw (h, k, run_git_command)
      resolve p (ok path) h k = rw (h, k, run_git_command) (start_git-counts c p.service path)

      go :
          (r : Result CommandError ParsedGitCommand)
          → parse_git_ssh_command line cfg.enable_ssh_read cfg.enable_ssh_write ≡ r
          → (run_git_command fs cwd git cfg line c).1 ≡ c
      go (err e) h = rw (h, run_git_command)
      go (ok p) h = resolve p (resolve_repo_path fs cwd cfg.git_repos_folder p.repo) h refl

  -- What holds when git runs: the counts, the command and the path.
  pub record Ran (cfg : SessionConfig) (line : Bytes) (c during : Counts) (s : GitService)
      (path : Bytes) : Type 0 where
    pub command : ParsedGitCommand
    pub accepted : Accepts line cfg.enable_ssh_read cfg.enable_ssh_write command
    pub service_is : s ≡ command.service
    pub path_is : resolve_repo_path fs cwd cfg.git_repos_folder command.repo ≡ ok path
    pub active_is : during.active ≡ c.active + 1
    pub wg_is : during.git_wg ≡ c.git_wg + 1
    pub bounded : IsBounded during.git_sem

  -- What is known of the counts while git runs.
  abbrev During : ℕ → ℕ → GitService → Bytes → Counts → GitService → Bytes → Type 0
  During active wg s p during t q =
      (s ≡ t)
      × (p ≡ q)
      × (during.active ≡ active + 1)
      × (during.git_wg ≡ wg + 1)
      × IsBounded during.git_sem

  same_run :
      (active wg : ℕ) {d d' : Counts} {s t : GitService} {p q : Bytes} {x y : GitExit}
      → ran d s p x ≡ ran d' t q y
      → (d.active ≡ active + 1) × (d.git_wg ≡ wg + 1) × IsBounded d.git_sem
      → During active wg s p d' t q
  same_run active wg {d} {d'} h k =
      let e : d ≡ d' = cc in
      let k' =
        subst (λ c. (c.active ≡ active + 1) × (c.git_wg ≡ wg + 1) × IsBounded c.git_sem) e k in
      (cc, cc, k'.0, k'.1, k'.2)

  started_ran :
      (sem : Option (ℕ × ℕ)) (active wg : ℕ) (s : GitService) (p : Bytes) {during : Counts}
      {t : GitService} {q : Bytes} {x : GitExit}
      → (start_git fs cwd git (counts sem active wg) s p).0 ≡ ran during t q x
      → During active wg s p during t q
  unfolding start_git
  started_ran none active wg s p h = same_run active wg h (refl, refl, tt)
  started_ran (some (used, size)) active wg s p h = elim (Bool-cases (ltb used size)) [
    | inl e ↦ same_run active wg (rw (e, start_git) at h) (refl, refl, ground arith)
    | inr e ↦ cc (rw (e, start_git) at h)
  ]

  started_busy :
      (sem : Option (ℕ × ℕ)) (active wg : ℕ) (s : GitService) (p : Bytes)
      → ((start_git fs cwd git (counts sem active wg) s p).0 ≡ busy) ↔ IsFull sem
  unfolding start_git
  started_busy none active wg s p = (λ h. cc, λ f. absurd f)
  started_busy (some (used, size)) active wg s p = elim (Bool-cases (ltb used size)) [
    | inl e ↦ rw (e, start_git) (λ h. cc, λ f. absurd (ground arith))
    | inr e ↦ rw (e, start_git) (λ h. ground arith, λ f. refl)
  ]

  -- An acceptable command on a repository that is there is turned away as busy exactly if every
  -- slot for git processes is in use; without a limit it never is.
  pub run_git_command-busy_iff :
      (cfg : SessionConfig) (line : Bytes) (c : Counts) {p : ParsedGitCommand} {path : Bytes}
      → parse_git_ssh_command line cfg.enable_ssh_read cfg.enable_ssh_write ≡ ok p
      → resolve_repo_path fs cwd cfg.git_repos_folder p.repo ≡ ok path
      → ((run_git_command fs cwd git cfg line c).0 ≡ busy) ↔ IsFull c.git_sem
  unfolding run_git_command
  run_git_command-busy_iff cfg line c {p} {path} h k =
      rw (h, k, run_git_command) (started_busy c.git_sem c.active c.git_wg p.service path)

  -- If git was started, then on a service that is enabled, on the path that the command's
  -- repository resolves to, and while it ran it was counted once more everywhere, with no more
  -- slots in use than there are.
  pub run_git_command-Ran :
      (cfg : SessionConfig) (line : Bytes) (c : Counts) {during : Counts} {s : GitService}
      {path : Bytes} {x : GitExit}
      → (run_git_command fs cwd git cfg line c).0 ≡ ran during s path x
      → Ran cfg line c during s path
  unfolding run_git_command
  run_git_command-Ran cfg line c {during} {s} {path} {x} h =
      go (parse_git_ssh_command line cfg.enable_ssh_read cfg.enable_ssh_write) refl
    where
      resolve :
          (p : ParsedGitCommand) (r : Result RepoPathError Bytes)
          → parse_git_ssh_command line cfg.enable_ssh_read cfg.enable_ssh_write ≡ ok p
          → resolve_repo_path fs cwd cfg.git_repos_folder p.repo ≡ r
          → Ran cfg line c during s path
      resolve p (err e) k r = cc (rw (k, r, run_git_command) at h)
      resolve p (ok q) k r =
          let d =
            started_ran c.git_sem c.active c.git_wg p.service q (rw (k, r, run_git_command) at h) in
          record {
            command = p;
            accepted = (parse-Accepts_iff line cfg.enable_ssh_read cfg.enable_ssh_write p).0 k;
            service_is = sym d.0;
            path_is = r ∙ ap ok d.1;
            active_is = d.2;
            wg_is = d.3;
            bounded = d.4;
          }

      go :
          (r : Result CommandError ParsedGitCommand)
          → parse_git_ssh_command line cfg.enable_ssh_read cfg.enable_ssh_write ≡ r
          → Ran cfg line c during s path
      go (err e) k = cc (rw (k, run_git_command) at h)
      go (ok p) k = resolve p (resolve_repo_path fs cwd cfg.git_repos_folder p.repo) k refl

-- Under an absolute root, on a system that resolves symlinks to clean absolute paths, git is
-- started only for a service that is enabled, and only on a directory under the root that resolves
-- to what the root resolves to or beneath it.
pub run_git_command-IsServable :
    (fs : FileSystem)
    → Resolves fs
    → (cwd : Result FsError Bytes) (git : GitService → Bytes → GitExit) (cfg : SessionConfig)
      (line : Bytes) (c : Counts) {during : Counts} {s : GitService} {path : Bytes} {x : GitExit}
    → is_abs cfg.git_repos_folder ≡ true
    → (run_git_command fs cwd git cfg line c).0 ≡ ran during s path x
    → Allowed s cfg.enable_ssh_read cfg.enable_ssh_write × IsServable fs cfg.git_repos_folder path
run_git_command-IsServable fs sane cwd git cfg line c abs h =
    let r = run_git_command-Ran fs cwd git cfg line c h in
    (
      subst (λ t. Allowed t cfg.enable_ssh_read cfg.enable_ssh_write) (sym r.service_is)
          r.accepted.allowed,
      resolve_repo_path-IsServable fs sane cwd cfg.git_repos_folder r.command.repo abs r.path_is,
    )
