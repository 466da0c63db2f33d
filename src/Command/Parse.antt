-- ===== src/Command/Parse.antt =====
-- `parseGitSSHCommand`: which commands it accepts, and that it reads the commands of a git client.
use simple_git_server.Base.{
  ◌≡◌, ◌≢◌, ◌↔◌, ◌⊎◌, inl, inr, refl, sym, ap, ◌∙◌, subst, Bool, false, List, [], Option, none,
  some, Result, ok, err, Bool-cases,
}
use simple_git_server.Text.{Bytes, equal}
use simple_git_server.Text.Laws.{equal_iff, equal_ne}
use simple_git_server.Text.Unicode.{trim_space}
use simple_git_server.Command.{
  GitService, ParsedGitCommand, CommandError, classify, allow, finish_command, check_words,
  split_git_command, strip_quotes, parse_git_ssh_command,
}
use simple_git_server.Command.Words.{Allowed, Names, classify_names, classify_sound, allow_iff}

-- What an accepted command line is: its words are a service that is enabled, in one of the two
-- spellings, and one argument; the repository is that argument without its quotes, and not empty.
pub record Accepts (line : Bytes) (fetch push : Bool) (p : ParsedGitCommand) : Type 0 where
  pub arg : Bytes
  pub line_ne_nil : trim_space line ≢ []
  pub names : Names (split_git_command (trim_space line)) p.service arg
  pub allowed : Allowed p.service fetch push
  pub repo_is : p.repo ≡ strip_quotes arg
  pub repo_ne_nil : p.repo ≢ []

finish_sound :
    (service : GitService) (arg : Bytes) (p : ParsedGitCommand)
    → finish_command service arg ≡ ok p
    → (p.service ≡ service) × (p.repo ≡ strip_quotes arg) × (p.repo ≢ [])
unfolding finish_command
finish_sound service arg p h = elim (Bool-cases (equal (strip_quotes arg) [])) [
  | inl e ↦ cc (rw e at h)
  | inr n ↦
      let q = ok_inj (rw n at h) in
      (
        ap (λ (x : ParsedGitCommand). x.service) q,
        ap (λ (x : ParsedGitCommand). x.repo) q,
        λ e. absurd_of n (sym (ap (λ (x : ParsedGitCommand). x.repo) q) ∙ e),
      )
]
  where
    ok_inj :
        {a b : ParsedGitCommand}
        → ◌≡◌ {A = Result CommandError ParsedGitCommand} (ok a) (ok b)
        → b ≡ a
    ok_inj h = cc

    absurd_of : equal (strip_quotes arg) [] ≡ false → strip_quotes arg ≡ [] → ⊥
    absurd_of n e = cc (sym n ∙ (equal_iff (strip_quotes arg) []).1 e)

allow-cases :
    (service : GitService) (fetch push : Bool)
    → (allow service fetch push ≡ ok tt) ⊎ ((e : CommandError) × (allow service fetch push ≡ err e))
allow-cases service fetch push = go (allow service fetch push) refl
  where
    go :
        (r : Result CommandError (Unit {0}))
        → allow service fetch push ≡ r
        → (allow service fetch push ≡ ok tt)
          ⊎ ((e : CommandError) × (allow service fetch push ≡ err e))
    go (ok tt) h = inl h
    go (err e) h = inr (e, h)

words_sound :
    (words : List Bytes) (fetch push : Bool) (p : ParsedGitCommand)
    → check_words words fetch push ≡ ok p
    → (arg : Bytes) × Names words p.service arg
      × Allowed p.service fetch push
      × (p.repo ≡ strip_quotes arg)
      × (p.repo ≢ [])
unfolding check_words
words_sound words fetch push p h = go (classify words) refl
  where
    accept :
        (s : GitService) (a : Bytes)
        → classify words ≡ some (s, a)
        → allow s fetch push ≡ ok tt
        → (arg : Bytes) × Names words p.service arg
          × Allowed p.service fetch push
          × (p.repo ≡ strip_quotes arg)
          × (p.repo ≢ [])
    accept s a e r =
        let (same, repo, ne) = finish_sound s a p (rw (check_words, e, r) at h) in
        (
          a,
          subst (λ x. Names words x a) (sym same) (classify_sound words e),
          subst (λ x. Allowed x fetch push) (sym same) ((allow_iff s fetch push).0 r),
          repo,
          ne,
        )

    go :
        (o : Option (GitService × Bytes))
        → classify words ≡ o
        → (arg : Bytes) × Names words p.service arg
          × Allowed p.service fetch push
          × (p.repo ≡ strip_quotes arg)
          × (p.repo ≢ [])
    go none e = cc (rw (e, check_words) at h)
    go (some (s, a)) e = elim (allow-cases s fetch push) [
      | inl r ↦ accept s a e r
      | inr (x, r) ↦ cc (rw (e, r, check_words) at h)
    ]

finish_complete :
    (p : ParsedGitCommand) (arg : Bytes)
    → p.repo ≡ strip_quotes arg
    → p.repo ≢ []
    → finish_command p.service arg ≡ ok p
unfolding finish_command
finish_complete p arg r ne =
    rw (equal_ne (strip_quotes arg) [] (λ e. ne (r ∙ e)))
      (λ i. ok (record { service = p.service; repo = sym r i }))

words_complete :
    (words : List Bytes) (fetch push : Bool) (p : ParsedGitCommand) (arg : Bytes)
    → Names words p.service arg
    → Allowed p.service fetch push
    → p.repo ≡ strip_quotes arg
    → p.repo ≢ []
    → check_words words fetch push ≡ ok p
unfolding check_words
words_complete words fetch push p arg n a r ne =
    let e = ap classify n.words_are ∙ classify_names n.spelling p.service arg in
    rw (e, check_words) (rw ((allow_iff p.service fetch push).1 a) (finish_complete p arg r ne))

-- A command line is accepted, with a result, exactly if its words are an enabled service and one
-- argument, and the result is that service and the argument without its quotes, not empty.
pub parse-Accepts_iff :
    (line : Bytes) (fetch push : Bool) (p : ParsedGitCommand)
    → (parse_git_ssh_command line fetch push ≡ ok p) ↔ Accepts line fetch push p
unfolding parse_git_ssh_command
parse-Accepts_iff line fetch push p = elim (Bool-cases (equal (trim_space line) [])) [
  | inl e ↦ rw e (λ h. cc, λ a. absurd (a.line_ne_nil ((equal_iff (trim_space line) []).0 e)))
  | inr n ↦ rw n (
    λ h.
        let (arg, names, allowed, repo, ne) =
          words_sound (split_git_command (trim_space line)) fetch push p h in
        record {
          arg = arg;
          line_ne_nil = λ e. cc (sym n ∙ (equal_iff (trim_space line) []).1 e);
          names = names;
          allowed = allowed;
          repo_is = repo;
          repo_ne_nil = ne;
        },
    λ a.
        words_complete (split_git_command (trim_space line)) fetch push p a.arg a.names a.allowed
          a.repo_is a.repo_ne_nil,
  )
]
