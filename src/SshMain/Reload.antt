-- ===== src/SshMain/Reload.antt =====
-- The signals of the SSH server: SIGHUP reloads the keys and goes on, anything else ends the
-- process.
use simple_git_server.Base.{◌≡◌, ◌≢◌, refl, ap, sym, ◌∙◌, subst, List, [], ◌∷◌, ◌++◌, map, Option}
use simple_git_server.Text.{Bytes}
use simple_git_server.Auth.{KeyLine, KeyStore, reload}
use simple_git_server.Auth.Store.{reloads, last_read, Reflects, reloads-Reflects}
use simple_git_server.SshMain.{
  MainEvent, accept_error, sighup, terminated, Closing, close_listener, cancel_git_commands,
  wait_for_git_commands, exit_code, main_loop,
}

-- How the process ends on an event, if it does.
abbrev pub closing : MainEvent → List Closing
closing accept_error = close_listener ∷ exit_code 1 ∷ []
closing (sighup read) = []
closing terminated = close_listener ∷ cancel_git_commands ∷ wait_for_git_commands ∷ exit_code 0 ∷ []

module _ {Key : Type 0} (marshal : Key → Bytes) (parse_line : Bytes → Option (KeyLine Key)) where
  hangups :
      (keys : KeyStore Key) (reads : List (Option Bytes)) (es : List MainEvent)
      → main_loop marshal parse_line keys (map sighup reads ++ es)
        ≡ main_loop marshal parse_line (reloads marshal parse_line keys reads) es
  unfolding main_loop
  hangups keys [] es = refl
  hangups keys (read ∷ reads) es = hangups (reload marshal parse_line keys read).0 reads es

  only_hangups :
      (keys : KeyStore Key) (reads : List (Option Bytes))
      → main_loop marshal parse_line keys (map sighup reads)
        ≡ (reloads marshal parse_line keys reads, [])
  unfolding main_loop
  only_hangups keys [] = refl
  only_hangups keys (read ∷ reads) = only_hangups (reload marshal parse_line keys read).0 reads

  last_event :
      (keys : KeyStore Key) (e : MainEvent) (es : List MainEvent)
      → ((read : Option Bytes) → e ≢ sighup read)
      → main_loop marshal parse_line keys (e ∷ es) ≡ (keys, closing e)
  unfolding main_loop
  last_event keys accept_error es other = refl
  last_event keys (sighup read) es other = absurd (other read refl)
  last_event keys terminated es other = refl

  -- Any number of SIGHUPs leaves the SSH server running, with keys that answer for the last key
  -- file that could be read: later connections are let in by that file, and by nothing that it no
  -- longer grants. The first error of the listener or other signal ends the process, whatever comes
  -- behind it: with exit code 1 after an error, and after a signal with 0, when the git commands
  -- have been cancelled and waited for.
  pub main_loop-Reflects :
      (keys : KeyStore Key) (found : Option Bytes) (reads : List (Option Bytes)) (e : MainEvent)
      (es : List MainEvent)
      → Reflects marshal parse_line keys found
      → ((read : Option Bytes) → e ≢ sighup read)
      → Reflects marshal parse_line
          (main_loop marshal parse_line keys (map sighup reads)).0
          (last_read marshal parse_line found reads)
        × ((main_loop marshal parse_line keys (map sighup reads)).1 ≡ [])
        × Reflects marshal parse_line
            (main_loop marshal parse_line keys (map sighup reads ++ (e ∷ es))).0
            (last_read marshal parse_line found reads)
        × ((main_loop marshal parse_line keys (map sighup reads ++ (e ∷ es))).1 ≡ closing e)
  main_loop-Reflects keys found reads e es h other =
      let r = reloads-Reflects marshal parse_line keys found reads h in
      let on = only_hangups keys reads in
      let end =
        hangups keys reads (e ∷ es)
        ∙ last_event (reloads marshal parse_line keys reads) e es other in
      let at = λ (k : KeyStore Key).
        Reflects marshal parse_line k (last_read marshal parse_line found reads) in
      (
        subst at (ap (λ p. p.0) (sym on)) r,
        ap (λ p. p.1) on,
        subst at (ap (λ p. p.0) (sym end)) r,
        ap (λ p. p.1) end,
      )
