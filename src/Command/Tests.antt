-- ===== src/Command/Tests.antt =====
-- Runs of the command parser, and instances of its theorems.
use simple_git_server.Base.{◌≡◌, ◌↔◌, refl, true, false, arith, ok, err}
use simple_git_server.Text.{Bytes, codes, equal}
use simple_git_server.Text.Unicode.{trim_space}
use simple_git_server.Command.{
  upload_pack, receive_pack, push_disabled, unsupported_command, empty_command,
  empty_repository_path, ParsedGitCommand, parse_git_ssh_command, check_words, classify, allow,
  finish_command, strip_quotes, split_git_command,
}
use simple_git_server.Command.Parse.{Accepts, parse-Accepts_iff}
use simple_git_server.Command.Client.{client_line, parse-client_line}
use simple_git_server.Command.Words.{spaced}

abbrev fetch_line : Bytes
fetch_line = codes " git upload-pack  \"my repo.git\"\n"

abbrev fetched : ParsedGitCommand
fetched = record { service = upload_pack; repo = codes "my repo.git" }

fetch : parse_git_ssh_command fetch_line true false ≡ ok fetched
unfolding parse_git_ssh_command check_words classify allow finish_command strip_quotes
    split_git_command equal trim_space
fetch = refl

refused :
    (parse_git_ssh_command (codes "git-receive-pack 'a.git'") true false ≡ err push_disabled)
    × (parse_git_ssh_command (codes "git-upload-pack a.git; rm") true true
        ≡ err unsupported_command)
    × (parse_git_ssh_command (codes "\t ") true true ≡ err empty_command)
    × (parse_git_ssh_command (codes "git upload-pack ''") true true ≡ err empty_repository_path)
unfolding parse_git_ssh_command check_words classify allow finish_command strip_quotes
    split_git_command equal trim_space
refused = (refl, refl, refl, refl)

parse-Accepts_iff_example :
    (parse_git_ssh_command fetch_line true false ≡ ok fetched)
    ↔ Accepts fetch_line true false fetched
parse-Accepts_iff_example = parse-Accepts_iff fetch_line true false fetched

parse-client_line_example :
    parse_git_ssh_command (client_line spaced receive_pack (codes "team/a b.git")) false true
    ≡ ok (record { service = receive_pack; repo = codes "team/a b.git" })
parse-client_line_example =
    parse-client_line spaced receive_pack (codes "team/a b.git") false true (omega arith)
      (omega arith) (λ e. ground arith) refl
