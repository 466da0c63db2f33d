-- ===== src/Command/Client.antt =====
-- The command line that a git client sends, and what `parseGitSSHCommand` reads it as.
use simple_git_server.Base.{◌≡◌, ◌≢◌, sym, ap, ◌∙◌, Bool, [], ◌++◌, arith, All, ok}
use simple_git_server.Text.{Bytes, codes}
use simple_git_server.Text.Laws.{Lacks}
use simple_git_server.Text.Unicode.{trim_space, trim_space_print}
use simple_git_server.Text.Runes.{IsAscii}
use simple_git_server.Command.{
  GitService, receive_pack, upload_pack, split_git_command, parse_git_ssh_command, quote,
}
use simple_git_server.Command.Split.{quoted, spell, IsWord, split-spell, strip-quoted}
use simple_git_server.Command.Parse.{parse-Accepts_iff}
use simple_git_server.Command.Words.{Spelling, service_words, Allowed, dashed, spaced}

-- The command line that a git client sends for a repository.
abbrev pub client_line : Spelling → GitService → Bytes → Bytes
client_line spelling service repo = spell (service_words spelling service) (quoted repo)

client_words :
    (spelling : Spelling) (service : GitService) → All IsWord (service_words spelling service)
client_words dashed receive_pack = ((omega arith, λ e. ground arith), tt)
client_words dashed upload_pack = ((omega arith, λ e. ground arith), tt)
client_words spaced receive_pack =
    ((omega arith, λ e. ground arith), ((omega arith, λ e. ground arith), tt))
client_words spaced upload_pack =
    ((omega arith, λ e. ground arith), ((omega arith, λ e. ground arith), tt))

client_trim :
    (spelling : Spelling) (service : GitService) (repo : Bytes)
    → trim_space (client_line spelling service repo) ≡ client_line spelling service repo
client_trim dashed receive_pack repo =
    trim_space_print b'g' (codes "it-receive-pack '" ++ repo) quote (omega arith) (omega arith)
client_trim dashed upload_pack repo =
    trim_space_print b'g' (codes "it-upload-pack '" ++ repo) quote (omega arith) (omega arith)
client_trim spaced receive_pack repo =
    trim_space_print b'g' (codes "it receive-pack '" ++ repo) quote (omega arith) (omega arith)
client_trim spaced upload_pack repo =
    trim_space_print b'g' (codes "it upload-pack '" ++ repo) quote (omega arith) (omega arith)

client_ne_nil :
    (spelling : Spelling) (service : GitService) (repo : Bytes)
    → client_line spelling service repo ≢ []
client_ne_nil dashed receive_pack repo e = cc
client_ne_nil dashed upload_pack repo e = cc
client_ne_nil spaced receive_pack repo e = cc
client_ne_nil spaced upload_pack repo e = cc

-- The line of a git client for an enabled service is read as that service and that repository, for
-- every repository name in ASCII that is not empty and holds no single quote.
pub parse-client_line :
    (spelling : Spelling) (service : GitService) (repo : Bytes) (fetch push : Bool)
    → All IsAscii repo
    → Lacks quote repo
    → repo ≢ []
    → Allowed service fetch push
    → parse_git_ssh_command (client_line spelling service repo) fetch push
      ≡ ok (record { service = service; repo = repo })
parse-client_line spelling service repo fetch push ascii lacks ne allowed =
    let line = client_line spelling service repo in
    let trimmed = client_trim spelling service repo in
    (parse-Accepts_iff line fetch push (record { service = service; repo = repo })).1 (record {
      arg = quoted repo;
      line_ne_nil = λ e. client_ne_nil spelling service repo (sym trimmed ∙ e);
      names = record {
        spelling = spelling;
        words_are =
            ap split_git_command trimmed
            ∙ split-spell (service_words spelling service) repo (client_words spelling service)
                ascii lacks;
      };
      allowed = allowed;
      repo_is = sym (strip-quoted repo);
      repo_ne_nil = ne;
    })
