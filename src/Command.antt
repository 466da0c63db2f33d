-- ===== src/Command.antt =====
-- The SSH command line of cmd/ssh-read-write/session.go: `splitGitCommand`, `stripQuotes` and
-- `parseGitSSHCommand`. An error is the message that the code puts in it.
pub mod Split
pub mod Words
pub mod Client
pub mod Parse
pub mod Tests
use simple_git_server.Base.{
  ℕ, Bool, false, not, ◌&&◌, ◌||◌, List, [], ◌∷◌, ◌++◌, ◌==◌, if◌then◌else◌, Option, none, some,
  last?, head?, Result, ok, err, ◌>>=◌, ◌>>◌, leb, ◌-◌, length, take, drop,
}
use mathlib.Core.List.{foldl}
use simple_git_server.Text.{Bytes, codes, equal}
use simple_git_server.Text.Unicode.{trim_space}
use simple_git_server.Text.Runes.{runes}

pub data GitService : Type 0 where
  receive_pack upload_pack : GitService

pub record ParsedGitCommand : Type 0 where
  pub service : GitService
  pub repo : Bytes

pub data CommandError : Type 0 where
  empty_command unsupported_command fetch_disabled push_disabled empty_repository_path :
      CommandError

abbrev pub quote : ℕ
quote = b'\''

abbrev pub double_quote : ℕ
double_quote = b'"'

-- The variables of the loop of `splitGitCommand`; `in_quote` is 0 outside quotes.
pub record Splitter : Type 0 where
  pub parts : List Bytes
  pub cur : Bytes
  pub in_quote : ℕ

unfoldable pub flush : Splitter → Splitter
unfolding equal
flush t = if equal t.cur [] then t else record t { parts = t.parts ++ t.cur ∷ []; cur = [] }

-- One round, on the bytes of a rune.
unfoldable pub split_rune : Splitter → Bytes → Splitter
unfolding equal flush
split_rune t r =
    if not (t.in_quote == 0)
    then record t {
      cur = t.cur ++ r;
      in_quote = if equal r (t.in_quote ∷ []) then 0 else t.in_quote;
    }
    else if equal r (quote ∷ [])
    then record t { cur = t.cur ++ r; in_quote = quote }
    else if equal r (double_quote ∷ [])
    then record t { cur = t.cur ++ r; in_quote = double_quote }
    else if equal r (b' ' ∷ []) || equal r (b'\t' ∷ [])
    then flush t
    else record t { cur = t.cur ++ r }

abbrev pub split_start : Splitter
split_start = record { parts = []; cur = []; in_quote = 0 }

unfoldable pub split_git_command : Bytes → List Bytes
unfolding split_rune runes
split_git_command s = (flush (foldl split_rune split_start (runes s))).parts

abbrev is_byte : ℕ → Option ℕ → Bool
is_byte q none = false
is_byte q (some c) = c == q

-- The text begins and ends with this quote.
unfoldable pub quoted_by : ℕ → Bytes → Bool
quoted_by q s = is_byte q (head? s) && is_byte q (last? s)

unfoldable pub strip_quotes : Bytes → Bytes
unfolding quoted_by
strip_quotes s =
    let t = trim_space s in
    if leb 2 (length t) && (quoted_by quote t || quoted_by double_quote t)
    then take (length t - 2) (drop 1 t)
    else t

-- The switch over the words of the command.
unfoldable pub classify : List Bytes → Option (GitService × Bytes)
classify (a ∷ b ∷ []) =
    if equal a (codes "git-receive-pack")
    then some (receive_pack, b)
    else if equal a (codes "git-upload-pack")
    then some (upload_pack, b)
    else none
classify (a ∷ b ∷ c ∷ []) =
    if equal a (codes "git") && equal b (codes "receive-pack")
    then some (receive_pack, c)
    else if equal a (codes "git") && equal b (codes "upload-pack")
    then some (upload_pack, c)
    else none
classify _ = none

-- The capability of the service.
unfoldable pub allow : GitService → Bool → Bool → Result CommandError (Unit {0})
allow upload_pack fetch push = if fetch then ok tt else err fetch_disabled
allow receive_pack fetch push = if push then ok tt else err push_disabled

unfoldable pub finish_command : GitService → Bytes → Result CommandError ParsedGitCommand
finish_command service arg =
    let repo = strip_quotes arg in
    if equal repo []
    then err empty_repository_path
    else ok (record { service = service; repo = repo })

unfoldable pub check_words : List Bytes → Bool → Bool → Result CommandError ParsedGitCommand
check_words words fetch push = elim (classify words) [
  | none ↦ err unsupported_command
  | some (service, arg) ↦ allow service fetch push >> finish_command service arg
]

unfoldable pub parse_git_ssh_command : Bytes → Bool → Bool → Result CommandError ParsedGitCommand
parse_git_ssh_command cmd_line fetch push =
    let line = trim_space cmd_line in
    if equal line [] then err empty_command else check_words (split_git_command line) fetch push
