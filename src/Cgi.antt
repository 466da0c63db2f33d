-- ===== src/Cgi.antt =====
-- The answer of a CGI child in githttp.go: `writeCGIResponse`, how `runGitCGI` answers when it
-- fails, and the buffer that keeps the start of the child's errors. The child, the pipe and the
-- client's body are parameters. The headers are listed as they are added, each under its canonical
-- name: the values of a name are kept in this order, while the order of the names is up to
-- `net/http`. What it makes of a status below 200, and an error behind the headers, while the body
-- is copied, are not part of the model.
pub mod Headers
pub mod Buffer
pub mod Tests
use simple_git_server.Base.{
  ℕ, zero, suc, ◌+◌, ◌-◌, ◌*◌, ◌^◌, Bool, true, false, not, any, ◌&&◌, ◌||◌, List, [], ◌∷◌, ◌++◌,
  ◌==◌, reverse, if◌then◌else◌, ltb, leb, length, take, Option, none, some, Result, ok, err, ℤ, pos,
  negsuc,
}
use simple_git_server.Text.{Bytes, codes, equal, split, join, before, after?, has_byte}
use simple_git_server.Text.Unicode.{trim_space, first_field, equal_fold}

-- strings.TrimRight(s, "\r\n"), on the reversed text.
unfoldable pub strip_line_end : Bytes → Bytes
strip_line_end [] = []
strip_line_end (c ∷ s) = elim (c == b'\r' || c == b'\n') [ true ↦ strip_line_end s | false ↦ c ∷ s ]

unfoldable pub trim_line : Bytes → Bytes
unfolding strip_line_end
trim_line s = reverse (strip_line_end (reverse s))

abbrev digits_value : ℕ → Bytes → Option ℕ
digits_value n [] = some n
digits_value n (c ∷ s) =
    let rest = digits_value (10 * n + (c - b'0')) s in
    if leb b'0' c && leb c b'9' then rest else none

abbrev magnitude : Bytes → Option ℕ
magnitude [] = none
magnitude (c ∷ s) = digits_value 0 (c ∷ s)

abbrev in_int : Option ℕ → Option ℤ
in_int none = none
in_int (some n) = if ltb n (2 ^ 63) then some (pos n) else none

abbrev negated : Option ℕ → Option ℤ
negated none = none
negated (some zero) = some (pos 0)
negated (some (suc n)) = if ltb n (2 ^ 63) then some (negsuc n) else none

-- strconv.Atoi
unfoldable pub atoi : Bytes → Option ℤ
atoi [] = none
atoi (c ∷ s) =
    if c == b'-'
    then negated (magnitude s)
    else if c == b'+'
    then in_int (magnitude s)
    else in_int (magnitude (c ∷ s))

pub data CgiError : Type 0 where
  truncated malformed : CgiError

pub record CgiResponse : Type 0 where
  pub status : ℤ
  pub headers : List (Bytes × Bytes)
  pub body : Bytes

abbrev or_else : Option ℤ → ℤ → ℤ
or_else none d = d
or_else (some n) d = n

-- The status that the value of a `Status` header gives; a value that is no number leaves the old
-- one.
unfoldable pub status_of : Bytes → ℤ → ℤ
unfolding first_field atoi
status_of value status = elim (first_field value) [
  | none ↦ status
  | some field ↦ or_else (atoi field) status
]

abbrev behind : Option Bytes → Bytes
behind none = []
behind (some s) = s

-- The bytes of a token, of which the name of a header is made.
abbrev pub is_token : ℕ → Bool
is_token c =
    (leb b'a' c && leb c b'z')
    || (leb b'A' c && leb c b'Z')
    || (leb b'0' c && leb c b'9')
    || any (λ t. t == c) (codes "!#$%&'*+-.^_`|~")

-- A byte of a name, behind a hyphen or at the start, or not.
abbrev pub canonical_byte : Bool → ℕ → ℕ
canonical_byte true c = if leb b'a' c && leb c b'z' then c - 32 else c
canonical_byte false c = if leb b'A' c && leb c b'Z' then c + 32 else c

abbrev pub canonical_from : Bool → Bytes → Bytes
canonical_from upper [] = []
canonical_from upper (c ∷ s) = canonical_byte upper c ∷ canonical_from (c == b'-') s

-- http.CanonicalHeaderKey, which `Header.Add` applies: a name that is no token is left alone.
unfoldable pub canonical_key : Bytes → Bytes
canonical_key s = if any (λ c. not (is_token c)) s then s else canonical_from true s

-- The loop over the header lines, on the output cut at its line feeds: the last piece is what no
-- line feed ends.
unfoldable pub read_headers : List Bytes → ℤ → List (Bytes × Bytes) → Result CgiError CgiResponse
read_headers [] status headers = err truncated
read_headers (line ∷ []) status headers = err truncated
read_headers (line ∷ next ∷ rest) status headers =
    let text = trim_line line in
    let key = trim_space (before text b':') in
    let value = trim_space (behind (after? text b':')) in
    elim (equal text []) [
      | true ↦ ok (record { status = status; headers = headers; body = join (next ∷ rest) b'\n' })
      | false ↦ elim (has_byte text b':') [
        | false ↦ err malformed
        | true ↦ elim (equal_fold key (codes "Status")) [
          | true ↦ read_headers (next ∷ rest) (status_of value status) headers
          | false ↦ read_headers (next ∷ rest) status (headers ++ (canonical_key key, value) ∷ [])
        ]
      ]
    ]

unfoldable pub write_cgi_response : Bytes → Result CgiError CgiResponse
write_cgi_response output = read_headers (split output b'\n') (pos 200) []

-- How the child fares: it cannot be piped or started, or it writes an output.
pub data Child : Type 0 where
  no_pipe no_start : Child
  writes : Bytes → Child

-- The first error of reading the client's body.
pub data BodyError : Type 0 where
  no_body_error too_large other_body_error : BodyError

-- An error page, the response of the child, or none: the handler panics on a status that is no
-- number of three digits, and `net/http` closes the connection.
pub data Reply : Type 0 where
  error_page : ℕ → Bytes → Reply
  sent : CgiResponse → Reply
  aborted : Reply

-- The statuses that `WriteHeader` takes.
unfoldable pub valid_status : ℤ → Bool
valid_status (pos n) = leb 100 n && leb n 999
valid_status (negsuc n) = false

abbrev pub no_response : BodyError → Reply
no_response too_large = error_page 413 (codes "request body too large")
no_response no_body_error = error_page 502 (codes "bad git http-backend response")
no_response other_body_error = error_page 502 (codes "bad git http-backend response")

unfoldable pub run_git_cgi : Child → BodyError → Reply
run_git_cgi no_pipe _ = error_page 502 (codes "git http-backend failed")
run_git_cgi no_start _ = error_page 502 (codes "git http-backend failed")
run_git_cgi (writes output) failed = elim (write_cgi_response output) [
  | ok response ↦ if valid_status response.status then sent response else aborted
  | err e ↦ no_response failed
]

-- The buffer of the child's errors, with its limit; no limit stands for the default.
pub record LimitedBuffer : Type 0 where
  pub buf : Bytes
  pub limit : ℕ

unfoldable pub write_limited : LimitedBuffer → Bytes → LimitedBuffer
write_limited l p =
    let n = if l.limit == 0 then 64 * 2 ^ 10 else l.limit in
    let need = n - length l.buf in
    if ltb (length l.buf) n
    then record {
      buf = l.buf ++ take (if ltb (length p) need then length p else need) p;
      limit = n;
    }
    else record { buf = l.buf; limit = n }
