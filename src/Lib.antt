-- ===== src/Lib.antt =====
-- simple-git-server: a model of the git server of this repository and the theorems that make it correct.
--
-- The program is one HTTP server (main.go, githttp.go, goimport.go, http_write.go) that hands git
-- requests to `git http-backend`, and a supervised SSH server (cmd/ssh-read-write) that hands git
-- commands to `git upload-pack` and `git receive-pack`. Both decide what a client may reach: the
-- first by a path that it sanitizes and checks for containment, the second by a command line that
-- it splits, a repository name that it resolves, and the keys that it lets in.
--
-- Which file models which part:
--   GitPath      `sanitizeGitPathInfo`, `hasDotDotSegment` of githttp.go
--   Containment  `repoWithinRoot`, `containedIn` of githttp.go
--   Routing      `newRootHandler`, `isGitRequest`, `statusRecorder`, `truncateForLog` of main.go
--   Backend      `serveGit`, `serveGitHTTPWrite`, `checkCGIEnvLimits`, `gitBackendArgs`,
--                `gitBackendEnv`, `isReceivePackRequest` of githttp.go, `resolveHTTPWriteBinary` of
--                http_write.go
--   Cgi          `writeCGIResponse`, the answers of `runGitCGI`, `limitedBuffer` of githttp.go
--   Stall        `requestProgress`, `progressReader`, `watchStall` of githttp.go
--   GitRequest   `runGitCGIRequest` of githttp.go, `gitBegin` and `gitEnd` of main.go
--   Exchange     one request from end to end: the handler of `newRootHandler` of main.go, the limit on
--                the body in `serveGit` of githttp.go
--   HttpWrite    cmd/http-write/main.go
--   GoImport     all of goimport.go
--   Config       `buildConfig`, `serverConfig`, the checks on the limits in `main`, of main.go, with
--                the option records of ssh_supervise.go and http_write.go
--   Command      `parseGitSSHCommand`, `splitGitCommand`, `stripQuotes` of
--                cmd/ssh-read-write/session.go
--   RepoPath     `resolveRepoPath`, `resolveRepoPathOpts`, `withinRoot` of the same file
--   Session      `handleSession`, `parseExecPayload`, `writeExitStatus`, `runGitCommand` of the same
--                file, with `sessionRequestDeadline` of cmd/ssh-read-write/main.go
--   SshStall     `progress`, `progressReader`, `progressWriter`, `watchGitStall` of the same file
--   Auth         cmd/ssh-read-write/auth.go
--   Connections  `acceptLoop`, `handleConn`, `connActivity` of cmd/ssh-read-write/main.go
--   SshMain      `main`, `loadHostKey`, `waitForGitCommands` of cmd/ssh-read-write/main.go
--   Supervise    `sshReadWriteArgs`, `resolveSSHReadWriteBinary`, `stop` of ssh_supervise.go
--   Launch       `main` of main.go up to the start of the servers, `startSSHReadWrite`
--   Shutdown     `main` of main.go from there on, `waitForGitCommands` of main.go
-- Base holds the names that all files share, Text, FilePath and Dict what Go's `strings`,
-- `strconv`, `path`, `path/filepath` and `map` do as far as the program calls them, Backend/Query a
-- raw query, Duration the text of a `time.Duration`, Flag the `flag` package. Each part has its
-- theorems in the files below it, named for what they prove, and its runs on concrete inputs in its
-- file Tests. Configuration, containment and the sanitized path are what the parts meet in: Routing
-- and Backend read the record that Config builds, Backend and GoImport call Containment on the
-- paths that GitPath describes, Session calls Command and RepoPath. The two processes meet in the
-- arguments that Supervise makes of the configuration of Launch, and that SshMain reads through
-- Flag.
--
-- A Go string is the list of its bytes; where Go reads it as UTF-8 (white space, letter case, the
-- loop of `splitGitCommand`) the model decodes it. Go's `int` and `int64` are natural numbers, or
-- integers where they can be negative; the 32-bit exit status wraps around as written. An error is
-- a constructor for each message, in a `Result`.
--
-- Parameters, since their code is not here: `filepath.EvalSymlinks` and `os.Stat` (the record
-- FileSystem), the working directory, `exec.LookPath`, the environment, the run of git (what it
-- writes when it is killed or not, or that it does not end), the reading of a line by the SSH
-- library with the wire form and the fingerprint of a key, its reading of a host key, `net.Listen`,
-- the start of a process. What `time.ParseDuration` makes of a fraction is floating point, and a
-- parameter too; no theorem depends on it. The end of a process on a signal, the time at which
-- connections are idle, the number of git commands that run at a time and the lag of a sleep are
-- data that the theorems range over. The theorems on the containment check assume of the file
-- system that a resolved path is absolute and clean, and that resolving it again gives it back
-- (Containment/Paths, `Resolves`).
--
-- Loops: all are structural but the walk of `repoWithinRoot`, which runs on fuel: one more than the
-- length of the path that it starts from. Every step shortens the path, so that is enough, and the
-- theorems state that an answer is given; the wait of `waitForGitCommands`, on one round more than
-- the intervals of 20 milliseconds that fit in its time, with a theorem that it ends; and the
-- reading of a duration, on the length of its text, of which every term takes at least one byte.
-- The digits of a number n are taken with fuel n + 1.
--
-- Not modelled: the process and pipe plumbing (process groups, write deadlines, the copying of
-- streams), what the SSH library does in a handshake, TLS, the text of log lines and of error
-- messages of `main`, and what `net/http` makes of an answer (the order of the names of headers, a
-- status below 200). Git requests and SSH sessions that run at the same time are steps of a
-- relation on the counters that they share; two steps do not overlap. Steps of a shutdown take no
-- time but where they wait.
pub mod Base
pub mod Text
pub mod FilePath
pub mod GitPath
pub mod Containment
pub mod Command
pub mod RepoPath
pub mod Dict
pub mod Duration
pub mod Flag
pub mod Supervise
pub mod SshStall
pub mod GitRequest
pub mod Exchange
pub mod HttpWrite
pub mod SshMain
pub mod Launch
pub mod Shutdown
pub mod Config
pub mod Routing
pub mod Cgi
pub mod Stall
pub mod Backend
pub mod GoImport
pub mod Auth
pub mod Session
pub mod Connections
