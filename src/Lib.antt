-- ===== src/Lib.antt =====
-- A formal model of the Runixo agent, the Go daemon of this repository that a control server calls
-- over gRPC to run commands, read files and watch a machine.
--
-- A call passes two interceptors before its handler: that of internal/auth/auth.go checks the
-- token and locks out clients that guess, and that of internal/ratelimit/ratelimit.go counts the
-- calls of each client. The handlers of internal/server ask internal/security/security.go whether
-- a command may run and whether a path may be read or written. Beside the calls,
-- internal/emergency/emergency.go samples the load and kills the worst process, internal/audit
-- keeps a log, and the Cloudflare plugin (internal/cloudflare) matches threats against rules and
-- blocks their addresses.
--
-- Auth: Token holds GenerateToken, ValidateToken and the comparison; Lockout the interceptor with
-- its table of failed attempts (authorize, isLocked, recordFailedAttempt, the cleanup, Unary,
-- Stream); Signed the signed tokens and Base64 their encoding; Session the SessionManager. Api is
-- internal/api/api.go: the middleware of its REST API, the lockout and the routes. RateLimit:
-- Bucket is tokenBucket, Limiter the counters per client, Methods the interceptors. Security:
-- Config is SecurityConfig with its defaults, Commands is ValidateCommand, Paths is PathValidator
-- and SanitizePath; Path and Regex model what they use of path/filepath and regexp. Emergency:
-- Docker finds the container of a process, Target chooses and kills, Monitor holds the switch and
-- the samples, and Monitor/Loops the goroutines. Cloudflare: Threat is the record that the
-- detector reports; Rules matches, Rules/Templates holds the templates and Rules/Store the
-- RuleManager with its file; Blocker is IPBlocker, Blocker/Calls what calls Cloudflare, and
-- Blocker/Expiry the check for blocks that have run out. Audit: the filter and the queue of
-- internal/audit/audit.go; Files its writing and rotation. Plugin: Manager is the lock and the
-- registry of internal/plugin/manager.go, Manager/Calls its methods, Archive the download and the
-- unpacking, Instances the running plugins and the scheduled task of
-- internal/plugin/instances.go. Updater: Check, Download and Apply are CheckUpdate,
-- downloadAndExtract and ApplyUpdate of internal/updater/updater.go with what they call; Ticker
-- is its Start, Stop and SetConfig. Executor: Execute, its checks and its environment of
-- internal/executor/executor.go; Files holds ReadFile, WriteFile and ListDirectory, Tail
-- TailFile, and Services the services and signals. Server: Uploads is UploadFile of
-- internal/server/grpc.go and Archives its checks of archives; Proxy is ProxyHttpRequest with its
-- check of addresses, and Handlers holds the other handlers. Prelude has what they share: tests,
-- lists, strings, maps, integers, and what is used of Go's strings. In each part, Tests runs the
-- code and the theorems at concrete inputs.
--
-- A struct is a record and each method a function from the old state to the new one, with the
-- answer; the fields that only log or lock are left out. A pointer that a map holds is its value.
-- Strings are lists of bytes, written as ASCII or through utf8, and the texts that go to a file
-- are taken to be UTF-8. A map is an association list that holds a key at most once; where Go's
-- random order could matter, the theorem says that it does not. Times are nanoseconds since the
-- zero time, and an operation reads the clock once. A mutex makes each method one step, so that
-- goroutines are the order of the calls; the monitor loops and the goroutine of the updater are
-- step relations. Tokens are counted in units of 1/(60 * 10^9), percentages and scores as exact
-- decimals, in place of float64. A file is what reading it gives. Every loop is structural
-- recursion; the search for a substring runs through the number of offsets that fit, which
-- search_from_iff shows to be enough, and the printing of a number through nineteen divisions by
-- ten (read_number-decimal).
--
-- Parameters stand for what is outside: the random bytes of a token, HMAC-SHA256, the reading of
-- JSON into claims, the operating system's answers in System, what a plugin's directory does to
-- installed.json, the addresses that a dialer connects to, the client of Cloudflare and its
-- world, the ids of generateRuleID, where symbolic links lead, and the Unicode tables of
-- strings.ToLower for text that is not ASCII.
--
-- Not modelled: Stop of the blocker; the detector of threats, its watcher and the manager that
-- joins them; the start, the end and the interceptor of internal/audit; the files of settings of
-- the Cloudflare plugin; internal/collector and cmd/agent; of internal/server the downloads,
-- Docker Hub and the services that forward; the generated api/proto, and the scripts. They are
-- mostly input and output around the parts above, or are left for a later extension.
mod Prelude
pub mod RateLimit
pub mod Api
pub mod Auth
pub mod Emergency
pub mod Cloudflare
pub mod Security
pub mod Audit
pub mod Plugin
pub mod Updater
pub mod Executor
pub mod Server
