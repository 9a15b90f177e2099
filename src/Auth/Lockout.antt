-- ===== src/Auth/Lockout.antt =====
-- The interceptor of internal/auth/auth.go that checks the token of a call and locks clients out.
-- Times are nanoseconds since the zero time of Go, so that 0 is `time.Time{}`; each operation reads
-- the clock once.
use runixo_agent.Prelude.{
  ℕ, suc, ◌+◌, Bool, true, false, not, ◌&&◌, Option, none, some, List, [], ◌∷◌, Text, codes, Dict,
  lookup, insert, delete, retain, ltb, leb, length, text_eq, if◌then◌else◌,
}
use runixo_agent.Auth.Token.{generate_token, strip_bearer, constant_time_compare}
pub mod Decision
pub mod Records
pub mod Locks
pub mod Guesses

abbrev pub max_failed_attempts : ℕ
max_failed_attempts = 5

-- Fifteen minutes.
abbrev pub lockout_duration : ℕ
lockout_duration = 900_000_000_000

-- Thirty minutes.
abbrev pub forget_after : ℕ
forget_after = 1_800_000_000_000

abbrev pub max_records : ℕ
max_records = 10000

pub record AttemptInfo : Type 0 where
  pub count : ℕ
  pub locked_until : ℕ

pub record AuthInterceptor : Type 0 where
  pub token : Text
  pub require_auth : Bool
  pub failed_attempts : Dict AttemptInfo

-- Without a configured token one is generated; `none` is the exit of `log.Fatalf`.
unfoldable pub new_auth_interceptor : Text → Option (List ℕ) → Option AuthInterceptor
new_auth_interceptor [] random = elim (generate_token random) [
  | none ↦ none
  | some token ↦ some (record { token = token; require_auth = false; failed_attempts = [] })
]
new_auth_interceptor (c ∷ cs) random =
    some (record { token = c ∷ cs; require_auth = true; failed_attempts = [] })

-- What the cleanup deletes.
unfoldable pub is_stale : ℕ → AttemptInfo → Bool
is_stale now info =
    if ltb info.locked_until now && ltb info.count max_failed_attempts
    then true
    else ltb (info.locked_until + forget_after) now

-- One tick of `cleanupFailedAttempts`.
unfoldable pub cleanup_failed_attempts : ℕ → AuthInterceptor → AuthInterceptor
cleanup_failed_attempts now a = record a {
  failed_attempts = retain (λ info. not (is_stale now info)) a.failed_attempts;
}

-- What the interceptor reads of a call: the peer's address, and the values of the `authorization`
-- header if the call has metadata.
pub record Context : Type 0 where
  pub peer : Option Text
  pub incoming : Option (List Text)

unfoldable pub get_client_ip : Context → Text
get_client_ip ctx = elim ctx.peer [ none ↦ codes "unknown" | some addr ↦ addr ]

unfoldable pub is_locked : ℕ → Text → AuthInterceptor → Bool
is_locked now ip a = elim (lookup ip a.failed_attempts) [
  | none ↦ false
  | some info ↦ ltb now info.locked_until
]

abbrev info_or_new : Option AttemptInfo → AttemptInfo
info_or_new none = record { count = 0; locked_until = 0 }
info_or_new (some info) = info

-- The entry of a client after one more failure.
unfoldable pub count_info : ℕ → Option AttemptInfo → AttemptInfo
count_info now o =
    let info = info_or_new o in
    record {
      count = suc info.count;
      locked_until =
          if leb max_failed_attempts (suc info.count)
          then now + lockout_duration
          else info.locked_until;
    }

-- The second half of `recordFailedAttempt`: count, and lock at the limit.
unfoldable pub count_attempt : ℕ → Text → AuthInterceptor → AuthInterceptor × Bool
count_attempt now ip a =
    let info = count_info now (lookup ip a.failed_attempts) in
    (
      record a { failed_attempts = insert ip info a.failed_attempts },
      leb max_failed_attempts info.count,
    )

-- Drop the records whose lock is over.
unfoldable pub purge : ℕ → AuthInterceptor → AuthInterceptor
purge now a = record a {
  failed_attempts = retain (λ info. not (ltb info.locked_until now)) a.failed_attempts;
}

-- At the limit of records the table is purged; if that makes no room, the failure is not recorded.
unfoldable pub record_failed_attempt : ℕ → Text → AuthInterceptor → AuthInterceptor × Bool
record_failed_attempt now ip a =
    let purged = purge now a in
    if leb max_records (length a.failed_attempts)
    then (if leb max_records (length purged.failed_attempts)
        then (purged, false)
        else count_attempt now ip purged)
    else count_attempt now ip a

unfoldable pub reset_failed_attempts : Text → AuthInterceptor → AuthInterceptor
reset_failed_attempts ip a = record a { failed_attempts = delete ip a.failed_attempts }

-- The errors of `authorize`: the first and the last have the code ResourceExhausted, the others
-- Unauthenticated.
pub data Denial : Type 0 where
  locked_out no_metadata no_token bad_token now_locked : Denial

unfoldable pub check_token : ℕ → Text → Text → AuthInterceptor → AuthInterceptor × Option Denial
check_token now ip value a =
    let (a', locked) = record_failed_attempt now ip a in
    if not (constant_time_compare (strip_bearer value) a.token)
    then (a', some (if locked then now_locked else bad_token))
    else (reset_failed_attempts ip a, none)

unfoldable pub check_values :
    ℕ → Text → Option (List Text) → AuthInterceptor → AuthInterceptor × Option Denial
check_values now ip none a = ((record_failed_attempt now ip a).0, some no_metadata)
check_values now ip (some []) a = ((record_failed_attempt now ip a).0, some no_token)
check_values now ip (some (value ∷ rest)) a = check_token now ip value a

-- `none` is success.
unfoldable pub authorize : ℕ → Context → AuthInterceptor → AuthInterceptor × Option Denial
authorize now ctx a =
    let ip = get_client_ip ctx in
    if is_locked now ip a then (a, some locked_out) else check_values now ip ctx.incoming a

pub data Reply {ℓ} (A : Type ℓ) : Type ℓ where
  handled : A → Reply A
  denied : Denial → Reply A

abbrev pub authenticate_method : Text
authenticate_method = codes "/runixo.AgentService/Authenticate"

module _ {ℓ κ} {World : Type ℓ} {A : Type κ} where
  abbrev answer :
      World → World × A → AuthInterceptor × Option Denial → AuthInterceptor × World × Reply A
  answer w ran (a, none) = (a, ran.0, handled ran.1)
  answer w ran (a, some d) = (a, w, denied d)

  -- The handler acts on the world, and is run only if the call is let through.
  unfoldable pub unary :
      (World → World × A)
      → ℕ
      → Context
      → Text
      → AuthInterceptor
      → World
      → AuthInterceptor × World × Reply A
  unary handler now ctx method a w =
      if text_eq method authenticate_method
      then (a, (handler w).0, handled (handler w).1)
      else answer w (handler w) (authorize now ctx a)

  unfoldable pub stream :
      (World → World × A)
      → ℕ
      → Context
      → AuthInterceptor
      → World
      → AuthInterceptor × World × Reply A
  stream handler now ctx a w = answer w (handler w) (authorize now ctx a)
