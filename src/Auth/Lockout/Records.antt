-- ===== src/Auth/Lockout/Records.antt =====
-- The table of failed attempts stays small.
use runixo_agent.Prelude.{
  ℕ, ◌≤◌, ◌<◌, ◌≡◌, not, Option, none, some, List, [], ◌∷◌, Text, lookup, IsUnique, length, ltb,
  length-insert-le, length-retain-le, length-delete-le, insert-IsUnique, retain-IsUnique,
  delete-IsUnique, arith,
}
use runixo_agent.Auth.Lockout.{
  AuthInterceptor, Context, max_records, get_client_ip, purge, count_info, count_attempt,
  record_failed_attempt, reset_failed_attempts, check_token, check_values, authorize,
  cleanup_failed_attempts, is_stale, new_auth_interceptor,
}

pub record IsTidy (a : AuthInterceptor) : Type 0 where
  pub unique : IsUnique a.failed_attempts
  pub bounded : length a.failed_attempts ≤ max_records

count_attempt-IsTidy :
    (now : ℕ) (ip : Text) (a : AuthInterceptor)
    → IsUnique a.failed_attempts
    → length a.failed_attempts < max_records
    → IsTidy (count_attempt now ip a).0
unfolding count_attempt
count_attempt-IsTidy now ip a u h = record {
  unique = insert-IsUnique ip _ a.failed_attempts u;
  bounded =
      omega (
        arith,
        length-insert-le ip (count_info now (lookup ip a.failed_attempts)) a.failed_attempts,
      );
}

purge-IsTidy : (now : ℕ) (a : AuthInterceptor) → IsTidy a → IsTidy (purge now a)
unfolding purge
purge-IsTidy now a t = record {
  unique = retain-IsUnique _ a.failed_attempts t.unique;
  bounded = omega (
    arith,
    length-retain-le (λ info. not (ltb info.locked_until now)) a.failed_attempts,
    t.bounded,
  );
}

pub record_failed_attempt-IsTidy :
    (now : ℕ) (ip : Text) (a : AuthInterceptor)
    → IsTidy a
    → IsTidy (record_failed_attempt now ip a).0
unfolding record_failed_attempt
record_failed_attempt-IsTidy now ip a t = ground (
  arith,
  purge-IsTidy now a t,
  count_attempt-IsTidy now ip a t.unique,
  count_attempt-IsTidy now ip (purge now a) (purge-IsTidy now a t).unique,
)

reset_failed_attempts-IsTidy :
    (ip : Text) (a : AuthInterceptor) → IsTidy a → IsTidy (reset_failed_attempts ip a)
unfolding reset_failed_attempts
reset_failed_attempts-IsTidy ip a t = record {
  unique = delete-IsUnique ip a.failed_attempts t.unique;
  bounded = omega (arith, length-delete-le ip a.failed_attempts, t.bounded);
}

check_values-IsTidy :
    (now : ℕ) (ip : Text) (incoming : Option (List Text)) (a : AuthInterceptor)
    → IsTidy a
    → IsTidy (check_values now ip incoming a).0
unfolding check_values check_token
check_values-IsTidy now ip none a t = record_failed_attempt-IsTidy now ip a t
check_values-IsTidy now ip (some []) a t = record_failed_attempt-IsTidy now ip a t
check_values-IsTidy now ip (some (v ∷ r)) a t =
    ground (arith, record_failed_attempt-IsTidy now ip a t, reset_failed_attempts-IsTidy ip a t)

pub authorize-IsTidy :
    (now : ℕ) (ctx : Context) (a : AuthInterceptor) → IsTidy a → IsTidy (authorize now ctx a).0
unfolding authorize
authorize-IsTidy now ctx a t =
    ground (arith, check_values-IsTidy now (get_client_ip ctx) ctx.incoming a t)

pub cleanup_failed_attempts-IsTidy :
    (now : ℕ) (a : AuthInterceptor) → IsTidy a → IsTidy (cleanup_failed_attempts now a)
unfolding cleanup_failed_attempts
cleanup_failed_attempts-IsTidy now a t = record {
  unique = retain-IsUnique _ a.failed_attempts t.unique;
  bounded =
      omega
        (arith, length-retain-le (λ info. not (is_stale now info)) a.failed_attempts, t.bounded);
}

-- What happens to an interceptor: a call that it checks, or a tick of the cleanup.
pub data Event : Type 0 where
  call : ℕ → Context → Event
  tick : ℕ → Event

abbrev pub time_of : Event → ℕ
time_of (call now ctx) = now
time_of (tick now) = now

unfoldable pub event_step : Event → AuthInterceptor → AuthInterceptor
event_step (call now ctx) a = (authorize now ctx a).0
event_step (tick now) a = cleanup_failed_attempts now a

unfoldable pub after_events : List Event → AuthInterceptor → AuthInterceptor
after_events [] a = a
after_events (e ∷ es) a = after_events es (event_step e a)

pub event_step-IsTidy : (e : Event) (a : AuthInterceptor) → IsTidy a → IsTidy (event_step e a)
unfolding event_step
event_step-IsTidy (call now ctx) a t = authorize-IsTidy now ctx a t
event_step-IsTidy (tick now) a t = cleanup_failed_attempts-IsTidy now a t

pub after_events-IsTidy :
    (es : List Event) (a : AuthInterceptor) → IsTidy a → IsTidy (after_events es a)
unfolding after_events
after_events-IsTidy [] a t = t
after_events-IsTidy (e ∷ es) a t = after_events-IsTidy es (event_step e a) (event_step-IsTidy e a t)

new-IsTidy :
    (token : Text) (random : Option (List ℕ)) {a : AuthInterceptor}
    → new_auth_interceptor token random ≡ some a
    → IsTidy a
unfolding new_auth_interceptor
new-IsTidy [] random h = ground arith
new-IsTidy (c ∷ cs) random h = ground arith

-- After any calls and cleanups, at any times, the table of a new interceptor holds a client at most
-- once and never more than `max_records` of them.
pub history-IsTidy :
    (token : Text) (random : Option (List ℕ)) (es : List Event) {a : AuthInterceptor}
    → new_auth_interceptor token random ≡ some a
    → IsTidy (after_events es a)
history-IsTidy token random es {a} h = after_events-IsTidy es a (new-IsTidy token random h)
