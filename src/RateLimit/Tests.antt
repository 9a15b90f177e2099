-- ===== src/RateLimit/Tests.antt =====
-- The theorems of the rate limiter at concrete inputs, and runs of the code.
use runixo_agent.Prelude.{
  ℕ, ◌+◌, ◌*◌, ◌≤◌, ◌≡◌, refl, true, none, some, [], ◌∷◌, Text, codes, arith, lookup, insert,
  ne_of_text_eq, text_eq, if◌then◌else◌,
}
use runixo_agent.RateLimit.Bucket.{TokenBucket, token_unit, allow}
use runixo_agent.RateLimit.Bucket.Rate.{run_allow, run_allow-le-capacity}
use runixo_agent.RateLimit.Limiter.{
  Limiter, ClientCounter, default_config, new_limiter, seen_or_new, cleanup, get_client_ip,
  allow_file_op,
}
use runixo_agent.RateLimit.Limiter.Kinds.{request, command, file_op, allow_kind, bucket_of}
use runixo_agent.RateLimit.Limiter.Isolation.{allow_kind_isolated}
use runixo_agent.RateLimit.Limiter.Cleanup.{Call, answers, after_calls, answers-cleanup, IsGenerous}
use runixo_agent.RateLimit.Methods.{
  handled, resource_exhausted, unary_interceptor, is_command_method, is_file_method,
}
use runixo_agent.RateLimit.Methods.Interceptor.{unary_interceptor_gate, kind_of}

-- Two tokens at most, sixty a minute.
abbrev small : TokenBucket
small = record {
  tokens = 2 * token_unit;
  max_tokens = 2 * token_unit;
  refill_rate = 60;
  last_refill = 100;
}

burst_then_refused : (run_allow small (100 ∷ 101 ∷ 102 ∷ 1_000_000_102 ∷ [])).1 ≡ 3
unfolding run_allow allow
burst_then_refused = refl

run_allow-le-capacity_example :
    (run_allow small (1_000_000 ∷ 1_000_001 ∷ 1_000_002 ∷ [])).1 * token_unit
    ≤ small.max_tokens + 2 * small.refill_rate
run_allow-le-capacity_example =
    run_allow-le-capacity small 1_000_000 (1_000_000 ∷ 1_000_001 ∷ 1_000_002 ∷ []) 2 (omega arith)
      (omega arith) (omega arith)

abbrev empty_bucket : TokenBucket
empty_bucket = record small { tokens = 0 }

abbrev fresh : Limiter
fresh = new_limiter none

allow_kind_isolated_example :
    let before =
      seen_or_new 5 fresh.config (lookup (get_client_ip (some (codes "a"))) fresh.counters) in
    let (l', allowed) = allow_kind request 5 (some (codes "a")) fresh in
    (c : ClientCounter) × (lookup (get_client_ip (some (codes "a"))) l'.counters ≡ some c)
    × (allowed ≡ (allow 5 (bucket_of request before)).1)
    × (bucket_of request c ≡ (allow 5 (bucket_of request before)).0)
    × (bucket_of command c ≡ bucket_of command before)
    × (lookup (codes "b") l'.counters ≡ lookup (codes "b") fresh.counters)
unfolding new_limiter get_client_ip text_eq
allow_kind_isolated_example =
    allow_kind_isolated request command 5 (some (codes "a")) fresh (codes "b") refl (λ e. cc)
      (ne_of_text_eq refl)

abbrev call_at : ℕ → Call
call_at t = record { kind = command; time = t; peer = some (codes "10.0.0.1:5000") }

default-IsGenerous : IsGenerous default_config
unfolding default_config
default-IsGenerous request = omega arith
default-IsGenerous command = omega arith
default-IsGenerous file_op = omega arith

answers-cleanup_example :
    answers
      (call_at 700_000_000_000 ∷ [])
      (cleanup 700_000_000_000 (after_calls (call_at 3 ∷ call_at 4 ∷ []) fresh))
    ≡ answers (call_at 700_000_000_000 ∷ []) (after_calls (call_at 3 ∷ call_at 4 ∷ []) fresh)
unfolding new_limiter
answers-cleanup_example =
    answers-cleanup none (call_at 3 ∷ call_at 4 ∷ []) (call_at 700_000_000_000 ∷ []) 700_000_000_000
      default-IsGenerous (omega arith) (omega arith) (omega arith)

kill_is_command : is_command_method (codes "/runixo.AgentService/KillProcess") ≡ true
unfolding is_command_method
kill_is_command = refl

-- A handler that counts its runs.
abbrev counting : ℕ → ℕ × Text
counting n = (n + 1, codes "ok")

unary_interceptor_gate_example :
    let (l', allowed) = allow_kind (kind_of (codes "/a/ReadFile")) 9 none fresh in
    unary_interceptor counting 9 none (codes "/a/ReadFile") fresh 0 ≡ (
      if allowed then (l', (counting 0).0, handled (counting 0).1) else (l', 0, resource_exhausted))
unary_interceptor_gate_example =
    unary_interceptor_gate counting 9 none fresh 0 (codes "/a/ReadFile")

unary_runs : (unary_interceptor counting 9 none (codes "/a/ReadFile") fresh 0).1 ≡ 1
unfolding unary_interceptor new_limiter is_command_method is_file_method allow_file_op lookup insert
    allow
unary_runs = refl
