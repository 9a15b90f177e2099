-- ===== src/Auth/Tests.antt =====
-- The theorems of the interceptor and the sessions at concrete inputs, and runs of the code.
use runixo_agent.Prelude.{
  ℕ, ◌+◌, ◌≡◌, ◌⊎◌, refl, true, false, none, some, List, [], ◌∷◌, Text, codes, arith, lookup,
  insert, text_eq, has_prefix, All,
}
use runixo_agent.Auth.Token.{strip_bearer, constant_time_compare}
use runixo_agent.Auth.Lockout.{
  AuthInterceptor, AttemptInfo, Context, Denial, locked_out, no_metadata, handled, denied,
  new_auth_interceptor, get_client_ip, is_locked, authorize, unary, check_values, check_token,
  record_failed_attempt, count_attempt, count_info,
}
use runixo_agent.Auth.Lockout.Decision.{Admitted, unary_gate}
use runixo_agent.Auth.Lockout.Records.{IsTidy, call, tick, after_events, event_step, history-IsTidy}
use runixo_agent.Auth.Lockout.Locks.{authorize_while_locked}
use runixo_agent.Auth.Lockout.Guesses.{IsGuess, calls, five_guesses_lock}
use runixo_agent.Auth.Lockout.Guesses.Slow.{
  Round, after_rounds, IsSlowRound, slow_guesses_never_lock,
}

abbrev secret : Text
secret = codes "s3cret"

abbrev server : AuthInterceptor
server = record { token = secret; require_auth = true; failed_attempts = [] }

abbrev alice : Text
alice = codes "10.0.0.1:4000"

abbrev shows : Text → Context
shows value = record { peer = some alice; incoming = some (value ∷ []) }

server-IsTidy : IsTidy server
server-IsTidy = record { unique = tt; bounded = omega arith }

good_token : (authorize 1 (shows (codes "Bearer s3cret")) server).1 ≡ none
unfolding authorize is_locked get_client_ip lookup check_values check_token strip_bearer
    constant_time_compare has_prefix text_eq
good_token = refl

abbrev counting : ℕ → ℕ × Text
counting n = (n + 1, codes "ok")

unary_gate_example :
    let (a', w', reply) = unary counting 1 (shows secret) (codes "/x/ReadFile") server 0 in
    (Admitted 1 (shows secret) (codes "/x/ReadFile") server
      × (w' ≡ 1)
      × (reply ≡ handled (codes "ok")))
    ⊎ ((¬ Admitted 1 (shows secret) (codes "/x/ReadFile") server)
        × (w' ≡ 0)
        × ((d : Denial) × (reply ≡ denied d)))
unary_gate_example = unary_gate counting 1 (shows secret) (codes "/x/ReadFile") server 0

history-IsTidy_example : IsTidy (after_events (call 1 (shows alice) ∷ tick 2 ∷ []) server)
unfolding new_auth_interceptor
history-IsTidy_example = history-IsTidy secret none (call 1 (shows alice) ∷ tick 2 ∷ []) refl

abbrev locked_entry : AttemptInfo
locked_entry = record { count = 5; locked_until = 1000 }

abbrev locked_server : AuthInterceptor
locked_server = record server { failed_attempts = (alice, locked_entry) ∷ [] }

locked_server-IsTidy : IsTidy locked_server
unfolding lookup
locked_server-IsTidy = record { unique = (refl, tt); bounded = omega arith }

authorize_while_locked_example :
    authorize 500
      (shows secret)
      (after_events (call 100 (shows secret) ∷ tick 200 ∷ []) locked_server)
    ≡ (after_events (call 100 (shows secret) ∷ tick 200 ∷ []) locked_server, some locked_out)
unfolding lookup get_client_ip text_eq
authorize_while_locked_example =
    authorize_while_locked (call 100 (shows secret) ∷ tick 200 ∷ []) 500 (shows secret)
      locked_server locked_entry locked_server-IsTidy refl (omega arith) (omega arith)

-- A call without metadata.
abbrev silent : Context
silent = record { peer = some alice; incoming = none }

silent-IsGuess : IsGuess alice secret silent
unfolding get_client_ip
silent-IsGuess = (refl, λ p. absurd (cc (p.2)))

abbrev silent_calls : List (ℕ × Context)
silent_calls = (1, silent) ∷ (2, silent) ∷ (3, silent) ∷ (4, silent) ∷ []

four_guesses : All (λ c. IsGuess alice secret c.1) silent_calls
four_guesses = (silent-IsGuess, (silent-IsGuess, (silent-IsGuess, (silent-IsGuess, tt))))

five_guesses_lock_example :
    let b = after_events (calls silent_calls) server in
    (is_locked 5 alice b ≡ false)
    × (is_locked 800_000_000_000 alice (authorize 5 silent b).0 ≡ true)
unfolding lookup
five_guesses_lock_example =
    five_guesses_lock alice server silent_calls 5 silent 800_000_000_000 refl (omega arith) refl
      four_guesses silent-IsGuess (omega arith)

fifth_answer : (authorize 5 silent (after_events (calls silent_calls) server)).1 ≡ some no_metadata
unfolding authorize is_locked get_client_ip lookup insert check_values record_failed_attempt
    count_attempt count_info text_eq after_events event_step
fifth_answer = refl

abbrev slow_round : Round
slow_round = record { guesses = silent_calls; cleanup_at = 300_000_000_000 }

slow_guesses_never_lock_example :
    is_locked 9 alice
      (after_events (calls silent_calls) (after_rounds (slow_round ∷ slow_round ∷ []) server))
    ≡ false
unfolding lookup
slow_guesses_never_lock_example =
    slow_guesses_never_lock alice server (slow_round ∷ slow_round ∷ []) silent_calls 9 server-IsTidy
      refl (slow, (slow, tt)) (omega arith) four_guesses
  where
    slow : IsSlowRound alice secret slow_round
    slow = (omega arith, four_guesses, omega arith)
