-- ===== src/Auth/Lockout/Guesses.antt =====
-- Five wrong tokens in a row lock a client.
pub mod Slow
use runixo_agent.Prelude.{
  ℕ, zero, suc, ◌+◌, ◌-◌, ◌≤◌, ◌<◌, ◌≡◌, ◌≢◌, refl, sym, ◌∙◌, ap, Bool, true, false, not, Option,
  none, some, List, [], ◌∷◌, Text, lookup, insert, lookup-insert_self, lookup-retain,
  length-insert-le, keep_if, text_eq, text_eq_iff, text_eq_ne, length, leb, ltb, All, map, lt→ltb,
  arith, Bool-cases, inl, inr, if◌then◌else◌,
}
use mathlib.Core.Path.{subst}
use native.Mathlib.Nat.{add-zero}
use runixo_agent.Auth.Token.{strip_bearer, constant_time_compare}
use runixo_agent.Auth.Lockout.{
  max_records, lockout_duration, max_failed_attempts, AuthInterceptor, Context, AttemptInfo, Denial,
  no_metadata, no_token, bad_token, now_locked, get_client_ip, is_locked, is_stale, info_or_new,
  purge, count_info, count_attempt, record_failed_attempt, check_token, check_values, authorize,
  cleanup_failed_attempts,
}
use runixo_agent.Auth.Lockout.Decision.{Presents}
use runixo_agent.Auth.Lockout.Records.{IsTidy, Event, call, tick, event_step, after_events}

-- A call from the client that does not show the token.
abbrev pub IsGuess : Text → Text → Context → Type 0
IsGuess ip token ctx = (get_client_ip ctx ≡ ip) × (¬ Presents token ctx.incoming)

-- The client's entry, or a new one.
abbrev pub entry : Text → AuthInterceptor → AttemptInfo
entry ip a = info_or_new (lookup ip a.failed_attempts)

-- An unlocked client's guess is recorded, and is never accepted.
check_values_guess :
    (now : ℕ) (ip : Text) (incoming : Option (List Text)) (a : AuthInterceptor)
    → ¬ Presents a.token incoming
    → (check_values now ip incoming a).0 ≡ (record_failed_attempt now ip a).0
unfolding check_values check_token constant_time_compare
check_values_guess now ip none a g = refl
check_values_guess now ip (some []) a g = refl
check_values_guess now ip (some (v ∷ r)) a g =
    rw (text_eq_ne (strip_bearer v) a.token (λ e. g (v, r, refl, e)))

pub authorize_guess :
    (now : ℕ) (ip : Text) (ctx : Context) (a : AuthInterceptor)
    → IsGuess ip a.token ctx
    → is_locked now ip a ≡ false
    → (authorize now ctx a).0 ≡ (record_failed_attempt now ip a).0
unfolding authorize
authorize_guess now ip ctx a g free = rw (g.0, free) (check_values_guess now ip ctx.incoming a g.1)

pub is_locked-entry :
    (now : ℕ) (ip : Text) (a : AuthInterceptor)
    → is_locked now ip a ≡ ltb now (entry ip a).locked_until
unfolding is_locked
is_locked-entry now ip a = ground arith

pub count_info_lem :
    (now : ℕ) (o : Option AttemptInfo)
    → count_info now o ≡ record {
      count = suc (info_or_new o).count;
      locked_until =
          if leb max_failed_attempts (suc (info_or_new o).count)
          then now + lockout_duration
          else (info_or_new o).locked_until;
    }
unfolding count_info
count_info_lem now o = refl

pub entry-count_attempt :
    (now : ℕ) (ip : Text) (a : AuthInterceptor)
    → entry ip (count_attempt now ip a).0 ≡ count_info now (lookup ip a.failed_attempts)
unfolding count_attempt
entry-count_attempt now ip a = rw (lookup-insert_self ip _ a.failed_attempts)

length-count_attempt :
    (now : ℕ) (ip : Text) (a : AuthInterceptor)
    → length (count_attempt now ip a).0.failed_attempts ≤ suc (length a.failed_attempts)
unfolding count_attempt
length-count_attempt now ip a = length-insert-le ip _ a.failed_attempts

record_with_room :
    (now : ℕ) (ip : Text) (a : AuthInterceptor)
    → length a.failed_attempts < max_records
    → record_failed_attempt now ip a ≡ count_attempt now ip a
unfolding record_failed_attempt
record_with_room now ip a h = ground arith

-- The client has made `n` guesses and was not locked; the table has room for the rest.
record IsCounted (ip : Text) (n : ℕ) (token : Text) (a : AuthInterceptor) : Type 0 where
  counted : (entry ip a).count ≡ n
  unlocked : (entry ip a).locked_until ≡ 0
  room : length a.failed_attempts + (5 - n) ≤ max_records
  same_token : a.token ≡ token

token-count_attempt :
    (now : ℕ) (ip : Text) (a : AuthInterceptor) → (count_attempt now ip a).0.token ≡ a.token
unfolding count_attempt
token-count_attempt now ip a = refl

guess_step :
    (now : ℕ) (ip : Text) (n : ℕ) (token : Text) (ctx : Context) (a : AuthInterceptor)
    → IsCounted ip n token a
    → n < 5
    → IsGuess ip token ctx
    → (authorize now ctx a).0 ≡ (count_attempt now ip a).0
guess_step now ip n token ctx a c lt g =
    authorize_guess now ip ctx a (g.0, rw c.same_token g.1)
      (is_locked-entry now ip a ∙ ground (arith, c.unlocked))
    ∙ ap (λ r. r.0) (record_with_room now ip a (omega (arith, c.room)))

count_step :
    (now : ℕ) (ip : Text) (n : ℕ) (token : Text) (a : AuthInterceptor)
    → IsCounted ip n token a
    → n < 4
    → IsCounted ip (suc n) token (count_attempt now ip a).0
count_step now ip n token a c lt = record {
  counted =
      rw (entry-count_attempt now ip a, count_info_lem now (lookup ip a.failed_attempts))
        (ap suc c.counted);
  unlocked =
      rw (entry-count_attempt now ip a, count_info_lem now (lookup ip a.failed_attempts))
        (ground (arith, c.counted, c.unlocked));
  room = omega (arith, c.room, length-count_attempt now ip a);
  same_token = token-count_attempt now ip a ∙ c.same_token;
}

last_step :
    (now : ℕ) (ip : Text) (token : Text) (a : AuthInterceptor)
    → IsCounted ip 4 token a
    → (entry ip (count_attempt now ip a).0).locked_until ≡ now + lockout_duration
last_step now ip token a c =
    rw (entry-count_attempt now ip a, count_info_lem now (lookup ip a.failed_attempts))
      (ground (arith, c.counted))

-- Calls at their times.
abbrev pub calls : List (ℕ × Context) → List Event
calls = map (λ c. call c.0 c.1)

after-IsCounted :
    (cs : List (ℕ × Context)) (ip : Text) (n m : ℕ) (token : Text) (a : AuthInterceptor)
    → IsCounted ip n token a
    → n + length cs ≡ m
    → m ≤ 4
    → All (λ c. IsGuess ip token c.1) cs
    → IsCounted ip m token (after_events (calls cs) a)
unfolding after_events event_step
after-IsCounted [] ip n m token a c e le g =
    subst (λ k. IsCounted ip k token a) (sym (add-zero n) ∙ e) c
after-IsCounted ((now, ctx) ∷ cs) ip n m token a c e le g =
    subst (λ b. IsCounted ip m token (after_events (calls cs) b))
      (sym (guess_step now ip n token ctx a c (omega arith) g.0))
      (after-IsCounted cs ip (suc n) m token (count_attempt now ip a).0
        (count_step now ip n token a c (omega arith)) (omega arith) le g.1)

start-IsCounted :
    (ip : Text) (a : AuthInterceptor)
    → lookup ip a.failed_attempts ≡ none
    → length a.failed_attempts + 5 ≤ max_records
    → IsCounted ip 0 a.token a
start-IsCounted ip a e h = record {
  counted = rw e;
  unlocked = rw e;
  room = omega arith;
  same_token = refl;
}

-- A client with no record that shows five wrong tokens, at any times with nothing between them, is
-- free until the fifth and locked from then on, for fifteen minutes after it, where the table has
-- room for five more records.
pub five_guesses_lock :
    (ip : Text) (a : AuthInterceptor) (four : List (ℕ × Context)) (now : ℕ) (fifth : Context)
    (t : ℕ)
    → lookup ip a.failed_attempts ≡ none
    → length a.failed_attempts + 5 ≤ max_records
    → length four ≡ 4
    → All (λ c. IsGuess ip a.token c.1) four
    → IsGuess ip a.token fifth
    → t < now + lockout_duration
    → let b = after_events (calls four) a in
      (is_locked now ip b ≡ false) × (is_locked t ip (authorize now fifth b).0 ≡ true)
five_guesses_lock ip a four now fifth t e room len g h lt =
    let b : AuthInterceptor = after_events (calls four) a in
    let c : IsCounted ip 4 a.token b =
      after-IsCounted four ip 0 4 a.token a (start-IsCounted ip a e room) (omega arith)
        (omega arith) g in
    (
      rw (is_locked-entry now ip b, c.unlocked) (ground arith),
      rw
          (
            guess_step now ip 4 a.token fifth b c (omega arith) h,
            is_locked-entry t ip (count_attempt now ip b).0,
            last_step now ip a.token b c,
          )
          (lt→ltb _ _ lt),
    )
