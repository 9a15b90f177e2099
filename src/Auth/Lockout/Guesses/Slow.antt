-- ===== src/Auth/Lockout/Guesses/Slow.antt =====
-- Wrong tokens at a slow pace: the cleanup forgets them, and the client is never locked.
use runixo_agent.Prelude.{
  ℕ, suc, ◌+◌, ◌≤◌, ◌<◌, ◌≡◌, refl, ◌∙◌, false, not, Option, none, some, List, [], ◌∷◌, Text,
  lookup, lookup-retain, keep_if, length, leb, ltb, All, arith, Bool-cases, inl, inr,
}
use runixo_agent.Auth.Lockout.{
  max_records, AuthInterceptor, Context, AttemptInfo, is_locked, is_stale, info_or_new, purge,
  count_attempt, record_failed_attempt, authorize, cleanup_failed_attempts,
}
use runixo_agent.Auth.Lockout.Records.{
  IsTidy, call, tick, event_step, event_step-IsTidy, after_events,
}
use runixo_agent.Auth.Lockout.Guesses.{
  IsGuess, entry, calls, authorize_guess, is_locked-entry, entry-count_attempt, count_info_lem,
}

-- At most `n` guesses are on record, and no lock.
record IsSlow (ip : Text) (n : ℕ) (token : Text) (a : AuthInterceptor) : Type 0 where
  few : (entry ip a).count ≤ n
  unlocked : (entry ip a).locked_until ≡ 0
  tidy : IsTidy a
  same_token : a.token ≡ token

never_locked :
    (ip : Text) (n : ℕ) (token : Text) (a : AuthInterceptor) (t : ℕ)
    → IsSlow ip n token a
    → is_locked t ip a ≡ false
never_locked ip n token a t s = is_locked-entry t ip a ∙ ground (arith, s.unlocked)

purged_info :
    (now : ℕ) (o : Option AttemptInfo)
    → ((info_or_new (keep_if (λ info. not (ltb info.locked_until now)) o)).count
        ≤ (info_or_new o).count)
      × ((info_or_new o).locked_until ≡ 0
          → (info_or_new (keep_if (λ info. not (ltb info.locked_until now)) o)).locked_until ≡ 0)
purged_info now none = (omega arith, λ h. refl)
purged_info now (some info) = elim (Bool-cases (ltb info.locked_until now)) [
  | inl over ↦ rw over (omega arith, λ h. refl)
  | inr live ↦ rw live (omega arith, λ h. h)
]

purge_few :
    (now : ℕ) (ip : Text) (a : AuthInterceptor)
    → IsTidy a
    → (entry ip a).locked_until ≡ 0
    → ((entry ip (purge now a)).count ≤ (entry ip a).count)
      × ((entry ip (purge now a)).locked_until ≡ 0)
unfolding purge
purge_few now ip a t u =
    rw (lookup-retain (λ info. not (ltb info.locked_until now)) ip a.failed_attempts t.unique) (
      (purged_info now (lookup ip a.failed_attempts)).0,
      (purged_info now (lookup ip a.failed_attempts)).1 u,
    )

count_few :
    (now : ℕ) (ip : Text) (n : ℕ) (a : AuthInterceptor)
    → (entry ip a).count ≤ n
    → n < 4
    → (entry ip a).locked_until ≡ 0
    → ((entry ip (count_attempt now ip a).0).count ≤ suc n)
      × ((entry ip (count_attempt now ip a).0).locked_until ≡ 0)
count_few now ip n a f lt u =
    rw (entry-count_attempt now ip a, count_info_lem now (lookup ip a.failed_attempts))
      (omega arith, ground arith)

record_few :
    (now : ℕ) (ip : Text) (n : ℕ) (a : AuthInterceptor)
    → IsTidy a
    → (entry ip a).count ≤ n
    → n < 4
    → (entry ip a).locked_until ≡ 0
    → ((entry ip (record_failed_attempt now ip a).0).count ≤ suc n)
      × ((entry ip (record_failed_attempt now ip a).0).locked_until ≡ 0)
unfolding record_failed_attempt
record_few now ip n a t f lt u =
    let (pf, pu) = purge_few now ip a t u in
    elim (Bool-cases (leb max_records (length a.failed_attempts))) [
      | inr room ↦ rw room (count_few now ip n a f lt u)
      | inl full ↦
          rw full (elim (Bool-cases (leb max_records (length (purge now a).failed_attempts))) [
            | inl still ↦ rw still (omega arith, pu)
            | inr room ↦ rw room (count_few now ip n (purge now a) (omega arith) lt pu)
          ])
    ]

token-record :
    (now : ℕ) (ip : Text) (a : AuthInterceptor) → (record_failed_attempt now ip a).0.token ≡ a.token
unfolding record_failed_attempt count_attempt purge
token-record now ip a = ground arith

step-IsSlow :
    (now : ℕ) (ip : Text) (n : ℕ) (token : Text) (ctx : Context) (a : AuthInterceptor)
    → IsSlow ip n token a
    → n < 4
    → IsGuess ip token ctx
    → IsSlow ip (suc n) token (event_step (call now ctx) a)
unfolding event_step
step-IsSlow now ip n token ctx a s lt g =
    let e : (authorize now ctx a).0 ≡ (record_failed_attempt now ip a).0 =
      authorize_guess now ip ctx a (g.0, rw s.same_token g.1) (never_locked ip n token a now s) in
    let r = record_few now ip n a s.tidy s.few lt s.unlocked in
    record {
      few = rw e r.0;
      unlocked = rw e r.1;
      tidy = event_step-IsTidy (call now ctx) a s.tidy;
      same_token = rw e (token-record now ip a ∙ s.same_token);
    }

calls-IsSlow :
    (cs : List (ℕ × Context)) (ip : Text) (n : ℕ) (token : Text) (a : AuthInterceptor)
    → IsSlow ip n token a
    → n + length cs ≤ 4
    → All (λ c. IsGuess ip token c.1) cs
    → IsSlow ip 4 token (after_events (calls cs) a)
unfolding after_events
calls-IsSlow [] ip n token a s le g = record {
  few = omega (arith, s.few);
  unlocked = s.unlocked;
  tidy = s.tidy;
  same_token = s.same_token;
}
calls-IsSlow ((now, ctx) ∷ cs) ip n token a s le g =
    calls-IsSlow cs ip (suc n) token (event_step (call now ctx) a)
      (step-IsSlow now ip n token ctx a s (omega arith) g.0) (omega arith) g.1

forgotten :
    (now : ℕ) (o : Option AttemptInfo)
    → 0 < now
    → (info_or_new o).count ≤ 4
    → (info_or_new o).locked_until ≡ 0
    → keep_if (λ info. not (is_stale now info)) o ≡ none
unfolding is_stale
forgotten now none pos f u = refl
forgotten now (some info) pos f u = ground arith

tick-IsSlow :
    (now : ℕ) (ip : Text) (token : Text) (a : AuthInterceptor)
    → 0 < now
    → IsSlow ip 4 token a
    → IsSlow ip 0 token (event_step (tick now) a)
unfolding event_step cleanup_failed_attempts
tick-IsSlow now ip token a pos s =
    let gone : lookup ip (event_step (tick now) a).failed_attempts ≡ none =
      lookup-retain (λ info. not (is_stale now info)) ip a.failed_attempts s.tidy.unique
      ∙ forgotten now (lookup ip a.failed_attempts) pos s.few s.unlocked in
    record {
      few = rw gone (omega arith);
      unlocked = rw gone;
      tidy = event_step-IsTidy (tick now) a s.tidy;
      same_token = s.same_token;
    }

-- Up to four guesses, and a cleanup at a later time than the zero time.
pub record Round : Type 0 where
  pub guesses : List (ℕ × Context)
  pub cleanup_at : ℕ

unfoldable pub after_rounds : List Round → AuthInterceptor → AuthInterceptor
after_rounds [] a = a
after_rounds (r ∷ rs) a =
    after_rounds rs (event_step (tick r.cleanup_at) (after_events (calls r.guesses) a))

abbrev pub IsSlowRound : Text → Text → Round → Type 0
IsSlowRound ip token r =
    (length r.guesses ≤ 4) × All (λ c. IsGuess ip token c.1) r.guesses × (0 < r.cleanup_at)

rounds-IsSlow :
    (rs : List Round) (ip token : Text) (a : AuthInterceptor)
    → IsSlow ip 0 token a
    → All (IsSlowRound ip token) rs
    → IsSlow ip 0 token (after_rounds rs a)
unfolding after_rounds
rounds-IsSlow [] ip token a s h = s
rounds-IsSlow (r ∷ rs) ip token a s h =
    rounds-IsSlow rs ip token (event_step (tick r.cleanup_at) (after_events (calls r.guesses) a))
      (tick-IsSlow r.cleanup_at ip token (after_events (calls r.guesses) a) h.0.2
        (calls-IsSlow r.guesses ip 0 token a s (omega (arith, h.0.0)) h.0.1))
      h.1

-- A client with no record that shows at most four wrong tokens between two cleanups is never
-- locked, for however many rounds it goes on, and whatever the times: the cleanup deletes its
-- record.
pub slow_guesses_never_lock :
    (ip : Text) (a : AuthInterceptor) (rs : List Round) (more : List (ℕ × Context)) (t : ℕ)
    → IsTidy a
    → lookup ip a.failed_attempts ≡ none
    → All (IsSlowRound ip a.token) rs
    → length more ≤ 4
    → All (λ c. IsGuess ip a.token c.1) more
    → is_locked t ip (after_events (calls more) (after_rounds rs a)) ≡ false
slow_guesses_never_lock ip a rs more t tidy e h len g =
    never_locked ip 4 a.token _ t
      (calls-IsSlow more ip 0 a.token _ (rounds-IsSlow rs ip a.token a start h) (omega arith) g)
  where
    start : IsSlow ip 0 a.token a
    start = record { few = rw e (omega arith); unlocked = rw e; tidy = tidy; same_token = refl }
