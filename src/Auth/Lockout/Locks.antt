-- ===== src/Auth/Lockout/Locks.antt =====
-- A lock holds until its time, and no client is locked by another.
use runixo_agent.Prelude.{
  ℕ, ◌≤◌, ◌<◌, ◌≡◌, ◌≢◌, refl, ◌∙◌, ap, Bool, true, false, not, Option, none, some, List, [], ◌∷◌,
  Text, lookup, keep_if, lookup-retain, lookup-insert_ne, lookup-delete, text_eq, text_eq_ne,
  text_eq_iff, ne_of_text_eq, length, leb, ltb, lt→ltb, All, arith, Bool-cases, inl, inr,
}
use runixo_agent.Auth.Token.{strip_bearer, constant_time_compare}
use runixo_agent.Auth.Lockout.{
  max_records, AuthInterceptor, Context, AttemptInfo, locked_out, get_client_ip, is_locked,
  is_stale, purge, count_attempt, record_failed_attempt, reset_failed_attempts, check_token,
  check_values, authorize, cleanup_failed_attempts,
}
use runixo_agent.Auth.Lockout.Decision.{authorize_locked}
use runixo_agent.Auth.Lockout.Records.{
  IsTidy, Event, call, tick, time_of, event_step, event_step-IsTidy, after_events,
}

-- What is_locked reads of an entry.
abbrev pub locked_at : ℕ → Option AttemptInfo → Bool
locked_at now none = false
locked_at now (some info) = ltb now info.locked_until

is_locked_lem :
    (now : ℕ) (ip : Text) (a : AuthInterceptor)
    → is_locked now ip a ≡ locked_at now (lookup ip a.failed_attempts)
unfolding is_locked
is_locked_lem now ip a = ground arith

-- Either the entry is the same, or it was dropped and its lock was over by `now`.
data Kept (now : ℕ) (before after : Option AttemptInfo) : Type 0 where
  same : after ≡ before → Kept now before after
  dropped :
      (info : AttemptInfo)
      → before ≡ some info
      → info.locked_until < now
      → after ≡ none
      → Kept now before after

locked_at-Kept :
    (now t : ℕ) (before after : Option AttemptInfo)
    → now ≤ t
    → Kept now before after
    → locked_at t after ≡ locked_at t before
locked_at-Kept now t before after le (same e) = rw e
locked_at-Kept now t before after le (dropped info b h e) = rw (b, e) (ground arith)

live-Kept :
    (now : ℕ) (before after : Option AttemptInfo) (info : AttemptInfo)
    → before ≡ some info
    → now < info.locked_until
    → Kept now before after
    → after ≡ before
live-Kept now before after info b h (same e) = e
live-Kept now before after info b h (dropped info' b' h' e) =
    absurd (omega (arith, ap until b, ap until b'))
  where
    until : Option AttemptInfo → ℕ
    until none = 0
    until (some i) = i.locked_until

is_stale_over : (now : ℕ) (info : AttemptInfo) → is_stale now info ≡ true → info.locked_until < now
unfolding is_stale
is_stale_over now info h = ground arith

module _ (now : ℕ) (j : Text) (a : AuthInterceptor) (t : IsTidy a) where
  purge-Kept : Kept now (lookup j a.failed_attempts) (lookup j (purge now a).failed_attempts)
  unfolding purge
  purge-Kept = rw (lookup-retain _ j a.failed_attempts t.unique) (kept (lookup j a.failed_attempts))
    where
      kept :
          (o : Option AttemptInfo)
          → Kept now o (keep_if (λ info. not (ltb info.locked_until now)) o)
      kept none = same refl
      kept (some info) = elim (Bool-cases (ltb info.locked_until now)) [
        | inl over ↦ rw over (dropped info refl (ground arith) refl)
        | inr live ↦ rw live (same refl)
      ]

  tick-Kept :
      Kept now
        (lookup j a.failed_attempts)
        (lookup j (cleanup_failed_attempts now a).failed_attempts)
  unfolding cleanup_failed_attempts
  tick-Kept = rw (lookup-retain _ j a.failed_attempts t.unique) (kept (lookup j a.failed_attempts))
    where
      kept : (o : Option AttemptInfo) → Kept now o (keep_if (λ info. not (is_stale now info)) o)
      kept none = same refl
      kept (some info) = elim (Bool-cases (is_stale now info)) [
        | inl stale ↦ rw stale (dropped info refl (is_stale_over now info stale) refl)
        | inr live ↦ rw live (same refl)
      ]

  -- The entry of another client under a recorded failure.
  count_attempt-ne :
      (ip : Text) (b : AuthInterceptor)
      → ip ≢ j
      → lookup j (count_attempt now ip b).0.failed_attempts ≡ lookup j b.failed_attempts
  unfolding count_attempt
  count_attempt-ne ip b ne = lookup-insert_ne ip j _ b.failed_attempts ne

  record-Kept :
      (ip : Text)
      → ip ≢ j
      → Kept now
          (lookup j a.failed_attempts)
          (lookup j (record_failed_attempt now ip a).0.failed_attempts)
  unfolding record_failed_attempt
  record-Kept ip ne = elim (Bool-cases (leb max_records (length a.failed_attempts))) [
    | inr room ↦ rw room (rw (count_attempt-ne ip a ne) (same refl))
    | inl full ↦
        rw full (elim (Bool-cases (leb max_records (length (purge now a).failed_attempts))) [
          | inl still ↦ rw still purge-Kept
          | inr room ↦ rw room (rw (count_attempt-ne ip (purge now a) ne) purge-Kept)
        ])
  ]

  reset-Kept :
      (ip : Text)
      → ip ≢ j
      → Kept now
          (lookup j a.failed_attempts)
          (lookup j (reset_failed_attempts ip a).failed_attempts)
  unfolding reset_failed_attempts
  reset-Kept ip ne = rw (lookup-delete, text_eq_ne ip j ne) (same refl)

  values-Kept :
      (ip : Text) (incoming : Option (List Text))
      → ip ≢ j
      → Kept now
          (lookup j a.failed_attempts)
          (lookup j (check_values now ip incoming a).0.failed_attempts)
  unfolding check_values check_token
  values-Kept ip none ne = record-Kept ip ne
  values-Kept ip (some []) ne = record-Kept ip ne
  values-Kept ip (some (v ∷ r)) ne =
      elim (Bool-cases (constant_time_compare (strip_bearer v) a.token)) [
        | inl good ↦ rw good (reset-Kept ip ne)
        | inr bad ↦ rw bad (record-Kept ip ne)
      ]

  call-Kept :
      (ctx : Context)
      → get_client_ip ctx ≢ j
      → Kept now (lookup j a.failed_attempts) (lookup j (authorize now ctx a).0.failed_attempts)
  unfolding authorize
  call-Kept ctx ne = elim (Bool-cases (is_locked now (get_client_ip ctx) a)) [
    | inl locked ↦ rw locked (same refl)
    | inr free ↦ rw free (values-Kept (get_client_ip ctx) ctx.incoming ne)
  ]

-- A call of one client, at time `now`, locks and frees no other: whether client `j` is locked at
-- any time from `now` on is as it was.
is_locked-other :
    (now t : ℕ) (j : Text) (ctx : Context) (a : AuthInterceptor)
    → IsTidy a
    → get_client_ip ctx ≢ j
    → now ≤ t
    → is_locked t j (authorize now ctx a).0 ≡ is_locked t j a
is_locked-other now t j ctx a tidy ne le =
    rw (is_locked_lem t j (authorize now ctx a).0, is_locked_lem t j a)
      (locked_at-Kept now t _ _ le (call-Kept now j a tidy ctx ne))

-- While a client's lock runs, no event touches its entry.
event_step-live :
    (e : Event) (ip : Text) (a : AuthInterceptor) (info : AttemptInfo)
    → IsTidy a
    → lookup ip a.failed_attempts ≡ some info
    → time_of e < info.locked_until
    → lookup ip (event_step e a).failed_attempts ≡ some info
unfolding event_step
event_step-live (tick now) ip a info t b h = live-Kept now _ _ info b h (tick-Kept now ip a t) ∙ b
event_step-live (call now ctx) ip a info t b h =
    elim (Bool-cases (text_eq (get_client_ip ctx) ip)) [
      | inl mine ↦ rw (authorize_locked now ctx a (self ((text_eq_iff _ _).0 mine)), event_step) b
      | inr other ↦ live-Kept now _ _ info b h (call-Kept now ip a t ctx (ne_of_text_eq other)) ∙ b
    ]
  where
    self : get_client_ip ctx ≡ ip → is_locked now (get_client_ip ctx) a ≡ true
    self e = rw (is_locked_lem now (get_client_ip ctx) a, e, b) (lt→ltb _ _ h)

after_events-live :
    (es : List Event) (ip : Text) (a : AuthInterceptor) (info : AttemptInfo)
    → IsTidy a
    → lookup ip a.failed_attempts ≡ some info
    → All (λ e. time_of e < info.locked_until) es
    → lookup ip (after_events es a).failed_attempts ≡ some info
unfolding after_events
after_events-live [] ip a info t b h = b
after_events-live (e ∷ es) ip a info t b h =
    after_events-live es ip (event_step e a) info (event_step-IsTidy e a t)
      (event_step-live e ip a info t b h.0) h.1

-- A client with a lock is refused until the lock's time, whatever token it shows and whatever calls
-- and cleanups came before it in that time, and the refusal changes nothing.
pub authorize_while_locked :
    (es : List Event) (now : ℕ) (ctx : Context) (a : AuthInterceptor) (info : AttemptInfo)
    → IsTidy a
    → lookup (get_client_ip ctx) a.failed_attempts ≡ some info
    → All (λ e. time_of e < info.locked_until) es
    → now < info.locked_until
    → authorize now ctx (after_events es a) ≡ (after_events es a, some locked_out)
authorize_while_locked es now ctx a info t b h lt =
    authorize_locked now ctx (after_events es a) locked
  where
    locked : is_locked now (get_client_ip ctx) (after_events es a) ≡ true
    locked =
        rw
          (
            is_locked_lem now (get_client_ip ctx) (after_events es a),
            after_events-live es (get_client_ip ctx) a info t b h,
          )
          (lt→ltb _ _ lt)
