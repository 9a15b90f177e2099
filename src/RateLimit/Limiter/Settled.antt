-- ===== src/RateLimit/Limiter/Settled.antt =====
-- What every history of calls keeps true of the limiter's counters.
use runixo_agent.Prelude.{
  ℕ, ◌*◌, ◌≤◌, ◌≡◌, refl, sym, ◌∙◌, Option, none, some, Text, lookup, IsUnique, insert-IsUnique,
  text_eq, text_eq_iff, Bool-cases, inl, inr, arith, some-injective, ne_of_text_eq,
}
use mathlib.Core.Path.{subst}
use native.Mathlib.Nat.{le_trans}
use runixo_agent.RateLimit.Bucket.{TokenBucket, token_unit, allow, new_token_bucket}
use runixo_agent.RateLimit.Limiter.{
  Config, Limiter, ClientCounter, get_client_ip, seen_or_new, new_limiter,
}
use runixo_agent.RateLimit.Limiter.Kinds.{
  Kind, request, command, file_op, allow_kind, allow_kind_lem, bucket_of, burst_of, rate_of,
  counter_after, bucket_of-put_bucket_self, bucket_of-put_bucket_ne,
}
use runixo_agent.RateLimit.Limiter.Similar.{Kind-discrete, bucket_of-fresh, bucket_of-seen}
use runixo_agent.RateLimit.Limiter.Isolation.{
  lookup-allow_kind, lookup-allow_kind_ne, config-allow_kind, allow_kind_off,
}

-- A bucket made with the burst and the rate, last refilled no later than its client was seen.
pub record IsMade (burst rate seen : ℕ) (b : TokenBucket) : Type 0 where
  pub full_at : b.max_tokens ≡ burst * token_unit
  pub same_rate : b.refill_rate ≡ rate
  pub capped : b.tokens ≤ burst * token_unit
  pub refilled : b.last_refill ≤ seen

abbrev pub IsCounterOf : Config → ClientCounter → Type 0
IsCounterOf cfg c = (k : Kind) → IsMade (burst_of k cfg) (rate_of k cfg) c.last_seen (bucket_of k c)

pub record IsSettled (t : ℕ) (l : Limiter) : Type 0 where
  pub unique : IsUnique l.counters
  pub counter :
      (ip : Text) (c : ClientCounter)
      → lookup ip l.counters ≡ some c
      → (c.last_seen ≤ t) × IsCounterOf l.config c

allow-IsMade :
    {burst rate seen : ℕ} (b : TokenBucket) (now : ℕ)
    → IsMade burst rate seen b
    → IsMade burst rate now (allow now b).0
unfolding allow
allow-IsMade b now m = ground arith

new-IsMade : (burst rate now : ℕ) → IsMade burst rate now (new_token_bucket now burst rate)
unfolding new_token_bucket
new-IsMade burst rate now = ground arith

later-IsMade :
    {burst rate seen : ℕ} {b : TokenBucket} {now : ℕ}
    → seen ≤ now
    → IsMade burst rate seen b
    → IsMade burst rate now b
later-IsMade le m = ground arith

seen-IsCounterOf :
    (t now : ℕ) (cfg : Config) (o : Option ClientCounter)
    → t ≤ now
    → ((c : ClientCounter) → o ≡ some c → (c.last_seen ≤ t) × IsCounterOf cfg c)
    → (k : Kind) → IsMade (burst_of k cfg) (rate_of k cfg) now (bucket_of k (seen_or_new now cfg o))
seen-IsCounterOf t now cfg none le h k = rw (bucket_of-fresh k now cfg) (new-IsMade _ _ now)
seen-IsCounterOf t now cfg (some c) le h k =
    rw (bucket_of-seen k now cfg c) (later-IsMade (le_trans (h c refl).0 le) ((h c refl).1 k))

after-IsCounterOf :
    (k : Kind) (t now : ℕ) (cfg : Config) (o : Option ClientCounter)
    → t ≤ now
    → ((c : ClientCounter) → o ≡ some c → (c.last_seen ≤ t) × IsCounterOf cfg c)
    → (j : Kind)
    → IsMade (burst_of j cfg) (rate_of j cfg) now (bucket_of j (counter_after k now cfg o))
unfolding counter_after
after-IsCounterOf k t now cfg o le h j = elim (Kind-discrete j k) [
  | yes e ↦ rw e (
      rw (bucket_of-put_bucket_self k _ (seen_or_new now cfg o))
        (allow-IsMade _ now (seen-IsCounterOf t now cfg o le h k)))
  | no ne ↦
      rw (bucket_of-put_bucket_ne k j _ (seen_or_new now cfg o) ne)
        (seen-IsCounterOf t now cfg o le h j)
]

last_seen-after :
    (k : Kind) (now : ℕ) (cfg : Config) (o : Option ClientCounter)
    → (counter_after k now cfg o).last_seen ≡ now
unfolding counter_after seen_or_new
last_seen-after request now cfg none = refl
last_seen-after command now cfg none = refl
last_seen-after file_op now cfg none = refl
last_seen-after request now cfg (some c) = refl
last_seen-after command now cfg (some c) = refl
last_seen-after file_op now cfg (some c) = refl

module _ {t now : ℕ} {l : Limiter} (s : IsSettled t l) (le : t ≤ now) (k : Kind)
    (peer : Option Text) where
  after-IsUnique : IsUnique (allow_kind k now peer l).0.counters
  after-IsUnique = elim (Bool-cases l.config.enabled) [
    | inl on ↦
        rw (allow_kind_lem k now peer l, on)
          (insert-IsUnique _ _ _ (insert-IsUnique _ _ _ s.unique))
    | inr off ↦ rw (allow_kind_off k now peer l off) s.unique
  ]

  counter_kept :
      (ip : Text) (c : ClientCounter)
      → lookup ip l.counters ≡ some c
      → (c.last_seen ≤ now) × IsCounterOf l.config c
  counter_kept ip c e = (le_trans (s.counter ip c e).0 le, (s.counter ip c e).1)

  counter_called :
      (c : ClientCounter)
      → some (counter_after k now l.config (lookup (get_client_ip peer) l.counters)) ≡ some c
      → (c.last_seen ≤ now) × IsCounterOf l.config c
  counter_called c e =
      subst (λ d. (d.last_seen ≤ now) × IsCounterOf l.config d) (some-injective e)
        (called (last_seen-after k now l.config (lookup (get_client_ip peer) l.counters)))
    where
      called :
          (counter_after k now l.config (lookup (get_client_ip peer) l.counters)).last_seen ≡ now
          → ((counter_after k now l.config (lookup (get_client_ip peer) l.counters)).last_seen
              ≤ now)
            × IsCounterOf l.config
                (counter_after k now l.config (lookup (get_client_ip peer) l.counters))
      called seen = (
        omega arith,
        λ j.
            subst
              (λ t. IsMade (burst_of j l.config) (rate_of j l.config) t (
                bucket_of j
                  (counter_after k now l.config (lookup (get_client_ip peer) l.counters))))
              (sym seen)
              (after-IsCounterOf k t now l.config _ le (s.counter (get_client_ip peer)) j),
      )

  counter_later :
      (ip : Text) (c : ClientCounter)
      → lookup ip (allow_kind k now peer l).0.counters ≡ some c
      → (c.last_seen ≤ now) × IsCounterOf l.config c
  counter_later ip c e = elim (Bool-cases l.config.enabled) [
    | inr off ↦ counter_kept ip c (rw (allow_kind_off k now peer l off) at e)
    | inl on ↦ elim (Bool-cases (text_eq (get_client_ip peer) ip)) [
      | inl same ↦
          counter_called c
            (sym (lookup-allow_kind k now peer l on) ∙ (rw (← (text_eq_iff _ _).0 same) at e))
      | inr other ↦
          counter_kept ip c (sym (lookup-allow_kind_ne k now peer l ip (ne_of_text_eq other)) ∙ e)
    ]
  ]

  -- A call keeps the map's keys distinct and every counter within its configuration.
  pub allow_kind-IsSettled : IsSettled now (allow_kind k now peer l).0
  allow_kind-IsSettled = record {
    unique = after-IsUnique;
    counter = λ ip c e. rw (config-allow_kind k now peer l) (counter_later ip c e);
  }

pub new_limiter-IsSettled : (o : Option Config) (t : ℕ) → IsSettled t (new_limiter o)
unfolding new_limiter lookup
new_limiter-IsSettled none t = record { unique = tt; counter = λ ip c e. absurd (cc) }
new_limiter-IsSettled (some cfg) t = record { unique = tt; counter = λ ip c e. absurd (cc) }
