-- ===== src/RateLimit/Limiter/Cleanup.antt =====
-- The periodic cleanup forgets idle clients, and no client can tell.
use runixo_agent.Prelude.{
  ℕ, ◌-◌, ◌*◌, ◌≤◌, ◌<◌, ◌≡◌, refl, sym, ◌∙◌, Bool, not, Option, none, some, List, [], ◌∷◌, Text,
  lookup, lookup-retain, keep_if, ltb, ltb→lt, All, map, Bool-cases, inl, inr, arith,
}
use native.Mathlib.Nat.{le_trans}
use runixo_agent.RateLimit.Bucket.{TokenBucket, refill, new_token_bucket}
use runixo_agent.RateLimit.Bucket.Rate.{Ascending}
use runixo_agent.RateLimit.Limiter.{
  Config, Limiter, ClientCounter, new_limiter, cleanup, idle_limit,
}
use runixo_agent.RateLimit.Limiter.Kinds.{Kind, allow_kind, bucket_of, burst_of, rate_of}
use runixo_agent.RateLimit.Limiter.Similar.{Similar, view, view-none, view-some, allow_kind-Similar}
use runixo_agent.RateLimit.Limiter.Settled.{
  IsMade, IsCounterOf, IsSettled, allow_kind-IsSettled, new_limiter-IsSettled,
}
use runixo_agent.RateLimit.Limiter.Isolation.{config-allow_kind}

-- Ten minutes earn a full burst of every kind.
abbrev pub IsGenerous : Config → Type 0
IsGenerous cfg = (k : Kind) → burst_of k cfg ≤ 10 * rate_of k cfg

mul_mono : {a b : ℕ} (r : ℕ) → a ≤ b → a * r ≤ b * r
mul_mono r h = grind arith

refill_idle :
    {burst rate seen : ℕ} (b : TokenBucket) (t now : ℕ)
    → IsMade burst rate seen b
    → burst ≤ 10 * rate
    → seen < t - idle_limit
    → t ≤ now
    → refill now b ≡ new_token_bucket now burst rate
unfolding refill new_token_bucket
refill_idle {burst} {rate} {seen} b t now m g idle le =
    let e : idle_limit * rate ≤ (now - b.last_refill) * rate =
      mul_mono {a = idle_limit} {b = now - b.last_refill} rate (omega (arith, m.refilled)) in
    ground (arith, e, m.full_at, m.same_rate)

view-cleanup :
    (k : Kind) (t now : ℕ) (cfg : Config) (o : Option ClientCounter)
    → burst_of k cfg ≤ 10 * rate_of k cfg
    → t ≤ now
    → ((c : ClientCounter) → o ≡ some c → IsCounterOf cfg c)
    → view k now cfg o
      ≡ view k now cfg (keep_if (λ counter. not (ltb counter.last_seen (t - idle_limit))) o)
view-cleanup k t now cfg none g le m = refl
view-cleanup k t now cfg (some c) g le m = elim (Bool-cases (ltb c.last_seen (t - idle_limit))) [
  | inl idle ↦
      rw (idle, view-none k now cfg, view-some k now cfg c)
        (refill_idle (bucket_of k c) t now (m c refl k) g (ltb→lt _ _ idle) le)
  | inr busy ↦ rw busy
]

pub cleanup-Similar :
    {t : ℕ} {l : Limiter} → IsSettled t l → IsGenerous l.config → Similar t l (cleanup t l)
unfolding cleanup
cleanup-Similar {t} {l} s g = record {
  same_switch = refl;
  same_view = λ k now ip le.
      rw (lookup-retain _ ip l.counters s.unique) (
        view-cleanup k t now l.config (lookup ip l.counters) (g k) le
          (λ c e. (s.counter ip c e).1));
}

pub record Call : Type 0 where
  pub kind : Kind
  pub time : ℕ
  pub peer : Option Text

-- The limiter after some calls, and what they were answered.
unfoldable pub after_calls : List Call → Limiter → Limiter
after_calls [] l = l
after_calls (c ∷ cs) l = after_calls cs (allow_kind c.kind c.time c.peer l).0

unfoldable pub answers : List Call → Limiter → List Bool
answers [] l = []
answers (c ∷ cs) l =
    (allow_kind c.kind c.time c.peer l).1 ∷ answers cs (allow_kind c.kind c.time c.peer l).0

abbrev pub times : List Call → List ℕ
times = map (λ c. c.time)

answers-Similar :
    (cs : List Call) (t : ℕ) {l l' : Limiter}
    → Similar t l l'
    → Ascending t (times cs)
    → answers cs l ≡ answers cs l'
unfolding answers
answers-Similar [] t s a = refl
answers-Similar (c ∷ cs) t s a =
    let (same, next) = allow_kind-Similar s a.0 c.kind c.peer in
    rw (same, answers-Similar cs c.time next a.1)

after_calls-config : (cs : List Call) (l : Limiter) → (after_calls cs l).config ≡ l.config
unfolding after_calls
after_calls-config [] l = refl
after_calls-config (c ∷ cs) l = after_calls-config cs _ ∙ config-allow_kind c.kind c.time c.peer l

later-IsSettled : {t now : ℕ} {l : Limiter} → t ≤ now → IsSettled t l → IsSettled now l
later-IsSettled le s = record {
  unique = s.unique;
  counter = λ ip c e. (le_trans (s.counter ip c e).0 le, (s.counter ip c e).1);
}

after_calls-IsSettled :
    (cs : List Call) (t end : ℕ) {l : Limiter}
    → IsSettled t l
    → t ≤ end
    → Ascending t (times cs)
    → All (λ u. u ≤ end) (times cs)
    → IsSettled end (after_calls cs l)
unfolding after_calls
after_calls-IsSettled [] t end s le a b = later-IsSettled le s
after_calls-IsSettled (c ∷ cs) t end s le a b =
    after_calls-IsSettled cs c.time end (allow_kind-IsSettled s a.0 c.kind c.peer) b.0 a.1 b.1

-- Take any calls to a new limiter whose configuration earns a full burst in ten minutes. A cleanup
-- at a time after them is not seen by any later calls, which are answered as without it.
pub answers-cleanup :
    (o : Option Config) (past future : List Call) (t : ℕ)
    → IsGenerous (new_limiter o).config
    → Ascending 0 (times past)
    → All (λ u. u ≤ t) (times past)
    → Ascending t (times future)
    → let l = after_calls past (new_limiter o) in answers future (cleanup t l) ≡ answers future l
answers-cleanup o past future t g a b f = sym (
    answers-Similar future t
      (cleanup-Similar
        (after_calls-IsSettled past 0 t (new_limiter-IsSettled o 0) (omega arith) a b)
        (rw (after_calls-config past (new_limiter o)) g))
      f)
