-- ===== src/RateLimit/Limiter/Isolation.antt =====
-- A client's requests spend only that client's tokens, and only those of their own kind.
use runixo_agent.Prelude.{
  ℕ, ◌≡◌, ◌≢◌, true, false, Option, some, Text, lookup, lookup-insert_self, lookup-insert_ne,
  Bool-cases, inl, inr,
}
use runixo_agent.RateLimit.Bucket.{allow}
use runixo_agent.RateLimit.Limiter.{Limiter, ClientCounter, get_client_ip, seen_or_new}
use runixo_agent.RateLimit.Limiter.Kinds.{
  Kind, allow_kind, allow_kind_lem, bucket_of, counter_after, bucket_of-put_bucket_self,
  bucket_of-put_bucket_ne,
}

pub lookup-allow_kind :
    (k : Kind) (now : ℕ) (peer : Option Text) (l : Limiter)
    → l.config.enabled ≡ true
    → lookup (get_client_ip peer) (allow_kind k now peer l).0.counters
      ≡ some (counter_after k now l.config (lookup (get_client_ip peer) l.counters))
lookup-allow_kind k now peer l on = rw (allow_kind_lem k now peer l, on) (lookup-insert_self _ _ _)

pub lookup-allow_kind_ne :
    (k : Kind) (now : ℕ) (peer : Option Text) (l : Limiter) (j : Text)
    → get_client_ip peer ≢ j
    → lookup j (allow_kind k now peer l).0.counters ≡ lookup j l.counters
lookup-allow_kind_ne k now peer l j ne = elim (Bool-cases l.config.enabled) [
  | inl on ↦
      rw (allow_kind_lem k now peer l, on)
        (rw (lookup-insert_ne (get_client_ip peer) j _ _ ne)
          (lookup-insert_ne (get_client_ip peer) j _ _ ne))
  | inr off ↦ rw (allow_kind_lem k now peer l, off)
]

pub config-allow_kind :
    (k : Kind) (now : ℕ) (peer : Option Text) (l : Limiter)
    → (allow_kind k now peer l).0.config ≡ l.config
config-allow_kind k now peer l = elim (Bool-cases l.config.enabled) [
  | inl on ↦ rw (allow_kind_lem k now peer l, on)
  | inr off ↦ rw (allow_kind_lem k now peer l, off)
]

pub answer-allow_kind :
    (k : Kind) (now : ℕ) (peer : Option Text) (l : Limiter)
    → l.config.enabled ≡ true
    → (allow_kind k now peer l).1
      ≡ (allow now
          (bucket_of k (seen_or_new now l.config (lookup (get_client_ip peer) l.counters)))).1
answer-allow_kind k now peer l on = rw (allow_kind_lem k now peer l, on)

-- While the limiter is on, a call of one kind answers by that kind's bucket of the caller, and
-- leaves alone the caller's two other buckets and every other client's counter.
pub allow_kind_isolated :
    (k other : Kind) (now : ℕ) (peer : Option Text) (l : Limiter) (j : Text)
    → l.config.enabled ≡ true
    → other ≢ k
    → get_client_ip peer ≢ j
    → let ip = get_client_ip peer in
      let before = seen_or_new now l.config (lookup ip l.counters) in
      let (l', allowed) = allow_kind k now peer l in
      (c : ClientCounter) × (lookup ip l'.counters ≡ some c)
      × (allowed ≡ (allow now (bucket_of k before)).1)
      × (bucket_of k c ≡ (allow now (bucket_of k before)).0)
      × (bucket_of other c ≡ bucket_of other before)
      × (lookup j l'.counters ≡ lookup j l.counters)
unfolding counter_after
allow_kind_isolated k other now peer l j on ne nj =
    let before = seen_or_new now l.config (lookup (get_client_ip peer) l.counters) in
    (
      counter_after k now l.config (lookup (get_client_ip peer) l.counters),
      lookup-allow_kind k now peer l on,
      answer-allow_kind k now peer l on,
      bucket_of-put_bucket_self k _ before,
      bucket_of-put_bucket_ne k other _ before ne,
      lookup-allow_kind_ne k now peer l j nj,
    )

-- While the limiter is off, every call is allowed and nothing changes.
pub allow_kind_off :
    (k : Kind) (now : ℕ) (peer : Option Text) (l : Limiter)
    → l.config.enabled ≡ false
    → allow_kind k now peer l ≡ (l, true)
allow_kind_off k now peer l off = rw (allow_kind_lem k now peer l, off)
