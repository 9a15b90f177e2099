-- ===== src/RateLimit/Limiter/Similar.antt =====
-- When two limiters answer every future call alike: the buckets, once refilled, are equal.
use runixo_agent.Prelude.{
  ℕ, ◌≤◌, ◌≡◌, ◌≢◌, refl, sym, ◌∙◌, true, false, Option, none, some, Text, lookup, text_eq,
  text_eq_iff, Bool-cases, inl, inr, arith, ◌⊎◌, ne_of_text_eq,
}
use native.Mathlib.Nat.{le_trans}
use runixo_agent.RateLimit.Bucket.{TokenBucket, allow, refill, spend, new_token_bucket}
use runixo_agent.RateLimit.Limiter.{Config, Limiter, ClientCounter, get_client_ip, seen_or_new}
use runixo_agent.RateLimit.Limiter.Kinds.{
  Kind, request, command, file_op, allow_kind, bucket_of, burst_of, rate_of, bucket_of-new_counter,
  counter_after, bucket_of-put_bucket_self, bucket_of-put_bucket_ne,
}
use runixo_agent.RateLimit.Limiter.Isolation.{
  lookup-allow_kind, lookup-allow_kind_ne, answer-allow_kind, config-allow_kind, allow_kind_off,
}

-- The refilled bucket of a kind that a call at time `now` would find.
pub view : Kind → ℕ → Config → Option ClientCounter → TokenBucket
view k now c o = refill now (bucket_of k (seen_or_new now c o))

pub record Similar (t : ℕ) (l l' : Limiter) : Type 0 where
  pub same_switch : l.config.enabled ≡ l'.config.enabled
  pub same_view :
      (k : Kind) (now : ℕ) (ip : Text)
      → t ≤ now
      → view k now l.config (lookup ip l.counters) ≡ view k now l'.config (lookup ip l'.counters)

pub Kind-discrete : Discrete Kind
Kind-discrete = hlevel

pub bucket_of-seen :
    (k : Kind) (now : ℕ) (c : Config) (counter : ClientCounter)
    → bucket_of k (seen_or_new now c (some counter)) ≡ bucket_of k counter
unfolding seen_or_new
bucket_of-seen request now c counter = refl
bucket_of-seen command now c counter = refl
bucket_of-seen file_op now c counter = refl

pub bucket_of-fresh :
    (k : Kind) (now : ℕ) (c : Config)
    → bucket_of k (seen_or_new now c none) ≡ new_token_bucket now (burst_of k c) (rate_of k c)
unfolding seen_or_new
bucket_of-fresh k now c = bucket_of-new_counter k now c

-- A new bucket is full, so the time of its creation does not show.
refill-new :
    (t now burst rate : ℕ)
    → refill now (new_token_bucket t burst rate) ≡ new_token_bucket now burst rate
unfolding refill new_token_bucket
refill-new t now burst rate = ground arith

pub view-none :
    (k : Kind) (now : ℕ) (c : Config)
    → view k now c none ≡ new_token_bucket now (burst_of k c) (rate_of k c)
unfolding view
view-none k now c = rw (bucket_of-fresh k now c) (refill-new now now _ _)

pub view-some :
    (k : Kind) (now : ℕ) (c : Config) (counter : ClientCounter)
    → view k now c (some counter) ≡ refill now (bucket_of k counter)
unfolding view
view-some k now c counter = rw (bucket_of-seen k now c counter)

refill-seen :
    (k : Kind) (t now : ℕ) (c : Config) (o : Option ClientCounter)
    → refill now (bucket_of k (seen_or_new t c o)) ≡ view k now c o
refill-seen k t now c none = rw (bucket_of-fresh k t c, view-none k now c) (refill-new t now _ _)
refill-seen k t now c (some counter) = rw (bucket_of-seen k t c counter, view-some k now c counter)

allow-view :
    (k : Kind) (t : ℕ) (c : Config) (o : Option ClientCounter)
    → allow t (bucket_of k (seen_or_new t c o)) ≡ spend (view k t c o)
unfolding allow view
allow-view k t c o = refl

view-after_self :
    (k : Kind) (t now : ℕ) (c : Config) (o : Option ClientCounter)
    → view k now c (some (counter_after k t c o)) ≡ refill now (spend (view k t c o)).0
unfolding counter_after
view-after_self k t now c o =
    rw (view-some k now c _, bucket_of-put_bucket_self k _ (seen_or_new t c o), allow-view k t c o)

view-after_ne :
    (k j : Kind) (t now : ℕ) (c : Config) (o : Option ClientCounter)
    → j ≢ k
    → view j now c (some (counter_after k t c o)) ≡ view j now c o
unfolding counter_after
view-after_ne k j t now c o ne =
    rw (view-some j now c _, bucket_of-put_bucket_ne k j _ (seen_or_new t c o) ne)
      (refill-seen j t now c o)

module _ {t now : ℕ} {l l' : Limiter} (s : Similar t l l') (le : t ≤ now) (k : Kind)
    (peer : Option Text) where
  same_answer : (allow_kind k now peer l).1 ≡ (allow_kind k now peer l').1
  same_answer = elim (Bool-cases l.config.enabled) [
    | inl on ↦ rw (
      answer-allow_kind k now peer l on,
      answer-allow_kind k now peer l' (sym s.same_switch ∙ on),
      allow-view k now l.config _,
      allow-view k now l'.config _,
      s.same_view k now (get_client_ip peer) le,
    )
    | inr off ↦
        rw (allow_kind_off k now peer l off, allow_kind_off k now peer l' (sym s.same_switch ∙ off))
  ]

  same_after :
      (j : Kind) (later : ℕ)
      → now ≤ later
      → view j later l.config
          (some (counter_after k now l.config (lookup (get_client_ip peer) l.counters)))
        ≡ view j later l'.config
            (some (counter_after k now l'.config (lookup (get_client_ip peer) l'.counters)))
  same_after j later h = elim (Kind-discrete j k) [
    | yes e ↦ rw e (
        rw (
          view-after_self k now later l.config _,
          view-after_self k now later l'.config _,
          s.same_view k now (get_client_ip peer) le,
        ))
    | no ne ↦
        rw (view-after_ne k j now later l.config _ ne, view-after_ne k j now later l'.config _ ne)
          (s.same_view j later (get_client_ip peer) (le_trans le h))
  ]

  same_entry :
      l.config.enabled ≡ true
      → (j : Kind) (later : ℕ) (ip : Text) → now ≤ later
      → view j later l.config (lookup ip (allow_kind k now peer l).0.counters)
        ≡ view j later l'.config (lookup ip (allow_kind k now peer l').0.counters)
  same_entry on j later ip h = elim (Bool-cases (text_eq (get_client_ip peer) ip)) [
    | inl e ↦ rw (← (text_eq_iff _ _).0 e) (
        rw
          (
            lookup-allow_kind k now peer l on,
            lookup-allow_kind k now peer l' (sym s.same_switch ∙ on),
          )
          (same_after j later h))
    | inr e ↦
        let ne : get_client_ip peer ≢ ip = ne_of_text_eq e in
        rw (lookup-allow_kind_ne k now peer l ip ne, lookup-allow_kind_ne k now peer l' ip ne)
          (s.same_view j later ip (le_trans le h))
  ]

  -- Similar limiters answer a call alike and stay similar.
  pub allow_kind-Similar :
      ((allow_kind k now peer l).1 ≡ (allow_kind k now peer l').1)
      × Similar now (allow_kind k now peer l).0 (allow_kind k now peer l').0
  allow_kind-Similar = (
    same_answer,
    record {
      same_switch =
          rw (config-allow_kind k now peer l, config-allow_kind k now peer l') s.same_switch;
      same_view = λ j later ip h.
          rw (config-allow_kind k now peer l, config-allow_kind k now peer l')
            (entry (Bool-cases l.config.enabled) j later ip h);
    },
  )
    where
      entry :
          (l.config.enabled ≡ true) ⊎ (l.config.enabled ≡ false)
          → (j : Kind) (later : ℕ) (ip : Text) → now ≤ later
          → view j later l.config (lookup ip (allow_kind k now peer l).0.counters)
            ≡ view j later l'.config (lookup ip (allow_kind k now peer l').0.counters)
      entry (inl on) j later ip h = same_entry on j later ip h
      entry (inr off) j later ip h =
          rw
            (
              allow_kind_off k now peer l off,
              allow_kind_off k now peer l' (sym s.same_switch ∙ off),
            )
            (s.same_view j later ip (le_trans le h))
