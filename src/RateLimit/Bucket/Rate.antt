-- ===== src/RateLimit/Bucket/Rate.antt =====
-- How much a token bucket lets through in any window of time.
use mathlib.Core.Path.{subst}
use runixo_agent.Prelude.{
  ℕ, suc, ◌+◌, ◌-◌, ◌*◌, ◌≤◌, ◌≡◌, refl, ap, Bool, true, false, List, [], ◌∷◌, arith, if◌then◌else◌,
  All, All-map,
}
use runixo_agent.RateLimit.Bucket.{TokenBucket, token_unit, refill, spend, allow}

-- Times that never go back, from `t` on.
abbrev pub Ascending : ℕ → List ℕ → Type 0
Ascending t [] = Unit
Ascending t (u ∷ us) = (t ≤ u) × Ascending u us

-- One request at each of the times: the bucket afterwards, and how many were allowed.
unfoldable pub run_allow : TokenBucket → List ℕ → TokenBucket × ℕ
run_allow tb [] = (tb, 0)
run_allow tb (t ∷ ts) =
    let (tb', allowed) = allow t tb in
    let (end, n) = run_allow tb' ts in (end, if allowed then suc n else n)

abbrev granted : Bool → ℕ
granted true = token_unit
granted false = 0

elapsed_units : (a b r : ℕ) → a ≤ b → (b - a) * r + a * r ≡ b * r
elapsed_units a b r h = grind arith

allow_potential :
    (tb : TokenBucket) (t : ℕ)
    → tb.last_refill ≤ t
    → granted (allow t tb).1 + (allow t tb).0.tokens + tb.last_refill * tb.refill_rate
      ≤ tb.tokens + t * tb.refill_rate
unfolding allow
allow_potential tb t h = ground (arith, elapsed_units tb.last_refill t tb.refill_rate h)

allow_keeps :
    (tb : TokenBucket) (t : ℕ)
    → ((allow t tb).0.last_refill ≡ t)
      × ((allow t tb).0.refill_rate ≡ tb.refill_rate)
      × ((allow t tb).0.max_tokens ≡ tb.max_tokens)
      × ((allow t tb).0.tokens ≤ tb.max_tokens)
unfolding allow
allow_keeps tb t = ground arith

run_allow_potential :
    (ts : List ℕ) (tb : TokenBucket)
    → Ascending tb.last_refill ts
    → (run_allow tb ts).1 * token_unit
        + (run_allow tb ts).0.tokens
        + tb.last_refill * tb.refill_rate
      ≤ tb.tokens + (run_allow tb ts).0.last_refill * tb.refill_rate
unfolding run_allow
run_allow_potential [] tb a = omega arith
run_allow_potential (t ∷ ts) tb a =
    ground
      (arith, allow_potential tb t a.0, allow_keeps tb t, run_allow_potential ts (allow t tb).0)

mul_mono_left : {a b : ℕ} (r : ℕ) → a ≤ b → a * r ≤ b * r
mul_mono_left r h = grind arith

run_allow_last :
    (ts : List ℕ) (tb : TokenBucket) (w : ℕ)
    → tb.last_refill ≤ w
    → All (λ t. t ≤ w) ts
    → ((run_allow tb ts).0.last_refill ≤ w)
      × ((run_allow tb ts).0.refill_rate ≡ tb.refill_rate)
      × ((run_allow tb ts).0.max_tokens ≡ tb.max_tokens)
unfolding run_allow
run_allow_last [] tb w h a = ground arith
run_allow_last (t ∷ ts) tb w h a =
    ground (arith, allow_keeps tb t, run_allow_last ts (allow t tb).0 w)

window_from :
    (tb : TokenBucket) (ts : List ℕ) (w : ℕ)
    → tb.tokens ≤ tb.max_tokens
    → Ascending tb.last_refill ts
    → All (λ t. t ≤ tb.last_refill + w) ts
    → (run_allow tb ts).1 * token_unit ≤ tb.max_tokens + w * tb.refill_rate
window_from tb ts w h a l =
    let (last, _, _) = run_allow_last ts tb (tb.last_refill + w) (omega arith) l in
    omega (arith, run_allow_potential ts tb a, mul_mono_left tb.refill_rate last)

refill_capped : (tb : TokenBucket) (t : ℕ) → (refill t tb).tokens ≤ tb.max_tokens
unfolding refill
refill_capped tb t = ground arith

no_time : (t r : ℕ) → (t - t) * r ≡ 0
no_time t r = grind arith

-- A refill at the time of the last one adds nothing.
allow-refill : (tb : TokenBucket) (t : ℕ) → allow t (refill t tb) ≡ allow t tb
unfolding allow refill
allow-refill tb t =
    ap (λ n. spend (record tb { tokens = n; last_refill = t }))
      (ground (arith, no_time t tb.refill_rate))

run_allow-refill :
    (tb : TokenBucket) (t : ℕ) (ts : List ℕ)
    → run_allow (refill t tb) (t ∷ ts) ≡ run_allow tb (t ∷ ts)
unfolding run_allow
run_allow-refill tb t ts = rw (allow-refill tb t) refl

-- However the requests are placed in time, and however long the bucket was idle before, it lets
-- through, in any window of `w` nanoseconds from `start` on, at most its capacity and what `w`
-- nanoseconds earn.
pub run_allow-le-capacity :
    (tb : TokenBucket) (start : ℕ) (ts : List ℕ) (w : ℕ)
    → tb.last_refill ≤ start
    → Ascending start ts
    → All (λ t. t ≤ start + w) ts
    → (run_allow tb ts).1 * token_unit ≤ tb.max_tokens + w * tb.refill_rate
unfolding run_allow refill
run_allow-le-capacity tb start [] w h a l = omega arith
run_allow-le-capacity tb start (t ∷ ts) w h a l =
    subst (λ x. x.1 * token_unit ≤ tb.max_tokens + w * tb.refill_rate) (run_allow-refill tb t ts)
      (window_from (refill t tb) (t ∷ ts) w (refill_capped tb t) (omega arith, a.1)
        (All-map (t ∷ ts) (λ u b. within u b) l))
  where
    within : (u : ℕ) → u ≤ start + w → u ≤ t + w
    within u b = omega (arith, a.0)

-- A bucket that can hold a token allows a request as soon as the time since its last refill has
-- earned one, whatever was spent before.
allow_after_wait :
    (tb : TokenBucket) (now : ℕ)
    → token_unit ≤ tb.max_tokens
    → token_unit ≤ (now - tb.last_refill) * tb.refill_rate
    → (allow now tb).1 ≡ true
unfolding allow
allow_after_wait tb now h e = ground arith
