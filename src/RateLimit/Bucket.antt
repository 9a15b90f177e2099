-- ===== src/RateLimit/Bucket.antt =====
-- The token bucket of internal/ratelimit/ratelimit.go.
-- Times are nanoseconds. The source keeps float64 tokens and a refill rate per second; here a token
-- is cut into `token_unit` = 60 * 10^9 equal units, so that a rate of n per minute is exactly n
-- units per nanosecond, and the arithmetic is that of the source without its rounding.
use runixo_agent.Prelude.{
  ℕ, ◌+◌, ◌-◌, ◌*◌, Bool, true, false, List, [], ◌∷◌, ltb, leb, if◌then◌else◌,
}
pub mod Rate

pub record TokenBucket : Type 0 where
  pub tokens : ℕ
  pub max_tokens : ℕ
  pub refill_rate : ℕ
  pub last_refill : ℕ

abbrev pub token_unit : ℕ
token_unit = 60_000_000_000

unfoldable pub new_token_bucket : ℕ → ℕ → ℕ → TokenBucket
new_token_bucket now max_tokens refill_per_minute = record {
  tokens = max_tokens * token_unit;
  max_tokens = max_tokens * token_unit;
  refill_rate = refill_per_minute;
  last_refill = now;
}

-- The first half of `allow`: the tokens earned since the last call, capped.
unfoldable pub refill : ℕ → TokenBucket → TokenBucket
refill now tb =
    let earned = tb.tokens + (now - tb.last_refill) * tb.refill_rate in
    record tb {
      tokens = if ltb tb.max_tokens earned then tb.max_tokens else earned;
      last_refill = now;
    }

-- The second half: take a token if there is one.
unfoldable pub spend : TokenBucket → TokenBucket × Bool
spend tb =
    if leb token_unit tb.tokens
    then (record tb { tokens = tb.tokens - token_unit }, true)
    else (tb, false)

unfoldable pub allow : ℕ → TokenBucket → TokenBucket × Bool
unfolding refill spend
allow now tb = spend (refill now tb)
