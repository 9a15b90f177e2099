-- ===== src/RateLimit/Limiter.antt =====
-- The limiter of internal/ratelimit/ratelimit.go: one counter with three buckets for each client.
-- An operation reads the clock once; a counter is held by the map alone, so that the pointer that
-- `getOrCreateCounter` returns is the entry of the map.
use runixo_agent.Prelude.{
  ℕ, ◌-◌, ◌/◌, Bool, true, false, not, Option, none, some, List, [], Text, codes, Dict, lookup,
  insert, retain, ltb, length, if◌then◌else◌,
}
use runixo_agent.RateLimit.Bucket.{TokenBucket, new_token_bucket, allow}
pub mod Kinds
pub mod Isolation
pub mod Similar
pub mod Settled
pub mod Cleanup

pub record Config : Type 0 where
  pub enabled : Bool
  pub requests_per_minute : ℕ
  pub commands_per_minute : ℕ
  pub file_ops_per_minute : ℕ
  pub burst_size : ℕ

unfoldable pub default_config : Config
default_config = record {
  enabled = true;
  requests_per_minute = 600;
  commands_per_minute = 200;
  file_ops_per_minute = 300;
  burst_size = 50;
}

pub record ClientCounter : Type 0 where
  pub requests : TokenBucket
  pub commands : TokenBucket
  pub file_ops : TokenBucket
  pub last_seen : ℕ

pub record Limiter : Type 0 where
  pub config : Config
  pub counters : Dict ClientCounter

unfoldable pub new_limiter : Option Config → Limiter
unfolding default_config
new_limiter none = record { config = default_config; counters = [] }
new_limiter (some c) = record { config = c; counters = [] }

-- The peer of the context, if there is one, names the client.
unfoldable pub get_client_ip : Option Text → Text
get_client_ip none = codes "unknown"
get_client_ip (some addr) = addr

unfoldable pub new_counter : ℕ → Config → ClientCounter
unfolding new_token_bucket
new_counter now c = record {
  requests = new_token_bucket now c.burst_size c.requests_per_minute;
  commands = new_token_bucket now (c.burst_size / 2) c.commands_per_minute;
  file_ops = new_token_bucket now c.burst_size c.file_ops_per_minute;
  last_seen = now;
}

unfoldable pub seen_or_new : ℕ → Config → Option ClientCounter → ClientCounter
unfolding new_counter
seen_or_new now c none = new_counter now c
seen_or_new now c (some counter) = record counter { last_seen = now }

-- The counter of the client, and the limiter that holds it.
unfoldable pub get_or_create_counter : ℕ → Text → Limiter → ClientCounter × Limiter
unfolding seen_or_new
get_or_create_counter now ip l =
    let counter = seen_or_new now l.config (lookup ip l.counters) in
    (counter, record l { counters = insert ip counter l.counters })

unfoldable pub allow_request : ℕ → Option Text → Limiter → Limiter × Bool
unfolding get_or_create_counter get_client_ip
allow_request now peer l =
    let ip = get_client_ip peer in
    let (counter, l') = get_or_create_counter now ip l in
    let (tb, allowed) = allow now counter.requests in
    if not l.config.enabled then (l, true) else (
      record l' { counters = insert ip (record counter { requests = tb }) l'.counters },
      allowed,
    )

unfoldable pub allow_command : ℕ → Option Text → Limiter → Limiter × Bool
unfolding get_or_create_counter get_client_ip
allow_command now peer l =
    let ip = get_client_ip peer in
    let (counter, l') = get_or_create_counter now ip l in
    let (tb, allowed) = allow now counter.commands in
    if not l.config.enabled then (l, true) else (
      record l' { counters = insert ip (record counter { commands = tb }) l'.counters },
      allowed,
    )

unfoldable pub allow_file_op : ℕ → Option Text → Limiter → Limiter × Bool
unfolding get_or_create_counter get_client_ip
allow_file_op now peer l =
    let ip = get_client_ip peer in
    let (counter, l') = get_or_create_counter now ip l in
    let (tb, allowed) = allow now counter.file_ops in
    if not l.config.enabled then (l, true) else (
      record l' { counters = insert ip (record counter { file_ops = tb }) l'.counters },
      allowed,
    )

-- Ten minutes.
abbrev pub idle_limit : ℕ
idle_limit = 600_000_000_000

unfoldable pub cleanup : ℕ → Limiter → Limiter
cleanup now l =
    let cutoff = now - idle_limit in
    record l { counters = retain (λ counter. not (ltb counter.last_seen cutoff)) l.counters }

unfoldable pub set_config : Config → Limiter → Limiter
set_config c l = record l { config = c }

-- `GetStats`: the switch, the number of clients and the configuration.
unfoldable pub get_stats : Limiter → Bool × ℕ × Config
get_stats l = (l.config.enabled, length l.counters, l.config)
