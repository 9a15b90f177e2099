-- ===== src/RateLimit/Limiter/Kinds.antt =====
-- The three entry points of the limiter side by side, and their common shape.
use runixo_agent.Prelude.{
  ℕ, ◌/◌, ◌≡◌, refl, ◌≢◌, Bool, true, not, Option, Text, insert, lookup, if◌then◌else◌, arith,
}
use runixo_agent.RateLimit.Bucket.{TokenBucket, allow, new_token_bucket}
use runixo_agent.RateLimit.Limiter.{
  Config, Limiter, ClientCounter, get_client_ip, seen_or_new, new_counter, allow_request,
  allow_command, allow_file_op,
}

pub data Kind : Type 0 where
  request command file_op : Kind

unfoldable pub allow_kind : Kind → ℕ → Option Text → Limiter → Limiter × Bool
allow_kind request = allow_request
allow_kind command = allow_command
allow_kind file_op = allow_file_op

abbrev pub bucket_of : Kind → ClientCounter → TokenBucket
bucket_of request c = c.requests
bucket_of command c = c.commands
bucket_of file_op c = c.file_ops

abbrev pub put_bucket : Kind → TokenBucket → ClientCounter → ClientCounter
put_bucket request b c = record c { requests = b }
put_bucket command b c = record c { commands = b }
put_bucket file_op b c = record c { file_ops = b }

-- The bursts and the rates that a configuration gives to each kind.
abbrev pub burst_of : Kind → Config → ℕ
burst_of request c = c.burst_size
burst_of command c = c.burst_size / 2
burst_of file_op c = c.burst_size

abbrev pub rate_of : Kind → Config → ℕ
rate_of request c = c.requests_per_minute
rate_of command c = c.commands_per_minute
rate_of file_op c = c.file_ops_per_minute

pub bucket_of-new_counter :
    (k : Kind) (now : ℕ) (c : Config)
    → bucket_of k (new_counter now c) ≡ new_token_bucket now (burst_of k c) (rate_of k c)
unfolding new_counter
bucket_of-new_counter request now c = refl
bucket_of-new_counter command now c = refl
bucket_of-new_counter file_op now c = refl

pub bucket_of-put_bucket_self :
    (k : Kind) (b : TokenBucket) (c : ClientCounter) → bucket_of k (put_bucket k b c) ≡ b
bucket_of-put_bucket_self request b c = refl
bucket_of-put_bucket_self command b c = refl
bucket_of-put_bucket_self file_op b c = refl

pub bucket_of-put_bucket_ne :
    (k j : Kind) (b : TokenBucket) (c : ClientCounter)
    → j ≢ k
    → bucket_of j (put_bucket k b c) ≡ bucket_of j c
bucket_of-put_bucket_ne k j b c ne = ground arith

-- The counter that a call of kind `k` leaves for its client.
unfoldable pub counter_after : Kind → ℕ → Config → Option ClientCounter → ClientCounter
counter_after k now c o =
    let counter = seen_or_new now c o in put_bucket k (allow now (bucket_of k counter)).0 counter

pub allow_kind_lem :
    (k : Kind) (now : ℕ) (peer : Option Text) (l : Limiter)
    → let ip = get_client_ip peer in
      let counter = seen_or_new now l.config (lookup ip l.counters) in
      allow_kind k now peer l ≡ (
        if not l.config.enabled then (l, true) else (
          record l {
            counters =
                insert ip
                  (counter_after k now l.config (lookup ip l.counters))
                  (insert ip counter l.counters);
          },
          (allow now (bucket_of k counter)).1,
        ))
unfolding allow_kind allow_request allow_command allow_file_op counter_after
allow_kind_lem request now peer l = refl
allow_kind_lem command now peer l = refl
allow_kind_lem file_op now peer l = refl
