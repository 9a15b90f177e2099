-- ===== src/Cloudflare/Blocker/Tests.antt =====
-- The theorems of the blocker at concrete inputs, and runs of the code.
use runixo_agent.Prelude.{
  ℕ, ◌+◌, ◌≡◌, ◌⊎◌, refl, true, false, not, ◌&&◌, Option, none, some, List, [], ◌∷◌, Text, codes,
  lookup, insert, text_eq, IsUnique, length,
}
use runixo_agent.Prelude.Int.{pos}
use runixo_agent.Cloudflare.Threat.{Threat}
use runixo_agent.Cloudflare.Blocker.{
  get_stats, BlockedIp, IpBlocker, Client, missing, default_blocker_config, new_ip_blocker,
  is_key_of, is_blocked, is_whitelisted, add_record, expiry, send_event, save_blocked_ips,
}
use runixo_agent.Cloudflare.Blocker.Calls.{
  block_threat, block_in, block_zones, block_ip_on_zone, note_block, get_protected_zones,
}
use runixo_agent.Cloudflare.Blocker.Expiry.{check_expirations, over_at, lookup-check_expirations}
use runixo_agent.Cloudflare.Blocker.Saved.{IsSound}
use runixo_agent.Cloudflare.Blocker.History.{
  Call, threat_seen, manual, unblocks, tick, whitelists, after_calls, history-IsSound,
}

-- A client that counts its calls; it has two zones and refuses nothing.
abbrev counting : Client ℕ
counting = record {
  create_access_rule = λ zone mode ip reason n. (n + 1, some (codes "rule"));
  delete_access_rule = λ zone rule n. (n + 1, true);
  list_zones = λ n. (
    n + 1,
    some (
        record { id = codes "z1"; name = codes "one" }
        ∷ record { id = codes "z2"; name = codes "two" }
        ∷ []),
  );
  get_zone = λ zone n. (n + 1, some (record { id = zone; name = codes "one" }));
}

abbrev scan : Threat
scan = record {
  id = codes "t1";
  ip = codes "10.0.0.1";
  threat_type = codes "scanning";
  score = pos 60;
  description = [];
  source = [];
  line = [];
  timestamp = 0;
  count = pos 5;
}

abbrev entry : Text → Text → Option ℕ → BlockedIp
entry ip zone_id expires_at = record {
  ip = ip;
  rule_id = codes "rule";
  zone_id = zone_id;
  zone_name = codes "one";
  reason = [];
  threat_type = codes "scanning";
  score = pos 60;
  blocked_at = 5;
  expires_at = expires_at;
  auto_blocked = true;
}

abbrev one_block : IpBlocker
one_block = record {
  config = default_blocker_config;
  blocked_ips = (codes "10.0.0.1:z1", entry (codes "10.0.0.1") (codes "z1") (some 100)) ∷ [];
  events = [];
  disk = missing;
}

abbrev fresh : IpBlocker
fresh = record { config = default_blocker_config; blocked_ips = []; events = []; disk = missing }

-- Both zones are blocked, for an hour.
blocks :
    let (b, n, error) = block_threat counting 7 scan fresh 0 in
    (length b.blocked_ips ≡ 2)
    × (n ≡ 3)
    × (is_blocked (codes "10.0.0.1") b ≡ true)
    × (length b.events ≡ 2)
    × (expiry 7 (pos 3600) ≡ some 3_600_000_000_007)
unfolding block_threat is_whitelisted is_blocked is_key_of get_protected_zones block_in block_zones
    block_ip_on_zone note_block add_record save_blocked_ips send_event expiry insert text_eq
blocks = (refl, refl, refl, refl, refl)

alone : IsUnique one_block.blocked_ips
unfolding lookup
alone = (refl, tt)

lookup-check_expirations_example :
    (lookup (codes "10.0.0.1:z1") (check_expirations counting 101 one_block 0).0.blocked_ips
      ≡ lookup (codes "10.0.0.1:z1") one_block.blocked_ips)
    ⊎ ((lookup (codes "10.0.0.1:z1") (check_expirations counting 101 one_block 0).0.blocked_ips
          ≡ none)
        × (over_at 101 (lookup (codes "10.0.0.1:z1") one_block.blocked_ips) ≡ true))
lookup-check_expirations_example =
    lookup-check_expirations counting 101 one_block 0 (codes "10.0.0.1:z1") alone

not_its_key :
    (is_key_of scan.ip (codes "10.0.0.2:z1") && not (is_whitelisted scan.ip one_block)) ≡ false
unfolding is_key_of text_eq
not_its_key = refl

abbrev some_calls : List Call
some_calls =
    threat_seen 1 scan
    ∷ manual 2 (codes "10.0.0.3") (codes "z1") [] (pos 60)
    ∷ tick 3
    ∷ unblocks 4 (codes "10.0.0.3") (codes "z1")
    ∷ whitelists (codes "10.0.0.4")
    ∷ []

history-IsSound_example :
    IsSound (after_calls counting some_calls (new_ip_blocker none missing) 0).0
history-IsSound_example = history-IsSound counting none some_calls 0

counts :
    let s = get_stats one_block in
    (s.total_blocked ≡ 1)
    × (s.auto_blocked ≡ 1)
    × (s.manual_blocked ≡ 0)
    × (lookup (codes "one") s.by_zone ≡ some 1)
unfolding get_stats insert lookup text_eq
counts = (refl, refl, refl, refl)
