-- ===== src/Cloudflare/Blocker/Calls.antt =====
-- The operations of the blocker that call Cloudflare.
use runixo_agent.Prelude.{
  ℕ, Bool, true, false, not, Option, none, some, List, [], ◌∷◌, ◌++◌, Text, codes, lookup, delete,
  keep, any, ltb, text_eq, length, if◌then◌else◌,
}
use runixo_agent.Prelude.Int.{ℤ, pos}
use runixo_agent.Cloudflare.Threat.{Threat}
use runixo_agent.Cloudflare.Blocker.{
  BlockedIp, unblocked, IpBlocker, Zone, Client, send_event, save_blocked_ips, expiry, key_of,
  is_blocked, is_whitelisted, add_record,
}

-- The errors of the client, each call with its own.
pub data CallError : Type 0 where
  no_zones no_zone no_rule not_deleted : CallError

-- What follows the call that makes a rule: an error, or the record of the block.
unfoldable pub note_block :
    {World : Type 0}
    → (Text → BlockedIp)
    → Option Threat
    → IpBlocker
    → World × Option Text
    → IpBlocker × World × Option CallError
unfolding add_record
note_block entry threat b (w, none) = (b, w, some no_rule)
note_block entry threat b (w, some rule_id) = (add_record (entry rule_id) threat b, w, none)

module _ {World : Type 0} (client : Client World) where
  unfoldable pub get_protected_zones : IpBlocker → World → World × Option (List Zone)
  get_protected_zones b w =
      let (w', answer) = client.list_zones w in
      (
        w',
        elim answer [
          | none ↦ none
          | some zones ↦ some (
              if ltb 0 (length b.config.protected_zones)
              then keep (λ zone. any (text_eq zone.id) b.config.protected_zones) zones
              else zones)
        ],
      )

  unfoldable pub block_ip_on_zone :
      ℕ → Text → Zone → Text → Threat → IpBlocker → World → IpBlocker × World × Option CallError
  unfolding note_block
  block_ip_on_zone now ip zone reason threat b w =
      note_block
        (λ rule_id. record {
          ip = ip;
          rule_id = rule_id;
          zone_id = zone.id;
          zone_name = zone.name;
          reason = reason;
          threat_type = threat.threat_type;
          score = threat.score;
          blocked_at = now;
          expires_at = expiry now b.config.default_block_duration;
          auto_blocked = true;
        })
        (some threat) b (client.create_access_rule zone.id b.config.block_mode ip reason w)

  -- The loop over the zones; a zone that fails is only logged.
  unfoldable pub block_zones :
      ℕ → Text → List Zone → Text → Threat → IpBlocker → World → IpBlocker × World
  unfolding block_ip_on_zone
  block_zones now ip [] reason threat b w = (b, w)
  block_zones now ip (zone ∷ zones) reason threat b w =
      let (b', w', error) = block_ip_on_zone now ip zone reason threat b w in
      block_zones now ip zones reason threat b' w'

  abbrev pub reason_of : Threat → Text
  reason_of threat =
      if text_eq threat.description []
      then codes "Auto-blocked by Runixo: " ++ threat.threat_type
      else threat.description

  unfoldable pub block_in :
      ℕ → Threat → IpBlocker → World × Option (List Zone) → IpBlocker × World × Option CallError
  unfolding block_zones
  block_in now threat b (w, none) = (b, w, some no_zones)
  block_in now threat b (w, some zones) =
      let (b', w') = block_zones now threat.ip zones (reason_of threat) threat b w in (b', w', none)

  unfoldable pub block_threat :
      ℕ → Threat → IpBlocker → World → IpBlocker × World × Option CallError
  unfolding get_protected_zones block_in
  block_threat now threat b w =
      if not b.config.auto_block_enabled
      then (b, w, none)
      else if is_whitelisted threat.ip b
      then (b, w, none)
      else if is_blocked threat.ip b
      then (b, w, none)
      else block_in now threat b (get_protected_zones b w)

  unfoldable pub manual_in :
      ℕ
      → Text
      → Text
      → ℤ
      → Text
      → IpBlocker
      → World × Option Zone
      → IpBlocker × World × Option CallError
  unfolding note_block
  manual_in now ip reason duration_seconds zone_id b (w, none) = (b, w, some no_zone)
  manual_in now ip reason duration_seconds zone_id b (w, some zone) =
      note_block
        (λ rule_id. record {
          ip = ip;
          rule_id = rule_id;
          zone_id = zone_id;
          zone_name = zone.name;
          reason = reason;
          threat_type = codes "unknown";
          score = pos 0;
          blocked_at = now;
          expires_at = expiry now duration_seconds;
          auto_blocked = false;
        })
        none b (client.create_access_rule zone_id b.config.block_mode ip reason w)

  unfoldable pub manual_block :
      ℕ → Text → Text → Text → ℤ → IpBlocker → World → IpBlocker × World × Option CallError
  unfolding manual_in
  manual_block now ip zone_id reason duration_seconds b w =
      manual_in now ip reason duration_seconds zone_id b (client.get_zone zone_id w)

  unfoldable pub remove_record :
      ℕ → Text → Text → BlockedIp → IpBlocker → World × Bool → IpBlocker × World × Option CallError
  unfolding send_event save_blocked_ips
  remove_record now ip zone_id r b (w, false) = (b, w, some not_deleted)
  remove_record now ip zone_id r b (w, true) = (
    send_event
        (record {
          event_type = unblocked;
          ip = ip;
          zone_id = zone_id;
          reason = codes "Manual unblock";
          timestamp = now;
          threat = none;
          blocked_ip = r;
        })
        (save_blocked_ips (record b { blocked_ips = delete (key_of ip zone_id) b.blocked_ips })),
    w,
    none,
  )

  unfoldable pub unblock :
      ℕ → Text → Text → IpBlocker → World → IpBlocker × World × Option CallError
  unfolding remove_record
  unblock now ip zone_id b w = elim (lookup (key_of ip zone_id) b.blocked_ips) [
    | none ↦ (b, w, none)
    | some r ↦ remove_record now ip zone_id r b (client.delete_access_rule zone_id r.rule_id w)
  ]
