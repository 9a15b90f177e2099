-- ===== src/Cloudflare/Blocker/Scope.antt =====
-- Which records an automatic block can touch.
use runixo_agent.Prelude.{
  ℕ, ◌≡◌, ◌≢◌, refl, sym, ap, ◌∙◌, Bool, true, false, not, ◌&&◌, Option, none, some, List, [], ◌∷◌,
  Text, lookup, lookup-insert_ne, if◌then◌else◌, arith,
}
use runixo_agent.Cloudflare.Threat.{Threat}
use runixo_agent.Cloudflare.Blocker.{
  BlockedIp, IpBlocker, Zone, Client, key_of, is_key_of, is_whitelisted, is_blocked,
}
use runixo_agent.Cloudflare.Blocker.Keys.{is_key_of_iff, blocked_ips-add_record}
use runixo_agent.Cloudflare.Blocker.Calls.{
  CallError, note_block, block_ip_on_zone, block_zones, block_in, block_threat, get_protected_zones,
}

key_of_ne : (ip zone_id k : Text) → is_key_of ip k ≡ false → key_of ip zone_id ≢ k
key_of_ne ip zone_id k h e = ground (arith, (is_key_of_iff ip k).1 (zone_id, sym e))

module _ {World : Type 0} (client : Client World) (k : Text) where
  abbrev AsBefore : IpBlocker → IpBlocker → Type 0
  AsBefore b c = lookup k c.blocked_ips ≡ lookup k b.blocked_ips

  note_block-other :
      (entry : Text → BlockedIp) (threat : Option Threat) (b : IpBlocker)
      (answer : World × Option Text)
      → ((id : Text) → is_key_of (entry id).ip k ≡ false)
      → AsBefore b (note_block entry threat b answer).0
  unfolding note_block
  note_block-other entry threat b (w, none) h = refl
  note_block-other entry threat b (w, some id) h =
      ap (lookup k) (blocked_ips-add_record (entry id) threat b)
      ∙ lookup-insert_ne (key_of (entry id).ip (entry id).zone_id) k (entry id) b.blocked_ips
          (key_of_ne (entry id).ip (entry id).zone_id k (h id))

  block_zones-other :
      (now : ℕ) (ip : Text) (zones : List Zone) (reason : Text) (threat : Threat) (b : IpBlocker)
      (w : World)
      → is_key_of ip k ≡ false
      → AsBefore b (block_zones client now ip zones reason threat b w).0
  unfolding block_zones block_ip_on_zone
  block_zones-other now ip [] reason threat b w h = refl
  block_zones-other now ip (zone ∷ zones) reason threat b w h =
      block_zones-other now ip zones reason threat _ _ h
      ∙ note_block-other _ (some threat) b
          (client.create_access_rule zone.id b.config.block_mode ip reason w) (λ id. h)

  block_in-other :
      (now : ℕ) (threat : Threat) (b : IpBlocker) (answer : World × Option (List Zone))
      → is_key_of threat.ip k ≡ false
      → AsBefore b (block_in client now threat b answer).0
  unfolding block_in
  block_in-other now threat b (w, none) h = refl
  block_in-other now threat b (w, some zones) h =
      block_zones-other now threat.ip zones _ threat b w h

  -- Whatever the client answers, a threat changes no record whose key does not begin with its
  -- address and a colon, and none at all if its address is in the whitelist.
  block_threat-other :
      (now : ℕ) (threat : Threat) (b : IpBlocker) (w : World)
      → (is_key_of threat.ip k && not (is_whitelisted threat.ip b)) ≡ false
      → lookup k (block_threat client now threat b w).0.blocked_ips ≡ lookup k b.blocked_ips
  unfolding block_threat
  block_threat-other now threat b w h =
      by_tests (not b.config.auto_block_enabled) (is_whitelisted threat.ip b)
        (is_blocked threat.ip b) refl
    where
      by_tests :
          (d l q : Bool)
          → is_whitelisted threat.ip b ≡ l
          → AsBefore b
              (if◌then◌else◌ {A = IpBlocker × World × Option CallError} d
                (b, w, none)
                (if l
                  then (b, w, none)
                  else if q
                  then (b, w, none)
                  else block_in client now threat b (get_protected_zones client b w))).0
      by_tests true l q e = refl
      by_tests false true q e = refl
      by_tests false false true e = refl
      by_tests false false false e =
          block_in-other now threat b (get_protected_zones client b w) (ground (arith, h, e))
