-- ===== src/Cloudflare/Blocker/History.antt =====
-- What holds of a blocker after any calls, in any order.
use runixo_agent.Prelude.{
  any, text_eq, ℕ, refl, Bool, true, false, Option, List, [], ◌∷◌, ◌++◌, Text, if◌then◌else◌,
}
use runixo_agent.Prelude.Int.{ℤ}
use runixo_agent.Cloudflare.Threat.{Threat}
use runixo_agent.Cloudflare.Blocker.{
  BlockerConfig, IpBlocker, Client, missing, load_blocked_ips, new_ip_blocker, set_config,
  add_to_whitelist, remove_from_whitelist,
}
use runixo_agent.Cloudflare.Blocker.Calls.{block_threat, manual_block, unblock}
use runixo_agent.Cloudflare.Blocker.Expiry.{check_expirations}
use runixo_agent.Cloudflare.Blocker.Saved.{
  IsSound, block_threat-IsSound, manual_in-IsSound, unblock-IsSound, check_expirations-IsSound,
}

pub data Call : Type 0 where
  threat_seen : ℕ → Threat → Call
  manual : ℕ → Text → Text → Text → ℤ → Call
  unblocks : ℕ → Text → Text → Call
  tick : ℕ → Call
  configures : BlockerConfig → Call
  whitelists unwhitelists : Text → Call

module _ {World : Type 0} (client : Client World) where
  unfoldable pub call_step : Call → IpBlocker → World → IpBlocker × World
  call_step (threat_seen now threat) b w =
      let out = block_threat client now threat b w in (out.0, out.1)
  call_step (manual now ip zone_id reason duration) b w =
      let out = manual_block client now ip zone_id reason duration b w in (out.0, out.1)
  call_step (unblocks now ip zone_id) b w =
      let out = unblock client now ip zone_id b w in (out.0, out.1)
  call_step (tick now) b w = check_expirations client now b w
  call_step (configures config) b w = (set_config config b, w)
  call_step (whitelists ip) b w = (add_to_whitelist ip b, w)
  call_step (unwhitelists ip) b w = (remove_from_whitelist ip b, w)

  unfoldable pub after_calls : List Call → IpBlocker → World → IpBlocker × World
  after_calls [] b w = (b, w)
  after_calls (c ∷ cs) b w = let (b', w') = call_step c b w in after_calls cs b' w'

  call_step-IsSound :
      (c : Call) (b : IpBlocker) (w : World) → IsSound b → IsSound (call_step c b w).0
  unfolding call_step manual_block set_config add_to_whitelist remove_from_whitelist
  call_step-IsSound (threat_seen now threat) b w s = block_threat-IsSound client now threat b w s
  call_step-IsSound (manual now ip zone_id reason duration) b w s =
      manual_in-IsSound client now ip reason duration zone_id b (client.get_zone zone_id w) s
  call_step-IsSound (unblocks now ip zone_id) b w s = unblock-IsSound client now ip zone_id b w s
  call_step-IsSound (tick now) b w s = check_expirations-IsSound client now b w s
  call_step-IsSound (configures config) b w s = record {
    keyed = s.keyed;
    unique = s.unique;
    saved = s.saved;
  }
  call_step-IsSound (whitelists ip) b w s = by_test (any (text_eq ip) b.config.whitelist_ips)
    where
      by_test :
          (e : Bool)
          → IsSound (
              if e then b else record b {
                config = record b.config { whitelist_ips = b.config.whitelist_ips ++ (ip ∷ []) };
              })
      by_test true = s
      by_test false = record { keyed = s.keyed; unique = s.unique; saved = s.saved }
  call_step-IsSound (unwhitelists ip) b w s = record {
    keyed = s.keyed;
    unique = s.unique;
    saved = s.saved;
  }

  after_calls-IsSound :
      (cs : List Call) (b : IpBlocker) (w : World) → IsSound b → IsSound (after_calls cs b w).0
  unfolding after_calls
  after_calls-IsSound [] b w s = s
  after_calls-IsSound (c ∷ cs) b w s = after_calls-IsSound cs _ _ (call_step-IsSound c b w s)

  -- Take any calls, at any times and with any answers of the client, to a blocker that starts
  -- without a file. Every record stands under the key of its address and its zone, no key stands
  -- twice, and a blocker that starts from the file has the same records. Every write is taken to
  -- succeed.
  pub history-IsSound :
      (config : Option BlockerConfig) (cs : List Call) (w : World)
      → IsSound (after_calls cs (new_ip_blocker config missing) w).0
  unfolding new_ip_blocker load_blocked_ips
  history-IsSound config cs w =
      after_calls-IsSound cs (new_ip_blocker config missing) w
        (record { keyed = tt; unique = tt; saved = refl })
