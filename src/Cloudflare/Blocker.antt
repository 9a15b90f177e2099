-- ===== src/Cloudflare/Blocker.antt =====
-- The blocker of internal/cloudflare/blocker.go: the addresses that are blocked, the file that
-- keeps them, and the queue of events. The client of Cloudflare is a parameter, whose calls act
-- on a world. Times are nanoseconds, and each operation reads the clock once.
use runixo_agent.Prelude.{
  ℕ, suc, ◌+◌, ◌-◌, ◌*◌, ◌%◌, Bool, true, false, not, ◌&&◌, ◌||◌, Option, none, some, List, [], ◌∷◌,
  ◌++◌, Text, codes, Dict, lookup, insert, delete, values, length, keep, any, take, drop, leb, ltb,
  text_eq, if◌then◌else◌,
}
use Prim.Native.Nat.{◌^◌}
use runixo_agent.Prelude.Int.{ℤ, pos, negsuc}
use runixo_agent.Cloudflare.Threat.{Threat}
pub mod Calls
pub mod Expiry
pub mod Keys
pub mod Saved
pub mod History
pub mod Scope
mod Tests

pub record BlockedIp : Type 0 where
  pub ip : Text
  pub rule_id : Text
  pub zone_id : Text
  pub zone_name : Text
  pub reason : Text
  pub threat_type : Text
  pub score : ℤ
  pub blocked_at : ℕ
  pub expires_at : Option ℕ
  pub auto_blocked : Bool

-- Without the path of the data, which only names the file.
pub record BlockerConfig : Type 0 where
  pub auto_block_enabled : Bool
  pub default_block_duration : ℤ
  pub block_mode : Text
  pub protected_zones : List Text
  pub whitelist_ips : List Text

abbrev pub default_blocker_config : BlockerConfig
default_blocker_config = record {
  auto_block_enabled = true;
  default_block_duration = pos 3600;
  block_mode = codes "block";
  protected_zones = [];
  whitelist_ips = [];
}

pub data EventType : Type 0 where
  blocked unblocked expired : EventType

pub record BlockEvent : Type 0 where
  pub event_type : EventType
  pub ip : Text
  pub zone_id : Text
  pub reason : Text
  pub timestamp : ℕ
  pub threat : Option Threat
  pub blocked_ip : BlockedIp

-- No file that can be read, a file that is no map of records, or the records that it holds.
pub data Disk : Type 0 where
  missing garbage : Disk
  holds : Dict BlockedIp → Disk

pub record IpBlocker : Type 0 where
  pub config : BlockerConfig
  pub blocked_ips : Dict BlockedIp
  pub events : List BlockEvent
  pub disk : Disk

-- What the blocker reads of a zone.
pub record Zone : Type 0 where
  pub id : Text
  pub name : Text

-- What the blocker uses of the client: a rule's id, or `none` for an error; whether a rule was
-- deleted.
pub record Client (World : Type 0) : Type 0 where
  pub create_access_rule : Text → Text → Text → Text → World → World × Option Text
  pub delete_access_rule : Text → Text → World → World × Bool
  pub list_zones : World → World × Option (List Zone)
  pub get_zone : Text → World → World × Option Zone

-- The room of the channel.
abbrev pub event_room : ℕ
event_room = 100

-- An event that finds the channel full is dropped.
unfoldable pub send_event : BlockEvent → IpBlocker → IpBlocker
send_event event b =
    if ltb (length b.events) event_room then record b { events = b.events ++ (event ∷ []) } else b

-- The write to the file is taken to succeed.
unfoldable pub save_blocked_ips : IpBlocker → IpBlocker
save_blocked_ips b = record b { disk = holds b.blocked_ips }

unfoldable pub load_blocked_ips : IpBlocker → IpBlocker
load_blocked_ips b = record b { blocked_ips = loaded b.disk }
  where
    loaded : Disk → Dict BlockedIp
    loaded missing = b.blocked_ips
    loaded garbage = b.blocked_ips
    loaded (holds records) = records

unfoldable pub new_ip_blocker : Option BlockerConfig → Disk → IpBlocker
unfolding load_blocked_ips
new_ip_blocker config disk =
    load_blocked_ips
      (record { config = config_or_default config; blocked_ips = []; events = []; disk = disk })
  where
    config_or_default : Option BlockerConfig → BlockerConfig
    config_or_default none = default_blocker_config
    config_or_default (some c) = c

-- `time.Now().Add(time.Duration(n) * time.Second)`, with the product in 64 bits.
abbrev pub seconds_later : ℕ → ℕ → ℕ
seconds_later now n =
    let d = n * 1_000_000_000 % 2 ^ 64 in if ltb d (2 ^ 63) then now + d else now - (2 ^ 64 - d)

-- No time for a duration of 0 or less.
unfoldable pub expiry : ℕ → ℤ → Option ℕ
expiry now (pos n) = if ltb 0 n then some (seconds_later now n) else none
expiry now (negsuc n) = none

abbrev pub key_of : Text → Text → Text
key_of ip zone_id = ip ++ (b':' ∷ zone_id)

-- The test of `IsBlocked` on a key.
unfoldable pub is_key_of : Text → Text → Bool
is_key_of ip key =
    ltb (length ip) (length key)
    && (text_eq (take (length ip) key) ip && text_eq (take 1 (drop (length ip) key)) (b':' ∷ []))

unfoldable pub is_blocked : Text → IpBlocker → Bool
is_blocked ip b = any (λ entry. is_key_of ip entry.0) b.blocked_ips

unfoldable pub is_whitelisted : Text → IpBlocker → Bool
is_whitelisted ip b = any (text_eq ip) b.config.whitelist_ips

unfoldable pub get_blocked_ips : IpBlocker → List BlockedIp
get_blocked_ips b = values b.blocked_ips

unfoldable pub get_blocked_ips_by_zone : Text → IpBlocker → List BlockedIp
get_blocked_ips_by_zone zone_id b = keep (λ r. text_eq r.zone_id zone_id) (values b.blocked_ips)

unfoldable pub set_config : BlockerConfig → IpBlocker → IpBlocker
set_config config b = record b { config = config }

unfoldable pub add_to_whitelist : Text → IpBlocker → IpBlocker
add_to_whitelist ip b = if any (text_eq ip) b.config.whitelist_ips then b else record b {
  config = record b.config { whitelist_ips = b.config.whitelist_ips ++ (ip ∷ []) };
}

-- The first entry that is the address is taken out.
unfoldable pub remove_first : Text → List Text → List Text
remove_first ip [] = []
remove_first ip (white_ip ∷ rest) =
    if text_eq ip white_ip then rest else white_ip ∷ remove_first ip rest

unfoldable pub remove_from_whitelist : Text → IpBlocker → IpBlocker
remove_from_whitelist ip b = record b {
  config = record b.config { whitelist_ips = remove_first ip b.config.whitelist_ips };
}

-- Note the record under its key, write the file and send the event.
unfoldable pub add_record : BlockedIp → Option Threat → IpBlocker → IpBlocker
unfolding send_event save_blocked_ips
add_record r threat b =
    send_event
      (record {
        event_type = blocked;
        ip = r.ip;
        zone_id = r.zone_id;
        reason = r.reason;
        timestamp = r.blocked_at;
        threat = threat;
        blocked_ip = r;
      })
      (save_blocked_ips (record b { blocked_ips = insert (key_of r.ip r.zone_id) r b.blocked_ips }))

pub record BlockStats : Type 0 where
  pub total_blocked : ℕ
  pub auto_blocked : ℕ
  pub manual_blocked : ℕ
  pub by_threat_type : Dict ℕ
  pub by_zone : Dict ℕ
  pub auto_block_enabled : Bool

-- A map's entry raised by one, from the 0 that Go reads where there is none.
unfoldable pub count_up : Text → Dict ℕ → Dict ℕ
count_up key m = insert key (suc (or_zero (lookup key m))) m
  where
    or_zero : Option ℕ → ℕ
    or_zero none = 0
    or_zero (some n) = n

-- The loop of `GetStats`.
unfoldable pub count_blocks : List BlockedIp → BlockStats → BlockStats
unfolding count_up
count_blocks [] stats = stats
count_blocks (r ∷ rs) stats = count_blocks rs (record stats {
  auto_blocked = if r.auto_blocked then suc stats.auto_blocked else stats.auto_blocked;
  manual_blocked = if r.auto_blocked then stats.manual_blocked else suc stats.manual_blocked;
  by_threat_type = count_up r.threat_type stats.by_threat_type;
  by_zone = count_up r.zone_name stats.by_zone;
})

unfoldable pub get_stats : IpBlocker → BlockStats
unfolding count_blocks
get_stats b = count_blocks (values b.blocked_ips) (record {
  total_blocked = length b.blocked_ips;
  auto_blocked = 0;
  manual_blocked = 0;
  by_threat_type = [];
  by_zone = [];
  auto_block_enabled = b.config.auto_block_enabled;
})
