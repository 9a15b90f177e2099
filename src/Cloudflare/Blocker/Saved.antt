-- ===== src/Cloudflare/Blocker/Saved.antt =====
-- What every operation of the blocker keeps: the records stand under their keys and are in the
-- file.
use runixo_agent.Prelude.{
  ℕ, ◌≡◌, inl, inr, refl, Bool, true, false, not, Option, none, some, List, [], ◌∷◌, ◌++◌, Text,
  Dict, lookup, insert, delete, IsUnique, insert-IsUnique, delete-IsUnique, Bool-cases, ltb, length,
  text_eq, if◌then◌else◌, arith,
}
use runixo_agent.Prelude.Int.{ℤ}
use runixo_agent.Cloudflare.Threat.{Threat}
use runixo_agent.Cloudflare.Blocker.{
  BlockedIp, IpBlocker, BlockEvent, event_room, Zone, is_blocked, is_whitelisted, Client,
  save_blocked_ips, load_blocked_ips, send_event, new_ip_blocker, add_record, key_of,
}
use runixo_agent.Cloudflare.Blocker.Keys.{IsKeyed}
use runixo_agent.Cloudflare.Blocker.Calls.{
  CallError, note_block, get_protected_zones, block_ip_on_zone, block_zones, block_in, block_threat,
  manual_in, remove_record, unblock,
}
use runixo_agent.Cloudflare.Blocker.Expiry.{
  delete_all, expire_records, check_expirations, is_over, expired_event, pick,
}

-- Every record stands under its key, no key twice, and reading the file gives the records.
pub record IsSound (b : IpBlocker) : Type 0 where
  pub keyed : IsKeyed b.blocked_ips
  pub unique : IsUnique b.blocked_ips
  pub saved : (new_ip_blocker none b.disk).blocked_ips ≡ b.blocked_ips

insert-IsKeyed :
    (r : BlockedIp) (m : Dict BlockedIp) → IsKeyed m → IsKeyed (insert (key_of r.ip r.zone_id) r m)
unfolding insert
insert-IsKeyed r [] k = (refl, tt)
insert-IsKeyed r ((j, s) ∷ m) k =
    by_test (text_eq j (key_of r.ip r.zone_id)) (insert-IsKeyed r m k.1)
  where
    by_test :
        (e : Bool)
        → IsKeyed (insert (key_of r.ip r.zone_id) r m)
        → IsKeyed (
            if e
            then (key_of r.ip r.zone_id, r) ∷ m
            else (j, s) ∷ insert (key_of r.ip r.zone_id) r m)
    by_test true h = (refl, k.1)
    by_test false h = (k.0, h)

delete-IsKeyed : (key : Text) (m : Dict BlockedIp) → IsKeyed m → IsKeyed (delete key m)
unfolding delete
delete-IsKeyed key [] k = k
delete-IsKeyed key ((j, s) ∷ m) k = by_test (text_eq j key) (delete-IsKeyed key m k.1)
  where
    by_test :
        (e : Bool)
        → IsKeyed (delete key m)
        → IsKeyed (if e then delete key m else (j, s) ∷ delete key m)
    by_test true h = h
    by_test false h = (k.0, h)

pub send_event-IsSound :
    (event : BlockEvent) (b : IpBlocker) → IsSound b → IsSound (send_event event b)
unfolding send_event
send_event-IsSound event b s = by_test (ltb (length b.events) event_room)
  where
    by_test : (e : Bool) → IsSound (if e then record b { events = b.events ++ (event ∷ []) } else b)
    by_test true = record { keyed = s.keyed; unique = s.unique; saved = s.saved }
    by_test false = s

add_record-IsSound :
    (r : BlockedIp) (threat : Option Threat) (b : IpBlocker)
    → IsSound b
    → IsSound (add_record r threat b)
unfolding add_record save_blocked_ips new_ip_blocker load_blocked_ips
add_record-IsSound r threat b s = send_event-IsSound _ _ (record {
  keyed = insert-IsKeyed r b.blocked_ips s.keyed;
  unique = insert-IsUnique (key_of r.ip r.zone_id) r b.blocked_ips s.unique;
  saved = refl;
})

save-IsSound :
    (m : Dict BlockedIp) (b : IpBlocker)
    → IsKeyed m
    → IsUnique m
    → IsSound (save_blocked_ips (record b { blocked_ips = m }))
unfolding save_blocked_ips new_ip_blocker load_blocked_ips
save-IsSound m b k u = record { keyed = k; unique = u; saved = refl }

delete_all_sound :
    (keys : List Text) (m : Dict BlockedIp)
    → IsKeyed m
    → IsUnique m
    → IsKeyed (delete_all keys m) × IsUnique (delete_all keys m)
unfolding delete_all
delete_all_sound [] m k u = (k, u)
delete_all_sound (key ∷ keys) m k u =
    delete_all_sound keys (delete key m) (delete-IsKeyed key m k) (delete-IsUnique key m u)

note_block-IsSound :
    {World : Type 0} (entry : Text → BlockedIp) (threat : Option Threat) (b : IpBlocker)
    (answer : World × Option Text)
    → IsSound b
    → IsSound (note_block entry threat b answer).0
unfolding note_block
note_block-IsSound entry threat b (w, none) s = s
note_block-IsSound entry threat b (w, some id) s = add_record-IsSound (entry id) threat b s

module _ {World : Type 0} (client : Client World) where
  block_ip_on_zone-IsSound :
      (now : ℕ) (ip : Text) (zone : Zone) (reason : Text) (threat : Threat) (b : IpBlocker)
      (w : World)
      → IsSound b
      → IsSound (block_ip_on_zone client now ip zone reason threat b w).0
  unfolding block_ip_on_zone
  block_ip_on_zone-IsSound now ip zone reason threat b w s =
      note_block-IsSound _ _ b (client.create_access_rule zone.id b.config.block_mode ip reason w) s

  block_zones-IsSound :
      (now : ℕ) (ip : Text) (zones : List Zone) (reason : Text) (threat : Threat) (b : IpBlocker)
      (w : World)
      → IsSound b
      → IsSound (block_zones client now ip zones reason threat b w).0
  unfolding block_zones
  block_zones-IsSound now ip [] reason threat b w s = s
  block_zones-IsSound now ip (zone ∷ zones) reason threat b w s =
      block_zones-IsSound now ip zones reason threat _ _
        (block_ip_on_zone-IsSound now ip zone reason threat b w s)

  block_in-IsSound :
      (now : ℕ) (threat : Threat) (b : IpBlocker) (answer : World × Option (List Zone))
      → IsSound b
      → IsSound (block_in client now threat b answer).0
  unfolding block_in
  block_in-IsSound now threat b (w, none) s = s
  block_in-IsSound now threat b (w, some zones) s =
      block_zones-IsSound now threat.ip zones _ threat b w s

  pub block_threat-IsSound :
      (now : ℕ) (threat : Threat) (b : IpBlocker) (w : World)
      → IsSound b
      → IsSound (block_threat client now threat b w).0
  unfolding block_threat
  block_threat-IsSound now threat b w s =
      by_tests (not b.config.auto_block_enabled) (is_whitelisted threat.ip b)
        (is_blocked threat.ip b)
    where
      by_tests :
          (d l k : Bool)
          → IsSound
              (if d
                then (b, w, none)
                else if l
                then (b, w, none)
                else if k
                then (b, w, none)
                else block_in client now threat b (get_protected_zones client b w)).0
      by_tests true l k = s
      by_tests false true k = s
      by_tests false false true = s
      by_tests false false false = block_in-IsSound now threat b (get_protected_zones client b w) s

  pub manual_in-IsSound :
      (now : ℕ) (ip reason : Text) (duration : ℤ) (zone_id : Text) (b : IpBlocker)
      (answer : World × Option Zone)
      → IsSound b
      → IsSound (manual_in client now ip reason duration zone_id b answer).0
  unfolding manual_in
  manual_in-IsSound now ip reason duration zone_id b (w, none) s = s
  manual_in-IsSound now ip reason duration zone_id b (w, some zone) s =
      note_block-IsSound _ _ b (client.create_access_rule zone_id b.config.block_mode ip reason w) s

  remove_record-IsSound :
      (now : ℕ) (ip zone_id : Text) (r : BlockedIp) (b : IpBlocker) (answer : World × Bool)
      → IsSound b
      → IsSound (remove_record client now ip zone_id r b answer).0
  unfolding remove_record
  remove_record-IsSound now ip zone_id r b (w, false) s = s
  remove_record-IsSound now ip zone_id r b (w, true) s = send_event-IsSound _ _ (
      save-IsSound (delete (key_of ip zone_id) b.blocked_ips) b
        (delete-IsKeyed (key_of ip zone_id) b.blocked_ips s.keyed)
        (delete-IsUnique (key_of ip zone_id) b.blocked_ips s.unique))

  pub unblock-IsSound :
      (now : ℕ) (ip zone_id : Text) (b : IpBlocker) (w : World)
      → IsSound b
      → IsSound (unblock client now ip zone_id b w).0
  unfolding unblock
  unblock-IsSound now ip zone_id b w s =
      elim (lookup (key_of ip zone_id) b.blocked_ips)
        as (λ found.
          IsSound
            (elim found as (λ x. IpBlocker × World × Option CallError) [
              | none ↦ (b, w, none)
              | some r ↦
                  remove_record client now ip zone_id r b
                    (client.delete_access_rule zone_id r.rule_id w)
            ]).0) [
              | none ↦ s
              | some r ↦
                  remove_record-IsSound now ip zone_id r b
                    (client.delete_access_rule zone_id r.rule_id w) s
            ]

  expire_records-IsSound :
      (now : ℕ) (m : Dict BlockedIp) (b : IpBlocker) (w : World)
      → IsSound b
      → IsSound (expire_records client now m b w).0
  unfolding expire_records
  expire_records-IsSound now [] b w s = s
  expire_records-IsSound now ((key, r) ∷ m) b w s =
      let (w', deleted) = client.delete_access_rule r.zone_id r.rule_id w in
      pick (λ (out : IpBlocker × World × List Text). IsSound out.0) (is_over now r) deleted
        (expire_records-IsSound now m _ w' (send_event-IsSound (expired_event now r) b s))
        (expire_records-IsSound now m b w' s) (expire_records-IsSound now m b w s)

  pub check_expirations-IsSound :
      (now : ℕ) (b : IpBlocker) (w : World)
      → IsSound b
      → IsSound (check_expirations client now b w).0
  unfolding check_expirations delete_all
  check_expirations-IsSound now b w s =
      finish (expire_records client now b.blocked_ips b w).2
        (expire_records client now b.blocked_ips b w).0
        (expire_records-IsSound now b.blocked_ips b w s)
    where
      finish :
          (keys : List Text) (c : IpBlocker)
          → IsSound c
          → IsSound
              (if◌then◌else◌ {A = IpBlocker × World}
                (ltb 0 (length keys))
                (
                  save_blocked_ips (record c { blocked_ips = delete_all keys c.blocked_ips }),
                  (expire_records client now b.blocked_ips b w).1,
                )
                (
                  record c { blocked_ips = delete_all keys c.blocked_ips },
                  (expire_records client now b.blocked_ips b w).1,
                )).0
      finish [] c s = record { keyed = s.keyed; unique = s.unique; saved = s.saved }
      finish (key ∷ keys) c s = elim (Bool-cases (ltb 0 (length (key ∷ keys)))) [
        | inl e ↦ rw e (
            let (k, u) = delete_all_sound (key ∷ keys) c.blocked_ips s.keyed s.unique in
            save-IsSound (delete_all (key ∷ keys) c.blocked_ips) c k u)
        | inr e ↦ absurd (ground arith)
      ]
