-- ===== src/Cloudflare/Blocker/Expiry.antt =====
-- The check for blocks that have run out, and what it leaves.
use runixo_agent.Prelude.{
  ℕ, ◌≡◌, ◌⊎◌, inl, inr, refl, sym, ap, ◌∙◌, Bool, true, false, ◌&&◌, ◌||◌, Option, none, some,
  List, [], ◌∷◌, Text, codes, Dict, lookup, delete, IsUnique, lookup-delete, any, ltb, text_eq,
  text_eq_iff, length, if◌then◌else◌, arith,
}
use runixo_agent.Cloudflare.Blocker.{
  BlockedIp, expired, BlockEvent, IpBlocker, Client, holds, send_event, save_blocked_ips,
}

-- `ExpiresAt` is set and before now.
abbrev pub is_over : ℕ → BlockedIp → Bool
is_over now r = elim r.expires_at [ none ↦ false | some t ↦ ltb t now ]

abbrev pub expired_event : ℕ → BlockedIp → BlockEvent
expired_event now r = record {
  event_type = expired;
  ip = r.ip;
  zone_id = r.zone_id;
  reason = codes "Block expired";
  timestamp = now;
  threat = none;
  blocked_ip = r;
}

-- `toRemove`, deleted from the map.
unfoldable pub delete_all : List Text → Dict BlockedIp → Dict BlockedIp
delete_all [] m = m
delete_all (key ∷ keys) m = delete_all keys (delete key m)

lookup-delete_all :
    (keys : List Text) (k : Text) (m : Dict BlockedIp)
    → lookup k (delete_all keys m) ≡ (if any (λ j. text_eq j k) keys then none else lookup k m)
unfolding delete_all
lookup-delete_all [] k m = refl
lookup-delete_all (j ∷ keys) k m =
    ground (arith, lookup-delete_all keys k (delete j m), lookup-delete j k m)

-- The record under `k` has run out.
abbrev pub over_at : ℕ → Option BlockedIp → Bool
over_at now none = false
over_at now (some r) = is_over now r

abbrev over_in : ℕ → Text → Dict BlockedIp → Bool
over_in now k m = any (λ entry. text_eq entry.0 k && is_over now entry.1) m

over_in-none :
    (now : ℕ) (k : Text) (m : Dict BlockedIp) → lookup k m ≡ none → over_in now k m ≡ false
unfolding lookup
over_in-none now k [] h = refl
over_in-none now k ((j, r) ∷ m) h = ground (arith, over_in-none now k m)

over_in-lookup :
    (now : ℕ) (k : Text) (m : Dict BlockedIp)
    → IsUnique m
    → over_in now k m ≡ over_at now (lookup k m)
unfolding lookup
over_in-lookup now k [] u = refl
over_in-lookup now k ((j, r) ∷ m) u = by_test (text_eq j k) refl (over_in-lookup now k m u.1)
  where
    by_test :
        (e : Bool)
        → text_eq j k ≡ e
        → over_in now k m ≡ over_at now (lookup k m)
        → ((e && is_over now r) || over_in now k m) ≡ over_at now (if e then some r else lookup k m)
    by_test true f ih =
        or_false (is_over now r) (over_in now k m)
          (over_in-none now k m (ap (λ x. lookup x m) (sym ((text_eq_iff j k).0 f)) ∙ u.0))
      where
        or_false : (x y : Bool) → y ≡ false → (x || y) ≡ x
        or_false true y h = refl
        or_false false y h = h
    by_test false f ih = ih

pub pick :
    {A : Type 0} (P : A → Type 0) (o d : Bool) {x y z : A}
    → P x
    → P y
    → P z
    → P (if o then if d then x else y else z)
pick P true true x y z = x
pick P true false x y z = y
pick P false d x y z = z

module _ {World : Type 0} (client : Client World) where
  -- The loop over the records: the blocker with its events, the world, and `toRemove`.
  unfoldable pub expire_records :
      ℕ → Dict BlockedIp → IpBlocker → World → IpBlocker × World × List Text
  unfolding send_event
  expire_records now [] b w = (b, w, [])
  expire_records now ((key, r) ∷ m) b w =
      let (w', deleted) = client.delete_access_rule r.zone_id r.rule_id w in
      let (b1, w1, keys1) = expire_records now m (send_event (expired_event now r) b) w' in
      let kept = expire_records now m b w in
      let failed = expire_records now m b w' in
      if is_over now r then (if deleted then (b1, w1, key ∷ keys1) else failed) else kept

  unfoldable pub check_expirations : ℕ → IpBlocker → World → IpBlocker × World
  unfolding expire_records delete_all save_blocked_ips
  check_expirations now b w =
      let (b', w', keys) = expire_records now b.blocked_ips b w in
      let removed = record b' { blocked_ips = delete_all keys b'.blocked_ips } in
      if ltb 0 (length keys) then (save_blocked_ips removed, w') else (removed, w')

  -- The loop leaves the records and the file alone.
  abbrev Same : IpBlocker → IpBlocker × World × List Text → Type 0
  Same b out = (out.0.blocked_ips ≡ b.blocked_ips) × (out.0.disk ≡ b.disk)

  send_event-Same :
      (event : BlockEvent) (b : IpBlocker) (out : IpBlocker × World × List Text) (key : Text)
      → Same (send_event event b) out
      → Same b (out.0, out.1, key ∷ out.2)
  unfolding send_event
  send_event-Same event b out key h = (h.0 ∙ ground arith, h.1 ∙ ground arith)

  expire_records-Same :
      (now : ℕ) (m : Dict BlockedIp) (b : IpBlocker) (w : World) → Same b (expire_records now m b w)
  unfolding expire_records
  expire_records-Same now [] b w = (refl, refl)
  expire_records-Same now ((key, r) ∷ m) b w =
      let (w', deleted) = client.delete_access_rule r.zone_id r.rule_id w in
      pick (Same b) (is_over now r) deleted
        (send_event-Same (expired_event now r) b
          (expire_records now m (send_event (expired_event now r) b) w') key
          (expire_records-Same now m (send_event (expired_event now r) b) w'))
        (expire_records-Same now m b w') (expire_records-Same now m b w)

  -- What is to be removed has run out.
  keys-over :
      (now : ℕ) (k : Text) (m : Dict BlockedIp) (b : IpBlocker) (w : World)
      → any (λ j. text_eq j k) (expire_records now m b w).2 ≡ true
      → over_in now k m ≡ true
  unfolding expire_records
  keys-over now k [] b w h = h
  keys-over now k ((key, r) ∷ m) b w h =
      let (w', deleted) = client.delete_access_rule r.zone_id r.rule_id w in
      by_tests (is_over now r) deleted refl
        (expire_records now m (send_event (expired_event now r) b) w') (expire_records now m b w')
        (expire_records now m b w) (keys-over now k m (send_event (expired_event now r) b) w')
        (keys-over now k m b w') (keys-over now k m b w) h
    where
      by_tests :
          (o d : Bool)
          → is_over now r ≡ o
          → (x y z : IpBlocker × World × List Text)
          → (any (λ j. text_eq j k) x.2 ≡ true → over_in now k m ≡ true)
          → (any (λ j. text_eq j k) y.2 ≡ true → over_in now k m ≡ true)
          → (any (λ j. text_eq j k) z.2 ≡ true → over_in now k m ≡ true)
          → any (λ j. text_eq j k) (if o then if d then (x.0, x.1, key ∷ x.2) else y else z).2
            ≡ true
          → ((text_eq key k && is_over now r) || over_in now k m) ≡ true
      by_tests true true f r1 r2 r3 x y z g = ground (arith, f, x, g)
      by_tests true false f r1 r2 r3 x y z g = ground (arith, y g)
      by_tests false d f r1 r2 r3 x y z g = ground (arith, z g)

  blocked_ips-check :
      (now : ℕ) (b : IpBlocker) (w : World)
      → (check_expirations now b w).0.blocked_ips
        ≡ delete_all (expire_records now b.blocked_ips b w).2 b.blocked_ips
  unfolding check_expirations save_blocked_ips
  blocked_ips-check now b w =
      either_way (ltb 0 (length (expire_records now b.blocked_ips b w).2))
      ∙ ap (delete_all (expire_records now b.blocked_ips b w).2)
          (expire_records-Same now b.blocked_ips b w).0
    where
      either_way :
          (e : Bool)
          → let removed : IpBlocker = record (expire_records now b.blocked_ips b w).0 {
            blocked_ips =
                delete_all
                  (expire_records now b.blocked_ips b w).2
                  (expire_records now b.blocked_ips b w).0.blocked_ips;
          } in
            (if◌then◌else◌ {A = IpBlocker × World} e
              (
                record removed { disk = holds removed.blocked_ips },
                (expire_records now b.blocked_ips b w).1,
              )
              (removed, (expire_records now b.blocked_ips b w).1)).0.blocked_ips
            ≡ removed.blocked_ips
      either_way true = refl
      either_way false = refl

  -- What a check leaves under a key is what was there, or nothing where that had run out,
  -- whatever the client answers: no block ends early, and none is changed.
  pub lookup-check_expirations :
      (now : ℕ) (b : IpBlocker) (w : World) (k : Text)
      → IsUnique b.blocked_ips
      → (lookup k (check_expirations now b w).0.blocked_ips ≡ lookup k b.blocked_ips)
        ⊎ ((lookup k (check_expirations now b w).0.blocked_ips ≡ none)
            × (over_at now (lookup k b.blocked_ips) ≡ true))
  unfolding check_expirations save_blocked_ips
  lookup-check_expirations now b w k u = by_test (any (λ j. text_eq j k) keys) refl
    where
      keys : List Text
      keys = (expire_records now b.blocked_ips b w).2

      left :
          lookup k (check_expirations now b w).0.blocked_ips
          ≡ (if any (λ j. text_eq j k) keys then none else lookup k b.blocked_ips)
      left = ap (lookup k) (blocked_ips-check now b w) ∙ lookup-delete_all keys k b.blocked_ips

      by_test :
          (e : Bool)
          → any (λ j. text_eq j k) keys ≡ e
          → (lookup k (check_expirations now b w).0.blocked_ips ≡ lookup k b.blocked_ips)
            ⊎ ((lookup k (check_expirations now b w).0.blocked_ips ≡ none)
                × (over_at now (lookup k b.blocked_ips) ≡ true))
      by_test true e = inr (
        left ∙ ap (λ x. if x then none else lookup k b.blocked_ips) e,
        sym (over_in-lookup now k b.blocked_ips u) ∙ keys-over now k b.blocked_ips b w e,
      )
      by_test false e = inl (left ∙ ap (λ x. if x then none else lookup k b.blocked_ips) e)

  -- Where the client deletes every rule it is asked to, all keys that have run out are removed.
  over-keys :
      ((zone rule : Text) (w : World) → (client.delete_access_rule zone rule w).1 ≡ true)
      → (now : ℕ) (k : Text) (m : Dict BlockedIp) (b : IpBlocker) (w : World)
      → over_in now k m ≡ true
      → any (λ j. text_eq j k) (expire_records now m b w).2 ≡ true
  unfolding expire_records
  over-keys deletes now k [] b w h = h
  over-keys deletes now k ((key, r) ∷ m) b w h =
      let (w', deleted) = client.delete_access_rule r.zone_id r.rule_id w in
      by_tests (is_over now r) deleted refl (deletes r.zone_id r.rule_id w)
        (expire_records now m (send_event (expired_event now r) b) w') (expire_records now m b w')
        (expire_records now m b w)
        (over-keys deletes now k m (send_event (expired_event now r) b) w')
        (over-keys deletes now k m b w) h
    where
      by_tests :
          (o d : Bool)
          → is_over now r ≡ o
          → d ≡ true
          → (x y z : IpBlocker × World × List Text)
          → (over_in now k m ≡ true → any (λ j. text_eq j k) x.2 ≡ true)
          → (over_in now k m ≡ true → any (λ j. text_eq j k) z.2 ≡ true)
          → ((text_eq key k && is_over now r) || over_in now k m) ≡ true
          → any (λ j. text_eq j k) (if o then if d then (x.0, x.1, key ∷ x.2) else y else z).2
            ≡ true
      by_tests true true f t r1 r2 r3 x z g = ground (arith, f, x, g)
      by_tests true false f t r1 r2 r3 x z g = absurd cc
      by_tests false d f t r1 r2 r3 x z g = z (ground (arith, f, g))

  -- If the client deletes every rule that it is asked to, a check leaves a record exactly where
  -- there is one that has not run out, and leaves that as it was.
  check_expirations_complete :
      ((zone rule : Text) (w : World) → (client.delete_access_rule zone rule w).1 ≡ true)
      → (now : ℕ) (b : IpBlocker) (w : World) (k : Text) → IsUnique b.blocked_ips
      → lookup k (check_expirations now b w).0.blocked_ips
        ≡ (if over_at now (lookup k b.blocked_ips) then none else lookup k b.blocked_ips)
  check_expirations_complete deletes now b w k u =
      ap (lookup k) (blocked_ips-check now b w)
      ∙ (lookup-delete_all keys k b.blocked_ips
          ∙ ap (λ x. if x then none else lookup k b.blocked_ips) same_test)
    where
      keys : List Text
      keys = (expire_records now b.blocked_ips b w).2

      same_test : any (λ j. text_eq j k) keys ≡ over_at now (lookup k b.blocked_ips)
      same_test = ground (
        arith,
        over_in-lookup now k b.blocked_ips u,
        over-keys deletes now k b.blocked_ips b w,
        keys-over now k b.blocked_ips b w,
      )
