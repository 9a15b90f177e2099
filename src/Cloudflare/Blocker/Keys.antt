-- ===== src/Cloudflare/Blocker/Keys.antt =====
-- Which addresses count as blocked.
use runixo_agent.Prelude.{
  append_assoc, ◌==◌, not, all, All, ◌≡◌, ◌↔◌, inl, inr, refl, sym, ap, ◌∙◌, Bool, true, false,
  Option, [], ◌∷◌, ◌++◌, Text, Dict, Any, any_iff, take, text_eq, arith, insert, if◌then◌else◌,
}
use runixo_agent.Cloudflare.Threat.{Threat}
use runixo_agent.Cloudflare.Blocker.{
  BlockedIp, IpBlocker, key_of, is_key_of, is_blocked, add_record, save_blocked_ips, send_event,
}

-- The key goes on from the address with a colon.
abbrev pub Continues : Text → Text → Type 0
Continues ip key = (rest : Text) × (key ≡ key_of ip rest)

pub is_key_of_iff : (ip key : Text) → (is_key_of ip key ≡ true) ↔ Continues ip key
unfolding is_key_of text_eq
is_key_of_iff [] [] = (λ h. absurd cc, λ (rest, e). absurd (cc))
is_key_of_iff [] (c ∷ key) = (
  λ h. (key, ap (λ d. d ∷ key) (same_code (ground arith))),
  λ (rest, e). ground (arith, ap (take 1) e),
)
  where
    same_code : (c == b':') ≡ true → c ≡ b':'
    same_code h = ground arith
is_key_of_iff (x ∷ ip) [] = (λ h. absurd (ground arith), λ (rest, e). absurd (cc))
is_key_of_iff (x ∷ ip) (c ∷ key) = step (is_key_of_iff ip key)
  where
    step :
        (is_key_of ip key ≡ true) ↔ Continues ip key
        → (is_key_of (x ∷ ip) (c ∷ key) ≡ true) ↔ Continues (x ∷ ip) (c ∷ key)
    step ih = (
      λ h. let (rest, e) = ih.0 (ground arith) in (rest, ground (arith, e)),
      λ (rest, e). ground (arith, ih.1 (rest, cc)),
    )

-- A key is that of its record.
abbrev pub IsKeyed : Dict BlockedIp → Type 0
IsKeyed = All (λ entry. entry.0 ≡ key_of entry.1.ip entry.1.zone_id)

-- No colon: an address of IPv4.
abbrev pub is_dotted : Text → Bool
is_dotted ip = all (λ c. not (c == b':')) ip

key_of-injective :
    (ip ip' rest rest' : Text)
    → is_dotted ip ≡ true
    → is_dotted ip' ≡ true
    → key_of ip rest ≡ key_of ip' rest'
    → ip ≡ ip'
key_of-injective [] [] rest rest' d d' e = refl
key_of-injective [] (c ∷ ip') rest rest' d d' e = absurd (ground arith)
key_of-injective (c ∷ ip) [] rest rest' d d' e = absurd (ground arith)
key_of-injective (c ∷ ip) (c' ∷ ip') rest rest' d d' e =
    let t : ip ≡ ip' = key_of-injective ip ip' rest rest' (ground arith) (ground arith) cc in cc

is_blocked-Any :
    (ip : Text) (b : IpBlocker)
    → (is_blocked ip b ≡ true) ↔ Any (λ entry. Continues ip entry.0) b.blocked_ips
unfolding is_blocked
is_blocked-Any ip b =
    any_iff (λ entry. is_key_of ip entry.0) (λ entry. is_key_of_iff ip entry.0) b.blocked_ips

pub blocked_ips-add_record :
    (r : BlockedIp) (threat : Option Threat) (b : IpBlocker)
    → (add_record r threat b).blocked_ips ≡ insert (key_of r.ip r.zone_id) r b.blocked_ips
unfolding add_record save_blocked_ips send_event
blocked_ips-add_record r threat b = ground arith

module _ (ip : Text) where
  to_record :
      (m : Dict BlockedIp)
      → is_dotted ip ≡ true
      → IsKeyed m
      → All (λ entry. is_dotted entry.1.ip ≡ true) m
      → Any (λ entry. Continues ip entry.0) m
      → Any (λ entry. entry.1.ip ≡ ip) m
  to_record [] d k a h = absurd h
  to_record ((key, r) ∷ m) d k a (inl (rest, e)) =
      inl (sym (key_of-injective ip r.ip rest r.zone_id d a.0 (sym e ∙ k.0)))
  to_record ((key, r) ∷ m) d k a (inr h) = inr (to_record m d k.1 a.1 h)

  to_key :
      (m : Dict BlockedIp)
      → IsKeyed m
      → Any (λ entry. entry.1.ip ≡ ip) m
      → Any (λ entry. Continues ip entry.0) m
  to_key [] k h = absurd h
  to_key ((key, r) ∷ m) k (inl e) = inl (r.zone_id, k.0 ∙ ap (λ i. key_of i r.zone_id) e)
  to_key ((key, r) ∷ m) k (inr h) = inr (to_key m k.1 h)

  inserted :
      (key : Text) (r : BlockedIp) (m : Dict BlockedIp)
      → Continues ip key
      → Any (λ entry. Continues ip entry.0) (insert key r m)
  unfolding insert
  inserted key r [] c = inl c
  inserted key r ((j, s) ∷ m) c = by_test (text_eq j key) (inserted key r m c)
    where
      by_test :
          (e : Bool)
          → Any (λ entry. Continues ip entry.0) (insert key r m)
          → Any
              (λ entry. Continues ip entry.0)
              (if e then (key, r) ∷ m else (j, s) ∷ insert key r m)
      by_test true rest = inl c
      by_test false rest = inr rest

  -- Where every record stands under its own key and all the addresses are of IPv4, an address
  -- counts as blocked exactly when there is a record of it.
  is_blocked_iff :
      (b : IpBlocker)
      → IsKeyed b.blocked_ips
      → All (λ entry. is_dotted entry.1.ip ≡ true) b.blocked_ips
      → is_dotted ip ≡ true
      → (is_blocked ip b ≡ true) ↔ Any (λ entry. entry.1.ip ≡ ip) b.blocked_ips
  is_blocked_iff b k a d = (
    λ h. to_record b.blocked_ips d k a ((is_blocked-Any ip b).0 h),
    λ h. (is_blocked-Any ip b).1 (to_key b.blocked_ips k h),
  )

  -- An address counts as blocked as soon as a longer one that goes on from it with a colon is,
  -- which two addresses of IPv6 can do.
  is_blocked_longer :
      (more : Text) (r : BlockedIp) (threat : Option Threat) (b : IpBlocker)
      → r.ip ≡ key_of ip more
      → is_blocked ip (add_record r threat b) ≡ true
  unfolding add_record save_blocked_ips send_event
  is_blocked_longer more r threat b e =
      (is_blocked-Any ip (add_record r threat b)).1 (rw (blocked_ips-add_record r threat b) found)
    where
      found : Any (λ entry. Continues ip entry.0) (insert (key_of r.ip r.zone_id) r b.blocked_ips)
      found = inserted (key_of r.ip r.zone_id) r b.blocked_ips (
        more ++ (b':' ∷ r.zone_id),
        ap (λ i. key_of i r.zone_id) e ∙ append_assoc ip (b':' ∷ more) (b':' ∷ r.zone_id),
      )
