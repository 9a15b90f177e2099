-- ===== src/Server/Proxy/Rebinding.antt =====
-- Which addresses the proxy connects to.
use runixo_agent.Prelude.{
  ◌≡◌, refl, sym, ap, ◌∙◌, Bool, true, false, Option, none, some, List, [], ◌∷◌, Text, Any, ◌⊎◌,
  inl, inr, if◌then◌else◌,
}
use runixo_agent.Server.Proxy.{
  Ip, Answer, is_blocked_ip, any_blocked, ProxyError, blocked, Network, check_ips, check_host,
  candidates, dial_checked, dial,
}

-- The dialer connects to one of the addresses that it is given.
abbrev pub DialsGiven : Network → Type 0
DialsGiven net =
    (ips : List Ip) (ip : Ip) (answer : Answer)
    → net.reach ips ≡ some (ip, answer)
    → Any (λ i. ip ≡ i) ips

any_blocked-at :
    (ips : List Ip) (ip : Ip)
    → any_blocked ips ≡ false
    → Any (λ i. ip ≡ i) ips
    → is_blocked_ip ip ≡ false
unfolding any_blocked
any_blocked-at [] ip h m = absurd m
any_blocked-at (i ∷ ips) ip h m =
    by_test (is_blocked_ip i) refl h m (λ g n. any_blocked-at ips ip g n)
  where
    by_test :
        (b : Bool)
        → is_blocked_ip i ≡ b
        → (if b then true else any_blocked ips) ≡ false
        → (ip ≡ i) ⊎ Any (λ j. ip ≡ j) ips
        → (any_blocked ips ≡ false → Any (λ j. ip ≡ j) ips → is_blocked_ip ip ≡ false)
        → is_blocked_ip ip ≡ false
    by_test true e g m ih = absurd cc
    by_test false e g (inl same) ih = ap is_blocked_ip same ∙ e
    by_test false e g (inr n) ih = ih g n

-- What the check of a host says of the addresses of the same lookup.
checked_unblocked :
    (net : Network) (host : Text) (l : Option Ip)
    → net.lookup_ip 1 host ≡ net.lookup_ip 2 host
    → check_host net 1 host l ≡ none
    → any_blocked (candidates net host l) ≡ false
unfolding check_host any_blocked
checked_unblocked net host (some i) steady h = by_test (is_blocked_ip i) h
  where
    by_test :
        (b : Bool) → (if b then some blocked else none) ≡ none → (if b then true else false) ≡ false
    by_test true g = absurd cc
    by_test false g = refl
checked_unblocked net host none steady h =
    by_answer (net.lookup_ip 2 host) (ap check_ips (sym steady) ∙ h)
  where
    by_test : (b : Bool) → (if b then some blocked else none) ≡ none → b ≡ false
    by_test true g = absurd cc
    by_test false g = refl

    by_answer :
        (o : Option (List Ip))
        → check_ips o ≡ none
        → any_blocked (elim o [ none ↦ [] | some ips ↦ ips ]) ≡ false
    by_answer none g = absurd cc
    by_answer (some ips) g = by_test (any_blocked ips) g

module _ (net : Network) (host : Text) where
  -- Where the name server gives the dialer the answer that was just checked, the proxy connects to
  -- no blocked address, be the host a name or a literal address, and whichever of the addresses of
  -- a name the dialer takes.
  pub dial-unblocked :
      (ip : Ip) (answer : Answer)
      → DialsGiven net
      → net.lookup_ip 1 host ≡ net.lookup_ip 2 host
      → dial net host ≡ some (ip, answer)
      → is_blocked_ip ip ≡ false
  unfolding dial dial_checked
  dial-unblocked ip answer given steady h =
      by_check (check_host net 1 host (net.parse_ip host)) refl h
    where
      by_check :
          (c : Option ProxyError)
          → check_host net 1 host (net.parse_ip host) ≡ c
          → dial_checked net host (net.parse_ip host) c ≡ some (ip, answer)
          → is_blocked_ip ip ≡ false
      by_check (some e) f g = absurd cc
      by_check none f g =
          any_blocked-at (candidates net host (net.parse_ip host)) ip
            (checked_unblocked net host (net.parse_ip host) steady f)
            (given (candidates net host (net.parse_ip host)) ip answer g)
