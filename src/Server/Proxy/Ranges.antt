-- ===== src/Server/Proxy/Ranges.antt =====
-- The blocked addresses of IPv4 as ranges of numbers.
use runixo_agent.Prelude.{ℕ, ◌+◌, ◌*◌, ◌≤◌, ◌<◌, ◌≡◌, ◌↔◌, ◌⊎◌, true, arith}
use runixo_agent.Server.Proxy.{
  v4, is_loopback, is_private, is_link_local_unicast, is_link_local_multicast, is_unspecified,
  is_metadata, is_blocked_ip,
}

-- The number of an address.
abbrev pub number : ℕ → ℕ → ℕ → ℕ → ℕ
number a b c d = ((a * 256 + b) * 256 + c) * 256 + d

-- The address lies in a block of `size` addresses from a first one.
abbrev pub IsIn : ℕ → ℕ → ℕ → Type 0
IsIn n first size = (first ≤ n) × (n < first + size)

abbrev pub IsInside : ℕ → Type 0
IsInside n =
    IsIn n (number 127 0 0 0) 0x1000000
    ⊎ (IsIn n (number 10 0 0 0) 0x1000000
        ⊎ (IsIn n (number 172 16 0 0) 0x100000
            ⊎ (IsIn n (number 192 168 0 0) 0x10000
                ⊎ (IsIn n (number 169 254 0 0) 0x10000
                    ⊎ (IsIn n (number 224 0 0 0) 0x100 ⊎ (n ≡ 0))))))

-- An address of IPv4 is blocked exactly when its number lies in 127.0.0.0/8, 10.0.0.0/8,
-- 172.16.0.0/12, 192.168.0.0/16, 169.254.0.0/16 or 224.0.0.0/24, or is 0.
pub is_blocked_ip_iff :
    (a b c d : ℕ)
    → a < 256
    → b < 256
    → c < 256
    → d < 256
    → (is_blocked_ip (v4 a b c d) ≡ true) ↔ IsInside (number a b c d)
unfolding is_blocked_ip is_loopback is_private is_link_local_unicast is_link_local_multicast
    is_unspecified is_metadata
is_blocked_ip_iff a b c d ha hb hc hd = (ground arith, ground arith)
