-- ===== src/Server/Proxy.antt =====
-- internal/server/grpc.go: the proxy of HTTP requests, and which addresses it refuses.
use runixo_agent.Prelude.{
  ℕ, zero, suc, ◌+◌, ◌*◌, ◌/◌, ◌%◌, Bool, true, false, not, ◌&&◌, ◌||◌, Option, none, some, List,
  [], ◌∷◌, Text, codes, text_eq, take, length, leb, ltb, ◌==◌, all, if◌then◌else◌, Dict,
}
use runixo_agent.Prelude.Int.{ℤ, pos, leb_ℤ}
pub mod Ranges
pub mod Rebinding

-- A `net.IP`: four bytes, or sixteen that are not an address of IPv4.
pub data Ip : Type 0 where
  v4 : ℕ → ℕ → ℕ → ℕ → Ip
  v6 : List ℕ → Ip

abbrev pub byte_at : ℕ → List ℕ → ℕ
byte_at n [] = 0
byte_at zero (b ∷ bs) = b
byte_at (suc n) (b ∷ bs) = byte_at n bs

-- ::1 and ::.
abbrev pub is_v6_one : List ℕ → Bool
is_v6_one bs = all (λ b. b == 0) (take 15 bs) && byte_at 15 bs == 1

abbrev pub is_v6_zero : List ℕ → Bool
is_v6_zero bs = all (λ b. b == 0) bs

unfoldable pub is_loopback : Ip → Bool
is_loopback (v4 a b c d) = a == 127
is_loopback (v6 bs) = is_v6_one bs

-- 10.0.0.0/8, 172.16.0.0/12, 192.168.0.0/16 and fc00::/7.
unfoldable pub is_private : Ip → Bool
is_private (v4 a b c d) = a == 10 || (a == 172 && b / 16 == 1 || a == 192 && b == 168)
is_private (v6 bs) = byte_at 0 bs / 2 == 126

-- 169.254.0.0/16 and fe80::/10.
unfoldable pub is_link_local_unicast : Ip → Bool
is_link_local_unicast (v4 a b c d) = a == 169 && b == 254
is_link_local_unicast (v6 bs) = byte_at 0 bs == 254 && byte_at 1 bs / 64 == 2

-- 224.0.0.0/24 and ff02::/16, with any flags.
unfoldable pub is_link_local_multicast : Ip → Bool
is_link_local_multicast (v4 a b c d) = a == 224 && (b == 0 && c == 0)
is_link_local_multicast (v6 bs) = byte_at 0 bs == 255 && byte_at 1 bs % 16 == 2

unfoldable pub is_unspecified : Ip → Bool
is_unspecified (v4 a b c d) = a == 0 && (b == 0 && (c == 0 && d == 0))
is_unspecified (v6 bs) = is_v6_zero bs

unfoldable pub is_metadata : Ip → Bool
is_metadata (v4 a b c d) = a == 169 && (b == 254 && (c == 169 && d == 254))
is_metadata (v6 bs) = false

unfoldable pub is_blocked_ip : Ip → Bool
is_blocked_ip ip =
    is_loopback ip
    || (is_private ip
        || (is_link_local_unicast ip
            || (is_link_local_multicast ip || (is_unspecified ip || is_metadata ip))))

-- The loop over the addresses of a name.
unfoldable pub any_blocked : List Ip → Bool
any_blocked [] = false
any_blocked (ip ∷ ips) = if is_blocked_ip ip then true else any_blocked ips

pub record Url : Type 0 where
  pub scheme : Text
  pub host : Text

pub data ProxyError : Type 0 where
  no_url bad_url bad_scheme blocked unresolved bad_request not_reached bad_body : ProxyError

pub record Response : Type 0 where
  pub success : Bool
  pub status_code : ℕ
  pub headers : Dict Text
  pub body : Text

pub record Answer : Type 0 where
  pub status_code : ℕ
  pub headers : List (Text × List Text)
  pub body : Text
  pub whole : Bool

-- What is outside: the parsers, the answers of the name server, which may differ from one query to
-- the next, and `reach`, what the dialer does with some addresses: it tries them in an order of its
-- own, and gives the one that it has connected to, with what the server there answers.
pub record Network : Type 0 where
  pub parse_url : Text → Option Url
  pub parse_ip : Text → Option Ip
  pub lookup_ip : ℕ → Text → Option (List Ip)
  pub accepts_request : Text → Text → Bool
  pub reach : List Ip → Option (Ip × Answer)

abbrev pub check_ips : Option (List Ip) → Option ProxyError
check_ips none = some unresolved
check_ips (some ips) = if any_blocked ips then some blocked else none

-- A literal address is checked itself; a name is looked up for the `query`th time, and every
-- address of it is checked.
unfoldable pub check_host : Network → ℕ → Text → Option Ip → Option ProxyError
check_host net query host (some ip) = if is_blocked_ip ip then some blocked else none
check_host net query host none = check_ips (net.lookup_ip query host)

unfoldable pub check_url : Network → Option Url → Option ProxyError
check_url net none = some bad_url
check_url net (some u) =
    if not (text_eq u.scheme (codes "http")) && not (text_eq u.scheme (codes "https"))
    then some bad_scheme
    else check_host net 0 u.host (net.parse_ip u.host)

unfoldable pub is_blocked_url : Network → Text → Option ProxyError
is_blocked_url net raw_url = check_url net (net.parse_url raw_url)

-- The dialer is given the name, and looks it up once more.
abbrev pub candidates : Network → Text → Option Ip → List Ip
candidates net host (some ip) = ip ∷ []
candidates net host none = elim (net.lookup_ip 2 host) [ none ↦ [] | some ips ↦ ips ]

unfoldable pub dial_checked : Network → Text → Option Ip → Option ProxyError → Option (Ip × Answer)
dial_checked net host l (some e) = none
dial_checked net host l none = net.reach (candidates net host l)

-- `DialContext`: the address that is connected to and what its server answers, after a second
-- check.
unfoldable pub dial : Network → Text → Option (Ip × Answer)
dial net host =
    dial_checked net host (net.parse_ip host) (check_host net 1 host (net.parse_ip host))

abbrev pub max_proxy_response_size : ℕ
max_proxy_response_size = 10 * 1024 * 1024

-- The first value of each header that has one.
unfoldable pub first_values : List (Text × List Text) → Dict Text
first_values [] = []
first_values ((k, []) ∷ hs) = first_values hs
first_values ((k, v ∷ vs) ∷ hs) = (k, v) ∷ first_values hs

pub data Result : Type 0 where
  ok : Response → Result
  err : ProxyError → Result

-- A body that breaks off after 10 MB is not noticed.
unfoldable pub read_answer : Option Answer → Result
read_answer none = err not_reached
read_answer (some a) =
    if not a.whole && ltb (length a.body) max_proxy_response_size
    then err bad_body
    else ok (record {
      success = leb 200 a.status_code && ltb a.status_code 300;
      status_code = a.status_code;
      headers = first_values a.headers;
      body = take max_proxy_response_size a.body;
    })

abbrev answer_of : Option (Ip × Answer) → Option Answer
answer_of none = none
answer_of (some (ip, answer)) = some answer

abbrev host_of : Option Url → Text
host_of none = []
host_of (some u) = u.host

-- An empty method is GET.
abbrev pub method_or_get : Text → Text
method_or_get [] = codes "GET"
method_or_get (c ∷ s) = c ∷ s

unfoldable pub send_request : Network → Text → Text → Result
send_request net method url =
    if not (net.accepts_request (method_or_get method) url)
    then err bad_request
    else read_answer (answer_of (dial net (host_of (net.parse_url url))))

unfoldable pub send_checked : Network → Text → Text → Option ProxyError → Result
send_checked net method url (some e) = err e
send_checked net method url none = send_request net method url

unfoldable pub proxy_http_request : Network → Text → Text → Result
proxy_http_request net method [] = err no_url
proxy_http_request net method (c ∷ url) =
    send_checked net method (c ∷ url) (is_blocked_url net (c ∷ url))
