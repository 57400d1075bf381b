-- ===== src/Http01.antt =====
-- src/jackdaw/services/http01.py. The resolver, the clock and the HTTP client are parameters, and so
-- is the parser of IP addresses of the standard library.
pub mod Resolution
pub mod Attempts
pub mod Retries
mod Tests
use jackdaw.Base.{
  ℕ, Bool, List, String, Option, eqb, ◌-◌, ◌*◌, ◌∷◌, any, some, if◌then◌else◌, none, ◌/◌, false,
  ◌+◌, ◌^◌, [], true, ◌==◌, ◌<>◌,
}
use jackdaw.Db.{Problem}
use jackdaw.AcmeErrors.{dns}

-- An address by its number, of 32 or 128 bits.
pub data Ip : Type 0 where
  ipv4 : (address : ℕ) → Ip
  ipv6 : (address : ℕ) → Ip

pub data Network : Type 0 where
  ipv4_network : (address prefix_len : ℕ) → Network
  ipv6_network : (address prefix_len : ℕ) → Network

-- The leading bits agree.
abbrev same_prefix : ℕ → ℕ → ℕ → Bool
same_prefix host_bits a b = eqb (a / 2 ^ host_bits) (b / 2 ^ host_bits)

-- `addr in net`: an address of the other version is in no network.
abbrev pub in_network : Ip → Network → Bool
in_network (ipv4 a) (ipv4_network n p) = same_prefix (32 - p) a n
in_network (ipv6 a) (ipv6_network n p) = same_prefix (128 - p) a n
in_network (ipv4 a) (ipv6_network n p) = false
in_network (ipv6 a) (ipv4_network n p) = false

-- `a.b.c.d`, and an IPv6 address of which all but the first 16 bits are 0.
abbrev pub dotted : ℕ → ℕ → ℕ → ℕ → ℕ
dotted a b c d = ((a * 256 + b) * 256 + c) * 256 + d

abbrev leading_hextet : ℕ → ℕ
leading_hextet h = h * 2 ^ 112

abbrev pub blocked_networks : List Network
blocked_networks =
    ipv4_network (dotted 127 0 0 0) 8
    ∷ ipv4_network (dotted 169 254 0 0) 16
    ∷ ipv4_network (dotted 0 0 0 0) 8
    ∷ ipv4_network (dotted 224 0 0 0) 4
    ∷ ipv4_network (dotted 240 0 0 0) 4
    ∷ ipv6_network 1 128
    ∷ ipv6_network (leading_hextet 65152) 10
    ∷ ipv6_network (leading_hextet 65280) 8
    ∷ []

abbrev pub is_blocked_address : Ip → Bool
is_blocked_address addr = any (in_network addr) blocked_networks

-- What a step comes to: a value, an `Http01ValidationError` with its type and detail, or another
-- exception with its text.
pub data Checked {ℓ} (A : Type ℓ) : Type ℓ where
  passed : A → Checked A
  rejected : Problem → Checked A
  crashed : (text : String) → Checked A

-- The family is AF_INET or not, and `str(sockaddr[0])`.
pub record AddrInfo : Type 0 where
  pub is_inet : Bool
  pub host : String

-- `socket.getaddrinfo`: an OSError, or a list.
pub data Lookup : Type 0 where
  os_error : (text : String) → Lookup
  found : List AddrInfo → Lookup

pub record Resolver : Type 0 where
  pub getaddrinfo : String → Lookup
  pub ip_address : String → Option Ip
  pub repr : String → String

abbrev pub validation_error : {A : Type 0} → String → String → Checked A
validation_error acme_type detail = rejected (record { type = acme_type; detail = detail })

unfoldable pub is_blocked : Resolver → String → Bool
is_blocked r ip = elim (r.ip_address ip) [ none ↦ true | some addr ↦ is_blocked_address addr ]

-- `chosen_ipv4 or chosen_any`, and the assertion.
abbrev pub chosen : Option String → Option String → Checked String
chosen none none = crashed ""
chosen none (some ip) = passed ip
chosen (some ip4) none = if ip4 == "" then crashed "" else passed ip4
chosen (some ip4) (some ip) = if ip4 == "" then passed ip else passed ip4

-- `if v is None: v = ip`
abbrev pub keep_first : Option String → String → Option String
keep_first none ip = some ip
keep_first (some v) ip = some v

abbrev pub keep_ipv4 : Option String → AddrInfo → Option String
keep_ipv4 v a = if a.is_inet then keep_first v a.host else v

unfoldable pub check_all :
    Resolver → String → Option String → Option String → List AddrInfo → Checked String
check_all r hostname chosen_ipv4 chosen_any [] = chosen chosen_ipv4 chosen_any
check_all r hostname chosen_ipv4 chosen_any (a ∷ rest) =
    let result =
      check_all r hostname (keep_ipv4 chosen_ipv4 a) (keep_first chosen_any a.host) rest in
    if is_blocked r a.host
    then validation_error dns
        ("Domain " <> (r.repr hostname <> (" resolves to blocked address " <> r.repr a.host)))
    else result

check_results : Resolver → String → List AddrInfo → Checked String
unfolding check_all
check_results r hostname [] = validation_error dns ("No DNS records found for " <> r.repr hostname)
check_results r hostname (a ∷ rest) = check_all r hostname none none (a ∷ rest)

unfoldable pub resolve_and_check : Resolver → String → Checked String
unfolding check_results
resolve_and_check r hostname = elim (r.getaddrinfo hostname) [
  | os_error text ↦
      validation_error dns ("DNS resolution failed for " <> (r.repr hostname <> (": " <> text)))
  | found results ↦ check_results r hostname results
]
