-- ===== src/Http01/Tests.antt =====
-- The theorems on HTTP-01 validation at a concrete resolver and a concrete history of attempts.
use jackdaw.Base.{
  List, String, ℕ, Option, if◌then◌else◌, ◌≡◌, false, ◌==◌, ◌*◌, eqb, ◌∷◌, some, ◌^◌, ◌↔◌, refl,
  true, ◌+◌, All, ◌⊎◌, [], none,
}
use jackdaw.Http01.{
  Resolver, resolve_and_check, is_blocked_address, AddrInfo, is_blocked, ipv6, Checked, Ip, passed,
  validation_error, found, ipv4, dotted,
}
use jackdaw.Http01.Attempts.{validate_http01}
use jackdaw.AcmeErrors.{dns, connection}
use jackdaw.Http01.Resolution.{preferred, resolve_and_check_iff}
use jackdaw.Http01.Retries.{Passes, validate_http01_iff}

-- Two names: one with two addresses, and one that points at the loopback address.
abbrev results : List AddrInfo
results =
    record { is_inet = false; host = "fd00::7" } ∷ record { is_inet = true; host = "10.0.0.7" } ∷ []

abbrev parse : String → Option Ip
parse ip =
    if ip == "10.0.0.7"
    then some (ipv4 (dotted 10 0 0 7))
    else (if ip == "fd00::7"
        then some (ipv6 (64768 * 2 ^ 112 + 7))
        else (if ip == "127.0.0.1" then some (ipv4 (dotted 127 0 0 1)) else none))

abbrev resolver : Resolver
resolver = record {
  getaddrinfo = λ host.
      if host == "host.example.com"
      then found results
      else found (record { is_inet = true; host = "127.0.0.1" } ∷ []);
  ip_address = parse;
  repr = λ s. s;
}

resolves : resolve_and_check resolver "host.example.com" ≡ passed "10.0.0.7"
unfolding resolve_and_check is_blocked
resolves = refl

loopback :
    resolve_and_check resolver "localhost"
    ≡ validation_error dns "Domain localhost resolves to blocked address 127.0.0.1"
unfolding resolve_and_check is_blocked
loopback = refl

-- An IPv4-mapped address is in no blocked network, also the one of the loopback address.
mapped_loopback : is_blocked_address (ipv6 (65535 * 2 ^ 32 + dotted 127 0 0 1)) ≡ false
mapped_loopback = refl

resolve_and_check_iff_example :
    (resolve_and_check resolver "host.example.com" ≡ passed "10.0.0.7") ↔ (
      (rs : List AddrInfo) × (found results ≡ found rs)
      × All (λ a. is_blocked resolver a.host ≡ false) rs
      × (preferred rs ≡ some "10.0.0.7"))
resolve_and_check_iff_example = resolve_and_check_iff resolver "host.example.com" refl "10.0.0.7"

-- The third attempt passes.
abbrev attempt : ℕ → Checked (Unit {0})
attempt i = if eqb i 3 then passed tt else validation_error connection "refused"

abbrev retries : ℕ
retries = 3

validate_http01_iff_example :
    (validate_http01 attempt retries ≡ passed tt) ↔ ((retries ≡ 0) ⊎ Passes attempt retries 1)
validate_http01_iff_example = validate_http01_iff attempt retries

third_time : validate_http01 attempt 3 ≡ passed tt
unfolding validate_http01
third_time = refl
