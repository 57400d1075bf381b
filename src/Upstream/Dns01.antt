-- ===== src/Upstream/Dns01.antt =====
-- src/jackdaw/services/le_client.py: the DNS-01 challenge of Let's Encrypt, `order_cert`, and the
-- problem documents of a failed issuance.
pub mod Round
use jackdaw.Dns.{DnsProvider}
use jackdaw.Db.{Problem}
use jackdaw.Upstream.{apex_domain}
use jackdaw.Upstream.Finalize.{
  ExceptionClass, Raised, rate_limit, unauthorized, fulfillment_failed, timeout, connect,
  acme_error, unknown, is_acme_error,
}
use jackdaw.Exec.{Exec}
use jackdaw.Base.Text.{strip}
use jackdaw.AcmeErrors.{server_internal}
use jackdaw.Base.{String, List, Option, some, ◌<>◌, Bool, none, if◌then◌else◌, ◌==◌, true, false}
use jackdaw.Result.{Result, ok, raised, uncaught}

abbrev pub challenge_name : String → String
challenge_name domain = "_acme-challenge." <> domain

-- `except Exception`: the result says whether the call returned.
abbrev pub returned : {S : Type 0} → Result (Unit {0}) × S → Bool × S
returned (ok _, st) = (true, st)
returned (raised _, st) = (false, st)
returned (uncaught, st) = (false, st)

-- `value` is `_dns01_txt_value` of the key authorization of the challenge.
unfoldable pub fulfill_dns_01 :
    {S : Type 0} → DnsProvider S → List String → String → String → S → Bool × S
unfolding apex_domain
fulfill_dns_01 dns overrides domain value st =
    returned (dns.set_txt (apex_domain domain overrides) (challenge_name domain) value st)

unfoldable pub clear_dns_01 : {S : Type 0} → DnsProvider S → List String → String → S → S
unfolding apex_domain
clear_dns_01 dns overrides domain st =
    (dns.delete_txt (apex_domain domain overrides) (challenge_name domain) st).1

-- `_ACME_PROBLEMS`
abbrev pub known_problem : ExceptionClass → Option Problem
known_problem rate_limit = some (record {
  type = "urn:ietf:params:acme:error:rateLimited";
  detail = "Let's Encrypt rejected the request due to its rate limits; retry later.";
})
known_problem unauthorized = some (record {
  type = "urn:ietf:params:acme:error:unauthorized";
  detail = "Let's Encrypt refused to authorize issuance for this domain.";
})
known_problem fulfillment_failed = some (record {
  type = "urn:ietf:params:acme:error:dns";
  detail = "The relay could not fulfil the DNS-01 challenge with Let's Encrypt.";
})
known_problem timeout = some (record {
  type = "urn:ietf:params:acme:error:connection";
  detail = "The relay timed out talking to Let's Encrypt.";
})
known_problem connect = some (record {
  type = "urn:ietf:params:acme:error:connection";
  detail = "The relay could not connect to Let's Encrypt.";
})
known_problem acme_error = none
known_problem unknown = none

abbrev pub or_default : String → String → String
or_default text default = if text == "" then default else text

unfoldable pub acme_problem : Raised → Problem
unfolding strip
acme_problem e = elim (known_problem e.class) [
  | some p ↦ p
  | none ↦ record {
    type = "urn:ietf:params:acme:error:serverInternal";
    detail =
        if is_acme_error e.class
        then or_default (strip e.message) "Let's Encrypt rejected the certificate request."
        else "An unexpected error occurred while issuing the certificate.";
  }
]
