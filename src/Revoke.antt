-- ===== src/Revoke.antt =====
-- src/jackdaw/routes/revoke.py and src/jackdaw/routes/cert.py. Let's Encrypt is a parameter: whether
-- the call of `le.revoke_cert` returns.
pub mod Owned
mod Tests
use jackdaw.Exec.{Exec, pure, raise, lift, query, modify, ◌>>=◌, ◌>>◌}
use jackdaw.Result
use jackdaw.Base.{
  ℕ, Option, Bool, String, List, if◌then◌else◌, none, any, is_none, ◌&&◌, some, ◌==◌, false, ◌∷◌,
  eqb, [],
}
use jackdaw.Db.{Db, Problem, Certificate}
use jackdaw.CertStore.{X509, serial_hex}
use jackdaw.Jws.Keys.{Codec, b64url_decode, Env, Request}
use jackdaw.Json.{Json, as_fields, get_field, get_or, null}
use jackdaw.Jws.Verify.{verify_jws}
use jackdaw.Ownership.{require_cert_owner}
use jackdaw.Result.{ok}

pub data RevokeReply : Type 0 where
  revoked : RevokeReply
  problem_reply : (status_code : ℕ) → Problem → RevokeReply

-- The reply, and the call of Let's Encrypt with the certificate and the reason.
pub record Revocation : Type 0 where
  pub reply : RevokeReply
  pub forwarded : Option (Json × Json)

abbrev pub refused : ℕ → String → String → Revocation
refused status_code type detail = record {
  reply = problem_reply status_code (record { type = type; detail = detail });
  forwarded = none;
}

-- The first row that fits.
unfoldable pub first {ℓ} : {R : Type ℓ} → (R → Bool) → List R → Option R
first p [] = none
first p (r ∷ rs) = if p r then some r else first p rs

-- The join of the certificates with the orders of the account.
abbrev pub is_owned : Db → String → Certificate → Bool
is_owned db account_id cert =
    any (λ o. o.id == cert.order_id && o.account_id == account_id) db.orders

abbrev pub has_serial : ℕ → Certificate → Bool
has_serial serial cert = elim cert.serial [ none ↦ false | some s ↦ s == serial_hex serial ]

-- A row without a serial whose PEM has it; a PEM that does not parse is skipped.
abbrev pub has_legacy_serial : X509 → ℕ → Certificate → Bool
has_legacy_serial x serial cert =
    is_none cert.serial
    && (elim (x.pem_serial cert.pem_chain) [ none ↦ false | some n ↦ eqb n serial ])

unfoldable pub find_own_cert : X509 → Db → String → ℕ → Option Certificate
unfolding first
find_own_cert x db account_id serial =
    elim (first (λ cert. is_owned db account_id cert && has_serial serial cert) db.certificates) [
      | some cert ↦ some cert
      | none ↦
          first (λ cert. is_owned db account_id cert && has_legacy_serial x serial cert)
            db.certificates
    ]

-- The serial of the DER certificate in the payload; `none` is an exception.
abbrev pub cert_serial : Codec → X509 → Json → Option ℕ
cert_serial c x cert_b64 = elim (b64url_decode c cert_b64) [
  | none ↦ none
  | some der ↦ x.der_serial der
]

abbrev pub forward : (Json → Json → Bool) → Json → Json → Revocation
forward le_revoke cert_b64 reason = record {
  reply =
      if le_revoke cert_b64 reason
      then revoked
      else problem_reply 500 (record {
        type = "urn:ietf:params:acme:error:serverInternal";
        detail = "Revocation request to Let's Encrypt failed";
      });
  forwarded = some (cert_b64, reason);
}

unfoldable pub revoke_cert_of :
    Codec → X509 → (Json → Json → Bool) → Db → String → Json → Json → Revocation
unfolding find_own_cert
revoke_cert_of c x le_revoke db account_id cert_b64 reason = elim (cert_serial c x cert_b64) [
  | none ↦ refused 400 "urn:ietf:params:acme:error:malformed" "Invalid certificate DER encoding"
  | some serial ↦ elim (find_own_cert x db account_id serial) [
    | none ↦
        refused 403 "urn:ietf:params:acme:error:unauthorized"
          "Certificate not found or not owned by this account"
    | some cert ↦ forward le_revoke cert_b64 reason
  ]
]

abbrev pub no_certificate : Revocation
no_certificate =
    refused 400 "urn:ietf:params:acme:error:malformed" "Payload must contain 'certificate'"

-- `payload["certificate"]` of a dictionary that has it, and `payload.get("reason")`.
unfoldable pub revoke_payload :
    Codec → X509 → (Json → Json → Bool) → Db → String → Json → Revocation
unfolding revoke_cert_of
revoke_payload c x le_revoke db account_id payload = elim (as_fields payload) [
  | none ↦ no_certificate
  | some fields ↦ elim (get_field "certificate" fields) [
    | none ↦ no_certificate
    | some cert_b64 ↦
        revoke_cert_of c x le_revoke db account_id cert_b64 (get_or null "reason" fields)
  ]
]

unfoldable pub revoke_cert : Env → X509 → (Json → Json → Bool) → Request → Exec Db Revocation
unfolding verify_jws revoke_payload
revoke_cert env x le_revoke request = do
  verified ← verify_jws env request
  query (λ db. ok (revoke_payload env.codec x le_revoke db verified.1 verified.0))

-- `download_cert`: the chain.
unfoldable pub download_cert : Env → String → Request → Exec Db String
unfolding verify_jws require_cert_owner
download_cert env cert_id request = do
  verified ← verify_jws env request
  cert ← query (λ db. require_cert_owner db cert_id verified.1)
  pure cert.pem_chain
