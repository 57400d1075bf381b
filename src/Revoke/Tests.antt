-- ===== src/Revoke/Tests.antt =====
-- The theorem on revocations at a concrete database.
use jackdaw.Db.{Order, Certificate, Db, Status, empty_db}
use jackdaw.CertStore.{X509, serial_hex}
use jackdaw.Jws.Keys.{Codec, b64url_decode}
use jackdaw.Json.{Json, obj, str, field, end, null}
use jackdaw.Revoke.{revoke_payload, problem_reply}
use jackdaw.Revoke.Owned.{Covered, revoke_payload_owned}
use jackdaw.Base.{some, true, [], ◌∷◌, none, ◌≡◌, refl}
use jackdaw.Jws.Samples.{sample_codec}

abbrev order : Order
order = record {
  id = "o1";
  account_id = "a1";
  status = Status.valid;
  identifiers = [];
  cert_id = some "c1";
  expires_at = 900;
  created_at = 100;
  error = none;
}

abbrev cert : Certificate
cert = record {
  id = "c1";
  order_id = "o1";
  pem_chain = "pem";
  issued_at = 200;
  expires_at = 900;
  serial = some "1f";
}

abbrev db : Db
db = record empty_db { orders = order ∷ []; certificates = cert ∷ [] }

abbrev x509 : X509
x509 = record { pem_serial = λ s. some 31; pem_not_after = λ s. none; der_serial = λ d. some 31 }

abbrev codec : Codec
codec = sample_codec (str "") (str "")

abbrev payload : Json
payload = obj (field "certificate" (str "der!") end)

forwarded :
    (revoke_payload codec x509 (λ c r. true) db "a1" payload).forwarded ≡ some (str "der!", null)
unfolding revoke_payload b64url_decode serial_hex
forwarded = refl

-- Another account is refused.
not_bob :
    (revoke_payload codec x509 (λ c r. true) db "b2" payload).reply
    ≡ problem_reply 403 (record {
      type = "urn:ietf:params:acme:error:unauthorized";
      detail = "Certificate not found or not owned by this account";
    })
unfolding revoke_payload b64url_decode serial_hex
not_bob = refl

revoke_payload_owned_example : Covered codec x509 db "a1" (str "der!")
revoke_payload_owned_example =
    revoke_payload_owned codec x509 (λ c r. true) db "a1" payload (str "der!") null forwarded
