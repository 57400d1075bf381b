-- ===== src/Jws/Tests.antt =====
-- The theorems on `verify_jws` at concrete requests.
use jackdaw.Base.{String, ◌≡◌, some, ◌≢◌, ◌⊎◌, refl}
use jackdaw.Jws.Keys.{Env, pad, Envelope, Request, open_envelope, authenticate, decode_jws_payload}
use jackdaw.Jws.Verify.{verify_jws}
use jackdaw.Jws.Samples.{sample_env, account_header, sample_request, sample_db}
use jackdaw.Nonce.{consume_nonce}
use jackdaw.Base.Table.{get, update, count}
use jackdaw.Json.{obj, end, Json, field, str, get_or}
use jackdaw.Base.Text.{remove_prefix}
use jackdaw.Config.{relay_base_url, defaults}
use jackdaw.Jws.Effects.{SameButNonces, verify_jws-SameButNonces, verify_jws_failed}
use jackdaw.Result.{ok}
use jackdaw.Jws.Soundness.{IsAuthentic, verify_jws_sound}

abbrev order_url : String
order_url = "https://relay.example.com/acme/new-order"

abbrev env : Env
env = sample_env (account_header order_url "n1") (obj end)

verify_jws_sample :
    verify_jws env (sample_request order_url) sample_db
    ≡ (ok (obj end, "a1"), (consume_nonce defaults 1000 "n1" sample_db).1)
unfolding verify_jws consume_nonce get update count remove_prefix relay_base_url pad
verify_jws_sample = refl

verify_jws_sound_example :
    (e : Envelope) × (open_envelope env.codec (sample_request order_url) ≡ ok e)
    × IsAuthentic env (sample_request order_url) sample_db.accounts e "a1"
    × (decode_jws_payload env.codec e.payload_b64 ≡ ok (obj end))
    × ((nonce : String) × (get_or (str "") "nonce" e.protected ≡ str nonce)
        × (consume_nonce defaults 1000 nonce sample_db
            ≡ (ok tt, (consume_nonce defaults 1000 "n1" sample_db).1)))
verify_jws_sound_example =
    verify_jws_sound env (sample_request order_url) sample_db
      (consume_nonce defaults 1000 "n1" sample_db).1 (obj end) "a1" verify_jws_sample

-- The signature is bad.
abbrev forged : Request
forged = record (sample_request order_url) {
  json = some (
      obj (
        field "protected" (str "head")
          (field "payload" (str "pay!") (field "signature" (str "evil") end))));
}

forged_refused : (r : Json × String) → (verify_jws env forged sample_db).0 ≢ ok r
unfolding verify_jws get remove_prefix relay_base_url
forged_refused r h = cc

verify_jws_failed_example :
    ((verify_jws env forged sample_db).1 ≡ sample_db)
    ⊎ ((e : Envelope) × (id : String) × (open_envelope env.codec forged ≡ ok e)
        × (authenticate env.codec defaults forged sample_db.accounts e ≡ ok id)
        × ((nonce : String) × (get_or (str "") "nonce" e.protected ≡ str nonce)
            × (consume_nonce defaults 1000 nonce sample_db
                ≡ (ok tt, (verify_jws env forged sample_db).1)))
        × ((p : Json) → decode_jws_payload env.codec e.payload_b64 ≢ ok p))
verify_jws_failed_example = verify_jws_failed env forged sample_db forged_refused

verify_jws-SameButNonces_example : SameButNonces (verify_jws env forged sample_db).1 sample_db
verify_jws-SameButNonces_example = verify_jws-SameButNonces env forged sample_db
