-- ===== src/Accounts/KeyChange.antt =====
-- src/jackdaw/routes/keychange.py.
use jackdaw.Exec.{Exec, pure, lift, query, modify, ◌>>=◌, ◌>>◌}
use jackdaw.Result
use jackdaw.Json.{
  Json, Fields, get_or, str, truthy, is_container, equals_text, as_fields, null, get_not_null,
  as_text,
}
use jackdaw.Jws.Keys.{
  decode_json, Codec, b64url_decode, Env, is_ascii, Request, is_allowed, canonical_jwk,
}
use jackdaw.Base.{String, Bool, not, ◌<>◌, ◌==◌, ◌&&◌, is_none, none, false, some}
use jackdaw.Config.{Settings}
use jackdaw.Jws.Verify.{verify_jws}
use jackdaw.Result.{Result, expect, or_raise, require, http, or_crash, ok}
use jackdaw.Db.{Account, Db}
use jackdaw.Accounts.{
  scalar_one_or_none, AccountReply, has_key, account_reply, account_url, orders_url,
}
use jackdaw.Base.Table.{select, update}
use jackdaw.Ownership.{find_account}

-- The fields of the inner JWS, with the decoded header.
pub record Inner : Type 0 where
  pub protected_b64 : Json
  pub payload_b64 : Json
  pub signature_b64 : Json
  pub protected : Fields

unfoldable pub open_inner : Codec → Fields → Result Inner
unfolding decode_json
open_inner c inner =
    let protected_b64 = get_or (str "") "protected" inner in
    let payload_b64 = get_or (str "") "payload" inner in
    let signature_b64 = get_or (str "") "signature" inner in
    Result.◌>>◌
      (require (truthy protected_b64 && truthy signature_b64)
        (http 400 "Inner JWS missing required fields"))
      (Result.◌>>=◌
        (or_raise (decode_json c protected_b64) (http 400 "Invalid inner JWS protected header"))
        λ header. Result.◌>>=◌ (or_crash (as_fields header)) λ protected. ok (record {
          protected_b64 = protected_b64;
          payload_b64 = payload_b64;
          signature_b64 = signature_b64;
          protected = protected;
        }))

unfoldable pub check_inner_alg : Codec → Json → Result (Unit {0})
check_inner_alg c alg =
    Result.◌>>◌ (expect (not (is_container alg)))
      (require (is_allowed alg) (http 400 ("Inner JWS unsupported algorithm: " <> c.repr alg)))

-- The header of the inner JWS: the algorithm, the url, and the new key, not a `kid`.
unfoldable pub inner_key : Codec → String → Fields → Result Json
unfolding check_inner_alg
inner_key c key_change_url protected =
    Result.◌>>◌ (check_inner_alg c (get_or (str "") "alg" protected)) (
      Result.◌>>◌
        (require (equals_text (get_or null "url" protected) key_change_url)
          (http 400 "Inner JWS url does not match key-change URL"))
        (Result.◌>>=◌
          (or_raise (get_not_null "jwk" protected)
            (http 400 "Inner JWS protected header must contain 'jwk'"))
          λ new_jwk_data.
            Result.◌>>◌
              (require (is_none (get_not_null "kid" protected))
                (http 400 "Inner JWS must not contain 'kid'"))
              (ok new_jwk_data)))

-- Every exception of the signature check counts as a bad signature.
unfoldable pub inner_signature : Codec → Inner → Json → Bool
unfolding b64url_decode is_ascii
inner_signature c inner new_jwk_data =
    let input = c.format inner.protected_b64 <> ("." <> c.format inner.payload_b64) in
    elim (c.jwk_from_json new_jwk_data) [
      | none ↦ false
      | some key ↦ elim (b64url_decode c inner.signature_b64) [
        | none ↦ false
        | some sig_bytes ↦ elim (as_text (get_or (str "") "alg" inner.protected)) [
          | none ↦ false
          | some alg ↦ is_ascii input && c.verify alg key input sig_bytes
        ]
      ]
    ]

-- The payload of the inner JWS names the account and its current key.
unfoldable pub check_inner_payload : Codec → String → String → Json → Result (Unit {0})
unfolding decode_json
check_inner_payload c expected_account_url old_public_key payload_b64 =
    Result.◌>>=◌ (or_raise (decode_json c payload_b64) (http 400 "Invalid inner JWS payload"))
      λ json. Result.◌>>=◌ (or_crash (as_fields json)) λ payload.
        Result.◌>>◌
          (require (equals_text (get_or null "account" payload) expected_account_url)
            (http 400 "Inner JWS payload 'account' does not match the requesting account"))
          (Result.◌>>=◌
            (or_raise (get_not_null "oldKey" payload)
              (http 400 "Inner JWS payload missing 'oldKey'"))
            λ old_key.
              require (canonical_jwk c old_key == old_public_key)
                (http 400 "Inner JWS payload 'oldKey' does not match the current account key"))

-- The new key.
unfoldable pub verify_inner_jws : Codec → String → String → String → Fields → Result Json
unfolding open_inner inner_key inner_signature check_inner_payload
verify_inner_jws c expected_account_url old_public_key key_change_url fields =
    Result.◌>>=◌ (open_inner c fields) λ inner.
      Result.◌>>=◌ (inner_key c key_change_url inner.protected) λ new_jwk_data.
        Result.◌>>◌
          (require (inner_signature c inner new_jwk_data)
            (http 400 "Inner JWS signature verification failed"))
          (Result.◌>>◌ (check_inner_payload c expected_account_url old_public_key inner.payload_b64)
            (ok new_jwk_data))

-- The accounts of another id with that key.
abbrev pub taken_by : String → String → Account → Bool
taken_by key account_id a = has_key key a && not (a.id == account_id)

abbrev pub set_key : String → Account → Account
set_key key a = record a { public_key = key }

abbrev pub account_has_id : String → Account → Bool
account_has_id id a = a.id == id

-- The look-up of the new key: another account may not have it.
abbrev pub check_key : String → String → Db → Result (Unit {0})
check_key account_id key db =
    Result.◌>>=◌ (scalar_one_or_none (select (taken_by key account_id) db.accounts)) λ existing.
      require (is_none existing) (http 409 "New key is already registered to a different account")

abbrev pub write_key : String → String → Db → Db
write_key account_id key db = record db {
  accounts = update (account_has_id account_id) (set_key key) db.accounts;
}

-- The new key is stored unless another account has it, by a request that no other one overtakes.
unfoldable pub store_key : String → String → Exec Db (Unit {0})
store_key account_id key = do query (check_key account_id key); modify (write_key account_id key)

abbrev pub changed_reply : Settings → Account → AccountReply
changed_reply settings account = account_reply (record {
  status_code = 200;
  location = account_url settings account.id;
  status = account.status;
  contact = account.contact;
  orders = orders_url settings account.id;
})

-- `key_change` for a verified request: the payload of the outer JWS and its account.
unfoldable pub change_key : Env → String → Json → String → Exec Db AccountReply
unfolding verify_inner_jws store_key
change_key env url payload account_id = do
  lift (require (not (account_id == "")) (http 400 "key-change requires 'kid' (not 'jwk')"))
  fields ← lift (or_raise (as_fields payload) (http 400 "key-change payload must be a JSON object"))
  account ← query (λ db. or_raise (find_account db account_id) (http 401 "Account not found"))
  new_jwk_data ← lift (
      verify_inner_jws env.codec (account_url env.settings account_id) account.public_key url
        fields)
  store_key account_id (canonical_jwk env.codec new_jwk_data)
  pure (changed_reply env.settings account)

unfoldable pub key_change : Env → Request → Exec Db AccountReply
unfolding verify_jws change_key
key_change env request = do
  verified ← verify_jws env request
  change_key env request.url verified.0 verified.1
