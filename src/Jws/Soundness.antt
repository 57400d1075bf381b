-- ===== src/Jws/Soundness.antt =====
-- What an accepted request has shown.
use jackdaw.Base.{
  String, ◌≡◌, ◌⊎◌, inl, inr, some, List, arith, eq_iff, ap, ◌∙◌, Option-cases, Option, any, ◌==◌,
  true, none, subst, refl,
}
use jackdaw.Base.Table.{get}
use jackdaw.Exec
use jackdaw.Config.{Settings}
use jackdaw.Db.{Account, Db}
use jackdaw.Result.{
  Result, ok, raised, uncaught, >>=-eq-ok, or_crash, or_crash-eq-ok, ok-injective, require,
  require-eq-ok,
}
use jackdaw.Json.{Json, Fields, str, get_not_null, get_or, null, bool, num, arr, obj, equals_text}
use jackdaw.Jws.Keys.{
  Codec, Jwk, stored_key, account_key, kid_key, kid_account_id, resolve_key_and_account, Env,
  check_header, verify_jws_signature, Request, Envelope, resolve, Bytes, b64url_decode,
  allowed_algs, signing_input, check_claims, authenticate, is_allowed, open_envelope,
  decode_jws_payload,
}
use jackdaw.Jws.Kids.{Names, kid_account_id-Names}
use jackdaw.Jws.Verify.{consume_json, verify_jws}
use jackdaw.Nonce.{consume_nonce}
use jackdaw.Exec.{lift}

-- The key is the one in the header, for a request that names no account, or the one in the row of
-- the active account whose url is the header's kid.
abbrev pub KeyOf : Codec → Settings → List Account → Fields → Jwk → String → Type 0
KeyOf c settings accounts protected key account_id =
    ((jwk_data : Json) × (get_not_null "jwk" protected ≡ some jwk_data)
      × (c.jwk_from_json jwk_data ≡ some key)
      × (account_id ≡ ""))
    ⊎ ((kid : String) × (get_not_null "kid" protected ≡ some (str kid))
        × Names settings kid account_id
        × (account : Account) × (get (λ a. a.id) account_id accounts ≡ some account)
        × (account.status ≡ "valid")
        × (stored_key c account ≡ some key))

account_key_lem :
    (c : Codec) (accounts : List Account) (account_id : String) (key : Jwk) (id : String)
    → account_key c accounts account_id ≡ ok (key, id)
    → (account : Account) × (get (λ a. a.id) id accounts ≡ some account)
      × (account.status ≡ "valid")
      × (stored_key c account ≡ some key)
unfolding account_key
account_key_lem c accounts account_id key id h =
    elim (Option-cases (get (λ a. a.id) account_id accounts)) [
      | inl missing ↦ absurd (ground arith)
      | inr (account, found) ↦
          (account, ground arith, ground (arith, eq_iff account.status "valid"), ground arith)
    ]

account_key_id :
    (c : Codec) (accounts : List Account) (account_id : String) (key : Jwk) (id : String)
    → account_key c accounts account_id ≡ ok (key, id)
    → account_id ≡ id
unfolding account_key
account_key_id c accounts account_id key id h =
    elim (Option-cases (get (λ a. a.id) account_id accounts)) [
      | inl missing ↦ absurd (ground arith)
      | inr (account, found) ↦ ground arith
    ]

kid_key_lem :
    (c : Codec) (settings : Settings) (accounts : List Account) (kid : Json) (key : Jwk)
    (id : String)
    → kid_key c settings accounts kid ≡ ok (key, id)
    → (name : String) × (kid ≡ str name)
      × Names settings name id
      × (account : Account) × (get (λ a. a.id) id accounts ≡ some account)
      × (account.status ≡ "valid")
      × (stored_key c account ≡ some key)
unfolding kid_key
kid_key_lem c settings accounts (str kid) key id h =
    let (account_id, named, h1) =
      >>=-eq-ok (kid_account_id settings kid) (account_key c accounts) h in
    let same = account_key_id c accounts account_id key id h1 in
    let (account, found, valid, stored) = account_key_lem c accounts account_id key id h1 in
    (
      kid,
      refl,
      subst (Names settings kid) same (kid_account_id-Names settings kid account_id named).1,
      account,
      found,
      valid,
      stored,
    )
kid_key_lem c settings accounts null key id h = absurd (cc)
kid_key_lem c settings accounts (bool b) key id h = absurd (cc)
kid_key_lem c settings accounts (num n) key id h = absurd (cc)
kid_key_lem c settings accounts (arr js) key id h = absurd (cc)
kid_key_lem c settings accounts (obj fs) key id h = absurd (cc)

resolve_key_lem :
    (c : Codec) (settings : Settings) (accounts : List Account) (protected : Fields) (key : Jwk)
    (id : String)
    → resolve_key_and_account c settings accounts protected ≡ ok (key, id)
    → KeyOf c settings accounts protected key id
unfolding resolve_key_and_account
resolve_key_lem c settings accounts protected key id =
    at (get_not_null "jwk" protected) (get_not_null "kid" protected) refl refl
  where
    at :
        (jwk kid : Option Json)
        → get_not_null "jwk" protected ≡ jwk
        → get_not_null "kid" protected ≡ kid
        → resolve c settings accounts jwk kid ≡ ok (key, id)
        → KeyOf c settings accounts protected key id
    at (some jwk_data) (some kid) e k h = absurd (cc)
    at (some jwk_data) none e k h =
        let (key, found, rest) = >>=-eq-ok (or_crash (c.jwk_from_json jwk_data)) _ h in
        inl (jwk_data, e, or_crash-eq-ok _ _ found ∙ ap some (ground arith), ground arith)
    at none (some kid) e k h =
        let (name, is_text, named, account, found, valid, stored) =
          kid_key_lem c settings accounts kid key id h in
        inr (name, k ∙ ap some is_text, named, account, found, valid, stored)
    at none none e k h = absurd (cc)

-- What the relay knows of a request that it accepts for an account.
pub record IsAuthentic (env : Env) (request : Request) (accounts : List Account) (e : Envelope)
    (id : String) : Type 0 where
  pub alg : String
  pub key : Jwk
  pub sig_bytes : Bytes
  pub alg_allowed : any (λ a. alg == a) allowed_algs ≡ true
  pub url_matches : get_or null "url" e.protected ≡ str request.url
  pub key_of : KeyOf env.codec env.settings accounts e.protected key id
  pub signature : b64url_decode env.codec e.signature_b64 ≡ some sig_bytes
  pub signed : env.codec.verify alg key (signing_input env.codec e) sig_bytes ≡ true

pub equals_text-eq : (v : Json) (s : String) → equals_text v s ≡ true → v ≡ str s
equals_text-eq (str t) s h = ap str ((eq_iff t s).0 h)
equals_text-eq null s h = cc
equals_text-eq (bool b) s h = cc
equals_text-eq (num n) s h = cc
equals_text-eq (arr js) s h = cc
equals_text-eq (obj fs) s h = cc

check_claims_lem :
    (c : Codec) (request : Request) (alg url : Json) (name : String)
    → check_claims c request alg url ≡ ok name
    → (any (λ a. name == a) allowed_algs ≡ true) × (url ≡ str request.url)
unfolding check_claims
check_claims_lem c request (str a) url name h =
    let (_, allowed, h1) = >>=-eq-ok (require (is_allowed (str a)) _) _ h in
    let (_, matches, h2) = >>=-eq-ok (require (equals_text url request.url) _) _ h1 in
    (
      subst (λ n. any (λ x. n == x) allowed_algs ≡ true) (ok-injective h2)
          (require-eq-ok (is_allowed (str a)) _ allowed),
      equals_text-eq url request.url (require-eq-ok (equals_text url request.url) _ matches),
    )
check_claims_lem c request null _ name h = absurd (cc)
check_claims_lem c request (bool b) _ name h = absurd (cc)
check_claims_lem c request (num n) _ name h = absurd (cc)
check_claims_lem c request (arr js) _ name h = absurd (cc)
check_claims_lem c request (obj fs) _ name h = absurd (cc)

signature_lem :
    (c : Codec) (e : Envelope) (alg : String) (key : Jwk)
    → verify_jws_signature c e alg key ≡ ok tt
    → (sig_bytes : Bytes) × (b64url_decode c e.signature_b64 ≡ some sig_bytes)
      × (c.verify alg key (signing_input c e) sig_bytes ≡ true)
unfolding verify_jws_signature
signature_lem c e alg key h = elim (Option-cases (b64url_decode c e.signature_b64)) [
  | inl missing ↦ absurd (ground arith)
  | inr (bytes, found) ↦ (bytes, found, ground arith)
]

authenticate_lem :
    (env : Env) (request : Request) (accounts : List Account) (e : Envelope) (id : String)
    → authenticate env.codec env.settings request accounts e ≡ ok id
    → IsAuthentic env request accounts e id
unfolding authenticate check_header
authenticate_lem env request accounts e id h =
    let (alg, claims, h1) = >>=-eq-ok (check_header env.codec request e.protected) _ h in
    let (resolved, found, h2) =
      >>=-eq-ok (resolve_key_and_account env.codec env.settings accounts e.protected) _ h1 in
    let (u, verified, h3) = >>=-eq-ok (verify_jws_signature env.codec e alg resolved.0) _ h2 in
    let (bytes, decoded, signed) = signature_lem env.codec e alg resolved.0 verified in
    let (allowed, url) =
      check_claims_lem env.codec request (get_or (str "") "alg" e.protected)
        (get_or null "url" e.protected) alg claims in
    let same : resolved.1 ≡ id = ok-injective h3 in
    record {
      alg = alg;
      key = resolved.0;
      sig_bytes = bytes;
      alg_allowed = allowed;
      url_matches = url;
      key_of =
          subst (KeyOf env.codec env.settings accounts e.protected resolved.0) same (
            resolve_key_lem env.codec env.settings accounts e.protected resolved.0 resolved.1
              found);
      signature = decoded;
      signed = signed;
    }

-- The nonce of the header is a text that `consume_nonce` accepts.
pub consume_json_lem :
    (env : Env) (v : Json) (db db' : Db) (u : Unit {0})
    → consume_json env v db ≡ (ok u, db')
    → (nonce : String) × (v ≡ str nonce)
      × (consume_nonce env.settings env.now nonce db ≡ (ok tt, db'))
unfolding consume_json
consume_json_lem env (str nonce) db db' u h = (nonce, refl, h)
consume_json_lem env null db db' u h = absurd (cc)
consume_json_lem env (bool b) db db' u h = absurd (cc)
consume_json_lem env (num n) db db' u h = absurd (cc)
consume_json_lem env (arr js) db db' u h = absurd (cc)
consume_json_lem env (obj fs) db db' u h = absurd (cc)

-- A request that `verify_jws` accepts carries an envelope whose signature holds under the key that
-- its header names: the embedded one, with an empty account id, or the stored key of the account in
-- status "valid" whose url at this relay is the header's kid, up to slashes at its end, and whose id is
-- returned. Its algorithm is an allowed one and its url is the request's, its nonce is consumed in the
-- same call, and the payload returned is the one that was signed.
pub verify_jws_sound :
    (env : Env) (request : Request) (db db' : Db) (payload : Json) (id : String)
    → verify_jws env request db ≡ (ok (payload, id), db')
    → (e : Envelope) × (open_envelope env.codec request ≡ ok e)
      × IsAuthentic env request db.accounts e id
      × (decode_jws_payload env.codec e.payload_b64 ≡ ok payload)
      × ((nonce : String) × (get_or (str "") "nonce" e.protected ≡ str nonce)
          × (consume_nonce env.settings env.now nonce db ≡ (ok tt, db')))
unfolding verify_jws
verify_jws_sound env request db db' payload id h =
    let (e, opened, h1) = Exec.continue-eq-ok (open_envelope env.codec request) _ db _ db' h in
    let (account_id, authentic, h2) =
      Exec.continue-eq-ok (authenticate env.codec env.settings request db.accounts e) _ db _ db'
        h1 in
    let (u, s3, consumed, h3) =
      Exec.>>=-eq-ok (consume_json env (get_or (str "") "nonce" e.protected)) _ db _ db' h2 in
    let (p, decoded, h4) =
      Exec.continue-eq-ok (decode_jws_payload env.codec e.payload_b64) _ s3 _ db' h3 in
    let same : account_id ≡ id = ap (λ r. id_of r.0) h4 in
    (
      e,
      opened,
      subst (IsAuthentic env request db.accounts e) same
          (authenticate_lem env request db.accounts e account_id authentic),
      decoded ∙ ap (λ r. payload_of r.0) h4,
      consume_json_lem env _ db db' u (consumed ∙ ap (λ r. (ok u, r.1)) h4),
    )
  where
    id_of : Result (Json × String) → String
    id_of (ok r) = r.1
    id_of (raised _) = id
    id_of uncaught = id

    payload_of : Result (Json × String) → Result Json
    payload_of (ok r) = ok r.0
    payload_of (raised e) = raised e
    payload_of uncaught = uncaught
