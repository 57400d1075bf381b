-- ===== src/Jws/Keys.antt =====
-- src/jackdaw/services/jws.py: the parts of `verify_jws` that touch no table but the accounts, with
-- `b64url_decode` and `canonical_jwk` of src/jackdaw/_util.py.
use Prim.Native.Char.{code}
use Prim.Native.String.{count}
use jackdaw.Base.{
  ℕ, ◌-◌, ◌%◌, String, ◌<>◌, Bool, true, ◌&&◌, not, Option, none, some, List, [], ◌∷◌, any, eqb,
  ltb, if◌then◌else◌, ◌==◌,
}
use jackdaw.Base.Text.{contains, remove_prefix, rstrip_char}
use jackdaw.Base.Table.{get}
use jackdaw.Config.{Settings, relay_base_url}
use jackdaw.Db.{Account}
use jackdaw.Result.{
  Result, ok, raised, uncaught, require, expect, or_raise, or_crash, http, ◌>>=◌, ◌>>◌,
}
use jackdaw.Json.{
  Json, Fields, end, null, str, obj, get_or, get_not_null, truthy, equals_text, as_fields, as_text,
  is_container,
}

abbrev pub Bytes : Type 0
Bytes = List ℕ

-- A key of josepy.
pub record Jwk : Type 0 where
  pub json : Json

-- What the code calls in base64, json and josepy. `none` stands for an exception; `verify` is
-- false where josepy raises, since the code catches that.
pub record Codec : Type 0 where
  pub urlsafe_b64decode : String → Option Bytes
  pub loads : Bytes → Option Json
  pub loads_text : String → Option Json
  pub dumps_sorted : Json → String
  pub format : Json → String
  pub repr : Json → String
  pub jwk_from_json : Json → Option Jwk
  pub verify : String → Jwk → String → Bytes → Bool

pub record Env : Type 0 where
  pub codec : Codec
  pub settings : Settings
  pub now : ℕ

-- `json` is what `await request.json()` returns, or `none` where it raises.
pub record Request : Type 0 where
  pub content_type : String
  pub json : Option Json
  pub url : String

abbrev pub allowed_algs : List String
allowed_algs = "RS256" ∷ "RS384" ∷ "RS512" ∷ "ES256" ∷ "ES384" ∷ "ES512" ∷ []

equal_signs : ℕ → String
equal_signs n = if eqb n 1 then "=" else if eqb n 2 then "==" else "==="

-- The padding of `b64url_decode`.
unfoldable pub pad : String → String
unfolding equal_signs
pad s = let rem = count s % 4 in if eqb rem 0 then s else s <> equal_signs (4 - rem)

-- The argument may be no text: then an exception follows.
unfoldable pub b64url_decode : Codec → Json → Option Bytes
unfolding pad
b64url_decode c (str s) = c.urlsafe_b64decode (pad s)
b64url_decode c _ = none

-- `json.loads(b64url_decode(v))`
unfoldable pub decode_json : Codec → Json → Option Json
decode_json c v = elim (b64url_decode c v) [ none ↦ none | some bytes ↦ c.loads bytes ]

abbrev pub canonical_jwk : Codec → Json → String
canonical_jwk c jwk_data = c.dumps_sorted jwk_data

abbrev pub account_url_prefix : Settings → String
account_url_prefix settings = relay_base_url settings <> "/acme/account/"

-- `alg_name not in _ALLOWED_ALGS`, which raises a `TypeError` on a list or a dictionary.
abbrev pub is_allowed : Json → Bool
is_allowed alg = any (equals_text alg) allowed_algs

unfoldable pub kid_account_id : Settings → String → Result String
kid_account_id settings kid = do
  rest ←
      or_raise (remove_prefix (account_url_prefix settings) kid)
        (http 400 "JWS kid is not a valid account URL for this server")
  let account_id = rstrip_char b'/' rest
  require (not (account_id == "")) (http 400 "JWS kid is missing the account ID")
  ok account_id

-- The key that the account's row holds.
unfoldable pub stored_key : Codec → Account → Option Jwk
stored_key c account = elim (c.loads_text account.public_key) [
  | none ↦ none
  | some j ↦ c.jwk_from_json j
]

unfoldable pub account_key : Codec → List Account → String → Result (Jwk × String)
unfolding stored_key
account_key c accounts account_id = do
  account ← or_raise (get (λ a. a.id) account_id accounts) (http 401 "Account not found")
  require (account.status == "valid") (http 401 "Account is not active")
  key ← or_crash (stored_key c account)
  ok (key, account_id)

unfoldable pub kid_key : Codec → Settings → List Account → Json → Result (Jwk × String)
unfolding kid_account_id account_key
kid_key c settings accounts (str kid) = do
  account_id ← kid_account_id settings kid
  account_key c accounts account_id
kid_key c settings accounts _ = uncaught

unfoldable pub embedded_key : Codec → Json → Result (Jwk × String)
embedded_key c jwk_data = do key ← or_crash (c.jwk_from_json jwk_data); ok (key, "")

pub resolve : Codec → Settings → List Account → Option Json → Option Json → Result (Jwk × String)
unfolding embedded_key kid_key
resolve c settings accounts (some jwk_data) (some kid) =
    raised (http 400 "JWS protected header must contain 'jwk' or 'kid', not both")
resolve c settings accounts (some jwk_data) none = embedded_key c jwk_data
resolve c settings accounts none (some kid) = kid_key c settings accounts kid
resolve c settings accounts none none =
    raised (http 400 "JWS protected header must contain 'jwk' or 'kid'")

unfoldable pub resolve_key_and_account :
    Codec → Settings → List Account → Fields → Result (Jwk × String)
unfolding resolve
resolve_key_and_account c settings accounts protected =
    resolve c settings accounts (get_not_null "jwk" protected) (get_not_null "kid" protected)

unfoldable pub decode_jws_payload : Codec → Json → Result Json
unfolding decode_json
decode_jws_payload c payload_b64 =
    if truthy payload_b64
    then (elim (decode_json c payload_b64) [
      | none ↦ raised (http 400 "Invalid JWS payload encoding")
      | some payload ↦ ok payload
    ])
    else ok (obj end)

-- `.encode("ascii")`
unfoldable pub is_ascii : String → Bool
is_ascii String.[] = true
is_ascii (String.◌∷◌ c s) = ltb (code c) 128 && is_ascii s

-- The three fields of the envelope, and the decoded protected header.
pub record Envelope : Type 0 where
  pub protected_b64 : Json
  pub payload_b64 : Json
  pub signature_b64 : Json
  pub protected : Fields

unfoldable pub open_envelope : Codec → Request → Result Envelope
unfolding decode_json contains
open_envelope c request = do
  require (contains request.content_type "application/jose+json")
      (http 415 "Content-Type must be application/jose+json")
  json ← or_raise request.json (http 400 "Request body is not valid JSON")
  body ← or_raise (as_fields json) (http 400 "Request body is not valid JSON")
  let protected_b64 = get_or (str "") "protected" body
  let signature_b64 = get_or (str "") "signature" body
  require (truthy protected_b64 && truthy signature_b64) (http 400 "JWS missing required fields")
  header ← or_raise (decode_json c protected_b64) (http 400 "Invalid JWS protected header")
  protected ← or_crash (as_fields header)
  ok (record {
    protected_b64 = protected_b64;
    payload_b64 = get_or (str "") "payload" body;
    signature_b64 = signature_b64;
    protected = protected;
  })

-- The algorithm and the url of the header.
unfoldable pub check_claims : Codec → Request → Json → Json → Result String
check_claims c request alg url = do
  expect (not (is_container alg))
  require (is_allowed alg) (http 400 ("Unsupported JWS algorithm: " <> c.repr alg))
  require (equals_text url request.url) (http 400 "JWS url claim does not match request URL")
  or_crash (as_text alg)

unfoldable pub check_header : Codec → Request → Fields → Result String
unfolding check_claims
check_header c request protected =
    check_claims c request (get_or (str "") "alg" protected) (get_or null "url" protected)

abbrev pub signing_input : Codec → Envelope → String
signing_input c e = c.format e.protected_b64 <> ("." <> c.format e.payload_b64)

-- The signature of an envelope is checked with the key that its header names.
unfoldable pub verify_jws_signature : Codec → Envelope → String → Jwk → Result (Unit {0})
unfolding b64url_decode is_ascii
verify_jws_signature c e alg key = do
  expect (is_ascii (signing_input c e))
  sig_bytes ← or_crash (b64url_decode c e.signature_b64)
  require (c.verify alg key (signing_input c e) sig_bytes)
      (http 400 "JWS signature verification failed")

-- `verify_jws` up to the nonce: the id of the account whose key signed, "" for an embedded key.
unfoldable pub authenticate : Codec → Settings → Request → List Account → Envelope → Result String
unfolding check_header resolve_key_and_account verify_jws_signature
authenticate c settings request accounts e = do
  alg ← check_header c request e.protected
  resolved ← resolve_key_and_account c settings accounts e.protected
  verify_jws_signature c e alg resolved.0
  ok resolved.1
