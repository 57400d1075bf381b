-- ===== src/Accounts/Inner.antt =====
-- What the inner JWS of a key change has shown when `_verify_inner_jws` accepts it.
use jackdaw.Base.{
  String, ◌<>◌, ◌≡◌, some, none, true, any, ◌==◌, arith, eq_iff, Option-cases, inl, inr, ap, ◌∙◌,
  subst, is_none, some-injective, sym, not, ◌&&◌, is_none-eq,
}
use jackdaw.Json.{
  Json, Fields, str, null, get_or, get_not_null, as_fields, truthy, equals_text, as_text, bool, num,
  arr, obj, is_container,
}
use jackdaw.Jws.Keys.{
  Codec, Jwk, Bytes, decode_json, b64url_decode, allowed_algs, canonical_jwk, is_allowed,
}
use jackdaw.Jws.Soundness.{equals_text-eq}
use jackdaw.Accounts.KeyChange.{
  Inner, open_inner, check_inner_alg, inner_key, inner_signature, check_inner_payload,
  verify_inner_jws,
}
use jackdaw.Result.{
  ok, >>=-eq-ok, or_raise-eq-ok, or_crash-eq-ok, ok-injective, require-eq-ok, require, or_raise,
  or_crash, expect, Result, ◌>>=◌, ◌>>◌, http,
}

-- The header has an allowed algorithm, the key-change url and the new key, and no kid. The
-- signature holds under the new key. The payload names the account and its current key.
pub record IsProof (c : Codec) (account_url old_key url : String) (fields : Fields) (key : Json)
    : Type 0 where
  pub header : Json
  pub protected : Fields
  pub header_read : decode_json c (get_or (str "") "protected" fields) ≡ some header
  pub header_fields : as_fields header ≡ some protected
  pub alg : String
  pub alg_named : get_or (str "") "alg" protected ≡ str alg
  pub alg_allowed : any (λ a. alg == a) allowed_algs ≡ true
  pub url_matches : get_or null "url" protected ≡ str url
  pub key_in_header : get_not_null "jwk" protected ≡ some key
  pub no_kid : get_not_null "kid" protected ≡ none
  pub jwk : Jwk
  pub jwk_read : c.jwk_from_json key ≡ some jwk
  pub sig_bytes : Bytes
  pub signature : b64url_decode c (get_or (str "") "signature" fields) ≡ some sig_bytes
  pub signed :
      c.verify alg jwk
        (c.format (get_or (str "") "protected" fields)
          <> ("." <> c.format (get_or (str "") "payload" fields)))
        sig_bytes
      ≡ true
  pub content : Json
  pub payload : Fields
  pub payload_read : decode_json c (get_or (str "") "payload" fields) ≡ some content
  pub payload_fields : as_fields content ≡ some payload
  pub names_account : get_or null "account" payload ≡ str account_url
  pub current : Json
  pub current_named : get_not_null "oldKey" payload ≡ some current
  pub current_matches : c.dumps_sorted current ≡ old_key

inner_signature_lem :
    (c : Codec) (inner : Inner) (key : Json)
    → inner_signature c inner key ≡ true
    → (jwk : Jwk) × (sig_bytes : Bytes) × (alg : String) × (c.jwk_from_json key ≡ some jwk)
      × (b64url_decode c inner.signature_b64 ≡ some sig_bytes)
      × (as_text (get_or (str "") "alg" inner.protected) ≡ some alg)
      × (c.verify alg jwk
            (c.format inner.protected_b64 <> ("." <> c.format inner.payload_b64))
            sig_bytes
          ≡ true)
unfolding inner_signature
inner_signature_lem c inner key h = elim (Option-cases (c.jwk_from_json key)) [
  | inl e ↦ absurd (ground arith)
  | inr (jwk, e) ↦ elim (Option-cases (b64url_decode c inner.signature_b64)) [
    | inl f ↦ absurd (ground arith)
    | inr (sig, f) ↦ elim (Option-cases (as_text (get_or (str "") "alg" inner.protected))) [
      | inl g ↦ absurd (ground arith)
      | inr (alg, g) ↦ (jwk, sig, alg, e, f, g, ground arith)
    ]
  ]
]

as_text-eq : (v : Json) (s : String) → as_text v ≡ some s → v ≡ str s
as_text-eq (str t) s h = ap str (some-injective t s h)
as_text-eq null s h = absurd (cc)
as_text-eq (bool b) s h = absurd (cc)
as_text-eq (num n) s h = absurd (cc)
as_text-eq (arr js) s h = absurd (cc)
as_text-eq (obj fs) s h = absurd (cc)

-- The header's part, with the key that it returns.
inner_key_lem :
    (c : Codec) (url : String) (protected : Fields) (key : Json)
    → inner_key c url protected ≡ ok key
    → (is_allowed (get_or (str "") "alg" protected) ≡ true)
      × (get_or null "url" protected ≡ str url)
      × (get_not_null "jwk" protected ≡ some key)
      × (get_not_null "kid" protected ≡ none)
unfolding inner_key check_inner_alg
inner_key_lem c url protected key h =
    let alg = get_or (str "") "alg" protected in
    let (_, alg_ok, h1) = >>=-eq-ok (check_inner_alg c alg) _ h in
    let (_, hashable, g) = >>=-eq-ok (expect (not (is_container alg))) _ alg_ok in
    let (_, url_ok, h2) =
      >>=-eq-ok (require (equals_text (get_or null "url" protected) url) _) _ h1 in
    let (new_key, found, h3) = >>=-eq-ok (or_raise (get_not_null "jwk" protected) _) _ h2 in
    let (_, without, h4) = >>=-eq-ok (require (is_none (get_not_null "kid" protected)) _) _ h3 in
    (
      require-eq-ok (is_allowed alg) _ g,
      equals_text-eq (get_or null "url" protected) url (require-eq-ok _ _ url_ok),
      or_raise-eq-ok _ _ new_key found ∙ ap some (ok-injective h4),
      is_none-eq _ (require-eq-ok _ _ without),
    )

check_inner_payload_lem :
    (c : Codec) (account_url old_key : String) (payload_b64 : Json)
    → check_inner_payload c account_url old_key payload_b64 ≡ ok tt
    → (content : Json) × (payload : Fields) × (current : Json) × (decode_json c payload_b64
        ≡ some content)
      × (as_fields content ≡ some payload)
      × (get_or null "account" payload ≡ str account_url)
      × (get_not_null "oldKey" payload ≡ some current)
      × (canonical_jwk c current ≡ old_key)
unfolding check_inner_payload
check_inner_payload_lem c account_url old_key payload_b64 h =
    let (content, decoded, h1) = >>=-eq-ok (or_raise (decode_json c payload_b64) _) _ h in
    let (payload, fields, h2) = >>=-eq-ok (or_crash (as_fields content)) _ h1 in
    let (_, named, h3) =
      >>=-eq-ok (require (equals_text (get_or null "account" payload) account_url) _) _ h2 in
    let (current, found, h4) = >>=-eq-ok (or_raise (get_not_null "oldKey" payload) _) _ h3 in
    (
      content,
      payload,
      current,
      or_raise-eq-ok _ _ content decoded,
      or_crash-eq-ok _ payload fields,
      equals_text-eq (get_or null "account" payload) account_url (require-eq-ok _ _ named),
      or_raise-eq-ok _ _ current found,
      (eq_iff (canonical_jwk c current) old_key).0 (require-eq-ok _ _ h4),
    )

abbrev inner_of : Fields → Fields → Inner
inner_of fields protected = record {
  protected_b64 = get_or (str "") "protected" fields;
  payload_b64 = get_or (str "") "payload" fields;
  signature_b64 = get_or (str "") "signature" fields;
  protected = protected;
}

open_inner_lem :
    (c : Codec) (fields : Fields) (inner : Inner)
    → open_inner c fields ≡ ok inner
    → (header : Json) × (protected : Fields) × (decode_json c (get_or (str "") "protected" fields)
        ≡ some header)
      × (as_fields header ≡ some protected)
      × (inner_of fields protected ≡ inner)
unfolding open_inner
open_inner_lem c fields inner h =
    let protected_b64 = get_or (str "") "protected" fields in
    let signature_b64 = get_or (str "") "signature" fields in
    let (_, filled, h1) =
      >>=-eq-ok (require (truthy protected_b64 && truthy signature_b64) _) _ h in
    let (header, decoded, h2) = >>=-eq-ok (or_raise (decode_json c protected_b64) _) _ h1 in
    let (protected, read, h3) = >>=-eq-ok (or_crash (as_fields header)) _ h2 in
    (
      header,
      protected,
      or_raise-eq-ok _ _ header decoded,
      or_crash-eq-ok _ protected read,
      ok-injective h3,
    )

module _ (c : Codec) (account_url old_key url : String) (fields : Fields) (key : Json) where
  checks : Inner → Result Json
  checks inner = inner_key c url inner.protected >>= λ new_jwk_data.
      require (inner_signature c inner new_jwk_data)
        (http 400 "Inner JWS signature verification failed")
      >> (check_inner_payload c account_url old_key inner.payload_b64 >> ok new_jwk_data)

  checks-IsProof :
      (header : Json) (protected : Fields)
      → decode_json c (get_or (str "") "protected" fields) ≡ some header
      → as_fields header ≡ some protected
      → checks (inner_of fields protected) ≡ ok key
      → IsProof c account_url old_key url fields key
  unfolding checks
  checks-IsProof header protected decoded read h =
      let inner = inner_of fields protected in
      let (new_key, in_header, h1) = >>=-eq-ok (inner_key c url protected) _ h in
      let (_, signature, h2) = >>=-eq-ok (require (inner_signature c inner new_key) _) _ h1 in
      let (_, payload_ok, h3) =
        >>=-eq-ok (check_inner_payload c account_url old_key inner.payload_b64) _ h2 in
      let same : new_key ≡ key = ok-injective h3 in
      let (allowed, url_ok, found, no_kid) = inner_key_lem c url protected new_key in_header in
      let (jwk, sig_bytes, alg, jwk_read, decoded_sig, named, signed) =
        inner_signature_lem c inner new_key (require-eq-ok _ _ signature) in
      let (content, payload, current, p1, p2, p3, p4, p5) =
        check_inner_payload_lem c account_url old_key inner.payload_b64 payload_ok in
      let is_alg = as_text-eq (get_or (str "") "alg" protected) alg named in
      record {
        header = header;
        protected = protected;
        header_read = decoded;
        header_fields = read;
        alg = alg;
        alg_named = is_alg;
        alg_allowed = subst (λ v. is_allowed v ≡ true) is_alg allowed;
        url_matches = url_ok;
        key_in_header = found ∙ ap some same;
        no_kid = no_kid;
        jwk = jwk;
        jwk_read = subst (λ k. c.jwk_from_json k ≡ some jwk) same jwk_read;
        sig_bytes = sig_bytes;
        signature = decoded_sig;
        signed = signed;
        content = content;
        payload = payload;
        payload_read = p1;
        payload_fields = p2;
        names_account = p3;
        current = current;
        current_named = p4;
        current_matches = p5;
      }

  pub verify_inner_jws-IsProof :
      verify_inner_jws c account_url old_key url fields ≡ ok key
      → IsProof c account_url old_key url fields key
  unfolding verify_inner_jws checks
  verify_inner_jws-IsProof h =
      let (inner, opened, h1) = >>=-eq-ok (open_inner c fields) _ h in
      let (header, protected, decoded, read, same) = open_inner_lem c fields inner opened in
      checks-IsProof header protected decoded read (subst (λ i. checks i ≡ ok key) (sym same) h1)
