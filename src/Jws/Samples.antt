-- ===== src/Jws/Samples.antt =====
-- A codec and requests for the tests of the routes: texts stand for their own encoding, and a
-- signature is good if it is the text "good" under the key "K".
use Prim.Native.Char.{code}
use jackdaw.Base.{
  ℕ, String, Bool, false, ◌&&◌, Option, none, some, List, [], ◌∷◌, eqb, if◌then◌else◌, ◌==◌,
}
use jackdaw.Config.{defaults}
use jackdaw.Db.{Db, Account, empty_db}
use jackdaw.Json.{Json, end, field, obj, str}
use jackdaw.Jws.Keys.{Codec, Bytes, Env, Request}

abbrev codes : String → List ℕ
codes String.[] = []
codes (String.◌∷◌ c s) = code c ∷ codes s

-- `loads` knows two texts: the header of the sample request, and a payload.
abbrev sample_loads : Json → Json → Bytes → Option Json
sample_loads header payload [] = none
sample_loads header payload (b ∷ bs) =
    if eqb b b'h' then some header else if eqb b b'p' then some payload else none

abbrev key_is : Json → String → Bool
key_is (str k) s = k == s
key_is _ s = false

abbrev byte_is : List ℕ → ℕ → Bool
byte_is [] n = false
byte_is (b ∷ bs) n = eqb b n

abbrev pub sample_codec : Json → Json → Codec
sample_codec header payload = record {
  urlsafe_b64decode = λ s. some (codes s);
  loads = sample_loads header payload;
  loads_text = λ s. some (str s);
  dumps_sorted = λ j. elim j [ str s ↦ s | _ ↦ "{}" ];
  format = λ j. elim j [ str s ↦ s | _ ↦ "" ];
  repr = λ j. "?";
  jwk_from_json = λ j. some (record { json = j });
  verify = λ alg key input sig. key_is key.json "K" && byte_is sig b'g';
}

-- A header that names the account "a1".
abbrev pub account_header : String → String → Json
account_header url nonce = obj (
    field "alg" (str "ES256") (
      field "url" (str url) (
        field "kid" (str "https://relay.example.com/acme/account/a1")
          (field "nonce" (str nonce) end))))

abbrev pub sample_env : Json → Json → Env
sample_env header payload = record {
  codec = sample_codec header payload;
  settings = defaults;
  now = 1000;
}

abbrev pub sample_request : String → Request
sample_request url = record {
  content_type = "application/jose+json";
  json = some (
      obj (
        field "protected" (str "head")
          (field "payload" (str "pay!") (field "signature" (str "good") end))));
  url = url;
}

abbrev pub alice : Account
alice = record { id = "a1"; public_key = "K"; contact = none; status = "valid"; created_at = 10 }

abbrev pub bob : Account
bob = record { id = "b2"; public_key = "L"; contact = none; status = "valid"; created_at = 20 }

abbrev pub sample_db : Db
sample_db = record empty_db {
  accounts = alice ∷ bob ∷ [];
  nonces = record { value = "n1"; used = false; created_at = 900 } ∷ [];
}
