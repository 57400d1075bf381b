-- ===== src/Accounts.antt =====
-- src/jackdaw/routes/account.py. The new account id is an argument, and so is the validation of
-- the payload by pydantic; `none` is its exception.
pub mod KeyChange
pub mod Inner
pub mod Keys
pub mod Rollover
pub mod Overlap
pub mod Change
mod Tests
use mathlib.Core.Option
use jackdaw.Exec.{Exec, pure, raise, lift, query, modify, ◌>>=◌, ◌>>◌}
use jackdaw.Result
use jackdaw.Base.{
  Option, ℕ, List, String, Bool, ◌<>◌, some, ◌==◌, none, if◌then◌else◌, ◌++◌, ◌∷◌, [],
}
use jackdaw.Jws.Keys.{decode_json, Env, Codec, Request, canonical_jwk}
use jackdaw.Config.{Settings, relay_base_url}
use jackdaw.Jws.Verify.{verify_jws}
use jackdaw.Db.{Problem, Account, Db}
use jackdaw.Result.{Result, ok, or_crash, uncaught}
use jackdaw.Json.{Json, as_fields, get_field}
use jackdaw.Base.Table.{select}

pub record NewAccountRequest : Type 0 where
  pub contact : Option (List String)
  pub only_return_existing : Bool

-- `AccountResponse`, with the status code and the `Location`.
pub record AccountResponse : Type 0 where
  pub status_code : ℕ
  pub location : String
  pub status : String
  pub contact : Option (List String)
  pub orders : String

-- A reply is an account, or the problem document of an unknown key.
pub data AccountReply : Type 0 where
  account_reply : AccountResponse → AccountReply
  problem_reply : (status_code : ℕ) → Problem → AccountReply

-- `raw_body["protected"]`, decoded, and its `["jwk"]`; `none` is an exception.
unfoldable pub extract_jwk : Codec → Request → Option Json
unfolding decode_json
extract_jwk c request = elim request.json [
  | none ↦ none
  | some body ↦ elim (as_fields body) [
    | none ↦ none
    | some fields ↦ elim (get_field "protected" fields) [
      | none ↦ none
      | some protected_b64 ↦ elim (decode_json c protected_b64) [
        | none ↦ none
        | some header ↦ elim (as_fields header) [
          | none ↦ none
          | some protected ↦ get_field "jwk" protected
        ]
      ]
    ]
  ]
]

-- `scalar_one_or_none`, which raises if there are several rows.
abbrev pub scalar_one_or_none {ℓ} : {R : Type ℓ} → List R → Result (Option R)
scalar_one_or_none [] = ok none
scalar_one_or_none (r ∷ []) = ok (some r)
scalar_one_or_none (r ∷ q ∷ rs) = uncaught

abbrev pub has_key : String → Account → Bool
has_key key a = a.public_key == key

-- `x if x else None`
abbrev pub none_if_empty : Option (List String) → Option (List String)
none_if_empty none = none
none_if_empty (some []) = none
none_if_empty (some (x ∷ xs)) = some (x ∷ xs)

abbrev pub account_url : Settings → String → String
account_url settings id = relay_base_url settings <> ("/acme/account/" <> id)

abbrev pub orders_url : Settings → String → String
orders_url settings id = account_url settings id <> "/orders"

abbrev pub existing_reply : Settings → Account → AccountReply
existing_reply settings a = account_reply (record {
  status_code = 200;
  location = account_url settings a.id;
  status = a.status;
  contact = a.contact;
  orders = orders_url settings a.id;
})

abbrev pub created_account : ℕ → String → String → Option (List String) → Account
created_account now id key contact = record {
  id = id;
  public_key = key;
  contact = none_if_empty contact;
  status = "valid";
  created_at = now;
}

abbrev pub new_reply : Settings → String → Option (List String) → AccountReply
new_reply settings id contact = account_reply (record {
  status_code = 201;
  location = account_url settings id;
  status = "valid";
  contact = contact;
  orders = orders_url settings id;
})

abbrev pub no_account : AccountReply
no_account = problem_reply 400 (record {
  type = "urn:ietf:params:acme:error:accountDoesNotExist";
  detail = "No account found for this key";
})

-- The look-up of `new_account`.
abbrev pub find_by_key : String → Db → Result (Option Account)
find_by_key key db = scalar_one_or_none (select (has_key key) db.accounts)

abbrev pub insert_account : Env → String → NewAccountRequest → String → Db → Db
insert_account env id request key db = record db {
  accounts = db.accounts ++ created_account env.now id key request.contact ∷ [];
}

-- The rest of `new_account`, after the look-up by the key.
unfoldable pub register :
    Env → String → NewAccountRequest → String → Option Account → Exec Db AccountReply
register env id request key (some existing) db = pure (existing_reply env.settings existing) db
register env id request key none db =
    if request.only_return_existing
    then pure no_account db
    else pure (new_reply env.settings id request.contact) (insert_account env id request key db)

-- `new_account` for a verified payload, with the key of the header. Nothing else runs between the
-- look-up and the commit; Overlap has the requests that overtake each other.
unfoldable pub create_account : Env → String → NewAccountRequest → String → Exec Db AccountReply
unfolding register
create_account env id request key = do
  existing ← query (find_by_key key)
  register env id request key existing

unfoldable pub new_account :
    Env → (Json → Option NewAccountRequest) → String → Request → Exec Db AccountReply
unfolding verify_jws extract_jwk create_account
new_account env model_validate id request = do
  verified ← verify_jws env request
  acct_req ← lift (or_crash (model_validate verified.0))
  jwk_data ← lift (or_crash (extract_jwk env.codec request))
  create_account env id acct_req (canonical_jwk env.codec jwk_data)
