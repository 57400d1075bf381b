-- ===== src/Db.antt =====
-- src/jackdaw/db/models.py: the five tables. A column that holds JSON is modelled by the value
-- that the code dumps into it; a time is a number of seconds.
use jackdaw.Base.{ℕ, String, Bool, true, false, Option, List, []}

-- The texts that the `status` columns of orders and authorizations hold.
pub data Status : Type 0 where
  pending ready processing valid invalid : Status

abbrev pub status_text : Status → String
status_text pending = "pending"
status_text ready = "ready"
status_text processing = "processing"
status_text valid = "valid"
status_text invalid = "invalid"

-- `status == "pending"` and its like.
abbrev pub is_pending : Status → Bool
is_pending pending = true
is_pending _ = false

abbrev pub is_ready : Status → Bool
is_ready ready = true
is_ready _ = false

abbrev pub is_processing : Status → Bool
is_processing processing = true
is_processing _ = false

abbrev pub is_valid : Status → Bool
is_valid valid = true
is_valid _ = false

-- An RFC 7807 problem document (the `error` columns), and the `Identifier` schema.
pub record Problem : Type 0 where
  pub type : String
  pub detail : String

pub record Identifier : Type 0 where
  pub type : String
  pub value : String

pub record Account : Type 0 where
  pub id : String
  pub public_key : String
  pub contact : Option (List String)
  pub status : String
  pub created_at : ℕ

pub record Order : Type 0 where
  pub id : String
  pub account_id : String
  pub status : Status
  pub identifiers : List Identifier
  pub cert_id : Option String
  pub expires_at : ℕ
  pub created_at : ℕ
  pub error : Option Problem

pub record Authorization : Type 0 where
  pub id : String
  pub order_id : String
  pub identifier : String
  pub status : Status
  pub challenge_token : Option String
  pub created_at : ℕ
  pub error : Option Problem

pub record Certificate : Type 0 where
  pub id : String
  pub order_id : String
  pub pem_chain : String
  pub issued_at : ℕ
  pub expires_at : ℕ
  pub serial : Option String

pub record Nonce : Type 0 where
  pub value : String
  pub used : Bool
  pub created_at : ℕ

pub record Db : Type 0 where
  pub accounts : List Account
  pub orders : List Order
  pub authorizations : List Authorization
  pub certificates : List Certificate
  pub nonces : List Nonce

abbrev pub empty_db : Db
empty_db = record {
  accounts = [];
  orders = [];
  authorizations = [];
  certificates = [];
  nonces = [];
}
