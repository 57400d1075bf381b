-- ===== src/Upstream/Account.antt =====
-- src/jackdaw/services/le_client.py: the key of the relay's account at Let's Encrypt, the challenges
-- that the client looks at, and the request of a revocation.
mod Tests
use jackdaw.Json.{Json, obj, field, end, str, num}
use jackdaw.Base.{String, List, Bool, Option, ◌∷◌, ◌≡◌, ℕ, some, none, true, ap, []}

-- A key, as josepy wraps it, and the PEM text that a new one is stored as.
pub record NewKey (Key : Type 0) : Type 0 where
  pub private_key : Key
  pub pem : String

-- The file of the key: its text and whether its mode is 0o600.
pub record KeyFile : Type 0 where
  pub text : String
  pub private_mode : Bool

-- `load` is `load_pem_private_key`, which raises on a text that is no key; `drawn` is the new key.
unfoldable pub load_or_create_account_key :
    {Key : Type 0}
    → (String → Option Key)
    → NewKey Key
    → Option KeyFile
    → Option Key × Option KeyFile
load_or_create_account_key load drawn (some file) = (load file.text, some file)
load_or_create_account_key load drawn none =
    (some drawn.private_key, some (record { text = drawn.pem; private_mode = true }))

-- A restart gets the key that the first start made, whatever it would draw itself.
load_or_create_twice :
    {Key : Type 0} (load : String → Option Key) (drawn again : NewKey Key)
    → load drawn.pem ≡ some drawn.private_key
    → load_or_create_account_key load again (load_or_create_account_key load drawn none).1
      ≡ load_or_create_account_key load drawn none
unfolding load_or_create_account_key
load_or_create_twice load drawn again e =
    ap (λ k. (k, some (record { text = drawn.pem; private_mode = true }))) e

-- A challenge of an authorization, as Let's Encrypt sends it.
pub record ChallengeFields : Type 0 where
  pub type : String
  pub url : String
  pub token : Option String

pub record AcmeChallenge : Type 0 where
  pub type : String
  pub url : String
  pub token : String

-- The challenges with a token, in order.
unfoldable pub get_authorization_status : List ChallengeFields → List AcmeChallenge
get_authorization_status [] = []
get_authorization_status (d ∷ challenges) =
    let rest = get_authorization_status challenges in
    elim d.token [
      | none ↦ rest
      | some token ↦ record { type = d.type; url = d.url; token = token } ∷ rest
    ]

-- The payload that `revoke_cert` posts.
unfoldable pub revocation_payload : String → Option ℕ → Json
revocation_payload cert_b64 none = obj (field "certificate" (str cert_b64) end)
revocation_payload cert_b64 (some reason) =
    obj (field "certificate" (str cert_b64) (field "reason" (num reason) end))
