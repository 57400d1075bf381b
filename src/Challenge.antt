-- ===== src/Challenge.antt =====
-- src/jackdaw/routes/challenge.py and src/jackdaw/routes/authz.py.
pub mod Cases
pub mod Starting
mod Tests
use jackdaw.Exec.{Exec, pure, raise, lift, query, modify, ◌>>=◌, ◌>>◌}
use jackdaw.Base.{String, Option, Bool, if◌then◌else◌, some, List, ◌<>◌, ◌∷◌, none, ◌||◌, [], ◌&&◌}
use jackdaw.Db.{
  Status, Problem, Identifier, Db, Authorization, is_pending, is_processing, processing, pending,
  status_text,
}
use jackdaw.Config.{Settings, relay_base_url}
use jackdaw.Rows.{set_authz_status, has_id, with_status}
use jackdaw.Ownership.{require_authz_owner}
use jackdaw.Jws.Verify.{verify_jws}
use jackdaw.Jws.Keys.{Env, Request}
use jackdaw.Base.Table.{update}
use jackdaw.Tasks.{Task, challenge}
use jackdaw.Result.{require, http}
use jackdaw.Base.Text.{repr}

pub record ChallengeObject : Type 0 where
  pub type : String
  pub url : String
  pub status : Status
  pub token : String
  pub error : Option Problem

pub record AuthzResponse : Type 0 where
  pub status : Status
  pub identifier : Identifier
  pub challenges : List ChallengeObject

abbrev pub token_text : Option String → String
token_text none = ""
token_text (some token) = token

abbrev pub challenge_url : Settings → String → String
challenge_url settings authz_id = relay_base_url settings <> ("/acme/challenge/" <> authz_id)

-- `order.status = "processing"` for a pending order that exists.
abbrev pub start_order : String → Db → Db
start_order order_id db = record db {
  orders =
      update (λ o. has_id order_id o && is_pending o.status) (with_status processing) db.orders;
}

-- A pending authorization starts processing, and its order with it.
unfoldable pub start_challenge : Authorization → Db → Db
unfolding set_authz_status
start_challenge authz db =
    if is_pending authz.status
    then start_order authz.order_id (set_authz_status authz.id processing db)
    else db

abbrev pub is_open : Status → Bool
is_open s = is_pending s || is_processing s

-- `acknowledge_challenge` for a verified request; it starts the task that is returned. Nothing else
-- runs between its look-ups and its commit; a request that is overtaken between the look-ups of the
-- authorization and of its order commits `start_challenge` of the authorization that it loaded, on a
-- database that has changed.
unfoldable pub acknowledge : Settings → String → String → Exec Db (ChallengeObject × Task)
unfolding require_authz_owner start_challenge
acknowledge settings authz_id account_id = do
  authz ← query (λ db. require_authz_owner db authz_id account_id)
  lift (
      require (is_open authz.status)
        (http 400 ("Authorization is already " <> repr (status_text authz.status))))
  modify (start_challenge authz)
  pure (
    record {
      type = "http-01";
      url = challenge_url settings authz_id;
      status = processing;
      token = token_text authz.challenge_token;
      error = none;
    },
    challenge authz_id authz.order_id,
  )

unfoldable pub acknowledge_challenge : Env → String → Request → Exec Db (ChallengeObject × Task)
unfolding verify_jws acknowledge
acknowledge_challenge env authz_id request = do
  verified ← verify_jws env request
  acknowledge env.settings authz_id verified.1

-- "processing" is no legal status of an authorization: it is shown as "pending".
abbrev pub shown_status : Status → Status
shown_status s = if is_processing s then pending else s

abbrev pub authz_response : Settings → Authorization → AuthzResponse
authz_response settings authz = record {
  status = shown_status authz.status;
  identifier = record { type = "dns"; value = authz.identifier };
  challenges =
      record {
        type = "http-01";
        url = challenge_url settings authz.id;
        status = authz.status;
        token = token_text authz.challenge_token;
        error = authz.error;
      }
      ∷ [];
}

unfoldable pub get_authz : Env → String → Request → Exec Db AuthzResponse
unfolding verify_jws require_authz_owner
get_authz env authz_id request = do
  verified ← verify_jws env request
  authz ← query (λ db. require_authz_owner db authz_id verified.1)
  pure (authz_response env.settings authz)
