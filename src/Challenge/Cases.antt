-- ===== src/Challenge/Cases.antt =====
-- What acknowledging a challenge does.
use jackdaw.Exec.{◌>>◌, Exec, lift, modify, pure, continue}
use jackdaw.Challenge.{
  acknowledge, ChallengeObject, is_open, start_challenge, challenge_url, token_text,
}
use jackdaw.Config.{Settings}
use jackdaw.Base.{String, ◌≢◌, ◌≡◌, ◌⊎◌, true, none, ◌<>◌, Bool, inr, inl, false, refl}
use jackdaw.Db.{Db, Authorization, processing, status_text}
use jackdaw.Tasks.{Task, challenge}
use jackdaw.Result.{ok, require, http, Result, raised, uncaught}
use jackdaw.Ownership.{require_authz_owner}
use jackdaw.Base.Text.{repr}

-- Either nothing is written and no task starts, or the account's authorization is pending or
-- processing, a pending one starts processing, and a challenge task starts for it and its order.
pub acknowledge_cases :
    (settings : Settings) (authz_id account_id : String) (db : Db)
    → (((r : ChallengeObject × Task) → (acknowledge settings authz_id account_id db).0 ≢ ok r)
        × ((acknowledge settings authz_id account_id db).1 ≡ db))
      ⊎ ((authz : Authorization) × (reply : ChallengeObject) × (reply.status ≡ processing)
          × (require_authz_owner db authz_id account_id ≡ ok authz)
          × (is_open authz.status ≡ true)
          × (acknowledge settings authz_id account_id db
              ≡ (ok (reply, challenge authz_id authz.order_id), start_challenge authz db)))
unfolding acknowledge
acknowledge_cases settings authz_id account_id db =
    at (require_authz_owner db authz_id account_id) refl
  where
    reply : Authorization → ChallengeObject
    reply authz = record {
      type = "http-01";
      url = challenge_url settings authz_id;
      status = processing;
      token = token_text authz.challenge_token;
      error = none;
    }

    rest : Authorization → Exec Db (ChallengeObject × Task)
    rest authz =
        lift (
          require (is_open authz.status)
            (http 400 ("Authorization is already " <> repr (status_text authz.status))))
        >> (modify (start_challenge authz) >> pure (reply authz, challenge authz_id authz.order_id))

    Outcome : Result (ChallengeObject × Task) × Db → Type 0
    Outcome m =
        (((r : ChallengeObject × Task) → m.0 ≢ ok r) × (m.1 ≡ db))
        ⊎ ((authz : Authorization) × (reply : ChallengeObject) × (reply.status ≡ processing)
            × (require_authz_owner db authz_id account_id ≡ ok authz)
            × (is_open authz.status ≡ true)
            × (m ≡ (ok (reply, challenge authz_id authz.order_id), start_challenge authz db)))

    opened :
        (authz : Authorization) (b : Bool)
        → require_authz_owner db authz_id account_id ≡ ok authz
        → is_open authz.status ≡ b
        → Outcome (rest authz db)
    opened authz true e h = inr (authz, reply authz, refl, e, h, rw h)
    opened authz false e h = inl (rw h ((λ r k. cc), refl))

    at :
        (r : Result Authorization)
        → require_authz_owner db authz_id account_id ≡ r
        → Outcome (continue r rest db)
    at (ok authz) e = opened authz (is_open authz.status) e refl
    at (raised x) e = inl ((λ r k. cc), refl)
    at uncaught e = inl ((λ r k. cc), refl)
