-- ===== src/Middleware/Tests.antt =====
-- The middleware at concrete responses.
use jackdaw.Middleware.{dispatch, lifespan, get_directory}
use jackdaw.Middleware.Nonces.{dispatch_nonce_accepted}
use jackdaw.Nonce.{consume_nonce, generate_nonce}
use jackdaw.Nonce.Replay.{run, generate, consume, prune}
use jackdaw.Config.{Settings, defaults, relay_base_url}
use jackdaw.Db.{empty_db}
use jackdaw.Result.{ok, uncaught}
use jackdaw.Base.{◌≡◌, ◌∷◌, false, some, [], refl, arith, eq_iff}

abbrev settings : Settings
settings = record defaults { relay_domain = "relay.example.com" }

given :
    (dispatch settings 1000 "n1" "POST" "</acme/cert/1>;rel=\"alternate\"" empty_db).0.replay_nonce
    ≡ some "n1"
unfolding dispatch generate_nonce relay_base_url
given = refl

second_link :
    (dispatch settings 1000 "n1" "GET" "<a>" empty_db).0.link
    ≡ "<a>, <https://relay.example.com/directory>;rel=\"index\""
unfolding dispatch relay_base_url
second_link = refl

dispatch_nonce_accepted_example :
    (consume_nonce settings 1600 "n1" (
      run settings
        (dispatch settings 1000 "n1" "POST" "</acme/cert/1>;rel=\"alternate\"" empty_db).1
        (generate 1100 "n2" ∷ consume 1200 "n2" ∷ prune 1550 ∷ []))).0
    ≡ ok tt
dispatch_nonce_accepted_example =
    dispatch_nonce_accepted settings 1000 1600 "n1" "POST" "</acme/cert/1>;rel=\"alternate\""
      (generate 1100 "n2" ∷ consume 1200 "n2" ∷ prune 1550 ∷ []) empty_db given
      (tt, ((λ e. ground (arith, eq_iff "n2" "n1")), (omega arith, tt))) (omega arith)

unverified_production :
    lifespan false "https://acme-v02.api.letsencrypt.org/directory" empty_db ≡ uncaught
unfolding lifespan
unverified_production = refl

directory_account :
    (get_directory settings).new_account_url ≡ "https://relay.example.com/acme/new-account"
unfolding get_directory relay_base_url
directory_account = refl
