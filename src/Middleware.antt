-- ===== src/Middleware.antt =====
-- src/jackdaw/main.py: the middleware that every response passes, the loop that prunes the nonces,
-- and the start of the application. src/jackdaw/routes/directory.py and health.py.
pub mod Nonces
mod Tests
use jackdaw.Config.{Settings, relay_base_url}
use jackdaw.Nonce.{generate_nonce, prune_nonces}
use jackdaw.Db.{Db}
use jackdaw.Base.{
  String, Option, ◌<>◌, ℕ, ◌==◌, if◌then◌else◌, Bool, suc, ◌||◌, ◌+◌, none, not, zero,
}
use jackdaw.Result.{Result, expect, ok, ◌>>=◌}
use jackdaw.Startup.{reset_processing_orders}

-- The two headers that the middleware sets.
pub record Headers : Type 0 where
  pub link : String
  pub replay_nonce : Option String

abbrev pub index_link : Settings → String
index_link settings = "<" <> (relay_base_url settings <> "/directory>;rel=\"index\"")

-- `existing` is the `Link` header of the route's response, empty if there is none.
abbrev pub with_link : Settings → String → String
with_link settings existing =
    if existing == "" then index_link settings else existing <> (", " <> index_link settings)

-- `draw` is the random value.
unfoldable pub dispatch : Settings → ℕ → String → String → String → Db → Headers × Db
unfolding generate_nonce relay_base_url
dispatch settings now draw method existing db =
    if method == "HEAD" || method == "POST"
    then (
      record {
        link = with_link settings existing;
        replay_nonce = (generate_nonce settings now draw db).0;
      },
      (generate_nonce settings now draw db).1,
    )
    else (record { link = with_link settings existing; replay_nonce = none }, db)

-- The rounds of `_prune_loop`, each 60 seconds after the one before.
abbrev pub prune_loop : Settings → ℕ → ℕ → Db → Db
prune_loop settings now zero db = db
prune_loop settings now (suc rounds) db =
    prune_loop settings (now + 60) rounds (prune_nonces settings (now + 60) db)

-- The start: the check of the settings, the database, and the interrupted orders.
unfoldable pub lifespan : (le_verify_ssl : Bool) (le_directory : String) → Db → Result Db
unfolding reset_processing_orders
lifespan le_verify_ssl le_directory db =
    expect (le_verify_ssl || not (le_directory == "https://acme-v02.api.letsencrypt.org/directory"))
    >>= λ _. ok (reset_processing_orders db)

pub record Directory : Type 0 where
  pub new_nonce_url : String
  pub new_account_url : String
  pub new_order_url : String
  pub revoke_cert_url : String
  pub key_change_url : String
  pub terms_of_service_url : String

unfoldable pub get_directory : Settings → Directory
unfolding relay_base_url
get_directory settings = record {
  new_nonce_url = relay_base_url settings <> "/acme/new-nonce";
  new_account_url = relay_base_url settings <> "/acme/new-account";
  new_order_url = relay_base_url settings <> "/acme/new-order";
  revoke_cert_url = relay_base_url settings <> "/acme/revoke-cert";
  key_change_url = relay_base_url settings <> "/acme/key-change";
  terms_of_service_url = relay_base_url settings <> "/acme/terms";
}
