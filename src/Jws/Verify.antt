-- ===== src/Jws/Verify.antt =====
-- `verify_jws` of src/jackdaw/services/jws.py.
use jackdaw.Base.{String}
use jackdaw.Db.{Db}
use jackdaw.Exec.{Exec, pure, raise, lift, query, ◌>>=◌, ◌>>◌}
use jackdaw.Result.{uncaught, http}
use jackdaw.Json.{Json, null, bool, num, str, arr, obj, get_or}
use jackdaw.Nonce.{consume_nonce}
use jackdaw.Jws.Keys.{Env, Request, open_envelope, authenticate, decode_jws_payload, Envelope}

-- `await consume_nonce(protected.get("nonce", ""), db)`. No row has a value that is not a text, and
-- the database driver raises at a list or a dictionary.
unfoldable pub consume_json : Env → Json → Exec Db (Unit {0})
unfolding consume_nonce
consume_json env (str value) = consume_nonce env.settings env.now value
consume_json env (arr js) = lift uncaught
consume_json env (obj fs) = lift uncaught
consume_json env null = raise (http 400 "Invalid, already-used, or expired nonce")
consume_json env (bool b) = raise (http 400 "Invalid, already-used, or expired nonce")
consume_json env (num n) = raise (http 400 "Invalid, already-used, or expired nonce")

-- The end of `verify_jws`: the nonce is consumed only after the signature was verified.
unfoldable pub accept : Env → Envelope → String → Exec Db (Json × String)
unfolding consume_json decode_jws_payload
accept env e account_id = do
  consume_json env (get_or (str "") "nonce" e.protected)
  payload ← lift (decode_jws_payload env.codec e.payload_b64)
  pure (payload, account_id)

-- The decoded payload and the account id.
unfoldable pub verify_jws : Env → Request → Exec Db (Json × String)
unfolding open_envelope authenticate accept
verify_jws env request = do
  e ← lift (open_envelope env.codec request)
  account_id ← query (λ db. authenticate env.codec env.settings request db.accounts e)
  accept env e account_id
