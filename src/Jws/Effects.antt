-- ===== src/Jws/Effects.antt =====
-- What `verify_jws` writes.
use jackdaw.Jws.Keys.{Env, Request, Envelope, open_envelope, authenticate, decode_jws_payload}
use jackdaw.Jws.Verify.{verify_jws, consume_json, accept}
use jackdaw.Jws.Soundness.{consume_json_lem}
use jackdaw.Nonce.{consume_nonce, consumable, cutoff, mark_used}
use jackdaw.Base.Table.{update-count-zero}
use jackdaw.Db.{Db}
use jackdaw.Config.{Settings}
use jackdaw.Json.{Json, str, null, get_or}
use jackdaw.Base.{ℕ, ◌≡◌, String, ◌≢◌, arith, ◌∙◌, ◌⊎◌, refl, inl, inr}
use jackdaw.Result.{ok, Result, raised, uncaught}
use jackdaw.Exec.{◌>>=◌, continue, lift, Keeps-bind, query, Keeps, Exec, pure}

-- Nothing but the nonces differs.
pub record SameButNonces (a b : Db) : Type 0 where
  pub accounts : a.accounts ≡ b.accounts
  pub orders : a.orders ≡ b.orders
  pub authorizations : a.authorizations ≡ b.authorizations
  pub certificates : a.certificates ≡ b.certificates

consume_nonce-refused :
    (settings : Settings) (now : ℕ) (v : String) (db : Db)
    → (consume_nonce settings now v db).0 ≢ ok tt
    → (consume_nonce settings now v db).1 ≡ db
unfolding consume_nonce
consume_nonce-refused settings now v db h =
    ground (arith, update-count-zero (consumable (cutoff settings now) v) mark_used db.nonces)

consume_json-refused :
    (env : Env) (v : Json) (db : Db)
    → (consume_json env v db).0 ≢ ok tt
    → (consume_json env v db).1 ≡ db
unfolding consume_json
consume_json-refused env (str v) db h = consume_nonce-refused env.settings env.now v db h
consume_json-refused env null db h = refl
consume_json-refused env _ db h = refl

SameButNonces-refl : (a : Db) → SameButNonces a a
SameButNonces-refl a = record {
  accounts = refl;
  orders = refl;
  authorizations = refl;
  certificates = refl;
}

SameButNonces-trans : {a b c : Db} → SameButNonces a b → SameButNonces b c → SameButNonces a c
SameButNonces-trans h k = record {
  accounts = h.accounts ∙ k.accounts;
  orders = h.orders ∙ k.orders;
  authorizations = h.authorizations ∙ k.authorizations;
  certificates = h.certificates ∙ k.certificates;
}

consume_json-SameButNonces :
    (env : Env) (v : Json) (db : Db) → SameButNonces (consume_json env v db).1 db
unfolding consume_json consume_nonce
consume_json-SameButNonces env (str v) db = ground arith
consume_json-SameButNonces env null db = ground arith
consume_json-SameButNonces env _ db = ground arith

accept-Keeps :
    (db : Db) (env : Env) (e : Envelope) (id : String)
    → Keeps (λ s. SameButNonces s db) (accept env e id)
unfolding accept
accept-Keeps db env e id =
    Keeps-bind (λ s. SameButNonces s db) (consume_json env (get_or (str "") "nonce" e.protected)) _
      (λ s h. SameButNonces-trans (consume_json-SameButNonces env _ s) h)
      (λ u.
        Keeps-bind (λ s. SameButNonces s db) (lift (decode_jws_payload env.codec e.payload_b64)) _
          (λ s h. h) (λ p s h. h))

-- Verifying a request writes to the nonces only.
pub verify_jws-SameButNonces :
    (env : Env) (request : Request) (db : Db) → SameButNonces (verify_jws env request db).1 db
unfolding verify_jws
verify_jws-SameButNonces env request db =
    Keeps-bind (λ s. SameButNonces s db) (lift (open_envelope env.codec request)) _ (λ s h. h)
      (λ e.
        Keeps-bind (λ s. SameButNonces s db)
          (query (λ d. authenticate env.codec env.settings request d.accounts e)) _ (λ s h. h)
          (accept-Keeps db env e))
      db (SameButNonces-refl db)

accept_failed :
    (env : Env) (e : Envelope) (id : String) (db : Db)
    → ((r : Json × String) → (accept env e id db).0 ≢ ok r)
    → ((accept env e id db).1 ≡ db)
      ⊎ ((consume_json env (get_or (str "") "nonce" e.protected) db
            ≡ (ok tt, (accept env e id db).1))
          × ((p : Json) → decode_jws_payload env.codec e.payload_b64 ≢ ok p))
unfolding accept
accept_failed env e id db h =
    at (consume_json env nonce db) (decode_jws_payload env.codec e.payload_b64)
      (consume_json-refused env nonce db) h
  where
    nonce : Json
    nonce = get_or (str "") "nonce" e.protected

    finish : Result Json → Unit {0} → Exec Db (Json × String)
    finish p u = lift p >>= λ payload. pure (payload, id)

    at :
        (r : Result (Unit {0}) × Db) (p : Result Json)
        → (r.0 ≢ ok tt → r.1 ≡ db)
        → ((q : Json × String) → (continue r.0 (finish p) r.1).0 ≢ ok q)
        → ((continue r.0 (finish p) r.1).1 ≡ db)
          ⊎ ((r ≡ (ok tt, (continue r.0 (finish p) r.1).1)) × ((q : Json) → p ≢ ok q))
    at (ok u, s) (ok p) k n = absurd (n (p, id) refl)
    at (ok u, s) (raised x) k n = inr (refl, λ q w. cc)
    at (ok u, s) uncaught k n = inr (refl, λ q w. cc)
    at (raised x, s) p k n = inl (k (λ w. cc))
    at (uncaught, s) p k n = inl (k (λ w. cc))

-- A request that is refused leaves the whole database as it was, and so burns no nonce, unless it
-- was authentic, its nonce was accepted and consumed, and only the payload could not be decoded; all
-- that is written then is what consuming the nonce writes.
pub verify_jws_failed :
    (env : Env) (request : Request) (db : Db)
    → ((r : Json × String) → (verify_jws env request db).0 ≢ ok r)
    → ((verify_jws env request db).1 ≡ db)
      ⊎ ((e : Envelope) × (id : String) × (open_envelope env.codec request ≡ ok e)
          × (authenticate env.codec env.settings request db.accounts e ≡ ok id)
          × ((nonce : String) × (get_or (str "") "nonce" e.protected ≡ str nonce)
              × (consume_nonce env.settings env.now nonce db
                  ≡ (ok tt, (verify_jws env request db).1)))
          × ((p : Json) → decode_jws_payload env.codec e.payload_b64 ≢ ok p))
unfolding verify_jws
verify_jws_failed env request db h = at (open_envelope env.codec request) refl h
  where
    checked : Envelope → Result String
    checked e = authenticate env.codec env.settings request db.accounts e

    Outcome : Db → Type 0
    Outcome db' =
        (db' ≡ db)
        ⊎ ((e : Envelope) × (id : String) × (open_envelope env.codec request ≡ ok e)
            × (checked e ≡ ok id)
            × ((nonce : String) × (get_or (str "") "nonce" e.protected ≡ str nonce)
                × (consume_nonce env.settings env.now nonce db ≡ (ok tt, db')))
            × ((p : Json) → decode_jws_payload env.codec e.payload_b64 ≢ ok p))

    then :
        (e : Envelope) (r : Result String)
        → open_envelope env.codec request ≡ ok e
        → checked e ≡ r
        → ((q : Json × String) → (continue r (accept env e) db).0 ≢ ok q)
        → Outcome (continue r (accept env e) db).1
    then e (ok id) o c n = elim (accept_failed env e id db n) [
      | inl same ↦ inl same
      | inr (consumed, bad) ↦ inr (e, id, o, c, consume_json_lem env _ db _ tt consumed, bad)
    ]
    then e (raised x) o c n = inl refl
    then e uncaught o c n = inl refl

    rest : Envelope → Exec Db (Json × String)
    rest e d = continue (authenticate env.codec env.settings request d.accounts e) (accept env e) d

    at :
        (r : Result Envelope)
        → open_envelope env.codec request ≡ r
        → ((q : Json × String) → (continue r rest db).0 ≢ ok q)
        → Outcome (continue r rest db).1
    at (ok e) o n = then e (checked e) o refl n
    at (raised x) o n = inl refl
    at uncaught o n = inl refl
