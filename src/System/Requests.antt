-- ===== src/System/Requests.antt =====
-- Orders and challenge requests keep a claimed order as it is.
use jackdaw.System.{step, System, acknowledged, IsFresh, ordered, start}
use jackdaw.Base.{String, List, ◌≡◌, inl, subst, ◌==◌, arith, sym, false, ◌∷◌, eq_iff, inr, ap}
use jackdaw.Jws.Keys.{Env}
use jackdaw.Config.{Settings}
use jackdaw.Tasks.{challenge}
use jackdaw.Orders.{Draws, insert_order}
use jackdaw.System.Sealed.{Sealed, Rewrites-Sealed}
use jackdaw.Db.{Identifier, Db}
use jackdaw.Challenge.Cases.{acknowledge_cases}
use jackdaw.Orders.Creation.{order-insert, create_order_cases}
use jackdaw.System.Proof.{start-refused}
use jackdaw.Challenge.{acknowledge}
use jackdaw.System.Writes.{start_challenge_cases, started, started-Rewrites}
use jackdaw.System.Outcomes.{authz-inserted_old}
use jackdaw.Base.Table.{key-get}
use jackdaw.Ownership.Exact.{require_authz_owner_iff}

pub ordered-Sealed :
    (j : String) (s : System) (env : Env) (draws : Draws) (account_id : String)
    (identifiers : List Identifier)
    → IsFresh s (ordered env draws account_id identifiers)
    → Sealed j s
    → Sealed j (step s (ordered env draws account_id identifiers))
unfolding step
ordered-Sealed j s env draws account_id identifiers fresh sealed =
    elim (create_order_cases env draws account_id identifiers s.db) [
      | inl (refused, same) ↦ subst (λ d. Sealed j (record s { db = d })) (sym same) sealed
      | inr (a, b, c, done) ↦
          subst (λ (d : Db). Sealed j (record s { db = d })) (sym (ap (λ r. r.1) done))
            inserted-Sealed
    ]
  where
    inserted-Sealed :
        Sealed j (record s { db = insert_order env.now draws account_id identifiers s.db })
    inserted-Sealed = record {
      there = ground (
        arith,
        sealed.there,
        order-insert env.now draws account_id identifiers s.db j,
        eq_iff draws.order_id j,
      );
      settled = λ z a found owned.
          elim (authz-inserted_old env.now draws account_id identifiers s.db fresh z a found) [
            | inl old ↦ sealed.settled z a old owned
            | inr new ↦ absurd (ground (arith, sealed.there))
          ];
      quiet = sealed.quiet;
    }

pub acknowledged-Sealed :
    (j : String) (s : System) (settings : Settings) (z account_id : String)
    → Sealed j s
    → Sealed j (step s (acknowledged settings z account_id))
unfolding step
acknowledged-Sealed j s settings z account_id sealed =
    elim (acknowledge_cases settings z account_id s.db) [
      | inl (refused, same) ↦
          subst (Sealed j)
            (sym (start-refused s (acknowledge settings z account_id s.db) refused same)) sealed
      | inr (authz, reply, shown, owner, open_now, done) ↦
          let found = ((require_authz_owner_iff s.db z account_id authz).0 owner).0 in
          let id_is = key-get (λ r. r.id) z s.db.authorizations found in
          let other_order : (authz.order_id == j) ≡ false =
            ground (arith, eq_iff authz.order_id j, sealed.settled z authz found) in
          let s' : System = record s { tasks = challenge z authz.order_id ∷ s.tasks } in
          let sealed' : Sealed j s' = record {
            there = sealed.there;
            settled = sealed.settled;
            quiet = (other_order, sealed.quiet);
          } in
          subst (λ m. Sealed j (start s m)) (sym done)
            (start_challenge_cases (λ d. Sealed j (record s' { db = d })) authz s.db
              (λ is_new.
                Rewrites-Sealed j s' (record s' { db = started authz s.db })
                  (started-Rewrites authz s.db)
                  (λ o k h. ground (arith, eq_iff o.id authz.order_id, eq_iff authz.order_id j))
                  (λ y a fa owned h. ground (
                    arith,
                    eq_iff a.id authz.id,
                    key-get (λ r. r.id) y s.db.authorizations fa,
                    eq_iff authz.order_id j,
                  ))
                  (other_order, sealed.quiet) sealed')
              sealed')
    ]
