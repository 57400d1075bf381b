-- ===== src/Nonce/Pruning.antt =====
-- What pruning and issuing do to later consumption.
use jackdaw.Base.{ℕ, String, ◌≤◌, ◌+◌, ◌≡◌, refl, some, List, [], ◌∷◌, arith, eq_refl, ltb, not}
use jackdaw.Base.Table.{select, count, count-append}
use jackdaw.Config.{Settings}
use jackdaw.Db.{Db, Nonce}
use jackdaw.Result.{ok}
use jackdaw.Nonce.{generate_nonce, consume_nonce, prune_nonces, consumable, cutoff, fresh_nonce}

count-prune :
    (v : String) (since before : ℕ) (rows : List Nonce)
    → before ≤ since
    → count (consumable since v) (select (λ n. not (ltb n.created_at before)) rows)
      ≡ count (consumable since v) rows
unfolding count select
count-prune v since before [] h = refl
count-prune v since before (n ∷ rows) h = ground (arith, count-prune v since before rows)

-- Pruning at an earlier time or the same never changes the outcome of consuming a nonce: only rows
-- that are too old to be accepted are deleted.
pub consume-prune :
    (settings : Settings) (earlier now : ℕ) (v : String) (db : Db)
    → earlier ≤ now
    → (consume_nonce settings now v (prune_nonces settings earlier db)).0
      ≡ (consume_nonce settings now v db).0
unfolding consume_nonce prune_nonces
consume-prune settings earlier now v db h =
    ground (arith, count-prune v (cutoff settings now) (cutoff settings earlier) db.nonces)

-- A nonce that was issued is accepted for `nonce_ttl` seconds, the last included.
pub consume-generate :
    (settings : Settings) (issued now : ℕ) (v : String) (db : Db)
    → (generate_nonce settings issued v db).0 ≡ some v
    → now ≤ issued + settings.nonce_ttl
    → (consume_nonce settings now v (generate_nonce settings issued v db).1).0 ≡ ok tt
unfolding consume_nonce generate_nonce count
consume-generate settings issued now v db given h = ground (
  arith,
  count-append (consumable (cutoff settings now) v) db.nonces (fresh_nonce v issued ∷ []),
  eq_refl v,
)
