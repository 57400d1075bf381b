-- ===== src/Nonce/Tests.antt =====
-- The nonce theorems at concrete tables.
use jackdaw.Base.{◌≡◌, refl, [], ◌∷◌, arith, eq_iff, List, length, ◌<◌}
use jackdaw.Base.Table.{count, update}
use jackdaw.Config.{Settings, defaults}
use jackdaw.Db.{Db, empty_db}
use jackdaw.Result.{raised, http}
use jackdaw.Nonce.{consume_nonce, prune_nonces, fresh_nonce}
use jackdaw.Nonce.Replay.{generate, prune, run, replay_refused}
use jackdaw.Nonce.Pruning.{consume-prune}
use jackdaw.Nonce.Cap
use jackdaw.Nonce.Cap.{run-IsWithinCap, Overlap, Event, counted, inserted, consumed}

abbrev issued : Db
issued = record empty_db { nonces = fresh_nonce "n1" 100 ∷ fresh_nonce "n2" 900 ∷ [] }

replay_refused_example :
    (consume_nonce defaults 200 "n1" (
      run defaults
        (consume_nonce defaults 150 "n1" issued).1
        (generate 160 "n3" ∷ prune 170 ∷ []))).0
    ≡ raised (http 400 "Invalid, already-used, or expired nonce")
unfolding count consume_nonce
replay_refused_example =
    replay_refused defaults 150 200 "n1" issued (generate 160 "n3" ∷ prune 170 ∷ []) (omega arith)
      refl ((λ e. ground (arith, eq_iff "n3" "n1")), ((λ e. e), tt))

consume-prune_example :
    (consume_nonce defaults 950 "n2" (prune_nonces defaults 900 issued)).0
    ≡ (consume_nonce defaults 950 "n2" issued).0
consume-prune_example = consume-prune defaults 900 950 "n2" issued (omega arith)

abbrev capped : Settings
capped = record defaults { nonce_max = 3 }

-- Two requests count before either inserts.
abbrev overlapping : List Event
overlapping = counted ∷ counted ∷ inserted 950 "n3" ∷ inserted 951 "n4" ∷ consumed 960 "n1" ∷ []

-- The table then holds one row more than the cap.
one_too_many :
    length (Cap.run capped (record { db = issued; waiting = 0 }) overlapping).db.nonces ≡ 4
unfolding Cap.run Cap.step consume_nonce update count
one_too_many = refl

few : Overlap capped 2 (record { db = issued; waiting = 0 }) overlapping
unfolding Cap.step consume_nonce
few = (omega arith, (omega arith, (omega arith, (omega arith, (omega arith, omega arith)))))

run-IsWithinCap_example :
    length (Cap.run capped (record { db = issued; waiting = 0 }) overlapping).db.nonces < 5
run-IsWithinCap_example =
    run-IsWithinCap capped 2 issued overlapping (omega arith) (omega arith) few (omega arith)
