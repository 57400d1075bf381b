-- ===== src/Orders/RateLimit.antt =====
-- The quota of recent orders, over a history of requests. `new_order` awaits between the count of
-- the orders and the commit of the new one, so other requests count in between.
use jackdaw.Base.{
  ℕ, String, List, ◌≤◌, ◌<◌, ◌∷◌, ◌+◌, ◌≡◌, arith, [], if◌then◌else◌, inl, ◌==◌, inr, eq_iff, suc,
  zero, Option, none, some, refl, subst, Bool-cases, Option-cases, Bool, take_out,
}
use jackdaw.Jws.Keys.{Env, Codec}
use jackdaw.Config.{Settings}
use jackdaw.Orders.{
  insert_order, check_order_rate_limit, Draws, create_order, in_window, pending_order,
  validate_identifiers, check_domain_policy,
}
use jackdaw.Db.{Db, Identifier}
use jackdaw.Base.Table.{count, count_mono, count-append}
use jackdaw.Result.{ok, raised, uncaught, Result, ◌>>◌, >>=-eq-ok, Result-cases}

-- What `new_order` holds of a request that passed the checks and has not committed its rows yet.
pub record Ticket : Type 0 where
  pub account_id : String
  pub identifiers : List Identifier
  pub draws : Draws

pub record Shared : Type 0 where
  pub db : Db
  pub waiting : List Ticket

-- A request runs the checks; one of those that passed them commits its rows.
pub data Event : Type 0 where
  checked : (now : ℕ) → Ticket → Event
  written : (now : ℕ) (i : ℕ) → Event

abbrev at_time : Env → ℕ → Env
at_time env now = record env { now = now }

-- `new_order` up to the commit.
pub order_checks : Env → String → List Identifier → Db → Result (Unit {0})
order_checks env account_id identifiers db =
    validate_identifiers identifiers
    >> (check_domain_policy env.codec env.settings identifiers
        >> check_order_rate_limit env.codec env.settings env.now db.orders account_id)

abbrev pub on_checks : Result (Unit {0}) → Ticket → Shared → Shared
on_checks (ok u) t s = record s { waiting = t ∷ s.waiting }
on_checks (raised e) t s = s
on_checks uncaught t s = s

abbrev pub on_write : Option (Ticket × List Ticket) → ℕ → Shared → Shared
on_write none now s = s
on_write (some (t, rest)) now s = record {
  db = insert_order now t.draws t.account_id t.identifiers s.db;
  waiting = rest;
}

unfoldable pub step : Env → Shared → Event → Shared
unfolding order_checks
step env s (checked now t) =
    on_checks (order_checks (at_time env now) t.account_id t.identifiers s.db) t s
step env s (written now i) = on_write (take_out i s.waiting) now s

unfoldable pub run : Env → Shared → List Event → Shared
run env s [] = s
run env s (e ∷ es) = run env (step env s e) es

abbrev pub time_of : Event → ℕ
time_of (checked now t) = now
time_of (written now i) = now

-- The clock does not run backwards; the time of the last event.
abbrev pub IsOrdered : ℕ → List Event → Type 0
IsOrdered t [] = Unit
IsOrdered t (e ∷ es) = (t ≤ time_of e) × IsOrdered (time_of e) es

abbrev pub end_time : ℕ → List Event → ℕ
end_time t [] = t
end_time t (e ∷ es) = end_time (time_of e) es

-- The requests of the account between their checks and their commit.
abbrev pub in_flight : String → List Ticket → ℕ
in_flight account_id = count (λ t. t.account_id == account_id)

-- At every moment of the run at most `k` requests of the account are there.
abbrev pub Overlap : Env → String → ℕ → Shared → List Event → Type 0
Overlap env account_id k s [] = in_flight account_id s.waiting ≤ k
Overlap env account_id k s (e ∷ es) =
    (in_flight account_id s.waiting ≤ k) × Overlap env account_id k (step env s e) es

-- The account's orders in the window that ends now.
abbrev pub recent : Settings → ℕ → String → Db → ℕ
recent settings now account_id db = count (in_window settings now account_id) db.orders

recent_mono :
    (settings : Settings) (earlier now : ℕ) (account_id : String) (db : Db)
    → earlier ≤ now
    → recent settings now account_id db ≤ recent settings earlier account_id db
recent_mono settings earlier now account_id db h =
    count_mono (in_window settings now account_id) (in_window settings earlier account_id)
      (λ o w. ground arith) db.orders

recent-insert :
    (settings : Settings) (now : ℕ) (draws : Draws) (owner account_id : String)
    (identifiers : List Identifier) (db : Db)
    → recent settings now account_id (insert_order now draws owner identifiers db)
      ≤ recent settings now account_id db + (if owner == account_id then 1 else 0)
unfolding insert_order count
recent-insert settings now draws owner account_id identifiers db = ground (
  arith,
  count-append (in_window settings now account_id) db.orders
      (pending_order now draws.order_id owner identifiers ∷ []),
)

limit_passed :
    (c : Codec) (settings : Settings) (now : ℕ) (db : Db) (account_id : String)
    → 0 < settings.order_rate_limit
    → check_order_rate_limit c settings now db.orders account_id ≡ ok tt
    → recent settings now account_id db < settings.order_rate_limit
unfolding check_order_rate_limit
limit_passed c settings now db account_id on h = ground arith

-- A request that no other one overtakes does what `create_order` does.
alone :
    (env : Env) (t : Ticket) (db : Db)
    → (run env (record { db = db; waiting = [] }) (checked env.now t ∷ written env.now 0 ∷ [])).db
      ≡ (create_order env t.draws t.account_id t.identifiers db).1
unfolding run step create_order order_checks
alone env t db = elim (Result-cases (validate_identifiers t.identifiers)) [
  | inl (inr (x, a)) ↦ rw a refl
  | inr a ↦ rw a refl
  | inl (inl (u, a)) ↦
      elim (Result-cases (check_domain_policy env.codec env.settings t.identifiers)) [
        | inl (inr (x, b)) ↦ rw (a, b) refl
        | inr b ↦ rw (a, b) refl
        | inl (inl (v, b)) ↦
            elim (Result-cases
              (check_order_rate_limit env.codec env.settings env.now db.orders t.account_id)) [
                | inl (inr (x, c)) ↦ rw (a, b, c) refl
                | inr c ↦ rw (a, b, c) refl
                | inl (inl (w, c)) ↦ rw (a, b, c) refl
              ]
      ]
]

take_out-count :
    (p : Ticket → Bool) (i : ℕ) (ts : List Ticket) (t : Ticket) (rest : List Ticket)
    → take_out i ts ≡ some (t, rest)
    → count p ts ≡ count p rest + (if p t then 1 else 0)
unfolding count
take_out-count p i [] t rest h = absurd (cc)
take_out-count p zero (u ∷ ts) t rest h = ground arith
take_out-count p (suc i) (u ∷ ts) t rest h = elim (Option-cases (take_out i ts)) [
  | inl missing ↦ absurd (ground arith)
  | inr ((v, others), found) ↦ let ih = take_out-count p i ts v others found in ground arith
]

-- The orders in the window, and those to come.
abbrev Room : Env → String → ℕ → ℕ → Shared → Type 0
Room env account_id k now s =
    suc (recent env.settings now account_id s.db + in_flight account_id s.waiting)
    ≤ env.settings.order_rate_limit + k

checks-Room :
    (env : Env) (account_id : String) (k now : ℕ) (s : Shared) (t : Ticket) (r : Result (Unit {0}))
    → 0 < env.settings.order_rate_limit
    → order_checks (at_time env now) t.account_id t.identifiers s.db ≡ r
    → in_flight account_id (on_checks r t s).waiting ≤ k
    → Room env account_id k now s
    → Room env account_id k now (on_checks r t s)
unfolding order_checks count
checks-Room env account_id k now s t (raised x) on e few h = h
checks-Room env account_id k now s t uncaught on e few h = h
checks-Room env account_id k now s t (ok u) on e few h =
    let (_, a, h1) = >>=-eq-ok (validate_identifiers t.identifiers) _ e in
    let (_, b, c) = >>=-eq-ok (check_domain_policy env.codec env.settings t.identifiers) _ h1 in
    let room = limit_passed env.codec env.settings now s.db t.account_id on c in
    elim (Bool-cases (t.account_id == account_id)) [
      | inl same ↦
          let is : t.account_id ≡ account_id = (eq_iff t.account_id account_id).0 same in
          let own : recent env.settings now account_id s.db < env.settings.order_rate_limit =
            subst (λ a. recent env.settings now a s.db < env.settings.order_rate_limit) is room in
          let fits : suc (in_flight account_id s.waiting) ≤ k = ground arith in
          rw same (omega (arith, own, fits))
      | inr other ↦ rw other (omega (arith, h))
    ]

write-Room :
    (env : Env) (account_id : String) (k now i : ℕ) (s : Shared) (o : Option (Ticket × List Ticket))
    → take_out i s.waiting ≡ o
    → Room env account_id k now s
    → Room env account_id k now (on_write o now s)
write-Room env account_id k now i s none e h = h
write-Room env account_id k now i s (some (t, rest)) e h = omega (
  arith,
  take_out-count (λ t. t.account_id == account_id) i s.waiting t rest e,
  recent-insert env.settings now t.draws t.account_id account_id t.identifiers s.db,
  h,
)

step-Room :
    (env : Env) (account_id : String) (k now : ℕ) (s : Shared) (e : Event)
    → 0 < env.settings.order_rate_limit
    → now ≤ time_of e
    → in_flight account_id (step env s e).waiting ≤ k
    → Room env account_id k now s
    → Room env account_id k (time_of e) (step env s e)
unfolding step
step-Room env account_id k now s (checked later t) on ordered few h =
    checks-Room env account_id k later s t
      (order_checks (at_time env later) t.account_id t.identifiers s.db) on refl few
      (omega (arith, recent_mono env.settings now later account_id s.db ordered))
step-Room env account_id k now s (written later i) on ordered few h =
    write-Room env account_id k later i s (take_out i s.waiting) refl
      (omega (arith, recent_mono env.settings now later account_id s.db ordered))

now_few :
    (env : Env) (account_id : String) (k : ℕ) (s : Shared) (es : List Event)
    → Overlap env account_id k s es
    → in_flight account_id s.waiting ≤ k
now_few env account_id k s [] h = h
now_few env account_id k s (e ∷ es) h = h.0

run-Room :
    (env : Env) (account_id : String) (k now : ℕ) (s : Shared) (es : List Event)
    → 0 < env.settings.order_rate_limit
    → IsOrdered now es
    → Overlap env account_id k s es
    → Room env account_id k now s
    → Room env account_id k (end_time now es) (run env s es)
unfolding run
run-Room env account_id k now s [] on ordered few h = h
run-Room env account_id k now s (e ∷ es) on ordered few h =
    run-Room env account_id k (time_of e) (step env s e) es on ordered.1 few.1 (
      step-Room env account_id k now s e on ordered.0
        (now_few env account_id k (step env s e) es few.1) h)

-- With a rate limit in force, an account has fewer than `order_rate_limit` plus `k` orders in the window
-- that ends at the last event, whatever orders the accounts ask for, if the clock does not run
-- backwards, the account is within its quota at the start, and at most `k` requests of the account at a
-- time are between their checks and their commit. So it never has more than `order_rate_limit` if its
-- requests do not overlap there (`k` is 1).
pub rate_limit_holds :
    (env : Env) (db : Db) (start k : ℕ) (es : List Event) (account_id : String)
    → 0 < env.settings.order_rate_limit
    → 0 < k
    → IsOrdered start es
    → Overlap env account_id k (record { db = db; waiting = [] }) es
    → recent env.settings start account_id db ≤ env.settings.order_rate_limit
    → recent env.settings
        (end_time start es)
        account_id
        (run env (record { db = db; waiting = [] }) es).db
      < env.settings.order_rate_limit + k
unfolding count
rate_limit_holds env db start k es account_id on positive ordered few h =
    let room =
      run-Room env account_id k start (record { db = db; waiting = [] }) es on ordered few
        (omega arith) in
    omega (arith, room)
