-- ===== src/Accounts/Overlap/Invariant.antt =====
-- The keys stay distinct when no two requests for one key overlap.
use jackdaw.Base.{
  String, List, ◌≢◌, ◌≡◌, Option, none, ◌∷◌, arith, Bool, eq_iff, if◌then◌else◌, [], subst, refl,
  sym, true, false, some, All, ℕ, suc, zero, take_out, Option-cases, inl, inr, ap, ◌∙◌,
  some-injective, is_none-eq,
}
use jackdaw.Accounts.KeyChange.{account_has_id, set_key, taken_by, check_key}
use jackdaw.Jws.Keys.{Env}
use jackdaw.Base.Table.{update, count, select, Unique-update, Unique-append, count-append}
use jackdaw.Db.{Db, Account}
use jackdaw.Accounts.Keys.{Distinct, select-none, count-none}
use jackdaw.Accounts.{scalar_one_or_none, has_key, find_by_key, created_account}
use jackdaw.Result.{Result, ok, raised, uncaught, >>=-eq-ok, require-eq-ok}
use jackdaw.Accounts.Rollover.{changed, keys-changed}
use jackdaw.Accounts.Overlap.{
  Ticket, registering, changing, key_of, Shared, Event, registers, changes, commits, await_commit,
  on_found, on_check, commit, on_commit, step, run, Apart, IsFresh, DrawsFresh, Calm,
}

-- The key of a request that waits is still free.
abbrev IsFree : List Account → Ticket → Type 0
IsFree rows (registering key id request) = count (has_key key) rows ≡ 0
IsFree rows (changing key id) = count (taken_by key id) rows ≡ 0

some_pair :
    {A B : Type 0} {a a' : A} {b b' : B}
    → ◌≡◌ {A = Option (A × B)} (some (a, b)) (some (a', b'))
    → (a ≡ a') × (b ≡ b')
some_pair {a} {a'} {b} {b'} h =
    let same = some-injective (a, b) (a', b') h in (ap (λ p. p.0) same, ap (λ p. p.1) same)

take_out-suc :
    (i : ℕ) (u : Ticket) (ts : List Ticket) (t : Ticket) (rest : List Ticket)
    → take_out (suc i) (u ∷ ts) ≡ some (t, rest)
    → (others : List Ticket) × (take_out i ts ≡ some (t, others)) × (u ∷ others ≡ rest)
take_out-suc i u ts t rest h = elim (Option-cases (take_out i ts)) [
  | inl missing ↦ absurd (ground arith)
  | inr ((v, others), found) ↦
      let e : ◌≡◌ {A = Option (Ticket × List Ticket)} (some (v, u ∷ others)) (some (t, rest)) =
        ground arith in
      let (same, left) = some_pair e in (others, found ∙ ap (λ x. some (x, others)) same, left)
]

take_out-All {κ} :
    (P : Ticket → Type κ) (i : ℕ) (ts : List Ticket) (t : Ticket) (rest : List Ticket)
    → take_out i ts ≡ some (t, rest)
    → All P ts
    → P t × All P rest
take_out-All P i [] t rest h a = absurd (cc)
take_out-All P zero (u ∷ ts) t rest h a =
    let (same, left) = some_pair h in (subst P same a.0, subst (All P) left a.1)
take_out-All P (suc i) (u ∷ ts) t rest h a =
    let (others, found, left) = take_out-suc i u ts t rest h in
    let (holds, rest_hold) = take_out-All P i ts t others found a.1 in
    (holds, subst (All P) left (a.0, rest_hold))

take_out-Apart :
    (i : ℕ) (ts : List Ticket) (t : Ticket) (rest : List Ticket)
    → take_out i ts ≡ some (t, rest)
    → Apart ts
    → All (λ u. key_of u ≢ key_of t) rest × Apart rest
take_out-Apart i [] t rest h a = absurd (cc)
take_out-Apart zero (u ∷ ts) t rest h a =
    let (same, left) = some_pair h in
    (
      subst (λ x. All (λ v. key_of v ≢ key_of x) rest) same
          (subst (All (λ v. key_of v ≢ key_of u)) left a.0),
      subst Apart left a.1,
    )
take_out-Apart (suc i) (u ∷ ts) t rest h a =
    let (others, found, left) = take_out-suc i u ts t rest h in
    let (differ, apart) = take_out-Apart i ts t others found a.1 in
    let (first, kept) = take_out-All (λ v. key_of v ≢ key_of u) i ts t others found a.0 in
    (
      subst (All (λ v. key_of v ≢ key_of t)) left ((λ e. first (sym e)), differ),
      subst Apart left (kept, apart),
    )

-- The invariant.
record Inv (s : Shared) : Type 0 where
  distinct : Distinct s.db.accounts
  free : All (IsFree s.db.accounts) s.waiting
  apart : Apart s.waiting

has_key-changed :
    (id key other : String) (rows : List Account)
    → other ≢ key
    → count (has_key other) rows ≡ 0
    → count (has_key other) (changed id key rows) ≡ 0
unfolding count update changed
has_key-changed id key other [] n h = refl
has_key-changed id key other (a ∷ rows) n h =
    ground (arith, eq_iff key other, has_key-changed id key other rows n)

taken_by-changed :
    (id key other owner : String) (rows : List Account)
    → other ≢ key
    → count (taken_by other owner) rows ≡ 0
    → count (taken_by other owner) (changed id key rows) ≡ 0
unfolding count update changed
taken_by-changed id key other owner [] n h = refl
taken_by-changed id key other owner (a ∷ rows) n h =
    ground (arith, eq_iff key other, taken_by-changed id key other owner rows n)

-- A commit takes its own key and no other.
commit-IsFree :
    (env : Env) (t : Ticket) (db : Db) (u : Ticket)
    → key_of u ≢ key_of t
    → IsFree db.accounts u
    → IsFree (commit env t db).accounts u
unfolding count changed
commit-IsFree env (registering key id request) db (registering k i q) n h = ground (
  arith,
  eq_iff key k,
  count-append (has_key k) db.accounts (created_account env.now id key request.contact ∷ []),
)
commit-IsFree env (registering key id request) db (changing k i) n h = ground (
  arith,
  eq_iff key k,
  count-append (taken_by k i) db.accounts (created_account env.now id key request.contact ∷ []),
)
commit-IsFree env (changing key id) db (registering k i q) n h =
    has_key-changed id key k db.accounts n h
commit-IsFree env (changing key id) db (changing k i) n h =
    taken_by-changed id key k i db.accounts n h

commit-Distinct :
    (env : Env) (t : Ticket) (rest : List Ticket) (db : Db)
    → IsFresh db (some (t, rest))
    → IsFree db.accounts t
    → Distinct db.accounts
    → Distinct (commit env t db).accounts
unfolding changed
commit-Distinct env (registering key id request) rest db fresh free d = record {
  ids =
      Unique-append (λ (a : Account). a.id) db.accounts
        (created_account env.now id key request.contact) d.ids fresh;
  keys =
      Unique-append (λ (a : Account). a.public_key) db.accounts
        (created_account env.now id key request.contact) d.keys (count-none key db.accounts free);
}
commit-Distinct env (changing key id) rest db fresh free d = record {
  ids =
      Unique-update (λ (a : Account). a.id) (account_has_id id) (set_key key) (λ a. refl)
        db.accounts d.ids;
  keys = keys-changed id key db.accounts d free;
}

frees :
    (env : Env) (t : Ticket) (db : Db) (us : List Ticket)
    → All (λ u. key_of u ≢ key_of t) us
    → All (IsFree db.accounts) us
    → All (IsFree (commit env t db).accounts) us
frees env t db [] n h = tt
frees env t db (u ∷ us) n h = (commit-IsFree env t db u n.0 h.0, frees env t db us n.1 h.1)

commit-Inv :
    (env : Env) (i : ℕ) (s : Shared) (o : Option (Ticket × List Ticket))
    → take_out i s.waiting ≡ o
    → IsFresh s.db o
    → Inv s
    → Inv (on_commit env o s)
commit-Inv env i s none e fresh inv = inv
commit-Inv env i s (some (t, rest)) e fresh inv =
    let (free, others) = take_out-All (IsFree s.db.accounts) i s.waiting t rest e inv.free in
    let (differ, apart) = take_out-Apart i s.waiting t rest e inv.apart in
    record {
      distinct = commit-Distinct env t rest s.db fresh free inv.distinct;
      free = frees env t s.db rest differ others;
      apart = apart;
    }

step-Inv :
    (env : Env) (s : Shared) (e : Event)
    → DrawsFresh s e
    → Apart (step env s e).waiting
    → Inv s
    → Inv (step env s e)
unfolding step
step-Inv env s (commits i) fresh =
    λ apart inv. commit-Inv env i s (take_out i s.waiting) refl fresh inv
step-Inv env s (registers key id request) fresh = found (find_by_key key s.db) refl
  where
    found :
        (r : Result (Option Account))
        → find_by_key key s.db ≡ r
        → Apart (on_found r key id request s).waiting
        → Inv s
        → Inv (on_found r key id request s)
    found (ok none) e apart inv = asked request.only_return_existing apart
      where
        asked :
            (b : Bool)
            → Apart (if b then s else await_commit (registering key id request) s).waiting
            → Inv (if b then s else await_commit (registering key id request) s)
        asked true clear = inv
        asked false clear = record {
          distinct = inv.distinct;
          free = (select-none (has_key key) s.db.accounts e, inv.free);
          apart = clear;
        }
    found (ok (some a)) e apart inv = inv
    found (raised x) e apart inv = inv
    found uncaught e apart inv = inv
step-Inv env s (changes key id) fresh = found (check_key id key s.db) refl
  where
    found :
        (r : Result (Unit {0}))
        → check_key id key s.db ≡ r
        → Apart (on_check r key id s).waiting
        → Inv s
        → Inv (on_check r key id s)
    found (ok u) e apart inv =
        let (existing, looked, none_taken) =
          >>=-eq-ok (scalar_one_or_none (select (taken_by key id) s.db.accounts)) _ e in
        record {
          distinct = inv.distinct;
          free = (
            select-none (taken_by key id) s.db.accounts
                (looked ∙ ap ok (is_none-eq existing (require-eq-ok _ _ none_taken))),
            inv.free,
          );
          apart = apart;
        }
    found (raised x) e apart inv = inv
    found uncaught e apart inv = inv

run-Inv : (env : Env) (s : Shared) (es : List Event) → Calm env s es → Inv s → Inv (run env s es)
unfolding run
run-Inv env s [] calm inv = inv
run-Inv env s (e ∷ es) calm inv =
    run-Inv env (step env s e) es calm.2 (step-Inv env s e calm.0 calm.1 inv)

-- If no two accounts have one id or one key, the same holds after any registrations and key changes,
-- interleaved in any way, as long as no two requests for one key are between their look-up and their
-- commit at the same time, and a new account draws an id that is in no row.
pub keys_distinct :
    (env : Env) (db : Db) (es : List Event)
    → Calm env (record { db = db; waiting = [] }) es
    → Distinct db.accounts
    → Distinct (run env (record { db = db; waiting = [] }) es).db.accounts
keys_distinct env db es calm distinct =
    (run-Inv env (record { db = db; waiting = [] }) es calm
      (record { distinct = distinct; free = tt; apart = tt })).distinct
