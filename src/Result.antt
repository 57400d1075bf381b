-- ===== src/Result.antt =====
-- What a piece of a handler does: it returns, raises an `HTTPException`, or fails with an exception
-- that nothing catches (a reply of status 500).
use jackdaw.Base.{
  ℕ, String, Bool, true, false, Option, none, some, ◌≡◌, refl, ap, ◌⊎◌, inl, inr, ◌↔◌, subst,
  some-injective,
}
use jackdaw.Db.{Problem}

-- The `detail` argument of `HTTPException`.
pub data Detail : Type 0 where
  text : String → Detail
  document : Problem → Detail

pub record HttpException : Type 0 where
  pub status_code : ℕ
  pub detail : Detail

pub data Result {ℓ} (A : Type ℓ) : Type ℓ where
  ok : A → Result A
  raised : HttpException → Result A
  uncaught : Result A

abbrev pub http : ℕ → String → HttpException
http status detail = record { status_code = status; detail = text detail }

abbrev pub http_problem : ℕ → String → String → HttpException
http_problem status type detail = record {
  status_code = status;
  detail = document (record { type = type; detail = detail });
}

-- `abbrev`, so that a piece that is known to return goes on wherever it stands.
module _ {ℓ κ} {A : Type ℓ} {B : Type κ} where
  infixl 10 ◌>>=◌ ◌>>◌
  abbrev pub ◌>>=◌ : Result A → (A → Result B) → Result B
  uncaught >>= next = uncaught
  raised exception >>= next = raised exception
  ok value >>= next = next value

  abbrev pub ◌>>◌ : Result A → Result B → Result B
  check >> next = check >>= λ _. next

-- `if not test: raise e`
abbrev pub require : Bool → HttpException → Result (Unit {0})
require true e = ok tt
require false e = raised e

-- A test whose failure is an exception that nothing catches.
abbrev pub expect : Bool → Result (Unit {0})
expect true = ok tt
expect false = uncaught

abbrev pub or_raise {ℓ} : {A : Type ℓ} → Option A → HttpException → Result A
or_raise none e = raised e
or_raise (some a) e = ok a

abbrev pub or_crash {ℓ} : {A : Type ℓ} → Option A → Result A
or_crash none = uncaught
or_crash (some a) = ok a

-- A chain that returns is a chain of parts that return.
module _ {ℓ} {A B : Type ℓ} (part : Result A) (next : A → Result B) where
  abbrev Returned : B → Type ℓ
  Returned value = (got : A) × (part ≡ ok got) × (next got ≡ ok value)

pub >>=-eq-ok {ℓ} :
    {A B : Type ℓ} (part : Result A) (next : A → Result B) {value : B}
    → (part >>= next) ≡ ok value
    → Returned part next value
>>=-eq-ok uncaught next h = cc
>>=-eq-ok (raised exception) next h = cc
>>=-eq-ok (ok got) next h = (got, refl, h)

pub require-eq-ok : (b : Bool) (e : HttpException) → require b e ≡ ok tt → b ≡ true
require-eq-ok true e h = refl
require-eq-ok false e h = cc

pub or_crash-eq-ok {ℓ} : {A : Type ℓ} (o : Option A) (a : A) → or_crash o ≡ ok a → o ≡ some a
or_crash-eq-ok none a h = cc
or_crash-eq-ok (some b) a h = cc

pub ok-injective {ℓ} : {A : Type ℓ} {a b : A} → ok a ≡ ok b → a ≡ b
ok-injective {a} h = ap (λ r. elim r [ ok x ↦ x | raised e ↦ a | uncaught ↦ a ]) h

pub Result-cases {ℓ} :
    {A : Type ℓ} (r : Result A)
    → (((a : A) × (r ≡ ok a)) ⊎ ((e : HttpException) × (r ≡ raised e))) ⊎ (r ≡ uncaught)
Result-cases (ok a) = inl (inl (a, refl))
Result-cases (raised e) = inl (inr (e, refl))
Result-cases uncaught = inr refl

-- A row that is looked up and tested, on all branches.
pub guarded_iff {ℓ} :
    {R : Type ℓ} (o : Option R) (test : R → Bool) (missing refused : HttpException) (r : R)
    → ((or_raise o missing >>= λ x. require (test x) refused >> ok x) ≡ ok r)
      ↔ ((o ≡ some r) × (test r ≡ true))
guarded_iff none test missing refused r = ((λ h. absurd (cc)), (λ h. absurd (cc)))
guarded_iff (some x) test missing refused r =
    (at (test x) refl, λ h. back (some-injective x r h.0) h.1)
  where
    at :
        (b : Bool)
        → test x ≡ b
        → (require b refused >> ok x) ≡ ok r
        → (some x ≡ some r) × (test r ≡ true)
    at true e h = (ap some (ok-injective h), subst (λ y. test y ≡ true) (ok-injective h) e)
    at false e h = absurd (cc)

    back : x ≡ r → test r ≡ true → (require (test x) refused >> ok x) ≡ ok r
    back p t = rw (p, t)

pub or_raise-eq-ok {ℓ} :
    {A : Type ℓ} (o : Option A) (e : HttpException) (a : A) → or_raise o e ≡ ok a → o ≡ some a
or_raise-eq-ok none e a h = cc
or_raise-eq-ok (some b) e a h = ap some (ok-injective h)
