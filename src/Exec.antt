-- ===== src/Exec.antt =====
-- Request handlers over a state.
use jackdaw.Base.{◌≡◌, refl}
use jackdaw.Result.{Result, ok, raised, uncaught, HttpException}

-- What was committed before an exception stays committed.
abbrev pub Exec {ℓ} : Type ℓ → Type ℓ → Type ℓ
Exec S A = S → Result A × S

module _ {ℓ} {S A : Type ℓ} where
  -- A result that depends on what is stored, and one that does not.
  abbrev pub query : (S → Result A) → Exec S A
  query read stored = (read stored, stored)

  abbrev pub lift : Result A → Exec S A
  lift result stored = (result, stored)

  abbrev pub raise : HttpException → Exec S A
  raise exception = lift (raised exception)

  abbrev pub pure : A → Exec S A
  pure value = lift (ok value)

module _ {ℓ} {S A B : Type ℓ} where
  -- What follows runs only if the first part returned.
  abbrev pub continue : Result A → (A → Exec S B) → Exec S B
  continue uncaught next stored = (uncaught, stored)
  continue (raised exception) next stored = (raised exception, stored)
  continue (ok value) next stored = next value stored

  infixl 10 ◌>>=◌ ◌>>◌
  abbrev pub ◌>>=◌ : Exec S A → (A → Exec S B) → Exec S B
  ◌>>=◌ part next stored = let (result, written) = part stored in continue result next written

  abbrev pub ◌>>◌ : Exec S A → Exec S B → Exec S B
  part >> next = part >>= λ _. next

-- A successful bind comes from a successful first action.
pub >>=-eq-ok {ℓ} :
    {S A B : Type ℓ} (m : Exec S A) (f : A → Exec S B) (s : S) (b : B) (t : S)
    → (m >>= f) s ≡ (ok b, t)
    → (a : A) × (s' : S) × (m s ≡ (ok a, s')) × (f a s' ≡ (ok b, t))
>>=-eq-ok {A} m f s b t h = at (m s).0 (m s).1 refl refl h
  where
    at :
        (r : Result A) (s' : _)
        → (m s).0 ≡ r
        → (m s).1 ≡ s'
        → continue r f s' ≡ (ok b, t)
        → (a : A) × (s' : _) × (m s ≡ (ok a, s')) × (f a s' ≡ (ok b, t))
    at (ok a) s' p q k = (a, s', (λ i. (p i, q i)), k)
    at (raised e) s' p q k = absurd (cc)
    at uncaught s' p q k = absurd (cc)

-- The same for a first step that changes nothing.
pub continue-eq-ok {ℓ} :
    {S A B : Type ℓ} (r : Result A) (f : A → Exec S B) (s : S) (b : B) (t : S)
    → continue r f s ≡ (ok b, t)
    → (a : A) × (r ≡ ok a) × (f a s ≡ (ok b, t))
continue-eq-ok (ok a) f s b t h = (a, refl, h)
continue-eq-ok (raised e) f s b t h = absurd (cc)
continue-eq-ok uncaught f s b t h = absurd (cc)

-- The action keeps a property of what is stored, whether it returns or raises.
abbrev pub Keeps {ℓ κ} : {S A : Type ℓ} → (S → Type κ) → Exec S A → Type (ℓ ⊔ κ)
Keeps {S} Holds part = (stored : S) → Holds stored → Holds (part stored).1

pub Keeps-bind {ℓ κ} :
    {S A B : Type ℓ} (Holds : S → Type κ) (part : Exec S A) (next : A → Exec S B)
    → Keeps Holds part
    → ((value : A) → Keeps Holds (next value))
    → Keeps Holds (part >>= next)
Keeps-bind Holds part next part_keeps next_keeps stored before =
    by_result (part stored).0 (part stored).1 (part_keeps stored before)
  where
    by_result :
        (result : Result _) (written : _) → Holds written → Holds (continue result next written).1
    by_result uncaught written after = after
    by_result (raised exception) written after = after
    by_result (ok value) written after = next_keeps value written after

-- A write that is committed.
abbrev pub modify {ℓ} : {S : Type ℓ} → (S → S) → Exec S (Unit {ℓ})
modify f s = (ok tt, f s)
