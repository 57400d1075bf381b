-- ===== src/Orders/Policy.antt =====
-- Which identifiers an order may have.
use text.Mathlib.TextLemmas.{nil-append, cons-append}
use jackdaw.Orders.{validate_identifiers, under_base, domains_allowed, check_domain_policy}
use jackdaw.Base.{
  List, ◌≡◌, ◌↔◌, ◌∷◌, [], ◌≢◌, arith, eq_iff, refl, String, true, ◌<>◌, ◌⊎◌, Bool-cases, ◌==◌, inl,
  inr, ◌∙◌, eq_refl, any, sym, ap, All, if◌then◌else◌, is_empty,
}
use jackdaw.Db.{Identifier}
use jackdaw.Result.{ok, >>=-eq-ok, require, require-eq-ok}
use jackdaw.Base.Text.{strip, ends_with}
use jackdaw.Jws.Keys.{Codec}
use jackdaw.Config.{Settings, allowed_domain_list}

-- Exactly one identifier is accepted, of type "dns" and with more than white space in it.
pub validate_identifiers_iff :
    (identifiers : List Identifier)
    → (validate_identifiers identifiers ≡ ok tt) ↔ (
        (ident : Identifier) × (identifiers ≡ ident ∷ [])
        × (ident.type ≡ "dns")
        × (strip ident.value ≢ ""))
unfolding validate_identifiers
validate_identifiers_iff [] = ((λ h. absurd (cc)), λ h. absurd (cc))
validate_identifiers_iff (ident ∷ []) = (
  (λ h. (
    ident,
    refl,
    ground (arith, eq_iff ident.type "dns"),
    ground (arith, eq_iff (strip ident.value) ""),
  )),
  λ h. ground (arith, eq_iff ident.type "dns", eq_iff (strip ident.value) ""),
)
validate_identifiers_iff (ident ∷ other ∷ rest) = ((λ h. absurd (cc)), λ h. absurd (cc))

ends_with-split : (s t : String) → ends_with s t ≡ true → (p : String) × (s ≡ p <> t)
unfolding ends_with
ends_with-split String.[] t h = ("", (eq_iff "" t).0 h ∙ sym (nil-append t))
ends_with-split (String.◌∷◌ c s) t h = elim (Bool-cases (String.◌∷◌ c s == t)) [
  | inl whole ↦ ("", (eq_iff (String.◌∷◌ c s) t).0 whole ∙ sym (nil-append t))
  | inr longer ↦
      let (p, e) = ends_with-split s t (ground arith) in
      (String.◌∷◌ c p, ap (String.◌∷◌ c) e ∙ sym (cons-append c p t))
]

ends_with_self : (t : String) → ends_with t t ≡ true
unfolding ends_with
ends_with_self String.[] = refl
ends_with_self (String.◌∷◌ c s) = rw (eq_refl (String.◌∷◌ c s))

ends_with-append : (p t : String) → ends_with (p <> t) t ≡ true
unfolding ends_with
ends_with-append String.[] t = rw nil-append (ends_with_self t)
ends_with-append (String.◌∷◌ c p) t = rw cons-append (ground (arith, ends_with-append p t))

-- A domain lies under a base: it is the base, or a name in front of a dot and the base.
abbrev pub Under : String → String → Type 0
Under value base = (value ≡ base) ⊎ ((name : String) × (value ≡ name <> ("." <> base)))

under_base_iff : (value base : String) → (under_base value base ≡ true) ↔ Under value base
unfolding under_base
under_base_iff value base = (there, back)
  where
    there : under_base value base ≡ true → Under value base
    there h = elim (Bool-cases (value == base)) [
      | inl same ↦ inl ((eq_iff value base).0 same)
      | inr differ ↦ inr (ends_with-split value ("." <> base) (ground arith))
    ]

    back : Under value base → under_base value base ≡ true
    back (inl same) = ground (arith, eq_iff value base)
    back (inr (name, e)) =
        let suffix : ends_with value ("." <> base) ≡ true =
          rw e (ends_with-append name ("." <> base)) in
        ground arith

-- Some element of the list has the property.
abbrev pub Any : {A : Type 0} → (A → Type 0) → List A → Type 0
Any P [] = ⊥
Any P (x ∷ xs) = P x ⊎ Any P xs

any_step :
    (value b : String) (bs : List String)
    → (any (under_base value) bs ≡ true) ↔ Any (Under value) bs
    → (any (under_base value) (b ∷ bs) ≡ true) ↔ Any (Under value) (b ∷ bs)
any_step value b bs ih = (there, back)
  where
    there : any (under_base value) (b ∷ bs) ≡ true → Any (Under value) (b ∷ bs)
    there h = elim (Bool-cases (under_base value b)) [
      | inl hit ↦ inl ((under_base_iff value b).0 hit)
      | inr miss ↦ inr (ih.0 (ground arith))
    ]

    back : Any (Under value) (b ∷ bs) → any (under_base value) (b ∷ bs) ≡ true
    back (inl hit) = rw ((under_base_iff value b).1 hit)
    back (inr rest) = let r = ih.1 rest in ground arith

any-Under_iff :
    (value : String) (bases : List String)
    → (any (under_base value) bases ≡ true) ↔ Any (Under value) bases
any-Under_iff value [] = ((λ h. cc), λ h. absurd h)
any-Under_iff value (b ∷ bs) = any_step value b bs (any-Under_iff value bs)

-- Every domain lies under a base of the list.
abbrev AllUnder : List String → List Identifier → Type 0
AllUnder bases = All (λ ident. Any (Under ident.value) bases)

domains_step :
    (c : Codec) (bases : List String) (ident : Identifier) (rest : List Identifier)
    → (domains_allowed c bases rest ≡ ok tt) ↔ AllUnder bases rest
    → (domains_allowed c bases (ident ∷ rest) ≡ ok tt) ↔ AllUnder bases (ident ∷ rest)
unfolding domains_allowed
domains_step c bases ident rest ih = (there, back)
  where
    there : domains_allowed c bases (ident ∷ rest) ≡ ok tt → AllUnder bases (ident ∷ rest)
    there h =
        let (u, first, others) = >>=-eq-ok (require (any (under_base ident.value) bases) _) _ h in
        ((any-Under_iff ident.value bases).0 (require-eq-ok _ _ first), ih.0 others)

    back : AllUnder bases (ident ∷ rest) → domains_allowed c bases (ident ∷ rest) ≡ ok tt
    back (first, others) = rw ((any-Under_iff ident.value bases).1 first) (ih.1 others)

domains_allowed_iff :
    (c : Codec) (bases : List String) (identifiers : List Identifier)
    → (domains_allowed c bases identifiers ≡ ok tt) ↔ AllUnder bases identifiers
unfolding domains_allowed
domains_allowed_iff c bases [] = ((λ h. tt), λ h. refl)
domains_allowed_iff c bases (ident ∷ rest) =
    domains_step c bases ident rest (domains_allowed_iff c bases rest)

-- The policy accepts the identifiers exactly when no base domain is configured, or each of them is
-- a configured base or a name below one.
pub check_domain_policy_iff :
    (c : Codec) (settings : Settings) (identifiers : List Identifier)
    → (check_domain_policy c settings identifiers ≡ ok tt) ↔ (
        (allowed_domain_list settings ≡ [])
        ⊎ All (λ ident. Any (Under ident.value) (allowed_domain_list settings)) identifiers)
unfolding check_domain_policy
check_domain_policy_iff c settings identifiers = at (allowed_domain_list settings)
  where
    at :
        (bases : List String)
        → ((if is_empty bases then ok tt else domains_allowed c bases identifiers) ≡ ok tt)
          ↔ ((bases ≡ []) ⊎ All (λ ident. Any (Under ident.value) bases) identifiers)
    at [] = ((λ h. inl refl), λ h. refl)
    at (b ∷ bs) = (
      (λ h. inr ((domains_allowed_iff c (b ∷ bs) identifiers).0 h)),
      λ h. elim h [
        | inl e ↦ absurd (cc)
        | inr a ↦ (domains_allowed_iff c (b ∷ bs) identifiers).1 a
      ],
    )
