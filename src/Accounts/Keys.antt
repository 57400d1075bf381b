-- ===== src/Accounts/Keys.antt =====
-- Accounts with distinct ids and keys.
use jackdaw.Base.{
  List, Bool, String, ◌≡◌, none, ◌∷◌, if◌then◌else◌, arith, ◌+◌, [], subst, refl, sym, true, false,
}
use jackdaw.Base.Table.{select, count, get, Unique}
use jackdaw.Accounts.{scalar_one_or_none, has_key}
use jackdaw.Db.{Account}
use jackdaw.Result.{ok}

-- The ids are distinct, as the primary key demands, and so are the keys.
pub record Distinct (rows : List Account) : Type 0 where
  pub ids : Unique (λ (a : Account). a.id) rows
  pub keys : Unique (λ (a : Account). a.public_key) rows

pub select-none :
    (p : Account → Bool) (rows : List Account)
    → scalar_one_or_none (select p rows) ≡ ok none
    → count p rows ≡ 0
unfolding select count
select-none p [] h = refl
select-none p (a ∷ rows) h = at (p a) (select p rows) refl refl h (select-none p rows)
  where
    at :
        (b : Bool) (rest : List Account)
        → p a ≡ b
        → select p rows ≡ rest
        → scalar_one_or_none (if b then a ∷ rest else rest) ≡ ok none
        → (scalar_one_or_none (select p rows) ≡ ok none → count p rows ≡ 0)
        → (if p a then 1 else 0) + count p rows ≡ 0
    at true [] e f k ih = absurd (cc)
    at true (x ∷ xs) e f k ih = absurd (cc)
    at false rest e f k ih =
        ground (arith, ih (subst (λ l. scalar_one_or_none l ≡ ok none) (sym f) k))

pub count-none :
    (key : String) (rows : List Account)
    → count (has_key key) rows ≡ 0
    → get (λ (a : Account). a.public_key) key rows ≡ none
unfolding count get
count-none key [] h = refl
count-none key (a ∷ rows) h = ground (arith, count-none key rows)
