-- ===== src/Upstream/Locks.antt =====
-- src/jackdaw/services/le_client.py: `domain_lock` and `order_cert`, which serialize the issuances of
-- one domain. A lock is the number of the `asyncio.Lock` object.
pub mod Serial
mod Tests
use jackdaw.Dns.{registry_entry}
use jackdaw.Base.{
  any, String, List, ℕ, [], ◌++◌, Bool, ◌≡◌, some, ◌∷◌, eqb, suc, false, none, Option,
}

-- An `order_cert` call from the moment it has its lock object: it waits for it, or it is inside.
pub record Flight : Type 0 where
  pub domain : String
  pub lock : ℕ

pub record Client : Type 0 where
  pub domain_locks : List (String × ℕ)
  -- How many lock objects were made.
  pub made : ℕ
  pub waiting : List Flight
  pub inside : List Flight

abbrev pub lock_or_new : Option ℕ → String → Client → ℕ × Client
lock_or_new (some lock) domain c = (lock, c)
lock_or_new none domain c =
    (c.made, record c { domain_locks = (domain, c.made) ∷ c.domain_locks; made = suc c.made })

unfoldable pub domain_lock : String → Client → ℕ × Client
domain_lock domain c = lock_or_new (registry_entry domain c.domain_locks) domain c

-- The call of `domain_lock`, before `async with` takes the lock.
unfoldable pub arrive : String → Client → Client
unfolding domain_lock
arrive domain c =
    let got = domain_lock domain c in
    record got.1 { waiting = got.1.waiting ++ record { domain = domain; lock = got.0 } ∷ [] }

unfoldable pub is_held : ℕ → List Flight → Bool
is_held lock inside = any (λ (f : Flight). eqb f.lock lock) inside

-- One step of any of the calls.
pub data Move : Client → Client → Type 0 where
  arrives : (domain : String) (c c' : Client) → c' ≡ arrive domain c → Move c c'
  enters :
      (before after : List Flight) (f : Flight) (c c' : Client)
      → c.waiting ≡ before ++ f ∷ after
      → is_held f.lock c.inside ≡ false
      → c' ≡ record c { waiting = before ++ after; inside = f ∷ c.inside }
      → Move c c'
  -- The issuance returned or raised.
  leaves :
      (before after : List Flight) (f : Flight) (c c' : Client)
      → c.inside ≡ before ++ f ∷ after
      → c' ≡ record c { inside = before ++ after }
      → Move c c'
  -- A waiting call is cancelled.
  gives_up :
      (before after : List Flight) (f : Flight) (c c' : Client)
      → c.waiting ≡ before ++ f ∷ after
      → c' ≡ record c { waiting = before ++ after }
      → Move c c'

pub data Moves : Client → Client → Type 0 where
  no_move : (c : Client) → Moves c c
  move : (c c' c'' : Client) → Move c c' → Moves c' c'' → Moves c c''

abbrev pub new_client : Client
new_client = record { domain_locks = []; made = 0; waiting = []; inside = [] }
