-- ===== src/Upstream/Zones.antt =====
-- `_apex_domain` with a zone that is configured for the domain.
use mathlib.Core.List.{Memᴰ}
use Prim.Native.String.{count}
use jackdaw.Base.{
  String, ℕ, List, Bool, ◌∷◌, ◌≤◌, All, ◌≡◌, any, true, if◌then◌else◌, arith, subst, ◌≢◌, [], sym,
  refl, false,
}
use jackdaw.Upstream.{longest, apex_domain, shorter, matches, zone_of}
use jackdaw.Base.Table.{select}
use jackdaw.Orders.{under_base}
use jackdaw.Base.Text.{rstrip_char}

-- The zone fits the domain, and none that fits is longer.
abbrev pub IsLongest : String → List String → String → Type 0
IsLongest d overrides zone =
    Memᴰ zone overrides
    × (under_base d zone ≡ true)
    × All (λ z. under_base d z ≡ true → count z ≤ count zone) overrides

longest-Mem : (best : String) (zones : List String) → Memᴰ (longest best zones) (best ∷ zones)
unfolding longest
longest-Mem best [] = Memᴰ.head refl
longest-Mem best (z ∷ zones) = at (shorter best z) (longest-Mem best zones) (longest-Mem z zones)
  where
    at :
        (b : Bool)
        → Memᴰ (longest best zones) (best ∷ zones)
        → Memᴰ (longest z zones) (z ∷ zones)
        → Memᴰ (if b then longest z zones else longest best zones) (best ∷ z ∷ zones)
    at true m n = Memᴰ.tail n
    at false (Memᴰ.head e) n = Memᴰ.head e
    at false (Memᴰ.tail k) n = Memᴰ.tail (Memᴰ.tail k)

All-le :
    (m n : ℕ) (zones : List String)
    → m ≤ n
    → All (λ z. count z ≤ m) zones
    → All (λ z. count z ≤ n) zones
All-le m n [] h k = tt
All-le m n (z ∷ zones) h k = (omega arith, All-le m n zones h k.1)

longest-All :
    (best : String) (zones : List String)
    → All (λ z. count z ≤ count (longest best zones)) (best ∷ zones)
unfolding longest
longest-All best [] = (omega arith, tt)
longest-All best (z ∷ zones) =
    at (shorter best z) refl (longest-All best zones) (longest-All z zones)
  where
    at :
        (b : Bool)
        → shorter best z ≡ b
        → All (λ x. count x ≤ count (longest best zones)) (best ∷ zones)
        → All (λ x. count x ≤ count (longest z zones)) (z ∷ zones)
        → All
            (λ x. count x ≤ count (if b then longest z zones else longest best zones))
            (best ∷ z ∷ zones)
    at true e k l = (ground (arith, l.0), l)
    at false e k l = (k.0, (ground (arith, k.0), k.1))

Mem-select :
    (p : String → Bool) (x : String) (rows : List String)
    → Memᴰ x (select p rows)
    → Memᴰ x rows × (p x ≡ true)
unfolding select
Mem-select p x [] m = elim m [ ]
Mem-select p x (r ∷ rows) m = at (p r) refl (Mem-select p x rows) m
  where
    at :
        (b : Bool)
        → p r ≡ b
        → (Memᴰ x (select p rows) → Memᴰ x rows × (p x ≡ true))
        → Memᴰ x (if b then r ∷ select p rows else select p rows)
        → Memᴰ x (r ∷ rows) × (p x ≡ true)
    at true e ih (Memᴰ.head q) = (Memᴰ.head q, subst (λ y. p y ≡ true) (sym q) e)
    at true e ih (Memᴰ.tail k) = (Memᴰ.tail (ih k).0, (ih k).1)
    at false e ih k = (Memᴰ.tail (ih k).0, (ih k).1)

All-unselect :
    (p : String → Bool) (P : String → Type 0) (rows : List String)
    → All P (select p rows)
    → All (λ z. p z ≡ true → P z) rows
unfolding select
All-unselect p P [] h = tt
All-unselect p P (r ∷ rows) h = at (p r) refl h (All-unselect p P rows)
  where
    at :
        (b : Bool)
        → p r ≡ b
        → All P (if b then r ∷ select p rows else select p rows)
        → (All P (select p rows) → All (λ z. p z ≡ true → P z) rows)
        → All (λ z. p z ≡ true → P z) (r ∷ rows)
    at true e k ih = ((λ q. k.0), ih k.1)
    at false e k ih = ((λ q. absurd (cc)), ih k)

select-any : (p : String → Bool) (rows : List String) → any p rows ≡ true → select p rows ≢ []
unfolding select
select-any p [] h e = cc
select-any p (r ∷ rows) h e = ground (arith, select-any p rows)

-- If a configured zone fits the domain, the zone chosen is a configured one that fits, and no
-- configured zone that fits is longer. A trailing dot of the domain is ignored.
pub apex_domain-IsLongest :
    (domain : String) (overrides : List String)
    → any (under_base (rstrip_char b'.' domain)) overrides ≡ true
    → IsLongest (rstrip_char b'.' domain) overrides (apex_domain domain overrides)
unfolding apex_domain
apex_domain-IsLongest domain overrides h =
    at (matches d overrides) refl (select-any (under_base d) overrides h)
  where
    d : String
    d = rstrip_char b'.' domain

    at :
        (zones : List String)
        → matches d overrides ≡ zones
        → matches d overrides ≢ []
        → IsLongest d overrides (zone_of d zones)
    at [] e n = absurd (n e)
    at (z ∷ zones) e n =
        let (member, fits) =
          Mem-select (under_base d) (longest z zones) overrides
            (subst (λ l. Memᴰ (longest z zones) l) (sym e) (longest-Mem z zones)) in
        (
          member,
          fits,
          All-unselect (under_base d) (λ x. count x ≤ count (longest z zones)) overrides
              (subst (λ l. All (λ x. count x ≤ count (longest z zones)) l) (sym e)
                (longest-All z zones)),
        )
