-- ===== src/Upstream/Locks/Serial.antt =====
-- At most one issuance of a domain is in flight, and other domains do not wait for it.
use jackdaw.Upstream.Locks.{
  Flight, Client, domain_lock, arrive, is_held, Move, Moves, arrives, enters, leaves, gives_up,
  no_move, move, new_client, lock_or_new,
}
use jackdaw.Dns.{registry_entry}
use jackdaw.Base.{
  String, ◌≡◌, List, All, ℕ, some, ◌++◌, false, ◌≢◌, ◌∷◌, ◌<◌, arith, [], refl, eqb, Option,
  some-injective, Bool-cases, sym, eq_iff, eq_refl, inl, ◌∙◌, none, ap, inr, All-append, subst, ◌↔◌,
}

-- Each domain has its own lock, made before.
pub record OwnLocks (c : Client) : Type 0 where
  pub one_domain :
      (d e : String) (l : ℕ)
      → registry_entry d c.domain_locks ≡ some l
      → registry_entry e c.domain_locks ≡ some l
      → d ≡ e
  pub was_made : (d : String) (l : ℕ) → registry_entry d c.domain_locks ≡ some l → l < c.made

abbrev Knows : Client → Flight → Type 0
Knows c f = registry_entry f.domain c.domain_locks ≡ some f.lock

-- No two calls inside have the same domain.
abbrev pub Distinct : List Flight → Type 0
Distinct [] = Unit
Distinct (f ∷ fs) = All (λ (g : Flight). f.domain ≢ g.domain) fs × Distinct fs

pub record Serial (c : Client) : Type 0 where
  pub locks : OwnLocks c
  pub waiting_known : All (Knows c) c.waiting
  pub inside_known : All (Knows c) c.inside
  pub distinct : Distinct c.inside

module _ {ℓ} {A : Type 0} (P : A → Type ℓ) where
  All-remove :
      (before after : List A) (a : A) → All P (before ++ a ∷ after) → All P (before ++ after)
  All-remove [] after a (h, hs) = hs
  All-remove (b ∷ before) after a (h, hs) = (h, All-remove before after a hs)

  All-at : (before after : List A) (a : A) → All P (before ++ a ∷ after) → P a
  All-at [] after a (h, hs) = h
  All-at (b ∷ before) after a (h, hs) = All-at before after a hs

Distinct-remove :
    (before after : List Flight) (f : Flight)
    → Distinct (before ++ f ∷ after)
    → Distinct (before ++ after)
Distinct-remove [] after f (h, hs) = hs
Distinct-remove (b ∷ before) after f (h, hs) = (
  All-remove (λ (g : Flight). b.domain ≢ g.domain) before after f h,
  Distinct-remove before after f hs,
)

other_domain :
    (c : Client) (f g : Flight)
    → Knows c f
    → Knows c g
    → eqb g.lock f.lock ≡ false
    → f.domain ≢ g.domain
other_domain c f g k kg h e =
    let same =
      some-injective f.lock g.lock (sym k ∙ (ap (λ d. registry_entry d c.domain_locks) e ∙ kg)) in
    ground arith

other_lock :
    (c : Client) (f g : Flight)
    → OwnLocks c
    → Knows c f
    → Knows c g
    → f.domain ≢ g.domain
    → eqb g.lock f.lock ≡ false
other_lock c f g own k kg ne = elim (Bool-cases (eqb g.lock f.lock)) [
  | inl e ↦
      let same : g.lock ≡ f.lock = ground arith in
      absurd (ne (own.one_domain f.domain g.domain f.lock k (kg ∙ ap some same)))
  | inr e ↦ e
]

-- A call whose lock is free has a domain that is not inside.
free-Distinct :
    (c : Client) (f : Flight) (inside : List Flight)
    → Knows c f
    → All (Knows c) inside
    → is_held f.lock inside ≡ false
    → All (λ (g : Flight). f.domain ≢ g.domain) inside
unfolding is_held
free-Distinct c f [] k ks h = tt
free-Distinct c f (g ∷ inside) k (kg, ks) h =
    (other_domain c f g k kg (ground arith), free-Distinct c f inside k ks (ground arith))

-- And the other way round.
Distinct-free :
    (c : Client) (f : Flight) (inside : List Flight)
    → OwnLocks c
    → Knows c f
    → All (Knows c) inside
    → All (λ (g : Flight). f.domain ≢ g.domain) inside
    → is_held f.lock inside ≡ false
unfolding is_held
Distinct-free c f [] own k ks h = refl
Distinct-free c f (g ∷ inside) own k (kg, ks) (ne, h) =
    let e = other_lock c f g own k kg ne in
    let ih = Distinct-free c f inside own k ks h in ground arith

module _ (c : Client) (domain : String) (own : OwnLocks c) where
  OwnLocks-lock_or_new :
      (o : Option ℕ)
      → registry_entry domain c.domain_locks ≡ o
      → OwnLocks (lock_or_new o domain c).1
  OwnLocks-lock_or_new (some lock) h = own
  OwnLocks-lock_or_new none h = record {
    one_domain = λ d e l hd he. ground (
      arith,
      eq_iff domain d,
      eq_iff domain e,
      eq_iff d domain,
      eq_iff e domain,
      own.one_domain d e l,
      own.was_made d l,
      own.was_made e l,
    );
    was_made = λ d l hd. ground (arith, own.was_made d l);
  }

  Knows-lock_or_new :
      (o : Option ℕ)
      → registry_entry domain c.domain_locks ≡ o
      → (f : Flight) → Knows c f
      → Knows (lock_or_new o domain c).1 f
  Knows-lock_or_new (some lock) h f k = k
  Knows-lock_or_new none h f k = ground (arith, eq_iff f.domain domain)

  Knows-got :
      (o : Option ℕ)
      → registry_entry domain c.domain_locks ≡ o
      → Knows
          (lock_or_new o domain c).1
          (record { domain = domain; lock = (lock_or_new o domain c).0 })
  Knows-got (some lock) h = h
  Knows-got none h = ground (arith, eq_refl domain)

All-step :
    {P Q : Flight → Type 0} (fs : List Flight) → ((f : Flight) → P f → Q f) → All P fs → All Q fs
All-step [] step h = tt
All-step (f ∷ fs) step (h, hs) = (step f h, All-step fs step hs)

-- The locks do not depend on the calls that wait or are inside.
same_locks :
    (c : Client) (waiting inside : List Flight)
    → OwnLocks c
    → OwnLocks (record c { waiting = waiting; inside = inside })
same_locks c waiting inside own = record { one_domain = own.one_domain; was_made = own.was_made }

Serial-arrive : (domain : String) (c : Client) → Serial c → Serial (arrive domain c)
unfolding arrive domain_lock
Serial-arrive domain c s = at (registry_entry domain c.domain_locks) refl
  where
    at :
        (o : Option ℕ)
        → registry_entry domain c.domain_locks ≡ o
        → Serial (record (lock_or_new o domain c).1 {
          waiting =
              (lock_or_new o domain c).1.waiting
              ++ record { domain = domain; lock = (lock_or_new o domain c).0 } ∷ [];
        })
    at (some lock) e = record {
      locks =
          same_locks c (c.waiting ++ record { domain = domain; lock = lock } ∷ []) c.inside s.locks;
      waiting_known =
          All-append (Knows c) c.waiting (record { domain = domain; lock = lock } ∷ [])
            s.waiting_known (e, tt);
      inside_known = s.inside_known;
      distinct = s.distinct;
    }
    at none e =
        let later = (lock_or_new none domain c).1 in
        let knows = Knows-lock_or_new c domain s.locks none e in
        record {
          locks =
              same_locks later (later.waiting ++ record { domain = domain; lock = c.made } ∷ [])
                later.inside (OwnLocks-lock_or_new c domain s.locks none e);
          waiting_known =
              All-append (Knows later) c.waiting (record { domain = domain; lock = c.made } ∷ [])
                (All-step c.waiting knows s.waiting_known) (Knows-got c domain s.locks none e, tt);
          inside_known = All-step c.inside knows s.inside_known;
          distinct = s.distinct;
        }

Serial-Move : (c c' : Client) → Move c c' → Serial c → Serial c'
Serial-Move c c' (arrives domain _ _ e) s = subst Serial (sym e) (Serial-arrive domain c s)
Serial-Move c c' (enters before after f _ _ w free e) s =
    let waiting = subst (All (Knows c)) w s.waiting_known in
    let known = All-at (Knows c) before after f waiting in
    subst Serial (sym e) (record {
      locks = same_locks c (before ++ after) (f ∷ c.inside) s.locks;
      waiting_known = All-remove (Knows c) before after f waiting;
      inside_known = (known, s.inside_known);
      distinct = (free-Distinct c f c.inside known s.inside_known free, s.distinct);
    })
Serial-Move c c' (leaves before after f _ _ i e) s = subst Serial (sym e) (record {
  locks = same_locks c c.waiting (before ++ after) s.locks;
  waiting_known = s.waiting_known;
  inside_known = All-remove (Knows c) before after f (subst (All (Knows c)) i s.inside_known);
  distinct = Distinct-remove before after f (subst Distinct i s.distinct);
})
Serial-Move c c' (gives_up before after f _ _ w e) s = subst Serial (sym e) (record {
  locks = same_locks c (before ++ after) c.inside s.locks;
  waiting_known = All-remove (Knows c) before after f (subst (All (Knows c)) w s.waiting_known);
  inside_known = s.inside_known;
  distinct = s.distinct;
})

Serial-Moves : (c c' : Client) → Moves c c' → Serial c → Serial c'
Serial-Moves c c' (no_move _) s = s
Serial-Moves c c'' (move _ c' _ step moves) s = Serial-Moves c' c'' moves (Serial-Move c c' step s)

new_client-Serial : Serial new_client
new_client-Serial = record {
  locks = record { one_domain = λ d e l h k. absurd (cc); was_made = λ d l h. absurd (cc) };
  waiting_known = tt;
  inside_known = tt;
  distinct = tt;
}

-- Whatever the order in which calls of `order_cert` arrive, take their lock, end and are cancelled, no
-- two issuances in flight are for one domain; and a waiting call may go on exactly if no issuance of
-- its domain is in flight, so that it never waits for another domain.
pub one_issuance :
    (c : Client)
    → Moves new_client c
    → Distinct c.inside
      × ((before after : List Flight) (f : Flight)
          → c.waiting ≡ before ++ f ∷ after
          → (is_held f.lock c.inside ≡ false) ↔ All (λ (g : Flight). f.domain ≢ g.domain) c.inside)
one_issuance c moves =
    let s = Serial-Moves new_client c moves new_client-Serial in
    (
      s.distinct,
      λ before after f w.
          let known = All-at (Knows c) before after f (subst (All (Knows c)) w s.waiting_known) in
          (
            (λ free. free-Distinct c f c.inside known s.inside_known free),
            (λ apart. Distinct-free c f c.inside s.locks known s.inside_known apart),
          ),
    )
