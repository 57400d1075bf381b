-- ===== src/Upstream/Locks/Tests.antt =====
-- Two calls for one domain and one for another.
use jackdaw.Upstream.Locks.{
  Flight, Client, Moves, no_move, move, arrives, enters, new_client, arrive, domain_lock, is_held,
}
use jackdaw.Upstream.Locks.Serial.{Distinct, one_issuance}
use jackdaw.Base.{List, ◌∷◌, [], String, ◌≡◌, ℕ, ◌++◌, false, refl, ◌↔◌, All, ◌≢◌}

abbrev a_one : Flight
a_one = record { domain = "a.example.com"; lock = 0 }

abbrev b_one : Flight
b_one = record { domain = "b.example.com"; lock = 1 }

abbrev locks_of_both : List (String × ℕ)
locks_of_both = ("b.example.com", 1) ∷ ("a.example.com", 0) ∷ []

abbrev three_calls : Client
three_calls = arrive "b.example.com" (arrive "a.example.com" (arrive "a.example.com" new_client))

abbrev two_inside : Client
two_inside = record {
  domain_locks = locks_of_both;
  made = 2;
  waiting = a_one ∷ [];
  inside = b_one ∷ a_one ∷ [];
}

two_domains : Moves new_client two_inside
unfolding arrive domain_lock is_held
two_domains =
    move _ _ _ (arrives "a.example.com" new_client (arrive "a.example.com" new_client) refl) (
      move _ _ _
        (arrives "a.example.com" _ (arrive "a.example.com" (arrive "a.example.com" new_client))
          refl)
        (move _ _ _ (arrives "b.example.com" _ three_calls refl) (
          move _ _ _
            (enters [] (a_one ∷ b_one ∷ []) a_one _
              (record {
                domain_locks = locks_of_both;
                made = 2;
                waiting = a_one ∷ b_one ∷ [];
                inside = a_one ∷ [];
              })
              refl refl refl)
            (move _ _ _ (enters (a_one ∷ []) [] b_one _ two_inside refl refl refl) (no_move _)))))

one_issuance_example :
    Distinct (b_one ∷ a_one ∷ [])
    × ((before after : List Flight) (f : Flight)
        → a_one ∷ [] ≡ before ++ f ∷ after
        → (is_held f.lock (b_one ∷ a_one ∷ []) ≡ false)
          ↔ All (λ (g : Flight). f.domain ≢ g.domain) (b_one ∷ a_one ∷ []))
one_issuance_example = one_issuance two_inside two_domains
