-- ===== src/Dns/Cloudflare/Deletion.antt =====
-- What is left after `delete_txt` at Cloudflare.
use jackdaw.Dns.Rest.{Rest, Entry, Reply, raise_for_status, entries_or_empty, entry_id}
use jackdaw.Dns.Cloudflare.{
  delete_records, delete_each, delete_one, list_records, get_zone_id, records_path, record_path,
  first_zone,
}
use jackdaw.Exec.{◌>>=◌, ◌>>◌, >>=-eq-ok, continue-eq-ok, lift, pure}
use jackdaw.Result.{ok, expect, Result, or_crash-eq-ok, ok-injective}
use jackdaw.Base.Table.{select}
use jackdaw.Base.{
  String, List, not, Option, ◌≡◌, ◌∷◌, ◌==◌, some, [], true, Bool, ap, sym, false, some-injective,
  refl, ◌∙◌, All, arith, Bool-cases, any, eq_refl, ◌≢◌, inl, eq_iff, inr, subst,
}

abbrev pub without_id : String → List String → List String
without_id id ids = select (λ i. not (i == id)) ids

abbrev pub entry_ids : List Entry → List (Option String)
entry_ids [] = []
entry_ids (e ∷ entries) = e.id ∷ entry_ids entries

abbrev pub all_some : List String → List (Option String)
all_some [] = []
all_some (i ∷ ids) = some i ∷ all_some ids

-- What the API documents, for one zone and the ids of its TXT records by name. A listing has the ids
-- of all records of the name (they fit on one page); a deletion with a status of success removes one
-- record, by its id; reading changes nothing.
pub record KeepsRecords {S : Type 0} (rest : Rest S) (zone_id : String)
    (ids : S → String → List String) : Type 0 where
  pub get_keeps :
      (path : String) (params : List (String × String)) (st : S)
      → ids (rest.get path params st).1 ≡ ids st
  pub lists :
      (name : String) (st : S) (r : Reply)
      → (rest.get (records_path zone_id) (("type", "TXT") ∷ ("name", name) ∷ []) st).0 ≡ ok r
      → r.is_success ≡ true
      → entry_ids (entries_or_empty r.entries) ≡ all_some (ids st name)
  pub deletes :
      (id : String) (st : S) (r : Reply)
      → (rest.delete (record_path zone_id id) st).0 ≡ ok r
      → r.is_success ≡ true
      → (name : String)
      → ids (rest.delete (record_path zone_id id) st).1 name ≡ without_id id (ids st name)

abbrev remove_ids : List String → List String → List String
remove_ids [] ids = ids
remove_ids (i ∷ gone) ids = remove_ids gone (without_id i ids)

expect-eq-ok : (b : Bool) → expect b ≡ ok tt → b ≡ true
expect-eq-ok true h = refl
expect-eq-ok false h = cc

all_some-cons :
    (a : Option String) (i : String) (as' bs : List (Option String))
    → a ∷ as' ≡ some i ∷ bs
    → (a ≡ some i) × (as' ≡ bs)
all_some-cons a i as' bs h =
    (ap (λ l. elim l [ [] ↦ a | x ∷ r ↦ x ]) h, ap (λ l. elim l [ [] ↦ as' | x ∷ r ↦ r ]) h)

-- Every id is among those that go.
abbrev Covered : List String → List String → Type 0
Covered gone ids = All (λ i. any (λ k. k == i) gone ≡ true) ids

Covered-cons : (x : String) (gone ids : List String) → Covered gone ids → Covered (x ∷ gone) ids
Covered-cons x gone [] h = tt
Covered-cons x gone (i ∷ ids) (h, hs) = (ground arith, Covered-cons x gone ids hs)

Covered-self : (ids : List String) → Covered ids ids
Covered-self [] = tt
Covered-self (i ∷ ids) = (ground (arith, eq_refl i), Covered-cons i ids ids (Covered-self ids))

Covered-without_id :
    (x : String) (gone ids : List String) → Covered (x ∷ gone) ids → Covered gone (without_id x ids)
unfolding select
Covered-without_id x gone [] h = tt
Covered-without_id x gone (i ∷ ids) (h, hs) =
    let ih = Covered-without_id x gone ids hs in
    elim (Bool-cases (i == x)) [
      | inl e ↦ rw e ih
      | inr n ↦ rw n (ground (arith, eq_iff i x, eq_iff x i), ih)
    ]

remove_ids-Covered : (gone ids : List String) → Covered gone ids → remove_ids gone ids ≡ []
remove_ids-Covered [] [] h = refl
remove_ids-Covered [] (i ∷ ids) (h, hs) = absurd (cc)
remove_ids-Covered (x ∷ gone) ids h =
    remove_ids-Covered gone (without_id x ids) (Covered-without_id x gone ids h)

-- No id of one list is in the other.
abbrev pub Apart : List String → List String → Type 0
Apart gone ids = All (λ i. All (λ j. j ≢ i) ids) gone

without_id-absent : (x : String) (ids : List String) → All (λ j. j ≢ x) ids → without_id x ids ≡ ids
unfolding select
without_id-absent x [] h = refl
without_id-absent x (i ∷ ids) (h, hs) =
    let ih = without_id-absent x ids hs in ground (arith, eq_iff i x)

remove_ids-Apart : (gone ids : List String) → Apart gone ids → remove_ids gone ids ≡ ids
remove_ids-Apart [] ids h = refl
remove_ids-Apart (x ∷ gone) ids (h, hs) =
    ap (remove_ids gone) (without_id-absent x ids h) ∙ remove_ids-Apart gone ids hs

module _ {S : Type 0} (rest : Rest S) (zone_id : String) (ids : S → String → List String)
    (keeps : KeepsRecords rest zone_id ids) where
  delete_one-ok :
      (e : Entry) (st st' : S)
      → delete_one rest zone_id e st ≡ (ok tt, st')
      → (i : String) × (e.id ≡ some i)
        × ((name : String) → ids st' name ≡ without_id i (ids st name))
  delete_one-ok e st st' h =
      let (i, s1, e1, h1) =
        >>=-eq-ok (lift (entry_id e))
          (λ record_id.
            rest.delete (record_path zone_id record_id) >>= λ r. lift (raise_for_status r))
          st tt st' h in
      let (r, s2, e2, h2) =
        >>=-eq-ok (rest.delete (record_path zone_id i)) (λ r. lift (raise_for_status r)) s1 tt st'
          h1 in
      let good = expect-eq-ok r.is_success (ap (λ (p : Result (Unit {0}) × S). p.0) h2) in
      let same : s2 ≡ st' = ap (λ (p : Result (Unit {0}) × S). p.1) h2 in
      let start : st ≡ s1 = ap (λ (p : Result String × S). p.1) e1 in
      (
        i,
        or_crash-eq-ok e.id i (ap (λ (p : Result String × S). p.0) e1),
        λ name.
            ap (λ s. ids s name) (sym same)
            ∙ (ap (λ s. ids s name) (sym (ap (λ (p : Result Reply × S). p.1) e2))
                ∙ (keeps.deletes i s1 r (ap (λ (p : Result Reply × S). p.0) e2) good name
                    ∙ ap (λ s. without_id i (ids s name)) (sym start))),
      )

  delete_each-ok :
      (entries : List Entry) (gone : List String) (st st' : S)
      → entry_ids entries ≡ all_some gone
      → delete_each rest zone_id entries st ≡ (ok tt, st')
      → (name : String) → ids st' name ≡ remove_ids gone (ids st name)
  unfolding delete_each
  delete_each-ok [] [] st st' e h name = ap (λ (p : Result (Unit {0}) × S). ids p.1 name) (sym h)
  delete_each-ok [] (i ∷ gone) st st' e h name = absurd (cc)
  delete_each-ok (x ∷ entries) [] st st' e h name = absurd (cc)
  delete_each-ok (x ∷ entries) (i ∷ gone) st st' e h name =
      let (u, s1, e1, h1) =
        >>=-eq-ok (delete_one rest zone_id x) (λ _. delete_each rest zone_id entries) st tt st' h in
      let (j, e2, removed) = delete_one-ok x st s1 e1 in
      let (first, others) = all_some-cons x.id i (entry_ids entries) (all_some gone) e in
      let same : j ≡ i = some-injective j i (sym e2 ∙ first) in
      delete_each-ok entries gone s1 st' others h1 name
      ∙ ap (remove_ids gone) (removed name ∙ ap (λ k. without_id k (ids st name)) same)

  get_zone_id-keeps :
      (domain z : String) (st st' : S) → get_zone_id rest domain st ≡ (ok z, st') → ids st' ≡ ids st
  unfolding get_zone_id
  get_zone_id-keeps domain z st st' h =
      let params = ("name", domain) ∷ ("status", "active") ∷ [] in
      let (r, s1, e1, h1) =
        >>=-eq-ok (rest.get "/zones" params)
          (λ r. lift (raise_for_status r) >> lift (first_zone (entries_or_empty r.entries))) st z
          st' h in
      let (u, c, h2) =
        continue-eq-ok (raise_for_status r) (λ _. lift (first_zone (entries_or_empty r.entries))) s1
          z st' h1 in
      ap (λ (p : Result String × S). ids p.1) (sym h2)
      ∙ (ap (λ (p : Result Reply × S). ids p.1) (sym e1) ∙ keeps.get_keeps "/zones" params st)

  list_records-ok :
      (name : String) (entries : List Entry) (st st' : S)
      → list_records rest zone_id name st ≡ (ok entries, st')
      → (ids st' ≡ ids st) × (entry_ids entries ≡ all_some (ids st name))
  unfolding list_records
  list_records-ok name entries st st' h =
      let params = ("type", "TXT") ∷ ("name", name) ∷ [] in
      let (r, s1, e1, h1) =
        >>=-eq-ok (rest.get (records_path zone_id) params)
          (λ r. lift (raise_for_status r) >> pure (entries_or_empty r.entries)) st entries st' h in
      let (u, c, h2) =
        continue-eq-ok (raise_for_status r) (λ _. pure (entries_or_empty r.entries)) s1 entries st'
          h1 in
      let got : entries_or_empty r.entries ≡ entries =
        ok-injective (ap (λ (p : Result (List Entry) × S). p.0) h2) in
      let listed =
        keeps.lists name st r (ap (λ (p : Result Reply × S). p.0) e1)
          (expect-eq-ok r.is_success c) in
      (
        ap (λ (p : Result (List Entry) × S). ids p.1) (sym h2)
            ∙ (ap (λ (p : Result Reply × S). ids p.1) (sym e1)
                ∙ keeps.get_keeps (records_path zone_id) params st),
        ap entry_ids (sym got) ∙ listed,
      )

  -- If `delete_txt` returns, the zone has no TXT record of the name left, and the TXT records of other
  -- names are untouched.
  pub delete_records_complete :
      (domain name : String) (st st' : S)
      → (get_zone_id rest domain st).0 ≡ ok zone_id
      → delete_records rest domain name st ≡ (ok tt, st')
      → (ids st' name ≡ [])
        × ((other : String) → Apart (ids st name) (ids st other) → ids st' other ≡ ids st other)
  unfolding delete_records
  delete_records_complete domain name st st' z h =
      let (zone, s1, e1, h1) =
        >>=-eq-ok (get_zone_id rest domain)
          (λ zone. list_records rest zone name >>= λ entries. delete_each rest zone entries) st tt
          st' h in
      let same : zone ≡ zone_id = ok-injective (sym (ap (λ (p : Result String × S). p.0) e1) ∙ z) in
      let h1' =
        subst
          (λ k.
            (list_records rest k name >>= λ entries. delete_each rest k entries) s1 ≡ (ok tt, st'))
          same h1 in
      let (entries, s2, e2, h2) =
        >>=-eq-ok (list_records rest zone_id name) (delete_each rest zone_id) s1 tt st' h1' in
      let (listing, listed) = list_records-ok name entries s1 s2 e2 in
      let zone_kept = get_zone_id-keeps domain zone st s1 e1 in
      let removed = delete_each-ok entries (ids s1 name) s2 st' listed h2 in
      (
        removed name
            ∙ (ap (λ (k : String → List String). remove_ids (ids s1 name) (k name)) listing
                ∙ remove_ids-Covered (ids s1 name) (ids s1 name) (Covered-self (ids s1 name))),
        λ other apart.
            removed other
            ∙ (ap (λ (k : String → List String). remove_ids (ids s1 name) (k other)) listing
                ∙ (ap (λ (k : String → List String). remove_ids (k name) (k other)) zone_kept
                    ∙ remove_ids-Apart (ids st name) (ids st other) apart)),
      )
