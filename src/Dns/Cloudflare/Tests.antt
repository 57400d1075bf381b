-- ===== src/Dns/Cloudflare/Tests.antt =====
-- A small zone with one name, and the removal of its records.
use jackdaw.Dns.{registry_entry}
use jackdaw.Dns.Rest.{Rest, Entry, Reply, entries_or_empty}
use jackdaw.Dns.Cloudflare.{delete_records, get_zone_id, delete_each, list_records, record_path}
use jackdaw.Dns.Cloudflare.Deletion.{
  KeepsRecords, delete_records_complete, Apart, without_id, entry_ids, all_some,
}
use jackdaw.Result.{ok, ok-injective}
use jackdaw.Base.Table.{select}
use text.Mathlib.TextLemmas.{append_cancel_left}
use jackdaw.Base.{
  String, List, Option, if◌then◌else◌, true, ◌≡◌, ◌==◌, not, some, ◌∷◌, refl, [], ap, Bool-cases,
  none, inl, eq_iff, inr, ◌∙◌, sym, ◌<>◌, arith, subst,
}

abbrev name : String
name = "_acme-challenge.a.example.com"

abbrev ids : List String → String → List String
ids st n = if n == name then st else []

abbrev entries_of : List String → List Entry
entries_of [] = []
entries_of (i ∷ is) = record { id = some i } ∷ entries_of is

abbrev name_of : Option String → String
name_of none = ""
name_of (some n) = n

abbrev succeeded : List Entry → Reply
succeeded entries = record { is_success = true; entries = some entries }

abbrev small_zone : Rest (List String)
small_zone = record {
  get = λ path params st. (
    ok (
        succeeded (
          if path == "/zones"
          then record { id = some "z" } ∷ []
          else entries_of (ids st (name_of (registry_entry "name" params))))),
    st,
  );
  post = λ path payload st. (ok (succeeded []), st);
  delete = λ path st. (ok (succeeded []), select (λ i. not (record_path "z" i == path)) st);
}

entry_ids-entries_of : (l : List String) → entry_ids (entries_of l) ≡ all_some l
entry_ids-entries_of [] = refl
entry_ids-entries_of (i ∷ l) = ap (λ r. some i ∷ r) (entry_ids-entries_of l)

same_path : (i id : String) → (record_path "z" i == record_path "z" id) ≡ (i == id)
same_path i id = elim (Bool-cases (i == id)) [
  | inl e ↦
      let same : i ≡ id = (eq_iff i id).0 e in
      (eq_iff (record_path "z" i) (record_path "z" id)).1 (ap (record_path "z") same) ∙ sym e
  | inr n ↦ elim (Bool-cases (record_path "z" i == record_path "z" id)) [
    | inl e ↦
        let whole = (eq_iff (record_path "z" i) (record_path "z" id)).0 e in
        let part = append_cancel_left "/zones/z/dns_records" ("/" <> i) ("/" <> id) whole in
        let same : i ≡ id = append_cancel_left "/" i id part in e ∙ sym ((eq_iff i id).1 same)
    | inr m ↦ m ∙ sym n
  ]
]

deleted_ids :
    (id : String) (st : List String)
    → select (λ i. not (record_path "z" i == record_path "z" id)) st ≡ without_id id st
unfolding select
deleted_ids id [] = refl
deleted_ids id (i ∷ st) = let ih = deleted_ids id st in let e = same_path i id in ground arith

remaining :
    (id : String) (st : List String) (n : String)
    → ids (select (λ i. not (record_path "z" i == record_path "z" id)) st) n
      ≡ without_id id (ids st n)
unfolding select
remaining id st n = elim (Bool-cases (n == name)) [
  | inl e ↦ rw e (deleted_ids id st)
  | inr f ↦ rw f refl
]

small_zone-KeepsRecords : KeepsRecords small_zone "z" ids
small_zone-KeepsRecords = record {
  get_keeps = λ path params st. refl;
  lists = λ n st r e good.
      subst (λ x. entry_ids (entries_or_empty x.entries) ≡ all_some (ids st n)) (ok-injective e)
        (entry_ids-entries_of (ids st n));
  deletes = λ id st r e good n. remaining id st n;
}

zone_found : (get_zone_id small_zone "example.com" ("r1" ∷ "r2" ∷ [])).0 ≡ ok "z"
unfolding get_zone_id
zone_found = refl

both_deleted : delete_records small_zone "example.com" name ("r1" ∷ "r2" ∷ []) ≡ (ok tt, [])
unfolding delete_records get_zone_id delete_each list_records select
both_deleted = refl

delete_records_complete_example :
    (ids [] name ≡ [])
    × ((other : String)
        → Apart (ids ("r1" ∷ "r2" ∷ []) name) (ids ("r1" ∷ "r2" ∷ []) other)
        → ids [] other ≡ ids ("r1" ∷ "r2" ∷ []) other)
delete_records_complete_example =
    delete_records_complete small_zone "z" ids small_zone-KeepsRecords "example.com" name
      ("r1" ∷ "r2" ∷ []) [] zone_found both_deleted
