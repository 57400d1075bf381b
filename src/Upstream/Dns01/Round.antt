-- ===== src/Upstream/Dns01/Round.antt =====
-- A DNS-01 challenge at Namecheap, from its record to the removal of the record.
use jackdaw.Upstream.Dns01.{fulfill_dns_01, clear_dns_01, challenge_name, returned}
use jackdaw.Upstream.{apex_domain}
use jackdaw.Dns.{remove_suffix}
use jackdaw.Dns.Namecheap.{
  set_txt, delete_txt, NamecheapSettings, Api, HostRecord, namecheap_provider, split_domain,
  txt_record, without_txt, is_txt_of,
}
use jackdaw.Dns.Namecheap.Zone.{Honest, Writes, either_txt-Writes}
use jackdaw.Base.{
  List, String, ◌++◌, ◌≡◌, true, ◌∷◌, ◌⊎◌, some, [], Bool-cases, ◌<>◌, inl, inr, arith, ap, eq_iff,
  Bool, false, All, subst, sym, ◌∙◌, refl,
}
use jackdaw.Base.Table.{select}
use jackdaw.Result.{Result, ok, raised, uncaught}

-- The call returned with the new records, or raised with the old ones or the new ones.
returned-Writes :
    {S : Type 0} (zone : S → List HostRecord) (res : Result (Unit {0}) × S)
    (old new : List HostRecord)
    → Writes zone res old new
    → ((returned res).0 ≡ true → zone (returned res).1 ≡ new)
      × ((zone (returned res).1 ≡ old) ⊎ (zone (returned res).1 ≡ new))
returned-Writes zone (ok tt, st) old new h = ((λ e. h), inr h)
returned-Writes zone (raised x, st) old new h = ((λ e. absurd (cc)), h)
returned-Writes zone (uncaught, st) old new h = ((λ e. absurd (cc)), h)

Writes-either :
    {S : Type 0} (zone : S → List HostRecord) (res : Result (Unit {0}) × S)
    (old new : List HostRecord)
    → Writes zone res old new
    → (zone res.1 ≡ old) ⊎ (zone res.1 ≡ new)
Writes-either zone (ok tt, st) old new h = inr h
Writes-either zone (raised x, st) old new h = h
Writes-either zone (uncaught, st) old new h = h

-- The test passes on no TXT record of the name: it sees the other records only.
abbrev pub SeesOthers : String → (HostRecord → Bool) → Type 0
SeesOthers name test = (h : HostRecord) → h.type ≡ "TXT" → h.name ≡ name → test h ≡ false

-- A TXT record of the name.
abbrev pub IsTxtOf : String → HostRecord → Type 0
IsTxtOf name h = (h.type ≡ "TXT") × (h.name ≡ name)

select-append_txt :
    (test : HostRecord → Bool) (name value : String) (hosts : List HostRecord)
    → SeesOthers name test
    → select test (hosts ++ txt_record name value ∷ []) ≡ select test hosts
unfolding select
select-append_txt test name value [] sees = ground (arith, sees (txt_record name value) refl refl)
select-append_txt test name value (h ∷ hosts) sees =
    ground (arith, select-append_txt test name value hosts sees)

select-without_txt :
    (test : HostRecord → Bool) (name : String) (hosts : List HostRecord)
    → SeesOthers name test
    → select test (without_txt name hosts) ≡ select test hosts
unfolding select
select-without_txt test name [] sees = refl
select-without_txt test name (h ∷ hosts) sees =
    let ih = select-without_txt test name hosts sees in
    elim (Bool-cases (is_txt_of name h)) [
      | inl e ↦
          let hidden : test h ≡ false =
            sees h (ground (arith, eq_iff h.type "TXT")) (ground (arith, eq_iff h.name name)) in
          rw (e, hidden) ih
      | inr e ↦ rw e (ground arith)
    ]

without_txt-none :
    (name : String) (hosts : List HostRecord) → All (λ h. ¬ IsTxtOf name h) (without_txt name hosts)
without_txt-none name [] = tt
without_txt-none name (h ∷ hosts) =
    let ih = without_txt-none name hosts in
    elim (Bool-cases (is_txt_of name h)) [
      | inl e ↦ rw e ih
      | inr e ↦ rw e (λ is. ground (arith, eq_iff h.type "TXT", eq_iff h.name name, is.0, is.1), ih)
    ]

unchanged :
    (test : HostRecord → Bool) (hosts old new : List HostRecord)
    → select test new ≡ select test old
    → (hosts ≡ old) ⊎ (hosts ≡ new)
    → select test hosts ≡ select test old
unchanged test hosts old new e (inl h) = ap (select test) h
unchanged test hosts old new e (inr h) = ap (select test) h ∙ e

module _ {S : Type 0} (s : NamecheapSettings) (api : Api S) (sld tld : String)
    (zone : S → List HostRecord) (honest : Honest s api sld tld zone) (overrides : List String)
    (domain : String) (e : split_domain (apex_domain domain overrides) ≡ some (sld, tld)) where
  abbrev pub apex : String
  apex = apex_domain domain overrides

  -- The name of the challenge's record, relative to the apex.
  abbrev pub record_name : String
  record_name = remove_suffix (challenge_name domain) ("." <> apex)

  -- The records of the domain at Namecheap before the challenge (`st`), when its record was set, and
  -- when the record was removed. If `fulfill_dns_01` returns `True`, the record with the value is
  -- there, after all the old ones. The removal leaves no TXT record of the challenge's name, or it
  -- changes nothing. Whichever calls fail, all records but the TXT records of the challenge's name are
  -- what they were, in their order, at both times: whatever test one selects them by.
  pub challenge_round :
      (value : String) (st : S)
      → let during = fulfill_dns_01 (namecheap_provider s api) overrides domain value st in
        let afterwards = clear_dns_01 (namecheap_provider s api) overrides domain during.1 in
        (during.0 ≡ true → zone during.1 ≡ zone st ++ txt_record record_name value ∷ [])
        × ((zone afterwards ≡ zone during.1) ⊎ All (λ h. ¬ IsTxtOf record_name h) (zone afterwards))
        × ((test : HostRecord → Bool)
            → SeesOthers record_name test
            → (select test (zone during.1) ≡ select test (zone st))
              × (select test (zone afterwards) ≡ select test (zone st)))
  unfolding fulfill_dns_01 clear_dns_01
  challenge_round value st =
      let writes = either_txt-Writes s api sld tld zone honest apex (challenge_name domain) e in
      let new = zone st ++ txt_record record_name value ∷ [] in
      let set = set_txt s api apex (challenge_name domain) value st in
      let (there, either) = returned-Writes zone set (zone st) new ((writes st).0 value) in
      let during = (returned set).1 in
      let cleared = delete_txt s api apex (challenge_name domain) during in
      let removal =
        Writes-either zone cleared (zone during) (without_txt record_name (zone during))
          (writes during).1 in
      (
        there,
        (elim removal [
          | inl same ↦ inl same
          | inr less ↦ inr (
              subst (All (λ h. ¬ IsTxtOf record_name h)) (sym less)
                (without_txt-none record_name (zone during)))
        ]),
        λ test sees.
            let same =
              unchanged test (zone during) (zone st) new
                (select-append_txt test record_name value (zone st) sees) either in
            (
              same,
              unchanged test (zone cleared.1) (zone during) (without_txt record_name (zone during))
                    (select-without_txt test record_name (zone during) sees) removal
                  ∙ same,
            ),
      )
