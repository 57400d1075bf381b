-- ===== src/Dns/Route53/Lingering.antt =====
-- A record set that a failed `clear_dns_01` left behind at Route 53.
use jackdaw.Dns.Route53.{
  Remote, Listing, route53_provider, create_txt, find_zone, change, change_xml, last_of,
}
use jackdaw.Upstream.Dns01.{fulfill_dns_01, challenge_name, returned}
use jackdaw.Upstream.{apex_domain}
use jackdaw.Dns.Route53.{rrset_path}
use jackdaw.Dns.Sigv4.{canonical_qs}
use jackdaw.Exec.{◌>>=◌, continue, lift, pure}
use jackdaw.Result.{Result, ok, raised, uncaught, or_crash}
use jackdaw.Config.{split_at}
use jackdaw.Base.{
  String, Option, List, ◌≡◌, some, false, ◌∷◌, ◌<>◌, [], ap, ◌∙◌, refl, Bool, All, none,
}

-- What Route 53 documents: a reading changes no record set, and a change with the action CREATE is
-- refused as a whole if there is a record set of that name and type.
pub record RefusesDuplicates {S : Type 0} (remote : Remote S)
    (txt_sets : S → String → Option (List String)) : Type 0 where
  pub get_keeps :
      (path query : String) (headers : List (String × String)) (st : S)
      → txt_sets (remote.api.get path query headers st).1 ≡ txt_sets st
  pub create_refused :
      (path name : String) (values there : List String) (headers : List (String × String)) (st : S)
      → txt_sets st name ≡ some there
      → ((remote.api.post path (change_xml remote.escape "CREATE" name values) headers st).0
          ≡ uncaught)
        × (txt_sets
              (remote.api.post path (change_xml remote.escape "CREATE" name values) headers st).1
            ≡ txt_sets st)

-- The call raises, and the record set is what it was.
abbrev Blocked :
    {S : Type 0}
    → (S → String → Option (List String))
    → String
    → List String
    → Result (Unit {0}) × S
    → Type 0
Blocked txt_sets name there res =
    ((returned res).0 ≡ false) × (txt_sets (returned res).1 name ≡ some there)

-- Reading the listing changes nothing more.
parsed_state :
    {S : Type 0} (id : Option String) (st : S)
    → (continue (or_crash id) (λ t. pure (last_of (split_at b'/' t))) st).1 ≡ st
parsed_state none st = refl
parsed_state (some t) st = refl

listed_state :
    {S : Type 0} (res : Result Listing) (st : S)
    → (continue res (λ r. lift (or_crash r.zone_id) >>= λ t. pure (last_of (split_at b'/' t))) st).1
      ≡ st
listed_state (ok r) st = parsed_state r.zone_id st
listed_state (raised e) st = refl
listed_state uncaught st = refl

module _ {S : Type 0} (remote : Remote S) (txt_sets : S → String → Option (List String))
    (contract : RefusesDuplicates remote txt_sets) (name : String) (there : List String) where
  refused_change :
      (res : Result (Unit {0})) (st : S)
      → res ≡ uncaught
      → txt_sets st name ≡ some there
      → Blocked txt_sets name there (res, st)
  refused_change (ok x) st e h = absurd (cc)
  refused_change (raised x) st e h = (refl, h)
  refused_change uncaught st e h = (refl, h)

  change-Blocked :
      (zone_id value : String) (st : S)
      → txt_sets st name ≡ some there
      → Blocked txt_sets name there
          (change remote zone_id (change_xml remote.escape "CREATE" name (value ∷ [])) st)
  change-Blocked zone_id value st h =
      let (e, keeps) =
        contract.create_refused (rrset_path zone_id) name (value ∷ []) there
          (remote.sign "POST" (rrset_path zone_id) "" request_body) st h in
      refused_change (change remote zone_id request_body st).0
        (change remote zone_id request_body st).1 e
        (ap (λ (f : String → Option (List String)). f name) keeps ∙ h)
    where
      request_body : String
      request_body = change_xml remote.escape "CREATE" name (value ∷ [])

  after_zone :
      (res : Result String) (st : S) (value : String)
      → txt_sets st name ≡ some there
      → Blocked txt_sets name there (
          continue res
            (λ zone_id. change remote zone_id (change_xml remote.escape "CREATE" name (value ∷ [])))
            st)
  after_zone (ok zone_id) st value h = change-Blocked zone_id value st h
  after_zone (raised e) st value h = (refl, h)
  after_zone uncaught st value h = (refl, h)

  find_zone-keeps :
      (domain : String) (st : S) → txt_sets (find_zone remote domain st).1 ≡ txt_sets st
  unfolding find_zone
  find_zone-keeps domain st =
      let query = canonical_qs remote.hashes (("dnsname", domain) ∷ ("maxitems", "1") ∷ []) in
      let headers = remote.sign "GET" "/2013-04-01/hostedzonesbyname" query "" in
      let got = remote.api.get "/2013-04-01/hostedzonesbyname" query headers st in
      ap txt_sets (listed_state got.0 got.1)
      ∙ contract.get_keeps "/2013-04-01/hostedzonesbyname" query headers st

  create_txt-Blocked :
      (domain value : String) (st : S)
      → txt_sets st name ≡ some there
      → Blocked txt_sets name there (create_txt remote domain name value st)
  unfolding create_txt
  create_txt-Blocked domain value st h =
      after_zone (find_zone remote domain st).0 (find_zone remote domain st).1
        ("\"" <> (value <> "\""))
        (ap (λ (f : String → Option (List String)). f name) (find_zone-keeps domain st) ∙ h)

-- Challenges of one domain, one after the other, each with the value of its own key authorization.
unfoldable pub fulfill_each :
    {S : Type 0} → Remote S → List String → String → List String → S → List Bool × S
unfolding fulfill_dns_01
fulfill_each remote overrides domain [] st = ([], st)
fulfill_each remote overrides domain (value ∷ values) st =
    let now = fulfill_dns_01 (route53_provider remote) overrides domain value st in
    let later = fulfill_each remote overrides domain values now.1 in (now.0 ∷ later.0, later.1)

-- At Route 53, a TXT record of the challenge's name that is still there blocks the domain: every later
-- call of `fulfill_dns_01` for it returns `False`, and the record stays.
pub fulfill_dns_01_blocked :
    {S : Type 0} (remote : Remote S) (txt_sets : S → String → Option (List String))
    (overrides : List String) (domain : String) (there values : List String) (st : S)
    → RefusesDuplicates remote txt_sets
    → txt_sets st (challenge_name domain) ≡ some there
    → All (λ answer. answer ≡ false) (fulfill_each remote overrides domain values st).0
      × (txt_sets (fulfill_each remote overrides domain values st).1 (challenge_name domain)
          ≡ some there)
unfolding fulfill_each fulfill_dns_01
fulfill_dns_01_blocked remote txt_sets overrides domain there [] st contract h = (tt, h)
fulfill_dns_01_blocked remote txt_sets overrides domain there (value ∷ values) st contract h =
    let (no_record, kept) =
      create_txt-Blocked remote txt_sets contract (challenge_name domain) there
        (apex_domain domain overrides) value st h in
    let now = (fulfill_dns_01 (route53_provider remote) overrides domain value st).1 in
    let (others, end) =
      fulfill_dns_01_blocked remote txt_sets overrides domain there values now contract kept in
    ((no_record, others), end)
