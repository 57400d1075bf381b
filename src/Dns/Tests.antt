-- ===== src/Dns/Tests.antt =====
-- The providers at concrete names, and a run of two tasks.
use jackdaw.Dns.Route53.{Remote}
use jackdaw.Dns.Route53.Lingering.{RefusesDuplicates, fulfill_each, fulfill_dns_01_blocked}
use jackdaw.Dns.Sigv4.{Hashes, canonical_qs, sort_params}
use jackdaw.Upstream.Dns01.{challenge_name}
use jackdaw.Dns.{get_provider, registry, null_provider, remove_suffix}
use jackdaw.Dns.Namecheap.{HostRecord, Act, append_txt, apply, txt_record}
use jackdaw.Dns.Namecheap.Steps.{
  Shared, enter, read, fails, write, Run, done, more, replay, may_enter,
}
use jackdaw.Dns.Namecheap.Locking.{Has, Spares, locked_replay}
use jackdaw.Result.{ok, uncaught, Result}
use jackdaw.Base.{
  some, List, String, ◌≡◌, ℕ, ◌∷◌, [], Option, refl, none, ◌++◌, if◌then◌else◌, arith, ap, All,
  ◌==◌, false,
}
use jackdaw.Dns.Samples.{mail}

relative_name : remove_suffix "_acme-challenge.a.example.com" ".example.com" ≡ "_acme-challenge.a"
unfolding remove_suffix
relative_name = refl

unknown_provider : get_provider {S = ℕ} (λ c. ok null_provider) "bind" ≡ uncaught
unfolding get_provider registry
unknown_provider = refl

abbrev first : Act
first = append_txt "_acme-challenge.a" "v1"

abbrev second : Act
second = append_txt "_acme-challenge.b" "v2"

abbrev inside : List HostRecord → Act → Option (List HostRecord) → Shared
inside hosts a snapshot = record {
  hosts = hosts;
  inside = record { act = a; snapshot = snapshot } ∷ [];
}

abbrev outside : List HostRecord → Shared
outside hosts = record { hosts = hosts; inside = [] }

-- The first operation fails once, is tried again, and the second one follows.
two_tasks :
    Run
      (outside (mail ∷ []))
      (first ∷ second ∷ [])
      (outside (apply second (apply first (mail ∷ []))))
unfolding may_enter
two_tasks = more none _ _ _ _ (enter first _ (inside (mail ∷ []) first none) refl refl) (
    more none _ _ _ _
      (fails [] [] (record { act = first; snapshot = none }) _ (outside (mail ∷ [])) refl refl)
      (more none _ _ _ _ (enter first _ (inside (mail ∷ []) first none) refl refl) (
        more none _ _ _ _
          (read [] [] first _ (inside (mail ∷ []) first (some (mail ∷ []))) refl refl)
          (more (some first) _ _ _ _
            (write [] [] first (mail ∷ []) _ (outside (apply first (mail ∷ []))) refl refl refl)
            (more none _ _ _ _
              (enter second _ (inside (apply first (mail ∷ [])) second none) refl refl)
              (more none _ _ _ _
                (read [] [] second _
                  (inside (apply first (mail ∷ [])) second (some (apply first (mail ∷ [])))) refl
                  refl)
                (more (some second) _ _ _ _
                  (write [] [] second (apply first (mail ∷ [])) _
                    (outside (apply second (apply first (mail ∷ [])))) refl refl refl)
                  (done _))))))))

locked_replay_example :
    (apply second (apply first (mail ∷ [])) ≡ replay (first ∷ second ∷ []) (mail ∷ []))
    × ((before after : List Act) (name value : String)
        → first ∷ second ∷ [] ≡ before ++ append_txt name value ∷ after
        → Spares name after
        → Has (txt_record name value) (apply second (apply first (mail ∷ []))))
locked_replay_example =
    locked_replay (first ∷ second ∷ []) (outside (mail ∷ []))
      (outside (apply second (apply first (mail ∷ [])))) refl two_tasks

-- A zone with one name, which may have a record set.
abbrev only_name : String
only_name = "_acme-challenge.a.example.com"

abbrev posted : Option (List String) → Result (Unit {0}) × Option (List String)
posted none = (ok tt, some ("v" ∷ []))
posted (some there) = (uncaught, some there)

abbrev aws : Remote (Option (List String))
aws = record {
  api = record {
    get = λ path query headers st.
        (ok (record { zone_id = some "/hostedzone/Z1"; record_set = none }), st);
    post = λ path body headers st. posted st;
  };
  hashes = record {
    sha256_hex = λ s. s;
    mac = λ key s. key;
    mac_hex = λ key s. s;
    encode = λ s. [];
    quote = λ s. s;
  };
  sign = λ method path query body. [];
  escape = λ s. s;
}

abbrev txt_sets : Option (List String) → String → Option (List String)
txt_sets st name = if name == only_name then st else none

posted-some :
    (st : Option (List String)) (name : String) (there : List String)
    → txt_sets st name ≡ some there
    → (posted st).0 ≡ uncaught
posted-some none name there h = ground arith
posted-some (some vs) name there h = refl

posted-same :
    (st : Option (List String)) (name : String) (there : List String)
    → txt_sets st name ≡ some there
    → (posted st).1 ≡ st
posted-same none name there h = ground arith
posted-same (some vs) name there h = refl

aws-RefusesDuplicates : RefusesDuplicates aws txt_sets
aws-RefusesDuplicates = record {
  get_keeps = λ path query headers st. refl;
  create_refused = λ path name values there headers st h.
      (posted-some st name there h, ap txt_sets (posted-same st name there h));
}

fulfill_dns_01_blocked_example :
    All
      (λ answer. answer ≡ false)
      (fulfill_each aws [] "a.example.com" ("v1" ∷ "v2" ∷ []) (some ("old" ∷ []))).0
    × (txt_sets
          (fulfill_each aws [] "a.example.com" ("v1" ∷ "v2" ∷ []) (some ("old" ∷ []))).1
          (challenge_name "a.example.com")
        ≡ some ("old" ∷ []))
fulfill_dns_01_blocked_example =
    fulfill_dns_01_blocked aws txt_sets [] "a.example.com" ("old" ∷ []) ("v1" ∷ "v2" ∷ [])
      (some ("old" ∷ [])) aws-RefusesDuplicates refl

abbrev small_hashes : Hashes
small_hashes = aws.hashes

query_sorted :
    canonical_qs small_hashes (("type", "TXT") ∷ ("maxitems", "1") ∷ []) ≡ "maxitems=1&type=TXT"
unfolding canonical_qs sort_params
query_sorted = refl
