-- ===== src/Dns/Namecheap/Params.antt =====
-- The numbered parameters of `namecheap.domains.dns.setHosts`, read as the API documents them.
use jackdaw.Dns.Namecheap.{
  Key, Params, HostRecord, host_params, base_params, NamecheapSettings, api_user_key, api_key_key,
  user_name_key, client_ip_key, command_key, sld_key, tld_key, host_name, record_type, host_address,
  host_mx_pref, host_ttl, get_attr,
}
use mathlib.Core.List.{append-nil, append_assoc}
use jackdaw.Base.{
  length, ℕ, Bool, Option, List, eqb, String, [], suc, All, ◌≡◌, ◌∷◌, ◌++◌, none, ◌&&◌,
  if◌then◌else◌, ◌<◌, arith, some, refl, zero, ◌∙◌, ap, All-append, ◌≤◌, length-append, sym,
}

abbrev tag : Key → ℕ
tag api_user_key = 0
tag api_key_key = 1
tag user_name_key = 2
tag client_ip_key = 3
tag command_key = 4
tag sld_key = 5
tag tld_key = 6
tag (host_name i) = 7
tag (record_type i) = 8
tag (host_address i) = 9
tag (host_mx_pref i) = 10
tag (host_ttl i) = 11

-- The number in a key, and 0 where there is none.
abbrev index : Key → ℕ
index api_user_key = 0
index api_key_key = 0
index user_name_key = 0
index client_ip_key = 0
index command_key = 0
index sld_key = 0
index tld_key = 0
index (host_name i) = i
index (record_type i) = i
index (host_address i) = i
index (host_mx_pref i) = i
index (host_ttl i) = i

abbrev same_key : Key → Key → Bool
same_key a b = eqb (tag a) (tag b) && eqb (index a) (index b)

unfoldable param : Key → Params → Option String
param key [] = none
param key ((k, v) ∷ rest) = let found = param key rest in if same_key k key then some v else found

abbrev with_values :
    Option String
    → Option String
    → Option String
    → Option String
    → Option String
    → Option HostRecord
with_values none t a m l = none
with_values (some n) t a m l = some (record {
  name = n;
  type = get_attr t "";
  address = get_attr a "";
  mx_pref = get_attr m "10";
  ttl = get_attr l "1800";
})

-- The host number `i`, if its name is given.
unfoldable host_at : ℕ → Params → Option HostRecord
unfolding param
host_at i ps =
    with_values (param (host_name i) ps) (param (record_type i) ps) (param (host_address i) ps)
      (param (host_mx_pref i) ps) (param (host_ttl i) ps)

-- The hosts number `i`, `i + 1` and so on, up to the first number that is not given; `fuel` is more
-- than their number.
unfoldable pub numbered_hosts : ℕ → ℕ → Params → List HostRecord
unfolding host_at
numbered_hosts zero i ps = []
numbered_hosts (suc fuel) i ps =
    let rest = numbered_hosts fuel (suc i) ps in
    elim (host_at i ps) [ none ↦ [] | some h ↦ h ∷ rest ]

-- As many parameters are more than the hosts they number.
unfoldable pub hosts_of_params : Params → List HostRecord
unfolding numbered_hosts
hosts_of_params ps = numbered_hosts (suc (length ps)) 1 ps

-- Keys with a number below `i`.
abbrev Below : ℕ → Params → Type 0
Below i ps = All (λ (p : Key × String). index p.0 < i) ps

param-Below :
    (i : ℕ) (key : Key) (before ps : Params)
    → index key ≡ i
    → Below i before
    → param key (before ++ ps) ≡ param key ps
unfolding param
param-Below i key [] ps e h = refl
param-Below i key ((k, v) ∷ before) ps e (lt, h) =
    let ih = param-Below i key before ps e h in ground arith

Below-later : (i : ℕ) (ps : Params) → Below i ps → Below (suc i) ps
Below-later i [] h = tt
Below-later i ((k, v) ∷ ps) (lt, h) = (omega arith, Below-later i ps h)

abbrev entries : ℕ → HostRecord → Params
entries i h =
    (host_name i, h.name)
    ∷ (record_type i, h.type)
    ∷ (host_address i, h.address)
    ∷ (host_mx_pref i, h.mx_pref)
    ∷ (host_ttl i, h.ttl)
    ∷ []

read_back : (i : ℕ) (h : HostRecord) (ps : Params) → host_at i (entries i h ++ ps) ≡ some h
unfolding host_at param
read_back i h ps = ground arith

host_at-append :
    (i : ℕ) (before ps : Params) → Below i before → host_at i (before ++ ps) ≡ host_at i ps
unfolding host_at
host_at-append i before ps lt =
    rw
      (
        param-Below i (host_name i) before ps refl lt,
        param-Below i (record_type i) before ps refl lt,
        param-Below i (host_address i) before ps refl lt,
        param-Below i (host_mx_pref i) before ps refl lt,
        param-Below i (host_ttl i) before ps refl lt,
      )
      refl

host_at-entries :
    (i : ℕ) (h : HostRecord) (before ps : Params)
    → Below i before
    → host_at i (before ++ (entries i h ++ ps)) ≡ some h
host_at-entries i h before ps lt = host_at-append i before (entries i h ++ ps) lt ∙ read_back i h ps

param-none :
    (i : ℕ) (key : Key) (before : Params) → index key ≡ i → Below i before → param key before ≡ none
unfolding param
param-none i key [] e h = refl
param-none i key ((k, v) ∷ before) e (lt, h) = let ih = param-none i key before e h in ground arith

host_at-Below : (i : ℕ) (before : Params) → Below i before → host_at i before ≡ none
unfolding host_at
host_at-Below i before h = rw (param-none i (host_name i) before refl h) refl

Below-entries : (i : ℕ) (h : HostRecord) → Below (suc i) (entries i h)
Below-entries i h = (omega arith, (omega arith, (omega arith, (omega arith, (omega arith, tt)))))

numbered_hosts-none :
    (fuel i : ℕ) (ps : Params) → host_at i ps ≡ none → numbered_hosts (suc fuel) i ps ≡ []
unfolding numbered_hosts
numbered_hosts-none fuel i ps e = rw (numbered_hosts, e) refl

numbered_hosts-some :
    (fuel i : ℕ) (ps : Params) (h : HostRecord)
    → host_at i ps ≡ some h
    → numbered_hosts (suc fuel) i ps ≡ h ∷ numbered_hosts fuel (suc i) ps
unfolding numbered_hosts
numbered_hosts-some fuel i ps h e = rw (numbered_hosts, e) refl

numbered_hosts-host_params :
    (fuel i : ℕ) (hosts : List HostRecord) (before : Params)
    → Below i before
    → length hosts < fuel
    → numbered_hosts fuel i (before ++ host_params i hosts) ≡ hosts
numbered_hosts-host_params zero i hosts before h lt = absurd (omega arith)
numbered_hosts-host_params (suc fuel) i [] before h lt =
    rw (append-nil before) (numbered_hosts-none fuel i before (host_at-Below i before h))
numbered_hosts-host_params (suc fuel) i (r ∷ hosts) before h lt =
    let more = host_params (suc i) hosts in
    let below =
      All-append (λ (p : Key × String). index p.0 < suc i) before (entries i r)
        (Below-later i before h) (Below-entries i r) in
    let ih =
      numbered_hosts-host_params fuel (suc i) hosts (before ++ entries i r) below (omega arith) in
    numbered_hosts-some fuel i (before ++ (entries i r ++ more)) r
      (host_at-entries i r before more h)
    ∙ ap (λ l. r ∷ l)
        (ap (numbered_hosts fuel (suc i)) (sym (append_assoc before (entries i r) more)) ∙ ih)

length-host_params : (i : ℕ) (hosts : List HostRecord) → length hosts ≤ length (host_params i hosts)
length-host_params i [] = omega arith
length-host_params i (h ∷ hosts) = omega (arith, length-host_params (suc i) hosts)

-- The API reads the hosts that were numbered.
pub hosts_of_params-host_params :
    (s : NamecheapSettings) (command sld tld : String) (hosts : List HostRecord)
    → hosts_of_params (base_params s command sld tld ++ host_params 1 hosts) ≡ hosts
unfolding hosts_of_params
hosts_of_params-host_params s command sld tld hosts =
    let base = base_params s command sld tld in
    numbered_hosts-host_params (suc (length (base ++ host_params 1 hosts))) 1 hosts base
      (omega arith)
      (rw (length-append base (host_params 1 hosts)) (omega (arith, length-host_params 1 hosts)))
