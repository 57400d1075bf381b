-- ===== src/Dns/Namecheap/Zone.antt =====
-- What `set_txt` and `delete_txt` do to the records of a domain, if the API keeps its contract.
use jackdaw.Dns.{remove_suffix}
use jackdaw.Dns.Namecheap.{
  Api, NamecheapSettings, HostRecord, Params, Reply, base_params, check_status, host_record,
  get_hosts, set_hosts, set_txt, delete_txt, txt_record, without_txt, host_params, split_domain,
  write_if_shorter, is_txt_of, apply, remove_txt,
}
use jackdaw.Dns.Namecheap.Params.{hosts_of_params, hosts_of_params-host_params}
use jackdaw.Result.{Result, ok, raised, uncaught}
use jackdaw.Exec.{Exec, continue, lift, pure, ◌>>◌}
use jackdaw.Base.{
  length, ◌<>◌, String, List, ◌++◌, ◌≡◌, map, ◌⊎◌, inl, ◌∙◌, refl, Bool-cases, some, inr, ltb, ◌∷◌,
  [], ℕ, ◌≤◌, sym, suc, arith, ap,
}
use jackdaw.Dns.Namecheap.{append_txt}

abbrev pub get_hosts_params : NamecheapSettings → String → String → Params
get_hosts_params s sld tld = base_params s "namecheap.domains.dns.getHosts" sld tld

abbrev pub set_hosts_params : NamecheapSettings → String → String → List HostRecord → Params
set_hosts_params s sld tld hosts =
    base_params s "namecheap.domains.dns.setHosts" sld tld ++ host_params 1 hosts

-- The contract of the API for one domain: `getHosts` changes nothing, and a reply with the status
-- `OK` has the domain's records; `setHosts` replaces them all by the numbered hosts, with the status
-- `OK` only then, or fails.
pub record Honest {S : Type 0} (s : NamecheapSettings) (api : Api S) (sld tld : String)
    (zone : S → List HostRecord) : Type 0 where
  pub get_keeps : (st : S) → zone (api.get (get_hosts_params s sld tld) st).1 ≡ zone st
  pub get_reads :
      (st : S) (r : Reply)
      → (api.get (get_hosts_params s sld tld) st).0 ≡ ok r
      → check_status r ≡ ok tt
      → map host_record r.hosts ≡ zone st
  pub post_replaces :
      (st : S) (hosts : List HostRecord)
      → (zone (api.post (set_hosts_params s sld tld hosts) st).1 ≡ zone st)
        ⊎ (zone (api.post (set_hosts_params s sld tld hosts) st).1
            ≡ hosts_of_params (set_hosts_params s sld tld hosts))
  pub post_ok :
      (st : S) (hosts : List HostRecord) (r : Reply)
      → (api.post (set_hosts_params s sld tld hosts) st).0 ≡ ok r
      → check_status r ≡ ok tt
      → zone (api.post (set_hosts_params s sld tld hosts) st).1
        ≡ hosts_of_params (set_hosts_params s sld tld hosts)

-- An operation's outcome: after a return the records are `new`, after an exception `new` or `old`.
abbrev pub Writes :
    {S : Type 0}
    → (S → List HostRecord)
    → Result (Unit {0}) × S
    → (old new : List HostRecord) → Type 0
Writes zone (ok _, st) old new = zone st ≡ new
Writes zone (raised _, st) old new = (zone st ≡ old) ⊎ (zone st ≡ new)
Writes zone (uncaught, st) old new = (zone st ≡ old) ⊎ (zone st ≡ new)

retarget :
    {a b b' c c' : List HostRecord} → (a ≡ b) ⊎ (a ≡ c) → b ≡ b' → c ≡ c' → (a ≡ b') ⊎ (a ≡ c')
retarget (inl e) p q = inl (e ∙ p)
retarget (inr e) p q = inr (e ∙ q)

module _ {S : Type 0} (zone : S → List HostRecord) (old new : List HostRecord) (st : S)
    (either : (zone st ≡ old) ⊎ (zone st ≡ new)) where
  Writes-result :
      (c : Result (Unit {0})) → (c ≡ ok tt → zone st ≡ new) → Writes zone (c, st) old new
  Writes-result (ok tt) done = done refl
  Writes-result (raised e) done = either
  Writes-result uncaught done = either

  Writes-reply :
      (res : Result Reply)
      → ((r : Reply) → res ≡ ok r → check_status r ≡ ok tt → zone st ≡ new)
      → Writes zone (continue res (λ r. lift (check_status r)) st) old new
  Writes-reply (ok r) done = Writes-result (check_status r) (done r refl)
  Writes-reply (raised e) done = either
  Writes-reply uncaught done = either

-- A read of the records that changes nothing and returns them, or raises.
abbrev Reads :
    {S : Type 0} → (S → List HostRecord) → Result (List HostRecord) × S → List HostRecord → Type 0
Reads zone (ok hosts, st) old = (zone st ≡ old) × (hosts ≡ old)
Reads zone (raised _, st) old = zone st ≡ old
Reads zone (uncaught, st) old = zone st ≡ old

module _ {S : Type 0} (zone : S → List HostRecord) (old : List HostRecord) (st : S)
    (kept : zone st ≡ old) where
  Reads-checked :
      (c : Result (Unit {0})) (hosts : List HostRecord)
      → (c ≡ ok tt → hosts ≡ old)
      → Reads zone (continue c (λ _. pure hosts) st) old
  Reads-checked (ok tt) hosts same = (kept, same refl)
  Reads-checked (raised e) hosts same = kept
  Reads-checked uncaught hosts same = kept

  Reads-reply :
      (res : Result Reply)
      → ((r : Reply) → res ≡ ok r → check_status r ≡ ok tt → map host_record r.hosts ≡ old)
      → Reads zone
          (continue res (λ r. lift (check_status r) >> pure (map host_record r.hosts)) st)
          old
  Reads-reply (ok r) same = Reads-checked (check_status r) (map host_record r.hosts) (same r refl)
  Reads-reply (raised e) same = kept
  Reads-reply uncaught same = kept

-- After a read, what the write does with the same records.
Writes-read :
    {S : Type 0} (zone : S → List HostRecord) (old new : List HostRecord)
    (res : Result (List HostRecord) × S) (next : List HostRecord → Exec S (Unit {0}))
    → Reads zone res old
    → ((st : S) → zone st ≡ old → Writes zone (next old st) old new)
    → Writes zone (continue res.0 next res.1) old new
Writes-read zone old new (ok hosts, st) next (k, e) writes = rw e (writes st k)
Writes-read zone old new (raised e, st) next h writes = inl h
Writes-read zone old new (uncaught, st) next h writes = inl h

removed : {n m : ℕ} → n ≤ m → suc m ≤ n → ⊥
removed h k = omega arith

shorter : {n m : ℕ} → suc n ≤ suc m → n ≤ m
shorter h = omega arith

length-without_txt :
    (name : String) (hosts : List HostRecord) → length (without_txt name hosts) ≤ length hosts
length-without_txt name [] = omega arith
length-without_txt name (h ∷ hosts) = let ih = length-without_txt name hosts in ground arith

pub without_txt-same :
    (name : String) (hosts : List HostRecord)
    → length hosts ≤ length (without_txt name hosts)
    → without_txt name hosts ≡ hosts
without_txt-same name [] h = refl
without_txt-same name (r ∷ hosts) h = elim (Bool-cases (is_txt_of name r)) [
  | inl e ↦ absurd (removed (length-without_txt name hosts) (rw e at h))
  | inr e ↦ rw e (ap (λ l. r ∷ l) (without_txt-same name hosts (shorter (rw e at h))))
]

module _ {S : Type 0} (s : NamecheapSettings) (api : Api S) (domain name : String)
    (sld tld : String) (e : split_domain domain ≡ some (sld, tld)) where
  set_txt-split :
      (value : String) (st : S)
      → set_txt s api domain name value st
        ≡ continue
            (get_hosts s api sld tld st).0
            (λ hosts.
              set_hosts s api sld tld
                (hosts ++ txt_record (remove_suffix name ("." <> domain)) value ∷ []))
            (get_hosts s api sld tld st).1
  unfolding set_txt
  set_txt-split value st = rw e refl

  delete_txt-split :
      (st : S)
      → delete_txt s api domain name st
        ≡ continue
            (get_hosts s api sld tld st).0
            (write_if_shorter s api sld tld (remove_suffix name ("." <> domain)))
            (get_hosts s api sld tld st).1
  unfolding delete_txt
  delete_txt-split st = rw e refl

module _ {S : Type 0} (s : NamecheapSettings) (api : Api S) (sld tld : String)
    (zone : S → List HostRecord) (honest : Honest s api sld tld zone) where
  set_hosts-Writes :
      (st : S) (old hosts : List HostRecord)
      → zone st ≡ old
      → Writes zone (set_hosts s api sld tld hosts st) old hosts
  unfolding set_hosts
  set_hosts-Writes st old hosts e =
      let read = hosts_of_params-host_params s "namecheap.domains.dns.setHosts" sld tld hosts in
      let params = set_hosts_params s sld tld hosts in
      Writes-reply zone old hosts (api.post params st).1
        (retarget (honest.post_replaces st hosts) e read) (api.post params st).0
        (λ r h c. honest.post_ok st hosts r h c ∙ read)

  get_hosts-Reads : (st : S) → Reads zone (get_hosts s api sld tld st) (zone st)
  unfolding get_hosts
  get_hosts-Reads st =
      let params = get_hosts_params s sld tld in
      Reads-reply zone (zone st) (api.get params st).1 (honest.get_keeps st) (api.get params st).0
        (honest.get_reads st)

  write_if_shorter-Writes :
      (st : S) (old : List HostRecord) (name : String)
      → zone st ≡ old
      → Writes zone (write_if_shorter s api sld tld name old st) old (without_txt name old)
  write_if_shorter-Writes st old name e =
      elim (Bool-cases (ltb (length (without_txt name old)) (length old))) [
        | inl h ↦ rw h (set_hosts-Writes st old (without_txt name old) e)
        | inr h ↦ rw h (e ∙ sym (without_txt-same name old (ground arith)))
      ]

  module _ (domain name : String) (e : split_domain domain ≡ some (sld, tld)) where
    abbrev pub rel_name : String
    rel_name = remove_suffix name ("." <> domain)

    set_txt-Writes :
        (value : String) (st : S)
        → Writes zone
            (set_txt s api domain name value st)
            (zone st)
            (apply (append_txt rel_name value) (zone st))
    set_txt-Writes value st =
        let new = apply (append_txt rel_name value) (zone st) in
        rw (set_txt-split s api domain name sld tld e value st) (
          Writes-read zone (zone st) new (get_hosts s api sld tld st)
            (λ hosts. set_hosts s api sld tld (hosts ++ txt_record rel_name value ∷ []))
            (get_hosts-Reads st) (λ st' k. set_hosts-Writes st' (zone st) new k))

    delete_txt-Writes :
        (st : S)
        → Writes zone
            (delete_txt s api domain name st)
            (zone st)
            (apply (remove_txt rel_name) (zone st))
    delete_txt-Writes st = rw (delete_txt-split s api domain name sld tld e st) (
        Writes-read zone (zone st) (without_txt rel_name (zone st)) (get_hosts s api sld tld st)
          (write_if_shorter s api sld tld rel_name) (get_hosts-Reads st)
          (λ st' k. write_if_shorter-Writes st' (zone st) rel_name k))

    -- For a domain with a dot, `set_txt` appends one TXT record to its records, and `delete_txt`
    -- removes exactly the TXT records of the name, and neither changes another record. If one
    -- raises, it did this or nothing.
    pub either_txt-Writes :
        (st : S)
        → ((value : String)
            → Writes zone
                (set_txt s api domain name value st)
                (zone st)
                (apply (append_txt rel_name value) (zone st)))
          × Writes zone
              (delete_txt s api domain name st)
              (zone st)
              (apply (remove_txt rel_name) (zone st))
    either_txt-Writes st = ((λ value. set_txt-Writes value st), delete_txt-Writes st)
