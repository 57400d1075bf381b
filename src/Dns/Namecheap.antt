-- ===== src/Dns/Namecheap.antt =====
-- src/jackdaw/dns/providers/namecheap.py: its API replaces all the records of a domain on every write.
pub mod Params
pub mod Zone
pub mod Steps
pub mod Locking
use jackdaw.Dns.{DnsProvider, remove_suffix}
use jackdaw.Exec.{Exec, pure, lift, ◌>>=◌, ◌>>◌}
use jackdaw.Result.{Result, ok, uncaught, or_crash, expect}
use jackdaw.Base.{
  length, ◌<>◌, String, ℕ, List, Option, ◌==◌, none, ◌∷◌, map, ◌++◌, Bool, if◌then◌else◌, some, eqb,
  [], suc, ◌&&◌, ltb,
}
use mathlib.Core.Option
use Prim.Native.Char.{code}

pub record NamecheapSettings : Type 0 where
  pub api_user : String
  pub api_key : String
  pub username : String
  pub client_ip : String

pub record HostRecord : Type 0 where
  pub name : String
  pub type : String
  pub address : String
  pub mx_pref : String
  pub ttl : String

-- The keys of the parameters; `host_name i` is the text `HostName{i}`, and so on.
pub data Key : Type 0 where
  api_user_key api_key_key user_name_key client_ip_key command_key sld_key tld_key : Key
  host_name record_type host_address host_mx_pref host_ttl : ℕ → Key

abbrev pub Params : Type 0
Params = List (Key × String)

-- A reply: the `Status` attribute, the texts of the errors, and the attributes of the hosts.
pub record HostElement : Type 0 where
  pub name_attr : Option String
  pub type_attr : Option String
  pub address_attr : Option String
  pub mx_pref_attr : Option String
  pub ttl_attr : Option String

pub record Reply : Type 0 where
  pub status : Option String
  pub hosts : List HostElement

-- The two HTTP calls, up to the parsed XML of the reply. An exception of the call, of
-- `raise_for_status` or of the parser is `uncaught`.
pub record Api (S : Type 0) : Type 0 where
  pub get : Params → Exec S Reply
  pub post : Params → Exec S Reply

-- `domain.split(".", 1)`, which gives two parts if there is a dot, and else one, which is refused.
unfoldable pub split_domain : String → Option (String × String)
split_domain String.[] = none
split_domain (String.◌∷◌ c s) =
    let rest = split_domain s in
    if eqb (code c) b'.'
    then some ("", s)
    else Option.map (λ (p : String × String). (String.◌∷◌ c p.0, p.1)) rest

abbrev pub base_params : NamecheapSettings → String → String → String → Params
base_params s command sld tld =
    (api_user_key, s.api_user)
    ∷ (api_key_key, s.api_key)
    ∷ (user_name_key, if s.username == "" then s.api_user else s.username)
    ∷ (client_ip_key, s.client_ip)
    ∷ (command_key, command)
    ∷ (sld_key, sld)
    ∷ (tld_key, tld)
    ∷ []

abbrev pub get_attr : Option String → String → String
get_attr none default = default
get_attr (some v) default = v

abbrev pub host_record : HostElement → HostRecord
host_record h = record {
  name = get_attr h.name_attr "";
  type = get_attr h.type_attr "";
  address = get_attr h.address_attr "";
  mx_pref = get_attr h.mx_pref_attr "10";
  ttl = get_attr h.ttl_attr "1800";
}

-- Raises unless the status is `OK`.
abbrev pub check_status : Reply → Result (Unit {0})
check_status r = expect (get_attr r.status "" == "OK")

abbrev pub host_params : ℕ → List HostRecord → Params
host_params i [] = []
host_params i (h ∷ rest) =
    (host_name i, h.name)
    ∷ (record_type i, h.type)
    ∷ (host_address i, h.address)
    ∷ (host_mx_pref i, h.mx_pref)
    ∷ (host_ttl i, h.ttl)
    ∷ host_params (suc i) rest

module _ {S : Type 0} (s : NamecheapSettings) (api : Api S) where
  unfoldable pub get_hosts : String → String → Exec S (List HostRecord)
  get_hosts sld tld = do
    r ← api.get (base_params s "namecheap.domains.dns.getHosts" sld tld)
    lift (check_status r)
    pure (map host_record r.hosts)

  unfoldable pub set_hosts : String → String → List HostRecord → Exec S (Unit {0})
  set_hosts sld tld hosts = do
    r ← api.post (base_params s "namecheap.domains.dns.setHosts" sld tld ++ host_params 1 hosts)
    lift (check_status r)

abbrev pub txt_record : String → String → HostRecord
txt_record name value = record {
  name = name;
  type = "TXT";
  address = value;
  mx_pref = "10";
  ttl = "120";
}

abbrev pub is_txt_of : String → HostRecord → Bool
is_txt_of name h = h.type == "TXT" && h.name == name

-- `[h for h in hosts if not (h["type"] == "TXT" and h["name"] == rel_name)]`
abbrev pub without_txt : String → List HostRecord → List HostRecord
without_txt name [] = []
without_txt name (h ∷ rest) =
    let kept = without_txt name rest in if is_txt_of name h then kept else h ∷ kept

module _ {S : Type 0} (s : NamecheapSettings) (api : Api S) where
  -- With the lock of the domain held.
  unfoldable pub set_txt : String → String → String → Exec S (Unit {0})
  unfolding get_hosts set_hosts split_domain remove_suffix
  set_txt domain name value = do
    (sld, tld) ← lift (or_crash (split_domain domain))
    hosts ← get_hosts s api sld tld
    set_hosts s api sld tld (hosts ++ txt_record (remove_suffix name ("." <> domain)) value ∷ [])

  abbrev pub write_if_shorter : String → String → String → List HostRecord → Exec S (Unit {0})
  write_if_shorter sld tld rel_name hosts =
      let kept = without_txt rel_name hosts in
      if ltb (length kept) (length hosts) then set_hosts s api sld tld kept else pure tt

  unfoldable pub delete_txt : String → String → Exec S (Unit {0})
  unfolding get_hosts set_hosts split_domain remove_suffix
  delete_txt domain name = do
    (sld, tld) ← lift (or_crash (split_domain domain))
    hosts ← get_hosts s api sld tld
    write_if_shorter sld tld (remove_suffix name ("." <> domain)) hosts

  abbrev pub namecheap_provider : DnsProvider S
  namecheap_provider = record { set_txt = set_txt; delete_txt = delete_txt }

-- What one operation does to the records of the domain, by the name relative to the domain.
pub data Act : Type 0 where
  append_txt : (name value : String) → Act
  remove_txt : (name : String) → Act

abbrev pub apply : Act → List HostRecord → List HostRecord
apply (append_txt name value) hosts = hosts ++ txt_record name value ∷ []
apply (remove_txt name) hosts = without_txt name hosts
