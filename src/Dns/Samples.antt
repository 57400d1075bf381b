-- ===== src/Dns/Samples.antt =====
-- A small API of Namecheap that keeps its contract, for the tests.
use jackdaw.Dns.Namecheap.{Api, NamecheapSettings, HostRecord, HostElement, host_record}
use jackdaw.Dns.Namecheap.Params.{hosts_of_params}
use jackdaw.Dns.Namecheap.Zone.{Honest}
use jackdaw.Result.{ok, ok-injective}
use jackdaw.Base.{some, List, subst, ◌≡◌, ◌∷◌, map, [], refl, ap, inr}

abbrev pub settings : NamecheapSettings
settings = record { api_user = "u"; api_key = "k"; username = ""; client_ip = "192.0.2.1" }

abbrev element : HostRecord → HostElement
element h = record {
  name_attr = some h.name;
  type_attr = some h.type;
  address_attr = some h.address;
  mx_pref_attr = some h.mx_pref;
  ttl_attr = some h.ttl;
}

abbrev pub zone : List HostRecord → List HostRecord
zone hosts = hosts

abbrev pub served : Api (List HostRecord)
served = record {
  get = λ ps hosts. (ok (record { status = some "OK"; hosts = map element hosts }), hosts);
  post = λ ps hosts. (ok (record { status = some "OK"; hosts = [] }), hosts_of_params ps);
}

map-element : (hosts : List HostRecord) → map host_record (map element hosts) ≡ hosts
map-element [] = refl
map-element (h ∷ hosts) = ap (λ l. h ∷ l) (map-element hosts)

pub served-Honest : Honest settings served "example" "com" zone
served-Honest = record {
  get_keeps = λ st. refl;
  get_reads =
      λ st r e c. subst (λ x. map host_record x.hosts ≡ st) (ok-injective e) (map-element st);
  post_replaces = λ st hosts. inr refl;
  post_ok = λ st hosts r e c. refl;
}

abbrev pub mail : HostRecord
mail = record {
  name = "@";
  type = "MX";
  address = "mail.example.com";
  mx_pref = "10";
  ttl = "1800";
}
