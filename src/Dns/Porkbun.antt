-- ===== src/Dns/Porkbun.antt =====
-- src/jackdaw/dns/providers/porkbun.py. A path is below `BASE_URL`.
use jackdaw.Dns.{DnsProvider, remove_suffix}
use jackdaw.Dns.Rest.{Rest, Entry, raise_for_status, entries_or_empty, entry_id}
use jackdaw.Exec.{Exec, pure, lift, ◌>>=◌, ◌>>◌}
use jackdaw.Json.{Json, Fields, obj, field, end, str, num}
use jackdaw.Base.{◌<>◌, String, List, ◌∷◌, []}

pub record PorkbunSettings : Type 0 where
  pub api_key : String
  pub secret_api_key : String

-- The two credentials, before the other fields of a request.
abbrev pub with_auth : PorkbunSettings → Fields → Json
with_auth s fields =
    obj (field "apikey" (str s.api_key) (field "secretapikey" (str s.secret_api_key) fields))

abbrev pub porkbun_record : PorkbunSettings → String → String → Json
porkbun_record s subdomain value = with_auth s (
    field "name" (str subdomain)
      (field "type" (str "TXT") (field "content" (str value) (field "ttl" (num 120) end))))

module _ {S : Type 0} (s : PorkbunSettings) (rest : Rest S) where
  unfoldable pub create_porkbun : String → String → String → Exec S (Unit {0})
  unfolding remove_suffix
  create_porkbun domain name value = do
    r ←
        rest.post ("/dns/create/" <> domain)
          (porkbun_record s (remove_suffix name ("." <> domain)) value)
    lift (raise_for_status r)

  -- The loop; the status of a deletion is not looked at.
  unfoldable pub delete_all : String → List Entry → Exec S (Unit {0})
  delete_all domain [] = pure tt
  delete_all domain (e ∷ entries) = do
    record_id ← lift (entry_id e)
    rest.post ("/dns/delete/" <> (domain <> ("/" <> record_id))) (with_auth s end)
    delete_all domain entries

  unfoldable pub delete_porkbun : String → String → Exec S (Unit {0})
  unfolding remove_suffix delete_all
  delete_porkbun domain name = do
    r ←
        rest.post
          ("/dns/retrieveByNameType/"
            <> (domain <> ("/TXT/" <> remove_suffix name ("." <> domain))))
          (with_auth s end)
    lift (raise_for_status r)
    delete_all domain (entries_or_empty r.entries)

  abbrev pub porkbun_provider : DnsProvider S
  porkbun_provider = record { set_txt = create_porkbun; delete_txt = delete_porkbun }
