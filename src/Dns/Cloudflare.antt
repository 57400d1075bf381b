-- ===== src/Dns/Cloudflare.antt =====
-- src/jackdaw/dns/providers/cloudflare.py. A path is below `BASE_URL`, and the client sends the token.
pub mod Deletion
mod Tests
use jackdaw.Dns.{DnsProvider}
use jackdaw.Dns.Rest.{Rest, Entry, Reply, raise_for_status, entries_or_empty, entry_id}
use jackdaw.Exec.{Exec, pure, lift, ◌>>=◌, ◌>>◌}
use jackdaw.Result.{Result, uncaught}
use jackdaw.Json.{Json, obj, field, end, str, num}
use jackdaw.Base.{◌<>◌, String, List, ◌∷◌, []}

abbrev pub records_path : String → String
records_path zone_id = "/zones/" <> (zone_id <> "/dns_records")

abbrev pub record_path : String → String → String
record_path zone_id record_id = records_path zone_id <> ("/" <> record_id)

abbrev pub cloudflare_record : String → String → Json
cloudflare_record name value = obj (
    field "type" (str "TXT")
      (field "name" (str name) (field "content" (str value) (field "ttl" (num 120) end))))

-- The id of the first zone of the list, if there is one.
abbrev pub first_zone : List Entry → Result String
first_zone [] = uncaught
first_zone (zone ∷ zones) = entry_id zone

module _ {S : Type 0} (rest : Rest S) where
  unfoldable pub get_zone_id : String → Exec S String
  get_zone_id domain = do
    r ← rest.get "/zones" (("name", domain) ∷ ("status", "active") ∷ [])
    lift (raise_for_status r)
    lift (first_zone (entries_or_empty r.entries))

  unfoldable pub add_record : String → String → String → Exec S (Unit {0})
  unfolding get_zone_id
  add_record domain name value = do
    zone_id ← get_zone_id domain
    r ← rest.post (records_path zone_id) (cloudflare_record name value)
    lift (raise_for_status r)

  abbrev pub delete_one : String → Entry → Exec S (Unit {0})
  delete_one zone_id e = do
    record_id ← lift (entry_id e)
    r ← rest.delete (record_path zone_id record_id)
    lift (raise_for_status r)

  -- The loop, which ends at the first deletion that fails.
  unfoldable pub delete_each : String → List Entry → Exec S (Unit {0})
  delete_each zone_id [] = pure tt
  delete_each zone_id (e ∷ entries) = delete_one zone_id e >> delete_each zone_id entries

  unfoldable pub list_records : String → String → Exec S (List Entry)
  list_records zone_id name = do
    r ← rest.get (records_path zone_id) (("type", "TXT") ∷ ("name", name) ∷ [])
    lift (raise_for_status r)
    pure (entries_or_empty r.entries)

  unfoldable pub delete_records : String → String → Exec S (Unit {0})
  unfolding get_zone_id delete_each list_records
  delete_records domain name = do
    zone_id ← get_zone_id domain
    entries ← list_records zone_id name
    delete_each zone_id entries

  abbrev pub cloudflare_provider : DnsProvider S
  cloudflare_provider = record { set_txt = add_record; delete_txt = delete_records }
