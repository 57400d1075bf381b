-- ===== src/Dns/Route53.antt =====
-- src/jackdaw/dns/providers/route53.py: the provider. A request is signed by `sign`, which is
-- `sigv4_headers` with the credentials and the time of the request.
pub mod Lingering
use jackdaw.Dns.{DnsProvider}
use jackdaw.Dns.Sigv4.{Hashes, canonical_qs}
use jackdaw.Exec.{Exec, pure, lift, ◌>>=◌, ◌>>◌}
use jackdaw.Result.{uncaught, or_crash}
use Prim.Native.Char.{code}
use jackdaw.Config.{split_at}
use jackdaw.Base.Text.{rstrip_char}
use jackdaw.Base.{
  Option, String, List, ℕ, ◌<>◌, if◌then◌else◌, Bool, ◌∷◌, some, leb, true, [], map, none, ◌&&◌,
  false, ◌+◌, eqb,
}

-- The first record set of a listing: its name and the texts of its values.
pub record RecordSet : Type 0 where
  pub name : Option String
  pub values : List (Option String)

-- What the code reads in a reply: the text of the first hosted zone's `Id` and the first record set,
-- `none` if there is no such element, or no text in it.
pub record Listing : Type 0 where
  pub zone_id : Option String
  pub record_set : Option RecordSet

-- The two HTTP calls. An exception of the call, of `raise_for_status` or of the XML parser is
-- `uncaught`.
pub record Api (S : Type 0) : Type 0 where
  pub get : (path query : String) (headers : List (String × String)) → Exec S Listing
  pub post : (path body : String) (headers : List (String × String)) → Exec S (Unit {0})

-- What the provider gets from outside: the calls, the signature (of method, path, query and body),
-- and `xml.sax.saxutils.escape`.
pub record Remote (S : Type 0) : Type 0 where
  pub api : Api S
  pub hashes : Hashes
  pub sign : (method path query body : String) → List (String × String)
  pub escape : String → String

-- `text.rsplit("/", 1)[-1]`
abbrev pub last_of : List String → String
last_of [] = ""
last_of (s ∷ []) = s
last_of (s ∷ t ∷ rest) = last_of (t ∷ rest)

abbrev pub value_elements : (String → String) → List String → String
value_elements escape [] = ""
value_elements escape (v ∷ vs) =
    "<ResourceRecord><Value>"
    <> (escape v <> ("</Value></ResourceRecord>" <> value_elements escape vs))

unfoldable pub change_xml : (String → String) → (action name : String) → List String → String
change_xml escape action name values =
    "<?xml version=\"1.0\" encoding=\"UTF-8\"?><ChangeResourceRecordSetsRequest xmlns=\"https://route53.amazonaws.com/doc/2013-04-01/\"><ChangeBatch><Changes><Change><Action>"
    <> (action
        <> ("</Action><ResourceRecordSet><Name>"
            <> (escape name
                <> (".</Name><Type>TXT</Type><TTL>120</TTL><ResourceRecords>"
                    <> (value_elements escape values
                        <> "</ResourceRecords></ResourceRecordSet></Change></Changes></ChangeBatch></ChangeResourceRecordSetsRequest>")))))

abbrev lower : ℕ → ℕ
lower n = if leb 65 n && leb n 90 then n + 32 else n

-- `s.lower() == t.lower()`, for texts in ASCII.
unfoldable pub same_lower : String → String → Bool
same_lower String.[] String.[] = true
same_lower String.[] (String.◌∷◌ d t) = false
same_lower (String.◌∷◌ c s) String.[] = false
same_lower (String.◌∷◌ c s) (String.◌∷◌ d t) =
    eqb (lower (code c)) (lower (code d)) && same_lower s t

abbrev pub text_or_empty : Option String → String
text_or_empty none = ""
text_or_empty (some s) = s

abbrev pub rrset_path : String → String
rrset_path zone_id = "/2013-04-01/hostedzone/" <> (zone_id <> "/rrset")

module _ {S : Type 0} (remote : Remote S) where
  unfoldable pub find_zone : String → Exec S String
  unfolding canonical_qs split_at
  find_zone domain =
      let query = canonical_qs remote.hashes (("dnsname", domain) ∷ ("maxitems", "1") ∷ []) in
      remote.api.get "/2013-04-01/hostedzonesbyname" query
        (remote.sign "GET" "/2013-04-01/hostedzonesbyname" query "")
      >>= λ r. lift (or_crash r.zone_id) >>= λ id_text. pure (last_of (split_at b'/' id_text))

  abbrev pub change : String → String → Exec S (Unit {0})
  change zone_id body =
      remote.api.post (rrset_path zone_id) body (remote.sign "POST" (rrset_path zone_id) "" body)

  unfoldable pub create_txt : String → String → String → Exec S (Unit {0})
  unfolding find_zone change_xml
  create_txt domain name value = find_zone domain >>= λ zone_id.
      change zone_id (change_xml remote.escape "CREATE" name (("\"" <> (value <> "\"")) ∷ []))

  -- The record set is deleted only if it has the name.
  abbrev pub delete_found : String → String → Option RecordSet → Exec S (Unit {0})
  delete_found zone_id name none = pure tt
  delete_found zone_id name (some rrs) =
      if same_lower (rstrip_char b'.' (text_or_empty rrs.name)) name
      then change zone_id (change_xml remote.escape "DELETE" name (map text_or_empty rrs.values))
      else pure tt

  unfoldable pub delete_record_set : String → String → Exec S (Unit {0})
  unfolding find_zone change_xml canonical_qs same_lower rstrip_char
  delete_record_set domain name = find_zone domain >>= λ zone_id.
      let query =
        canonical_qs remote.hashes (("maxitems", "1") ∷ ("name", name) ∷ ("type", "TXT") ∷ []) in
      remote.api.get (rrset_path zone_id) query (remote.sign "GET" (rrset_path zone_id) query "")
      >>= λ r. delete_found zone_id name r.record_set

  abbrev pub route53_provider : DnsProvider S
  route53_provider = record { set_txt = create_txt; delete_txt = delete_record_set }
