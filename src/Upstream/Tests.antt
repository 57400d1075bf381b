-- ===== src/Upstream/Tests.antt =====
-- The zones of concrete domains.
use jackdaw.Base.{
  List, String, ◌∷◌, [], ◌≡◌, refl, ℕ, if◌then◌else◌, ◌↔◌, eqb, some, All, Bool, ◌⊎◌, none, true,
  arith, eq_iff,
}
use jackdaw.Upstream.{apex_domain}
use jackdaw.Base.Text.{rstrip_char, contains}
use jackdaw.Orders.{under_base}
use jackdaw.Base.Table.{select}
use jackdaw.Upstream.Zones.{IsLongest, apex_domain-IsLongest}
use jackdaw.Upstream.Polling.{
  poll_order_for_cert, Answer, downloaded, Succeeds, order_status, poll_order_for_cert_iff,
}
use jackdaw.Dns.{remove_suffix}
use jackdaw.Dns.Samples.{settings, served, served-Honest, mail, zone}
use jackdaw.Dns.Namecheap.{HostRecord, txt_record, split_domain, namecheap_provider}
use jackdaw.Upstream.Dns01.{fulfill_dns_01, clear_dns_01, acme_problem}
use jackdaw.Upstream.Dns01.Round.{challenge_round, record_name, IsTxtOf, SeesOthers}
use jackdaw.Upstream.Finalize.{
  Issuer, FinalizeReply, refused, replied, acme_error, fulfillment_failed, finalize_and_wait, poll,
  polled, stored_url, is_order_already_finalized,
}
use jackdaw.Upstream.Finalize.Recovery.{
  Event, made, finalized, Recoverable, after_others, finalize_recovers,
}

abbrev zones : List String
zones = "example.com" ∷ "corp.example.com" ∷ []

last_labels : apex_domain "a.b.example.org." zones ≡ "example.org"
unfolding apex_domain under_base select
last_labels = refl

corp : apex_domain "host.corp.example.com" zones ≡ "corp.example.com"
unfolding apex_domain under_base select
corp = refl

apex_domain-IsLongest_example :
    IsLongest "host.corp.example.com" zones (apex_domain "host.corp.example.com" zones)
unfolding rstrip_char under_base
apex_domain-IsLongest_example = apex_domain-IsLongest "host.corp.example.com" zones refl

-- The order is valid at the third poll.
abbrev answers : ℕ → Answer
answers i = if eqb i 2 then order_status "valid" (some "pem") else order_status "processing" none

third_poll : poll_order_for_cert "order" answers ≡ downloaded "pem"
unfolding poll_order_for_cert
third_poll = refl

poll_order_for_cert_iff_example :
    (poll_order_for_cert "order" answers ≡ downloaded "pem") ↔ Succeeds answers 0 60 "pem"
poll_order_for_cert_iff_example = poll_order_for_cert_iff "order" answers "pem"

abbrev record_of_host : HostRecord
record_of_host = txt_record (remove_suffix "_acme-challenge.a.example.com" ".example.com") "v"

at_apex : apex_domain "a.example.com" [] ≡ "example.com"
unfolding apex_domain rstrip_char select
at_apex = refl

namecheap_parts : split_domain (apex_domain "a.example.com" []) ≡ some ("example", "com")
unfolding apex_domain split_domain rstrip_char select
namecheap_parts = refl

challenge_round_example :
    let during =
      fulfill_dns_01 (namecheap_provider settings served) [] "a.example.com" "v" (mail ∷ []) in
    let afterwards =
      clear_dns_01 (namecheap_provider settings served) [] "a.example.com" during.1 in
    let name =
      record_name settings served "example" "com" zone served-Honest [] "a.example.com"
        namecheap_parts in
    (during.0 ≡ true → during.1 ≡ mail ∷ txt_record name "v" ∷ [])
    × ((afterwards ≡ during.1) ⊎ All (λ h. ¬ IsTxtOf name h) afterwards)
    × ((test : HostRecord → Bool)
        → SeesOthers name test
        → (select test during.1 ≡ select test (mail ∷ []))
          × (select test afterwards ≡ select test (mail ∷ [])))
challenge_round_example =
    challenge_round settings served "example" "com" zone served-Honest [] "a.example.com"
      namecheap_parts "v" (mail ∷ [])

abbrev issuer : Issuer
issuer = record { answers = λ uri. answers; download = λ uri. some "pem" }

abbrev not_ready : FinalizeReply
not_ready =
    refused
      (record { class = acme_error; message = "[403] urn:ietf:params:acme:error:orderNotReady" })

abbrev others : List Event
others =
    made (record { finalize = "f2"; location = some "o2" })
    ∷ finalized "f2" (replied (some "o2") none none)
    ∷ []

finalize_recovers_example :
    (Recoverable not_ready
      → (finalize_and_wait issuer "f1" not_ready (after_others issuer "f1" "o1" others [])).0
        ≡ poll issuer "o1")
    × (stored_url "f1"
          (finalize_and_wait issuer "f1" not_ready (after_others issuer "f1" "o1" others [])).1
        ≡ none)
finalize_recovers_example =
    finalize_recovers issuer "f1" "o1" others not_ready []
      ((λ e. ground (arith, eq_iff "f2" "f1")), ((λ e. ground (arith, eq_iff "f2" "f1")), tt))

-- The refused order is polled, and its certificate is found at the third poll.
recovered :
    (finalize_and_wait issuer "f1" not_ready (("f1", "o1") ∷ [])).0 ≡ polled (downloaded "pem")
unfolding finalize_and_wait stored_url is_order_already_finalized contains poll_order_for_cert
recovered = refl

dns_failed :
    (acme_problem (record { class = fulfillment_failed; message = "" })).type
    ≡ "urn:ietf:params:acme:error:dns"
unfolding acme_problem
dns_failed = refl
