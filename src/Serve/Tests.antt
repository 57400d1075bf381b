-- ===== src/Serve/Tests.antt =====
-- The boot at concrete disks and attempts.
use jackdaw.Serve.{
  Attempt, serves, waits, ensure_relay_cert, cert_days_remaining_if_usable, tls_enabled, health_app,
  run_main, https, plain_http,
}
use jackdaw.Serve.Waiting.{ensure_relay_cert_ready, ensure_relay_cert_hour}
use jackdaw.Serve.Sources.{Found, FromAttempt, ensure_relay_cert_serves}
use jackdaw.RelayCert.{Disk, write_relay_cert, day, relay_cert_exists, cert_not_after}
use jackdaw.CertStore.{X509}
use jackdaw.Config.{Settings, defaults}
use jackdaw.Base.{
  none, some, ◌≡◌, ℕ, ◌∷◌, List, ◌*◌, true, [], if◌then◌else◌, ◌≤◌, ◌+◌, ◌⊎◌, refl, ◌==◌,
}

abbrev reads : X509
reads = record {
  pem_serial = λ pem. none;
  pem_not_after = λ pem. if pem == "c1" then some (40 * day) else none;
  der_serial = λ der. none;
}

abbrev empty_disk : Disk
empty_disk = record { cert = none; key = none; new_cert = none; new_key = none }

abbrev old_disk : Disk
old_disk = record { cert = some "c1"; key = some "k1"; new_cert = none; new_key = none }

abbrev fails : Attempt
fails = record { seconds = 0; issued = none }

abbrev issues : Attempt
issues = record { seconds = 30; issued = some (record { pem_chain = "c1"; key_pem = "k1" }) }

nothing_usable : cert_days_remaining_if_usable reads empty_disk ≡ none
unfolding cert_days_remaining_if_usable relay_cert_exists cert_not_after
nothing_usable = refl

nothing_live : (t : ℕ) → cert_days_remaining_if_usable reads empty_disk ≡ some t → t ≤ 5
nothing_live t h = absurd (cc (h, nothing_usable))

ensure_relay_cert_ready_example :
    ensure_relay_cert reads 5 empty_disk (fails ∷ fails ∷ issues ∷ [])
    ≡ serves 215 (write_relay_cert "c1" "k1" empty_disk)
ensure_relay_cert_ready_example =
    ensure_relay_cert_ready reads 5 empty_disk (fails ∷ fails ∷ []) issues
      (record { pem_chain = "c1"; key_pem = "k1" }) [] nothing_live (refl, (refl, tt)) refl

abbrev seven : List Attempt
seven = fails ∷ fails ∷ fails ∷ fails ∷ fails ∷ fails ∷ fails ∷ []

ensure_relay_cert_hour_example :
    (t u : ℕ) × (ensure_relay_cert reads 5 empty_disk (fails ∷ []) ≡ waits t empty_disk)
    × (ensure_relay_cert reads 5 empty_disk (fails ∷ seven) ≡ waits u empty_disk)
    × (t + 3600 ≤ u)
ensure_relay_cert_hour_example =
    ensure_relay_cert_hour reads 5 empty_disk (fails ∷ []) seven nothing_live (refl, tt)
      (refl, (refl, (refl, (refl, (refl, (refl, (refl, tt))))))) refl

-- The seventh attempt of a boot that fails at once each time starts 2700 seconds after the first.
seven_in_an_hour :
    ensure_relay_cert reads 5 empty_disk (fails ∷ fails ∷ fails ∷ fails ∷ fails ∷ fails ∷ [])
    ≡ waits 2705 empty_disk
unfolding ensure_relay_cert cert_days_remaining_if_usable relay_cert_exists cert_not_after
seven_in_an_hour = refl

old_served :
    ensure_relay_cert reads (20 * day) old_disk (fails ∷ issues ∷ []) ≡ serves (20 * day) old_disk
unfolding ensure_relay_cert cert_days_remaining_if_usable relay_cert_exists cert_not_after
old_served = refl

ensure_relay_cert_serves_example :
    Found reads (20 * day) old_disk old_disk ⊎ FromAttempt old_disk old_disk (fails ∷ issues ∷ [])
ensure_relay_cert_serves_example =
    ensure_relay_cert_serves reads (20 * day) (20 * day) old_disk old_disk (fails ∷ issues ∷ [])
      old_served

abbrev tls : Settings
tls = record defaults { serve_tls = true; relay_domain = "relay.example.com" }

main_https :
    run_main tls reads 5 empty_disk (fails ∷ issues ∷ []) ≡ https 95 (some "c1") (some "k1")
unfolding run_main tls_enabled ensure_relay_cert cert_days_remaining_if_usable relay_cert_exists
    cert_not_after write_relay_cert
main_https = refl

main_plain :
    run_main (record tls { relay_domain = "http://localhost" }) reads 5 empty_disk [] ≡ plain_http
unfolding run_main tls_enabled
main_plain = refl

health_ok : health_app "http" "/healthz" ≡ some 200
unfolding health_app
health_ok = refl
