-- ===== src/RelayCert/Tests.antt =====
-- The relay's certificate at concrete disks.
use jackdaw.RelayCert.{
  Disk, Pair, Relay, Crashed, stopped, ran, relay_cert_ops, renewal_loop, relay_cert_exists,
  cert_not_after, day, is_live,
}
use jackdaw.RelayCert.Crash.{Serves, write_relay_cert_crash}
use jackdaw.RelayCert.Renewal.{Presents, renewal_loop_live}
use jackdaw.CertStore.{X509}
use jackdaw.Base.{
  some, none, ◌∷◌, [], ◌==◌, if◌then◌else◌, ◌⊎◌, ◌≡◌, ◌*◌, ℕ, refl, true, ◌+◌, arith,
}

abbrev old_disk : Disk
old_disk = record { cert = some "c1"; key = some "k1"; new_cert = none; new_key = none }

-- The certificate "c1" is good until day 40, and "c2" until day 100.
abbrev reads : X509
reads = record {
  pem_serial = λ pem. none;
  pem_not_after = λ pem.
      if pem == "c1" then some (40 * day) else if pem == "c2" then some (100 * day) else none;
  der_serial = λ der. none;
}

-- Killed between the two renames.
abbrev between : Disk
between = record { cert = some "c1"; key = some "k2"; new_cert = some "c2"; new_key = none }

killed_between : Crashed (relay_cert_ops "c2" "k2") old_disk between
killed_between = ran _ _ _ _ (ran _ _ _ _ (ran _ _ _ _ (ran _ _ _ _ (stopped _ _ _ refl))))

write_relay_cert_crash_example :
    ((d' : Disk)
      → Crashed (relay_cert_ops "c2" "k2") old_disk d'
      → Serves d' (some "c1") (some "k1")
        ⊎ (Serves d' (some "c1") (some "k2") ⊎ Serves d' (some "c2") (some "k2")))
    × ((d' : Disk) × Crashed (relay_cert_ops "c2" "k2") old_disk d'
        × Serves d' (some "c1") (some "k2"))
write_relay_cert_crash_example = write_relay_cert_crash "c2" "k2" old_disk

-- The next start takes the old certificate with the new key for a usable pair.
between_exists : relay_cert_exists reads between ≡ true
unfolding relay_cert_exists cert_not_after
between_exists = refl

abbrev serving : Relay
serving = record { disk = old_disk; loaded = some (record { pem_chain = "c1"; key_pem = "k1" }) }

abbrev new_pair : Pair
new_pair = record { pem_chain = "c2"; key_pem = "k2" }

-- From day 11, when the certificate is no longer fresh: two failures, a success, and a quiet day.
renewed :
    (renewal_loop reads (11 * day) (none ∷ none ∷ some new_pair ∷ none ∷ []) serving).loaded
    ≡ some new_pair
unfolding renewal_loop
renewed = refl

renewal_loop_live_example :
    (q : Pair) × (u : ℕ) × Presents q
      (renewal_loop reads (11 * day) (none ∷ none ∷ some new_pair ∷ none ∷ []) serving)
    × (reads.pem_not_after q.pem_chain ≡ some u)
    × (is_live (11 * day + 4 * day) u ≡ true)
renewal_loop_live_example =
    renewal_loop_live reads (11 * day) (40 * day) (none ∷ none ∷ some new_pair ∷ none ∷ [])
      (record { pem_chain = "c1"; key_pem = "k1" }) serving (refl, refl, refl) refl (omega arith)
      (tt, (tt, ((100 * day, refl, omega arith), (tt, tt)))) (omega arith)
