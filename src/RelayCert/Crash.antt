-- ===== src/RelayCert/Crash.antt =====
-- What a crash in the middle of `write_relay_cert` leaves.
-- The two files that are read at the next start.
use jackdaw.RelayCert.{Disk, Crashed, relay_cert_ops, stopped, torn, ran}
use jackdaw.Base.{none, refl, String, Option, ◌≡◌, ◌⊎◌, some, arith}

abbrev pub Serves : Disk → Option String → Option String → Type 0
Serves d cert key = (d.cert ≡ cert) × (d.key ≡ key)

crash_cases :
    (pem_chain key_pem : String) (d d' : Disk)
    → Crashed (relay_cert_ops pem_chain key_pem) d d'
    → Serves d' d.cert d.key
      ⊎ (Serves d' d.cert (some key_pem) ⊎ Serves d' (some pem_chain) (some key_pem))
crash_cases c k d d' (stopped _ _ _ e) = ground arith
crash_cases c k d d' (torn _ _ part _ _ _ e) = ground arith
crash_cases c k d d' (ran _ _ _ _ (stopped _ _ _ e)) = ground arith
crash_cases c k d d' (ran _ _ _ _ (torn _ _ part _ _ _ e)) = ground arith
crash_cases c k d d' (ran _ _ _ _ (ran _ _ _ _ (stopped _ _ _ e))) = ground arith
crash_cases c k d d' (ran _ _ _ _ (ran _ _ _ _ (ran _ _ _ _ (stopped _ _ _ e)))) = ground arith
crash_cases c k d d' (ran _ _ _ _ (ran _ _ _ _ (ran _ _ _ _ (ran _ _ _ _ (stopped _ _ _ e))))) =
    ground arith
crash_cases c k d d'
      (ran _ _ _ _ (ran _ _ _ _ (ran _ _ _ _ (ran _ _ _ _ (ran _ _ _ _ (stopped _ _ _ e)))))) =
    ground arith

-- Killed at any moment, `write_relay_cert` leaves the old pair, the old certificate with the new key,
-- or the new pair: never a new certificate with an old key, and never a part of a file. The old
-- certificate with the new key is one of the outcomes, whatever was on disk.
pub write_relay_cert_crash :
    (pem_chain key_pem : String) (d : Disk)
    → ((d' : Disk)
        → Crashed (relay_cert_ops pem_chain key_pem) d d'
        → Serves d' d.cert d.key
          ⊎ (Serves d' d.cert (some key_pem) ⊎ Serves d' (some pem_chain) (some key_pem)))
      × ((d' : Disk) × Crashed (relay_cert_ops pem_chain key_pem) d d'
          × Serves d' d.cert (some key_pem))
write_relay_cert_crash c k d = (
  crash_cases c k d,
  (
    record d { key = some k; new_cert = some c; new_key = none },
    ran _ _ _ _ (ran _ _ _ _ (ran _ _ _ _ (ran _ _ _ _ (stopped _ _ _ refl)))),
    (refl, refl),
  ),
)
