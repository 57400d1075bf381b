-- ===== src/Serve.antt =====
-- src/jackdaw/serve.py: the entry point, which waits for the relay's certificate and then serves.
pub mod Waiting
pub mod Sources
mod Tests
use jackdaw.RelayCert.{
  Disk, Pair, write_relay_cert, relay_cert_exists, cert_not_after, is_fresh, is_live,
}
use jackdaw.CertStore.{X509}
use jackdaw.Config.{Settings}
use jackdaw.Base.Text.{contains}
use jackdaw.Base.{
  Bool, String, Option, ℕ, ◌&&◌, if◌then◌else◌, List, not, ◌==◌, none, leb, ◌∷◌, some, ◌*◌, false,
  ◌+◌, [],
}

unfoldable pub tls_enabled : Settings → Bool
unfolding contains
tls_enabled s = s.serve_tls && not (contains s.relay_domain "://")

-- The status that the liveness listener answers; `none` for a scope that is not HTTP.
unfoldable pub health_app : (type path : String) → Option ℕ
health_app type path =
    if type == "http" then some (if path == "/healthz" then 200 else 404) else none

unfoldable pub cert_days_remaining_if_usable : X509 → Disk → Option ℕ
unfolding relay_cert_exists cert_not_after
cert_days_remaining_if_usable x d = if relay_cert_exists x d then cert_not_after x d else none

abbrev pub retry_initial : ℕ
retry_initial = 60

abbrev pub retry_max : ℕ
retry_max = 900

abbrev pub min : ℕ → ℕ → ℕ
min a b = if leb a b then a else b

-- One `issue_relay_cert`: how many seconds it takes, and the pair it writes, `none` if it raises.
pub record Attempt : Type 0 where
  pub seconds : ℕ
  pub issued : Option Pair

-- The boot has a certificate to serve, at a time, or it still sleeps, to wake up at a time.
pub data Boot : Type 0 where
  serves : (now : ℕ) (disk : Disk) → Boot
  waits : (now : ℕ) (disk : Disk) → Boot

-- The `while True`, for the attempts that are given; `usable` is the test `days > 0`.
abbrev pub retry_issue : Bool → ℕ → ℕ → Disk → List Attempt → Boot
retry_issue usable delay now d [] = waits now d
retry_issue usable delay now d (a ∷ rest) =
    let again = retry_issue usable (min (delay * 2) retry_max) (now + a.seconds + delay) d rest in
    elim a.issued [
      | some p ↦ serves (now + a.seconds) (write_relay_cert p.pem_chain p.key_pem d)
      | none ↦ if usable then serves (now + a.seconds) d else again
    ]

-- With the client that `init_account` returned.
unfoldable pub ensure_relay_cert : X509 → ℕ → Disk → List Attempt → Boot
unfolding cert_days_remaining_if_usable
ensure_relay_cert x now d attempts = elim (cert_days_remaining_if_usable x d) [
  | none ↦ retry_issue false retry_initial now d attempts
  | some not_after ↦
      if is_fresh now not_after
      then serves now d
      else retry_issue (is_live now not_after) retry_initial now d attempts
]

-- What the process listens with, and from when; a boot that still waits has the liveness listener only.
pub data Listener : Type 0 where
  plain_http : Listener
  health_only : (until : ℕ) → Listener
  https : (now : ℕ) (cert key : Option String) → Listener

abbrev pub build_tls_server : Boot → Listener
build_tls_server (waits now d) = health_only now
build_tls_server (serves now d) = https now d.cert d.key

unfoldable pub run_main : Settings → X509 → ℕ → Disk → List Attempt → Listener
unfolding tls_enabled ensure_relay_cert
run_main s x now d attempts =
    if tls_enabled s then build_tls_server (ensure_relay_cert x now d attempts) else plain_http
