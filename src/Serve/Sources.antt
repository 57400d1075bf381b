-- ===== src/Serve/Sources.antt =====
-- Where the certificate comes from that the boot serves.
use mathlib.Core.List.{Memᴰ}
use jackdaw.Serve.{
  Attempt, serves, min, retry_issue, retry_initial, retry_max, ensure_relay_cert,
  cert_days_remaining_if_usable,
}
use jackdaw.RelayCert.{Disk, Pair, write_relay_cert, is_fresh, is_live}
use jackdaw.CertStore.{X509}
use jackdaw.Base.{
  ℕ, List, ◌≡◌, ◌*◌, some, false, ◌∷◌, ◌+◌, arith, Option-cases, inl, refl, [], inr, ◌<◌, ◌⊎◌, Bool,
  true, Bool-cases, ltb→lt,
}

-- Where a served pair comes from, for a run of attempts.
abbrev Served : Bool → Disk → Disk → List Attempt → Type 0
Served usable d d' attempts =
    ((usable ≡ true) × (d' ≡ d))
    ⊎ ((a : Attempt) × (p : Pair) × Memᴰ a attempts
        × (a.issued ≡ some p)
        × (d' ≡ write_relay_cert p.pem_chain p.key_pem d))

Served-cons :
    (usable : Bool) (d d' : Disk) (a : Attempt) (rest : List Attempt)
    → Served usable d d' rest
    → Served usable d d' (a ∷ rest)
Served-cons usable d d' a rest (inl s) = inl s
Served-cons usable d d' a rest (inr (b, p, m, e, w)) = inr (b, p, Memᴰ.tail m, e, w)

retry_issue-serves :
    (usable : Bool) (delay now t : ℕ) (d d' : Disk) (attempts : List Attempt)
    → retry_issue usable delay now d attempts ≡ serves t d'
    → Served usable d d' attempts
retry_issue-serves usable delay now t d d' [] h = ground arith
retry_issue-serves usable delay now t d d' (a ∷ rest) h = elim (Option-cases a.issued) [
  | inr (p, e) ↦ inr (a, p, Memᴰ.head refl, e, ground arith)
  | inl e ↦ elim (Bool-cases usable) [
    | inl u ↦ inl (u, ground arith)
    | inr u ↦ Served-cons usable d d' a rest (
        retry_issue-serves usable (min (delay * 2) retry_max) (now + a.seconds + delay) t d d' rest
          (ground arith))
  ]
]

-- The certificate that was on disk, loadable and not expired.
abbrev pub Found : X509 → ℕ → Disk → Disk → Type 0
Found x now d d' = (d' ≡ d) × ((u : ℕ) × (cert_days_remaining_if_usable x d ≡ some u) × (now < u))

abbrev pub FromAttempt : Disk → Disk → List Attempt → Type 0
FromAttempt d d' attempts =
    (a : Attempt) × (p : Pair) × Memᴰ a attempts
    × (a.issued ≡ some p)
    × (d' ≡ write_relay_cert p.pem_chain p.key_pem d)

kept_or_issued :
    (x : X509) (now : ℕ) (usable : Bool) (d d' : Disk) (attempts : List Attempt)
    → (usable ≡ true → (u : ℕ) × (cert_days_remaining_if_usable x d ≡ some u) × (now < u))
    → Served usable d d' attempts
    → Found x now d d' ⊎ FromAttempt d d' attempts
kept_or_issued x now usable d d' attempts live (inl (u, e)) = inl (e, live u)
kept_or_issued x now usable d d' attempts live (inr found) = inr found

-- What the boot serves is either the certificate it found, loadable and not expired at the start, or
-- the pair that one of the attempts issued.
pub ensure_relay_cert_serves :
    (x : X509) (now t : ℕ) (d d' : Disk) (attempts : List Attempt)
    → ensure_relay_cert x now d attempts ≡ serves t d'
    → Found x now d d' ⊎ FromAttempt d d' attempts
unfolding ensure_relay_cert
ensure_relay_cert_serves x now t d d' attempts h =
    elim (Option-cases (cert_days_remaining_if_usable x d)) [
      | inl e ↦
          kept_or_issued x now false d d' attempts (λ f. absurd (cc))
            (retry_issue-serves false retry_initial now t d d' attempts
              (rw (e, ensure_relay_cert) at h))
      | inr (u, e) ↦ elim (Bool-cases (is_fresh now u)) [
        | inl f ↦ inl (ground arith, (u, e, ground arith))
        | inr f ↦
            kept_or_issued x now (is_live now u) d d' attempts (λ l. (u, e, ltb→lt now u l))
              (retry_issue-serves (is_live now u) retry_initial now t d d' attempts
                (rw (e, ensure_relay_cert, f) at h))
      ]
    ]
