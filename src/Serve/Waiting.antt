-- ===== src/Serve/Waiting.antt =====
-- How long the boot waits for a certificate.
use mathlib.Core.List.{append-nil}
use jackdaw.Serve.{
  Attempt, serves, waits, min, retry_issue, retry_initial, retry_max, ensure_relay_cert,
  cert_days_remaining_if_usable,
}
use jackdaw.RelayCert.{Disk, Pair, write_relay_cert, is_fresh, is_live}
use jackdaw.CertStore.{X509}
use jackdaw.Base.{
  ℕ, List, ◌≡◌, ◌*◌, none, some, false, All, suc, ◌∷◌, ◌^◌, ◌+◌, ◌≤◌, arith, ◌++◌, Option-cases,
  length, inl, refl, zero, [], ◌∙◌, inr, ap, sym, All-append, length-append,
}

-- The sleep after the attempt number `i`, from 0, in seconds.
abbrev pub backoff : ℕ → ℕ
backoff i = min (60 * 2 ^ i) 900

-- The sleeps after `n` attempts, the first of them number `i`.
abbrev pub sleeps : ℕ → ℕ → ℕ
sleeps i zero = 0
sleeps i (suc n) = backoff i + sleeps (suc i) n

abbrev pub seconds : List Attempt → ℕ
seconds [] = 0
seconds (a ∷ rest) = a.seconds + seconds rest

abbrev pub Raises : Attempt → Type 0
Raises a = a.issued ≡ none

-- No certificate that can be served is on disk: none that loads, or an expired one.
abbrev pub Unusable : X509 → ℕ → Disk → Type 0
Unusable x now d = (t : ℕ) → cert_days_remaining_if_usable x d ≡ some t → t ≤ now

backoff-suc : (i : ℕ) → min (backoff i * 2) retry_max ≡ backoff (suc i)
backoff-suc i = ground arith

retry_issue-Raises :
    (i now : ℕ) (d : Disk) (a : Attempt) (rest : List Attempt)
    → Raises a
    → retry_issue false (backoff i) now d (a ∷ rest)
      ≡ retry_issue false (backoff (suc i)) (now + a.seconds + backoff i) d rest
retry_issue-Raises i now d a rest h = rw (h, backoff-suc i) refl

-- The same attempts, at an equal index and time.
same_retry :
    (i j t u : ℕ) (d : Disk) (rest : List Attempt)
    → i ≡ j
    → t ≡ u
    → retry_issue false (backoff i) t d rest ≡ retry_issue false (backoff j) u d rest
same_retry i j t u d rest e h =
    ap (λ k. retry_issue false (backoff k) t d rest) e
    ∙ ap (λ v. retry_issue false (backoff j) v d rest) h

retry_issue-append :
    (i now : ℕ) (d : Disk) (failed rest : List Attempt)
    → All Raises failed
    → retry_issue false (backoff i) now d (failed ++ rest)
      ≡ retry_issue false
          (backoff (i + length failed))
          (now + seconds failed + sleeps i (length failed))
          d
          rest
retry_issue-append i now d [] rest h =
    same_retry i (i + 0) now (now + 0 + 0) d rest (omega arith) (omega arith)
retry_issue-append i now d (a ∷ failed) rest (h, hs) =
    retry_issue-Raises i now d a (failed ++ rest) h
    ∙ (retry_issue-append (suc i) (now + a.seconds + backoff i) d failed rest hs
        ∙ same_retry (suc i + length failed) (i + suc (length failed))
            (now + a.seconds + backoff i + seconds failed + sleeps (suc i) (length failed))
            (now + (a.seconds + seconds failed) + (backoff i + sleeps (suc i) (length failed))) d
            rest (omega arith) (omega arith))

stale : (now t : ℕ) → t ≤ now → is_fresh now t ≡ false
stale now t h = ground arith

expired : (now t : ℕ) → t ≤ now → is_live now t ≡ false
expired now t h = ground arith

ensure_relay_cert-Unusable :
    (x : X509) (now : ℕ) (d : Disk) (attempts : List Attempt)
    → Unusable x now d
    → ensure_relay_cert x now d attempts ≡ retry_issue false retry_initial now d attempts
unfolding ensure_relay_cert
ensure_relay_cert-Unusable x now d attempts h =
    elim (Option-cases (cert_days_remaining_if_usable x d)) [
      | inl e ↦ rw (e, ensure_relay_cert) refl
      | inr (t, e) ↦ rw (e, ensure_relay_cert, stale now t (h t e), expired now t (h t e)) refl
    ]

-- The time at which the boot wakes up after failed attempts.
abbrev woken : ℕ → List Attempt → ℕ
woken now failed = now + seconds failed + sleeps 0 (length failed)

ensure_relay_cert-failed :
    (x : X509) (now : ℕ) (d : Disk) (failed rest : List Attempt)
    → Unusable x now d
    → All Raises failed
    → ensure_relay_cert x now d (failed ++ rest)
      ≡ retry_issue false
          (backoff (length failed))
          (now + seconds failed + sleeps 0 (length failed))
          d
          rest
ensure_relay_cert-failed x now d failed rest h hs =
    ensure_relay_cert-Unusable x now d (failed ++ rest) h
    ∙ (retry_issue-append 0 now d failed rest hs
        ∙ same_retry (0 + length failed) (length failed) (woken now failed) (woken now failed) d
            rest (omega arith) refl)

-- Without a certificate that can be served, the boot tries until an attempt succeeds, and then
-- serves the pair of that attempt. Between the attempts it has slept 60 seconds, then twice as long
-- each time, up to 900.
pub ensure_relay_cert_ready :
    (x : X509) (now : ℕ) (d : Disk) (failed : List Attempt) (a : Attempt) (p : Pair)
    (rest : List Attempt)
    → Unusable x now d
    → All Raises failed
    → a.issued ≡ some p
    → ensure_relay_cert x now d (failed ++ a ∷ rest)
      ≡ serves
          (now + seconds failed + sleeps 0 (length failed) + a.seconds)
          (write_relay_cert p.pem_chain p.key_pem d)
ensure_relay_cert_ready x now d failed a p rest h hs e =
    ensure_relay_cert-failed x now d failed (a ∷ rest) h hs ∙ rw e refl

ensure_relay_cert_waits :
    (x : X509) (now : ℕ) (d : Disk) (failed : List Attempt)
    → Unusable x now d
    → All Raises failed
    → ensure_relay_cert x now d failed ≡ waits (now + seconds failed + sleeps 0 (length failed)) d
ensure_relay_cert_waits x now d failed h hs =
    ap (ensure_relay_cert x now d) (sym (append-nil failed))
    ∙ ensure_relay_cert-failed x now d failed [] h hs

sleeps-add : (i n m : ℕ) → sleeps i (n + m) ≡ sleeps i n + sleeps (i + n) m
sleeps-add i zero m = ground arith
sleeps-add i (suc n) m =
    let ih = sleeps-add (suc i) n m in
    let e : suc n + m ≡ suc (n + m) = omega arith in
    let k : i + suc n ≡ suc i + n = omega arith in rw (e, k) (omega (arith, ih))

one≤power : (i : ℕ) → 1 ≤ 2 ^ i
one≤power zero = omega arith
one≤power (suc i) = let ih = one≤power i in ground arith

-- A sleep is twice the one before, up to fifteen minutes, and a minute at least.
backoff_rises : (i : ℕ) → backoff (suc i) ≡ min (backoff i * 2) 900
backoff_rises i = ground arith

minute≤backoff : (i : ℕ) → 60 ≤ backoff i
minute≤backoff i = let h = one≤power i in ground arith

sum7 :
    (a b c d e f g : ℕ)
    → 60 ≤ a
    → b ≡ min (a * 2) 900
    → c ≡ min (b * 2) 900
    → d ≡ min (c * 2) 900
    → e ≡ min (d * 2) 900
    → f ≡ min (e * 2) 900
    → g ≡ min (f * 2) 900
    → 3600 ≤ a + (b + (c + (d + (e + (f + (g + 0))))))
sum7 a b c d e f g h hb hc hd he hf hg = ground arith

seven_sleeps : (i : ℕ) → 3600 ≤ sleeps i 7
seven_sleeps i =
    sum7 (backoff i) (backoff (suc i)) (backoff (suc (suc i))) (backoff (suc (suc (suc i))))
      (backoff (suc (suc (suc (suc i))))) (backoff (suc (suc (suc (suc (suc i))))))
      (backoff (suc (suc (suc (suc (suc (suc i))))))) (minute≤backoff i) (backoff_rises i)
      (backoff_rises (suc i)) (backoff_rises (suc (suc i))) (backoff_rises (suc (suc (suc i))))
      (backoff_rises (suc (suc (suc (suc i))))) (backoff_rises (suc (suc (suc (suc (suc i))))))

seconds_grow : (xs ys : List Attempt) → seconds xs ≤ seconds (xs ++ ys)
seconds_grow [] ys = omega arith
seconds_grow (x ∷ xs) ys = omega (arith, seconds_grow xs ys)

-- Seven attempts in a row that fail take an hour at least, their own time not counted: after any
-- failed attempts and seven more, the boot without a certificate wakes up 3600 seconds later at least.
pub ensure_relay_cert_hour :
    (x : X509) (now : ℕ) (d : Disk) (failed more : List Attempt)
    → Unusable x now d
    → All Raises failed
    → All Raises more
    → length more ≡ 7
    → (t u : ℕ) × (ensure_relay_cert x now d failed ≡ waits t d)
      × (ensure_relay_cert x now d (failed ++ more) ≡ waits u d)
      × (t + 3600 ≤ u)
ensure_relay_cert_hour x now d failed more h hs ms e =
    let n = length failed in
    (
      now + seconds failed + sleeps 0 n,
      now + seconds (failed ++ more) + sleeps 0 (length (failed ++ more)),
      ensure_relay_cert_waits x now d failed h hs,
      ensure_relay_cert_waits x now d (failed ++ more) h (All-append Raises failed more hs ms),
      rw (length-append failed more, e, sleeps-add 0 (length failed) 7)
          (omega (arith, seven_sleeps (0 + length failed), seconds_grow failed more)),
    )
