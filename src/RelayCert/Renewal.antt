-- ===== src/RelayCert/Renewal.antt =====
-- What the daily rounds of `renewal_loop` keep: the certificate's margin, and the presented pair.
use jackdaw.RelayCert.{
  Pair, Relay, day, renewal_round, renewal_loop, is_fresh, is_live, renew, cert_not_after,
  write_relay_cert, renew_threshold_days,
}
use jackdaw.CertStore.{X509}
use jackdaw.Base.{
  length, ℕ, Option, List, ◌≡◌, some, suc, ◌+◌, ◌∷◌, ◌*◌, [], none, ◌≤◌, if◌then◌else◌, arith, refl,
  Bool-cases, inl, inr, ◌∙◌, leb→le, Option-cases, true, sym, ◌<◌, ltb,
}

-- An issuance at the time `now` gives a chain that is good for sixty days at least.
abbrev pub GoodIssue : X509 → ℕ → Option Pair → Type 0
GoodIssue x now none = Unit
GoodIssue x now (some p) = (t : ℕ) × (x.pem_not_after p.pem_chain ≡ some t) × (now + 60 * day ≤ t)

abbrev pub GoodIssues : X509 → ℕ → List (Option Pair) → Type 0
GoodIssues x now [] = Unit
GoodIssues x now (issued ∷ rest) = GoodIssue x now issued × GoodIssues x (now + day) rest

-- How many rounds at the end have no issuance, after `k` such rounds.
abbrev pub failures : ℕ → List (Option Pair) → ℕ
failures k [] = k
failures k (none ∷ rest) = failures (suc k) rest
failures k (some p ∷ rest) = failures 0 rest

-- The certificate on disk at `now`, the time of the next round, after `k` failures in a row.
abbrev pub Margin : X509 → ℕ → ℕ → Relay → Type 0
Margin x now k r = (t : ℕ) × (cert_not_after x r.disk ≡ some t) × (now + 29 * day ≤ t + k * day)

renewal_round-some :
    (x : X509) (now t : ℕ) (issued : Option Pair) (r : Relay)
    → cert_not_after x r.disk ≡ some t
    → renewal_round x now issued r ≡ (if is_fresh now t then r else renew issued r)
unfolding renewal_round
renewal_round-some x now t issued r e = rw (e, renewal_round) refl

cert_not_after-renew :
    (x : X509) (p : Pair) (r : Relay)
    → cert_not_after x (renew (some p) r).disk ≡ x.pem_not_after p.pem_chain
unfolding cert_not_after write_relay_cert
cert_not_after-renew x p r = refl

-- A round without an issuance leaves the relay as it is.
renewal_round-none : (x : X509) (now : ℕ) (r : Relay) → renewal_round x now none r ≡ r
unfolding renewal_round
renewal_round-none x now r = ground arith

Margin-failed :
    (x : X509) (now k : ℕ) (r : Relay)
    → Margin x now k r
    → Margin x (now + day) (suc k) (renewal_round x now none r)
Margin-failed x now k r (t, e, m) = rw (renewal_round-none x now r) (t, e, omega arith)

Margin-issued :
    (x : X509) (now k : ℕ) (p : Pair) (r : Relay)
    → GoodIssue x now (some p)
    → Margin x now k r
    → Margin x (now + day) 0 (renewal_round x now (some p) r)
Margin-issued x now k p r (t', e', good) (t, e, m) = elim (Bool-cases (is_fresh now t)) [
  | inl h ↦
      rw (renewal_round-some x now t (some p) r e, h)
        (t, e, omega (arith, leb→le (now + renew_threshold_days * day) t h))
  | inr h ↦
      rw (renewal_round-some x now t (some p) r e, h)
        (t', cert_not_after-renew x p r ∙ e', omega arith)
]

lt→ltb : (a b : ℕ) → a < b → ltb a b ≡ true
lt→ltb a b h = ground arith

later : (x : X509) (a b k : ℕ) (r : Relay) → a ≡ b → Margin x a k r → Margin x b k r
later x a b k r e (t, d, m) = (t, d, omega arith)

renewal_loop-Margin :
    (x : X509) (now k : ℕ) (rounds : List (Option Pair)) (r : Relay)
    → GoodIssues x now rounds
    → Margin x now k r
    → Margin x (now + length rounds * day) (failures k rounds) (renewal_loop x now rounds r)
unfolding renewal_loop
renewal_loop-Margin x now k [] r good (t, e, m) = (t, e, omega arith)
renewal_loop-Margin x now k (none ∷ rest) r (_, good) m =
    later x (now + day + length rest * day) (now + length {A = Option Pair} (none ∷ rest) * day)
      (failures (suc k) rest) (renewal_loop x (now + day) rest (renewal_round x now none r))
      (omega arith)
      (renewal_loop-Margin x (now + day) (suc k) rest (renewal_round x now none r) good
        (Margin-failed x now k r m))
renewal_loop-Margin x now k (some p ∷ rest) r (g, good) m =
    later x (now + day + length rest * day) (now + length (some p ∷ rest) * day) (failures 0 rest)
      (renewal_loop x (now + day) rest (renewal_round x now (some p) r)) (omega arith)
      (renewal_loop-Margin x (now + day) 0 rest (renewal_round x now (some p) r) good
        (Margin-issued x now k p r g m))

-- The pair that new handshakes get, which is also the pair on disk.
abbrev pub Presents : Pair → Relay → Type 0
Presents p r =
    (r.loaded ≡ some p) × (r.disk.cert ≡ some p.pem_chain) × (r.disk.key ≡ some p.key_pem)

Presents-renew : (p q : Pair) (r : Relay) → Presents p r → Presents q (renew (some q) r)
unfolding write_relay_cert
Presents-renew p q r (l, c, k) = (rw l refl, refl, refl)

renewal_round-unread :
    (x : X509) (now : ℕ) (issued : Option Pair) (r : Relay)
    → cert_not_after x r.disk ≡ none
    → renewal_round x now issued r ≡ r
unfolding renewal_round
renewal_round-unread x now issued r e = rw (e, renewal_round) refl

Presents-renewal_round :
    (x : X509) (now : ℕ) (issued : Option Pair) (p : Pair) (r : Relay)
    → Presents p r
    → (q : Pair) × Presents q (renewal_round x now issued r)
Presents-renewal_round x now none p r h = (p, rw (renewal_round-none x now r) h)
Presents-renewal_round x now (some q) p r h = elim (Option-cases (cert_not_after x r.disk)) [
  | inl e ↦ (p, rw (renewal_round-unread x now (some q) r e) h)
  | inr (t, e) ↦ elim (Bool-cases (is_fresh now t)) [
    | inl f ↦ (p, rw (renewal_round-some x now t (some q) r e, f) h)
    | inr f ↦ (q, rw (renewal_round-some x now t (some q) r e, f) (Presents-renew p q r h))
  ]
]

Presents-renewal_loop :
    (x : X509) (now : ℕ) (rounds : List (Option Pair)) (p : Pair) (r : Relay)
    → Presents p r
    → (q : Pair) × Presents q (renewal_loop x now rounds r)
unfolding renewal_loop
Presents-renewal_loop x now [] p r h = (p, h)
Presents-renewal_loop x now (issued ∷ rest) p r h =
    let (q, g) = Presents-renewal_round x now issued p r h in
    Presents-renewal_loop x (now + day) rest q (renewal_round x now issued r) g

cert_not_after-Presents :
    (x : X509) (p : Pair) (r : Relay)
    → Presents p r
    → cert_not_after x r.disk ≡ x.pem_not_after p.pem_chain
unfolding cert_not_after
cert_not_after-Presents x p r (l, c, k) = ground arith

-- The relay presents the pair on disk, good for twenty-nine days at least, and every issuance that
-- succeeds gives a chain for sixty days at least. Then after any rounds of the renewal loop, a day
-- apart, with at most twenty-eight of them without an issuance in a row at the end, it presents a
-- pair that is the one on disk and has not expired.
pub renewal_loop_live :
    (x : X509) (now t : ℕ) (rounds : List (Option Pair)) (p : Pair) (r : Relay)
    → Presents p r
    → x.pem_not_after p.pem_chain ≡ some t
    → now + 29 * day ≤ t
    → GoodIssues x now rounds
    → failures 0 rounds ≤ 28
    → (q : Pair) × (u : ℕ) × Presents q (renewal_loop x now rounds r)
      × (x.pem_not_after q.pem_chain ≡ some u)
      × (is_live (now + length rounds * day) u ≡ true)
renewal_loop_live x now t rounds p r h e m good few =
    let (q, g) = Presents-renewal_loop x now rounds p r h in
    let (u, d, n) =
      renewal_loop-Margin x now 0 rounds r good
        (t, cert_not_after-Presents x p r h ∙ e, omega arith) in
    (
      q,
      u,
      g,
      sym (cert_not_after-Presents x q (renewal_loop x now rounds r) g) ∙ d,
      lt→ltb (now + length rounds * day) u (omega arith),
    )
