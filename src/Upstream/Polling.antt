-- ===== src/Upstream/Polling.antt =====
-- `_poll_order_for_cert` of src/jackdaw/services/le_client.py.
-- The answer of Let's Encrypt to one poll: the POST raises, or the order has a status. `download` is
-- the certificate that is behind the order's url then, or `none` where fetching it raises.
use jackdaw.Base.{
  String, ℕ, Option, ◌≢◌, if◌then◌else◌, ◌<>◌, ◌≤◌, ◌≡◌, ◌+◌, some, ◌==◌, ◌<◌, arith, ◌↔◌, suc,
  none, Bool-cases, eq_iff, zero, lt_or_eq, inl, ap, inr, subst, ◌∙◌, sym, refl,
}

pub data Answer : Type 0 where
  raises : Answer
  order_status : (status : String) (download : Option String) → Answer

-- The chain, an `AcmeCertificateError` with its text, or another exception.
pub data Polled : Type 0 where
  downloaded : (pem_chain : String) → Polled
  certificate_error : (text : String) → Polled
  other_error : Polled

abbrev pub poll_attempts : ℕ
poll_attempts = 60

abbrev pub download_of : Option String → Polled
download_of none = other_error
download_of (some pem_chain) = downloaded pem_chain

-- One answer ends the loop, or `rest` goes on.
abbrev pub on_answer : String → Answer → Polled → Polled
on_answer order_uri raises rest = other_error
on_answer order_uri (order_status status download) rest =
    if status == "valid"
    then download_of download
    else (if status == "invalid"
        then certificate_error ("Order " <> (order_uri <> " became invalid during finalization"))
        else rest)

-- The loop from one poll on, with that many left.
unfoldable pub poll_from : String → (ℕ → Answer) → ℕ → ℕ → Polled
poll_from order_uri answers i zero =
    certificate_error ("Order " <> (order_uri <> " did not become valid within 120s"))
poll_from order_uri answers i (suc left) =
    let rest = poll_from order_uri answers (suc i) left in on_answer order_uri (answers i) rest

unfoldable pub poll_order_for_cert : String → (ℕ → Answer) → Polled
unfolding poll_from
poll_order_for_cert order_uri answers = poll_from order_uri answers 0 poll_attempts

-- The order is neither valid nor invalid.
abbrev pub IsWaiting : Answer → Type 0
IsWaiting raises = ⊥
IsWaiting (order_status status download) = (status ≢ "valid") × (status ≢ "invalid")

-- One of the polls from `i` on finds the order valid and gets the chain; the order waits before.
abbrev pub Succeeds : (ℕ → Answer) → ℕ → ℕ → String → Type 0
Succeeds answers i end pem_chain =
    (k : ℕ) × (i ≤ k)
    × (k < end)
    × (answers k ≡ order_status "valid" (some pem_chain))
    × ((j : ℕ) → i ≤ j → j < k → IsWaiting (answers j))

module _ (order_uri : String) (answers : ℕ → Answer) (pem_chain : String) where
  poll_sound :
      (i left : ℕ)
      → poll_from order_uri answers i left ≡ downloaded pem_chain
      → Succeeds answers i (i + left) pem_chain
  unfolding poll_from
  poll_sound i zero h = absurd (cc)
  poll_sound i (suc left) h = at (answers i) refl h (poll_sound (suc i) left)
    where
      now :
          (status : String) (download : Option String)
          → answers i ≡ order_status status download
          → status ≡ "valid"
          → download_of download ≡ downloaded pem_chain
          → Succeeds answers i (i + suc left) pem_chain
      now status none e v k = absurd (cc)
      now status (some c) e v k = (i, omega arith, omega arith, cc, λ j a b. absurd (omega arith))

      at :
          (a : Answer)
          → answers i ≡ a
          → on_answer order_uri a (poll_from order_uri answers (suc i) left) ≡ downloaded pem_chain
          → (poll_from order_uri answers (suc i) left ≡ downloaded pem_chain
              → Succeeds answers (suc i) (suc i + left) pem_chain)
          → Succeeds answers i (i + suc left) pem_chain
      at raises e k ih = absurd (cc)
      at (order_status status download) e k ih = elim (Bool-cases (status == "valid")) [
        | inl v ↦ now status download e ((eq_iff status "valid").0 v) (ground (arith, k))
        | inr nv ↦ elim (Bool-cases (status == "invalid")) [
          | inl w ↦ absurd (ground (arith, k))
          | inr nw ↦
              let (n, above, below, found, before) = ih (ground (arith, k)) in
              (
                n,
                omega arith,
                omega arith,
                found,
                λ j a b. elim (lt_or_eq i j a) [
                  | inl same ↦
                      subst (λ x. IsWaiting (answers x)) same
                        (subst IsWaiting (sym e) (
                          (λ q. ground (arith, eq_iff status "valid")),
                          (λ q. ground (arith, eq_iff status "invalid")),
                        ))
                  | inr later ↦ before j later b
                ],
              )
        ]
      ]

  poll_complete :
      (i left : ℕ)
      → Succeeds answers i (i + left) pem_chain
      → poll_from order_uri answers i left ≡ downloaded pem_chain
  unfolding poll_from
  poll_complete i zero (n, above, below, found, before) = absurd (omega arith)
  poll_complete i (suc left) (n, above, below, found, before) = elim (lt_or_eq i n above) [
    | inl same ↦ here (answers i) (ap answers same ∙ found)
    | inr later ↦ at (answers i) (before i (omega arith) later) (
        poll_complete (suc i) left
          (n, later, omega arith, found, λ j a b. before j (omega arith) b))
  ]
    where
      here :
          (a : Answer)
          → a ≡ order_status "valid" (some pem_chain)
          → on_answer order_uri a (poll_from order_uri answers (suc i) left) ≡ downloaded pem_chain
      here a e = rw e refl

      at :
          (a : Answer)
          → IsWaiting a
          → poll_from order_uri answers (suc i) left ≡ downloaded pem_chain
          → on_answer order_uri a (poll_from order_uri answers (suc i) left) ≡ downloaded pem_chain
      at raises w k = absurd w
      at (order_status status download) w k =
          ground (arith, eq_iff status "valid", eq_iff status "invalid", w.0, w.1, k)

-- Polling returns a chain exactly if one of the sixty polls finds the order valid and gets that chain,
-- and every poll before it finds the order neither valid nor invalid.
pub poll_order_for_cert_iff :
    (order_uri : String) (answers : ℕ → Answer) (pem_chain : String)
    → (poll_order_for_cert order_uri answers ≡ downloaded pem_chain)
      ↔ Succeeds answers 0 60 pem_chain
unfolding poll_order_for_cert
poll_order_for_cert_iff order_uri answers pem_chain =
    (poll_sound order_uri answers pem_chain 0 60, poll_complete order_uri answers pem_chain 0 60)
