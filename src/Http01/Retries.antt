-- ===== src/Http01/Retries.antt =====
-- `validate_http01`: what the retries come to.
-- An attempt is retried if it ended in an `Http01ValidationError`.
use jackdaw.Http01.{Checked, passed, rejected, crashed}
use jackdaw.Base.{
  ℕ, ◌≤◌, ◌≡◌, ◌+◌, ◌<◌, suc, ◌↔◌, ◌⊎◌, if◌then◌else◌, inl, eqb, arith, inr, lt_or_eq, refl, subst,
  zero, ap, ◌∙◌,
}
use jackdaw.Http01.Attempts.{validate_http01, attempts_from}

abbrev pub IsRejected : Checked (Unit {0}) → Type 0
IsRejected (passed u) = ⊥
IsRejected (rejected p) = Unit
IsRejected (crashed text) = ⊥

-- Some attempt from `i` on passes, and those before it are retried.
abbrev pub Passes : (ℕ → Checked (Unit {0})) → ℕ → ℕ → Type 0
Passes attempt retries i =
    (k : ℕ) × (i ≤ k)
    × (k ≤ retries)
    × (attempt k ≡ passed tt)
    × ((j : ℕ) → i ≤ j → j < k → IsRejected (attempt j))

module _ (attempt : ℕ → Checked (Unit {0})) (retries : ℕ) where
  attempts_sound :
      (i left : ℕ)
      → i + left ≡ suc retries
      → attempts_from attempt retries i left ≡ passed tt
      → (left ≡ 0) ⊎ Passes attempt retries i
  unfolding attempts_from
  attempts_sound i zero e h = inl refl
  attempts_sound i (suc left) e h =
      at (attempt i) refl h (attempts_sound (suc i) left (omega arith))
    where
      at :
          (c : Checked (Unit {0}))
          → attempt i ≡ c
          → (elim c [
            | passed u ↦ passed u
            | rejected p ↦
                if eqb i retries then rejected p else attempts_from attempt retries (suc i) left
            | crashed text ↦ crashed text
          ])
            ≡ passed tt
          → (attempts_from attempt retries (suc i) left ≡ passed tt
              → (left ≡ 0) ⊎ Passes attempt retries (suc i))
          → (suc left ≡ 0) ⊎ Passes attempt retries i
      at (passed u) p k ih = inr (i, omega arith, omega arith, p, λ j a b. absurd (omega arith))
      at (rejected q) p k ih = elim (ih (ground arith)) [
        | inl none_left ↦ absurd (ground (arith, none_left))
        | inr (n, above, below, passes, before) ↦ inr (
          n,
          omega arith,
          below,
          passes,
          λ j a b. elim (lt_or_eq i j a) [
            | inl same ↦ subst (λ x. IsRejected (attempt x)) same (rw p tt)
            | inr later ↦ before j later b
          ],
        )
      ]
      at (crashed t) p k ih = absurd (cc)

  attempts_complete :
      (i left : ℕ)
      → i + left ≡ suc retries
      → Passes attempt retries i
      → attempts_from attempt retries i left ≡ passed tt
  unfolding attempts_from
  attempts_complete i zero e h = refl
  attempts_complete i (suc left) e (n, above, below, passes, before) = elim (lt_or_eq i n above) [
    | inl same ↦ here (attempt i) (ap attempt same ∙ passes)
    | inr later ↦ at (attempt i) (omega arith) (before i (omega arith) later) (
        attempts_complete (suc i) left (omega arith)
          (n, later, below, passes, λ j a b. before j (omega arith) b))
  ]
    where
      here :
          (c : Checked (Unit {0}))
          → c ≡ passed tt
          → (elim c [
            | passed u ↦ passed u
            | rejected p ↦
                if eqb i retries then rejected p else attempts_from attempt retries (suc i) left
            | crashed text ↦ crashed text
          ])
            ≡ passed tt
      here (passed u) p = refl
      here (rejected q) p = absurd (cc)
      here (crashed t) p = absurd (cc)

      at :
          (c : Checked (Unit {0}))
          → i < retries
          → IsRejected c
          → attempts_from attempt retries (suc i) left ≡ passed tt
          → (elim c [
            | passed u ↦ passed u
            | rejected p ↦
                if eqb i retries then rejected p else attempts_from attempt retries (suc i) left
            | crashed text ↦ crashed text
          ])
            ≡ passed tt
      at (passed u) l r k = absurd r
      at (rejected q) l r k = ground (arith, l)
      at (crashed t) l r k = absurd r

-- The validation succeeds exactly if no attempt is configured, or one of the configured attempts
-- passes and each attempt before it ended in a validation error.
pub validate_http01_iff :
    (attempt : ℕ → Checked (Unit {0})) (retries : ℕ)
    → (validate_http01 attempt retries ≡ passed tt) ↔ ((retries ≡ 0) ⊎ Passes attempt retries 1)
unfolding validate_http01 attempts_from
validate_http01_iff attempt retries = (
  attempts_sound attempt retries 1 retries (omega arith),
  λ h. elim h [
    | inl no_attempts ↦ rw no_attempts refl
    | inr passes ↦ attempts_complete attempt retries 1 retries (omega arith) passes
  ],
)
