-- ===== src/Jws/Kids.antt =====
-- The account that a `kid` names: src/jackdaw/services/jws.py, `resolve_key_and_account`.
use Prim.Native.Char.{code}
use text.Mathlib.TextEquality.{Char-path}
use text.Mathlib.TextLemmas.{nil-append, cons-append, append_assoc}
use jackdaw.Base.{
  ℕ, suc, zero, String, ◌<>◌, ◌≡◌, ◌&&◌, some, eqb, arith, refl, ap, ◌∙◌, sym, Bool-cases, inl, inr,
  eq_iff, ◌==◌, not, ◌≢◌,
}
use jackdaw.Base.Text.{remove_prefix, rstrip_char}
use jackdaw.Config.{Settings, relay_base_url}
use jackdaw.Jws.Keys.{kid_account_id, account_url_prefix}
use jackdaw.Result.{ok, or_raise, require, >>=-eq-ok, ok-injective, or_raise-eq-ok, require-eq-ok}

-- That many slashes.
abbrev pub slashes : ℕ → String
slashes zero = ""
slashes (suc k) = String.◌∷◌ "/" (slashes k)

-- The kid is the url of the account at this relay, with slashes after it at most.
abbrev pub Names : Settings → String → String → Type 0
Names settings kid id =
    (k : ℕ) × (kid ≡ relay_base_url settings <> ("/acme/account/" <> (id <> slashes k)))

remove_prefix-eq : (p s rest : String) → remove_prefix p s ≡ some rest → s ≡ p <> rest
unfolding remove_prefix
remove_prefix-eq String.[] s rest h = let same : s ≡ rest = cc in same ∙ sym (nil-append rest)
remove_prefix-eq (String.◌∷◌ c p) String.[] rest h = absurd (cc)
remove_prefix-eq (String.◌∷◌ c p) (String.◌∷◌ d s) rest h =
    elim (Bool-cases (eqb (code c) (code d))) [
      | inl same ↦
          ap (String.◌∷◌ d) (remove_prefix-eq p s rest (ground arith))
          ∙ (ap (λ x. String.◌∷◌ x (p <> rest)) (sym (Char-path c d (ground arith)))
              ∙ sym (cons-append c p rest))
      | inr other ↦ absurd (ground arith)
    ]

rstrip_char-eq : (s : String) → (k : ℕ) × (s ≡ rstrip_char b'/' s <> slashes k)
unfolding rstrip_char
rstrip_char-eq String.[] = (0, refl)
rstrip_char-eq (String.◌∷◌ c s) =
    let (k, ih) = rstrip_char-eq s in
    elim (Bool-cases ((rstrip_char b'/' s == "") && eqb (code c) b'/')) [
      | inl hit ↦
          let all : rstrip_char b'/' s ≡ "" = (eq_iff (rstrip_char b'/' s) "").0 (ground arith) in
          (
            suc k,
            rw hit (
                ap (String.◌∷◌ c) (ih ∙ (ap (λ t. t <> slashes k) all ∙ nil-append (slashes k)))
                ∙ (ap (λ x. String.◌∷◌ x (slashes k)) (Char-path c "/" (ground arith))
                    ∙ sym (nil-append (slashes (suc k))))),
          )
      | inr miss ↦
          (k, rw miss (ap (String.◌∷◌ c) ih ∙ sym (cons-append c (rstrip_char b'/' s) (slashes k))))
    ]

-- The id that is taken from a kid is no empty text, and the kid is the url of that account.
pub kid_account_id-Names :
    (settings : Settings) (kid id : String)
    → kid_account_id settings kid ≡ ok id
    → (id ≢ "") × Names settings kid id
unfolding kid_account_id
kid_account_id-Names settings kid id h =
    let (rest, found, h1) =
      >>=-eq-ok (or_raise (remove_prefix (account_url_prefix settings) kid) _) _ h in
    let (u, filled, h2) = >>=-eq-ok (require (not (rstrip_char b'/' rest == "")) _) _ h1 in
    let (k, trimmed) = rstrip_char-eq rest in
    let same : rstrip_char b'/' rest ≡ id = ok-injective h2 in
    (
      λ e. ground (
        arith,
        eq_iff (rstrip_char b'/' rest) "",
        require-eq-ok (not (rstrip_char b'/' rest == "")) _ filled,
      ),
      (
        k,
        remove_prefix-eq (account_url_prefix settings) kid rest (or_raise-eq-ok _ _ rest found)
            ∙ (ap (λ t. account_url_prefix settings <> t) (trimmed ∙ ap (λ t. t <> slashes k) same)
                ∙ append_assoc (relay_base_url settings) "/acme/account/" (id <> slashes k)),
      ),
    )
