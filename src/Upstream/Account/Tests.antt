-- ===== src/Upstream/Account/Tests.antt =====
-- The account's key and the challenges at concrete values.
use jackdaw.Upstream.Account.{
  get_authorization_status, load_or_create_account_key, revocation_payload,
}
use jackdaw.Json.{obj, field, end, str, num}
use jackdaw.Base.{none, some, ℕ, ◌∷◌, ◌≡◌, true, [], refl}

-- An authorization with a challenge that has no token.
two_challenges :
    get_authorization_status (
      record { type = "device-attest-01"; url = "u1"; token = none }
      ∷ record { type = "dns-01"; url = "u2"; token = some "t" }
      ∷ [])
    ≡ record { type = "dns-01"; url = "u2"; token = "t" } ∷ []
unfolding get_authorization_status
two_challenges = refl

with_reason :
    revocation_payload "c" (some 1)
    ≡ obj (field "certificate" (str "c") (field "reason" (num 1) end))
unfolding revocation_payload
with_reason = refl

unreadable :
    (load_or_create_account_key {Key = ℕ}
      (λ s. none)
      (record { private_key = 1; pem = "p" })
      (some (record { text = ""; private_mode = true }))).0
    ≡ none
unfolding load_or_create_account_key
unreadable = refl
