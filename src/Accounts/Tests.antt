-- ===== src/Accounts/Tests.antt =====
-- The theorems on account keys at concrete requests.
use jackdaw.Base.Table.{get, count, select, update}
use jackdaw.Base.{
  map, String, Option, some, ◌≡◌, refl, none, false, List, true, ℕ, ◌∷◌, if◌then◌else◌, eqb, [],
  arith, eq_iff,
}
use jackdaw.Json.{Json, obj, field, end, str, Fields, as_fields}
use jackdaw.Jws.Keys.{Env}
use jackdaw.Accounts.{new_account, NewAccountRequest, existing_reply, account_url}
use jackdaw.Accounts.Keys.{Distinct}
use jackdaw.Jws.Samples.{sample_env, sample_request, sample_db, alice, bob, account_header}
use jackdaw.Db.{Account, Db}
use jackdaw.Accounts.KeyChange.{key_change, change_key, changed_reply}
use jackdaw.Accounts.Overlap
use jackdaw.Accounts.Overlap.{Event, registers, changes, commits, Shared, Calm}
use jackdaw.Accounts.Overlap.Invariant.{keys_distinct}
use jackdaw.Accounts.Inner.{IsProof}
use jackdaw.Result.{ok}
use jackdaw.Base.Text.{remove_prefix}
use jackdaw.Config.{relay_base_url}
use jackdaw.Ownership.{find_account}
use jackdaw.Accounts.Change.{change_key_accepted}

abbrev two_accounts : Distinct sample_db.accounts
unfolding get
two_accounts = record { ids = (refl, (refl, tt)); keys = (refl, (refl, tt)) }

abbrev url : String
url = "https://relay.example.com/acme/new-account"

-- A header with the embedded key "K", which is Alice's.
abbrev embedded_header : Json
embedded_header = obj (
    field "alg" (str "ES256")
      (field "url" (str url) (field "jwk" (str "K") (field "nonce" (str "n1") end))))

abbrev env : Env
env = sample_env embedded_header (obj end)

abbrev validate : Json → Option NewAccountRequest
validate j = some (record { contact = none; only_return_existing = false })

-- The account that has the key is returned.
alice_again :
    (new_account env validate "c3" (sample_request url) sample_db).0
    ≡ ok (existing_reply env.settings alice)
unfolding new_account count select
alice_again = refl

abbrev key_change_url : String
key_change_url = "https://relay.example.com/acme/key-change"

-- The outer header and payload, and the header and payload of the inner JWS.
abbrev loads_change : List ℕ → Option Json
loads_change [] = none
loads_change (b ∷ bs) =
    if eqb b b'h'
    then some (account_header key_change_url "n1")
    else (if eqb b b'p'
        then some (
            obj (
              field "protected" (str "ihdr")
                (field "payload" (str "qpay") (field "signature" (str "good") end))))
        else (if eqb b b'i'
            then some (
                obj (
                  field "alg" (str "ES256")
                    (field "url" (str key_change_url) (field "jwk" (str "N") end))))
            else some (
                obj (
                  field "account" (str "https://relay.example.com/acme/account/a1")
                    (field "oldKey" (str "K") end)))))

-- Every signature is good.
abbrev change_env : Env
change_env = record env {
  codec = record env.codec { loads = loads_change; verify = λ alg key input sig. true };
}

-- Alice's key becomes "N".
key_changed :
    (key_change change_env (sample_request key_change_url) sample_db).1.accounts
    ≡ record alice { public_key = "N" } ∷ bob ∷ []
unfolding key_change count select update get remove_prefix relay_base_url
key_changed = refl

-- Someone registers the key "M" while Alice changes hers to "N".
abbrev requests : List Event
requests =
    registers "M" "c3" (record { contact = none; only_return_existing = false })
    ∷ changes "N" "a1"
    ∷ commits 1
    ∷ commits 0
    ∷ []

abbrev start : Shared
start = record { db = sample_db; waiting = [] }

both_stored :
    map (λ (a : Account). a.public_key) (Overlap.run env start requests).db.accounts
    ≡ "N" ∷ "L" ∷ "M" ∷ []
unfolding Overlap.run Overlap.step select update
both_stored = refl

calm : Calm env start requests
unfolding Overlap.step select update get
calm = (
  tt,
  (tt, tt),
  (tt, (((λ e. ground (arith, eq_iff "M" "N", e)), tt), (tt, tt)), (refl, (tt, tt), (tt, tt, tt))),
)

keys_distinct_example : Distinct (Overlap.run env start requests).db.accounts
keys_distinct_example = keys_distinct env sample_db requests calm two_accounts

-- Two requests with one new key, both before their commit, store it twice.
twice :
    map
      (λ (a : Account). a.public_key)
      (Overlap.run env start (
        registers "M" "c3" (record { contact = none; only_return_existing = false })
        ∷ registers "M" "d4" (record { contact = none; only_return_existing = false })
        ∷ commits 0
        ∷ commits 0
        ∷ [])).db.accounts
    ≡ "K" ∷ "L" ∷ "M" ∷ "M" ∷ []
unfolding Overlap.run Overlap.step select
twice = refl

abbrev inner_jws : Json
inner_jws = obj (
    field "protected" (str "ihdr")
      (field "payload" (str "qpay") (field "signature" (str "good") end)))

abbrev changed_db : Db
changed_db = record sample_db { accounts = record alice { public_key = "N" } ∷ bob ∷ [] }

accepted :
    change_key change_env key_change_url inner_jws "a1" sample_db
    ≡ (ok (changed_reply change_env.settings alice), changed_db)
unfolding change_key count select update get remove_prefix relay_base_url
accepted = refl

change_key_accepted_example :
    (fields : Fields) × (account : Account) × (key : Json) × (as_fields inner_jws ≡ some fields)
    × (find_account sample_db "a1" ≡ some account)
    × IsProof change_env.codec
        (account_url change_env.settings "a1")
        account.public_key
        key_change_url
        fields
        key
    × (find_account changed_db "a1"
        ≡ some (record account { public_key = change_env.codec.dumps_sorted key }))
change_key_accepted_example =
    change_key_accepted change_env key_change_url inner_jws "a1"
      (changed_reply change_env.settings alice) sample_db changed_db accepted
