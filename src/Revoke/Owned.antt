-- ===== src/Revoke/Owned.antt =====
-- What is forwarded to Let's Encrypt.
use mathlib.Core.List.{Memᴰ}
use jackdaw.Revoke.{
  first, find_own_cert, revoke_cert_of, revoke_payload, is_owned, cert_serial, Revocation,
  has_serial, refused, no_certificate, has_legacy_serial, forward,
}
use jackdaw.Jws.Keys.{Codec}
use jackdaw.Base.{
  Bool, List, ◌≡◌, String, some, ℕ, true, Option, ◌∷◌, if◌then◌else◌, none, subst, ◌⊎◌,
  some-injective, sym, ◌&&◌, ap, ◌∙◌, refl, [], arith, false, inl, inr,
}
use jackdaw.CertStore.{X509}
use jackdaw.Db.{Db, Certificate}
use jackdaw.Json.{Json, Fields, get_or, null, get_field, as_fields}

first-holds {ℓ} :
    {R : Type ℓ} (p : R → Bool) (rows : List R) (r : R)
    → first p rows ≡ some r
    → (p r ≡ true) × Memᴰ r rows
unfolding first
first-holds p [] r h = absurd (cc)
first-holds {R} p (q ∷ rows) r h = at (p q) refl h (first-holds p rows r)
  where
    at :
        (b : Bool)
        → p q ≡ b
        → (if b then some q else first p rows) ≡ some r
        → (first p rows ≡ some r → (p r ≡ true) × Memᴰ r rows)
        → (p r ≡ true) × Memᴰ r (q ∷ rows)
    at true e k ih =
        (subst (λ x. p x ≡ true) (some-injective q r k) e, Memᴰ.head (sym (some-injective q r k)))
    at false e k ih = ((ih k).0, Memᴰ.tail (ih k).1)

find_own_cert-found :
    (x : X509) (db : Db) (account_id : String) (serial : ℕ) (cert : Certificate)
    → find_own_cert x db account_id serial ≡ some cert
    → Memᴰ cert db.certificates
      × (is_owned db account_id cert ≡ true)
      × ((has_serial serial cert ≡ true) ⊎ (has_legacy_serial x serial cert ≡ true))
unfolding find_own_cert
find_own_cert-found x db account_id serial cert h = at (first fast db.certificates) refl h
  where
    fast : Certificate → Bool
    fast c = is_owned db account_id c && has_serial serial c

    legacy : Certificate → Bool
    legacy c = is_owned db account_id c && has_legacy_serial x serial c

    at :
        (o : Option Certificate)
        → first fast db.certificates ≡ o
        → (elim o [ some c ↦ some c | none ↦ first legacy db.certificates ]) ≡ some cert
        → Memᴰ cert db.certificates
          × (is_owned db account_id cert ≡ true)
          × ((has_serial serial cert ≡ true) ⊎ (has_legacy_serial x serial cert ≡ true))
    at (some c) e k =
        let (holds, member) = first-holds fast db.certificates cert (e ∙ k) in
        (member, ground arith, inl (ground arith))
    at none e k =
        let (holds, member) = first-holds legacy db.certificates cert k in
        (member, ground arith, inr (ground arith))

-- A stored certificate of the account has the serial of the given one.
abbrev pub Covered : Codec → X509 → Db → String → Json → Type 0
Covered c x db account_id cert_b64 =
    (serial : ℕ) × (cert : Certificate) × (cert_serial c x cert_b64 ≡ some serial)
    × Memᴰ cert db.certificates
    × (is_owned db account_id cert ≡ true)
    × ((has_serial serial cert ≡ true) ⊎ (has_legacy_serial x serial cert ≡ true))

revoke_cert_of-owned :
    (c : Codec) (x : X509) (le_revoke : Json → Json → Bool) (db : Db) (account_id : String)
    (b r cert_b64 reason : Json)
    → (revoke_cert_of c x le_revoke db account_id b r).forwarded ≡ some (cert_b64, reason)
    → Covered c x db account_id cert_b64
unfolding revoke_cert_of
revoke_cert_of-owned c x le_revoke db account_id b r cert_b64 reason h =
    at (cert_serial c x b) refl h
  where
    row_reply : Option Certificate → Revocation
    row_reply o = elim o [
      | none ↦
          refused 403 "urn:ietf:params:acme:error:unauthorized"
            "Certificate not found or not owned by this account"
      | some cert ↦ forward le_revoke b r
    ]

    serial_reply : Option ℕ → Revocation
    serial_reply o = elim o [
      | none ↦ refused 400 "urn:ietf:params:acme:error:malformed" "Invalid certificate DER encoding"
      | some serial ↦ row_reply (find_own_cert x db account_id serial)
    ]

    at_row :
        (serial : ℕ) (o : Option Certificate)
        → cert_serial c x b ≡ some serial
        → find_own_cert x db account_id serial ≡ o
        → (row_reply o).forwarded ≡ some (cert_b64, reason)
        → Covered c x db account_id cert_b64
    at_row serial none e f k = absurd (cc)
    at_row serial (some cert) e f k =
        let (member, owned, serials) = find_own_cert-found x db account_id serial cert f in
        (
          serial,
          cert,
          subst (λ y. cert_serial c x y ≡ some serial)
              (ap (λ q. q.0) (some-injective (b, r) (cert_b64, reason) k)) e,
          member,
          owned,
          serials,
        )

    at :
        (o : Option ℕ)
        → cert_serial c x b ≡ o
        → (serial_reply o).forwarded ≡ some (cert_b64, reason)
        → Covered c x db account_id cert_b64
    at none e k = absurd (cc)
    at (some serial) e k = at_row serial (find_own_cert x db account_id serial) e refl k

-- A revocation that is forwarded to Let's Encrypt is for the certificate of the payload, and a
-- stored certificate of the account has its serial: in its row, or in its PEM if the row has
-- none.
pub revoke_payload_owned :
    (c : Codec) (x : X509) (le_revoke : Json → Json → Bool) (db : Db) (account_id : String)
    (payload cert_b64 reason : Json)
    → (revoke_payload c x le_revoke db account_id payload).forwarded ≡ some (cert_b64, reason)
    → Covered c x db account_id cert_b64
unfolding revoke_payload
revoke_payload_owned c x le_revoke db account_id payload cert_b64 reason h =
    at (as_fields payload) h
  where
    field_reply : Fields → Option Json → Revocation
    field_reply fields o = elim o [
      | none ↦ no_certificate
      | some b ↦ revoke_cert_of c x le_revoke db account_id b (get_or null "reason" fields)
    ]

    payload_reply : Option Fields → Revocation
    payload_reply o = elim o [
      | none ↦ no_certificate
      | some fields ↦ field_reply fields (get_field "certificate" fields)
    ]

    at_field :
        (fields : Fields) (o : Option Json)
        → (field_reply fields o).forwarded ≡ some (cert_b64, reason)
        → Covered c x db account_id cert_b64
    at_field fields none k = absurd (cc)
    at_field fields (some b) k =
        revoke_cert_of-owned c x le_revoke db account_id b (get_or null "reason" fields) cert_b64
          reason k

    at :
        (o : Option Fields)
        → (payload_reply o).forwarded ≡ some (cert_b64, reason)
        → Covered c x db account_id cert_b64
    at none k = absurd (cc)
    at (some fields) k = at_field fields (get_field "certificate" fields) k
