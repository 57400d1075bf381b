-- ===== src/CertStore.antt =====
-- src/jackdaw/services/cert_store.py, and `_cert_expiry_from_pem` of src/jackdaw/worker.py.
mod Tests
use mathlib.Core.Option
use Prim.Native.String.{slice}
use jackdaw.Base.{
  String, ℕ, Option, ◌+◌, suc, ◌/◌, ◌++◌, ◌<>◌, ◌∷◌, ◌%◌, [], if◌then◌else◌, ltb, zero, none, ◌*◌,
  some,
}
use jackdaw.Db.{Db}
use jackdaw.Jws.Keys.{Bytes}
use jackdaw.Result.{Result, or_raise, http, ◌>>=◌, ok}
use jackdaw.Base.Table.{get}

-- What the code reads off a certificate with the cryptography package; `none` where it raises.
pub record X509 : Type 0 where
  pub pem_serial : String → Option ℕ
  pub pem_not_after : String → Option ℕ
  pub der_serial : Bytes → Option ℕ

abbrev hex_digit : ℕ → String
hex_digit n = slice "0123456789abcdef" n (n + 1)

-- `format(n, "x")`; the fuel is `n + 1`, more than the number of digits.
hex_from : ℕ → ℕ → String
hex_from zero n = ""
hex_from (suc f) n =
    let more = hex_from f (n / 16) <> hex_digit (n % 16) in if ltb n 16 then hex_digit n else more

unfoldable pub serial_hex : ℕ → String
unfolding hex_from
serial_hex serial = hex_from (suc serial) serial

unfoldable pub leaf_serial_hex : X509 → String → Option String
unfolding serial_hex
leaf_serial_hex x pem_chain = Option.map serial_hex (x.pem_serial pem_chain)

unfoldable pub store_cert : X509 → ℕ → String → String → String → ℕ → Db → Db
unfolding leaf_serial_hex
store_cert x now cert_id order_id pem_chain expires_at db = record db {
  certificates =
      db.certificates
      ++ record {
        id = cert_id;
        order_id = order_id;
        pem_chain = pem_chain;
        issued_at = now;
        expires_at = expires_at;
        serial = leaf_serial_hex x pem_chain;
      }
        ∷ [];
}

unfoldable pub get_cert : String → Db → Result String
get_cert cert_id db =
    or_raise (get (λ c. c.id) cert_id db.certificates) (http 404 "Certificate not found")
    >>= λ cert. ok cert.pem_chain

-- The leaf's `notAfter`, or 89 days from now.
unfoldable pub cert_expiry_from_pem : X509 → ℕ → String → ℕ
cert_expiry_from_pem x now pem_chain = elim (x.pem_not_after pem_chain) [
  | none ↦ now + 89 * 86400
  | some t ↦ t
]
