-- ===== src/RelayCert.antt =====
-- src/jackdaw/services/relay_cert.py: the relay's own certificate and key on disk. A killed process
-- leaves the disk in some state between the operations, or in the middle of a write.
pub mod Crash
pub mod Renewal
mod Tests
use jackdaw.Base.{
  Option, String, some, List, ℕ, none, ◌∷◌, ◌≡◌, Bool, [], not, leb, ltb, if◌then◌else◌, ◌+◌,
  is_none, ◌*◌, ◌&&◌,
}
use jackdaw.CertStore.{X509}

pub data File : Type 0 where
  cert_file key_file cert_tmp key_tmp : File

-- What the four paths hold.
pub record Disk : Type 0 where
  pub cert : Option String
  pub key : Option String
  pub new_cert : Option String
  pub new_key : Option String

abbrev pub content : File → Disk → Option String
content cert_file d = d.cert
content key_file d = d.key
content cert_tmp d = d.new_cert
content key_tmp d = d.new_key

abbrev pub put : File → Option String → Disk → Disk
put cert_file c d = record d { cert = c }
put key_file c d = record d { key = c }
put cert_tmp c d = record d { new_cert = c }
put key_tmp c d = record d { new_key = c }

-- `path.write_text`, `path.chmod`, and `os.replace`, which is atomic.
pub data Op : Type 0 where
  write_text : File → String → Op
  chmod : File → Op
  replace : (source target : File) → Op

abbrev pub run_op : Op → Disk → Disk
run_op (write_text f text) d = put f (some text) d
run_op (chmod f) d = d
run_op (replace source target) d = put source none (put target (content source d) d)

abbrev pub run_ops : List Op → Disk → Disk
run_ops [] d = d
run_ops (op ∷ ops) d = run_ops ops (run_op op d)

-- The operations of `write_relay_cert`, after the directory was made.
abbrev pub relay_cert_ops : String → String → List Op
relay_cert_ops pem_chain key_pem =
    write_text cert_tmp pem_chain
    ∷ write_text key_tmp key_pem
    ∷ chmod key_tmp
    ∷ replace key_tmp key_file
    ∷ replace cert_tmp cert_file
    ∷ []

unfoldable pub write_relay_cert : String → String → Disk → Disk
write_relay_cert pem_chain key_pem d = run_ops (relay_cert_ops pem_chain key_pem) d

-- The process is killed while it runs the operations: before the first, in the middle of a write,
-- which may leave any text, or later.
pub data Crashed : List Op → Disk → Disk → Type 0 where
  stopped : (ops : List Op) (d d' : Disk) → d' ≡ d → Crashed ops d d'
  torn :
      (f : File) (text part : String) (ops : List Op) (d d' : Disk)
      → d' ≡ put f (some part) d
      → Crashed (write_text f text ∷ ops) d d'
  ran :
      (op : Op) (ops : List Op) (d d' : Disk)
      → Crashed ops (run_op op d) d'
      → Crashed (op ∷ ops) d d'

-- `not_valid_after_utc` of the certificate on disk; `none` if it is missing or does not parse.
unfoldable pub cert_not_after : X509 → Disk → Option ℕ
cert_not_after x d = elim d.cert [ none ↦ none | some pem ↦ x.pem_not_after pem ]

unfoldable pub relay_cert_exists : X509 → Disk → Bool
unfolding cert_not_after
relay_cert_exists x d =
    not (is_none d.cert) && (not (is_none d.key) && not (is_none (cert_not_after x d)))

abbrev pub day : ℕ
day = 86400

abbrev pub renew_threshold_days : ℕ
renew_threshold_days = 30

-- `days >= RENEW_THRESHOLD_DAYS` and `days > 0`, for an expiry and a time.
abbrev pub is_fresh : ℕ → ℕ → Bool
is_fresh now not_after = leb (now + renew_threshold_days * day) not_after

abbrev pub is_live : ℕ → ℕ → Bool
is_live now not_after = ltb now not_after

-- A chain and its private key, as `issue_relay_cert` gets them.
pub record Pair : Type 0 where
  pub pem_chain : String
  pub key_pem : String

-- The relay while it serves: the disk, and the pair that the live context presents, if there is one.
pub record Relay : Type 0 where
  pub disk : Disk
  pub loaded : Option Pair

-- `load_cert_chain`, if there is a context.
abbrev pub reload : Option Pair → Pair → Option Pair
reload none p = none
reload (some old) p = some p

-- One round of `renewal_loop` after its sleep: `issued` is what the issuance comes to, `none` if it
-- raises.
abbrev pub renew : Option Pair → Relay → Relay
renew none r = r
renew (some p) r = record {
  disk = write_relay_cert p.pem_chain p.key_pem r.disk;
  loaded = reload r.loaded p;
}

unfoldable pub renewal_round : X509 → ℕ → Option Pair → Relay → Relay
unfolding cert_not_after write_relay_cert
renewal_round x now issued r = elim (cert_not_after x r.disk) [
  | none ↦ r
  | some not_after ↦ if is_fresh now not_after then r else renew issued r
]

-- The rounds, a day apart.
unfoldable pub renewal_loop : X509 → ℕ → List (Option Pair) → Relay → Relay
unfolding renewal_round
renewal_loop x now [] r = r
renewal_loop x now (issued ∷ rest) r =
    renewal_loop x (now + day) rest (renewal_round x now issued r)
