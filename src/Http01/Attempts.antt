-- ===== src/Http01/Attempts.antt =====
-- The rest of src/jackdaw/services/http01.py: the answer of one attempt, and the retries.
use jackdaw.Base.{String, ℕ, if◌then◌else◌, [], ◌==◌, eqb, ◌<>◌, suc, ◌∷◌, ◌&&◌, zero}
use jackdaw.Base.Text.{strip, contains}
use jackdaw.Jws.Keys.{is_ascii, Bytes}
use jackdaw.Http01.{
  Resolver, resolve_and_check, Checked, validation_error, passed, rejected, crashed,
}
use jackdaw.AcmeErrors.{connection, unauthorized, dns}

-- The answer of the HTTP client to one GET, or the exception it raises.
pub data Response : Type 0 where
  timeout : Response
  request_error : (text : String) → Response
  reply : (status_code : ℕ) (content : Bytes) → Response

-- `decode("ascii", errors="replace")`, and the text of a number.
pub record Fetch : Type 0 where
  pub domain : String
  pub challenge_timeout : ℕ
  pub decode_ascii : Bytes → String
  pub repr : String → String
  pub str : ℕ → String

-- `content[:n]`
unfoldable pub take : ℕ → Bytes → Bytes
take zero bs = []
take (suc n) [] = []
take (suc n) (b ∷ bs) = b ∷ take n bs

abbrev pub max_response_bytes : ℕ
max_response_bytes = 4096

unfoldable pub body_of : Fetch → Bytes → String
unfolding take strip
body_of f content = strip (f.decode_ascii (take max_response_bytes content))

-- `hmac.compare_digest` of two texts raises a TypeError unless both are ASCII.
unfoldable pub compare_body : Fetch → String → String → Checked (Unit {0})
unfolding is_ascii
compare_body f body expected =
    if body == ""
    then validation_error unauthorized ("HTTP-01 response body is empty for " <> f.repr f.domain)
    else (if is_ascii body && is_ascii expected
        then (if body == expected
            then passed tt
            else validation_error unauthorized
                ("HTTP-01 key authorization mismatch for " <> f.repr f.domain))
        else crashed "comparing strings with non-ASCII characters is not supported")

-- `_fetch_and_compare`, for an answer of the client.
unfoldable pub fetch_and_compare : Fetch → String → Response → Checked (Unit {0})
unfolding body_of compare_body
fetch_and_compare f expected timeout = validation_error connection (
    "HTTP-01 request timed out for "
    <> (f.repr f.domain <> (" after " <> (f.str f.challenge_timeout <> "s"))))
fetch_and_compare f expected (request_error text) =
    validation_error connection
      ("HTTP-01 request failed for " <> (f.repr f.domain <> (": " <> text)))
fetch_and_compare f expected (reply status_code content) =
    if eqb status_code 200
    then compare_body f (body_of f content) expected
    else validation_error unauthorized (
        "HTTP-01 challenge URL returned status "
        <> (f.str status_code <> (" for " <> f.repr f.domain)))

-- `except Exception` around the resolution.
abbrev pub resolved : Resolver → String → Checked String
resolved r domain = elim (resolve_and_check r domain) [
  | passed ip ↦ passed ip
  | rejected p ↦ rejected p
  | crashed text ↦
      validation_error dns ("Unexpected error resolving " <> (r.repr domain <> (": " <> text)))
]

abbrev pub host_port : (ℕ → String) → ℕ → String
host_port str port = if eqb port 80 then "" else ":" <> str port

-- The url that is fetched: the address, in brackets if it is an IPv6 address.
unfoldable pub target : (ℕ → String) → ℕ → String → String → String
unfolding contains
target str port url_path ip =
    if contains ip ":"
    then "http://[" <> (ip <> ("]" <> (host_port str port <> url_path)))
    else "http://" <> (ip <> (host_port str port <> url_path))

-- `_attempt_validation` without a client factory; `get` is the client, for a url.
unfoldable pub attempt_validation :
    Resolver → Fetch → ℕ → String → String → (String → Response) → Checked (Unit {0})
unfolding resolve_and_check target fetch_and_compare
attempt_validation r f port url_path expected get = elim (resolved r f.domain) [
  | passed ip ↦ fetch_and_compare f expected (get (target f.str port url_path ip))
  | rejected p ↦ rejected p
  | crashed text ↦ crashed text
]

-- The loop of `validate_http01` from one attempt on, with that many left.
unfoldable pub attempts_from : (ℕ → Checked (Unit {0})) → ℕ → ℕ → ℕ → Checked (Unit {0})
attempts_from attempt retries i zero = passed tt
attempts_from attempt retries i (suc left) =
    let rest = attempts_from attempt retries (suc i) left in
    elim (attempt i) [
      | passed u ↦ passed u
      | rejected p ↦ if eqb i retries then rejected p else rest
      | crashed text ↦ crashed text
    ]

-- `for attempt in range(1, retries + 1)`
unfoldable pub validate_http01 : (ℕ → Checked (Unit {0})) → ℕ → Checked (Unit {0})
unfolding attempts_from
validate_http01 attempt retries = attempts_from attempt retries 1 retries
