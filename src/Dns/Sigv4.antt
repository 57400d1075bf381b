-- ===== src/Dns/Sigv4.antt =====
-- src/jackdaw/dns/providers/route53.py: the query text and the signature of a request. `date` and
-- `amzdate` are the time of the request, as `strftime` prints it.
use jackdaw.Base.{String, ◌<>◌, List, ◌∷◌, [], if◌then◌else◌, ◌==◌}
use jackdaw.Jws.Keys.{Bytes}
use Prim.Native.String.{compare}
use Prim.Native.Nat.{Ordering}

-- What the standard library computes: SHA-256 in hexadecimal, HMAC-SHA-256 (`hmac.digest`,
-- `hmac.hexdigest`), the bytes of a text, and `urllib.parse.quote` with no safe character.
pub record Hashes : Type 0 where
  pub sha256_hex : String → String
  pub mac : Bytes → String → Bytes
  pub mac_hex : Bytes → String → String
  pub encode : String → Bytes
  pub quote : String → String

unfoldable pub derive_key : Hashes → (secret date : String) → Bytes
derive_key h secret date =
    h.mac (h.mac (h.mac (h.mac (h.encode ("AWS4" <> secret)) date) "us-east-1") "route53")
      "aws4_request"

-- Puts a parameter before the first one with a greater key.
abbrev insert_param : String × String → List (String × String) → List (String × String)
insert_param p [] = p ∷ []
insert_param p (q ∷ rest) =
    let later = q ∷ insert_param p rest in
    elim (compare p.0 q.0) [ Ordering.gt ↦ later | _ ↦ p ∷ q ∷ rest ]

-- `sorted(params.items())`, for keys that differ.
unfoldable pub sort_params : List (String × String) → List (String × String)
sort_params [] = []
sort_params (p ∷ rest) = insert_param p (sort_params rest)

abbrev join : String → List String → String
join separator [] = ""
join separator (s ∷ []) = s
join separator (s ∷ t ∷ rest) = s <> (separator <> join separator (t ∷ rest))

abbrev quoted : Hashes → List (String × String) → List String
quoted h [] = []
quoted h ((k, v) ∷ rest) = (h.quote k <> ("=" <> h.quote v)) ∷ quoted h rest

unfoldable pub canonical_qs : Hashes → List (String × String) → String
unfolding sort_params
canonical_qs h params = join "&" (quoted h (sort_params params))

pub record Credentials : Type 0 where
  pub access_key : String
  pub secret_key : String
  pub session_token : String

abbrev canonical_headers : (amzdate session_token : String) → String
canonical_headers amzdate session_token =
    if session_token == ""
    then "host:route53.amazonaws.com\nx-amz-date:" <> (amzdate <> "\n")
    else "host:route53.amazonaws.com\nx-amz-date:"
      <> (amzdate <> ("\nx-amz-security-token:" <> (session_token <> "\n")))

abbrev signed_headers : String → String
signed_headers session_token =
    if session_token == "" then "host;x-amz-date" else "host;x-amz-date;x-amz-security-token"

unfoldable pub string_to_sign :
    Hashes → Credentials → (date amzdate method path query body : String) → String
string_to_sign h c date amzdate method path query body = join "\n" (
    "AWS4-HMAC-SHA256"
    ∷ amzdate
    ∷ (date <> "/us-east-1/route53/aws4_request")
    ∷ h.sha256_hex (
        join "\n" (
          method
          ∷ path
          ∷ query
          ∷ canonical_headers amzdate c.session_token
          ∷ signed_headers c.session_token
          ∷ h.sha256_hex body
          ∷ []))
    ∷ [])

unfoldable pub sigv4_headers :
    Hashes → Credentials → (date amzdate method path query body : String) → List (String × String)
unfolding string_to_sign derive_key
sigv4_headers h c date amzdate method path query body =
    ("X-Amz-Date", amzdate)
    ∷ (
      "Authorization",
      "AWS4-HMAC-SHA256 Credential="
          <> (c.access_key
              <> ("/"
                  <> (date
                      <> ("/us-east-1/route53/aws4_request, SignedHeaders="
                          <> (signed_headers c.session_token
                              <> (", Signature="
                                  <> h.mac_hex (derive_key h c.secret_key date) (
                                      string_to_sign h c date amzdate method path query body))))))),
    )
    ∷ (if c.session_token == "" then [] else ("X-Amz-Security-Token", c.session_token) ∷ [])
