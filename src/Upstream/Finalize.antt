-- ===== src/Upstream/Finalize.antt =====
-- src/jackdaw/services/le_client.py: `new_order`, `finalize_and_wait` and the map of order urls that
-- they share.
pub mod Recovery
use jackdaw.Upstream.Polling.{
  Answer, Polled, poll_order_for_cert, download_of, certificate_error, other_error,
}
use jackdaw.Base.Text.{contains}
use jackdaw.Base.{
  String, Bool, List, Option, none, true, ℕ, some, false, ◌∷◌, if◌then◌else◌, ◌==◌, ◌&&◌, [],
}

-- The exception classes of gufo-acme that the code tells apart, all below `AcmeError`, and any other.
pub data ExceptionClass : Type 0 where
  rate_limit unauthorized fulfillment_failed timeout connect acme_error unknown : ExceptionClass

pub record Raised : Type 0 where
  pub class : ExceptionClass
  pub message : String

abbrev pub is_acme_error : ExceptionClass → Bool
is_acme_error rate_limit = true
is_acme_error unauthorized = true
is_acme_error fulfillment_failed = true
is_acme_error timeout = true
is_acme_error connect = true
is_acme_error acme_error = true
is_acme_error unknown = false

unfoldable pub is_order_already_finalized : Raised → Bool
unfolding contains
is_order_already_finalized e = contains e.message "orderNotReady"

-- The dictionary from finalize urls to order urls; a key stands in it once.
abbrev pub OrderUrls : Type 0
OrderUrls = List (String × String)

unfoldable pub stored_url : String → OrderUrls → Option String
stored_url key [] = none
stored_url key ((k, v) ∷ urls) =
    let found = stored_url key urls in if k == key then some v else found

unfoldable pub without_url : String → OrderUrls → OrderUrls
without_url key [] = []
without_url key ((k, v) ∷ urls) =
    let kept = without_url key urls in if k == key then kept else (k, v) ∷ kept

-- What a reply to a new order has: the url to finalize, and `Location`.
pub record NewOrderReply : Type 0 where
  pub finalize : String
  pub location : Option String

unfoldable pub capture_order_url : NewOrderReply → OrderUrls → OrderUrls
unfolding without_url
capture_order_url reply urls = elim reply.location [
  | none ↦ urls
  | some loc ↦ (reply.finalize, loc) ∷ without_url reply.finalize urls
]

-- The reply to the finalize POST: an exception of the POST or of `_get_order_status`, or a response.
-- `body_status` and `body_certificate` are the fields of its JSON, `none` if they are missing.
pub data FinalizeReply : Type 0 where
  refused : Raised → FinalizeReply
  bad_status : Raised → FinalizeReply
  replied : (location body_status body_certificate : Option String) → FinalizeReply

-- Let's Encrypt while it issues: the answers to the polls of an order, and a download.
pub record Issuer : Type 0 where
  pub answers : String → ℕ → Answer
  pub download : String → Option String

pub data Finalized : Type 0 where
  polled : Polled → Finalized
  raises_again : Raised → Finalized

-- The certificate in the body of the response, as the last resort.
abbrev pub from_body : Issuer → Option String → Option String → Finalized
from_body issuer (some status) (some certificate) =
    if status == "valid"
    then polled (download_of (issuer.download certificate))
    else polled
        (certificate_error "Finalize response missing Location header and no order URL available")
from_body issuer none certificate =
    polled
      (certificate_error "Finalize response missing Location header and no order URL available")
from_body issuer (some status) none =
    polled
      (certificate_error "Finalize response missing Location header and no order URL available")

abbrev pub poll : Issuer → String → Finalized
poll issuer uri = polled (poll_order_for_cert uri (issuer.answers uri))

-- With the order url that was popped.
abbrev pub after_reply : Issuer → Option String → FinalizeReply → Finalized
after_reply issuer none (refused e) = raises_again e
after_reply issuer (some stored) (refused e) =
    if is_acme_error e.class && is_order_already_finalized e
    then poll issuer stored
    else raises_again e
after_reply issuer stored (bad_status e) = raises_again e
after_reply issuer stored (replied (some location) status certificate) = poll issuer location
after_reply issuer (some stored) (replied none status certificate) = poll issuer stored
after_reply issuer none (replied none status certificate) = from_body issuer status certificate

unfoldable pub finalize_and_wait :
    Issuer → String → FinalizeReply → OrderUrls → Finalized × OrderUrls
unfolding stored_url without_url is_order_already_finalized
finalize_and_wait issuer finalize reply urls =
    (after_reply issuer (stored_url finalize urls) reply, without_url finalize urls)
