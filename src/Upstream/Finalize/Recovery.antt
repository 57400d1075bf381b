-- ===== src/Upstream/Finalize/Recovery.antt =====
-- Orders of several domains at once: what the finalize call of one of them gets.
use jackdaw.Upstream.Finalize.{
  OrderUrls, NewOrderReply, FinalizeReply, Issuer, capture_order_url, finalize_and_wait, stored_url,
  without_url, refused, poll, is_acme_error, is_order_already_finalized, after_reply, replied,
  bad_status,
}
use jackdaw.Base.{
  String, List, ◌≢◌, ◌≡◌, All, some, ◌∷◌, arith, none, ◌∙◌, [], eq_iff, eq_refl, refl, Option, true,
  ap,
}
use jackdaw.Base.Text.{contains}

-- Another order is made, or finalized.
pub data Event : Type 0 where
  made : NewOrderReply → Event
  finalized : (finalize : String) → FinalizeReply → Event

abbrev pub finalize_url : Event → String
finalize_url (made reply) = reply.finalize
finalize_url (finalized finalize reply) = finalize

abbrev pub step : Issuer → Event → OrderUrls → OrderUrls
step issuer (made reply) urls = capture_order_url reply urls
step issuer (finalized finalize reply) urls = (finalize_and_wait issuer finalize reply urls).1

abbrev pub steps : Issuer → List Event → OrderUrls → OrderUrls
steps issuer [] urls = urls
steps issuer (e ∷ events) urls = steps issuer events (step issuer e urls)

stored_url-without_url :
    (key other : String) (urls : OrderUrls)
    → other ≢ key
    → stored_url key (without_url other urls) ≡ stored_url key urls
unfolding stored_url without_url
stored_url-without_url key other [] ne = refl
stored_url-without_url key other ((k, v) ∷ urls) ne =
    let ih = stored_url-without_url key other urls ne in
    ground (arith, eq_iff k key, eq_iff k other)

stored_url-removed :
    (key : String) (urls : OrderUrls) → stored_url key (without_url key urls) ≡ none
unfolding stored_url without_url
stored_url-removed key [] = refl
stored_url-removed key ((k, v) ∷ urls) = let ih = stored_url-removed key urls in ground arith

stored_url-new_order_other :
    (f key : String) (location : Option String) (urls : OrderUrls)
    → f ≢ key
    → stored_url key (capture_order_url (record { finalize = f; location = location }) urls)
      ≡ stored_url key urls
unfolding stored_url capture_order_url
stored_url-new_order_other f key none urls ne = refl
stored_url-new_order_other f key (some loc) urls ne =
    let ih = stored_url-without_url key f urls ne in ground (arith, eq_iff f key)

stored_url-step :
    (issuer : Issuer) (key : String) (e : Event) (urls : OrderUrls)
    → finalize_url e ≢ key
    → stored_url key (step issuer e urls) ≡ stored_url key urls
unfolding stored_url capture_order_url finalize_and_wait
stored_url-step issuer key (made reply) urls ne =
    stored_url-new_order_other reply.finalize key reply.location urls ne
stored_url-step issuer key (finalized f reply) urls ne = stored_url-without_url key f urls ne

stored_url-steps :
    (issuer : Issuer) (key : String) (events : List Event) (urls : OrderUrls)
    → All (λ e. finalize_url e ≢ key) events
    → stored_url key (steps issuer events urls) ≡ stored_url key urls
stored_url-steps issuer key [] urls ne = refl
stored_url-steps issuer key (e ∷ events) urls (ne, nes) =
    stored_url-steps issuer key events (step issuer e urls) nes
    ∙ stored_url-step issuer key e urls ne

stored_url-capture_order_url :
    (f loc : String) (urls : OrderUrls)
    → stored_url f (capture_order_url (record { finalize = f; location = some loc }) urls)
      ≡ some loc
unfolding stored_url capture_order_url
stored_url-capture_order_url f loc urls = ground (arith, eq_refl f)

-- The finalize call is refused because the order is no longer ready, or is answered without a `Location`.
abbrev pub Recoverable : FinalizeReply → Type 0
Recoverable (refused e) =
    (is_acme_error e.class ≡ true) × (contains e.message "orderNotReady" ≡ true)
Recoverable (bad_status e) = ⊥
Recoverable (replied (some location) status certificate) = ⊥
Recoverable (replied none status certificate) = Unit

after_reply-Recoverable :
    (issuer : Issuer) (loc : String) (reply : FinalizeReply)
    → Recoverable reply
    → after_reply issuer (some loc) reply ≡ poll issuer loc
unfolding is_order_already_finalized
after_reply-Recoverable issuer loc (refused e) (a, b) = rw (a, b) refl
after_reply-Recoverable issuer loc (bad_status e) h = absurd h
after_reply-Recoverable issuer loc (replied (some location) status certificate) h = absurd h
after_reply-Recoverable issuer loc (replied none status certificate) h = refl

abbrev pub after_others : Issuer → String → String → List Event → OrderUrls → OrderUrls
after_others issuer f loc events urls =
    steps issuer events (capture_order_url (record { finalize = f; location = some loc }) urls)

-- An order was made with a `Location`, and other orders were made and finalized since, in any number.
-- If its own finalize call is then refused because the order is no longer ready, or is answered
-- without a `Location`, its certificate is polled for at that first `Location`; and whatever the
-- answer, its entry is gone from the map.
pub finalize_recovers :
    (issuer : Issuer) (f loc : String) (events : List Event) (reply : FinalizeReply)
    (urls : OrderUrls)
    → All (λ e. finalize_url e ≢ f) events
    → (Recoverable reply
        → (finalize_and_wait issuer f reply (after_others issuer f loc events urls)).0
          ≡ poll issuer loc)
      × (stored_url f (finalize_and_wait issuer f reply (after_others issuer f loc events urls)).1
          ≡ none)
unfolding finalize_and_wait
finalize_recovers issuer f loc events reply urls ne = (
  (λ h.
      ap (λ u. after_reply issuer u reply)
        (stored_url-steps issuer f events
            (capture_order_url (record { finalize = f; location = some loc }) urls) ne
          ∙ stored_url-capture_order_url f loc urls)
      ∙ after_reply-Recoverable issuer loc reply h),
  stored_url-removed f (after_others issuer f loc events urls),
)
