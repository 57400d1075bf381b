-- ===== src/Base64/Tests.antt =====
-- A text of three characters, and what the decoder skips and refuses.
use jackdaw.Base64.{codes, urlsafe_b64decode, unpadded, a2b_base64}
use jackdaw.Base64.Unpadded.{b64url_decode-unpadded}
use jackdaw.Jws.Keys.{Codec, b64url_decode}
use jackdaw.Jws.Samples.{sample_codec}
use jackdaw.Json.{str}
use jackdaw.Base.{◌≡◌, ◌∷◌, some, none, [], refl, arith}

abbrev python_codec : Codec
python_codec = record (sample_codec (str "") (str "")) { urlsafe_b64decode = urlsafe_b64decode }

hi_codes : codes "aGk" ≡ unpadded (104 ∷ 105 ∷ [])
unfolding codes
hi_codes = refl

b64url_decode-unpadded_example : b64url_decode python_codec (str "aGk") ≡ some (104 ∷ 105 ∷ [])
b64url_decode-unpadded_example =
    b64url_decode-unpadded python_codec "aGk" (104 ∷ 105 ∷ []) (λ t. refl)
      (omega arith, (omega arith, tt)) hi_codes

skips_newline : urlsafe_b64decode "aG\nk=" ≡ some (104 ∷ 105 ∷ [])
unfolding urlsafe_b64decode codes a2b_base64
skips_newline = refl

lone_character : urlsafe_b64decode "a===" ≡ none
unfolding urlsafe_b64decode codes a2b_base64
lone_character = refl
