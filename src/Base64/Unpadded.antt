-- ===== src/Base64/Unpadded.antt =====
-- `b64url_decode` of an unpadded encoding.
use mathlib.Core.List.{append-nil}
use jackdaw.Json.{str}
use jackdaw.Jws.Keys.{Codec, b64url_decode, pad}
use jackdaw.Base64.{codes, a2b_base64, urlsafe_b64decode, unpadded}
use jackdaw.Jws.Keys.{Bytes, pad}
use jackdaw.Base.{
  ℕ, List, ◌≡◌, ltb, ◌∷◌, some, true, arith, refl, ◌%◌, String, [], ◌++◌, length, ◌<>◌, ◌∙◌, ap,
  sym, suc, all, ◌⊎◌, inl, inr, subst,
}
use Prim.Native.String.{count}
use jackdaw.Base64.Groups.{
  padding, AreBytes, codes-append, ascii_unpadded, length-codes, a2b_base64-padded,
}

-- How the length of the text tells its padding.
abbrev Tells : ℕ → List ℕ → Type 0
Tells n signs =
    ((n % 4 ≡ 0) × (signs ≡ []))
    ⊎ (((n % 4 ≡ 2) × (signs ≡ b'=' ∷ b'=' ∷ [])) ⊎ ((n % 4 ≡ 3) × (signs ≡ b'=' ∷ [])))

Tells-four : (n : ℕ) (signs : List ℕ) → Tells n signs → Tells (suc (suc (suc (suc n)))) signs
Tells-four n signs (inl (e, s)) = inl (omega arith, s)
Tells-four n signs (inr (inl (e, s))) = inr (inl (omega arith, s))
Tells-four n signs (inr (inr (e, s))) = inr (inr (omega arith, s))

padding-Tells : (bytes : Bytes) → Tells (length (unpadded bytes)) (padding bytes)
padding-Tells [] = inl (refl, refl)
padding-Tells (a ∷ []) = inr (inl (refl, refl))
padding-Tells (a ∷ b ∷ []) = inr (inr (refl, refl))
padding-Tells (a ∷ b ∷ c ∷ bytes) =
    Tells-four (length (unpadded bytes)) (padding bytes) (padding-Tells bytes)

pad-none : (s : String) → count s % 4 ≡ 0 → pad s ≡ s
unfolding pad
pad-none s e = rw e refl

pad-two : (s : String) → count s % 4 ≡ 2 → pad s ≡ s <> "=="
unfolding pad
pad-two s e = rw e refl

pad-one : (s : String) → count s % 4 ≡ 3 → pad s ≡ s <> "="
unfolding pad
pad-one s e = rw e refl

two_signs : codes "==" ≡ b'=' ∷ b'=' ∷ []
unfolding codes
two_signs = refl

one_sign : codes "=" ≡ b'=' ∷ []
unfolding codes
one_sign = refl

codes-pad :
    (s : String) (bytes : Bytes)
    → codes s ≡ unpadded bytes
    → codes (pad s) ≡ unpadded bytes ++ padding bytes
codes-pad s bytes e = by_length (
    subst (λ n. Tells n (padding bytes)) (ap length (sym e) ∙ length-codes s) (padding-Tells bytes))
  where
    signed :
        (signs : String) (l : List ℕ)
        → pad s ≡ s <> signs
        → codes signs ≡ l
        → padding bytes ≡ l
        → codes (pad s) ≡ unpadded bytes ++ padding bytes
    signed signs l p k q =
        ap codes p
        ∙ (codes-append s signs
            ∙ (ap (λ x. x ++ codes signs) e ∙ ap (λ x. unpadded bytes ++ x) (k ∙ sym q)))

    by_length : Tells (count s) (padding bytes) → codes (pad s) ≡ unpadded bytes ++ padding bytes
    by_length (inl (n, q)) =
        ap codes (pad-none s n)
        ∙ (e ∙ (sym (append-nil (unpadded bytes)) ∙ ap (λ x. unpadded bytes ++ x) (sym q)))
    by_length (inr (inl (n, q))) = signed "==" (b'=' ∷ b'=' ∷ []) (pad-two s n) two_signs q
    by_length (inr (inr (n, q))) = signed "=" (b'=' ∷ []) (pad-one s n) one_sign q

urlsafe_b64decode-codes :
    (s : String) (l : List ℕ)
    → codes s ≡ l
    → all (λ c. ltb c 128) l ≡ true
    → urlsafe_b64decode s ≡ a2b_base64 0 0 0 l
unfolding urlsafe_b64decode
urlsafe_b64decode-codes s l e ascii = ground (arith, ascii, e)

-- `b64url_decode`, with the `urlsafe_b64decode` of Python, gives back the bytes whose base64url
-- encoding without padding the text is, whatever their number.
pub b64url_decode-unpadded :
    (c : Codec) (s : String) (bytes : Bytes)
    → ((t : String) → c.urlsafe_b64decode t ≡ urlsafe_b64decode t)
    → AreBytes bytes
    → codes s ≡ unpadded bytes
    → b64url_decode c (str s) ≡ some bytes
unfolding b64url_decode
b64url_decode-unpadded c s bytes python ok_bytes e =
    python (pad s)
    ∙ (urlsafe_b64decode-codes (pad s) (unpadded bytes ++ padding bytes) (codes-pad s bytes e)
          (ascii_unpadded bytes ok_bytes)
        ∙ a2b_base64-padded bytes ok_bytes)
