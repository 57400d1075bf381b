-- ===== src/Base64/Groups.antt =====
-- The decoder on the groups of digits that the encoder writes.
use mathlib.Core.Option
use text.Mathlib.TextLemmas.{length-nil, length-cons, nil-append, cons-append}
use jackdaw.Base64.{codes, digit, digit_value, a2b_base64, unpadded, code}
use jackdaw.Jws.Keys.{Bytes}
use jackdaw.Base.{
  ℕ, ◌<◌, List, ◌≡◌, eqb, ltb, ◌∷◌, some, false, true, ◌*◌, arith, ◌+◌, refl, ◌/◌, ◌%◌, String, All,
  [], ◌++◌, length, ◌<>◌, ◌∙◌, ap, sym, suc, all,
}
use Prim.Native.String.{count}

digit_value-digit : (v : ℕ) → v < 64 → digit_value (digit v) ≡ some v
digit_value-digit v h = ground arith

digit-pad : (v : ℕ) → v < 64 → eqb (digit v) b'=' ≡ false
digit-pad v h = ground arith

digit-ascii : (v : ℕ) → v < 64 → ltb (digit v) 128 ≡ true
digit-ascii v h = ground arith

first_digit :
    (v left pads : ℕ) (cs : List ℕ)
    → v < 64
    → a2b_base64 0 left pads (digit v ∷ cs) ≡ a2b_base64 1 v 0 cs
unfolding a2b_base64
first_digit v left pads cs h = rw (digit-pad v h, digit_value-digit v h) refl

second_digit :
    (v left pads : ℕ) (cs : List ℕ)
    → v < 64
    → a2b_base64 1 left pads (digit v ∷ cs)
      ≡ Option.map (λ (r : Bytes). (left * 4 + v / 16) ∷ r) (a2b_base64 2 (v % 16) 0 cs)
unfolding a2b_base64
second_digit v left pads cs h = rw (digit-pad v h, digit_value-digit v h) refl

third_digit :
    (v left pads : ℕ) (cs : List ℕ)
    → v < 64
    → a2b_base64 2 left pads (digit v ∷ cs)
      ≡ Option.map (λ (r : Bytes). (left * 16 + v / 4) ∷ r) (a2b_base64 3 (v % 4) 0 cs)
unfolding a2b_base64
third_digit v left pads cs h = rw (digit-pad v h, digit_value-digit v h) refl

fourth_digit :
    (v left pads : ℕ) (cs : List ℕ)
    → v < 64
    → a2b_base64 3 left pads (digit v ∷ cs)
      ≡ Option.map (λ (r : Bytes). (left * 64 + v) ∷ r) (a2b_base64 0 0 0 cs)
unfolding a2b_base64
fourth_digit v left pads cs h = rw (digit-pad v h, digit_value-digit v h) refl

pub length-codes : (s : String) → length (codes s) ≡ count s
unfolding codes
length-codes String.[] = sym length-nil
length-codes (String.◌∷◌ c s) = ap suc (length-codes s) ∙ sym (length-cons c s)

pub codes-append : (s t : String) → codes (s <> t) ≡ codes s ++ codes t
unfolding codes
codes-append String.[] t = ap codes (nil-append t)
codes-append (String.◌∷◌ c s) t =
    ap codes (cons-append c s t) ∙ ap (λ l. code c ∷ l) (codes-append s t)

-- The padding that the encoder takes off.
abbrev pub padding : Bytes → List ℕ
padding [] = []
padding (a ∷ []) = b'=' ∷ b'=' ∷ []
padding (a ∷ b ∷ []) = b'=' ∷ []
padding (a ∷ b ∷ c ∷ bytes) = padding bytes

abbrev pub AreBytes : Bytes → Type 0
AreBytes bytes = All (λ b. b < 256) bytes

one_pad : (left pads : ℕ) → a2b_base64 3 left pads (b'=' ∷ []) ≡ some []
unfolding a2b_base64
one_pad left pads = ground arith

two_pads : (left : ℕ) → a2b_base64 2 left 0 (b'=' ∷ b'=' ∷ []) ≡ some []
unfolding a2b_base64
two_pads left = refl

-- A group of four digits, and the two groups that may end a text.
four_digits :
    (v w x y : ℕ) (cs : List ℕ) (bytes : Bytes)
    → v < 64
    → w < 64
    → x < 64
    → y < 64
    → a2b_base64 0 0 0 cs ≡ some bytes
    → a2b_base64 0 0 0 (digit v ∷ digit w ∷ digit x ∷ digit y ∷ cs)
      ≡ some ((v * 4 + w / 16) ∷ (w % 16 * 16 + x / 4) ∷ (x % 4 * 64 + y) ∷ bytes)
four_digits v w x y cs bytes hv hw hx hy e =
    rw
      (
        first_digit v 0 0 (digit w ∷ digit x ∷ digit y ∷ cs) hv,
        second_digit w v 0 (digit x ∷ digit y ∷ cs) hw,
        third_digit x (w % 16) 0 (digit y ∷ cs) hx,
        fourth_digit y (x % 4) 0 cs hy,
        e,
      )
      refl

two_digits :
    (v w : ℕ)
    → v < 64
    → w < 64
    → a2b_base64 0 0 0 (digit v ∷ digit w ∷ b'=' ∷ b'=' ∷ []) ≡ some ((v * 4 + w / 16) ∷ [])
two_digits v w hv hw =
    rw
      (
        first_digit v 0 0 (digit w ∷ b'=' ∷ b'=' ∷ []) hv,
        second_digit w v 0 (b'=' ∷ b'=' ∷ []) hw,
        two_pads (w % 16),
      )
      refl

three_digits :
    (v w x : ℕ)
    → v < 64
    → w < 64
    → x < 64
    → a2b_base64 0 0 0 (digit v ∷ digit w ∷ digit x ∷ b'=' ∷ [])
      ≡ some ((v * 4 + w / 16) ∷ (w % 16 * 16 + x / 4) ∷ [])
three_digits v w x hv hw hx =
    rw
      (
        first_digit v 0 0 (digit w ∷ digit x ∷ b'=' ∷ []) hv,
        second_digit w v 0 (digit x ∷ b'=' ∷ []) hw,
        third_digit x (w % 16) 0 (b'=' ∷ []) hx,
        one_pad (x % 4) 0,
      )
      refl

no_digits : a2b_base64 0 0 0 [] ≡ some []
unfolding a2b_base64
no_digits = refl

first_byte : (a b : ℕ) → b < 256 → a / 4 * 4 + (a % 4 * 16 + b / 16) / 16 ≡ a
first_byte a b h = omega arith

second_byte :
    (a b c : ℕ)
    → b < 256
    → c < 256
    → (a % 4 * 16 + b / 16) % 16 * 16 + (b % 16 * 4 + c / 64) / 4 ≡ b
second_byte a b c h k = omega arith

third_byte : (b c : ℕ) → c < 256 → (b % 16 * 4 + c / 64) % 4 * 64 + c % 64 ≡ c
third_byte b c h = omega arith

lone_byte : (a : ℕ) → a / 4 * 4 + a % 4 * 16 / 16 ≡ a
lone_byte a = omega arith

last_byte : (a b : ℕ) → b < 256 → (a % 4 * 16 + b / 16) % 16 * 16 + b % 16 * 4 / 4 ≡ b
last_byte a b h = omega arith

pub a2b_base64-padded :
    (bytes : Bytes)
    → AreBytes bytes
    → a2b_base64 0 0 0 (unpadded bytes ++ padding bytes) ≡ some bytes
a2b_base64-padded [] h = no_digits
a2b_base64-padded (a ∷ []) (ha, _) =
    two_digits (a / 4) (a % 4 * 16) (omega arith) (omega arith)
    ∙ ap (λ k. some (k ∷ [])) (lone_byte a)
a2b_base64-padded (a ∷ b ∷ []) (ha, (hb, _)) =
    three_digits (a / 4) (a % 4 * 16 + b / 16) (b % 16 * 4) (omega arith) (omega arith)
      (omega arith)
    ∙ (ap (λ k. some (k ∷ ((a % 4 * 16 + b / 16) % 16 * 16 + b % 16 * 4 / 4) ∷ []))
          (first_byte a b hb)
        ∙ ap (λ k. some (a ∷ k ∷ [])) (last_byte a b hb))
a2b_base64-padded (a ∷ b ∷ c ∷ bytes) (ha, (hb, (hc, h))) =
    four_digits (a / 4) (a % 4 * 16 + b / 16) (b % 16 * 4 + c / 64) (c % 64)
      (unpadded bytes ++ padding bytes) bytes (omega arith) (omega arith) (omega arith)
      (omega arith) (a2b_base64-padded bytes h)
    ∙ (ap
          (λ k. some (
            k
            ∷ ((a % 4 * 16 + b / 16) % 16 * 16 + (b % 16 * 4 + c / 64) / 4)
            ∷ ((b % 16 * 4 + c / 64) % 4 * 64 + c % 64)
            ∷ bytes))
          (first_byte a b hb)
        ∙ (ap (λ k. some (a ∷ k ∷ ((b % 16 * 4 + c / 64) % 4 * 64 + c % 64) ∷ bytes))
              (second_byte a b c hb hc)
            ∙ ap (λ k. some (a ∷ b ∷ k ∷ bytes)) (third_byte b c hc)))

pub ascii_unpadded :
    (bytes : Bytes) → AreBytes bytes → all (λ c. ltb c 128) (unpadded bytes ++ padding bytes) ≡ true
ascii_unpadded [] h = refl
ascii_unpadded (a ∷ []) (ha, _) =
    rw (digit-ascii (a / 4) (omega arith), digit-ascii (a % 4 * 16) (omega arith)) refl
ascii_unpadded (a ∷ b ∷ []) (ha, (hb, _)) =
    rw
      (
        digit-ascii (a / 4) (omega arith),
        digit-ascii (a % 4 * 16 + b / 16) (omega arith),
        digit-ascii (b % 16 * 4) (omega arith),
      )
      refl
ascii_unpadded (a ∷ b ∷ c ∷ bytes) (ha, (hb, (hc, h))) =
    rw
      (
        digit-ascii (a / 4) (omega arith),
        digit-ascii (a % 4 * 16 + b / 16) (omega arith),
        digit-ascii (b % 16 * 4 + c / 64) (omega arith),
        digit-ascii (c % 64) (omega arith),
      )
      (ascii_unpadded bytes h)
