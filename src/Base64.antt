-- ===== src/Base64.antt =====
-- base64 of Python as src/jackdaw/_util.py and src/jackdaw/services/http01.py use it, over the codes
-- of the characters.
pub mod Groups
pub mod Unpadded
mod Tests
use mathlib.Core.Option
use jackdaw.Jws.Keys.{Bytes}
use Prim.Native.Char.{code}
use jackdaw.Base.{
  String, ℕ, List, [], if◌then◌else◌, Option, ◌∷◌, ltb, leb, eqb, all, ◌/◌, ◌+◌, ◌&&◌, some, none,
  ◌%◌, ◌-◌, suc, ◌*◌, ◌||◌,
}

unfoldable pub codes : String → List ℕ
codes String.[] = []
codes (String.◌∷◌ c s) = code c ∷ codes s

-- The character of a number below 64.
abbrev pub digit : ℕ → ℕ
digit v =
    if ltb v 26
    then v + 65
    else (if ltb v 52
        then v + 71
        else (if ltb v 62 then v - 4 else (if eqb v 62 then b'-' else b'_')))

-- The number of a character; `urlsafe_b64decode` takes both alphabets.
abbrev pub digit_value : ℕ → Option ℕ
digit_value c =
    if leb 65 c && leb c 90
    then some (c - 65)
    else (if leb 97 c && leb c 122
        then some (c - 71)
        else (if leb 48 c && leb c 57
            then some (c + 4)
            else (if eqb c b'-' || eqb c b'+'
                then some 62
                else (if eqb c b'_' || eqb c b'/' then some 63 else none))))

-- `binascii.a2b_base64`: `place` counts the characters of the current group, `left` has the bits that
-- are not in a byte yet, `pads` counts padding. Other characters are skipped.
unfoldable pub a2b_base64 : (place left pads : ℕ) → List ℕ → Option Bytes
a2b_base64 place left pads [] = if eqb place 0 then some [] else none
a2b_base64 place left pads (c ∷ cs) =
    let padded = a2b_base64 place left (if leb 2 place then suc pads else pads) cs in
    let skipped = a2b_base64 place left pads cs in
    let first = λ (v : ℕ). a2b_base64 1 v 0 cs in
    let second =
      λ (v : ℕ). Option.map (λ (r : Bytes). (left * 4 + v / 16) ∷ r) (a2b_base64 2 (v % 16) 0 cs) in
    let third =
      λ (v : ℕ). Option.map (λ (r : Bytes). (left * 16 + v / 4) ∷ r) (a2b_base64 3 (v % 4) 0 cs) in
    let fourth = λ (v : ℕ). Option.map (λ (r : Bytes). (left * 64 + v) ∷ r) (a2b_base64 0 0 0 cs) in
    if eqb c b'='
    then (if leb 2 place && leb 4 (place + suc pads) then some [] else padded)
    else elim (digit_value c) [
      | none ↦ skipped
      | some v ↦
          if eqb place 0
          then first v
          else (if eqb place 1 then second v else (if eqb place 2 then third v else fourth v))
    ]

-- `base64.urlsafe_b64decode` of a text; `none` where it raises.
unfoldable pub urlsafe_b64decode : String → Option Bytes
unfolding codes a2b_base64
urlsafe_b64decode s = if all (λ c. ltb c 128) (codes s) then a2b_base64 0 0 0 (codes s) else none

-- The codes of `base64.urlsafe_b64encode(bytes).rstrip(b"=")`.
abbrev pub unpadded : Bytes → List ℕ
unpadded [] = []
unpadded (a ∷ []) = digit (a / 4) ∷ digit (a % 4 * 16) ∷ []
unpadded (a ∷ b ∷ []) = digit (a / 4) ∷ digit (a % 4 * 16 + b / 16) ∷ digit (b % 16 * 4) ∷ []
unpadded (a ∷ b ∷ c ∷ bytes) =
    digit (a / 4)
    ∷ digit (a % 4 * 16 + b / 16)
    ∷ digit (b % 16 * 4 + c / 64)
    ∷ digit (c % 64)
    ∷ unpadded bytes
