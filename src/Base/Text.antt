-- ===== src/Base/Text.antt =====
-- The text operations of Python that the routes use.
use Prim.Native.Char.{Char, code}
use Prim.Native.Nat.{ℕ}
use Prim.Native.String.{String, ◌++◌}
use text.Mathlib.Text.{◌==◌, starts_with}
use mathlib.Core.Option.{Option, none, some}
use mathlib.Core.Bool.{Bool, true, ◌&&◌, ◌||◌}
use mathlib.Core.Path.{◌≡◌, refl}
use jackdaw.Base.Tests.{leb, eqb, if◌then◌else◌}

-- `s.endswith(t)`: some tail of `s` is `t`.
unfoldable pub ends_with : String → String → Bool
ends_with String.[] t = "" == t
ends_with (String.◌∷◌ c s) t = String.◌∷◌ c s == t || ends_with s t

-- `t in s`: some tail of `s` starts with `t`.
unfoldable pub contains : String → String → Bool
contains String.[] t = t == ""
contains (String.◌∷◌ c s) t = starts_with (String.◌∷◌ c s) t || contains s t

-- `s[len(p):]` where `s.startswith(p)`, and `none` elsewhere.
unfoldable pub remove_prefix : String → String → Option String
remove_prefix String.[] s = some s
remove_prefix (String.◌∷◌ c p) String.[] = none
remove_prefix (String.◌∷◌ c p) (String.◌∷◌ d s) =
    if eqb (code c) (code d) then remove_prefix p s else none

-- The ASCII part of `str.isspace`: the control codes 9 to 13 and 28 to 31, and the blank.
unfoldable pub is_space : Char → Bool
is_space c = (leb 9 (code c) && leb (code c) 13) || (leb 28 (code c) && leb (code c) 32)

unfoldable pub is_blank : String → Bool
unfolding is_space
is_blank String.[] = true
is_blank (String.◌∷◌ c s) = is_space c && is_blank s

unfoldable pub strip_left : String → String
unfolding is_space
strip_left String.[] = ""
strip_left (String.◌∷◌ c s) = let rest = strip_left s in if is_space c then rest else String.◌∷◌ c s

unfoldable pub strip_right : String → String
unfolding is_blank
strip_right String.[] = ""
strip_right (String.◌∷◌ c s) =
    let rest = strip_right s in if is_blank (String.◌∷◌ c s) then "" else String.◌∷◌ c rest

-- `s.strip()`.
unfoldable pub strip : String → String
unfolding strip_left strip_right
strip s = strip_right (strip_left s)

-- `s.rstrip(ch)` for a text of one character.
unfoldable pub rstrip_char : ℕ → String → String
rstrip_char n String.[] = ""
rstrip_char n (String.◌∷◌ c s) =
    let rest = rstrip_char n s in if (rest == "") && eqb (code c) n then "" else String.◌∷◌ c rest

-- `"{s!r}"`, for a text with no quote, backslash or control character.
abbrev pub repr : String → String
repr s = "'" ++ (s ++ "'")

strip_both : strip "  a b\n" ≡ "a b"
unfolding strip
strip_both = refl

rstrip_dots : rstrip_char b'.' "a.b.." ≡ "a.b"
unfolding rstrip_char
rstrip_dots = refl
