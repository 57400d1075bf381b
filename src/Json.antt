-- ===== src/Json.antt =====
-- JSON values as `json.loads` returns them, and the Python operations that the code does on them.
-- Numbers are natural; a negative or fractional number is not modelled.
use jackdaw.Base.{
  ℕ, String, Bool, true, false, not, Option, none, some, List, [], ◌∷◌, eqb, if◌then◌else◌, ◌==◌,
}

mutual
  pub data Json : Type 0 where
    null : Json
    bool : Bool → Json
    num : ℕ → Json
    str : String → Json
    arr : Items → Json
    obj : Fields → Json

  pub data Items : Type 0 where
    nil : Items
    cons : Json → Items → Items

  pub data Fields : Type 0 where
    end : Fields
    field : String → Json → Fields → Fields

-- The items of a list, in order.
abbrev pub items : Items → List Json
items nil = []
items (cons j js) = j ∷ items js

-- `d.get(k)` of the fields of a dictionary.
abbrev pub get_field : String → Fields → Option Json
get_field k end = none
get_field k (field j v fs) = if j == k then some v else get_field k fs

-- `d.get(k, default)`.
abbrev pub get_or : Json → String → Fields → Json
get_or default k fs = elim (get_field k fs) [ none ↦ default | some v ↦ v ]

-- `d.get(k)` that is compared with `None`: a missing key and `null` are alike.
abbrev not_null : Json → Option Json
not_null null = none
not_null v = some v

abbrev pub get_not_null : String → Fields → Option Json
get_not_null k fs = elim (get_field k fs) [ none ↦ none | some v ↦ not_null v ]

-- `bool(v)`.
abbrev pub truthy : Json → Bool
truthy null = false
truthy (bool b) = b
truthy (num n) = not (eqb n 0)
truthy (str s) = not (s == "")
truthy (arr nil) = false
truthy (arr (cons j js)) = true
truthy (obj end) = false
truthy (obj (field k v fs)) = true

-- `v == s`, for a text `s`.
abbrev pub equals_text : Json → String → Bool
equals_text (str t) s = t == s
equals_text _ s = false

abbrev pub as_fields : Json → Option Fields
as_fields (obj fs) = some fs
as_fields _ = none

abbrev pub as_text : Json → Option String
as_text (str s) = some s
as_text _ = none

-- A list or a dictionary: no hash, and no value of a database column.
abbrev pub is_container : Json → Bool
is_container (arr js) = true
is_container (obj fs) = true
is_container _ = false
