-- ===== src/Schemas.antt =====
-- src/jackdaw/schemas/acme.py: the requests that the routes validate. `none` stands for the
-- `ValidationError`, which no route catches. Other keys are ignored.
use jackdaw.Base.{String, Option, none, some, List, [], ◌∷◌}
use jackdaw.Db.{Identifier}
use jackdaw.Json.{Json, Items, Fields, cons, nil, arr, obj, get_field, as_text}

infixl 10 ◌>>=◌
abbrev ◌>>=◌ {ℓ κ} : {A : Type ℓ} {B : Type κ} → Option A → (A → Option B) → Option B
none >>= f = none
some a >>= f = f a

abbrev text_field : String → Fields → Option String
text_field k fs = do v ← get_field k fs; as_text v

parse_identifier : Json → Option Identifier
parse_identifier (obj fs) = do
  type ← text_field "type" fs
  value ← text_field "value" fs
  some (record { type = type; value = value })
parse_identifier _ = none

parse_identifiers : Items → Option (List Identifier)
unfolding parse_identifier
parse_identifiers nil = some []
parse_identifiers (cons j js) = do
  ident ← parse_identifier j
  rest ← parse_identifiers js
  some (ident ∷ rest)

identifier_list : Json → Option (List Identifier)
unfolding parse_identifiers
identifier_list (arr js) = parse_identifiers js
identifier_list _ = none

-- `NewOrderRequest.model_validate(payload).identifiers`
unfoldable pub parse_new_order : Json → Option (List Identifier)
unfolding identifier_list
parse_new_order (obj fs) = do v ← get_field "identifiers" fs; identifier_list v
parse_new_order _ = none

-- `FinalizeRequest.model_validate(payload).csr`
unfoldable pub parse_finalize : Json → Option String
parse_finalize (obj fs) = text_field "csr" fs
parse_finalize _ = none
