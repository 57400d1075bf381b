-- ===== src/Dns/Rest.antt =====
-- The JSON calls of src/jackdaw/dns/providers/cloudflare.py and porkbun.py.
use jackdaw.Exec.{Exec}
use jackdaw.Result.{Result, expect, or_crash}
use jackdaw.Json.{Json}
use jackdaw.Base.{Option, Bool, String, List, [], some, none}

-- One of the records in a reply, of which the code reads the id.
pub record Entry : Type 0 where
  pub id : Option String

-- `entries` is the list under the key that the code reads (`result` or `records`), if it is there.
pub record Reply : Type 0 where
  pub is_success : Bool
  pub entries : Option (List Entry)

-- The calls of one client; an exception of the connection or of the JSON parser is `uncaught`.
pub record Rest (S : Type 0) : Type 0 where
  pub get : (path : String) (params : List (String × String)) → Exec S Reply
  pub post : (path : String) (payload : Json) → Exec S Reply
  pub delete : (path : String) → Exec S Reply

-- `r.raise_for_status()`
abbrev pub raise_for_status : Reply → Result (Unit {0})
raise_for_status r = expect r.is_success

-- `r.json().get(key, [])`
abbrev pub entries_or_empty : Option (List Entry) → List Entry
entries_or_empty none = []
entries_or_empty (some entries) = entries

abbrev pub entry_id : Entry → Result String
entry_id e = or_crash e.id
