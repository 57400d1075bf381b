-- ===== src/Upstream.antt =====
-- src/jackdaw/services/le_client.py: the zone of a domain, and the polling of an order at Let's
-- Encrypt.
pub mod Zones
pub mod Polling
pub mod Finalize
pub mod Dns01
pub mod Locks
pub mod Account
mod Tests
use Prim.Native.String.{count}
use jackdaw.Base.{String, List, Bool, ◌∷◌, ltb, if◌then◌else◌, ◌<>◌, []}
use jackdaw.Config.{split_at}
use jackdaw.Base.Table.{select}
use jackdaw.Base.Text.{rstrip_char}
use jackdaw.Orders.{under_base}

-- `len(a) < len(b)`
abbrev pub shorter : String → String → Bool
shorter a b = ltb (count a) (count b)

-- `max(best, *zones, key=len)`: of several longest the first.
unfoldable pub longest : String → List String → String
longest best [] = best
longest best (z ∷ zones) =
    let kept = longest best zones in
    let replaced = longest z zones in if shorter best z then replaced else kept

unfoldable pub join_dots : List String → String
join_dots [] = ""
join_dots (label ∷ []) = label
join_dots (label ∷ next ∷ labels) = label <> ("." <> join_dots (next ∷ labels))

-- `labels[-2:]`
unfoldable pub last_two : List String → List String
last_two [] = []
last_two (a ∷ []) = a ∷ []
last_two (a ∷ b ∷ []) = a ∷ b ∷ []
last_two (a ∷ b ∷ c ∷ labels) = last_two (b ∷ c ∷ labels)

abbrev pub matches : String → List String → List String
matches d overrides = select (under_base d) overrides

abbrev pub zone_of : String → List String → String
zone_of d [] = join_dots (last_two (split_at b'.' d))
zone_of d (z ∷ zones) = longest z zones

unfoldable pub apex_domain : String → List String → String
unfolding longest join_dots last_two split_at rstrip_char
apex_domain domain overrides = let d = rstrip_char b'.' domain in zone_of d (matches d overrides)
