-- ===== src/Indexer/Tables.antt =====
-- The database function `apply_projection` (migrations/20260910113000_agent-policies.sql) through
-- which the indexer writes: an upsert that a row of a greater slot refuses.
pub mod Latest
pub mod Newest
use compute_markets.Prelude.{
  ℕ, String, Bool, not, ◌&&◌, leb, List, [], ◌∷◌, Option, none, some, Result, ok, err, includes,
  str_eq, if◌then◌else◌,
}
use compute_markets.Json.{Json, Fields, end, field}
use compute_markets.Indexer.{Row}

abbrev pub projection_tables : List String
projection_tables =
    "providers" ∷ "provider_stakes" ∷ "agent_policies" ∷ "workers" ∷ "machines" ∷ "offers" ∷ "jobs"
    ∷ "bids" ∷ []

abbrev pub set_field : String → Json → Fields → Fields
set_field key value end = field key value end
set_field key value (field k v fs) =
    let rest = set_field key value fs in if str_eq k key then field k value fs else field k v rest

-- `SET column = EXCLUDED.column` for every column that is sent, but `created_at`.
unfoldable pub overlay : Fields → Fields → Fields
overlay end old = old
overlay (field k v fs) old =
    let rest = overlay fs old in if str_eq k "created_at" then rest else set_field k v rest

abbrev pub same_row : Row → Row → Bool
same_row a b = str_eq a.table b.table && str_eq a.id b.id

-- `WHERE slot <= EXCLUDED.slot`.
unfoldable pub updated : Row → Row → Row
updated old row =
    if leb old.slot row.slot
    then record old { slot = row.slot; columns = overlay row.columns old.columns }
    else old

unfoldable pub upsert : Row → List Row → List Row
upsert row [] = row ∷ []
upsert row (old ∷ rows) =
    let rest = upsert row rows in if same_row old row then updated old row ∷ rows else old ∷ rest

unfoldable pub apply_projection : Row → List Row → Result (List Row)
apply_projection row rows =
    if includes projection_tables row.table
    then ok (upsert row rows)
    else err "Invalid projection table"

unfoldable pub find_row : String → String → List Row → Option Row
find_row table id [] = none
find_row table id (row ∷ rows) =
    let rest = find_row table id rows in
    if str_eq row.table table && str_eq row.id id then some row else rest
