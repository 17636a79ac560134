-- ===== src/Indexer/Tables/Latest.antt =====
-- The tables behind `apply_projection` as a map from keys to versions: what a sequence of writes
-- leaves.
use mathlib.Core.Path.{fun_ext}
use compute_markets.Prelude.{
  ℕ, String, ◌&&◌, ◌≡◌, refl, ap, ◌∙◌, leb, List, [], ◌∷◌, Option, none, some, str_eq, eq_iff,
  if◌then◌else◌, arith, Bool-cases, inl, inr,
}
use compute_markets.Json.{Json, Fields, end, field, get}
use compute_markets.Indexer.{Row}
use compute_markets.Indexer.Tables.{set_field, overlay, updated, upsert, find_row}

-- One after the other.
abbrev pub upsert_all : List Row → List Row → List Row
upsert_all [] rows = rows
upsert_all (row ∷ arrivals) rows = upsert_all arrivals (upsert row rows)

-- What a reader sees of a row: its slot, and its columns by their names.
pub record Version : Type 0 where
  pub slot : ℕ
  pub column : String → Option Json

-- The tables as a function of table and id.
abbrev pub Store : Type 0
Store = String → String → Option Version

abbrev pub version : Row → Version
version row = record { slot = row.slot; column = λ key. get key row.columns }

abbrev pub version? : Option Row → Option Version
version? none = none
version? (some row) = some (version row)

abbrev pub view : List Row → Store
view rows table id = version? (find_row table id rows)

-- The new value where there is one, except in `created_at`.
abbrev pub overlaid : String → Option Json → Option Json → Option Json
overlaid key none old = old
overlaid key (some value) old = if str_eq key "created_at" then old else some value

abbrev pub newer : Option Version → Row → Version
newer none row = version row
newer (some old) row =
    if leb old.slot row.slot
    then record {
      slot = row.slot;
      column = λ key. overlaid key (get key row.columns) (old.column key);
    }
    else old

-- The abstract write: it changes one key.
abbrev pub accept : Row → Store → Store
accept row store table id =
    if str_eq row.table table && str_eq row.id id
    then some (newer (store table id) row)
    else store table id

abbrev pub replay : List Row → Store → Store
replay [] store = store
replay (row ∷ arrivals) store = replay arrivals (accept row store)

get-set_field :
    (key k : String) (value : Json) (fs : Fields)
    → get key (set_field k value fs) ≡ (if str_eq k key then some value else get key fs)
get-set_field key k value end = refl
get-set_field key k value (field j v fs) =
    ground (arith, eq_iff k key, eq_iff j k, eq_iff j key, get-set_field key k value fs)

get-overlay :
    (key : String) (fs old : Fields)
    → get key (overlay fs old) ≡ overlaid key (get key fs) (get key old)
unfolding overlay
get-overlay key end old = refl
get-overlay key (field k v fs) old = ground (
  arith,
  eq_iff k key,
  eq_iff k "created_at",
  eq_iff key "created_at",
  get-overlay key fs old,
  get-set_field key k v (overlay fs old),
)

abbrev merged : Option Row → Row → Row
merged none row = row
merged (some old) row = updated old row

find_row-upsert :
    (table id : String) (row : Row) (rows : List Row)
    → find_row table id (upsert row rows) ≡ (
        if str_eq row.table table && str_eq row.id id
        then some (merged (find_row table id rows) row)
        else find_row table id rows)
unfolding find_row upsert updated
find_row-upsert table id row [] = refl
find_row-upsert table id row (old ∷ rows) = ground (
  arith,
  eq_iff old.table table,
  eq_iff old.id id,
  eq_iff row.table table,
  eq_iff row.id id,
  eq_iff old.table row.table,
  eq_iff old.id row.id,
  find_row-upsert table id row rows,
)

version-updated : (old row : Row) → version (updated old row) ≡ newer (some (version old)) row
unfolding updated
version-updated old row = elim (Bool-cases (leb old.slot row.slot)) [
  | inl later ↦ rw later (
      ap (λ column. record { slot = row.slot; column = column })
        (fun_ext (λ key. get-overlay key row.columns old.columns)))
  | inr earlier ↦ rw earlier refl
]

pub view-upsert : (row : Row) (rows : List Row) → view (upsert row rows) ≡ accept row (view rows)
view-upsert row rows = fun_ext λ table. fun_ext λ id. at table id (find_row table id rows) refl
  where
    merged-newer : (old : Option Row) → version (merged old row) ≡ newer (version? old) row
    merged-newer none = refl
    merged-newer (some old) = version-updated old row

    at :
        (table id : String) (old : Option Row)
        → find_row table id rows ≡ old
        → view (upsert row rows) table id ≡ accept row (view rows) table id
    at table id old e =
        rw (find_row-upsert table id row rows, e)
          (elim (Bool-cases (str_eq row.table table && str_eq row.id id)) [
            | inl same ↦ rw same (ap some (merged-newer old))
            | inr different ↦ rw different refl
          ])

-- Any sequence of writes acts on the tables as on a map from table and id to versions, where a write
-- changes its key alone: a key without a version gets the row, a version of a slot that is not
-- greater takes the row's slot and its columns, except that it keeps its creation time and what the
-- row does not mention, and a version of a greater slot stays as it is.
pub upsert_all_refines :
    (arrivals rows : List Row) → view (upsert_all arrivals rows) ≡ replay arrivals (view rows)
upsert_all_refines [] rows = refl
upsert_all_refines (row ∷ arrivals) rows =
    upsert_all_refines arrivals (upsert row rows) ∙ ap (replay arrivals) (view-upsert row rows)
