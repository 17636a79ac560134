-- ===== src/Indexer/Tables/Newest.antt =====
-- Which of the rows that arrive at a key a reader sees.
use compute_markets.Prelude.{
  ◌≤◌, ◌<◌, String, true, false, ◌≡◌, ◌≢◌, refl, ap, ◌∙◌, leb, List, [], ◌∷◌, ◌++◌, Option, none,
  some, eq_iff, All, arith, Bool-cases, inl, inr,
}
use compute_markets.Json.{Json, get}
use compute_markets.Indexer.{Row}
use compute_markets.Indexer.Tables.{same_row}
use compute_markets.Indexer.Tables.Latest.{
  Version, Store, view, newer, accept, replay, upsert_all, upsert_all_refines,
}

module _ (row : Row) where
  -- What stands at the row's key is not newer than the row.
  abbrev pub AtMost : Option Version → Type 0
  AtMost none = Unit
  AtMost (some v) = v.slot ≤ row.slot

  -- The version has the row's slot and its columns, up to the creation time.
  pub record Shows (v : Version) : Type 0 where
    pub slot : v.slot ≡ row.slot
    pub column :
        (key : String) (value : Json)
        → key ≢ "created_at"
        → get key row.columns ≡ some value
        → v.column key ≡ some value

  newer-AtMost :
      (old : Option Version) (x : Row)
      → x.slot ≤ row.slot
      → AtMost old
      → AtMost (some (newer old x))
  newer-AtMost none x h k = h
  newer-AtMost (some old) x h k = ground arith

  accept-AtMost :
      (x : Row) (store : Store)
      → (same_row x row ≡ true → x.slot ≤ row.slot)
      → AtMost (store row.table row.id)
      → AtMost (accept x store row.table row.id)
  accept-AtMost x store h k = elim (Bool-cases (same_row x row)) [
    | inl same ↦ rw same (newer-AtMost (store row.table row.id) x (h same) k)
    | inr different ↦ rw different k
  ]

  replay-AtMost :
      (arrivals : List Row) (store : Store)
      → All (λ x. same_row x row ≡ true → x.slot ≤ row.slot) arrivals
      → AtMost (store row.table row.id)
      → AtMost (replay arrivals store row.table row.id)
  replay-AtMost [] store h k = k
  replay-AtMost (x ∷ arrivals) store (here, later) k =
      replay-AtMost arrivals (accept x store) later (accept-AtMost x store here k)

  newer-Shows : (old : Option Version) → AtMost old → Shows (newer old row)
  newer-Shows none k = record { slot = refl; column = λ key value other given. given }
  newer-Shows (some old) k =
      let later : leb old.slot row.slot ≡ true = ground arith in
      rw later (record {
        slot = refl;
        column = λ key value other given. rw given (ground (arith, eq_iff key "created_at"));
      })

  accept-Shows :
      (store : Store)
      → AtMost (store row.table row.id)
      → (v : Version) × (accept row store row.table row.id ≡ some v) × Shows v
  accept-Shows store k =
      let same : same_row row row ≡ true =
        ground (arith, eq_iff row.table row.table, eq_iff row.id row.id) in
      (newer (store row.table row.id) row, rw same refl, newer-Shows (store row.table row.id) k)

  accept-keeps :
      (x : Row) (store : Store) (v : Version)
      → (same_row x row ≡ true → x.slot < row.slot)
      → store row.table row.id ≡ some v
      → v.slot ≡ row.slot
      → accept x store row.table row.id ≡ some v
  accept-keeps x store v h e k = elim (Bool-cases (same_row x row)) [
    | inl same ↦
        let less = h same in
        let older : leb v.slot x.slot ≡ false = ground arith in rw (same, e, older) refl
    | inr different ↦ rw different e
  ]

  replay-keeps :
      (arrivals : List Row) (store : Store) (v : Version)
      → All (λ x. same_row x row ≡ true → x.slot < row.slot) arrivals
      → store row.table row.id ≡ some v
      → v.slot ≡ row.slot
      → replay arrivals store row.table row.id ≡ some v
  replay-keeps [] store v h e k = e
  replay-keeps (x ∷ arrivals) store v (here, later) e k =
      replay-keeps arrivals (accept x store) v later (accept-keeps x store v here e k) k

  replay-append :
      (xs ys : List Row) (store : Store) → replay (xs ++ ys) store ≡ replay ys (replay xs store)
  replay-append [] ys store = refl
  replay-append (x ∷ xs) ys store = replay-append xs ys (accept x store)

  -- If of all that is written at a row's key nothing has a greater slot, nor the same slot later on,
  -- and what stood there is not newer, then in the end that row is what stands there: its slot and
  -- every column that it mentions, except the creation time. So the order in which older rows arrive
  -- makes no difference.
  pub upsert_all-Shows :
      (before after rows : List Row)
      → All (λ x. same_row x row ≡ true → x.slot ≤ row.slot) before
      → All (λ x. same_row x row ≡ true → x.slot < row.slot) after
      → AtMost (view rows row.table row.id)
      → (v : Version) × (view (upsert_all (before ++ row ∷ after) rows) row.table row.id ≡ some v)
        × Shows v
  upsert_all-Shows before after rows older newer_ones k =
      let store = replay before (view rows) in
      let (v, there, shows) = accept-Shows store (replay-AtMost before (view rows) older k) in
      (
        v,
        ap (λ s. s row.table row.id)
              (upsert_all_refines (before ++ row ∷ after) rows
                ∙ replay-append before (row ∷ after) (view rows))
            ∙ replay-keeps after (accept row store) v newer_ones there shows.slot,
        shows,
      )
