-- ===== src/Indexer/Reconcile/Current.antt =====
-- What a reconciliation leaves in the tables, whether it returns or throws.
use compute_markets.Prelude.{
  ◌≤◌, String, true, ◌&&◌, ◌≡◌, refl, ap, sym, subst, ◌∙◌, List, [], ◌∷◌, Option, none, some,
  Result, ok, err, str_eq, eq_iff, Occurs, arith, Bool-cases, inl, inr, err_not_ok,
}
use compute_markets.Prelude.Actions.{
  call, for_each, returned, Ensures, IsPreorder, bind-Ensures, for_each-Ensures, call-Ensures,
  related,
}
use compute_markets.Indexer.{Row, Cursor, Database}
use compute_markets.Indexer.Tables.{apply_projection, upsert, same_row}
use compute_markets.Indexer.Tables.Latest.{Version, Store, view, newer, view-upsert}
use compute_markets.Indexer.Reconcile.Frame.{KeptByWrites}
use compute_markets.Indexer.Reconcile.{Services, stored, write_row, write_cursor}

-- No version disappears, and none goes back to an earlier slot.
abbrev pub Grows : List Row → List Row → Type 0
Grows rows rows' =
    (table id : String) (v : Version)
    → view rows table id ≡ some v
    → (v' : Version) × (view rows' table id ≡ some v') × (v.slot ≤ v'.slot)

abbrev pub RowsGrow : Database → Database → Type 0
RowsGrow a b = Grows a.rows b.rows

pub RowsGrow-order : IsPreorder RowsGrow
RowsGrow-order = record {
  same = λ db table id v e. (v, e, omega arith);
  then = λ a b c h k table id v e.
      let (w, found, le) = h table id v e in
      let (x, found', le') = k table id w found in (x, found', omega arith);
}

-- The row, or a later one, stands at its key.
abbrev pub HoldsRow : Row → List Row → Type 0
HoldsRow row rows = (v : Version) × (view rows row.table row.id ≡ some v) × (row.slot ≤ v.slot)

newer-slot :
    (old : Version) (row : Row)
    → (old.slot ≤ (newer (some old) row).slot) × (row.slot ≤ (newer (some old) row).slot)
newer-slot old row = ground arith

newer-reaches : (old : Option Version) (row : Row) → row.slot ≤ (newer old row).slot
newer-reaches none row = omega arith
newer-reaches (some old) row = (newer-slot old row).1

upsert-Grows : (row : Row) (rows : List Row) → Grows rows (upsert row rows)
upsert-Grows row rows table id v e =
    subst (λ (s : Store). (v' : Version) × (s table id ≡ some v') × (v.slot ≤ v'.slot))
      (sym (view-upsert row rows))
      (elim (Bool-cases (str_eq row.table table && str_eq row.id id)) [
        | inl same ↦ rw (same, e) (newer (some v) row, refl, (newer-slot v row).0)
        | inr different ↦ rw different (v, e, omega arith)
      ])

upsert-HoldsRow : (row : Row) (rows : List Row) → HoldsRow row (upsert row rows)
upsert-HoldsRow row rows =
    let same : same_row row row ≡ true =
      ground (arith, eq_iff row.table row.table, eq_iff row.id row.id) in
    let old = view rows row.table row.id in
    (
      newer old row,
      ap (λ (s : Store). s row.table row.id) (view-upsert row rows) ∙ rw same refl,
      newer-reaches old row,
    )

apply_projection-upsert :
    (row : Row) (rows rows' : List Row)
    → apply_projection row rows ≡ ok rows'
    → upsert row rows ≡ rows'
unfolding apply_projection
apply_projection-upsert row rows rows' e = ground arith

pub HoldsRow-Grows : (row : Row) (a b : List Row) → HoldsRow row a → Grows a b → HoldsRow row b
HoldsRow-Grows row a b (v, e, le) h =
    let (w, found, le') = h row.table row.id v e in (w, found, omega arith)

module _ (services : Services) where
  stored-Grows :
      (row : Row) (db : Database) (r : Result (List Row))
      → apply_projection row db.rows ≡ r
      → RowsGrow db (stored services db r).1
  stored-Grows row db (err e) h = RowsGrow-order.same db
  stored-Grows row db (ok rows) h =
      subst (Grows db.rows) (apply_projection-upsert row db.rows rows h) (upsert-Grows row db.rows)

  pub write_row-Ensures : (row : Row) → Ensures RowsGrow (write_row services row)
  unfolding write_row
  write_row-Ensures row =
      bind-Ensures RowsGrow RowsGrow-order (call (services.write_row row)) _
        (call-Ensures RowsGrow RowsGrow-order _)
        (λ accepted. record { relates = λ db. stored-Grows row db _ refl })

  pub write_cursor-Ensures :
      (id : String) (change : Cursor → Cursor) → Ensures RowsGrow (write_cursor services id change)
  unfolding write_cursor
  write_cursor-Ensures id change =
      bind-Ensures RowsGrow RowsGrow-order (call (services.write_cursor id)) _
        (call-Ensures RowsGrow RowsGrow-order _)
        (λ accepted. record { relates = λ db. RowsGrow-order.same db })

  pub RowsGrow-KeptByWrites : KeptByWrites services RowsGrow
  RowsGrow-KeptByWrites = record {
    order = RowsGrow-order;
    row = write_row-Ensures;
    cursor = write_cursor-Ensures "reconcile";
    dirty = λ value db. RowsGrow-order.same db;
    running = λ value db. RowsGrow-order.same db;
  }

  -- Every row that was written stands in the table, or a later one does.
  pub written_rows :
      (rows : List Row) (db after : Database) (done : Unit {0})
      → for_each (write_row services) rows db ≡ (ok done, after)
      → (row : Row) → Occurs row rows
      → HoldsRow row after.rows
  unfolding for_each write_row
  written_rows [] db after d h row o = elim o [ ]
  written_rows (x ∷ rows) db after d h row o =
      returned (write_row services x) _ db after h λ done mid e rest. elim o [
        | inl same ↦
            let here = stored_row x db mid done e in
            let kept =
              for_each-Ensures RowsGrow RowsGrow-order (write_row services) rows
                write_row-Ensures in
            subst (λ r. HoldsRow r after.rows) (sym same)
              (HoldsRow-Grows x mid.rows after.rows here (related RowsGrow _ mid after _ kept rest))
        | inr later ↦ written_rows rows mid after d rest row later
      ]
    where
      stored_lem :
          (x : Row) (db mid : Database) (done : Unit {0}) (r : Result (List Row))
          → apply_projection x db.rows ≡ r
          → stored services db r ≡ (ok done, mid)
          → HoldsRow x mid.rows
      stored_lem x db mid done (err e) h k = absurd (err_not_ok (ap (λ p. p.0) k))
      stored_lem x db mid done (ok rows) h k =
          subst (λ rs. HoldsRow x rs)
            (apply_projection-upsert x db.rows rows h ∙ ap (λ p. p.1.rows) k)
            (upsert-HoldsRow x db.rows)

      stored_row :
          (x : Row) (db mid : Database) (done : Unit {0})
          → write_row services x db ≡ (ok done, mid)
          → HoldsRow x mid.rows
      stored_row x db mid done e =
          returned (call (services.write_row x)) _ db mid e
            λ accepted same e1 e2. stored_lem x same mid done _ refl e2
