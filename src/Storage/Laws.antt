-- ===== src/Storage/Laws.antt =====
-- The table of receipts before and after `storeReceipt`.
use compute_markets.Prelude.{
  ◌≡◌, ◌≢◌, refl, sym, ap, subst, ◌∙◌, String, List, [], ◌∷◌, ◌++◌, none, some, Result, ok, err_not_ok,
  ok-injective, bind_ok, str_eq, eq_iff, Bool-cases, Option-cases, arith, inl, inr,
}
use compute_markets.Json.{Json}
use compute_markets.Receipts.{Libraries, commitment}
use compute_markets.Storage.{ReceiptRow, find_receipt, new_row, stored_path, store_receipt}

find_receipt-last :
    (row : ReceiptRow) (rows : List ReceiptRow)
    → find_receipt row.job_id rows ≡ none
    → find_receipt row.job_id (rows ++ row ∷ []) ≡ some row
unfolding find_receipt
find_receipt-last row [] h = ground (arith, eq_iff row.job_id row.job_id)
find_receipt-last row (r ∷ rows) h =
    ground (arith, eq_iff r.job_id row.job_id, find_receipt-last row rows)

-- A row at the end changes nothing for the jobs before it, nor for other jobs.
find_receipt-append :
    (job : String) (row old : ReceiptRow) (rows : List ReceiptRow)
    → find_receipt job rows ≡ some old
    → find_receipt job (rows ++ row ∷ []) ≡ some old
unfolding find_receipt
find_receipt-append job row old [] h = absurd (cc)
find_receipt-append job row old (r ∷ rows) h =
    ground (arith, eq_iff r.job_id job, find_receipt-append job row old rows)

find_receipt-append_other :
    (job : String) (row : ReceiptRow) (rows : List ReceiptRow)
    → row.job_id ≢ job
    → find_receipt job (rows ++ row ∷ []) ≡ find_receipt job rows
unfolding find_receipt
find_receipt-append_other job row [] h = ground (arith, eq_iff row.job_id job)
find_receipt-append_other job row (r ∷ rows) h =
    ground (arith, eq_iff r.job_id job, find_receipt-append_other job row rows h)

module _ (libraries : Libraries) (upload : String → Result (String × String)) where
  -- What a successful call leaves: the row it returns, under the commitment of the payload; every
  -- row that was there; and of other jobs no other row.
  pub record IsStored (job : String) (payload : Json) (row : ReceiptRow)
      (rows after : List ReceiptRow) : Type 0 where
    pub found : find_receipt job after ≡ some row
    pub hash : commitment libraries payload ≡ ok row.receipt_hash
    pub kept :
        (other : String) (old : ReceiptRow)
        → find_receipt other rows ≡ some old
        → find_receipt other after ≡ some old
    pub others :
        (other : String) → job ≢ other → find_receipt other after ≡ find_receipt other rows

  -- A call that succeeds returns the row that the table then holds for the job, and the row's hash
  -- is the commitment of the payload. A receipt that the table held before, of this or another job,
  -- is held unchanged, so none is replaced; no other job gets a receipt; and a second call with the
  -- same payload returns the same row and leaves the table as it is.
  pub store_receipt-IsStored :
      (job : String) (payload : Json) (rows after : List ReceiptRow) (row : ReceiptRow)
      → store_receipt libraries upload job payload rows ≡ ok (row, after)
      → IsStored job payload row rows after
        × (store_receipt libraries upload job payload after ≡ ok (row, after))
  unfolding store_receipt
  store_receipt-IsStored job payload rows after row h =
      bind_ok (commitment libraries payload) _ h λ hash e_hash h1.
        elim (Option-cases (find_receipt job rows)) [
          | inl fresh ↦
              bind_ok (upload (stored_path job hash)) _ (rw fresh at h1) λ stored e_stored h2.
                let new = new_row job hash stored in
                with_again (
                  subst Stored (ok-injective h2) (record {
                    found = find_receipt-last new rows fresh;
                    hash = e_hash;
                    kept = λ other old held. find_receipt-append other new old rows held;
                    others = λ other differs. find_receipt-append_other other new rows differs;
                  }))
          | inr (existing, held) ↦ elim (Bool-cases (str_eq existing.receipt_hash hash)) [
            | inl same ↦ with_again (
                subst Stored (ok-injective (rw (held, same) at h1)) (record {
                  found = held;
                  hash = e_hash ∙ ap ok (sym ((eq_iff existing.receipt_hash hash).0 same));
                  kept = λ other old there. there;
                  others = λ other differs. refl;
                }))
            | inr conflict ↦ absurd (err_not_ok (rw (held, conflict) at h1))
          ]
        ]
    where
      Stored : ReceiptRow × List ReceiptRow → Type 0
      Stored w = IsStored job payload w.0 rows w.1

      with_again :
          IsStored job payload row rows after
          → IsStored job payload row rows after
            × (store_receipt libraries upload job payload after ≡ ok (row, after))
      with_again s =
          (s, rw (s.hash, s.found, (eq_iff row.receipt_hash row.receipt_hash).1 refl) refl)
