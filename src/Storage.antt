-- ===== src/Storage.antt =====
-- packages/storage/index.ts: the receipt of a job is stored once. The table `receipts` is a list of
-- its rows; the upload to the evidence bucket is an argument.
pub mod Laws
use Prim.Native.String
use compute_markets.Prelude.{
  String, Bool, true, false, List, [], ◌∷◌, ◌++◌, Option, none, some, Result, ok, err, str_eq,
  ◌>>=◌, if◌then◌else◌,
}
use compute_markets.Json.{Json, str, obj, get}
use compute_markets.Receipts.{Libraries, commitment}

pub record ReceiptRow : Type 0 where
  pub job_id : String
  pub receipt_hash : String
  pub storage_key : String
  pub storage_url : String

-- `value[key]` where that is a text.
abbrev pub text_of : Option Json → Option String
text_of (some (str s)) = some s
text_of _ = none

abbrev pub text_property : String → Json → Option String
text_property key (obj fs) = text_of (get key fs)
text_property key _ = none

unfoldable pub find_receipt : String → List ReceiptRow → Option ReceiptRow
find_receipt job [] = none
find_receipt job (row ∷ rows) =
    let rest = find_receipt job rows in if str_eq row.job_id job then some row else rest

abbrev pub stored_path : String → String → String
stored_path job hash = String.◌++◌ job (String.◌++◌ "/" (String.◌++◌ hash ".json"))

abbrev pub new_row : String → String → String × String → ReceiptRow
new_row job hash (key, url) = record {
  job_id = job;
  receipt_hash = hash;
  storage_key = key;
  storage_url = url;
}

module _ (libraries : Libraries) (upload : String → Result (String × String)) where
  -- A row that is there is returned and nothing is written; what is uploaded is the bundle's
  -- evidence. The upsert ignores duplicates, of which there are none here.
  unfoldable pub store_receipt :
      String → Json → List ReceiptRow → Result (ReceiptRow × List ReceiptRow)
  store_receipt job payload rows = do
    hash ← commitment libraries payload
    elim (find_receipt job rows) [
      | some existing ↦
          if str_eq existing.receipt_hash hash
          then ok (existing, rows)
          else err "Conflicting receipt for this job"
      | none ↦ do
        stored ← upload (stored_path job hash)
        ok (new_row job hash stored, rows ++ new_row job hash stored ∷ [])
    ]
