-- ===== src/Journal/Paths.antt =====
-- The journal's files of a job are different, and what stands in one is not changed by a write to
-- another.
use Prim.Native.String.{◌++◌ as text_append}
use compute_markets.Prelude.{◌≡◌, ◌≢◌, ap, ◌∙◌, String, some, ok, eq_iff}
use text.Mathlib.TextLemmas.{append_cancel_left, append_assoc}
use text.Mathlib.Text.{starts_with}
use text.Mathlib.TextPositions.{starts_with-append}
use compute_markets.Json.{Json, Fields}
use compute_markets.Journal.{
  JournalState, Journal, Files, journal_path, evidence_path, temporary_path, read_file,
  read_evidence, write_evidence, record_journal,
}
use compute_markets.Journal.Laws.{record_journal-IsRecorded, replace_file-write, read_file-here}

pub evidence_path-ne-journal_path : (job : String) → evidence_path job ≢ journal_path job
unfolding evidence_path journal_path
evidence_path-ne-journal_path job e =
    let tails =
      append_cancel_left job "-evidence.json" ".json" (append_cancel_left "keys/journal/" _ _ e) in
    cc ((eq_iff "-evidence.json" ".json").1 tails)

pub evidence_path-ne-temporary :
    (job process_id : String) → evidence_path job ≢ temporary_path (journal_path job) process_id
unfolding evidence_path journal_path
evidence_path-ne-temporary job process_id e =
    let rest = text_append "." (text_append process_id ".tmp") in
    let whole =
      e
      ∙ append_assoc "keys/journal/" (text_append job ".json") rest
      ∙ ap (text_append "keys/journal/") (append_assoc job ".json" rest) in
    let tails = append_cancel_left job _ _ (append_cancel_left "keys/journal/" _ _ whole) in
    cc (ap (λ t. starts_with t ".json") tails ∙ starts_with-append ".json" rest)

-- A new journal leaves the job's evidence as it is.
pub read_evidence-recorded :
    (process_id at job : String) (state : JournalState) (content : Fields) (files after : Files)
    (j : Journal)
    → record_journal process_id at job state content files ≡ ok (j, after)
    → read_evidence job after ≡ read_evidence job files
unfolding read_evidence
read_evidence-recorded process_id at job state content files after j h =
    (record_journal-IsRecorded process_id at job state content files after j h).others
      (evidence_path job) (evidence_path-ne-journal_path job)
      (evidence_path-ne-temporary job process_id)

-- Evidence that is written is what is read.
pub read_evidence-written :
    (process_id job : String) (bundle : Json) (files : Files)
    → read_evidence job (write_evidence process_id job bundle files).1 ≡ some bundle
unfolding read_evidence write_evidence
read_evidence-written process_id job bundle files =
    ap (read_file (evidence_path job)) (
      replace_file-write (temporary_path (evidence_path job) process_id) (evidence_path job) bundle
        files)
    ∙ read_file-here (evidence_path job) bundle _
