-- ===== src/Journal/Laws.antt =====
-- A recorded journal is loaded again, its history ends with the new entry and stays short, and no
-- other file changes.
use compute_markets.Prelude.{
  ℕ, zero, suc, ◌-◌, ◌≤◌, ◌≡◌, ◌≢◌, refl, ap, ◌∙◌, subst, String, List, [], ◌∷◌, ◌++◌, length,
  length-append, length-drop, drop, some, ok, ok-injective, bind_ok, eq_iff, arith,
}
use compute_markets.Json.{Json, arr, items, Fields}
use compute_markets.Journal.{
  JournalState, state_name, Journal, Files, journal_path, read_file, remove_file, write_file,
  rename_file, journal_of, loaded, load_journal, last_of, entry, journal_json, new_journal,
  replace_file, record_journal, temporary_path, previous_history,
}

pub read_file-here :
    (path : String) (content : Json) (files : Files)
    → read_file path (write_file path content files) ≡ some content
unfolding read_file
read_file-here path content files = ground (arith, eq_iff path path)

read_file-removed :
    (other path : String) (files : Files)
    → other ≢ path
    → read_file other (remove_file path files) ≡ read_file other files
unfolding read_file remove_file
read_file-removed other path [] h = refl
read_file-removed other path ((p, content) ∷ files) h =
    ground (arith, eq_iff p path, eq_iff p other, read_file-removed other path files h)

read_file-written :
    (other path : String) (content : Json) (files : Files)
    → other ≢ path
    → read_file other (write_file path content files) ≡ read_file other files
unfolding read_file
read_file-written other path content files h =
    ground (arith, eq_iff path other, read_file-removed other path files h)

pub replace_file-write :
    (temporary path : String) (content : Json) (files : Files)
    → replace_file temporary path content files
      ≡ write_file path content (remove_file temporary (write_file temporary content files))
unfolding rename_file
replace_file-write temporary path content files = rw (read_file-here temporary content files) refl

drop-append :
    {A : Type 0} (n : ℕ) (xs ys : List A) → n ≤ length xs → drop n (xs ++ ys) ≡ drop n xs ++ ys
drop-append zero xs ys h = refl
drop-append (suc n) [] ys h = absurd (omega arith)
drop-append (suc n) (x ∷ xs) ys h = drop-append n xs ys (omega arith)

journal_of-new :
    (job at : String) (state : JournalState) (content : Fields) (history : List Json)
    → journal_of job (journal_json (new_journal job state content at history))
      ≡ ok (new_journal job state content at history)
unfolding journal_of journal_json
journal_of-new job at state content history = rw ((eq_iff job job).1 refl) refl

last_of-append :
    {A : Type 0} (xs : List A) (x : A)
    → last_of 32 (xs ++ x ∷ []) ≡ drop (length xs - 31) xs ++ x ∷ []
last_of-append xs x =
    ap (λ n. drop n (xs ++ x ∷ [])) (omega (arith, length-append xs (x ∷ [])))
    ∙ drop-append (length xs - 31) xs (x ∷ []) (omega arith)

-- What a successful call leaves.
pub record IsRecorded (process_id at job : String) (state : JournalState) (files : Files)
    (j : Journal) (after : Files) : Type 0 where
  pub loaded : load_journal job after ≡ ok (some j)
  pub named : j.state ≡ state_name state
  pub earlier : List Json
  pub history : j.history ≡ arr (items (earlier ++ entry state at ∷ []))
  pub short : length earlier ≤ 31
  pub others :
      (path : String)
      → path ≢ journal_path job
      → path ≢ temporary_path (journal_path job) process_id
      → read_file path after ≡ read_file path files

-- After a journal is recorded it is what loading the job gives; it has the new state, and its
-- history ends with the new state and time, behind at most 31 earlier entries; and every file but the job's journal and its
-- temporary file is as before.
pub record_journal-IsRecorded :
    (process_id at job : String) (state : JournalState) (content : Fields) (files after : Files)
    (j : Journal)
    → record_journal process_id at job state content files ≡ ok (j, after)
    → IsRecorded process_id at job state files j after
unfolding record_journal load_journal
record_journal-IsRecorded process_id at job state content files after j h =
    bind_ok (load_journal job files) _ h λ previous e1 h1.
      bind_ok (previous_history previous) _ h1 λ history e2 h2.
        let path = journal_path job in
        let temporary = temporary_path path process_id in
        let made = new_journal job state content at history in
        subst (λ r. IsRecorded process_id at job state files r.0 r.1) (ok-injective h2)
          (record {
            loaded =
                ap (λ f. loaded job (read_file path f))
                  (replace_file-write temporary path (journal_json made) files)
                ∙ ap (loaded job) (read_file-here path (journal_json made) _)
                ∙ rw (journal_of-new job at state content history) refl;
            named = refl;
            earlier = drop (length history - 31) history;
            history = ap (λ x. arr (items x)) (last_of-append history (entry state at));
            short = omega (arith, length-drop (length history - 31) history);
            others = λ other not_path not_temporary.
                ap (read_file other) (replace_file-write temporary path (journal_json made) files)
                ∙ read_file-written other path (journal_json made) _ not_path
                ∙ read_file-removed other temporary _ not_temporary
                ∙ read_file-written other temporary (journal_json made) files not_temporary;
          })
