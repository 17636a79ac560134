-- ===== src/Journal.antt =====
-- agents/provider-node/journal.ts. The files are a list of paths with their content as JSON values:
-- what `JSON.stringify` writes, `JSON.parse` reads. The time and the process id are arguments.
pub mod Laws
pub mod Paths
use Prim.Native.String
use Prim.Native.String.{◌++◌ as text_append}
use compute_markets.Prelude.{
  ℕ, ◌+◌, ◌-◌, String, Bool, true, false, not, List, [], ◌∷◌, ◌++◌, map, length, drop, Option, none,
  some, Result, ok, err, require, str_eq, ◌>>=◌, if◌then◌else◌,
}
use compute_markets.Prelude.Int.{pos}
use compute_markets.Json.{
  Json, null, bool, num, fraction, str, arr, obj, Items, nil, cons, Fields, end, field, get, items,
  field?,
}

pub data JournalState : Type 0 where
  preparing running evidence_ready receipt_committed failed : JournalState

abbrev pub state_name : JournalState → String
state_name preparing = "PREPARING"
state_name running = "RUNNING"
state_name evidence_ready = "EVIDENCE_READY"
state_name receipt_committed = "RECEIPT_COMMITTED"
state_name failed = "FAILED"

-- What is loaded is only tested for its job and for the type of its state.
pub record Journal : Type 0 where
  pub job_id : String
  pub state : String
  pub data_of : Json
  pub updated_at : Json
  pub history : Json

abbrev pub Files : Type 0
Files = List (String × Json)

unfoldable pub journal_path : String → String
journal_path job_id = text_append "keys/journal/" (text_append job_id ".json")

unfoldable pub evidence_path : String → String
evidence_path job_id = text_append "keys/journal/" (text_append job_id "-evidence.json")

unfoldable pub read_file : String → Files → Option Json
read_file path [] = none
read_file path ((p, content) ∷ files) =
    let rest = read_file path files in if str_eq p path then some content else rest

unfoldable pub remove_file : String → Files → Files
remove_file path [] = []
remove_file path ((p, content) ∷ files) =
    let rest = remove_file path files in if str_eq p path then rest else (p, content) ∷ rest

abbrev pub write_file : String → Json → Files → Files
write_file path content files = (path, content) ∷ remove_file path files

abbrev moved : String → String → Files → Option Json → Files
moved from to files none = files
moved from to files (some content) = write_file to content (remove_file from files)

-- `renameSync`, which replaces the target.
unfoldable pub rename_file : String → String → Files → Files
rename_file from to files = moved from to files (read_file from files)

-- `value[key]`, which throws on null; other values than objects have none of these properties.
abbrev pub property : String → Json → Result (Option Json)
property key null = err "Cannot read properties of null"
property key (obj fs) = ok (get key fs)
property key _ = ok none

-- `value ?? otherwise`.
abbrev or_json : Option Json → Json → Json
or_json none otherwise = otherwise
or_json (some null) otherwise = otherwise
or_json (some value) otherwise = value

abbrev is_job : String → Option Json → Bool
is_job job_id (some (str s)) = str_eq s job_id
is_job job_id _ = false

abbrev state_of : Option Json → Result String
state_of (some (str s)) = ok s
state_of _ = err "Invalid execution journal"

abbrev epoch : Json
epoch = str "1970-01-01T00:00:00.000Z"

-- `[{ state: value.state, at: value.at }]`.
abbrev first_entry : String → Option Json → Json
first_entry state at = arr (cons (obj (field "state" (str state) (field? "at" at end))) nil)

unfoldable pub journal_of : String → Json → Result Journal
journal_of job_id value = do
  found ← property "jobId" value
  state ← property "state" value
  content ← property "data" value
  updated ← property "updatedAt" value
  at ← property "at" value
  history ← property "history" value
  same ← require (is_job job_id found) "Invalid execution journal"
  name ← state_of state
  ok (record {
    job_id = job_id;
    state = name;
    data_of = or_json content (obj end);
    updated_at = or_json updated (or_json at epoch);
    history = or_json history (first_entry name at);
  })

abbrev pub loaded : String → Option Json → Result (Option Journal)
loaded job_id none = ok none
loaded job_id (some value) = do j ← journal_of job_id value; ok (some j)

unfoldable pub load_journal : String → Files → Result (Option Journal)
load_journal job_id files = loaded job_id (read_file (journal_path job_id) files)

abbrev pub list_of : Items → List Json
list_of nil = []
list_of (cons j js) = j ∷ list_of js

-- The characters of a text, which the spread syntax takes a text apart into.
abbrev characters : String → List Json
characters String.[] = []
characters (String.◌∷◌ c s) = str (String.◌∷◌ c String.[]) ∷ characters s

-- `...value`.
abbrev spread : Json → Result (List Json)
spread (arr js) = ok (list_of js)
spread (str s) = ok (characters s)
spread _ = err "Spread syntax requires an iterable"

abbrev pub previous_history : Option Journal → Result (List Json)
previous_history none = ok []
previous_history (some j) = spread j.history

-- `values.slice(-n)`.
abbrev pub last_of : {A : Type 0} → ℕ → List A → List A
last_of n xs = drop (length xs - n) xs

abbrev pub entry : JournalState → String → Json
entry state at = obj (field "state" (str (state_name state)) (field "at" (str at) end))

unfoldable pub journal_json : Journal → Json
journal_json j = obj (
    field "version" (num (pos 1)) (
      field "jobId" (str j.job_id) (
        field "state" (str j.state) (
          field "data" j.data_of
            (field "updatedAt" j.updated_at (field "history" j.history end))))))

abbrev pub new_journal : String → JournalState → Fields → String → List Json → Journal
new_journal job_id state content at history = record {
  job_id = job_id;
  state = state_name state;
  data_of = obj content;
  updated_at = str at;
  history = arr (items (last_of 32 (history ++ entry state at ∷ [])));
}

-- Written beside its place and renamed into it.
abbrev pub replace_file : String → String → Json → Files → Files
replace_file temporary path content files =
    rename_file temporary path (write_file temporary content files)

abbrev pub temporary_path : String → String → String
temporary_path path process_id = text_append path (text_append "." (text_append process_id ".tmp"))

unfoldable pub record_journal :
    String → String → String → JournalState → Fields → Files → Result (Journal × Files)
record_journal process_id at job_id state content files = do
  previous ← load_journal job_id files
  history ← previous_history previous
  let journal = new_journal job_id state content at history
  let path = journal_path job_id
  ok (journal, replace_file (temporary_path path process_id) path (journal_json journal) files)

unfoldable pub read_evidence : String → Files → Option Json
read_evidence job_id files = read_file (evidence_path job_id) files

unfoldable pub write_evidence : String → String → Json → Files → String × Files
write_evidence process_id job_id bundle files =
    let path = evidence_path job_id in
    (path, replace_file (temporary_path path process_id) path bundle files)
