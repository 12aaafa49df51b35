-- ===== src/Receiver/State.antt =====
-- The files that the receiver keeps: the partial file, its progress, the final file, the ledger.
-- Of a JSON file the model has the value that it holds.
use cmpe272_finaltest_assesm.Prelude.{
  ℕ, Bool, false, Option, List, [], ◌∷◌, ◌==◌, ◌=ₜ◌, ◌||◌, if◌then◌else◌,
}
use cmpe272_finaltest_assesm.Result.{Result}
use cmpe272_finaltest_assesm.Bytes.{Bytes, Text}
use cmpe272_finaltest_assesm.Envelope.{Crypto}
use cmpe272_finaltest_assesm.Json.{Value}

-- `<out>.part.progress`; `damaged` does not parse as JSON.
pub data ProgressFile : Type 0 where
  no_progress damaged_progress : ProgressFile
  progress : Text → List ℕ → ProgressFile

-- `seen_transfers.json`
pub data LedgerFile : Type 0 where
  no_ledger damaged_ledger : LedgerFile
  ledger : List Text → LedgerFile

pub record Files : Type 0 where
  pub part : Option Bytes
  pub progress_file : ProgressFile
  pub out : Option Bytes
  pub ledger_file : LedgerFile

-- What a run is given: the primitives, the JSON parser, what the broker answers to each request of
-- this run, the two keys, the command line, and the time.
pub record Setting : Type 0 where
  pub crypto : Crypto
  pub loads : Bytes → Result Value
  pub broker_get : Text → Result (Option Bytes)
  pub broker_list : Text → Result (List Text)
  pub verify_key : Bytes
  pub receiver_key : Bytes
  pub given_id : Option Text
  pub allow_redeliver : Bool
  pub now : ℕ
  -- `int()` of a text
  pub parse_int : Text → Result ℕ

unfoldable pub contains_text : List Text → Text → Bool
contains_text [] t = false
contains_text (s ∷ l) t = s =ₜ t || contains_text l t

unfoldable pub contains : List ℕ → ℕ → Bool
contains [] n = false
contains (m ∷ l) n = m == n || contains l n

-- `_load_ledger`
unfoldable pub load_ledger : LedgerFile → List Text
load_ledger no_ledger = []
load_ledger damaged_ledger = []
load_ledger (ledger seen) = seen

-- `seen.add(id)`, on a set as a list without repetitions
unfoldable pub add_text : Text → List Text → List Text
add_text t l = if contains_text l t then l else t ∷ l

unfoldable pub add : ℕ → List ℕ → List ℕ
add n l = if contains l n then l else n ∷ l

-- `_record_completed`
unfoldable pub record_completed : Text → Files → Files
record_completed id f = record f { ledger_file = ledger (add_text id (load_ledger f.ledger_file)) }

-- `_load_progress`
unfoldable pub load_progress : ProgressFile → Text → List ℕ
load_progress no_progress id = []
load_progress damaged_progress id = []
load_progress (progress saved done) id = if saved =ₜ id then done else []

-- `_save_progress`: the temporary file is renamed over the old one.
unfoldable pub save_progress : Text → List ℕ → Files → Files
save_progress id done f = record f { progress_file = progress id done }
