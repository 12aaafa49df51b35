-- ===== src/Broker/Writers.antt =====
-- Any number of sessions of broker.py that PUT at the same time, each in a thread of its own, in any order
-- of their steps. Files are contents behind names, as in Broker/Race.
pub mod Shape
pub mod Steps
pub mod Atomic
use cmpe272_finaltest_assesm.Prelude.{
  ℕ, ◌+◌, ◌<◌, ◌++◌, [], Option, none, some, length, drop, ◌==◌, ◌=ₜ◌, if◌then◌else◌,
}
use cmpe272_finaltest_assesm.Bytes.{Bytes, Text}
use cmpe272_finaltest_assesm.Broker.Storage.{tmp_name}
use cmpe272_finaltest_assesm.Broker.Race.{set, Stage, opening, writing, renaming, stored, failed}

-- The names, what is behind them, and the next unused number of a content.
pub record Files : Type 0 where
  pub names : Text → Option ℕ
  pub content : ℕ → Bytes
  pub fresh : ℕ

abbrev pub point : Text → Option ℕ → (Text → Option ℕ) → Text → Option ℕ
point p o names q = if q =ₜ p then o else names q

-- `open(tmp, "wb")`, `f.write(data)` and `os.replace(tmp, path)`
unfoldable pub open_tmp : Text → Files → Stage × Files
open_tmp path f = elim (f.names (tmp_name path)) [
  | some k ↦ (writing k, record f { content = set k [] f.content })
  | none ↦ (
    writing f.fresh,
    record f {
      names = point (tmp_name path) (some f.fresh) f.names;
      content = set f.fresh [] f.content;
      fresh = f.fresh + 1;
    },
  )
]

unfoldable pub write_tmp : Bytes → ℕ → Files → Stage × Files
write_tmp bs k f =
    (renaming, record f { content = set k (bs ++ drop (length bs) (f.content k)) f.content })

unfoldable pub rename_tmp : Text → Files → Stage × Files
rename_tmp path f = elim (f.names (tmp_name path)) [
  | some k ↦ (stored, record f { names = point path (some k) (point (tmp_name path) none f.names) })
  | none ↦ (failed, f)
]

-- The next step of a PUT.
unfoldable pub put_step : Text → Bytes → Stage → Files → Stage × Files
put_step path bs opening f = open_tmp path f
put_step path bs (writing k) f = write_tmp bs k f
put_step path bs renaming f = rename_tmp path f
put_step path bs stored f = (stored, f)
put_step path bs failed f = (failed, f)

-- What a GET sees.
unfoldable pub seen : Text → Files → Option Bytes
seen path f = elim (f.names path) [ none ↦ none | some k ↦ some (f.content k) ]

pub record Crowd : Type 0 where
  pub files : Files
  pub stage : ℕ → Stage

abbrev pub update : ℕ → Stage → (ℕ → Stage) → ℕ → Stage
update i p stage j = if j == i then p else stage j

-- Thread `i` puts `payload i` under `path i`.
module _ (path : ℕ → Text) (payload : ℕ → Bytes) where
  abbrev pub moved : ℕ → Crowd → Crowd
  moved i s =
      let o = put_step (path i) (payload i) (s.stage i) s.files in
      record { files = o.1; stage = update i o.0 s.stage }

  pub data Step (n : ℕ) (s : Crowd) : Crowd → Type 0 where
    pick : (i : ℕ) → i < n → Step n s (moved i s)

  pub data Reach (n : ℕ) (f : Files) : Crowd → Type 0 where
    start : Reach n f (record { files = f; stage = λ i. opening })
    later : {s s' : Crowd} → Reach n f s → Step n s s' → Reach n f s'
