-- ===== src/Broker/Race.antt =====
-- Two sessions of broker.py that PUT the same key at the same time: each in a thread of its own, they
-- share the temporary file. Files are contents behind names, so that a handle that is open stays on its
-- content when the name is moved.
pub mod Puts
use cmpe272_finaltest_assesm.Prelude.{
  ℕ, zero, suc, ◌+◌, ◌<◌, ◌≤◌, ◌≡◌, refl, ap, ◌∙◌, ◌⊎◌, inl, inr, false, Option, none, some, List,
  [], ◌∷◌, ◌++◌, append-nil, arith, ◌==◌, ==_refl, length, drop, drop_all, Option-cases,
  if◌then◌else◌,
}
use cmpe272_finaltest_assesm.Bytes.{Bytes}

-- The two names, what is behind them, and the next unused number of a content.
pub record Disk : Type 0 where
  pub tmp : Option ℕ
  pub final : Option ℕ
  pub content : ℕ → Bytes
  pub fresh : ℕ

abbrev pub set : ℕ → Bytes → (ℕ → Bytes) → ℕ → Bytes
set i bs content j = if j == i then bs else content j

-- `open(tmp, "wb")`: the file is created or emptied; returns what the handle is on.
unfoldable pub open_tmp : Disk → ℕ × Disk
open_tmp d = elim d.tmp [
  | some i ↦ (i, record d { content = set i [] d.content })
  | none ↦ (
    d.fresh,
    record d { tmp = some d.fresh; content = set d.fresh [] d.content; fresh = d.fresh + 1 },
  )
]

-- `f.write(data)` and the flush, at the beginning of the file
unfoldable pub write_tmp : Bytes → ℕ → Disk → Disk
write_tmp bs i d = record d { content = set i (bs ++ drop (length bs) (d.content i)) d.content }

-- Where a PUT is: `failed` by a `FileNotFoundError` of the rename.
pub data Stage : Type 0 where
  opening renaming stored failed : Stage
  writing : ℕ → Stage

-- `os.replace(tmp, path)`
unfoldable pub rename_tmp : Disk → Stage × Disk
rename_tmp d = elim d.tmp [
  | some i ↦ (stored, record d { tmp = none; final = some i })
  | none ↦ (failed, d)
]

-- The next step of a PUT of these bytes.
unfoldable pub put_step : Bytes → Stage → Disk → Stage × Disk
put_step bs opening d = let (i, d') = open_tmp d in (writing i, d')
put_step bs (writing i) d = (renaming, write_tmp bs i d)
put_step bs renaming d = rename_tmp d
put_step bs stored d = (stored, d)
put_step bs failed d = (failed, d)

-- What a GET sees.
unfoldable pub visible : Disk → Option Bytes
visible d = elim d.final [ none ↦ none | some i ↦ some (d.content i) ]

-- A PUT that nothing interrupts.
unfoldable pub put_steps : Bytes → ℕ → Stage × Disk → Stage × Disk
put_steps bs zero p = p
put_steps bs (suc n) p = put_steps bs n (put_step bs p.0 p.1)

pub data Turn : Type 0 where
  one other : Turn

pub record Race : Type 0 where
  pub first : Stage
  pub second : Stage
  pub disk : Disk

-- Two PUTs, in the order of the turns.
unfoldable pub race : Bytes → Bytes → List Turn → Race → Race
race xs ys [] r = r
race xs ys (one ∷ turns) r =
    let (s, d) = put_step xs r.first r.disk in
    race xs ys turns (record { first = s; second = r.second; disk = d })
race xs ys (other ∷ turns) r =
    let (s, d) = put_step ys r.second r.disk in
    race xs ys turns (record { first = r.first; second = s; disk = d })
