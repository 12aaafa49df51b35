-- ===== src/Util/Durable.antt =====
-- `fsync_path` and `atomic_promote` of common/util.py on a disk that may lose what is not synchronised when
-- the machine goes down: the content of a file, and which names were moved last.
use cmpe272_finaltest_assesm.Prelude.{
  ℕ, zero, suc, ◌≡◌, Bool, true, false, Option, none, some, ◌==◌, if◌then◌else◌,
}
use cmpe272_finaltest_assesm.Bytes.{Bytes}

-- A content, and whether all of it has reached the disk.
pub record Inode : Type 0 where
  pub bytes : Bytes
  pub synced : Bool

-- What the two names stand for.
pub record Names : Type 0 where
  pub temp : Option ℕ
  pub final : Option ℕ

-- The contents, the names as programs see them, and as they are on the disk.
pub record Disk : Type 0 where
  pub inodes : ℕ → Inode
  pub names : Names
  pub on_disk : Names

pub data Stage : Type 0 where
  syncing replacing promoted failed : Stage

abbrev pub synchronised : ℕ → (ℕ → Inode) → ℕ → Inode
synchronised i inodes j = if j == i then record (inodes j) { synced = true } else inodes j

-- `fsync_path(temp_path)`, which raises without the file
unfoldable pub fsync_path : Disk → Stage × Disk
fsync_path d = elim d.names.temp [
  | some i ↦ (replacing, record d { inodes = synchronised i d.inodes })
  | none ↦ (failed, d)
]

-- `os.replace(temp_path, final_path)`
unfoldable pub replace : Disk → Stage × Disk
replace d = elim d.names.temp [
  | some i ↦ (promoted, record d { names = record { temp = none; final = some i } })
  | none ↦ (failed, d)
]

-- `atomic_promote`, step by step
unfoldable pub promote_step : Stage → Disk → Stage × Disk
promote_step syncing d = fsync_path d
promote_step replacing d = replace d
promote_step promoted d = (promoted, d)
promote_step failed d = (failed, d)

unfoldable pub promote_steps : ℕ → Stage × Disk → Stage × Disk
promote_steps zero o = o
promote_steps (suc n) o = promote_steps n (promote_step o.0 o.1)

-- What a content may be after the machine went down: a content that was not synchronised may be anything.
pub data Survives (i : Inode) : Bytes → Type 0 where
  whole : Survives i i.bytes
  torn : (bs : Bytes) → i.synced ≡ false → Survives i bs

-- What is found under a name.
pub data Found (inodes : ℕ → Inode) : Option ℕ → Option Bytes → Type 0 where
  nothing : Found inodes none none
  content : {i : ℕ} {bs : Bytes} → Survives (inodes i) bs → Found inodes (some i) (some bs)

-- What is found under the final name after the machine went down: the names may be those that were on the
-- disk, or those that programs saw.
pub data Crash (d : Disk) (found : Option Bytes) : Type 0 where
  old_names : Found d.inodes d.on_disk.final found → Crash d found
  new_names : Found d.inodes d.names.final found → Crash d found

-- What the final name holds, when nothing goes wrong.
abbrev pub held : (ℕ → Inode) → Option ℕ → Option Bytes
held inodes none = none
held inodes (some i) = some (inodes i).bytes
