-- ===== src/Directory.antt =====
-- A directory of small files with permissions, as gen_keys.py and gen_certs.py write it and the programs
-- read it: `os.open` with O_WRONLY | O_CREAT | O_TRUNC, and `open(path, "rb").read()`.
use cmpe272_finaltest_assesm.Prelude.{
  ℕ, ◌%◌, ◌*◌, ◌+◌, ◌≡◌, Option, none, some, arith, ◌=ₜ◌, if◌then◌else◌,
}
use cmpe272_finaltest_assesm.Result.{Result, ok, err, os_error}
use cmpe272_finaltest_assesm.Bytes.{Bytes, Text}
use cmpe272_finaltest_assesm.Dict.{Dict, lookup, insert, lookup-insert}

pub record File : Type 0 where
  pub content : Bytes
  pub mode : ℕ

abbrev pub Directory : Type 0
Directory = Dict File

-- 0o600 and 0o644
abbrev pub owner_only : ℕ
owner_only = 6 * 64

abbrev pub world_readable : ℕ
world_readable = 6 * 64 + 4 * 8 + 4

abbrev content_of : Option File → Result Bytes
content_of none = err os_error
content_of (some f) = ok f.content

-- `open(path, "rb").read()`, where a missing file is an OSError
unfoldable pub read : Text → Directory → Result Bytes
read name d = content_of (lookup name d)

abbrev mode_in : Option File → Option ℕ
mode_in none = none
mode_in (some f) = some f.mode

unfoldable pub mode_of : Text → Directory → Option ℕ
mode_of name d = mode_in (lookup name d)

-- The mode of a new file is what the umask leaves of the one asked for; a file that exists keeps its own.
abbrev pub mode_after : ℕ → Option ℕ → ℕ
mode_after fresh none = fresh
mode_after fresh (some mode) = mode

-- The file is made or emptied, and then written.
unfoldable pub overwrite : (ℕ → ℕ) → Text → ℕ → Bytes → Directory → Directory
overwrite umask name mode bs d =
    insert name (record { content = bs; mode = mode_after (umask mode) (mode_of name d) }) d

-- Nobody but the owner has a permission.
abbrev pub IsPrivate : ℕ → Type 0
IsPrivate mode = mode % 64 ≡ 0

-- A umask only takes permissions away.
abbrev pub IsUmask : (ℕ → ℕ) → Type 0
IsUmask umask = (mode : ℕ) → IsPrivate mode → IsPrivate (umask mode)

module _ (umask : ℕ → ℕ) (k j : Text) (mode : ℕ) (bs : Bytes) (d : Directory) where
  pub read-overwrite : read j (overwrite umask k mode bs d) ≡ (if k =ₜ j then ok bs else read j d)
  unfolding read overwrite
  read-overwrite = ground (
    arith,
    lookup-insert k j (record { content = bs; mode = mode_after (umask mode) (mode_of k d) }) d,
  )

  pub mode_of-overwrite :
      mode_of j (overwrite umask k mode bs d)
      ≡ (if k =ₜ j then some (mode_after (umask mode) (mode_of k d)) else mode_of j d)
  unfolding mode_of overwrite
  mode_of-overwrite = ground (
    arith,
    lookup-insert k j (record { content = bs; mode = mode_after (umask mode) (mode_of k d) }) d,
  )
