-- ===== src/Util.antt =====
-- The constants and file helpers of common/util.py. An open file is what is left to read of it.
pub mod Hashing
pub mod WriteAt
pub mod Durable
pub mod Promoted
use cmpe272_finaltest_assesm.Prelude.{
  ℕ, zero, suc, Bool, true, Option, none, some, ◌+◌, ◌-◌, ◌*◌, List, [], ◌∷◌, ◌++◌, ltb, length,
  take, drop, replicate, min, ◌≡◌, ◌<◌, refl, arith, if◌then◌else◌,
}
use cmpe272_finaltest_assesm.Result.{Result, ok, err, diverged, ◌>>=◌}
use cmpe272_finaltest_assesm.Bytes.{Bytes, Text, hex}

abbrev pub chunk_size : ℕ
chunk_size = 1 * 1024 * 1024

abbrev pub hash_read_size : ℕ
hash_read_size = 1 * 1024 * 1024

abbrev pub sha256_len : ℕ
sha256_len = 32

-- `if not block: … else: …`
abbrev pub if_empty {ℓ} : {A : Type ℓ} → Bytes → A → A → A
if_empty [] x y = x
if_empty (b ∷ bs) x y = y

pub if_empty_none {ℓ} : {A : Type ℓ} (xs : Bytes) (x y : A) → length xs ≡ 0 → if_empty xs x y ≡ x
if_empty_none [] x y h = refl
if_empty_none (b ∷ bs) x y h = absurd (omega arith)

pub if_empty_some {ℓ} : {A : Type ℓ} (xs : Bytes) (x y : A) → 0 < length xs → if_empty xs x y ≡ y
if_empty_some [] x y h = elim h [ ]
if_empty_some (b ∷ bs) x y h = refl

-- `remaining` is `none` for the source's infinity.
abbrev pub at_most : Option ℕ → ℕ → ℕ
at_most none n = n
at_most (some r) n = min r n

abbrev pub is_left : Option ℕ → Bool
is_left none = true
is_left (some r) = ltb 0 r

abbrev pub less : Option ℕ → ℕ → Option ℕ
less none n = none
less (some r) n = some (r - n)

-- The loop of `sha256_file`. A hash object is the list of the bytes fed to it, `h`.
hash_loop : ℕ → ℕ → Option ℕ → Bytes → Bytes → Result Bytes
hash_loop size zero remaining rest h = err diverged
hash_loop size (suc fuel) remaining rest h =
    let n = min size (at_most remaining size) in
    let block = take n rest in
    let next = hash_loop size fuel (less remaining (length block)) (drop n rest) (h ++ block) in
    if is_left remaining then if_empty block (ok h) next else ok h

-- `sha256_file(path, end_offset=...)` of a file with this content.
unfoldable pub sha256_file : (Bytes → Bytes) → Bytes → Option ℕ → Result Text
unfolding hash_loop
sha256_file sha256 content end_offset = do
  h ← hash_loop hash_read_size (suc (length content)) end_offset content []
  ok (hex (sha256 h))

-- `f.seek(at); f.write(bs)`: a gap before `at` reads as zeros.
unfoldable pub write_at : ℕ → Bytes → Bytes → Bytes
write_at at bs content =
    take at (content ++ replicate (at - length content) 0) ++ (bs ++ drop (at + length bs) content)
