-- ===== src/Tls/Blocks.antt =====
-- The loop that feeds the first bytes of a file to the hash: `_hash_prefix` of
-- approach-a-tls-mtls/receiver.py, and the same loop in `stream` of sender.py.
use cmpe272_finaltest_assesm.Prelude.{
  ℕ, zero, suc, ◌-◌, ◌≤◌, ◌<◌, ◌≡◌, ◌++◌, append_assoc, append-nil, arith, ltb, ltb→lt, Bool-cases,
  inl, inr, length, length-take, length-drop, take, drop, drop-drop, take-append_block, min,
  if◌then◌else◌,
}
use cmpe272_finaltest_assesm.Result.{Result, ok, err, io_error, diverged}
use cmpe272_finaltest_assesm.Bytes.{Bytes}
use cmpe272_finaltest_assesm.Util.{if_empty, if_empty_some}

-- Reads `remaining` bytes in blocks of `size`; returns what the hash was fed, and what is left of
-- the file. A file that ends too early is an `IOError`.
unfoldable pub hash_blocks : ℕ → ℕ → ℕ → Bytes → Bytes → Result (Bytes × Bytes)
hash_blocks size zero remaining rest h = err diverged
hash_blocks size (suc fuel) remaining rest h =
    let block = take (min size remaining) rest in
    let next =
      hash_blocks size fuel (remaining - length block) (drop (min size remaining) rest)
        (h ++ block) in
    if ltb 0 remaining then if_empty block (err io_error) next else ok (h, rest)

-- A file that is long enough is read to the offset, whatever the size of the blocks.
pub hash_blocks-ok :
    (size : ℕ)
    → 0 < size
    → (fuel remaining : ℕ) (rest h : Bytes) → remaining < fuel
    → remaining ≤ length rest
    → hash_blocks size fuel remaining rest h ≡ ok (h ++ take remaining rest, drop remaining rest)
unfolding hash_blocks
hash_blocks-ok size pos zero remaining rest h lt fits = elim lt [ ]
hash_blocks-ok size pos (suc fuel) remaining rest h lt fits = elim (Bool-cases (ltb 0 remaining)) [
  | inl more ↦
      let left = ltb→lt 0 remaining more in
      let n = min size remaining in
      let got = length-take n rest in
      rw (
        more,
        if_empty_some (take n rest) _ _ (omega arith),
        hash_blocks-ok size pos fuel (remaining - length (take n rest)) (drop n rest)
            (h ++ take n rest) (omega arith) (omega (arith, length-drop {0} n rest)),
        append_assoc,
        take-append_block n remaining rest (omega arith),
        drop-drop n (remaining - length (take n rest)) remaining rest (omega arith),
      )
  | inr done ↦ let e : remaining ≡ 0 = ground arith in rw (done, e, append-nil)
]
