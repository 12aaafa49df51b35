-- ===== src/Util/Hashing.antt =====
-- `sha256_file` reads in blocks, and hashes what a single read would give.
use cmpe272_finaltest_assesm.Prelude.{
  ℕ, zero, suc, ◌-◌, ◌<◌, ◌≡◌, refl, ap, [], ◌++◌, append_assoc, append-nil, Option, none, some,
  arith, length, length-take, length-drop, take, drop, take-append_block, take-append-drop, min,
  ltb, lt→ltb, Bool-cases, ltb→lt, inl, inr,
}
use cmpe272_finaltest_assesm.Result.{ok}
use cmpe272_finaltest_assesm.Bytes.{Bytes, hex}
use cmpe272_finaltest_assesm.Util.{
  hash_read_size, if_empty_some, if_empty_none, hash_loop, sha256_file,
}

-- The bytes before the offset, if there is one.
abbrev pub prefix : Option ℕ → Bytes → Bytes
prefix none content = content
prefix (some n) content = take n content

prefix_nil : (o : Option ℕ) → prefix o [] ≡ []
prefix_nil none = refl
prefix_nil (some zero) = refl
prefix_nil (some (suc n)) = refl

module _ (size : ℕ) (pos : 0 < size) where
  hash_loop-eq :
      (fuel : ℕ) (o : Option ℕ) (rest h : Bytes)
      → length rest < fuel
      → hash_loop size fuel o rest h ≡ ok (h ++ prefix o rest)
  unfolding hash_loop
  hash_loop-eq zero o rest h lt = elim lt [ ]
  hash_loop-eq (suc fuel) none rest h lt = elim (Bool-cases (ltb 0 (length rest))) [
    | inl more ↦
        let n = min size size in
        let some_left = ltb→lt 0 (length rest) more in
        rw (
          if_empty_some (take n rest) _ _ (omega (arith, length-take {0} n rest)),
          hash_loop-eq fuel none (drop n rest) (h ++ take n rest)
              (omega (arith, length-drop {0} n rest)),
          append_assoc,
          take-append-drop n rest,
        )
    | inr dry ↦
        let e : rest ≡ [] = ground arith in
        rw (
          e,
          if_empty_none (take (min size size) []) _ _
              (omega (arith, length-take {0} {A = ℕ} (min size size) [])),
          append-nil,
        )
  ]
  hash_loop-eq (suc fuel) (some zero) rest h lt = rw append-nil
  hash_loop-eq (suc fuel) (some (suc r)) rest h lt = elim (Bool-cases (ltb 0 (length rest))) [
    | inl more ↦
        let n = min size (min (suc r) size) in
        let some_left = ltb→lt 0 (length rest) more in
        let got = length-take n rest in
        rw
          (
            lt→ltb 0 (suc r) (omega arith),
            if_empty_some (take n rest) _ _ (omega arith),
            hash_loop-eq fuel (some (suc r - length (take n rest))) (drop n rest) (h ++ take n rest)
                (omega (arith, length-drop {0} n rest)),
            append_assoc,
          )
          (ap (λ q. ok (h ++ q)) (take-append_block n (suc r) rest (omega arith)))
    | inr dry ↦
        let e : rest ≡ [] = ground arith in
        rw (
          e,
          lt→ltb 0 (suc r) (omega arith),
          if_empty_none (take (min size (min (suc r) size)) []) _ _
              (omega (arith, length-take {0} {A = ℕ} (min size (min (suc r) size)) [])),
          append-nil,
        )
  ]

-- `sha256_file` returns, for every file and offset, the hexadecimal digest of the first `end_offset`
-- bytes, or of the whole file without one.
pub sha256_file_lem :
    (sha256 : Bytes → Bytes) (content : Bytes) (end_offset : Option ℕ)
    → sha256_file sha256 content end_offset ≡ ok (hex (sha256 (prefix end_offset content)))
unfolding sha256_file
sha256_file_lem sha256 content end_offset = rw (
    hash_loop-eq hash_read_size (omega arith) (suc (length content)) end_offset content []
      (omega arith))
