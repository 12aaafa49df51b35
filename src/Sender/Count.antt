-- ===== src/Sender/Count.antt =====
-- The number of chunks: `math.ceil(file_size / CHUNK_SIZE)` of sender.py. The quotient is a float, whose
-- 53 binary digits do not hold every size.
use cmpe272_finaltest_assesm.Prelude.{
  ℕ, zero, suc, ◌+◌, ◌-◌, ◌*◌, ◌/◌, ◌%◌, ◌<◌, ◌≡◌, arith, true, false, ◌||◌, ◌&&◌, ltb, ◌==◌,
  if◌then◌else◌,
}
use cmpe272_finaltest_assesm.Util.{chunk_size}

-- Every number below 2 ^ 53 is a float.
abbrev pub float_mod : ℕ
float_mod = 9007199254740992

-- The multiple of `unit` that is nearest; in the middle of two, the even multiple.
abbrev pub nearest : ℕ → ℕ → ℕ
nearest unit n =
    let below = n / unit in
    let twice = 2 * (n % unit) in
    (if ltb unit twice || (twice == unit && below % 2 == 1) then below + 1 else below) * unit

-- The float nearest to a number: the unit is doubled until 53 digits are enough. With the fuel below
-- this serves up to 2 ^ 116, and a file has less than 2 ^ 63 bytes.
unfoldable pub to_float : ℕ → ℕ → ℕ → ℕ
to_float zero unit n = nearest unit n
to_float (suc fuel) unit n = elim (ltb n (float_mod * unit)) [
  | true ↦ nearest unit n
  | false ↦ to_float fuel (2 * unit) n
]

-- Division by the chunk size, a power of two, rounds as the size itself does.
unfoldable pub chunk_count : ℕ → ℕ
chunk_count size = (to_float 63 1 size + (chunk_size - 1)) / chunk_size

-- Below 2 ^ 53 bytes nothing is rounded.
pub chunk_count-exact :
    (size : ℕ) → size < float_mod → chunk_count size ≡ (size + (chunk_size - 1)) / chunk_size
unfolding chunk_count to_float
chunk_count-exact size h = ground arith
