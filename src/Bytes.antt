-- ===== src/Bytes.antt =====
-- Byte strings, and the fixed-width big-endian integers of `struct.Struct(">Q")` (common/util.py)
-- and `int.to_bytes` (approach-b-broker-envelope/envelope.py).
pub mod BigEndian
pub mod Hex
use cmpe272_finaltest_assesm.Prelude.{
  ℕ, zero, suc, ◌+◌, ◌*◌, ◌/◌, ◌%◌, ◌^◌, List, [], ◌∷◌, ◌++◌, ◌-◌, Bool, ◌&&◌, ◌||◌, Option, some,
  none, leb, ltb, ◌==◌, length, take, drop, if◌then◌else◌,
}
use cmpe272_finaltest_assesm.Result.{
  Result, ok, err, Error, overflow_error, struct_error, value_error, ◌>>=◌,
}

abbrev pub Bytes : Type 0
Bytes = List ℕ

-- `Text` is a string by its code points.
abbrev pub Text : Type 0
Text = List ℕ

-- The last `w` base-256 digits of `n`, the most significant first.
unfoldable pub be : ℕ → ℕ → Bytes
be zero n = []
be (suc w) n = be w (n / 256) ++ (n % 256) ∷ []

-- The number that the digits stand for, after `acc`.
unfoldable pub from_be : ℕ → Bytes → ℕ
from_be acc [] = acc
from_be acc (b ∷ bs) = from_be (acc * 256 + b) bs

abbrev pub u64_mod : ℕ
u64_mod = 2 ^ 64

-- `n.to_bytes(8, "big")`
unfoldable pub to_bytes8 : ℕ → Result Bytes
to_bytes8 n = if ltb n u64_mod then ok (be 8 n) else err overflow_error

-- `struct.pack(">Q", n)`
unfoldable pub pack_q : ℕ → Result Bytes
pack_q n = if ltb n u64_mod then ok (be 8 n) else err struct_error

-- `struct.unpack(">Q", bs)`
unfoldable pub unpack_q : Bytes → Result ℕ
unpack_q bs = if length bs == 8 then ok (from_be 0 bs) else err struct_error

-- `struct.Struct(">QQ")`
unfoldable pub pack_qq : ℕ → ℕ → Result Bytes
unfolding pack_q
pack_qq m n = do a ← pack_q m; b ← pack_q n; ok (a ++ b)

unfoldable pub unpack_qq : Bytes → Result (ℕ × ℕ)
unpack_qq bs =
    if length bs == 16 then ok (from_be 0 (take 8 bs), from_be 0 (drop 8 bs)) else err struct_error

abbrev pub hex_digit : ℕ → ℕ
hex_digit d = if ltb d 10 then 48 + d else 87 + d

-- `bs.hex()`
unfoldable pub hex : Bytes → Text
hex [] = []
hex (b ∷ bs) = hex_digit (b / 16) ∷ hex_digit (b % 16) ∷ hex bs

-- The value of a hexadecimal digit, of either case.
abbrev pub digit_value : ℕ → Option ℕ
digit_value c =
    if leb b'0' c && leb c b'9'
    then some (c - 48)
    else if leb b'a' c && leb c b'f'
    then some (c - 87)
    else if leb b'A' c && leb c b'F'
    then some (c - 55)
    else none

abbrev pub is_space : ℕ → Bool
is_space c = leb 9 c && leb c 13 || c == 32

abbrev pub hex_pair : Option ℕ → Option ℕ → Result Bytes → Result Bytes
hex_pair (some hi) (some lo) rest = do bs ← rest; ok ((hi * 16 + lo) ∷ bs)
hex_pair _ _ rest = err value_error

-- `bytes.fromhex(s)`, which skips white space between the pairs.
unfoldable pub from_hex : Text → Result Bytes
from_hex [] = ok []
from_hex (c ∷ []) = if is_space c then ok [] else err value_error
from_hex (c ∷ d ∷ s) =
    let skipped = from_hex (d ∷ s) in
    let pair = hex_pair (digit_value c) (digit_value d) (from_hex s) in
    if is_space c then skipped else pair
