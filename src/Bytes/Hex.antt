-- ===== src/Bytes/Hex.antt =====
-- `bytes.fromhex` undoes `bytes.hex`.
use cmpe272_finaltest_assesm.Prelude.{
  ℕ, ◌+◌, ◌*◌, ◌/◌, ◌%◌, ◌<◌, ◌≡◌, refl, false, some, [], ◌∷◌, arith,
}
use cmpe272_finaltest_assesm.Result.{ok}
use cmpe272_finaltest_assesm.Bytes.{Bytes, hex_digit, digit_value, is_space, hex, from_hex}

abbrev pub IsOctets : Bytes → Type 0
IsOctets [] = Unit
IsOctets (b ∷ bs) = (b < 256) × IsOctets bs

digit_value-hex_digit : (d : ℕ) → d < 16 → digit_value (hex_digit d) ≡ some d
digit_value-hex_digit d h = ground arith

is_space-hex_digit : (d : ℕ) → d < 16 → is_space (hex_digit d) ≡ false
is_space-hex_digit d h = ground arith

-- The hexadecimal text of bytes below 256 is read back as the same bytes.
pub from_hex-hex : (bs : Bytes) → IsOctets bs → from_hex (hex bs) ≡ ok bs
unfolding from_hex hex
from_hex-hex [] h = refl
from_hex-hex (b ∷ bs) (small, rest) =
    let hi : b / 16 < 16 = omega arith in
    let lo : b % 16 < 16 = omega arith in
    let whole : b / 16 * 16 + b % 16 ≡ b = omega arith in
    rw
      (
        is_space-hex_digit (b / 16) hi,
        digit_value-hex_digit (b / 16) hi,
        digit_value-hex_digit (b % 16) lo,
        from_hex-hex bs rest,
        whole,
      )
      refl
