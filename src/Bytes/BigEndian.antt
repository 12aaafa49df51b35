-- ===== src/Bytes/BigEndian.antt =====
-- Big-endian integers: their length, and that reading inverts writing.
use native.Mathlib.Nat.{pow-suc}
use cmpe272_finaltest_assesm.Prelude.{
  ℕ, zero, suc, ◌+◌, ◌*◌, ◌/◌, ◌%◌, ◌^◌, ◌<◌, ◌≡◌, refl, ap, sym, ◌∙◌, [], ◌∷◌, ◌++◌, arith, lt→ltb,
  length, length-append, take-append_self, drop-append_self,
}
use cmpe272_finaltest_assesm.Result.{ok}
use cmpe272_finaltest_assesm.Bytes.{
  Bytes, be, from_be, to_bytes8, pack_q, unpack_q, pack_qq, unpack_qq, u64_mod,
}

pub length-be : (w n : ℕ) → length (be w n) ≡ w
unfolding be
length-be zero n = refl
length-be (suc w) n =
    omega (arith, length-append {0} (be w (n / 256)) ((n % 256) ∷ []), length-be w (n / 256))

from_be-append :
    (acc : ℕ) (xs : Bytes) (y : ℕ) → from_be acc (xs ++ y ∷ []) ≡ from_be acc xs * 256 + y
unfolding from_be
from_be-append acc [] y = refl
from_be-append acc (x ∷ xs) y = from_be-append (acc * 256 + x) xs y

-- Digits that fit are read back whole.
pub from_be-be : (w n : ℕ) → n < 256 ^ w → from_be 0 (be w n) ≡ n
unfolding be
from_be-be zero n h = unfold from_be in omega arith
from_be-be (suc w) n h =
    rw (from_be-append 0 (be w (n / 256)) (n % 256))
      (omega (arith, from_be-be w (n / 256) (omega (arith, pow-suc 256 w))))

-- Two numbers that fit have the same digits only if they are equal.
pub be_injective : (m n : ℕ) → m < u64_mod → n < u64_mod → be 8 m ≡ be 8 n → m ≡ n
be_injective m n hm hn e = sym (from_be-be 8 m hm) ∙ ap (from_be 0) e ∙ from_be-be 8 n hn

pub to_bytes8_lem : (n : ℕ) → n < u64_mod → to_bytes8 n ≡ ok (be 8 n)
unfolding to_bytes8
to_bytes8_lem n h = rw (lt→ltb n u64_mod h)

pub pack_q_lem : (n : ℕ) → n < u64_mod → pack_q n ≡ ok (be 8 n)
unfolding pack_q
pack_q_lem n h = rw (lt→ltb n u64_mod h)

pub unpack_q-be : (n : ℕ) → n < u64_mod → unpack_q (be 8 n) ≡ ok n
unfolding unpack_q
unpack_q-be n h = rw (length-be 8 n, from_be-be 8 n h)

pub pack_qq_lem : (m n : ℕ) → m < u64_mod → n < u64_mod → pack_qq m n ≡ ok (be 8 m ++ be 8 n)
unfolding pack_qq
pack_qq_lem m n hm hn = rw (pack_q_lem m hm, pack_q_lem n hn)

-- The two fields of a header are read back.
pub unpack_qq-be : (m n : ℕ) → m < u64_mod → n < u64_mod → unpack_qq (be 8 m ++ be 8 n) ≡ ok (m, n)
unfolding unpack_qq
unpack_qq-be m n hm hn = rw (
  length-append (be 8 m) (be 8 n),
  length-be 8 m,
  length-be 8 n,
  take-append_self (be 8 m) (be 8 n) 8 (sym (length-be 8 m)),
  drop-append_self (be 8 m) (be 8 n) 8 (sym (length-be 8 m)),
  from_be-be 8 m hm,
  from_be-be 8 n hn,
)
