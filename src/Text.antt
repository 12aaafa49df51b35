-- ===== src/Text.antt =====
-- Strings by their code points: literals, decimal formatting, and the tests that the code makes.
pub mod Decimal
pub mod Digits
use Prim.Native.Char.{code}
use Prim.Native.String.{String}
use cmpe272_finaltest_assesm.Prelude.{
  ◌≡◌, refl, arith, ℕ, zero, suc, ◌+◌, ◌-◌, ◌*◌, ◌/◌, ◌%◌, List, [], ◌∷◌, ◌++◌, Bool, true, false,
  ◌&&◌, ◌||◌, Option, none, some, ltb, ◌==◌, ◌=ₜ◌, length, replicate, drop, if◌then◌else◌,
}
use cmpe272_finaltest_assesm.Bytes.{Text}

-- The code points of a literal.
abbrev pub codes : String → Text
codes String.[] = []
codes (String.◌∷◌ c s) = code c ∷ codes s

-- `str(n)`, the last digit last.
unfoldable pub decimal : ℕ → ℕ → Text
decimal zero n = []
decimal (suc fuel) n =
    let front = decimal fuel (n / 10) in
    let last = 48 + n % 10 in if ltb n 10 then last ∷ [] else front ++ last ∷ []

abbrev pub str : ℕ → Text
str n = decimal (suc n) n

-- `f"{n:08d}"`
unfoldable pub padded8 : ℕ → Text
unfolding decimal
padded8 n = replicate (8 - length (str n)) 48 ++ str n

-- `s.startswith(prefix)`
unfoldable pub starts_with : Text → Text → Bool
starts_with s [] = true
starts_with [] (p ∷ ps) = false
starts_with (c ∷ s) (p ∷ ps) = c == p && starts_with s ps

-- `s.endswith(suffix)`
unfoldable pub ends_with : Text → Text → Bool
ends_with [] suffix = [] =ₜ suffix
ends_with (c ∷ s) suffix = (c ∷ s) =ₜ suffix || ends_with s suffix

-- `s.split(sep, 1)`: what stands before the first separator, and what behind it, if there is one.
abbrev pub before_first : ℕ → Text × Option Text → Text × Option Text
before_first c (front, back) = (c ∷ front, back)

unfoldable pub split1 : ℕ → Text → Text × Option Text
split1 sep [] = ([], none)
split1 sep (c ∷ s) =
    let rest = before_first c (split1 sep s) in if c == sep then ([], some s) else rest

-- Python's order on strings.
unfoldable pub text_le : Text → Text → Bool
text_le [] ys = true
text_le (x ∷ xs) [] = false
text_le (x ∷ xs) (y ∷ ys) = ltb x y || x == y && text_le xs ys

pub text_le_refl : (s : Text) → text_le s s ≡ true
unfolding text_le
text_le_refl [] = refl
text_le_refl (x ∷ xs) = ground (arith, text_le_refl xs)
