-- ===== src/Number.antt =====
-- The numbers of bignumber.js as the scenario suite configures it: DECIMAL_PLACES 0 and ROUND_DOWN
-- (test-suites/test-palmy/scenario.spec.ts), so that every value is an integer. A BigNumber is the
-- integer that it stands for; sums, differences, products and comparisons are exact. Division and
-- `decimalPlaces` are the library's own and are taken as arguments.
use Prim.Native.Char.{code}
use palmy_protocol.Prelude.{String, ◌*◌, ◌-◌, ℕ, suc, ◌/◌, ◌<◌, ◌+◌, ◌≡◌, refl, arith}
use palmy_protocol.Prelude.Int.{ℤ, pos, negsuc, pos_part, neg_part, sub_ℕ}

pub record BigNumberLib : Type 0 where
  -- new BigNumber(text)
  pub of_string : String → ℤ
  -- a.div(b)
  pub div : ℤ → ℤ → ℤ
  -- a.decimalPlaces(0, ROUND_DOWN)
  pub floor_places : ℤ → ℤ

-- The magnitude of an integer, and the quotient rounded towards zero.
abbrev pub magnitude : ℤ → ℕ
magnitude a = pos_part a + neg_part a

abbrev pub quotient : ℤ → ℤ → ℤ
quotient (pos a) (pos b) = pos (a / b)
quotient (pos a) (negsuc b) = sub_ℕ 0 (a / suc b)
quotient (negsuc a) (pos b) = sub_ℕ 0 (suc a / b)
quotient (negsuc a) (negsuc b) = pos (suc a / suc b)

-- What the documentation of bignumber.js says of the two under this configuration. Nothing is
-- assumed of a division by zero.
pub record IsTruncating (lib : BigNumberLib) : Type 0 where
  pub div-eq-quotient : (a b : ℤ) → 0 < magnitude b → lib.div a b ≡ quotient a b
  pub floor_places_id : (a : ℤ) → lib.floor_places a ≡ a

module _ {lib : BigNumberLib} (law : IsTruncating lib) where
  -- Between numbers that are not negative the division is that of ℕ.
  pub div-pos : (a b : ℕ) → 0 < b → lib.div (pos a) (pos b) ≡ pos (a / b)
  div-pos a b h = law.div-eq-quotient (pos a) (pos b) (omega arith)

abbrev pub read_digits : ℕ → String → ℕ
read_digits n String.[] = n
read_digits n (String.◌∷◌ c s) = read_digits (n * 10 + (code c - 48)) s

-- The laws can be met.
abbrev pub exact_lib : BigNumberLib
exact_lib = record { of_string = λ s. pos (read_digits 0 s); div = quotient; floor_places = λ a. a }

pub exact_lib-IsTruncating : IsTruncating exact_lib
exact_lib-IsTruncating = record { div-eq-quotient = λ a b h. refl; floor_places_id = λ a. refl }
