-- ===== src/Contracts.antt =====
-- The Solidity arithmetic that the test suite predicts: SafeMath, WadRayMath.sol, PercentageMath.sol
-- and MathUtils.sol of contracts/protocol/libraries/math. A uint256 is a number below 2 ^ 256, native
-- Solidity 0.6 arithmetic wraps around, and a revert is `none`.
pub mod Checked
pub mod Agreement
pub mod Strategy
use palmy_protocol.Prelude.{
  ℕ, ◌+◌, ◌-◌, ◌*◌, ◌/◌, ◌%◌, ◌^◌, Bool, ◌||◌, ◌≡◌, refl, Option, none, some, ◌==◌, ltb, leb,
  if◌then◌else◌,
}
use palmy_protocol.Prelude.Fallible.{◌>>=◌}

abbrev pub modulus : ℕ
modulus = 2 ^ 256

abbrev pub uint_max : ℕ
uint_max = modulus - 1

abbrev pub wrap : ℕ → ℕ
wrap a = a % modulus

-- The result of a computation that reverts if `n` does not fit a uint256.
abbrev pub fits : ℕ → ℕ → Option ℕ
fits n r = if leb n uint_max then some r else none

-- OpenZeppelin's SafeMath.
pub record SafeMath : Type 0 where
  pub add : ℕ → ℕ → Option ℕ
  pub sub : ℕ → ℕ → Option ℕ
  pub mul : ℕ → ℕ → Option ℕ

-- Its documentation: each operation is exact, and reverts on overflow.
pub record IsChecked (safe : SafeMath) : Type 0 where
  pub add_exact : (a b : ℕ) → safe.add a b ≡ fits (a + b) (a + b)
  pub sub_exact : (a b : ℕ) → safe.sub a b ≡ (if leb b a then some (a - b) else none)
  pub mul_exact : (a b : ℕ) → safe.mul a b ≡ fits (a * b) (a * b)

abbrev pub exact_safe : SafeMath
exact_safe = record {
  add = λ a b. fits (a + b) (a + b);
  sub = λ a b. if leb b a then some (a - b) else none;
  mul = λ a b. fits (a * b) (a * b);
}

pub exact_safe-IsChecked : IsChecked exact_safe
exact_safe-IsChecked = record {
  add_exact = λ a b. refl;
  sub_exact = λ a b. refl;
  mul_exact = λ a b. refl;
}

-- WadRayMath.sol
abbrev pub wad_unit : ℕ
wad_unit = 10 ^ 18

abbrev pub ray_unit : ℕ
ray_unit = 10 ^ 27

abbrev pub unit_ratio : ℕ
unit_ratio = 10 ^ 9

-- require(n <= limit), then the value
abbrev pub when_le : ℕ → ℕ → ℕ → Option ℕ
when_le n limit r = if leb n limit then some r else none

unfoldable pub wad_mul : ℕ → ℕ → Option ℕ
wad_mul a b =
    if a == 0 || b == 0
    then some 0
    else when_le a ((uint_max - wad_unit / 2) / b) (wrap (a * b + wad_unit / 2) / wad_unit)

unfoldable pub wad_div : ℕ → ℕ → Option ℕ
wad_div a b =
    if b == 0
    then none
    else when_le a ((uint_max - b / 2) / wad_unit) (wrap (a * wad_unit + b / 2) / b)

unfoldable pub ray_mul : ℕ → ℕ → Option ℕ
ray_mul a b =
    if a == 0 || b == 0
    then some 0
    else when_le a ((uint_max - ray_unit / 2) / b) (wrap (a * b + ray_unit / 2) / ray_unit)

unfoldable pub ray_div : ℕ → ℕ → Option ℕ
ray_div a b =
    if b == 0
    then none
    else when_le a ((uint_max - b / 2) / ray_unit) (wrap (a * ray_unit + b / 2) / b)

unfoldable pub ray_to_wad : ℕ → Option ℕ
ray_to_wad a =
    let half_ratio = unit_ratio / 2 in
    let result = wrap (half_ratio + a) in
    if leb half_ratio result then some (result / unit_ratio) else none

unfoldable pub wad_to_ray : ℕ → Option ℕ
wad_to_ray a =
    let result = wrap (a * unit_ratio) in if result / unit_ratio == a then some result else none

-- PercentageMath.sol
abbrev pub percentage_unit : ℕ
percentage_unit = 10000

unfoldable pub percent_mul : ℕ → ℕ → Option ℕ
percent_mul value percentage =
    if value == 0 || percentage == 0
    then some 0
    else when_le value ((uint_max - percentage_unit / 2) / percentage)
        (wrap (value * percentage + percentage_unit / 2) / percentage_unit)

unfoldable pub percent_div : ℕ → ℕ → Option ℕ
percent_div value percentage =
    if percentage == 0
    then none
    else when_le value ((uint_max - percentage / 2) / percentage_unit)
        (wrap (value * percentage_unit + percentage / 2) / percentage)

-- MathUtils.sol
abbrev pub seconds_per_year : ℕ
seconds_per_year = 31536000

module _ ⦃safe : SafeMath⦄ where
  open safe use {add, sub, mul}

  -- `now` is block.timestamp
  unfoldable pub calculate_linear_interest : ℕ → ℕ → ℕ → Option ℕ
  calculate_linear_interest rate last now = do
    time_difference ← sub now last
    product ← mul rate time_difference
    add (product / seconds_per_year) ray_unit

  unfoldable pub compounded : ℕ → ℕ → Option ℕ
  compounded rate exp = do
    let exp_minus_one = exp - 1
    let exp_minus_two = if ltb 2 exp then exp - 2 else 0
    let rate_per_second = rate / seconds_per_year
    base_power_two ← ray_mul rate_per_second rate_per_second
    base_power_three ← ray_mul base_power_two rate_per_second
    pairs ← mul exp exp_minus_one
    second ← mul pairs base_power_two
    triples ← mul pairs exp_minus_two
    third ← mul triples base_power_three
    growth ← mul rate_per_second exp
    one ← add ray_unit growth
    two ← add one (second / 2)
    add two (third / 6)

  unfoldable pub calculate_compounded_interest : ℕ → ℕ → ℕ → Option ℕ
  unfolding compounded
  calculate_compounded_interest rate last now = do
    exp ← sub now last
    if exp == 0 then some ray_unit else compounded rate exp
