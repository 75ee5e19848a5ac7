-- ===== src/Math.antt =====
-- The fixed-point arithmetic that the test suite adds to BigNumber
-- (test-suites/test-palmy/helpers/utils/math.ts), with the constants of helpers/constants.ts.
pub mod Naturals
pub mod Rounding
use palmy_protocol.Prelude.{ℕ, ◌^◌, ◌*◌, ◌/◌}
use palmy_protocol.Prelude.Int.{ℤ, pos, ◌+ℤ◌, ◌*ℤ◌}
use palmy_protocol.Number.{BigNumberLib}

abbrev pub percentage_factor : ℕ
percentage_factor = 10000

abbrev pub half_percentage_const : ℕ
half_percentage_const = 5000

abbrev pub wad_const : ℕ
wad_const = 10 ^ 18

abbrev pub half_wad_const : ℕ
half_wad_const = wad_const * 5 / 10

abbrev pub ray_const : ℕ
ray_const = 10 ^ 27

abbrev pub half_ray_const : ℕ
half_ray_const = ray_const * 5 / 10

abbrev pub wad_ray_ratio : ℕ
wad_ray_ratio = 10 ^ 9

abbrev pub max_uint_amount : ℕ
max_uint_amount = 115792089237316195423570985008687907853269984665640564039457584007913129639935

abbrev pub one_year : ℕ
one_year = 31536000

module _ ⦃lib : BigNumberLib⦄ where
  open lib use {div, floor_places}

  unfoldable pub ray : ℤ
  ray = floor_places (pos ray_const)

  unfoldable pub wad : ℤ
  wad = floor_places (pos wad_const)

  unfoldable pub half_ray : ℤ
  half_ray = floor_places (pos half_ray_const)

  unfoldable pub half_wad : ℤ
  half_wad = floor_places (pos half_wad_const)

  unfoldable pub half_percentage : ℤ
  half_percentage = floor_places (pos half_percentage_const)

  unfoldable pub wad_mul : ℤ → ℤ → ℤ
  unfolding half_wad
  wad_mul this b = floor_places (div (half_wad +ℤ this *ℤ b) (pos wad_const))

  unfoldable pub wad_div : ℤ → ℤ → ℤ
  wad_div this a =
      let half_a = floor_places (div a (pos 2)) in
      floor_places (div (half_a +ℤ this *ℤ pos wad_const) a)

  unfoldable pub ray_mul : ℤ → ℤ → ℤ
  unfolding half_ray
  ray_mul this a = floor_places (div (half_ray +ℤ this *ℤ a) (pos ray_const))

  unfoldable pub ray_div : ℤ → ℤ → ℤ
  ray_div this a =
      let half_a = floor_places (div a (pos 2)) in
      floor_places (div (floor_places (half_a +ℤ this *ℤ pos ray_const)) a)

  unfoldable pub ray_to_wad : ℤ → ℤ
  ray_to_wad this =
      let half_ratio = div (pos wad_ray_ratio) (pos 2) in
      floor_places (div (half_ratio +ℤ this) (pos wad_ray_ratio))

  unfoldable pub wad_to_ray : ℤ → ℤ
  wad_to_ray this = floor_places (this *ℤ pos wad_ray_ratio)

  unfoldable pub percent_mul : ℤ → ℤ → ℤ
  unfolding half_percentage
  percent_mul this b = floor_places (div (half_percentage +ℤ this *ℤ b) (pos percentage_factor))

  unfoldable pub percent_div : ℤ → ℤ → ℤ
  percent_div this a =
      let half_a = floor_places (div a (pos 2)) in
      floor_places (div (half_a +ℤ this *ℤ pos percentage_factor) a)
