-- ===== src/Examples/Interest.antt =====
-- Interest at concrete inputs: 5 percent a year, over 1000 seconds.
use palmy_protocol.Prelude.{◌*◌, ◌^◌, ◌≡◌, refl}
use palmy_protocol.Prelude.Int.{pos}
use palmy_protocol.Number.{exact_lib, exact_lib-IsTruncating}
use palmy_protocol.Contracts
use palmy_protocol.Contracts.{exact_safe, exact_safe-IsChecked}
use palmy_protocol.Calculations.Interest.{calc_linear_interest, calc_compounded_interest}
use palmy_protocol.Calculations.Interest.Agreement.{linear_agrees, compounded_agrees}

linear_agrees_example :
    calc_linear_interest ⦃lib = exact_lib⦄ (pos (5 * 10 ^ 25)) (pos 1700001000) (pos 1700000000)
    ≡ pos 1000001585489599188229325215
unfolding Contracts.calculate_linear_interest
linear_agrees_example =
    linear_agrees ⦃lib = exact_lib⦄ exact_lib-IsTruncating ⦃safe = exact_safe⦄ exact_safe-IsChecked
      (5 * 10 ^ 25) 1700000000 1700001000 refl

compounded_agrees_example :
    calc_compounded_interest ⦃lib = exact_lib⦄ (pos (5 * 10 ^ 25)) (pos 1700001000) (pos 1700000000)
    ≡ pos 1000001585490854820639858500
unfolding Contracts.calculate_compounded_interest Contracts.compounded Contracts.ray_mul
compounded_agrees_example =
    compounded_agrees ⦃lib = exact_lib⦄ exact_lib-IsTruncating ⦃safe = exact_safe⦄
      exact_safe-IsChecked (5 * 10 ^ 25) 1700000000 1700001000 refl
