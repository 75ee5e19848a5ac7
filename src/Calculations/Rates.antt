-- ===== src/Calculations/Rates.antt =====
-- Utilization and interest rates: `calcExpectedUtilizationRate`, `calcExpectedOverallBorrowRate`,
-- `calcExpectedInterestRates` and the weighted averages of stable rates (calculations.ts).
pub mod Agreement
use palmy_protocol.Prelude.{String, Bool, ◌&&◌, Option, none, some, if◌then◌else◌, Dict, lookup}
use palmy_protocol.Prelude.Int.{ℤ, pos, ◌+ℤ◌, ◌-ℤ◌, ◌*ℤ◌, eq_ℤ, ltb_ℤ}
use palmy_protocol.Number.{BigNumberLib}
use palmy_protocol.Types.{ReserveParams, InterestRateStrategyParams}
use palmy_protocol.Math.{ray_mul, ray_div, wad_to_ray, percent_mul, ray_const, percentage_factor}

-- [liquidityRate, stableBorrowRate, variableBorrowRate]
pub record Rates : Type 0 where
  pub liquidity_rate : ℤ
  pub stable_borrow_rate : ℤ
  pub variable_borrow_rate : ℤ

module _ ⦃lib : BigNumberLib⦄ where
  open lib use {of_string, div, floor_places}

  unfoldable pub calc_expected_utilization_rate : ℤ → ℤ → ℤ → ℤ
  calc_expected_utilization_rate total_stable_debt total_variable_debt total_liquidity =
      if eq_ℤ total_stable_debt (pos 0) && eq_ℤ total_variable_debt (pos 0)
      then pos 0
      else ray_div (total_stable_debt +ℤ total_variable_debt) total_liquidity

  unfoldable pub calc_expected_overall_borrow_rate : ℤ → ℤ → ℤ → ℤ → ℤ
  calc_expected_overall_borrow_rate total_stable_debt total_variable_debt
        current_variable_borrow_rate current_average_stable_borrow_rate =
      let total_borrows = total_stable_debt +ℤ total_variable_debt in
      let weighted_variable_rate =
        ray_mul (wad_to_ray total_variable_debt) current_variable_borrow_rate in
      let weighted_stable_rate =
        ray_mul (wad_to_ray total_stable_debt) current_average_stable_borrow_rate in
      if eq_ℤ total_borrows (pos 0)
      then pos 0
      else ray_div (weighted_variable_rate +ℤ weighted_stable_rate) (wad_to_ray total_borrows)

  -- The stable and the variable rate at a utilization, from the market's stable rate.
  unfoldable pub borrow_rates : InterestRateStrategyParams → ℤ → ℤ → ℤ × ℤ
  borrow_rates strategy market_stable_rate utilization_rate =
      let optimal_rate = of_string strategy.optimal_utilization_rate in
      let excess_rate = pos ray_const -ℤ optimal_rate in
      let base = of_string strategy.base_variable_borrow_rate in
      let excess_ratio = ray_div (utilization_rate -ℤ optimal_rate) excess_rate in
      if ltb_ℤ optimal_rate utilization_rate
      then (
        market_stable_rate
            +ℤ of_string strategy.stable_rate_slope1
            +ℤ ray_mul (of_string strategy.stable_rate_slope2) excess_ratio,
        base
            +ℤ of_string strategy.variable_rate_slope1
            +ℤ ray_mul (of_string strategy.variable_rate_slope2) excess_ratio,
      )
      else (
        market_stable_rate
            +ℤ ray_mul (of_string strategy.stable_rate_slope1)
                (ray_div utilization_rate optimal_rate),
        base
            +ℤ ray_mul (ray_div utilization_rate optimal_rate)
                (of_string strategy.variable_rate_slope1),
      )

  -- The rates of a reserve with the given parameters.
  unfoldable pub rates_of : ReserveParams → ℤ → ℤ → ℤ → ℤ → ℤ → Rates
  unfolding borrow_rates
  rates_of reserve market_stable_rate utilization_rate total_stable_debt total_variable_debt
        average_stable_borrow_rate =
      let (stable_borrow_rate, variable_borrow_rate) =
        borrow_rates reserve.strategy market_stable_rate utilization_rate in
      let expected_overall_rate =
        calc_expected_overall_borrow_rate total_stable_debt total_variable_debt variable_borrow_rate
          average_stable_borrow_rate in
      record {
        liquidity_rate =
            percent_mul (ray_mul expected_overall_rate utilization_rate)
              (pos percentage_factor -ℤ of_string reserve.reserve_factor);
        stable_borrow_rate = stable_borrow_rate;
        variable_borrow_rate = variable_borrow_rate;
      }

  -- `none` is the TypeError of a symbol that the configuration does not have.
  unfoldable pub calc_expected_interest_rates :
      Dict ReserveParams → String → ℤ → ℤ → ℤ → ℤ → ℤ → Option Rates
  unfolding rates_of
  calc_expected_interest_rates reserves_params reserve_symbol market_stable_rate utilization_rate
        total_stable_debt total_variable_debt average_stable_borrow_rate =
      elim (lookup reserve_symbol reserves_params) [
        | none ↦ none
        | some reserve ↦ some (
            rates_of reserve market_stable_rate utilization_rate total_stable_debt
              total_variable_debt average_stable_borrow_rate)
      ]

  unfoldable pub calc_expected_average_stable_borrow_rate : ℤ → ℤ → ℤ → ℤ → ℤ
  calc_expected_average_stable_borrow_rate avg_stable_rate_before total_stable_debt_before
        amount_changed rate =
      let weighted_total_borrows = avg_stable_rate_before *ℤ total_stable_debt_before in
      let weighted_amount_borrowed = rate *ℤ amount_changed in
      let total_borrowed_stable = total_stable_debt_before +ℤ amount_changed in
      if eq_ℤ total_borrowed_stable (pos 0)
      then pos 0
      else floor_places
          (div (weighted_total_borrows +ℤ weighted_amount_borrowed) total_borrowed_stable)

  unfoldable pub calc_expected_average_stable_borrow_rate_rebalance : ℤ → ℤ → ℤ → ℤ → ℤ
  calc_expected_average_stable_borrow_rate_rebalance avg_stable_rate_before total_stable_debt_before
        amount_changed rate =
      let weighted_total_borrows = ray_mul avg_stable_rate_before total_stable_debt_before in
      let weighted_amount_borrowed = ray_mul rate (wad_to_ray amount_changed) in
      let total_borrowed_stable = total_stable_debt_before +ℤ wad_to_ray amount_changed in
      if eq_ℤ total_borrowed_stable (pos 0)
      then pos 0
      else floor_places
          (ray_div (weighted_total_borrows +ℤ weighted_amount_borrowed) total_borrowed_stable)

  unfoldable pub calc_expected_user_stable_rate : ℤ → ℤ → ℤ → ℤ → ℤ
  calc_expected_user_stable_rate balance_before rate_before amount rate_new =
      div (balance_before *ℤ rate_before +ℤ amount *ℤ rate_new) (balance_before +ℤ amount)
