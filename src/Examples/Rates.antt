-- ===== src/Examples/Rates.antt =====
-- Rates at a utilization of nine tenths, above the optimal one of eight tenths.
use palmy_protocol.Prelude.{◌≡◌, refl, true, arith}
use palmy_protocol.Prelude.Int.{pos}
use palmy_protocol.Number.{exact_lib, exact_lib-IsTruncating}
use palmy_protocol.Types.{InterestRateStrategyParams, ReserveParams}
use palmy_protocol.Contracts
use palmy_protocol.Contracts.{exact_safe, exact_safe-IsChecked}
use palmy_protocol.Contracts.Strategy
use palmy_protocol.Contracts.Strategy.{Strategy}
use palmy_protocol.Calculations.Rates.{rates_of, calc_expected_overall_borrow_rate}
use palmy_protocol.Calculations.Rates.Agreement.{
  IsSameStrategy, pos_rates, overall_agrees, rates_agree_above,
}

abbrev pub sample : InterestRateStrategyParams
sample = record {
  name = "rateStrategySample";
  optimal_utilization_rate = "800000000000000000000000000";
  base_variable_borrow_rate = "0";
  variable_rate_slope1 = "40000000000000000000000000";
  variable_rate_slope2 = "750000000000000000000000000";
  stable_rate_slope1 = "20000000000000000000000000";
  stable_rate_slope2 = "600000000000000000000000000";
}

abbrev pub reserve : ReserveParams
reserve = record {
  borrowing_enabled = true;
  stable_borrow_rate_enabled = true;
  reserve_decimals = "18";
  base_ltv_as_collateral = "7500";
  liquidation_threshold = "8000";
  liquidation_bonus = "10500";
  ltoken_impl = "LToken";
  reserve_factor = "1000";
  strategy = sample;
}

abbrev built : Strategy
built = record {
  optimal_utilization_rate = 800000000000000000000000000;
  excess_utilization_rate = 200000000000000000000000000;
  base_variable_borrow_rate = 0;
  variable_rate_slope1 = 40000000000000000000000000;
  variable_rate_slope2 = 750000000000000000000000000;
  stable_rate_slope1 = 20000000000000000000000000;
  stable_rate_slope2 = 600000000000000000000000000;
}

sample-IsSameStrategy : IsSameStrategy ⦃lib = exact_lib⦄ sample built
sample-IsSameStrategy = record {
  optimal = refl;
  below_one = omega arith;
  excess = refl;
  base = refl;
  variable1 = refl;
  variable2 = refl;
  stable1 = refl;
  stable2 = refl;
}

overall_agrees_example :
    calc_expected_overall_borrow_rate ⦃lib = exact_lib⦄
      (pos 5000000000000000000)
      (pos 4000000000000000000)
      (pos 415000000000000000000000000)
      (pos 100000000000000000000000000)
    ≡ pos 240000000000000000000000000
unfolding Strategy.overall_borrow_rate Contracts.wad_to_ray Contracts.ray_mul Contracts.ray_div
overall_agrees_example =
    overall_agrees ⦃lib = exact_lib⦄ exact_lib-IsTruncating ⦃safe = exact_safe⦄ exact_safe-IsChecked
      5000000000000000000 4000000000000000000 415000000000000000000000000
      100000000000000000000000000 refl

rates_agree_above_example :
    rates_of ⦃lib = exact_lib⦄ reserve
      (pos 39000000000000000000000000)
      (pos 900000000000000000000000000)
      (pos 5000000000000000000)
      (pos 4000000000000000000)
      (pos 100000000000000000000000000)
    ≡ pos_rates
        (194400000000000000000000000, 359000000000000000000000000, 415000000000000000000000000)
unfolding Strategy.calculate_interest_rates Strategy.overall_borrow_rate Strategy.excess_rates
    Strategy.normal_rates Contracts.wad_to_ray Contracts.ray_mul Contracts.ray_div
    Contracts.percent_mul
rates_agree_above_example =
    rates_agree_above ⦃lib = exact_lib⦄ exact_lib-IsTruncating ⦃safe = exact_safe⦄
      exact_safe-IsChecked reserve built 39000000000000000000000000 1000000000000000000
      5000000000000000000 4000000000000000000 100000000000000000000000000 1000
      900000000000000000000000000 sample-IsSameStrategy refl refl (omega arith) refl
