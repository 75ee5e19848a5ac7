-- ===== src/Contracts/Strategy.antt =====
-- contracts/protocol/lendingpool/DefaultReserveInterestRateStrategy.sol: the rates that the lending
-- pool uses. The market's stable rate, which the contract reads from the lending rate oracle, is an
-- argument; a revert is `none`.
use palmy_protocol.Prelude.{ℕ, Option, some, ◌==◌, ltb, if◌then◌else◌}
use palmy_protocol.Prelude.Fallible.{◌>>=◌}
use palmy_protocol.Contracts.{SafeMath, percentage_unit, ray_mul, ray_div, wad_to_ray, percent_mul}

pub record Strategy : Type 0 where
  pub optimal_utilization_rate : ℕ
  pub excess_utilization_rate : ℕ
  pub base_variable_borrow_rate : ℕ
  pub variable_rate_slope1 : ℕ
  pub variable_rate_slope2 : ℕ
  pub stable_rate_slope1 : ℕ
  pub stable_rate_slope2 : ℕ

module _ ⦃safe : SafeMath⦄ where
  open safe use {add, sub}

  -- _getOverallBorrowRate
  unfoldable pub overall_borrow_rate : ℕ → ℕ → ℕ → ℕ → Option ℕ
  overall_borrow_rate total_stable_debt total_variable_debt variable_rate average_stable_rate = do
    total_debt ← add total_stable_debt total_variable_debt
    if total_debt == 0 then some 0 else do
      variable_ray ← wad_to_ray total_variable_debt
      weighted_variable_rate ← ray_mul variable_ray variable_rate
      stable_ray ← wad_to_ray total_stable_debt
      weighted_stable_rate ← ray_mul stable_ray average_stable_rate
      weighted ← add weighted_variable_rate weighted_stable_rate
      debt_ray ← wad_to_ray total_debt
      ray_div weighted debt_ray

  unfoldable pub utilization : ℕ → ℕ → Option ℕ
  utilization total_debt available_liquidity =
      if total_debt == 0
      then some 0
      else do total ← add available_liquidity total_debt; ray_div total_debt total

  -- The stable and the variable rate above the optimal utilization.
  unfoldable pub excess_rates : Strategy → ℕ → ℕ → Option (ℕ × ℕ)
  excess_rates s market utilization_rate = do
    excess ← sub utilization_rate s.optimal_utilization_rate
    ratio ← ray_div excess s.excess_utilization_rate
    stable_base ← add market s.stable_rate_slope1
    stable_extra ← ray_mul s.stable_rate_slope2 ratio
    stable_rate ← add stable_base stable_extra
    variable_base ← add s.base_variable_borrow_rate s.variable_rate_slope1
    variable_extra ← ray_mul s.variable_rate_slope2 ratio
    variable_rate ← add variable_base variable_extra
    some (stable_rate, variable_rate)

  -- The same up to the optimal utilization.
  unfoldable pub normal_rates : Strategy → ℕ → ℕ → Option (ℕ × ℕ)
  normal_rates s market utilization_rate = do
    share ← ray_div utilization_rate s.optimal_utilization_rate
    stable_extra ← ray_mul s.stable_rate_slope1 share
    stable_rate ← add market stable_extra
    product ← ray_mul utilization_rate s.variable_rate_slope1
    variable_extra ← ray_div product s.optimal_utilization_rate
    variable_rate ← add s.base_variable_borrow_rate variable_extra
    some (stable_rate, variable_rate)

  -- (liquidity rate, stable rate, variable rate)
  unfoldable pub calculate_interest_rates : Strategy → ℕ → ℕ → ℕ → ℕ → ℕ → ℕ → Option (ℕ × ℕ × ℕ)
  unfolding utilization
  calculate_interest_rates s market available_liquidity total_stable_debt total_variable_debt
        average_stable_rate reserve_factor =
      do
        total_debt ← add total_stable_debt total_variable_debt
        utilization_rate ← utilization total_debt available_liquidity
        rates ←
            if ltb s.optimal_utilization_rate utilization_rate
            then excess_rates s market utilization_rate
            else normal_rates s market utilization_rate
        overall ←
            overall_borrow_rate total_stable_debt total_variable_debt rates.1 average_stable_rate
        product ← ray_mul overall utilization_rate
        share ← sub percentage_unit reserve_factor
        liquidity_rate ← percent_mul product share
        some (liquidity_rate, rates.0, rates.1)
