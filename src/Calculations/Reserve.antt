-- ===== src/Calculations/Reserve.antt =====
-- The expected reserve after an action (calculations.ts): deposit, withdrawal, swap of the rate mode and
-- rebalance of the stable rate. `params` is `configuration.reservesParams`; `none` is the TypeError of
-- a symbol that it does not have. `blank` stands for the empty object that the source starts from: a
-- field that is not assigned has its value there.
use palmy_protocol.Prelude.{Option, some, if◌then◌else◌, Dict}
use palmy_protocol.Prelude.Fallible.{◌>>=◌}
use palmy_protocol.Prelude.Int.{ℤ, pos, ◌+ℤ◌, ◌-ℤ◌, eq_ℤ}
use palmy_protocol.Number.{BigNumberLib}
use palmy_protocol.Types.{ReserveParams, RateMode, is_stable}
use palmy_protocol.Math.{ray_mul, ray_div, max_uint_amount}
use palmy_protocol.Calculations.{ReserveData, UserReserveData}
use palmy_protocol.Calculations.Interest.{
  calc_expected_stable_debt_token_balance, calc_expected_variable_debt_token_balance,
  calc_expected_ltoken_balance, calc_expected_liquidity_index, calc_expected_variable_borrow_index,
  calc_expected_total_stable_debt, calc_expected_total_variable_debt,
}
use palmy_protocol.Calculations.Rates.{
  Rates, calc_expected_utilization_rate, calc_expected_interest_rates,
  calc_expected_average_stable_borrow_rate, calc_expected_average_stable_borrow_rate_rebalance,
}

abbrev pub negated : ℤ → ℤ
negated a = pos 0 -ℤ a

module _ ⦃lib : BigNumberLib⦄ where
  -- The total stable debt of a reserve at a time.
  abbrev pub stable_debt_at : ReserveData → ℤ → ℤ
  stable_debt_at before timestamp =
      calc_expected_total_stable_debt before.principal_stable_debt before.average_stable_borrow_rate
        before.total_stable_debt_last_updated timestamp

  -- The stable debt of a user at a time.
  abbrev pub user_stable_debt_at : UserReserveData → ℤ → ℤ
  user_stable_debt_at user timestamp =
      calc_expected_stable_debt_token_balance user.principal_stable_debt user.stable_borrow_rate
        user.stable_rate_last_updated timestamp

  -- An amount of MAX_UINT_AMOUNT stands for the whole balance of the user.
  abbrev pub withdrawn : ℤ → ReserveData → UserReserveData → ℤ → ℤ
  withdrawn amount before user tx_timestamp =
      if eq_ℤ amount (pos max_uint_amount)
      then calc_expected_ltoken_balance before user tx_timestamp
      else amount

  -- expectedReserveData.utilizationRate = calcExpectedUtilizationRate(…)
  unfoldable pub with_utilization : ReserveData → ReserveData
  with_utilization expected = record expected {
    utilization_rate =
        calc_expected_utilization_rate expected.total_stable_debt expected.total_variable_debt
          expected.total_liquidity;
  }

  abbrev pub set_rates : ReserveData → Rates → ReserveData
  set_rates expected rates = record expected {
    liquidity_rate = rates.liquidity_rate;
    stable_borrow_rate = rates.stable_borrow_rate;
    variable_borrow_rate = rates.variable_borrow_rate;
  }

module _ ⦃lib : BigNumberLib⦄ (params : Dict ReserveParams) where
  -- const rates = calcExpectedInterestRates(…), and the three assignments after it
  unfoldable pub with_rates : ReserveData → ReserveData → Option ReserveData
  with_rates before expected = do
    rates ←
        calc_expected_interest_rates params before.symbol before.market_stable_rate
          expected.utilization_rate expected.total_stable_debt expected.total_variable_debt
          expected.average_stable_borrow_rate
    some (set_rates expected rates)

module _ ⦃lib : BigNumberLib⦄ (params : Dict ReserveParams) (blank : ReserveData) where
  unfoldable pub calc_expected_reserve_data_after_deposit : ℤ → ReserveData → ℤ → Option ReserveData
  calc_expected_reserve_data_after_deposit amount_deposited before tx_timestamp =
      let variable_borrow_index = calc_expected_variable_borrow_index before tx_timestamp in
      with_rates params before (
        with_utilization (record blank {
          address = before.address;
          total_liquidity = before.total_liquidity +ℤ amount_deposited;
          available_liquidity = before.available_liquidity +ℤ amount_deposited;
          average_stable_borrow_rate = before.average_stable_borrow_rate;
          liquidity_index = calc_expected_liquidity_index before tx_timestamp;
          variable_borrow_index = variable_borrow_index;
          total_stable_debt = stable_debt_at before tx_timestamp;
          total_variable_debt = calc_expected_total_variable_debt before variable_borrow_index;
          scaled_variable_debt = before.scaled_variable_debt;
          principal_stable_debt = before.principal_stable_debt;
        }))

  unfoldable pub calc_expected_reserve_data_after_withdraw :
      ℤ → ReserveData → UserReserveData → ℤ → Option ReserveData
  calc_expected_reserve_data_after_withdraw amount before user tx_timestamp =
      let amount_withdrawn = withdrawn amount before user tx_timestamp in
      let variable_borrow_index = calc_expected_variable_borrow_index before tx_timestamp in
      let total_stable_debt = stable_debt_at before tx_timestamp in
      let total_variable_debt = ray_mul before.scaled_variable_debt variable_borrow_index in
      with_rates params before (
        with_utilization (record blank {
          address = before.address;
          available_liquidity = before.available_liquidity -ℤ amount_withdrawn;
          principal_stable_debt = before.principal_stable_debt;
          scaled_variable_debt = before.scaled_variable_debt;
          liquidity_index = calc_expected_liquidity_index before tx_timestamp;
          variable_borrow_index = variable_borrow_index;
          total_stable_debt = total_stable_debt;
          total_variable_debt = total_variable_debt;
          average_stable_borrow_rate = before.average_stable_borrow_rate;
          total_liquidity =
              before.available_liquidity -ℤ amount_withdrawn +ℤ total_variable_debt
              +ℤ total_stable_debt;
        }))

  -- What the two swaps set: the scaled and the total variable debt, the stable debt, its average rate.
  abbrev pub swapped : ReserveData → ℤ → (scaled stable average : ℤ) → Option ReserveData
  swapped before tx_timestamp scaled stable average =
      let variable_borrow_index = calc_expected_variable_borrow_index before tx_timestamp in
      let total_variable_debt = ray_mul scaled variable_borrow_index in
      with_rates params before (
        with_utilization (record blank {
          address = before.address;
          liquidity_index = calc_expected_liquidity_index before tx_timestamp;
          variable_borrow_index = variable_borrow_index;
          available_liquidity = before.available_liquidity;
          scaled_variable_debt = scaled;
          total_variable_debt = total_variable_debt;
          principal_stable_debt = stable;
          total_stable_debt = stable;
          average_stable_borrow_rate = average;
          total_liquidity = before.available_liquidity +ℤ stable +ℤ total_variable_debt;
        }))

  -- In stable mode the user's stable debt becomes variable, otherwise the variable debt stable.
  unfoldable pub calc_expected_reserve_data_after_swap_rate_mode :
      ReserveData → UserReserveData → RateMode → ℤ → Option ReserveData
  calc_expected_reserve_data_after_swap_rate_mode before user rate_mode tx_timestamp =
      let variable_debt = calc_expected_variable_debt_token_balance before user tx_timestamp in
      let stable_debt = user_stable_debt_at user tx_timestamp in
      let index = calc_expected_variable_borrow_index before tx_timestamp in
      let until_tx = stable_debt_at before tx_timestamp in
      if is_stable rate_mode
      then swapped before tx_timestamp (before.scaled_variable_debt +ℤ ray_div stable_debt index)
          (until_tx -ℤ stable_debt)
          (calc_expected_average_stable_borrow_rate before.average_stable_borrow_rate
            (until_tx -ℤ stable_debt +ℤ stable_debt) (negated stable_debt) user.stable_borrow_rate)
      else swapped before tx_timestamp (before.scaled_variable_debt -ℤ ray_div variable_debt index)
          (until_tx +ℤ variable_debt)
          (calc_expected_average_stable_borrow_rate before.average_stable_borrow_rate
            before.total_stable_debt variable_debt before.stable_borrow_rate)

  unfoldable pub calc_expected_reserve_data_after_stable_rate_rebalance :
      ReserveData → UserReserveData → ℤ → Option ReserveData
  calc_expected_reserve_data_after_stable_rate_rebalance before user tx_timestamp =
      let user_stable_debt = user_stable_debt_at user tx_timestamp in
      let total_stable_debt = stable_debt_at before tx_timestamp in
      let avg_rate_before =
        calc_expected_average_stable_borrow_rate_rebalance before.average_stable_borrow_rate
          total_stable_debt (negated user_stable_debt) user.stable_borrow_rate in
      swapped before tx_timestamp before.scaled_variable_debt total_stable_debt (
        calc_expected_average_stable_borrow_rate_rebalance avg_rate_before
          (total_stable_debt -ℤ user_stable_debt) user_stable_debt before.stable_borrow_rate)
