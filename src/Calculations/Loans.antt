-- ===== src/Calculations/Loans.antt =====
-- The expected reserve after a borrow and after a repayment (calculations.ts), with the arguments of
-- Calculations.Reserve.
use palmy_protocol.Prelude.{Option, some, if◌then◌else◌, Dict, ◌==◌}
use palmy_protocol.Prelude.Fallible.{◌>>=◌}
use palmy_protocol.Prelude.Int.{ℤ, pos, ◌+ℤ◌, ◌-ℤ◌, ltb_ℤ}
use palmy_protocol.Number.{BigNumberLib, magnitude}
use palmy_protocol.Types.{ReserveParams, RateMode, is_stable}
use palmy_protocol.Math.{ray_mul, ray_div, max_uint_amount}
use palmy_protocol.Calculations.{ReserveData, UserReserveData}
use palmy_protocol.Calculations.Interest.{
  calc_expected_stable_debt_token_balance, calc_expected_variable_debt_token_balance,
  calc_expected_reserve_normalized_debt, calc_expected_liquidity_index,
  calc_expected_variable_borrow_index, calc_expected_total_stable_debt,
}
use palmy_protocol.Calculations.Rates.{
  calc_expected_utilization_rate, calc_expected_interest_rates,
  calc_expected_average_stable_borrow_rate,
}
use palmy_protocol.Calculations.Reserve.{
  negated, stable_debt_at, user_stable_debt_at, with_utilization, set_rates, with_rates,
}

module _ ⦃lib : BigNumberLib⦄ where
  -- The debts, the stable debt's average rate and the indices right after a borrow.
  unfoldable pub borrowed_stable : ℤ → ReserveData → ℤ → ReserveData → ReserveData
  borrowed_stable amount before tx_timestamp blank =
      let until_tx = stable_debt_at before tx_timestamp in
      record blank {
        address = before.address;
        liquidity_index = calc_expected_liquidity_index before tx_timestamp;
        variable_borrow_index = calc_expected_variable_borrow_index before tx_timestamp;
        available_liquidity = before.available_liquidity -ℤ amount;
        last_update_timestamp = tx_timestamp;
        scaled_variable_debt = before.scaled_variable_debt;
        principal_stable_debt = until_tx +ℤ amount;
        average_stable_borrow_rate =
            calc_expected_average_stable_borrow_rate before.average_stable_borrow_rate until_tx
              amount before.stable_borrow_rate;
      }

  unfoldable pub borrowed_variable : ℤ → ReserveData → ℤ → ReserveData → ReserveData
  borrowed_variable amount before tx_timestamp blank =
      let index = calc_expected_variable_borrow_index before tx_timestamp in
      record blank {
        address = before.address;
        liquidity_index = calc_expected_liquidity_index before tx_timestamp;
        variable_borrow_index = index;
        available_liquidity = before.available_liquidity -ℤ amount;
        last_update_timestamp = tx_timestamp;
        principal_stable_debt = before.principal_stable_debt;
        average_stable_borrow_rate = before.average_stable_borrow_rate;
        scaled_variable_debt = before.scaled_variable_debt +ℤ ray_div amount index;
      }

  -- The debts and the total at the current time, and the utilization from them.
  unfoldable pub at_now : ReserveData → (stable variable total : ℤ) → ReserveData
  at_now expected stable variable total = with_utilization (record expected {
    total_stable_debt = stable;
    total_variable_debt = variable;
    total_liquidity = total;
  })

  -- The variable debt at the current time, of a scaled debt and the rate right after the borrow.
  abbrev pub variable_debt_now : ReserveData → ℤ → ℤ → ℤ → ℤ
  variable_debt_now expected scaled tx_timestamp current_timestamp = ray_mul scaled (
      calc_expected_reserve_normalized_debt expected.variable_borrow_rate
        expected.variable_borrow_index tx_timestamp current_timestamp)

module _ ⦃lib : BigNumberLib⦄ (params : Dict ReserveParams) where
  -- The rates right after a borrow, from the debts at that time.
  abbrev pub rates_after_tx : ReserveData → ReserveData → (stable variable : ℤ) → Option ReserveData
  rates_after_tx before expected stable variable = do
    rates ←
        calc_expected_interest_rates params before.symbol before.market_stable_rate
          (calc_expected_utilization_rate stable variable
            (expected.available_liquidity +ℤ stable +ℤ variable))
          stable variable expected.average_stable_borrow_rate
    some (set_rates expected rates)

module _ ⦃lib : BigNumberLib⦄ (params : Dict ReserveParams) (blank : ReserveData) where
  -- the branch of a stable borrow
  unfoldable pub after_stable_borrow : ℤ → ReserveData → ℤ → ℤ → Option ReserveData
  unfolding borrowed_stable
  after_stable_borrow amount before tx_timestamp current_timestamp = do
    let made = borrowed_stable amount before tx_timestamp blank
    expected ←
        rates_after_tx params before made made.principal_stable_debt
          (ray_mul made.scaled_variable_debt made.variable_borrow_index)
    let stable =
        calc_expected_total_stable_debt expected.principal_stable_debt
          expected.average_stable_borrow_rate tx_timestamp current_timestamp
    let variable =
        variable_debt_now expected before.scaled_variable_debt tx_timestamp current_timestamp
    some (at_now expected stable variable (expected.available_liquidity +ℤ variable +ℤ stable))

  -- the branch of a variable borrow
  unfoldable pub after_variable_borrow : ℤ → ReserveData → ℤ → ℤ → Option ReserveData
  unfolding borrowed_variable
  after_variable_borrow amount before tx_timestamp current_timestamp = do
    let made = borrowed_variable amount before tx_timestamp blank
    expected ←
        rates_after_tx params before made
          (calc_expected_stable_debt_token_balance before.principal_stable_debt
            before.average_stable_borrow_rate before.total_stable_debt_last_updated tx_timestamp)
          (ray_mul made.scaled_variable_debt made.variable_borrow_index)
    let stable = stable_debt_at before current_timestamp
    let variable =
        variable_debt_now expected expected.scaled_variable_debt tx_timestamp current_timestamp
    some (at_now expected stable variable (expected.available_liquidity +ℤ stable +ℤ variable))

  unfoldable pub calc_expected_reserve_data_after_borrow :
      ℤ → RateMode → ReserveData → UserReserveData → ℤ → ℤ → Option ReserveData
  unfolding after_stable_borrow after_variable_borrow
  calc_expected_reserve_data_after_borrow amount borrow_rate_mode before user tx_timestamp
        current_timestamp =
      if is_stable borrow_rate_mode
      then after_stable_borrow amount before tx_timestamp current_timestamp
      else after_variable_borrow amount before tx_timestamp current_timestamp

module _ ⦃lib : BigNumberLib⦄ where
  -- An amount of MAX_UINT_AMOUNT, of either sign, stands for all that the user owes in the mode.
  abbrev pub repaid : ℤ → RateMode → ReserveData → UserReserveData → ℤ → ℤ
  repaid amount mode before user timestamp =
      if magnitude amount == max_uint_amount
      then (if is_stable mode
          then user_stable_debt_at user timestamp
          else calc_expected_variable_debt_token_balance before user timestamp)
      else amount

  -- The stable debt and its average rate after a repayment: both are 0 where one would be negative.
  unfoldable pub stable_after_repay : ℤ → ReserveData → UserReserveData → ℤ → ℤ × ℤ
  stable_after_repay amount before user tx_timestamp =
      let debt = stable_debt_at before tx_timestamp in
      let average =
        calc_expected_average_stable_borrow_rate before.average_stable_borrow_rate debt
          (negated amount) user.stable_borrow_rate in
      if ltb_ℤ (debt -ℤ amount) (pos 0)
      then (pos 0, pos 0)
      else (if ltb_ℤ average (pos 0) then (pos 0, pos 0) else (debt -ℤ amount, average))

module _ ⦃lib : BigNumberLib⦄ (params : Dict ReserveParams) (blank : ReserveData) where
  -- What follows the branches: the liquidity, the utilization and the rates.
  unfoldable pub settled :
      ℤ → ReserveData → ℤ → (principal stable average scaled variable : ℤ) → Option ReserveData
  settled amount before tx_timestamp principal stable average scaled variable =
      with_rates params before (
        with_utilization (record blank {
          address = before.address;
          liquidity_index = calc_expected_liquidity_index before tx_timestamp;
          variable_borrow_index = calc_expected_variable_borrow_index before tx_timestamp;
          principal_stable_debt = principal;
          total_stable_debt = stable;
          average_stable_borrow_rate = average;
          scaled_variable_debt = scaled;
          total_variable_debt = variable;
          available_liquidity = before.available_liquidity +ℤ amount;
          total_liquidity = before.available_liquidity +ℤ amount +ℤ stable +ℤ variable;
          last_update_timestamp = tx_timestamp;
        }))

  unfoldable pub calc_expected_reserve_data_after_repay :
      ℤ → RateMode → ReserveData → UserReserveData → ℤ → ℤ → Option ReserveData
  unfolding stable_after_repay settled
  calc_expected_reserve_data_after_repay amount mode before user tx_timestamp current_timestamp =
      let amount_repaid = repaid amount mode before user tx_timestamp in
      let index = calc_expected_variable_borrow_index before tx_timestamp in
      let (stable, average) = stable_after_repay amount_repaid before user tx_timestamp in
      let scaled = before.scaled_variable_debt -ℤ ray_div amount_repaid index in
      if is_stable mode
      then settled amount_repaid before tx_timestamp stable stable average
          before.scaled_variable_debt (ray_mul before.scaled_variable_debt index)
      else settled amount_repaid before tx_timestamp before.principal_stable_debt
          before.total_stable_debt before.average_stable_borrow_rate scaled (ray_mul scaled index)
