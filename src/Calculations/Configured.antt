-- ===== src/Calculations/Configured.antt =====
-- At which rates a reserve is expected.
use palmy_protocol.Prelude.{false, some, Dict, ◌≡◌, subst}
use palmy_protocol.Prelude.Int.{ℤ}
use palmy_protocol.Number.{BigNumberLib}
use palmy_protocol.Types.{ReserveParams, stable, variable, no_mode}
use palmy_protocol.Calculations.{ReserveData, UserReserveData}
use palmy_protocol.Calculations.Rates.{calc_expected_interest_rates}
use palmy_protocol.Calculations.Reserve.{
  with_rates, calc_expected_reserve_data_after_deposit, calc_expected_reserve_data_after_withdraw,
  calc_expected_reserve_data_after_swap_rate_mode,
  calc_expected_reserve_data_after_stable_rate_rebalance,
}
use palmy_protocol.Calculations.Loans.{settled, calc_expected_reserve_data_after_repay}
use palmy_protocol.Calculations.Actions.{
  Action, deposit, withdraw, borrow, repay, swap_rate_mode, rebalance, is_borrow, reserve_after,
}
use palmy_protocol.Calculations.Accounting.{with_rates-cases}

module _ ⦃lib : BigNumberLib⦄ (params : Dict ReserveParams) (blank : ReserveData) where
  -- The rates of the configuration at the reserve's own utilization, debts and average.
  abbrev pub HasRates : ReserveData → ReserveData → Type 0
  HasRates before r =
      calc_expected_interest_rates params before.symbol before.market_stable_rate r.utilization_rate
        r.total_stable_debt r.total_variable_debt r.average_stable_borrow_rate
      ≡ some (record {
        liquidity_rate = r.liquidity_rate;
        stable_borrow_rate = r.stable_borrow_rate;
        variable_borrow_rate = r.variable_borrow_rate;
      })

  with_rates-HasRates :
      (before expected : ReserveData) {r : ReserveData}
      → with_rates params before expected ≡ some r
      → HasRates before r
  with_rates-HasRates before expected e =
      let (rates, found, made) = with_rates-cases params before expected e in
      subst (HasRates before) made found

  -- After every action but a borrow, the three rates of the expected reserve are the rates that the
  -- configuration of its symbol gives at the expected utilization, debts and average stable rate.
  pub reserve_after-HasRates :
      (action : Action) (before : ReserveData) (user : UserReserveData) (tx now : ℤ)
      {r : ReserveData}
      → is_borrow action ≡ false
      → reserve_after params blank action before user tx now ≡ some r
      → HasRates before r
  unfolding calc_expected_reserve_data_after_deposit calc_expected_reserve_data_after_withdraw
      calc_expected_reserve_data_after_swap_rate_mode
      calc_expected_reserve_data_after_stable_rate_rebalance calc_expected_reserve_data_after_repay
      settled
  reserve_after-HasRates (deposit amount) before user tx now b e = with_rates-HasRates before _ e
  reserve_after-HasRates (withdraw amount) before user tx now b e = with_rates-HasRates before _ e
  reserve_after-HasRates (borrow amount mode) before user tx now b e = cc
  reserve_after-HasRates (repay amount stable) before user tx now b e =
      with_rates-HasRates before _ e
  reserve_after-HasRates (repay amount variable) before user tx now b e =
      with_rates-HasRates before _ e
  reserve_after-HasRates (repay amount no_mode) before user tx now b e =
      with_rates-HasRates before _ e
  reserve_after-HasRates (swap_rate_mode stable) before user tx now b e =
      with_rates-HasRates before _ e
  reserve_after-HasRates (swap_rate_mode variable) before user tx now b e =
      with_rates-HasRates before _ e
  reserve_after-HasRates (swap_rate_mode no_mode) before user tx now b e =
      with_rates-HasRates before _ e
  reserve_after-HasRates rebalance before user tx now b e = with_rates-HasRates before _ e
