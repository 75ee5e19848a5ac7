-- ===== src/Calculations/Indices.antt =====
-- The indices of every expected reserve (calculations.ts) are the ones before, accrued up to the
-- transaction.
use palmy_protocol.Prelude.{◌≡◌, refl, subst, some, Dict}
use palmy_protocol.Prelude.Int.{ℤ, ◌≤ℤ◌}
use palmy_protocol.Number.{BigNumberLib, IsTruncating}
use palmy_protocol.Types.{ReserveParams, stable, variable, no_mode}
use palmy_protocol.Prelude.Fallible.{>>=-eq-some, eq_of_some-eq}
use palmy_protocol.Calculations.Reserve.{
  with_utilization, with_rates, calc_expected_reserve_data_after_deposit,
  calc_expected_reserve_data_after_withdraw, calc_expected_reserve_data_after_swap_rate_mode,
  calc_expected_reserve_data_after_stable_rate_rebalance,
}
use palmy_protocol.Calculations.Loans.{
  borrowed_stable, borrowed_variable, at_now, rates_after_tx, after_stable_borrow,
  after_variable_borrow, calc_expected_reserve_data_after_borrow, settled,
  calc_expected_reserve_data_after_repay,
}
use palmy_protocol.Calculations.Actions.{
  Action, deposit, withdraw, borrow, repay, swap_rate_mode, rebalance, reserve_after,
}
use palmy_protocol.Calculations.Accounting.{with_rates-cases, rates_after_tx-cases}
use palmy_protocol.Calculations.{ReserveData, UserReserveData}
use palmy_protocol.Calculations.Interest.{
  calc_expected_liquidity_index, calc_expected_variable_borrow_index,
}
use palmy_protocol.Calculations.Growth.{IsPast, index_grows}

module _ ⦃lib : BigNumberLib⦄ (params : Dict ReserveParams) (blank : ReserveData) where
  -- The indices of the expected reserve are the ones before, accrued up to the transaction.
  abbrev HasIndices : ReserveData → ℤ → ReserveData → Type 0
  HasIndices before tx r =
      (r.liquidity_index ≡ calc_expected_liquidity_index before tx)
      × (r.variable_borrow_index ≡ calc_expected_variable_borrow_index before tx)

  with_rates-HasIndices :
      (before expected : ReserveData) (tx : ℤ) {r : ReserveData}
      → with_rates params before expected ≡ some r
      → HasIndices before tx expected
      → HasIndices before tx r
  with_rates-HasIndices before expected tx e i =
      let (rates, found, made) = with_rates-cases params before expected e in
      subst (HasIndices before tx) made i

  stable_borrow-HasIndices :
      (amount : ℤ) (before : ReserveData) (tx now : ℤ) {r : ReserveData}
      → after_stable_borrow params blank amount before tx now ≡ some r
      → HasIndices before tx r
  unfolding after_stable_borrow borrowed_stable at_now with_utilization
  stable_borrow-HasIndices amount before tx now e =
      let made = borrowed_stable amount before tx blank in
      let (expected, found, done) = >>=-eq-some (rates_after_tx params before made _ _) _ e in
      let (rates, set) = rates_after_tx-cases params before made _ _ found in
      subst (HasIndices before tx) (eq_of_some-eq done)
        (subst (HasIndices before tx) set (refl, refl))

  variable_borrow-HasIndices :
      (amount : ℤ) (before : ReserveData) (tx now : ℤ) {r : ReserveData}
      → after_variable_borrow params blank amount before tx now ≡ some r
      → HasIndices before tx r
  unfolding after_variable_borrow borrowed_variable at_now with_utilization
  variable_borrow-HasIndices amount before tx now e =
      let made = borrowed_variable amount before tx blank in
      let (expected, found, done) = >>=-eq-some (rates_after_tx params before made _ _) _ e in
      let (rates, set) = rates_after_tx-cases params before made _ _ found in
      subst (HasIndices before tx) (eq_of_some-eq done)
        (subst (HasIndices before tx) set (refl, refl))

  reserve_after-HasIndices :
      (action : Action) (before : ReserveData) (user : UserReserveData) (tx now : ℤ)
      {r : ReserveData}
      → reserve_after params blank action before user tx now ≡ some r
      → HasIndices before tx r
  unfolding calc_expected_reserve_data_after_deposit calc_expected_reserve_data_after_withdraw
      calc_expected_reserve_data_after_swap_rate_mode
      calc_expected_reserve_data_after_stable_rate_rebalance calc_expected_reserve_data_after_borrow
      calc_expected_reserve_data_after_repay settled with_utilization
  reserve_after-HasIndices (deposit amount) before user tx now e =
      with_rates-HasIndices before _ tx e (refl, refl)
  reserve_after-HasIndices (withdraw amount) before user tx now e =
      with_rates-HasIndices before _ tx e (refl, refl)
  reserve_after-HasIndices (borrow amount stable) before user tx now e =
      stable_borrow-HasIndices amount before tx now e
  reserve_after-HasIndices (borrow amount variable) before user tx now e =
      variable_borrow-HasIndices amount before tx now e
  reserve_after-HasIndices (borrow amount no_mode) before user tx now e =
      variable_borrow-HasIndices amount before tx now e
  reserve_after-HasIndices (repay amount stable) before user tx now e =
      with_rates-HasIndices before _ tx e (refl, refl)
  reserve_after-HasIndices (repay amount variable) before user tx now e =
      with_rates-HasIndices before _ tx e (refl, refl)
  reserve_after-HasIndices (repay amount no_mode) before user tx now e =
      with_rates-HasIndices before _ tx e (refl, refl)
  reserve_after-HasIndices (swap_rate_mode stable) before user tx now e =
      with_rates-HasIndices before _ tx e (refl, refl)
  reserve_after-HasIndices (swap_rate_mode variable) before user tx now e =
      with_rates-HasIndices before _ tx e (refl, refl)
  reserve_after-HasIndices (swap_rate_mode no_mode) before user tx now e =
      with_rates-HasIndices before _ tx e (refl, refl)
  reserve_after-HasIndices rebalance before user tx now e =
      with_rates-HasIndices before _ tx e (refl, refl)

module _ ⦃lib : BigNumberLib⦄ (law : IsTruncating lib) (params : Dict ReserveParams)
    (blank : ReserveData) where
  -- With a division that truncates, and before a transaction that is not earlier than the last update,
  -- with rates, indices and time of update that are not negative: after every action, if the reserve's
  -- symbol is configured, neither index of the reserve is below the one before.
  pub index_monotone :
      (action : Action) (before : ReserveData) (user : UserReserveData) (tx now : ℤ)
      {r : ReserveData}
      → IsPast before tx
      → reserve_after params blank action before user tx now ≡ some r
      → (before.liquidity_index ≤ℤ r.liquidity_index)
        × (before.variable_borrow_index ≤ℤ r.variable_borrow_index)
  index_monotone action before user tx now p e =
      let (liquidity, borrowed) =
        reserve_after-HasIndices params blank action before user tx now e in
      rw (liquidity, borrowed) (index_grows law before tx p)
