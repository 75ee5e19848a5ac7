-- ===== src/Calculations/Accounting.antt =====
-- The books of an expected reserve: what is available and what is owed make up the total.
use palmy_protocol.Prelude.{false, some, Dict, ◌≡◌, refl, subst}
use palmy_protocol.Prelude.Fallible.{>>=-eq-some, eq_of_some-eq}
use palmy_protocol.Prelude.Int.{ℤ, ◌+ℤ◌, int_laws}
use palmy_protocol.Number.{BigNumberLib}
use palmy_protocol.Types.{ReserveParams, RateMode, stable, variable, no_mode}
use palmy_protocol.Calculations.{ReserveData, UserReserveData}
use palmy_protocol.Calculations.Rates.{
  Rates, calc_expected_utilization_rate, calc_expected_interest_rates,
}
use palmy_protocol.Calculations.Actions.{
  Action, deposit, withdraw, borrow, repay, swap_rate_mode, rebalance, is_deposit, reserve_after,
}
use palmy_protocol.Calculations.Reserve.{
  with_utilization, with_rates, set_rates, calc_expected_reserve_data_after_withdraw,
  calc_expected_reserve_data_after_swap_rate_mode,
  calc_expected_reserve_data_after_stable_rate_rebalance,
}
use palmy_protocol.Calculations.Loans.{
  borrowed_stable, borrowed_variable, at_now, rates_after_tx, after_stable_borrow,
  after_variable_borrow, calc_expected_reserve_data_after_borrow, settled,
  calc_expected_reserve_data_after_repay,
}

-- The total liquidity is what is available and what is owed.
abbrev pub IsBalanced : ReserveData → Type 0
IsBalanced r =
    r.total_liquidity ≡ r.available_liquidity +ℤ r.total_stable_debt +ℤ r.total_variable_debt

module _ ⦃lib : BigNumberLib⦄ where
  -- Besides, the utilization rate is the one of these debts and this total.
  pub record IsAccounted (r : ReserveData) : Type 0 where
    pub balanced : IsBalanced r
    pub utilized :
        r.utilization_rate
        ≡ calc_expected_utilization_rate r.total_stable_debt r.total_variable_debt r.total_liquidity

  with_utilization-IsAccounted : (r : ReserveData) → IsBalanced r → IsAccounted (with_utilization r)
  unfolding with_utilization
  with_utilization-IsAccounted r b = record { balanced = b; utilized = refl }

  at_now-IsAccounted :
      (expected : ReserveData) (stable_debt variable_debt total : ℤ)
      → total ≡ expected.available_liquidity +ℤ stable_debt +ℤ variable_debt
      → IsAccounted (at_now expected stable_debt variable_debt total)
  unfolding at_now
  at_now-IsAccounted expected stable_debt variable_debt total b = with_utilization-IsAccounted _ b

module _ ⦃lib : BigNumberLib⦄ (params : Dict ReserveParams) where
  -- The rates that were found, and the reserve that has them.
  pub with_rates-cases :
      (before expected : ReserveData) {r : ReserveData}
      → with_rates params before expected ≡ some r
      → (rates : Rates) × (calc_expected_interest_rates params before.symbol
            before.market_stable_rate expected.utilization_rate expected.total_stable_debt
            expected.total_variable_debt expected.average_stable_borrow_rate
          ≡ some rates)
        × (set_rates expected rates ≡ r)
  unfolding with_rates
  with_rates-cases before expected e =
      let (rates, found, made) =
        >>=-eq-some
          (calc_expected_interest_rates params before.symbol before.market_stable_rate
            expected.utilization_rate expected.total_stable_debt expected.total_variable_debt
            expected.average_stable_borrow_rate)
          (λ rates. some (set_rates expected rates)) e in
      (rates, found, eq_of_some-eq made)

  with_rates-IsAccounted :
      (before expected : ReserveData) {r : ReserveData}
      → with_rates params before expected ≡ some r
      → IsAccounted expected
      → IsAccounted r
  with_rates-IsAccounted before expected e a =
      let (rates, found, made) = with_rates-cases before expected e in
      subst IsAccounted made (record { balanced = a.balanced; utilized = a.utilized })

  pub rates_after_tx-cases :
      (before made : ReserveData) (stable_debt variable_debt : ℤ) {r : ReserveData}
      → rates_after_tx params before made stable_debt variable_debt ≡ some r
      → (rates : Rates) × (set_rates made rates ≡ r)
  rates_after_tx-cases before made stable_debt variable_debt e =
      let (rates, found, same) =
        >>=-eq-some
          (calc_expected_interest_rates params before.symbol before.market_stable_rate
            (calc_expected_utilization_rate stable_debt variable_debt
              (made.available_liquidity +ℤ stable_debt +ℤ variable_debt))
            stable_debt variable_debt made.average_stable_borrow_rate)
          (λ rates. some (set_rates made rates)) e in
      (rates, eq_of_some-eq same)

module _ ⦃lib : BigNumberLib⦄ (params : Dict ReserveParams) (blank : ReserveData) where
  withdraw-IsAccounted :
      (amount : ℤ) (before : ReserveData) (user : UserReserveData) (tx : ℤ) {r : ReserveData}
      → calc_expected_reserve_data_after_withdraw params blank amount before user tx ≡ some r
      → IsAccounted r
  unfolding calc_expected_reserve_data_after_withdraw
  withdraw-IsAccounted amount before user tx e =
      with_rates-IsAccounted params before _ e (with_utilization-IsAccounted _ (omega int_laws))

  swap-IsAccounted :
      (before : ReserveData) (user : UserReserveData) (mode : RateMode) (tx : ℤ) {r : ReserveData}
      → calc_expected_reserve_data_after_swap_rate_mode params blank before user mode tx ≡ some r
      → IsAccounted r
  unfolding calc_expected_reserve_data_after_swap_rate_mode
  swap-IsAccounted before user stable tx e =
      with_rates-IsAccounted params before _ e (with_utilization-IsAccounted _ refl)
  swap-IsAccounted before user variable tx e =
      with_rates-IsAccounted params before _ e (with_utilization-IsAccounted _ refl)
  swap-IsAccounted before user no_mode tx e =
      with_rates-IsAccounted params before _ e (with_utilization-IsAccounted _ refl)

  rebalance-IsAccounted :
      (before : ReserveData) (user : UserReserveData) (tx : ℤ) {r : ReserveData}
      → calc_expected_reserve_data_after_stable_rate_rebalance params blank before user tx ≡ some r
      → IsAccounted r
  unfolding calc_expected_reserve_data_after_stable_rate_rebalance
  rebalance-IsAccounted before user tx e =
      with_rates-IsAccounted params before _ e (with_utilization-IsAccounted _ refl)

  stable_borrow-IsAccounted :
      (amount : ℤ) (before : ReserveData) (tx now : ℤ) {r : ReserveData}
      → after_stable_borrow params blank amount before tx now ≡ some r
      → IsAccounted r
  unfolding after_stable_borrow
  stable_borrow-IsAccounted amount before tx now e =
      let (expected, found, made) =
        >>=-eq-some (rates_after_tx params before (borrowed_stable amount before tx blank) _ _) _
          e in
      subst IsAccounted (eq_of_some-eq made) (at_now-IsAccounted expected _ _ _ (omega int_laws))

  variable_borrow-IsAccounted :
      (amount : ℤ) (before : ReserveData) (tx now : ℤ) {r : ReserveData}
      → after_variable_borrow params blank amount before tx now ≡ some r
      → IsAccounted r
  unfolding after_variable_borrow
  variable_borrow-IsAccounted amount before tx now e =
      let (expected, found, made) =
        >>=-eq-some (rates_after_tx params before (borrowed_variable amount before tx blank) _ _) _
          e in
      subst IsAccounted (eq_of_some-eq made) (at_now-IsAccounted expected _ _ _ refl)

  settled-IsAccounted :
      (amount : ℤ) (before : ReserveData) (tx principal stable_debt average scaled owed : ℤ)
      {r : ReserveData}
      → settled params blank amount before tx principal stable_debt average scaled owed ≡ some r
      → IsAccounted r
  unfolding settled
  settled-IsAccounted amount before tx principal stable_debt average scaled owed e =
      with_rates-IsAccounted params before _ e (with_utilization-IsAccounted _ refl)

  -- After every action but a deposit, if the reserve's symbol is configured, so that a reserve is
  -- expected at all, its total liquidity is what is available and what is owed, and its utilization
  -- rate is the one of these debts and this total.
  pub reserve_after-IsAccounted :
      (action : Action) (before : ReserveData) (user : UserReserveData) (tx now : ℤ)
      {r : ReserveData}
      → is_deposit action ≡ false
      → reserve_after params blank action before user tx now ≡ some r
      → IsAccounted r
  unfolding calc_expected_reserve_data_after_borrow calc_expected_reserve_data_after_repay
  reserve_after-IsAccounted (deposit amount) before user tx now d e = cc
  reserve_after-IsAccounted (withdraw amount) before user tx now d e =
      withdraw-IsAccounted amount before user tx e
  reserve_after-IsAccounted (borrow amount stable) before user tx now d e =
      stable_borrow-IsAccounted amount before tx now e
  reserve_after-IsAccounted (borrow amount variable) before user tx now d e =
      variable_borrow-IsAccounted amount before tx now e
  reserve_after-IsAccounted (borrow amount no_mode) before user tx now d e =
      variable_borrow-IsAccounted amount before tx now e
  reserve_after-IsAccounted (repay amount stable) before user tx now d e =
      settled-IsAccounted _ before tx _ _ _ _ _ e
  reserve_after-IsAccounted (repay amount variable) before user tx now d e =
      settled-IsAccounted _ before tx _ _ _ _ _ e
  reserve_after-IsAccounted (repay amount no_mode) before user tx now d e =
      settled-IsAccounted _ before tx _ _ _ _ _ e
  reserve_after-IsAccounted (swap_rate_mode mode) before user tx now d e =
      swap-IsAccounted before user mode tx e
  reserve_after-IsAccounted rebalance before user tx now d e =
      rebalance-IsAccounted before user tx e
