-- ===== src/Calculations/Extremes.antt =====
-- The edges of the expected data: withdrawals and repayments of everything, and debts that would be
-- negative.
use palmy_protocol.Prelude.{String, false, some, Dict, ◌≡◌, refl, subst, if◌then◌else◌, arith}
use palmy_protocol.Prelude.Int.{ℤ, pos, ◌-ℤ◌, ◌≤ℤ◌, ltb_ℤ, eq_ℤ, int_laws}
use palmy_protocol.Number.{BigNumberLib}
use palmy_protocol.Types.{ReserveParams, stable}
use palmy_protocol.Math.{max_uint_amount}
use palmy_protocol.Calculations.{ReserveData, UserReserveData}
use palmy_protocol.Calculations.Reserve.{negated, stable_debt_at, with_utilization}
use palmy_protocol.Calculations.Rates.{calc_expected_average_stable_borrow_rate}
use palmy_protocol.Calculations.Loans.{
  repaid, stable_after_repay, settled, calc_expected_reserve_data_after_repay,
}
use palmy_protocol.Calculations.User.{
  calc_expected_user_data_after_withdraw, calc_expected_user_data_after_repay,
}
use palmy_protocol.Calculations.Accounting.{with_rates-cases}

clamped :
    (a b : ℤ)
    → let p : ℤ × ℤ =
        if ltb_ℤ a (pos 0)
        then (pos 0, pos 0)
        else (if ltb_ℤ b (pos 0) then (pos 0, pos 0) else (a, b)) in
      (pos 0 ≤ℤ p.0) × (pos 0 ≤ℤ p.1)
clamped a b = ground arith

minus_self : (a : ℤ) → a -ℤ a ≡ pos 0
minus_self a = omega int_laws

module _ ⦃lib : BigNumberLib⦄ where
  stable_after_repay-nonneg :
      (amount : ℤ) (before : ReserveData) (user : UserReserveData) (tx : ℤ)
      → (pos 0 ≤ℤ (stable_after_repay amount before user tx).0)
        × (pos 0 ≤ℤ (stable_after_repay amount before user tx).1)
  unfolding stable_after_repay
  stable_after_repay-nonneg amount before user tx = clamped (stable_debt_at before tx -ℤ amount) (
      calc_expected_average_stable_borrow_rate before.average_stable_borrow_rate
        (stable_debt_at before tx) (negated amount) user.stable_borrow_rate)

module _ ⦃lib : BigNumberLib⦄ (params : Dict ReserveParams) (blank : ReserveData) where
  -- After a repayment of stable debt, if the reserve's symbol is configured, the stable debt of the
  -- reserve and its average rate are not negative, whatever was repaid, and the principal is the debt.
  pub repay-nonneg :
      (amount : ℤ) (before : ReserveData) (user : UserReserveData) (tx now : ℤ) {r : ReserveData}
      → calc_expected_reserve_data_after_repay params blank amount stable before user tx now
        ≡ some r
      → (pos 0 ≤ℤ r.total_stable_debt)
        × (pos 0 ≤ℤ r.average_stable_borrow_rate)
        × (r.principal_stable_debt ≡ r.total_stable_debt)
  unfolding calc_expected_reserve_data_after_repay settled with_utilization
  repay-nonneg amount before user tx now e =
      let (rates, found, made) = with_rates-cases params before _ e in
      let (debt, average) =
        stable_after_repay-nonneg (repaid amount stable before user tx) before user tx in
      subst
        (λ (r : ReserveData).
          (pos 0 ≤ℤ r.total_stable_debt)
          × (pos 0 ≤ℤ r.average_stable_borrow_rate)
          × (r.principal_stable_debt ≡ r.total_stable_debt))
        made (debt, average, refl)

module _ ⦃lib : BigNumberLib⦄ (blank : UserReserveData) where
  -- A user who had a balance and withdraws MAX_UINT_AMOUNT has no balance left, and no collateral.
  pub withdraw_all :
      (before after : ReserveData) (user : UserReserveData) (tx : ℤ)
      → eq_ℤ user.current_ltoken_balance (pos 0) ≡ false
      → let left =
          calc_expected_user_data_after_withdraw blank (pos max_uint_amount) before after user tx in
        (left.current_ltoken_balance ≡ pos 0) × (left.usage_as_collateral_enabled ≡ false)
  unfolding calc_expected_user_data_after_withdraw
  withdraw_all before after user tx h = rw (minus_self _, h) ((refl, refl))

  -- A user who repays MAX_UINT_AMOUNT in stable mode has no stable debt left, no stable rate and no
  -- time of its last update.
  pub repay_all :
      (before after : ReserveData) (user : UserReserveData) (payer on_behalf_of : String)
      (tx now : ℤ)
      → let left =
          calc_expected_user_data_after_repay blank
            (pos max_uint_amount)
            stable
            before
            after
            user
            payer
            on_behalf_of
            tx
            now in
        (left.current_stable_debt ≡ pos 0)
        × (left.principal_stable_debt ≡ pos 0)
        × (left.stable_borrow_rate ≡ pos 0)
        × (left.stable_rate_last_updated ≡ pos 0)
  unfolding calc_expected_user_data_after_repay
  repay_all before after user payer on_behalf_of tx now =
      rw (minus_self _) ((refl, refl, refl, refl))
