-- ===== src/Calculations/Conservation.antt =====
-- What an action moves between the reserve and the user's wallet is neither made nor lost.
use palmy_protocol.Prelude.{
  String, Bool-cases, some, Dict, if◌then◌else◌, ◌≡◌, refl, sym, ◌∙◌, ap, inl, inr, str_eq,
}
use palmy_protocol.Prelude.Fallible.{>>=-eq-some, eq_of_some-eq}
use palmy_protocol.Prelude.Int.{ℤ, pos, ◌+ℤ◌, ◌-ℤ◌, int_laws}
use palmy_protocol.Number.{BigNumberLib}
use palmy_protocol.Types.{ReserveParams, RateMode, stable, variable, no_mode}
use palmy_protocol.Calculations.{ReserveData, UserReserveData}
use palmy_protocol.Calculations.Reserve.{
  with_utilization, with_rates, withdrawn, calc_expected_reserve_data_after_deposit,
  calc_expected_reserve_data_after_withdraw, calc_expected_reserve_data_after_swap_rate_mode,
  calc_expected_reserve_data_after_stable_rate_rebalance,
}
use palmy_protocol.Calculations.Loans.{
  borrowed_stable, borrowed_variable, at_now, rates_after_tx, after_stable_borrow,
  after_variable_borrow, calc_expected_reserve_data_after_borrow, repaid, settled,
  calc_expected_reserve_data_after_repay,
}
use palmy_protocol.Calculations.User.{
  calc_expected_user_data_after_deposit, calc_expected_user_data_after_withdraw,
  calc_expected_user_data_after_borrow, calc_expected_user_data_after_repay,
  calc_expected_user_data_after_swap_rate_mode, calc_expected_user_data_after_stable_rate_rebalance,
}
use palmy_protocol.Calculations.Actions.{
  Action, deposit, withdraw, borrow, repay, swap_rate_mode, rebalance, IsPrompt, reserve_after,
  user_after,
}
use palmy_protocol.Calculations.Accounting.{with_rates-cases, rates_after_tx-cases}

-- An amount leaves the first and enters the second, or the other way round.
paid_out : (a b x : ℤ) {c : ℤ} → c ≡ a -ℤ x → c +ℤ (b +ℤ x) ≡ a +ℤ b
paid_out a b x e = rw e (omega int_laws)

paid_in : (a b x : ℤ) {c : ℤ} → c ≡ a +ℤ x → c +ℤ (b -ℤ x) ≡ a +ℤ b
paid_in a b x e = rw e (omega int_laws)

paid_by_other : (a b x : ℤ) {c : ℤ} → c ≡ a +ℤ x → c +ℤ b ≡ a +ℤ b +ℤ x
paid_by_other a b x e = rw e (omega int_laws)

pub nothing : (a : ℤ) → a +ℤ pos 0 ≡ a
nothing a = omega int_laws

module _ ⦃lib : BigNumberLib⦄ where
  -- What others than the user pay for him.
  abbrev pub from_others :
      Action → ReserveData → UserReserveData → (payer on_behalf_of : String) → (tx : ℤ) → ℤ
  from_others (deposit amount) before user payer on_behalf_of tx = pos 0
  from_others (withdraw amount) before user payer on_behalf_of tx = pos 0
  from_others (borrow amount mode) before user payer on_behalf_of tx = pos 0
  from_others (repay amount mode) before user payer on_behalf_of tx =
      if str_eq payer on_behalf_of then pos 0 else repaid amount mode before user tx
  from_others (swap_rate_mode mode) before user payer on_behalf_of tx = pos 0
  from_others rebalance before user payer on_behalf_of tx = pos 0

module _ ⦃lib : BigNumberLib⦄ (params : Dict ReserveParams) where
  with_rates-available :
      (before expected : ReserveData) {r : ReserveData}
      → with_rates params before expected ≡ some r
      → r.available_liquidity ≡ expected.available_liquidity
  with_rates-available before expected e =
      let (rates, found, made) = with_rates-cases params before expected e in
      ap (λ (x : ReserveData). x.available_liquidity) (sym made)

  rates_after_tx-available :
      (before made : ReserveData) (stable_debt variable_debt : ℤ) {r : ReserveData}
      → rates_after_tx params before made stable_debt variable_debt ≡ some r
      → r.available_liquidity ≡ made.available_liquidity
  rates_after_tx-available before made stable_debt variable_debt e =
      let (rates, found) = rates_after_tx-cases params before made stable_debt variable_debt e in
      ap (λ (x : ReserveData). x.available_liquidity) (sym found)

module _ ⦃lib : BigNumberLib⦄ (params : Dict ReserveParams) (blank : ReserveData) where
  stable_borrow-available :
      (amount : ℤ) (before : ReserveData) (tx now : ℤ) {r : ReserveData}
      → after_stable_borrow params blank amount before tx now ≡ some r
      → r.available_liquidity ≡ before.available_liquidity -ℤ amount
  unfolding after_stable_borrow borrowed_stable at_now with_utilization
  stable_borrow-available amount before tx now e =
      let made = borrowed_stable amount before tx blank in
      let (expected, found, done) = >>=-eq-some (rates_after_tx params before made _ _) _ e in
      ap (λ (x : ReserveData). x.available_liquidity) (sym (eq_of_some-eq done))
      ∙ rates_after_tx-available params before made _ _ found

  variable_borrow-available :
      (amount : ℤ) (before : ReserveData) (tx now : ℤ) {r : ReserveData}
      → after_variable_borrow params blank amount before tx now ≡ some r
      → r.available_liquidity ≡ before.available_liquidity -ℤ amount
  unfolding after_variable_borrow borrowed_variable at_now with_utilization
  variable_borrow-available amount before tx now e =
      let made = borrowed_variable amount before tx blank in
      let (expected, found, done) = >>=-eq-some (rates_after_tx params before made _ _) _ e in
      ap (λ (x : ReserveData). x.available_liquidity) (sym (eq_of_some-eq done))
      ∙ rates_after_tx-available params before made _ _ found

  borrow-available :
      (amount : ℤ) (mode : RateMode) (before : ReserveData) (user : UserReserveData) (tx now : ℤ)
      {r : ReserveData}
      → calc_expected_reserve_data_after_borrow params blank amount mode before user tx now ≡ some r
      → r.available_liquidity ≡ before.available_liquidity -ℤ amount
  unfolding calc_expected_reserve_data_after_borrow
  borrow-available amount stable before user tx now e =
      stable_borrow-available amount before tx now e
  borrow-available amount variable before user tx now e =
      variable_borrow-available amount before tx now e
  borrow-available amount no_mode before user tx now e =
      variable_borrow-available amount before tx now e

  repay-available :
      (amount : ℤ) (mode : RateMode) (before : ReserveData) (user : UserReserveData) (tx now : ℤ)
      {r : ReserveData}
      → calc_expected_reserve_data_after_repay params blank amount mode before user tx now ≡ some r
      → r.available_liquidity ≡ before.available_liquidity +ℤ repaid amount mode before user tx
  unfolding calc_expected_reserve_data_after_repay settled with_utilization
  repay-available amount stable before user tx now e = with_rates-available params before _ e
  repay-available amount variable before user tx now e = with_rates-available params before _ e
  repay-available amount no_mode before user tx now e = with_rates-available params before _ e

  -- At the time of the transaction, the two sides take the same amount as repaid.
  repaid-prompt :
      (amount : ℤ) (mode : RateMode) (before : ReserveData) (user : UserReserveData) (tx now : ℤ)
      → IsPrompt (repay amount mode) tx now
      → repaid amount mode before user now ≡ repaid amount mode before user tx
  repaid-prompt amount mode before user tx now (inl part) = rw part refl
  repaid-prompt amount mode before user tx now (inr same) = rw same refl

  -- After every action, if the reserve's symbol is configured and the action is prompt (the user does
  -- not repay all, or the time of the comparison is that of the transaction), what the reserve has
  -- available and what the expected user has in the wallet add up to what they were before, and to
  -- what another has repaid for the user, where the payer is not the user whose debt it is.
  pub wallet_conserved :
      (empty : UserReserveData) (action : Action) (before : ReserveData) (user : UserReserveData)
      (payer on_behalf_of : String) (tx now : ℤ) {r : ReserveData}
      → IsPrompt action tx now
      → reserve_after params blank action before user tx now ≡ some r
      → r.available_liquidity
          +ℤ (user_after empty action before r user payer on_behalf_of tx now).wallet_balance
        ≡ before.available_liquidity
          +ℤ user.wallet_balance
          +ℤ from_others action before user payer on_behalf_of tx
  unfolding calc_expected_reserve_data_after_deposit calc_expected_reserve_data_after_withdraw
      calc_expected_reserve_data_after_swap_rate_mode
      calc_expected_reserve_data_after_stable_rate_rebalance calc_expected_user_data_after_deposit
      calc_expected_user_data_after_withdraw calc_expected_user_data_after_borrow
      calc_expected_user_data_after_repay calc_expected_user_data_after_swap_rate_mode
      calc_expected_user_data_after_stable_rate_rebalance with_utilization
  wallet_conserved empty (deposit amount) before user payer on_behalf_of tx now p e =
      paid_in before.available_liquidity user.wallet_balance amount
        (with_rates-available params before _ e)
      ∙ sym (nothing _)
  wallet_conserved empty (withdraw amount) before user payer on_behalf_of tx now p e =
      paid_out before.available_liquidity user.wallet_balance (withdrawn amount before user tx)
        (with_rates-available params before _ e)
      ∙ sym (nothing _)
  wallet_conserved empty (borrow amount mode) before user payer on_behalf_of tx now p e =
      paid_out before.available_liquidity user.wallet_balance amount
        (borrow-available amount mode before user tx now e)
      ∙ sym (nothing _)
  wallet_conserved empty (repay amount mode) before user payer on_behalf_of tx now p e =
      elim (Bool-cases (str_eq payer on_behalf_of)) [
        | inl himself ↦
            rw (himself, repaid-prompt amount mode before user tx now p)
              (paid_in before.available_liquidity user.wallet_balance
                  (repaid amount mode before user tx)
                  (repay-available amount mode before user tx now e)
                ∙ sym (nothing _))
        | inr other ↦ rw other (
            paid_by_other before.available_liquidity user.wallet_balance
              (repaid amount mode before user tx)
              (repay-available amount mode before user tx now e))
      ]
  wallet_conserved empty (swap_rate_mode stable) before user payer on_behalf_of tx now p e =
      ap (λ a. a +ℤ user.wallet_balance) (with_rates-available params before _ e) ∙ sym (nothing _)
  wallet_conserved empty (swap_rate_mode variable) before user payer on_behalf_of tx now p e =
      ap (λ a. a +ℤ user.wallet_balance) (with_rates-available params before _ e) ∙ sym (nothing _)
  wallet_conserved empty (swap_rate_mode no_mode) before user payer on_behalf_of tx now p e =
      ap (λ a. a +ℤ user.wallet_balance) (with_rates-available params before _ e) ∙ sym (nothing _)
  wallet_conserved empty rebalance before user payer on_behalf_of tx now p e =
      ap (λ a. a +ℤ user.wallet_balance) (with_rates-available params before _ e) ∙ sym (nothing _)
