-- ===== src/Calculations/User.antt =====
-- The expected data of a user after an action (calculations.ts). `blank` stands for the empty object
-- that the source starts from: a field that is not assigned has its value there. Arguments that the
-- source does not read (the transaction's cost, an unused time) are left out.
use palmy_protocol.Prelude.{String, Bool, true, false, if◌then◌else◌, str_eq}
use palmy_protocol.Prelude.Int.{ℤ, pos, ◌+ℤ◌, ◌-ℤ◌, eq_ℤ}
use palmy_protocol.Number.{BigNumberLib}
use palmy_protocol.Types.{RateMode, is_stable}
use palmy_protocol.Math.{ray_mul, ray_div}
use palmy_protocol.Calculations.{ReserveData, UserReserveData}
use palmy_protocol.Calculations.Interest.{
  calc_expected_stable_debt_token_balance, calc_expected_variable_debt_token_balance,
  calc_expected_ltoken_balance, calc_expected_scaled_ltoken_balance,
}
use palmy_protocol.Calculations.Rates.{calc_expected_user_stable_rate}
use palmy_protocol.Calculations.Reserve.{user_stable_debt_at, withdrawn}
use palmy_protocol.Calculations.Loans.{repaid}

module _ ⦃lib : BigNumberLib⦄ (blank : UserReserveData) where
  -- The stable debt that is assigned first is overwritten: `principalStableDebt` is the variable debt.
  unfoldable pub calc_expected_user_data_after_deposit :
      ℤ → (before after : ReserveData) → UserReserveData → ℤ → UserReserveData
  calc_expected_user_data_after_deposit amount_deposited before after user tx_timestamp =
      let variable_debt = calc_expected_variable_debt_token_balance before user tx_timestamp in
      record blank {
        current_stable_debt = user_stable_debt_at user tx_timestamp;
        current_variable_debt = variable_debt;
        principal_stable_debt = variable_debt;
        scaled_variable_debt = user.scaled_variable_debt;
        variable_borrow_index = user.variable_borrow_index;
        stable_borrow_rate = user.stable_borrow_rate;
        stable_rate_last_updated = user.stable_rate_last_updated;
        liquidity_rate = after.liquidity_rate;
        scaled_ltoken_balance =
            calc_expected_scaled_ltoken_balance user after.liquidity_index amount_deposited (pos 0);
        current_ltoken_balance =
            calc_expected_ltoken_balance before user tx_timestamp +ℤ amount_deposited;
        usage_as_collateral_enabled =
            if eq_ℤ user.current_ltoken_balance (pos 0)
            then true
            else user.usage_as_collateral_enabled;
        wallet_balance = user.wallet_balance -ℤ amount_deposited;
      }

  -- The collateral flag after a withdrawal, from the balances before and after it.
  abbrev pub collateral_after : ℤ → ℤ → Bool → Bool
  collateral_after balance_before balance_after enabled =
      if eq_ℤ balance_before (pos 0)
      then true
      else (if eq_ℤ balance_after (pos 0) then false else enabled)

  unfoldable pub calc_expected_user_data_after_withdraw :
      ℤ → (before after : ReserveData) → UserReserveData → ℤ → UserReserveData
  calc_expected_user_data_after_withdraw amount before after user tx_timestamp =
      let ltoken_balance = calc_expected_ltoken_balance before user tx_timestamp in
      let amount_withdrawn = withdrawn amount before user tx_timestamp in
      record blank {
        scaled_ltoken_balance =
            calc_expected_scaled_ltoken_balance user after.liquidity_index (pos 0) amount_withdrawn;
        current_ltoken_balance = ltoken_balance -ℤ amount_withdrawn;
        principal_stable_debt = user.principal_stable_debt;
        scaled_variable_debt = user.scaled_variable_debt;
        current_stable_debt = user_stable_debt_at user tx_timestamp;
        current_variable_debt = calc_expected_variable_debt_token_balance before user tx_timestamp;
        variable_borrow_index = user.variable_borrow_index;
        stable_borrow_rate = user.stable_borrow_rate;
        stable_rate_last_updated = user.stable_rate_last_updated;
        liquidity_rate = after.liquidity_rate;
        usage_as_collateral_enabled =
            collateral_after user.current_ltoken_balance (ltoken_balance -ℤ amount_withdrawn)
              user.usage_as_collateral_enabled;
        wallet_balance = user.wallet_balance +ℤ amount_withdrawn;
      }

  -- The part of a borrow that depends on the mode. The scaled variable debt starts from the reserve's.
  abbrev pub borrowed_by_user :
      ℤ → RateMode → (before after : ReserveData) → UserReserveData → ℤ → ℤ → UserReserveData
  borrowed_by_user amount mode before after user tx_timestamp current_timestamp =
      let until_tx = user_stable_debt_at user tx_timestamp in
      let rate =
        calc_expected_user_stable_rate until_tx user.stable_borrow_rate amount
          before.stable_borrow_rate in
      if is_stable mode
      then record blank {
        principal_stable_debt = until_tx +ℤ amount;
        stable_rate_last_updated = tx_timestamp;
        stable_borrow_rate = rate;
        current_stable_debt =
            calc_expected_stable_debt_token_balance (until_tx +ℤ amount) rate tx_timestamp
              current_timestamp;
        scaled_variable_debt = user.scaled_variable_debt;
      }
      else record blank {
        scaled_variable_debt =
            before.scaled_variable_debt +ℤ ray_div amount after.variable_borrow_index;
        principal_stable_debt = user.principal_stable_debt;
        stable_borrow_rate = user.stable_borrow_rate;
        stable_rate_last_updated = user.stable_rate_last_updated;
        current_stable_debt = user_stable_debt_at user current_timestamp;
      }

  unfoldable pub calc_expected_user_data_after_borrow :
      ℤ → RateMode → (before after : ReserveData) → UserReserveData → ℤ → ℤ → UserReserveData
  calc_expected_user_data_after_borrow amount mode before after user tx_timestamp
        current_timestamp =
      let expected =
        borrowed_by_user amount mode before after user tx_timestamp current_timestamp in
      record expected {
        current_variable_debt =
            calc_expected_variable_debt_token_balance after expected current_timestamp;
        liquidity_rate = after.liquidity_rate;
        usage_as_collateral_enabled = user.usage_as_collateral_enabled;
        current_ltoken_balance = calc_expected_ltoken_balance after user current_timestamp;
        scaled_ltoken_balance = user.scaled_ltoken_balance;
        wallet_balance = user.wallet_balance +ℤ amount;
      }

  -- The part of a repayment that depends on the mode. In variable mode the two stable debts are
  -- assigned crosswise.
  abbrev pub repaid_by_user :
      ℤ → RateMode → (before after : ReserveData) → UserReserveData → ℤ → ℤ → UserReserveData
  repaid_by_user amount mode before after user tx_timestamp current_timestamp =
      let variable_debt = calc_expected_variable_debt_token_balance before user current_timestamp in
      let stable_debt = user_stable_debt_at user current_timestamp in
      let scaled = user.scaled_variable_debt -ℤ ray_div amount after.variable_borrow_index in
      let all = eq_ℤ (stable_debt -ℤ amount) (pos 0) in
      if is_stable mode
      then record blank {
        scaled_variable_debt = user.scaled_variable_debt;
        current_variable_debt = variable_debt;
        principal_stable_debt = stable_debt -ℤ amount;
        current_stable_debt = stable_debt -ℤ amount;
        stable_borrow_rate = if all then pos 0 else user.stable_borrow_rate;
        stable_rate_last_updated = if all then pos 0 else tx_timestamp;
      }
      else record blank {
        current_stable_debt = user.principal_stable_debt;
        principal_stable_debt = stable_debt;
        stable_borrow_rate = user.stable_borrow_rate;
        stable_rate_last_updated = user.stable_rate_last_updated;
        scaled_variable_debt = scaled;
        current_variable_debt = ray_mul scaled after.variable_borrow_index;
      }

  unfoldable pub calc_expected_user_data_after_repay :
      ℤ
      → RateMode
      → (before after : ReserveData) → UserReserveData
      → (payer on_behalf_of : String) → ℤ
      → ℤ
      → UserReserveData
  calc_expected_user_data_after_repay amount mode before after user payer on_behalf_of tx_timestamp
        current_timestamp =
      let total_repaid = repaid amount mode before user current_timestamp in
      record (repaid_by_user total_repaid mode before after user tx_timestamp current_timestamp) {
        liquidity_rate = after.liquidity_rate;
        usage_as_collateral_enabled = user.usage_as_collateral_enabled;
        current_ltoken_balance = calc_expected_ltoken_balance before user tx_timestamp;
        scaled_ltoken_balance = user.scaled_ltoken_balance;
        wallet_balance =
            if str_eq payer on_behalf_of
            then user.wallet_balance -ℤ total_repaid
            else user.wallet_balance;
      }

module _ ⦃lib : BigNumberLib⦄ where
  unfoldable pub calc_expected_user_data_after_set_use_as_collateral :
      Bool → UserReserveData → UserReserveData
  calc_expected_user_data_after_set_use_as_collateral use_as_collateral user = record user {
    usage_as_collateral_enabled = use_as_collateral;
  }

  -- In stable mode the stable debt becomes variable, otherwise the variable debt stable. The new stable
  -- debt starts from the debt that the user had before the interest of this action.
  unfoldable pub calc_expected_user_data_after_swap_rate_mode :
      (before after : ReserveData) → UserReserveData → RateMode → ℤ → UserReserveData
  calc_expected_user_data_after_swap_rate_mode before after user rate_mode tx_timestamp =
      let stable_debt = user_stable_debt_at user tx_timestamp in
      let variable_debt = calc_expected_variable_debt_token_balance before user tx_timestamp in
      let scaled = user.scaled_variable_debt +ℤ ray_div stable_debt after.variable_borrow_index in
      let expected : UserReserveData = record user {
        current_ltoken_balance = calc_expected_ltoken_balance before user tx_timestamp;
        liquidity_rate = after.liquidity_rate;
      } in
      if is_stable rate_mode
      then record expected {
        current_stable_debt = pos 0;
        principal_stable_debt = pos 0;
        stable_borrow_rate = pos 0;
        scaled_variable_debt = scaled;
        current_variable_debt = ray_mul scaled after.variable_borrow_index;
        stable_rate_last_updated = pos 0;
      }
      else record expected {
        principal_stable_debt = user.current_stable_debt +ℤ variable_debt;
        current_stable_debt = user.current_stable_debt +ℤ variable_debt;
        stable_borrow_rate =
            calc_expected_user_stable_rate stable_debt user.stable_borrow_rate variable_debt
              before.stable_borrow_rate;
        stable_rate_last_updated = tx_timestamp;
        current_variable_debt = pos 0;
        scaled_variable_debt = pos 0;
      }

  unfoldable pub calc_expected_user_data_after_stable_rate_rebalance :
      (before after : ReserveData) → UserReserveData → ℤ → UserReserveData
  calc_expected_user_data_after_stable_rate_rebalance before after user tx_timestamp = record user {
    current_stable_debt = user_stable_debt_at user tx_timestamp;
    principal_stable_debt = user_stable_debt_at user tx_timestamp;
    current_variable_debt = calc_expected_variable_debt_token_balance before user tx_timestamp;
    stable_rate_last_updated = tx_timestamp;
    principal_variable_debt = user.principal_variable_debt;
    stable_borrow_rate = after.average_stable_borrow_rate;
    liquidity_rate = after.liquidity_rate;
    current_ltoken_balance = calc_expected_ltoken_balance before user tx_timestamp;
  }
