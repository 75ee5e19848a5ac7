-- ===== src/Scenario/Steps.antt =====
-- The steps of a story: test-suites/test-palmy/helpers/actions.ts. Each sends one transaction and
-- compares the data after it with what calculations.ts expects, or asserts that it is refused.
-- `expected` says which; with any other text nothing is sent.
pub mod Engine
pub mod Requests
pub mod Checked
pub mod Prepared
pub mod Refinement
pub mod Drift
pub mod Story
use palmy_protocol.Prelude.{
  String, Bool, true, false, Option, none, some, if◌then◌else◌, str_eq, ◌&&◌,
}
use palmy_protocol.Prelude.Int.{ℤ, pos, eq_ℤ}
use palmy_protocol.Number.{BigNumberLib}
use palmy_protocol.Types.{RateMode, no_mode, stable, variable}
use palmy_protocol.Math.{max_uint_amount}
use palmy_protocol.Calculations.{ReserveData, UserReserveData}
use palmy_protocol.Calculations.Reserve.{
  calc_expected_reserve_data_after_deposit, calc_expected_reserve_data_after_withdraw,
  calc_expected_reserve_data_after_swap_rate_mode,
  calc_expected_reserve_data_after_stable_rate_rebalance,
}
use palmy_protocol.Calculations.Loans.{
  calc_expected_reserve_data_after_borrow, calc_expected_reserve_data_after_repay,
}
use palmy_protocol.Calculations.User.{
  calc_expected_user_data_after_deposit, calc_expected_user_data_after_withdraw,
  calc_expected_user_data_after_borrow, calc_expected_user_data_after_repay,
  calc_expected_user_data_after_set_use_as_collateral, calc_expected_user_data_after_swap_rate_mode,
  calc_expected_user_data_after_stable_rate_rebalance,
}
use palmy_protocol.Scenario.{
  TestEnv, Suite, Outcome, passed, failed, Tx, ContractReceipt, reverted, not_reverted,
  wrong_message, wrong_allowance, pure, throw, read, ◌>>=◌, ◌>>◌, assert, defined,
}
use palmy_protocol.Scenario.Data.{
  ContractsData, TxTimes, get_reserve_address_from_symbol, convert_to_currency_decimals,
  get_contracts_data, get_tx_cost_and_timestamp, travel,
}
use palmy_protocol.Scenario.Compare.{expect_reserve, expect_user}

-- expectedResult === 'success', expectedResult === 'revert'
pub data Expectation : Type 0 where
  success revert nothing : Expectation

abbrev pub expectation : String → Expectation
expectation expected =
    if str_eq expected "success"
    then success
    else (if str_eq expected "revert" then revert else nothing)

-- The mode that the calculations see in the digit: only that of a stable rate is told apart.
abbrev pub rate_mode_of : String → RateMode
rate_mode_of digit =
    if str_eq digit "1" then stable else (if str_eq digit "2" then variable else no_mode)

-- The message that the refusal must have, if one is expected.
abbrev pub expected_message : Expectation → Option String → Option String
expected_message success message = none
expected_message nothing message = none
expected_message revert none = none
expected_message revert (some message) = if str_eq message "" then none else some message

abbrev pub approved_amount : ℤ
approved_amount = pos 100000000000000000000000000000

module _ {W : Type 0} ⦃env : TestEnv W⦄ where
  abbrev pub received : Tx → Option ContractReceipt × W → Outcome ContractReceipt × W
  received tx (none, w) = (failed (reverted tx), w)
  received tx (some receipt, w) = (passed receipt, w)

  -- await waitForTx(await …)
  unfoldable pub submit : (sender : String) → Tx → Suite W ContractReceipt
  submit sender tx w = received tx (env.send w sender tx)

  abbrev pub refused : Tx → Option ContractReceipt × W → Outcome (Unit {0}) × W
  refused tx (none, w) = (passed tt, w)
  refused tx (some receipt, w) = (failed (not_reverted tx), w)

  -- expect(…).to.be.reverted: the message is not looked at
  unfoldable pub expect_reverted : (sender : String) → Tx → Suite W (Unit {0})
  expect_reverted sender tx w = refused tx (env.send w sender tx)

  -- if (expectedResult === 'success') { … } else if (expectedResult === 'revert') { … }
  unfoldable pub transact :
      (sender : String)
      → Tx
      → Expectation
      → (ContractReceipt → Suite W (Unit {0}))
      → Suite W (Unit {0})
  unfolding submit expect_reverted
  transact sender tx success check = submit sender tx >>= check
  transact sender tx revert check = expect_reverted sender tx
  transact sender tx nothing check = pure tt

  -- '-1' stands for MAX_UINT_AMOUNT
  abbrev pub amount_or_all : (reserve amount : String) → Suite W ℤ
  amount_or_all reserve amount =
      if str_eq amount "-1"
      then pure (pos max_uint_amount)
      else convert_to_currency_decimals reserve amount

  -- if (sendValue) { txOptions.value = … }
  abbrev pub value_of : (reserve : String) → Option String → Suite W (Option ℤ)
  value_of reserve none = pure none
  value_of reserve (some amount) =
      if str_eq amount ""
      then pure none
      else (convert_to_currency_decimals reserve amount >>= λ units. pure (some units))

  unfoldable pub mint : (reserve_symbol amount user : String) → Suite W (Unit {0})
  unfolding submit
  mint reserve_symbol amount user = do
    reserve ← get_reserve_address_from_symbol reserve_symbol
    units ← convert_to_currency_decimals reserve amount
    submit user (Tx.mint reserve units)
    pure tt

  unfoldable pub approve : (reserve_symbol user : String) → Suite W (Unit {0})
  unfolding submit
  approve reserve_symbol user = do
    reserve ← get_reserve_address_from_symbol reserve_symbol
    submit user (Tx.approve reserve env.pool approved_amount)
    pure tt

  abbrev pub debt_token : W → (reserve mode : String) → String
  debt_token w reserve mode =
      let raw = env.raw_reserve w reserve in
      if str_eq mode "1" then raw.stable_debt_token_address else raw.variable_debt_token_address

  -- expect(…).to.be.revertedWith(revertMessage)
  abbrev pub expect_reverted_with : (sender message : String) → Tx → Suite W (Unit {0})
  expect_reverted_with sender message tx = do
    right ← read (λ w. env.reverts_with w sender tx message)
    expect_reverted sender tx
    assert right (wrong_message message)

  abbrev pub expect_allowance : (token owner receiver : String) → ℤ → Suite W (Unit {0})
  expect_allowance token owner receiver amount = do
    allowance ← read (λ w. env.borrow_allowance w token owner receiver)
    assert (eq_ℤ allowance amount) wrong_allowance

  unfoldable pub delegate_borrow_allowance :
      (reserve_symbol amount mode user receiver expected : String)
      → Option String
      → Suite W (Unit {0})
  unfolding submit expect_reverted
  delegate_borrow_allowance reserve_symbol amount mode user receiver expected revert_message = do
    reserve ← get_reserve_address_from_symbol reserve_symbol
    units ← convert_to_currency_decimals reserve amount
    token ← read (λ w. debt_token w reserve mode)
    elim (expected_message (expectation expected) revert_message) [
      | some message ↦
          expect_reverted_with user message (Tx.approve_delegation token receiver units)
      | none ↦ do
        submit user (Tx.approve_delegation token receiver units)
        expect_allowance token user receiver units
    ]

module _ {W : Type 0} ⦃env : TestEnv W⦄ ⦃lib : BigNumberLib⦄ where
  -- The last lines of an action: the expected data, whose calculation may throw, and the comparison.
  abbrev pub expect_data :
      ContractsData → Option ReserveData → (ReserveData → UserReserveData) → Suite W (Unit {0})
  expect_data after expected_reserve_data expected_user_data = do
    expected ← defined expected_reserve_data
    expect_reserve after.reserve_data expected
    expect_user after.user_data (expected_user_data expected)

  -- The expected data after each action, from the data before it.
  abbrev pub expect_deposit : ℤ → (before after : ContractsData) → TxTimes → Suite W (Unit {0})
  expect_deposit amount before after times =
      expect_data after
        (calc_expected_reserve_data_after_deposit env.reserves_params env.no_reserve amount
          before.reserve_data times.tx_timestamp)
        (λ expected.
          calc_expected_user_data_after_deposit env.no_user amount before.reserve_data expected
            before.user_data times.tx_timestamp)

  unfoldable pub deposit :
      (reserve_symbol amount sender on_behalf_of : String)
      → Option String
      → (expected : String) → Suite W (Unit {0})
  unfolding transact
  deposit reserve_symbol amount sender on_behalf_of send_value expected = do
    reserve ← get_reserve_address_from_symbol reserve_symbol
    amount_to_deposit ← convert_to_currency_decimals reserve amount
    before ← get_contracts_data reserve on_behalf_of (some sender)
    value ← value_of reserve send_value
    transact sender (Tx.deposit reserve amount_to_deposit on_behalf_of value) (expectation expected)
        (λ tx_result. do
          after ← get_contracts_data reserve on_behalf_of (some sender)
          times ← get_tx_cost_and_timestamp tx_result
          expect_deposit amount_to_deposit before after times)

  abbrev pub expect_withdraw : ℤ → (before after : ContractsData) → TxTimes → Suite W (Unit {0})
  expect_withdraw amount before after times =
      expect_data after
        (calc_expected_reserve_data_after_withdraw env.reserves_params env.no_reserve amount
          before.reserve_data before.user_data times.tx_timestamp)
        (λ expected.
          calc_expected_user_data_after_withdraw env.no_user amount before.reserve_data expected
            before.user_data times.tx_timestamp)

  unfoldable pub withdraw : (reserve_symbol amount user expected : String) → Suite W (Unit {0})
  unfolding transact
  withdraw reserve_symbol amount user expected = do
    reserve ← get_reserve_address_from_symbol reserve_symbol
    before ← get_contracts_data reserve user none
    amount_to_withdraw ← amount_or_all reserve amount
    transact user (Tx.withdraw reserve amount_to_withdraw user) (expectation expected) (λ tx_result.
        do
          after ← get_contracts_data reserve user none
          times ← get_tx_cost_and_timestamp tx_result
          expect_withdraw amount_to_withdraw before after times)

  abbrev pub expect_borrow :
      ℤ → String → (before after : ContractsData) → TxTimes → Suite W (Unit {0})
  expect_borrow amount mode before after times =
      expect_data after
        (calc_expected_reserve_data_after_borrow env.reserves_params env.no_reserve amount
          (rate_mode_of mode) before.reserve_data before.user_data times.tx_timestamp
          after.timestamp)
        (λ expected.
          calc_expected_user_data_after_borrow env.no_user amount (rate_mode_of mode)
            before.reserve_data expected before.user_data times.tx_timestamp after.timestamp)

  unfoldable pub borrow :
      (reserve_symbol amount mode user on_behalf_of : String)
      → Option String
      → (expected : String) → Suite W (Unit {0})
  unfolding transact
  borrow reserve_symbol amount mode user on_behalf_of time_travel expected = do
    reserve ← get_reserve_address_from_symbol reserve_symbol
    before ← get_contracts_data reserve on_behalf_of (some user)
    amount_to_borrow ← convert_to_currency_decimals reserve amount
    transact user (Tx.borrow reserve amount_to_borrow mode on_behalf_of) (expectation expected)
        (λ tx_result. do
          times ← get_tx_cost_and_timestamp tx_result
          travel time_travel
          after ← get_contracts_data reserve on_behalf_of (some user)
          expect_borrow amount_to_borrow mode before after times)

  abbrev pub expect_repay :
      ℤ
      → (mode user on_behalf_of : String) → (before after : ContractsData) → TxTimes
      → Suite W (Unit {0})
  expect_repay amount mode user on_behalf_of before after times =
      expect_data after
        (calc_expected_reserve_data_after_repay env.reserves_params env.no_reserve amount
          (rate_mode_of mode) before.reserve_data before.user_data times.tx_timestamp
          after.timestamp)
        (λ expected.
          calc_expected_user_data_after_repay env.no_user amount (rate_mode_of mode)
            before.reserve_data expected before.user_data user on_behalf_of times.tx_timestamp
            after.timestamp)

  -- The amounts are sent as hexadecimal texts, of the same values.
  unfoldable pub repay :
      (reserve_symbol amount mode user on_behalf_of : String)
      → Option String
      → (expected : String) → Suite W (Unit {0})
  unfolding transact
  repay reserve_symbol amount mode user on_behalf_of send_value expected = do
    reserve ← get_reserve_address_from_symbol reserve_symbol
    before ← get_contracts_data reserve on_behalf_of none
    amount_to_repay ← amount_or_all reserve amount
    value ← value_of reserve send_value
    transact user (Tx.repay reserve amount_to_repay mode on_behalf_of value) (expectation expected)
        (λ tx_result. do
          times ← get_tx_cost_and_timestamp tx_result
          after ← get_contracts_data reserve on_behalf_of none
          expect_repay amount_to_repay mode user on_behalf_of before after times)

  -- `is_true` is toLowerCase() === 'true' of the text
  unfoldable pub set_use_as_collateral :
      (reserve_symbol user : String) → (is_true : Bool) → (expected : String) → Suite W (Unit {0})
  unfolding transact
  set_use_as_collateral reserve_symbol user is_true expected = do
    reserve ← get_reserve_address_from_symbol reserve_symbol
    before ← get_contracts_data reserve user none
    transact user (Tx.set_user_use_reserve_as_collateral reserve is_true) (expectation expected)
        (λ tx_result. do
          times ← get_tx_cost_and_timestamp tx_result
          after ← get_contracts_data reserve user none
          expect_user after.user_data
              (calc_expected_user_data_after_set_use_as_collateral is_true before.user_data))

  abbrev pub expect_swap : String → (before after : ContractsData) → TxTimes → Suite W (Unit {0})
  expect_swap mode before after times =
      expect_data after
        (calc_expected_reserve_data_after_swap_rate_mode env.reserves_params env.no_reserve
          before.reserve_data before.user_data (rate_mode_of mode) times.tx_timestamp)
        (λ expected.
          calc_expected_user_data_after_swap_rate_mode before.reserve_data expected before.user_data
            (rate_mode_of mode) times.tx_timestamp)

  unfoldable pub swap_borrow_rate_mode :
      (reserve_symbol user mode expected : String) → Suite W (Unit {0})
  unfolding transact
  swap_borrow_rate_mode reserve_symbol user mode expected = do
    reserve ← get_reserve_address_from_symbol reserve_symbol
    before ← get_contracts_data reserve user none
    transact user (Tx.swap_borrow_rate_mode reserve mode) (expectation expected) (λ tx_result. do
      times ← get_tx_cost_and_timestamp tx_result
      after ← get_contracts_data reserve user none
      expect_swap mode before after times)

  abbrev pub expect_rebalance : (before after : ContractsData) → TxTimes → Suite W (Unit {0})
  expect_rebalance before after times =
      expect_data after
        (calc_expected_reserve_data_after_stable_rate_rebalance env.reserves_params env.no_reserve
          before.reserve_data before.user_data times.tx_timestamp)
        (λ expected.
          calc_expected_user_data_after_stable_rate_rebalance before.reserve_data expected
            before.user_data times.tx_timestamp)

  unfoldable pub rebalance_stable_borrow_rate :
      (reserve_symbol user target expected : String) → Suite W (Unit {0})
  unfolding transact
  rebalance_stable_borrow_rate reserve_symbol user target expected = do
    reserve ← get_reserve_address_from_symbol reserve_symbol
    before ← get_contracts_data reserve target none
    transact user (Tx.rebalance_stable_borrow_rate reserve target) (expectation expected)
        (λ tx_result. do
          times ← get_tx_cost_and_timestamp tx_result
          after ← get_contracts_data reserve target none
          expect_rebalance before after times)
