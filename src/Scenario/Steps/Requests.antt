-- ===== src/Scenario/Steps/Requests.antt =====
-- The actions on the pool that test-suites/test-palmy/helpers/actions.ts compares with calculations.ts,
-- as data, and what a run of each consists of.
use palmy_protocol.Prelude.{◌≡◌, Option, none, some, String, ℕ}
use palmy_protocol.Prelude.Int.{ℤ}
use palmy_protocol.Number.{BigNumberLib}
use palmy_protocol.Calculations.{ReserveData}
use palmy_protocol.Calculations.Actions
use palmy_protocol.Calculations.Actions.{reserve_after, user_after}
use palmy_protocol.Scenario.{TestEnv, Suite, Tx, ContractReceipt}
use palmy_protocol.Scenario.Data.{ContractsData, data_of}
use palmy_protocol.Scenario.Compare.Properties.{NearReserve, NearUser}
use palmy_protocol.Scenario.Steps.{
  rate_mode_of, deposit, withdraw, borrow, repay, swap_borrow_rate_mode,
  rebalance_stable_borrow_rate,
}

pub data Request : Type 0 where
  deposits : (symbol amount sender on_behalf_of : String) (value : Option String) → Request
  withdraws : (symbol amount user : String) → Request
  borrows : (symbol amount mode user on_behalf_of : String) (time_travel : Option String) → Request
  repays : (symbol amount mode user on_behalf_of : String) (value : Option String) → Request
  swaps : (symbol user mode : String) → Request
  rebalances : (symbol user target : String) → Request

abbrev pub symbol_of : Request → String
symbol_of (deposits symbol amount sender on_behalf_of value) = symbol
symbol_of (withdraws symbol amount user) = symbol
symbol_of (borrows symbol amount mode user on_behalf_of time_travel) = symbol
symbol_of (repays symbol amount mode user on_behalf_of value) = symbol
symbol_of (swaps symbol user mode) = symbol
symbol_of (rebalances symbol user target) = symbol

-- Who sends the transaction, whose data are compared, and whose wallet is among them.
abbrev pub sender_of : Request → String
sender_of (deposits symbol amount sender on_behalf_of value) = sender
sender_of (withdraws symbol amount user) = user
sender_of (borrows symbol amount mode user on_behalf_of time_travel) = user
sender_of (repays symbol amount mode user on_behalf_of value) = user
sender_of (swaps symbol user mode) = user
sender_of (rebalances symbol user target) = user

abbrev pub user_of : Request → String
user_of (deposits symbol amount sender on_behalf_of value) = on_behalf_of
user_of (withdraws symbol amount user) = user
user_of (borrows symbol amount mode user on_behalf_of time_travel) = on_behalf_of
user_of (repays symbol amount mode user on_behalf_of value) = on_behalf_of
user_of (swaps symbol user mode) = user
user_of (rebalances symbol user target) = target

abbrev pub wallet_of : Request → Option String
wallet_of (deposits symbol amount sender on_behalf_of value) = some sender
wallet_of (withdraws symbol amount user) = none
wallet_of (borrows symbol amount mode user on_behalf_of time_travel) = some user
wallet_of (repays symbol amount mode user on_behalf_of value) = none
wallet_of (swaps symbol user mode) = none
wallet_of (rebalances symbol user target) = none

-- The transaction and the action of the calculations, for an amount in the token's units.
abbrev pub tx_of : Request → (reserve : String) → ℤ → Option ℤ → Tx
tx_of (deposits symbol amount sender on_behalf_of v) reserve units value =
    Tx.deposit reserve units on_behalf_of value
tx_of (withdraws symbol amount user) reserve units value = Tx.withdraw reserve units user
tx_of (borrows symbol amount mode user on_behalf_of time_travel) reserve units value =
    Tx.borrow reserve units mode on_behalf_of
tx_of (repays symbol amount mode user on_behalf_of v) reserve units value =
    Tx.repay reserve units mode on_behalf_of value
tx_of (swaps symbol user mode) reserve units value = Tx.swap_borrow_rate_mode reserve mode
tx_of (rebalances symbol user target) reserve units value =
    Tx.rebalance_stable_borrow_rate reserve target

abbrev pub action_of : Request → ℤ → Actions.Action
action_of (deposits symbol amount sender on_behalf_of value) units = Actions.deposit units
action_of (withdraws symbol amount user) units = Actions.withdraw units
action_of (borrows symbol amount mode user on_behalf_of time_travel) units =
    Actions.borrow units (rate_mode_of mode)
action_of (repays symbol amount mode user on_behalf_of value) units =
    Actions.repay units (rate_mode_of mode)
action_of (swaps symbol user mode) units = Actions.swap_rate_mode (rate_mode_of mode)
action_of (rebalances symbol user target) units = Actions.rebalance

module _ {W : Type 0} ⦃env : TestEnv W⦄ ⦃lib : BigNumberLib⦄ where
  -- The function of the suite for a request.
  abbrev pub perform : Request → (expected : String) → Suite W (Unit {0})
  perform (deposits symbol amount sender on_behalf_of value) expected =
      deposit symbol amount sender on_behalf_of value expected
  perform (withdraws symbol amount user) expected = withdraw symbol amount user expected
  perform (borrows symbol amount mode user on_behalf_of time_travel) expected =
      borrow symbol amount mode user on_behalf_of time_travel expected
  perform (repays symbol amount mode user on_behalf_of value) expected =
      repay symbol amount mode user on_behalf_of value expected
  perform (swaps symbol user mode) expected = swap_borrow_rate_mode symbol user mode expected
  perform (rebalances symbol user target) expected =
      rebalance_stable_borrow_rate symbol user target expected

module _ (W : Type 0) ⦃env : TestEnv W⦄ ⦃lib : BigNumberLib⦄ where
  -- The data after an action of `payer` for `on_behalf_of` agree with the calculations from the data
  -- before it: what is compared is the same, up to three units in each number.
  pub record Conforms (action : Actions.Action) (payer on_behalf_of : String)
      (before after : ContractsData) (tx : ℤ) : Type 0 where
    pub expected : ReserveData
    pub predicted :
        reserve_after env.reserves_params env.no_reserve action before.reserve_data before.user_data
          tx after.timestamp
        ≡ some expected
    pub reserve_near : NearReserve after.reserve_data expected
    pub user_near : NearUser after.user_data (
        user_after env.no_user action before.reserve_data expected before.user_data payer
          on_behalf_of tx after.timestamp)

module _ {W : Type 0} ⦃env : TestEnv W⦄ ⦃lib : BigNumberLib⦄ where
  -- The request `r`, from the chain `w` to `v`: one transaction was sent and accepted, and the data
  -- before and after it conform.
  pub record Refines (r : Request) (w v : W) : Type 0 where
    pub reserve : String
    pub units : ℤ
    pub value : Option ℤ
    pub receipt : ContractReceipt
    pub sent : W
    pub block : ℕ
    pub known : env.db_address (symbol_of r) ≡ some reserve
    pub accepted : env.send w (sender_of r) (tx_of r reserve units value) ≡ (some receipt, sent)
    pub mined : receipt.block_number ≡ some block
    pub conforms :
        Conforms W
          (action_of r units)
          (sender_of r)
          (user_of r)
          (data_of w reserve (user_of r) (wallet_of r))
          (data_of v reserve (user_of r) (wallet_of r))
          (env.block_timestamp sent block)
