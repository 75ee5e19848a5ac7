-- ===== src/Scenario/Steps/Refinement.antt =====
-- A request that passes refines the calculations (test-suites/test-palmy/helpers/actions.ts).
use palmy_protocol.Prelude.{◌≡◌, subst, false, Option, none, some, String}
use palmy_protocol.Prelude.Int.{ℤ}
use palmy_protocol.Number.{BigNumberLib, IsTruncating}
use palmy_protocol.Calculations.{ReserveData, UserReserveData}
use palmy_protocol.Calculations.Actions.{reserve_after, user_after}
use palmy_protocol.Scenario.{TestEnv, passed, ContractReceipt, Tx}
use palmy_protocol.Scenario.Data.{
  ContractsData, get_reserve_address_from_symbol, get_contracts_data,
}
use palmy_protocol.Scenario.Compare.Properties.{checks-NearReserve, checks-NearUser}
use palmy_protocol.Scenario.Steps.{transact, refused, expect_reverted}
use palmy_protocol.Scenario.Steps.Requests.{
  symbol_of, sender_of, user_of, wallet_of, tx_of, action_of, Request, deposits, withdraws, borrows,
  repays, swaps, rebalances, perform, Refines,
}
use palmy_protocol.Scenario.Steps.Prepared.{check_of, passed-Prepared}
use palmy_protocol.Scenario.Steps.Checked.{
  address-passed, data-passed, transact-passed, Checked, data_first-Checked, times_first-Checked,
  travelled-Checked,
}

module _ ⦃lib : BigNumberLib⦄ where
  -- The predictions for a request.
  abbrev reserve_for :
      {W : Type 0}
      → TestEnv W
      → Request
      → ℤ
      → (before after : ContractsData) → ℤ
      → Option ReserveData
  reserve_for env r units before after tx =
      reserve_after env.reserves_params env.no_reserve (action_of r units) before.reserve_data
        before.user_data tx after.timestamp

  abbrev user_for :
      {W : Type 0}
      → TestEnv W
      → Request
      → ℤ
      → (before after : ContractsData) → ℤ
      → ReserveData
      → UserReserveData
  user_for env r units before after tx expected =
      user_after env.no_user (action_of r units) before.reserve_data expected before.user_data
        (sender_of r) (user_of r) tx after.timestamp

module _ {W : Type 0} ⦃env : TestEnv W⦄ ⦃lib : BigNumberLib⦄ where
  abbrev ChecksRequest :
      Request → (reserve : String) → ℤ → ContractsData → ContractReceipt → (sent v : W) → Type 0
  ChecksRequest r reserve units before =
      Checked (reserve_for env r units before) (user_for env r units before) reserve (user_of r)
        (wallet_of r)

  assembled :
      (law : IsTruncating lib) (r : Request) (reserve : String) (units : ℤ) (value : Option ℤ)
      (receipt : ContractReceipt) (before : ContractsData) (w sent : W) {v : W}
      → get_reserve_address_from_symbol (symbol_of r) w ≡ (passed reserve, w)
      → get_contracts_data reserve (user_of r) (wallet_of r) w ≡ (passed before, w)
      → env.send w (sender_of r) (tx_of r reserve units value) ≡ (some receipt, sent)
      → ChecksRequest r reserve units before receipt sent v
      → Refines r w v
  assembled law r reserve units value receipt before w sent {v = v} known seen accepted checked =
      let same = data-passed reserve (user_of r) (wallet_of r) w seen in
      let (block, mined, (expected, found, near, user_near)) =
        subst (λ d. ChecksRequest r reserve units d receipt sent v) same checked in
      record {
        reserve = reserve;
        units = units;
        value = value;
        receipt = receipt;
        sent = sent;
        block = block;
        known = address-passed (symbol_of r) w known;
        accepted = accepted;
        mined = mined;
        conforms = record {
          expected = expected;
          predicted = found;
          reserve_near = checks-NearReserve law _ _ near;
          user_near = checks-NearUser law _ _ user_near;
        };
      }

  -- The comparison after the transaction agrees with the predictions.
  check_of-Checked :
      (r : Request) (reserve : String) (units : ℤ) (before : ContractsData)
      (receipt : ContractReceipt) (sent : W) {v : W}
      → env.skip_integrity_check ≡ false
      → check_of r reserve units before receipt sent ≡ (passed tt, v)
      → ChecksRequest r reserve units before receipt sent v
  check_of-Checked (deposits symbol amount sender on_behalf_of value) reserve units before receipt
        sent on e =
      let r = deposits symbol amount sender on_behalf_of value in
      data_first-Checked on (reserve_for env r units before) (user_for env r units before) reserve
        on_behalf_of (some sender) receipt sent e
  check_of-Checked (withdraws symbol amount user) reserve units before receipt sent on e =
      let r = withdraws symbol amount user in
      data_first-Checked on (reserve_for env r units before) (user_for env r units before) reserve
        user none receipt sent e
  check_of-Checked (borrows symbol amount mode user on_behalf_of time_travel) reserve units before
        receipt sent on e =
      let r = borrows symbol amount mode user on_behalf_of time_travel in
      travelled-Checked on (reserve_for env r units before) (user_for env r units before) reserve
        on_behalf_of (some user) receipt time_travel sent e
  check_of-Checked (repays symbol amount mode user on_behalf_of value) reserve units before receipt
        sent on e =
      let r = repays symbol amount mode user on_behalf_of value in
      times_first-Checked on (reserve_for env r units before) (user_for env r units before) reserve
        on_behalf_of none receipt sent e
  check_of-Checked (swaps symbol user mode) reserve units before receipt sent on e =
      let r = swaps symbol user mode in
      times_first-Checked on (reserve_for env r units before) (user_for env r units before) reserve
        user none receipt sent e
  check_of-Checked (rebalances symbol user target) reserve units before receipt sent on e =
      let r = rebalances symbol user target in
      times_first-Checked on (reserve_for env r units before) (user_for env r units before) reserve
        target none receipt sent e

  -- With a BigNumber division that truncates: a request that the suite performs with the expectation of
  -- success, and that passes with the comparison switched on, sent one transaction, which was accepted
  -- and mined. The data after it agree with those that the calculations give from the data before it:
  -- of the reserve, the address and thirteen numbers, and of the user, the collateral flag and ten
  -- numbers, each number up to three units. Of the reserve, the time of the last update, the market
  -- rate, the symbol, the token and the decimals are not compared.
  pub passed-Refines :
      (law : IsTruncating lib) (r : Request) (w v : W)
      → env.skip_integrity_check ≡ false
      → perform r "success" w ≡ (passed tt, v)
      → Refines r w v
  passed-Refines law r w v on e =
      let (reserve, units, value, before, known, seen, ran) = passed-Prepared r "success" w e in
      let (receipt, sent, accepted, checks) =
        transact-passed (sender_of r) (tx_of r reserve units value) _ w ran in
      assembled law r reserve units value receipt before w sent known seen accepted
        (check_of-Checked r reserve units before receipt sent on checks)

  -- The transaction of the request was refused.
  abbrev pub IsRefused : Request → W → W → Type 0
  IsRefused r w v =
      (reserve : String) × (units : ℤ) × (value : Option ℤ) × (env.db_address (symbol_of r)
        ≡ some reserve)
      × (env.send w (sender_of r) (tx_of r reserve units value) ≡ (none, v))

  refused-eq :
      (tx : Tx) (answer : Option ContractReceipt × W) {v : W}
      → refused tx answer ≡ (passed tt, v)
      → answer ≡ (none, v)
  refused-eq tx (none, u) e = cc
  refused-eq tx (some receipt, u) e = cc

  -- A request that the suite performs with the expectation of a revert, and that passes, sent one
  -- transaction, which was refused.
  pub passed-IsRefused :
      (r : Request) (w v : W) → perform r "revert" w ≡ (passed tt, v) → IsRefused r w v
  unfolding transact expect_reverted
  passed-IsRefused r w v e =
      let (reserve, units, value, before, known, seen, ran) = passed-Prepared r "revert" w e in
      (
        reserve,
        units,
        value,
        address-passed (symbol_of r) w known,
        refused-eq (tx_of r reserve units value)
            (env.send w (sender_of r) (tx_of r reserve units value)) ran,
      )
