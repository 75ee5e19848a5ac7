-- ===== src/Scenario/Steps/Prepared.antt =====
-- The parts of a request that passes before and at its transaction
-- (test-suites/test-palmy/helpers/actions.ts).
use palmy_protocol.Prelude.{◌≡◌, Option, none, some, String}
use palmy_protocol.Prelude.Int.{ℤ, pos}
use palmy_protocol.Number.{BigNumberLib}
use palmy_protocol.Scenario.{TestEnv, Suite, passed, ContractReceipt, ◌>>=◌, ◌>>◌}
use palmy_protocol.Scenario.Runs.{bind_unchanged}
use palmy_protocol.Scenario.Data.{
  ContractsData, get_reserve_address_from_symbol, convert_to_currency_decimals, get_contracts_data,
  get_tx_cost_and_timestamp, travel,
}
use palmy_protocol.Scenario.Steps.{
  amount_or_all, value_of, transact, expectation, expect_deposit, expect_withdraw, expect_borrow,
  expect_repay, expect_swap, expect_rebalance, deposit, withdraw, borrow, repay,
  swap_borrow_rate_mode, rebalance_stable_borrow_rate,
}
use palmy_protocol.Scenario.Steps.Requests.{
  symbol_of, sender_of, user_of, wallet_of, tx_of, Request, deposits, withdraws, borrows, repays,
  swaps, rebalances, perform,
}
use palmy_protocol.Scenario.Steps.Checked.{
  address-Reads, convert-Reads, amount_or_all-Reads, value_of-Reads, data-Reads,
}

module _ {W : Type 0} ⦃env : TestEnv W⦄ ⦃lib : BigNumberLib⦄ where
  -- The comparison after the transaction of a request.
  abbrev pub check_of :
      Request → (reserve : String) → ℤ → ContractsData → ContractReceipt → Suite W (Unit {0})
  check_of (deposits symbol amount sender on_behalf_of value) reserve units before r = do
    after ← get_contracts_data reserve on_behalf_of (some sender)
    times ← get_tx_cost_and_timestamp r
    expect_deposit units before after times
  check_of (withdraws symbol amount user) reserve units before r = do
    after ← get_contracts_data reserve user none
    times ← get_tx_cost_and_timestamp r
    expect_withdraw units before after times
  check_of (borrows symbol amount mode user on_behalf_of time_travel) reserve units before r = do
    times ← get_tx_cost_and_timestamp r
    travel time_travel
    after ← get_contracts_data reserve on_behalf_of (some user)
    expect_borrow units mode before after times
  check_of (repays symbol amount mode user on_behalf_of value) reserve units before r = do
    times ← get_tx_cost_and_timestamp r
    after ← get_contracts_data reserve on_behalf_of none
    expect_repay units mode user on_behalf_of before after times
  check_of (swaps symbol user mode) reserve units before r = do
    times ← get_tx_cost_and_timestamp r
    after ← get_contracts_data reserve user none
    expect_swap mode before after times
  check_of (rebalances symbol user target) reserve units before r = do
    times ← get_tx_cost_and_timestamp r
    after ← get_contracts_data reserve target none
    expect_rebalance before after times

  -- What comes before the transaction was read, and the rest passed.
  abbrev pub Prepared : Request → (expected : String) → W → W → Type 0
  Prepared r expected w v =
      (reserve : String) × (units : ℤ) × (value : Option ℤ) × (before : ContractsData)
      × (get_reserve_address_from_symbol (symbol_of r) w ≡ (passed reserve, w))
      × (get_contracts_data reserve (user_of r) (wallet_of r) w ≡ (passed before, w))
      × (transact (sender_of r) (tx_of r reserve units value) (expectation expected)
            (check_of r reserve units before) w
          ≡ (passed tt, v))

  deposit-Prepared :
      (symbol amount sender on_behalf_of : String) (value : Option String) (expected : String)
      (w : W) {v : W}
      → deposit symbol amount sender on_behalf_of value expected w ≡ (passed tt, v)
      → Prepared (deposits symbol amount sender on_behalf_of value) expected w v
  unfolding deposit
  deposit-Prepared symbol amount sender on_behalf_of value expected w e =
      let (reserve, e1, r1) =
        bind_unchanged (get_reserve_address_from_symbol symbol) _ w (address-Reads symbol) e in
      let (units, e2, r2) =
        bind_unchanged (convert_to_currency_decimals reserve amount) _ w
          (convert-Reads reserve amount) r1 in
      let (before, e3, r3) =
        bind_unchanged (get_contracts_data reserve on_behalf_of (some sender)) _ w
          (data-Reads reserve on_behalf_of (some sender)) r2 in
      let (given, e4, r4) =
        bind_unchanged (value_of reserve value) _ w (value_of-Reads reserve value) r3 in
      (reserve, units, given, before, e1, e3, r4)

  withdraw-Prepared :
      (symbol amount user : String) (expected : String) (w : W) {v : W}
      → withdraw symbol amount user expected w ≡ (passed tt, v)
      → Prepared (withdraws symbol amount user) expected w v
  unfolding withdraw
  withdraw-Prepared symbol amount user expected w e =
      let (reserve, e1, r1) =
        bind_unchanged (get_reserve_address_from_symbol symbol) _ w (address-Reads symbol) e in
      let (before, e2, r2) =
        bind_unchanged (get_contracts_data reserve user none) _ w (data-Reads reserve user none)
          r1 in
      let (units, e3, r3) =
        bind_unchanged (amount_or_all reserve amount) _ w (amount_or_all-Reads reserve amount) r2 in
      (reserve, units, none, before, e1, e2, r3)

  borrow-Prepared :
      (symbol amount mode user on_behalf_of : String) (time_travel : Option String)
      (expected : String) (w : W) {v : W}
      → borrow symbol amount mode user on_behalf_of time_travel expected w ≡ (passed tt, v)
      → Prepared (borrows symbol amount mode user on_behalf_of time_travel) expected w v
  unfolding borrow
  borrow-Prepared symbol amount mode user on_behalf_of time_travel expected w e =
      let (reserve, e1, r1) =
        bind_unchanged (get_reserve_address_from_symbol symbol) _ w (address-Reads symbol) e in
      let (before, e2, r2) =
        bind_unchanged (get_contracts_data reserve on_behalf_of (some user)) _ w
          (data-Reads reserve on_behalf_of (some user)) r1 in
      let (units, e3, r3) =
        bind_unchanged (convert_to_currency_decimals reserve amount) _ w
          (convert-Reads reserve amount) r2 in
      (reserve, units, none, before, e1, e2, r3)

  repay-Prepared :
      (symbol amount mode user on_behalf_of : String) (value : Option String) (expected : String)
      (w : W) {v : W}
      → repay symbol amount mode user on_behalf_of value expected w ≡ (passed tt, v)
      → Prepared (repays symbol amount mode user on_behalf_of value) expected w v
  unfolding repay
  repay-Prepared symbol amount mode user on_behalf_of value expected w e =
      let (reserve, e1, r1) =
        bind_unchanged (get_reserve_address_from_symbol symbol) _ w (address-Reads symbol) e in
      let (before, e2, r2) =
        bind_unchanged (get_contracts_data reserve on_behalf_of none) _ w
          (data-Reads reserve on_behalf_of none) r1 in
      let (units, e3, r3) =
        bind_unchanged (amount_or_all reserve amount) _ w (amount_or_all-Reads reserve amount) r2 in
      let (given, e4, r4) =
        bind_unchanged (value_of reserve value) _ w (value_of-Reads reserve value) r3 in
      (reserve, units, given, before, e1, e2, r4)

  swap_borrow_rate_mode-Prepared :
      (symbol user mode : String) (expected : String) (w : W) {v : W}
      → swap_borrow_rate_mode symbol user mode expected w ≡ (passed tt, v)
      → Prepared (swaps symbol user mode) expected w v
  unfolding swap_borrow_rate_mode
  swap_borrow_rate_mode-Prepared symbol user mode expected w e =
      let (reserve, e1, r1) =
        bind_unchanged (get_reserve_address_from_symbol symbol) _ w (address-Reads symbol) e in
      let (before, e2, r2) =
        bind_unchanged (get_contracts_data reserve user none) _ w (data-Reads reserve user none)
          r1 in
      (reserve, pos 0, none, before, e1, e2, r2)

  rebalance_stable_borrow_rate-Prepared :
      (symbol user target : String) (expected : String) (w : W) {v : W}
      → rebalance_stable_borrow_rate symbol user target expected w ≡ (passed tt, v)
      → Prepared (rebalances symbol user target) expected w v
  unfolding rebalance_stable_borrow_rate
  rebalance_stable_borrow_rate-Prepared symbol user target expected w e =
      let (reserve, e1, r1) =
        bind_unchanged (get_reserve_address_from_symbol symbol) _ w (address-Reads symbol) e in
      let (before, e2, r2) =
        bind_unchanged (get_contracts_data reserve target none) _ w (data-Reads reserve target none)
          r1 in
      (reserve, pos 0, none, before, e1, e2, r2)

  pub passed-Prepared :
      (r : Request) (expected : String) (w : W) {v : W}
      → perform r expected w ≡ (passed tt, v)
      → Prepared r expected w v
  passed-Prepared (deposits symbol amount sender on_behalf_of value) expected w e =
      deposit-Prepared symbol amount sender on_behalf_of value expected w e
  passed-Prepared (withdraws symbol amount user) expected w e =
      withdraw-Prepared symbol amount user expected w e
  passed-Prepared (borrows symbol amount mode user on_behalf_of time_travel) expected w e =
      borrow-Prepared symbol amount mode user on_behalf_of time_travel expected w e
  passed-Prepared (repays symbol amount mode user on_behalf_of value) expected w e =
      repay-Prepared symbol amount mode user on_behalf_of value expected w e
  passed-Prepared (swaps symbol user mode) expected w e =
      swap_borrow_rate_mode-Prepared symbol user mode expected w e
  passed-Prepared (rebalances symbol user target) expected w e =
      rebalance_stable_borrow_rate-Prepared symbol user target expected w e
