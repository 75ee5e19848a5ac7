-- ===== src/Examples/Scenario.antt =====
-- A deposit of one token into an empty reserve, as the scenario suite performs it.
use palmy_protocol.Prelude.{
  ◌≡◌, refl, ap, ◌*◌, ◌^◌, Bool, true, false, Option, none, some, String, List, [], ◌∷◌, lookup,
  arith,
}
use palmy_protocol.Prelude.Int.{ℤ, pos, ◌+ℤ◌, ◌-ℤ◌, ◌*ℤ◌, ◌≤ℤ◌}
use palmy_protocol.Number.{exact_lib, exact_lib-IsTruncating, read_digits}
use palmy_protocol.Calculations.{ReserveData, UserReserveData}
use palmy_protocol.Calculations.Reserve.{
  calc_expected_reserve_data_after_deposit, with_rates, with_utilization,
}
use palmy_protocol.Calculations.Interest.{
  calc_expected_total_stable_debt, calc_compounded_interest, calc_expected_liquidity_index,
  calc_expected_ltoken_balance, calc_expected_reserve_normalized_debt,
  calc_expected_reserve_normalized_income, calc_expected_scaled_ltoken_balance,
  calc_expected_stable_debt_token_balance, calc_expected_total_variable_debt,
  calc_expected_variable_borrow_index, calc_expected_variable_debt_token_balance,
  calc_linear_interest, compounded,
}
use palmy_protocol.Calculations.Rates.{
  calc_expected_interest_rates, calc_expected_utilization_rate, borrow_rates,
  calc_expected_overall_borrow_rate, rates_of,
}
use palmy_protocol.Math.{ray_div, half_percentage, half_ray, percent_mul, ray_mul, wad_to_ray}
use palmy_protocol.Calculations.User.{calc_expected_user_data_after_deposit}
use palmy_protocol.Examples.Rates.{reserve}
use palmy_protocol.Scenario.{
  RawReserve, RawUser, Tx, ContractReceipt, TestEnv, Outcome, passed, pure, continue, ◌>>=◌,
}
use palmy_protocol.Scenario.Data.{
  get_reserve_address_from_symbol, convert_to_currency_decimals, get_contracts_data, data_of,
  get_reserve_data, get_user_data, get_ltoken_user_data, get_tx_cost_and_timestamp,
}
use palmy_protocol.Scenario.Compare.{
  almost_equal, reserve_checks, user_checks, assert_all, expect_equal,
}
use palmy_protocol.Scenario.Runs.{Reads}
use palmy_protocol.Scenario.Steps.{deposit, withdraw, submit, transact, expect_reverted}
use palmy_protocol.Scenario.Steps.Refinement.{passed-Refines, IsRefused, passed-IsRefused}
use palmy_protocol.Scenario.Steps.Drift.{Conserves, passed-Conserves}
use palmy_protocol.Scenario.Steps.Story.{IsChronological, index_of, perform_all, story-index}
use palmy_protocol.Scenario.Steps.Engine.{Args, Action, deposit_action, execute_action}
use palmy_protocol.Scenario.Steps.Engine.Silent.{silent-Reads}
use palmy_protocol.Scenario.Steps.Requests.{Request, deposits, withdraws, perform, Refines}

abbrev token : ℤ
token = pos (10 ^ 18)

abbrev empty_reserve : ReserveData
empty_reserve = record {
  address = "";
  symbol = "";
  decimals = pos 0;
  total_liquidity = pos 0;
  available_liquidity = pos 0;
  total_stable_debt = pos 0;
  total_variable_debt = pos 0;
  principal_stable_debt = pos 0;
  scaled_variable_debt = pos 0;
  average_stable_borrow_rate = pos 0;
  variable_borrow_rate = pos 0;
  stable_borrow_rate = pos 0;
  utilization_rate = pos 0;
  liquidity_index = pos 0;
  variable_borrow_index = pos 0;
  ltoken_address = "";
  market_stable_rate = pos 0;
  last_update_timestamp = pos 0;
  total_stable_debt_last_updated = pos 0;
  liquidity_rate = pos 0;
}

abbrev empty_user : UserReserveData
empty_user = record {
  scaled_ltoken_balance = pos 0;
  current_ltoken_balance = pos 0;
  current_stable_debt = pos 0;
  current_variable_debt = pos 0;
  principal_stable_debt = pos 0;
  scaled_variable_debt = pos 0;
  liquidity_rate = pos 0;
  stable_borrow_rate = pos 0;
  stable_rate_last_updated = pos 0;
  usage_as_collateral_enabled = false;
  wallet_balance = pos 0;
  variable_borrow_index = pos 0;
  principal_variable_debt = pos 0;
}

-- The reserve with an amount in it.
abbrev raw_with : ℤ → RawReserve
raw_with amount = record {
  available_liquidity = amount;
  total_stable_debt = pos 0;
  total_variable_debt = pos 0;
  liquidity_rate = pos 0;
  variable_borrow_rate = pos 0;
  stable_borrow_rate = pos (39 * 10 ^ 24);
  average_stable_borrow_rate = pos 0;
  liquidity_index = pos (10 ^ 27);
  variable_borrow_index = pos (10 ^ 27);
  last_update_timestamp = pos 1600000000;
  ltoken_address = "0x02";
  stable_debt_token_address = "0x03";
  variable_debt_token_address = "0x04";
  principal_stable_debt = pos 0;
  total_stable_debt_last_updated = pos 0;
  scaled_variable_debt = pos 0;
  market_borrow_rate = pos (39 * 10 ^ 24);
  symbol = "DAI";
  decimals = 18;
}

abbrev raw_user_with : ℤ → Bool → RawUser
raw_user_with balance enabled = record {
  current_ltoken_balance = balance;
  current_stable_debt = pos 0;
  current_variable_debt = pos 0;
  principal_stable_debt = pos 0;
  scaled_variable_debt = pos 0;
  stable_borrow_rate = pos 0;
  liquidity_rate = pos 0;
  stable_rate_last_updated = pos 0;
  usage_as_collateral_enabled = enabled;
}

-- The chain before the deposit (false) and after it (true).
abbrev deposited : Bool → ℤ
deposited false = pos 0
deposited true = token

abbrev wallet : Bool → ℤ
wallet false = pos (3 * 10 ^ 18)
wallet true = pos (2 * 10 ^ 18)

abbrev receipt : ContractReceipt
receipt = record {
  block_number = some 7;
  transaction_hash = some "0xf7";
  cumulative_gas_used = some 21000;
}

-- Deposits are accepted once, everything else is refused.
abbrev answer : Bool → String → Tx → Option ContractReceipt × Bool
answer false sender (Tx.deposit asset amount on_behalf_of value) = (some receipt, true)
answer w sender tx = (none, w)

abbrev symbol_address : String → Option String
symbol_address symbol = some "0x01"

abbrev chain : TestEnv Bool
chain = record {
  reserves_params = ("DAI", reserve) ∷ [];
  skip_integrity_check = false;
  no_reserve = empty_reserve;
  no_user = empty_user;
  pool = "0x05";
  db_address = symbol_address;
  parse_units = λ amount decimals. some (pos (read_digits 0 amount * 10 ^ decimals));
  token_decimals = λ w asset. 18;
  raw_reserve = λ w asset. raw_with (deposited w);
  raw_user = λ w asset user. raw_user_with (deposited w) w;
  scaled_balance_of = λ w ltoken user. deposited w;
  balance_of = λ w asset owner. wallet w;
  borrow_allowance = λ w debt_token owner receiver. pos 0;
  latest_timestamp = λ w. pos 1600000000;
  block_timestamp = λ w block. pos 1600000000;
  gas_price = λ w hash. pos 1;
  current_block = λ w. none;
  evm = λ call w. w;
  send = answer;
  reverts_with = λ w sender tx message. false;
}

abbrev request : Request
request = deposits "DAI" "1" "0xd1" "0xd1" none

passes : perform ⦃env = chain⦄ ⦃lib = exact_lib⦄ request "success" false ≡ (passed tt, true)
unfolding deposit ◌>>=◌ get_reserve_address_from_symbol convert_to_currency_decimals
    get_contracts_data get_tx_cost_and_timestamp calc_expected_reserve_data_after_deposit with_rates
    lookup expect_equal reserve_checks ◌+ℤ◌ with_utilization ◌*ℤ◌
    calc_expected_user_data_after_deposit ◌-ℤ◌ almost_equal assert_all user_checks data_of
    get_ltoken_user_data get_reserve_data get_user_data expect_reverted submit transact
    calc_expected_total_stable_debt calc_compounded_interest calc_expected_liquidity_index
    calc_expected_ltoken_balance calc_expected_reserve_normalized_debt
    calc_expected_reserve_normalized_income calc_expected_scaled_ltoken_balance
    calc_expected_stable_debt_token_balance calc_expected_total_variable_debt
    calc_expected_variable_borrow_index calc_expected_variable_debt_token_balance
    calc_linear_interest compounded calc_expected_interest_rates calc_expected_utilization_rate
    borrow_rates calc_expected_overall_borrow_rate rates_of ray_div half_percentage half_ray
    percent_mul ray_mul wad_to_ray
passes = refl

passed-Refines_example : Refines ⦃env = chain⦄ ⦃lib = exact_lib⦄ request false true
passed-Refines_example =
    passed-Refines ⦃env = chain⦄ ⦃lib = exact_lib⦄ exact_lib-IsTruncating request false true refl
      passes

passed-Conserves_example :
    Conserves ⦃lib = exact_lib⦄ exact_lib-IsTruncating ⦃env = chain⦄ request false true
passed-Conserves_example =
    passed-Conserves ⦃lib = exact_lib⦄ exact_lib-IsTruncating ⦃env = chain⦄ request false true refl
      refl passes

chain-IsChronological : IsChronological Bool ⦃env = chain⦄ ⦃lib = exact_lib⦄
unfolding get_reserve_data
chain-IsChronological = record {
  past = λ w sent sender asset tx receipt block accepted mined. record {
    liquidity_index = omega arith;
    variable_borrow_index = omega arith;
    liquidity_rate = omega arith;
    variable_borrow_rate = omega arith;
    last_update_timestamp = omega arith;
    not_after = omega arith;
  };
}

story : perform_all ⦃env = chain⦄ ⦃lib = exact_lib⦄ (request ∷ []) false ≡ (passed tt, true)
unfolding ◌>>=◌
story = ap (λ (r : Outcome (Unit {0}) × Bool). continue r.0 (λ _. pure tt) r.1) passes

story-index_example :
    index_of ⦃env = chain⦄ ⦃lib = exact_lib⦄ false "0x01"
    ≤ℤ index_of ⦃env = chain⦄ ⦃lib = exact_lib⦄ true "0x01" +ℤ pos 3
story-index_example =
    story-index ⦃lib = exact_lib⦄ exact_lib-IsTruncating ⦃env = chain⦄ chain-IsChronological "DAI"
      "0x01" (request ∷ []) false true refl refl (refl, tt) story

abbrev withdrawal : Request
withdrawal = withdraws "DAI" "-1" "0xd1"

is_refused : perform ⦃env = chain⦄ ⦃lib = exact_lib⦄ withdrawal "revert" true ≡ (passed tt, true)
unfolding withdraw ◌>>=◌ get_reserve_address_from_symbol get_contracts_data
is_refused = refl

passed-IsRefused_example : IsRefused ⦃env = chain⦄ ⦃lib = exact_lib⦄ withdrawal true true
passed-IsRefused_example =
    passed-IsRefused ⦃env = chain⦄ ⦃lib = exact_lib⦄ withdrawal true true is_refused

abbrev arguments : Args
arguments = record {
  reserve = some "DAI";
  user = some "0";
  borrow_rate_mode = none;
  amount = some "1";
  send_value = none;
  on_behalf_of = none;
  to_user = none;
  time_travel = none;
  use_as_collateral = none;
  target = none;
}

-- An action with two misprints to choose from.
abbrev named : (name expected : String) → Action
named name expected = record {
  name = some name;
  args = some arguments;
  expected = some expected;
  revert_message = none;
}

abbrev users : List String
users = "0xd1" ∷ []

silent-Reads_example :
    Reads {W = Bool}
      (execute_action ⦃env = chain⦄ ⦃lib = exact_lib⦄ users (named "deposit" "succes"))
silent-Reads_example =
    silent-Reads ⦃env = chain⦄ ⦃lib = exact_lib⦄ users (named "deposit" "succes") "deposit" "succes"
      deposit_action refl refl refl refl refl
