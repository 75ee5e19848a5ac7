-- ===== src/Scenario/Data.antt =====
-- What the suite reads from the chain: test-suites/test-palmy/helpers/utils/helpers.ts, the reading
-- functions of actions.ts, `convertToCurrencyDecimals` of helpers/contracts-helpers.ts and
-- `advanceTimeAndBlock` of helpers/misc-utils.ts.
use palmy_protocol.Prelude.{ℕ, String, Option, none, some, if◌then◌else◌, str_eq}
use palmy_protocol.Prelude.Int.{ℤ, pos, ◌+ℤ◌, ◌*ℤ◌, eq_ℤ}
use palmy_protocol.Number.{BigNumberLib}
use palmy_protocol.Math.{ray_div, one_year}
use palmy_protocol.Calculations.{ReserveData, UserReserveData}
use palmy_protocol.Scenario.{
  passed, TestEnv, Suite, RawReserve, ContractReceipt, increase_time, mine,
  set_next_block_timestamp, pure, throw, read, invalid_units, no_block_number, ◌>>=◌, defined,
}

-- Data at a time.
pub record ContractsData : Type 0 where
  pub reserve_data : ReserveData
  pub user_data : UserReserveData
  pub timestamp : ℤ

pub record TxTimes : Type 0 where
  pub tx_cost : ℤ
  pub tx_timestamp : ℤ

abbrev pub or_units : {W : Type 0} → String → Option ℤ → Suite W ℤ
or_units amount none = throw (invalid_units amount)
or_units amount (some units) = pure units

-- `walletBalance` is that of the sender where there is one.
abbrev pub or_user : Option String → String → String
or_user none user = user
or_user (some sender) user = if str_eq sender "" then user else sender

abbrev pub total_of : RawReserve → ℤ
total_of raw = raw.available_liquidity +ℤ raw.total_stable_debt +ℤ raw.total_variable_debt

module _ {W : Type 0} ⦃env : TestEnv W⦄ where
  -- a symbol that the database does not have is a TypeError
  unfoldable pub get_reserve_address_from_symbol : String → Suite W String
  get_reserve_address_from_symbol symbol = defined (env.db_address symbol)

  unfoldable pub convert_to_currency_decimals : (token amount : String) → Suite W ℤ
  convert_to_currency_decimals token amount = do
    decimals ← read (λ w. env.token_decimals w token)
    or_units amount (env.parse_units amount decimals)

  unfoldable pub get_ltoken_user_data : W → (reserve user : String) → ℤ
  get_ltoken_user_data w reserve user =
      env.scaled_balance_of w (env.raw_reserve w reserve).ltoken_address user

  -- Two properties of the interface are not set: they stay as in the empty object.
  unfoldable pub get_user_data : W → (reserve user : String) → Option String → UserReserveData
  unfolding get_ltoken_user_data
  get_user_data w reserve user sender =
      let raw = env.raw_user w reserve user in
      record env.no_user {
        scaled_ltoken_balance = get_ltoken_user_data w reserve user;
        current_ltoken_balance = raw.current_ltoken_balance;
        current_stable_debt = raw.current_stable_debt;
        current_variable_debt = raw.current_variable_debt;
        principal_stable_debt = raw.principal_stable_debt;
        scaled_variable_debt = raw.scaled_variable_debt;
        stable_borrow_rate = raw.stable_borrow_rate;
        liquidity_rate = raw.liquidity_rate;
        usage_as_collateral_enabled = raw.usage_as_collateral_enabled;
        stable_rate_last_updated = raw.stable_rate_last_updated;
        wallet_balance = env.balance_of w reserve (or_user sender user);
      }

module _ {W : Type 0} ⦃env : TestEnv W⦄ ⦃lib : BigNumberLib⦄ where
  unfoldable pub get_reserve_data : W → String → ReserveData
  get_reserve_data w reserve =
      let raw = env.raw_reserve w reserve in
      record {
        total_liquidity = total_of raw;
        utilization_rate =
            if eq_ℤ (total_of raw) (pos 0)
            then pos 0
            else ray_div (raw.total_stable_debt +ℤ raw.total_variable_debt) (total_of raw);
        available_liquidity = raw.available_liquidity;
        total_stable_debt = raw.total_stable_debt;
        total_variable_debt = raw.total_variable_debt;
        liquidity_rate = raw.liquidity_rate;
        variable_borrow_rate = raw.variable_borrow_rate;
        stable_borrow_rate = raw.stable_borrow_rate;
        average_stable_borrow_rate = raw.average_stable_borrow_rate;
        liquidity_index = raw.liquidity_index;
        variable_borrow_index = raw.variable_borrow_index;
        last_update_timestamp = raw.last_update_timestamp;
        total_stable_debt_last_updated = raw.total_stable_debt_last_updated;
        principal_stable_debt = raw.principal_stable_debt;
        scaled_variable_debt = raw.scaled_variable_debt;
        address = reserve;
        ltoken_address = raw.ltoken_address;
        symbol = raw.symbol;
        decimals = pos raw.decimals;
        market_stable_rate = raw.market_borrow_rate;
      }

  -- The three reads of the same state.
  unfoldable pub data_of : W → (reserve user : String) → Option String → ContractsData
  unfolding get_reserve_data get_user_data
  data_of w reserve user sender = record {
    reserve_data = get_reserve_data w reserve;
    user_data = get_user_data w reserve user sender;
    timestamp = env.latest_timestamp w;
  }

  unfoldable pub get_contracts_data :
      (reserve user : String) → Option String → Suite W ContractsData
  unfolding data_of
  get_contracts_data reserve user sender = read (λ w. data_of w reserve user sender)

module _ {W : Type 0} ⦃env : TestEnv W⦄ where
  -- if (!tx.blockNumber || !tx.transactionHash || !tx.cumulativeGasUsed) { throw … }
  abbrev pub tx_times : Option ℕ → Option String → Option ℕ → Suite W TxTimes
  tx_times none hash gas = throw no_block_number
  tx_times (some block) none gas = throw no_block_number
  tx_times (some block) (some hash) none = throw no_block_number
  tx_times (some block) (some hash) (some gas) = read (λ w. record {
    tx_cost = pos gas *ℤ env.gas_price w hash;
    tx_timestamp = env.block_timestamp w block;
  })

  unfoldable pub get_tx_cost_and_timestamp : ContractReceipt → Suite W TxTimes
  get_tx_cost_and_timestamp tx = tx_times tx.block_number tx.transaction_hash tx.cumulative_gas_used

  -- The calls that the state of the chain asks for.
  unfoldable pub advance_time_and_block : ℤ → Suite W (Unit {0})
  advance_time_and_block forward_time w = elim (env.current_block w) [
    | none ↦ (
      passed tt,
      env.evm (increase_time (pos 15)) (env.evm mine (env.evm (increase_time forward_time) w)),
    )
    | some current_time ↦ (
      passed tt,
      env.evm mine (env.evm (set_next_block_timestamp (current_time +ℤ forward_time)) w),
    )
  ]

module _ {W : Type 0} ⦃env : TestEnv W⦄ ⦃lib : BigNumberLib⦄ where
  -- if (timeTravel) { … }: the text is a number of days.
  unfoldable pub travel : Option String → Suite W (Unit {0})
  unfolding advance_time_and_block
  travel none = pure tt
  travel (some days) =
      if str_eq days ""
      then pure tt
      else advance_time_and_block (lib.div (lib.of_string days *ℤ pos one_year) (pos 365))
