-- ===== src/Scenario.antt =====
-- The scenario suite (test-suites/test-palmy/helpers): what it asks of the chain, and how its
-- functions run. `W` is the state of the chain with the contracts on it; the record `TestEnv` has what
-- the chain answers and does. A function of the suite is an action on that state which may throw.
pub mod Runs
pub mod Data
pub mod Compare
pub mod Steps
use palmy_protocol.Prelude.{ℕ, String, Bool, true, false, Option, none, some, List, Dict, ◌≡◌, refl}
use palmy_protocol.Prelude.Int.{ℤ}
use palmy_protocol.Types.{ReserveParams}
use palmy_protocol.Calculations.{ReserveData, UserReserveData}

-- What the data provider, the tokens and the rate oracle tell of a reserve.
pub record RawReserve : Type 0 where
  pub available_liquidity : ℤ
  pub total_stable_debt : ℤ
  pub total_variable_debt : ℤ
  pub liquidity_rate : ℤ
  pub variable_borrow_rate : ℤ
  pub stable_borrow_rate : ℤ
  pub average_stable_borrow_rate : ℤ
  pub liquidity_index : ℤ
  pub variable_borrow_index : ℤ
  pub last_update_timestamp : ℤ
  pub ltoken_address : String
  pub stable_debt_token_address : String
  pub variable_debt_token_address : String
  -- of the debt tokens
  pub principal_stable_debt : ℤ
  pub total_stable_debt_last_updated : ℤ
  pub scaled_variable_debt : ℤ
  -- of the rate oracle and of the token
  pub market_borrow_rate : ℤ
  pub symbol : String
  pub decimals : ℕ

-- What the data provider tells of a user in a reserve.
pub record RawUser : Type 0 where
  pub current_ltoken_balance : ℤ
  pub current_stable_debt : ℤ
  pub current_variable_debt : ℤ
  pub principal_stable_debt : ℤ
  pub scaled_variable_debt : ℤ
  pub stable_borrow_rate : ℤ
  pub liquidity_rate : ℤ
  pub stable_rate_last_updated : ℤ
  pub usage_as_collateral_enabled : Bool

-- The transactions that the suite sends. A rate mode is the decimal digit that the suite passes.
pub data Tx : Type 0 where
  mint : (token : String) (amount : ℤ) → Tx
  approve : (token spender : String) (amount : ℤ) → Tx
  approve_delegation : (debt_token receiver : String) (amount : ℤ) → Tx
  deposit : (reserve : String) (amount : ℤ) (on_behalf_of : String) (value : Option ℤ) → Tx
  withdraw : (reserve : String) (amount : ℤ) (to : String) → Tx
  borrow : (reserve : String) (amount : ℤ) (mode on_behalf_of : String) → Tx
  repay : (reserve : String) (amount : ℤ) (mode on_behalf_of : String) (value : Option ℤ) → Tx
  set_user_use_reserve_as_collateral : (reserve : String) (use_as_collateral : Bool) → Tx
  swap_borrow_rate_mode : (reserve mode : String) → Tx
  rebalance_stable_borrow_rate : (reserve user : String) → Tx

-- A field that is missing, 0 or empty is `none`.
pub record ContractReceipt : Type 0 where
  pub block_number : Option ℕ
  pub transaction_hash : Option String
  pub cumulative_gas_used : Option ℕ

-- Calls of the provider: evm_increaseTime, evm_mine, evm_setNextBlockTimestamp.
pub data EvmCall : Type 0 where
  increase_time : ℤ → EvmCall
  mine : EvmCall
  set_next_block_timestamp : ℤ → EvmCall

pub data Failure : Type 0 where
  action_name_missing : Failure
  invalid_reserve : Failure
  invalid_user : (reserve : String) → Failure
  result_required : (name : String) → Failure
  invalid_amount : (reserve : String) → Failure
  invalid_collateral : (reserve : String) → Failure
  target_missing : Failure
  invalid_action : (name : String) → Failure
  type_error : Failure
  invalid_units : (amount : String) → Failure
  no_block_number : Failure
  -- a transaction was refused that should succeed, or the other way round
  reverted : Tx → Failure
  not_reverted : Tx → Failure
  -- expect(…) of a property of the data, of the message of a refusal, of an allowance
  unexpected : (key : String) → Failure
  wrong_message : (message : String) → Failure
  wrong_allowance : Failure

pub data Outcome (A : Type 0) : Type 0 where
  passed : A → Outcome A
  failed : Failure → Outcome A

pub record TestEnv (W : Type 0) : Type 0 where
  -- configuration.reservesParams of calculations.ts, configuration.skipIntegrityCheck of actions.ts
  pub reserves_params : Dict ReserveParams
  pub skip_integrity_check : Bool
  -- the data of an object without any property
  pub no_reserve : ReserveData
  pub no_user : UserReserveData
  -- pool.address
  pub pool : String
  -- getDb().get(`${symbol}.${network}`).value(), with the address in it
  pub db_address : String → Option String
  -- ethers.utils.parseUnits(amount, decimals)
  pub parse_units : String → ℕ → Option ℤ
  pub token_decimals : W → String → ℕ
  pub raw_reserve : W → String → RawReserve
  pub raw_user : W → (reserve user : String) → RawUser
  pub scaled_balance_of : W → (ltoken user : String) → ℤ
  pub balance_of : W → (token owner : String) → ℤ
  pub borrow_allowance : W → (debt_token owner receiver : String) → ℤ
  pub latest_timestamp : W → ℤ
  -- the timestamp of a block, and the gas price of a transaction
  pub block_timestamp : W → ℕ → ℤ
  pub gas_price : W → String → ℤ
  -- the block with the current number, by its timestamp
  pub current_block : W → Option ℤ
  pub evm : EvmCall → W → W
  -- a transaction: its receipt, or none if it is refused
  pub send : W → (sender : String) → Tx → Option ContractReceipt × W
  -- the message of the refusal has this text
  pub reverts_with : W → (sender : String) → Tx → String → Bool

abbrev pub Suite : Type 0 → Type 0 → Type 0
Suite W A = W → Outcome A × W

module _ {W : Type 0} where
  abbrev pub pure : {A : Type 0} → A → Suite W A
  pure a w = (passed a, w)

  abbrev pub throw : {A : Type 0} → Failure → Suite W A
  throw e w = (failed e, w)

  abbrev pub read : {A : Type 0} → (W → A) → Suite W A
  read f w = (passed (f w), w)

  abbrev pub continue : {A B : Type 0} → Outcome A → (A → Suite W B) → Suite W B
  continue (passed a) f w = f a w
  continue (failed e) f w = (failed e, w)

  infixl 5 ◌>>=◌ ◌>>◌
  unfoldable pub ◌>>=◌ : {A B : Type 0} → Suite W A → (A → Suite W B) → Suite W B
  ◌>>=◌ m f w = continue (m w).0 f (m w).1

  abbrev pub ◌>>◌ : {A B : Type 0} → Suite W A → Suite W B → Suite W B
  m >> k = m >>= λ _. k

  abbrev pub assert : Bool → Failure → Suite W (Unit {0})
  assert true e = pure tt
  assert false e = throw e

  -- a property of a value that may be undefined
  abbrev pub defined : {A : Type 0} → Option A → Suite W A
  defined none = throw type_error
  defined (some a) = pure a
