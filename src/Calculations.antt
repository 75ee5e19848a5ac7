-- ===== src/Calculations.antt =====
-- test-suites/test-palmy/helpers/utils/calculations.ts: the expected state of a reserve and of a user
-- after each action on the lending pool, as the scenario suite compares it with the contracts.
-- The data are the interfaces of test-suites/test-palmy/helpers/utils/interfaces/index.ts. An amount
-- argument is the integer that its decimal string denotes.
pub mod Interest
pub mod Rates
pub mod Reserve
pub mod Loans
pub mod User
pub mod Actions
pub mod Accounting
pub mod Conservation
pub mod Extremes
pub mod Configured
pub mod Growth
pub mod Indices
use palmy_protocol.Prelude.{String, Bool}
use palmy_protocol.Prelude.Int.{ℤ}

pub record UserReserveData : Type 0 where
  pub scaled_ltoken_balance : ℤ
  pub current_ltoken_balance : ℤ
  pub current_stable_debt : ℤ
  pub current_variable_debt : ℤ
  pub principal_stable_debt : ℤ
  pub scaled_variable_debt : ℤ
  pub liquidity_rate : ℤ
  pub stable_borrow_rate : ℤ
  pub stable_rate_last_updated : ℤ
  pub usage_as_collateral_enabled : Bool
  pub wallet_balance : ℤ
  -- not declared by the interface, but set through its index signature
  pub variable_borrow_index : ℤ
  pub principal_variable_debt : ℤ

pub record ReserveData : Type 0 where
  pub address : String
  pub symbol : String
  pub decimals : ℤ
  pub total_liquidity : ℤ
  pub available_liquidity : ℤ
  pub total_stable_debt : ℤ
  pub total_variable_debt : ℤ
  pub principal_stable_debt : ℤ
  pub scaled_variable_debt : ℤ
  pub average_stable_borrow_rate : ℤ
  pub variable_borrow_rate : ℤ
  pub stable_borrow_rate : ℤ
  pub utilization_rate : ℤ
  pub liquidity_index : ℤ
  pub variable_borrow_index : ℤ
  pub ltoken_address : String
  pub market_stable_rate : ℤ
  pub last_update_timestamp : ℤ
  pub total_stable_debt_last_updated : ℤ
  pub liquidity_rate : ℤ
