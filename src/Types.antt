-- ===== src/Types.antt =====
-- The data of helpers/types.ts that the modelled code passes on: networks, pools, rate modes and the
-- parameters of a reserve. A number that the source keeps as a decimal string stays a string.
use palmy_protocol.Prelude.{String, Bool, true, false}

-- eEthereumNetwork and eOasysNetwork
pub data Network : Type 0 where
  buidlerevm coverage hardhat tenderly oasys testnet : Network

pub data PalmyPools : Type 0 where
  proto : PalmyPools

pub data RateMode : Type 0 where
  no_mode stable variable : RateMode

abbrev pub is_stable : RateMode → Bool
is_stable stable = true
is_stable no_mode = false
is_stable variable = false

pub record InterestRateStrategyParams : Type 0 where
  pub name : String
  pub optimal_utilization_rate : String
  pub base_variable_borrow_rate : String
  pub variable_rate_slope1 : String
  pub variable_rate_slope2 : String
  pub stable_rate_slope1 : String
  pub stable_rate_slope2 : String

-- IReserveParams, with the two interfaces that it extends
pub record ReserveParams : Type 0 where
  pub borrowing_enabled : Bool
  pub stable_borrow_rate_enabled : Bool
  pub reserve_decimals : String
  pub base_ltv_as_collateral : String
  pub liquidation_threshold : String
  pub liquidation_bonus : String
  pub ltoken_impl : String
  pub reserve_factor : String
  pub strategy : InterestRateStrategyParams
