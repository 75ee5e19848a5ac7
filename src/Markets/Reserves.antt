-- ===== src/Markets/Reserves.antt =====
-- markets/palmy/rateStrategies.ts, reservesConfigs.ts and the ReservesConfig of index.ts. A number that
-- the source computes with oneRay and prints by toFixed stands as the digits that are printed.
use palmy_protocol.Prelude.{true, false, [], ◌∷◌, Dict}
use palmy_protocol.Types.{InterestRateStrategyParams, ReserveParams}

abbrev pub rate_strategy_stable : InterestRateStrategyParams
rate_strategy_stable = record {
  name = "rateStrategyStable";
  optimal_utilization_rate = "900000000000000000000000000";
  base_variable_borrow_rate = "0";
  variable_rate_slope1 = "40000000000000000000000000";
  variable_rate_slope2 = "600000000000000000000000000";
  stable_rate_slope1 = "20000000000000000000000000";
  stable_rate_slope2 = "600000000000000000000000000";
}

abbrev pub rate_strategy_wbtc : InterestRateStrategyParams
rate_strategy_wbtc = record {
  name = "rateStrategyWBTC";
  optimal_utilization_rate = "650000000000000000000000000";
  base_variable_borrow_rate = "0";
  variable_rate_slope1 = "70000000000000000000000000";
  variable_rate_slope2 = "1000000000000000000000000000";
  stable_rate_slope1 = "100000000000000000000000000";
  stable_rate_slope2 = "600000000000000000000000000";
}

abbrev pub rate_strategy_weth : InterestRateStrategyParams
rate_strategy_weth = record {
  name = "rateStrategyWETH";
  optimal_utilization_rate = "650000000000000000000000000";
  base_variable_borrow_rate = "0";
  variable_rate_slope1 = "80000000000000000000000000";
  variable_rate_slope2 = "1000000000000000000000000000";
  stable_rate_slope1 = "100000000000000000000000000";
  stable_rate_slope2 = "1000000000000000000000000000";
}

abbrev pub rate_strategy_woas : InterestRateStrategyParams
rate_strategy_woas = record {
  name = "rateStrategyWOAS";
  optimal_utilization_rate = "450000000000000000000000000";
  base_variable_borrow_rate = "0";
  variable_rate_slope1 = "70000000000000000000000000";
  variable_rate_slope2 = "3000000000000000000000000000";
  stable_rate_slope1 = "100000000000000000000000000";
  stable_rate_slope2 = "3000000000000000000000000000";
}

abbrev pub rate_strategy_stable_two : InterestRateStrategyParams
rate_strategy_stable_two = record {
  name = "rateStrategyStableTwo";
  optimal_utilization_rate = "800000000000000000000000000";
  base_variable_borrow_rate = "0";
  variable_rate_slope1 = "40000000000000000000000000";
  variable_rate_slope2 = "750000000000000000000000000";
  stable_rate_slope1 = "20000000000000000000000000";
  stable_rate_slope2 = "750000000000000000000000000";
}

abbrev pub rate_strategy_mchc : InterestRateStrategyParams
rate_strategy_mchc = record {
  name = "rateStrategyMCHC";
  optimal_utilization_rate = "450000000000000000000000000";
  base_variable_borrow_rate = "0";
  variable_rate_slope1 = "70000000000000000000000000";
  variable_rate_slope2 = "3000000000000000000000000000";
  stable_rate_slope1 = "100000000000000000000000000";
  stable_rate_slope2 = "3000000000000000000000000000";
}

abbrev pub strategy_usdc : ReserveParams
strategy_usdc = record {
  strategy = rate_strategy_stable;
  base_ltv_as_collateral = "8000";
  liquidation_threshold = "8500";
  liquidation_bonus = "10500";
  borrowing_enabled = true;
  stable_borrow_rate_enabled = false;
  reserve_decimals = "6";
  ltoken_impl = "LToken";
  reserve_factor = "1000";
}

abbrev pub strategy_usdt : ReserveParams
strategy_usdt = record {
  strategy = rate_strategy_stable;
  base_ltv_as_collateral = "8000";
  liquidation_threshold = "8500";
  liquidation_bonus = "10500";
  borrowing_enabled = true;
  stable_borrow_rate_enabled = false;
  reserve_decimals = "18";
  ltoken_impl = "LToken";
  reserve_factor = "1000";
}

abbrev pub strategy_wbtc : ReserveParams
strategy_wbtc = record {
  strategy = rate_strategy_wbtc;
  base_ltv_as_collateral = "7000";
  liquidation_threshold = "7500";
  liquidation_bonus = "11000";
  borrowing_enabled = true;
  stable_borrow_rate_enabled = false;
  reserve_decimals = "18";
  ltoken_impl = "LToken";
  reserve_factor = "2000";
}

abbrev pub strategy_dai_for_test : ReserveParams
strategy_dai_for_test = record {
  strategy = rate_strategy_stable_two;
  base_ltv_as_collateral = "7500";
  liquidation_threshold = "8000";
  liquidation_bonus = "10500";
  borrowing_enabled = true;
  stable_borrow_rate_enabled = true;
  reserve_decimals = "18";
  ltoken_impl = "LToken";
  reserve_factor = "1000";
}

abbrev pub strategy_weth : ReserveParams
strategy_weth = record {
  strategy = rate_strategy_weth;
  base_ltv_as_collateral = "8000";
  liquidation_threshold = "8500";
  liquidation_bonus = "10500";
  borrowing_enabled = true;
  stable_borrow_rate_enabled = false;
  reserve_decimals = "18";
  ltoken_impl = "LToken";
  reserve_factor = "1000";
}

abbrev pub strategy_woas : ReserveParams
strategy_woas = record {
  strategy = rate_strategy_woas;
  base_ltv_as_collateral = "0";
  liquidation_threshold = "5500";
  liquidation_bonus = "11500";
  borrowing_enabled = true;
  stable_borrow_rate_enabled = false;
  reserve_decimals = "18";
  ltoken_impl = "LToken";
  reserve_factor = "2000";
}

abbrev pub strategy_mchc : ReserveParams
strategy_mchc = record {
  strategy = rate_strategy_mchc;
  base_ltv_as_collateral = "0";
  liquidation_threshold = "0";
  liquidation_bonus = "0";
  borrowing_enabled = true;
  stable_borrow_rate_enabled = false;
  reserve_decimals = "18";
  ltoken_impl = "LToken";
  reserve_factor = "2000";
}

-- PalmyConfig.ReservesConfig
abbrev pub palmy_reserves : Dict ReserveParams
palmy_reserves =
    ("WETH", strategy_weth)
    ∷ ("WOAS", strategy_woas)
    ∷ ("USDC", strategy_usdc)
    ∷ ("USDT", strategy_usdt)
    ∷ ("WBTC", strategy_wbtc)
    ∷ ("MCHC", strategy_mchc)
    ∷ []
