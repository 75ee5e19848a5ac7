-- ===== src/Markets.antt =====
-- markets/palmy/commons.ts and index.ts: the configuration of the Palmy market. An entry that is
-- undefined in the source is left out of its table. A number that the source computes with oneRay or
-- oneUsd stands as the digits that are printed.
pub mod Reserves
use palmy_protocol.Prelude.{[], ◌∷◌}
use palmy_protocol.Deploy.Market.{MarketConfig}

-- CommonsConfig, without Mocks and the empty ReservesConfig
abbrev pub commons_config : MarketConfig
commons_config = record {
  market_id = "Commons";
  ltoken_name_prefix = "Palmy interest bearing";
  stable_debt_token_name_prefix = "Palmy stable debt bearing";
  variable_debt_token_name_prefix = "Palmy variable debt bearing";
  symbol_prefix = "";
  provider_id = 0;
  mock_usd_price_in_wei = "5848466240000000";
  usd_address = "0x10F7Fc1F91Ba351f9C629c5947AD69bD03C05b96";
  nil_address = "0x0000000000000000000000000000000000000000";
  one_address = "0x0000000000000000000000000000000000000001";
  palmy_referral = "0";
  provider_registry_owner =
      ("buidlerevm", "")
      ∷ ("coverage", "")
      ∷ ("hardhat", "")
      ∷ ("tenderly", "0xB9062896ec3A615a4e4444DF183F0531a77218AE")
      ∷ ("testnet", "0x21AFfDf04c787EB34f6Eda911d67CbA5D75d7773")
      ∷ ("oasys", "0x21AFfDf04c787EB34f6Eda911d67CbA5D75d7773")
      ∷ [];
  lending_rate_oracle_rates_common =
      ("WETH", "30000000000000000000000000")
      ∷ ("WOAS", "39000000000000000000000000")
      ∷ ("USDT", "39000000000000000000000000")
      ∷ ("USDC", "39000000000000000000000000")
      ∷ ("WBTC", "30000000000000000000000000")
      ∷ [];
  lending_pool_configurator =
      ("buidlerevm", "0x0000000000000000000000000000000000000000")
      ∷ ("coverage", "0x0000000000000000000000000000000000000000")
      ∷ ("hardhat", "0x0000000000000000000000000000000000000000")
      ∷ ("tenderly", "0x0000000000000000000000000000000000000000")
      ∷ ("testnet", "0x0000000000000000000000000000000000000000")
      ∷ ("oasys", "0xBA55b646837190e293989643197D3ce3dDFe1Ab4")
      ∷ [];
  dia_aggregator =
      ("buidlerevm", [])
      ∷ ("coverage", [])
      ∷ ("hardhat", [])
      ∷ ("tenderly", [])
      ∷ (
        "testnet",
        ("WETH", "0x7C7dDDB4DD58300168DC652e2c2fB787B6f6aE54")
            ∷ ("WOAS", "0x5200000000000000000000000000000000000001")
            ∷ ("WBTC", "0xB9F1fb5c7dd67F3F249E42025E4255F402B535a0")
            ∷ ("USDC", "0xA36bb2502E4a8Af486ee99388b6033FBfc466a4f")
            ∷ [],
      )
      ∷ (
        "oasys",
        ("WETH", "0x5801E5a61164024Be2554248E33127c6ebC8C113")
            ∷ ("WOAS", "0x5200000000000000000000000000000000000001")
            ∷ ("WBTC", "0xdd30c42D57a0f14DD44c809F59836D57392FDbC9")
            ∷ ("USDC", "0x4D17C0609B77e456Fb98Ea99a62bCeF09adae32D")
            ∷ ("MCHC", "0x5B1CC635E524cAbb63a581c050C895534755F297")
            ∷ [],
      )
      ∷ [];
  pool_admin =
      ("testnet", "0x21AFfDf04c787EB34f6Eda911d67CbA5D75d7773")
      ∷ ("oasys", "0x21AFfDf04c787EB34f6Eda911d67CbA5D75d7773")
      ∷ [];
  pool_admin_index = 0;
  emergency_admin =
      ("testnet", "0x21AFfDf04c787EB34f6Eda911d67CbA5D75d7773")
      ∷ ("oasys", "0x8c44Be9aA5da85A6d0FC57afF12CE33CA2f01C6c")
      ∷ [];
  emergency_admin_index = 1;
  ltoken_domain_separator =
      ("buidlerevm", "0xbae024d959c6a022dc5ed37294cd39c141034b2ae5f02a955cce75c930a81bf5")
      ∷ ("coverage", "0x95b73a72c6ecf4ccbbba5178800023260bad8e75cdccdb8e4827a2977a37c820")
      ∷ ("hardhat", "0xbae024d959c6a022dc5ed37294cd39c141034b2ae5f02a955cce75c930a81bf5")
      ∷ ("tenderly", "")
      ∷ ("testnet", "")
      ∷ ("oasys", "")
      ∷ [];
  weth =
      ("buidlerevm", "")
      ∷ ("coverage", "")
      ∷ ("hardhat", "")
      ∷ ("tenderly", "0xc02aaa39b223fe8d0a0e5c4f27ead9083c756cc2")
      ∷ ("testnet", "")
      ∷ ("oasys", "")
      ∷ [];
  wrapped_native_token =
      ("buidlerevm", "")
      ∷ ("coverage", "")
      ∷ ("hardhat", "")
      ∷ ("tenderly", "0xc02aaa39b223fe8d0a0e5c4f27ead9083c756cc2")
      ∷ ("testnet", "0x5200000000000000000000000000000000000001")
      ∷ ("oasys", "0x5200000000000000000000000000000000000001")
      ∷ [];
  reserve_factor_treasury_address =
      ("buidlerevm", "0x464c71f6c2f760dda6093dcb91c24c39e5d6e18c")
      ∷ ("coverage", "0x464c71f6c2f760dda6093dcb91c24c39e5d6e18c")
      ∷ ("hardhat", "0x464c71f6c2f760dda6093dcb91c24c39e5d6e18c")
      ∷ ("tenderly", "0x464c71f6c2f760dda6093dcb91c24c39e5d6e18c")
      ∷ ("testnet", "0x21AFfDf04c787EB34f6Eda911d67CbA5D75d7773")
      ∷ ("oasys", "0x922E396E1bFD3FD9B3171324cEfD8bC82A5e6271")
      ∷ [];
  incentives_controller =
      ("buidlerevm", "0x0000000000000000000000000000000000000000")
      ∷ ("coverage", "0x0000000000000000000000000000000000000000")
      ∷ ("hardhat", "0x0000000000000000000000000000000000000000")
      ∷ ("tenderly", "0x0000000000000000000000000000000000000000")
      ∷ ("testnet", "0x00B0Bb2936aE698C2580f7044C4d8b49ac21DA62")
      ∷ ("oasys", "0x29C903EBEdAD12C813D4ce6f0fFfEd540d13Dc38")
      ∷ [];
  reserve_assets =
      ("buidlerevm", [])
      ∷ ("coverage", [])
      ∷ ("hardhat", [])
      ∷ ("tenderly", [])
      ∷ ("testnet", [])
      ∷ ("oasys", [])
      ∷ [];
  oracle_quote_currency = "USD";
  oracle_quote_unit = "100000000";
  staked_oas =
      ("buidlerevm", "0x0000000000000000000000000000000000000000")
      ∷ ("coverage", "0x0000000000000000000000000000000000000000")
      ∷ ("hardhat", "0x0000000000000000000000000000000000000000")
      ∷ ("tenderly", "0x0000000000000000000000000000000000000000")
      ∷ ("testnet", "0xA1C7de66b1eF4Da8dA3542D9Cb9C750107Dea479")
      ∷ ("oasys", "0x7bBd0c193Be214630F9489D6C7CD883ae3155701")
      ∷ [];
  oracle_sender_address =
      ("buidlerevm", "0x0000000000000000000000000000000000000000")
      ∷ ("coverage", "0x0000000000000000000000000000000000000000")
      ∷ ("hardhat", "0x0000000000000000000000000000000000000000")
      ∷ ("tenderly", "0x0000000000000000000000000000000000000000")
      ∷ ("testnet", "0x0000000000000000000000000000000000000000")
      ∷ ("oasys", "0x99c3bbb8e936c56bb4defd50b3f2ed3ff0b07f1b")
      ∷ [];
  oracle_price_key =
      ("buidlerevm", [])
      ∷ ("coverage", [])
      ∷ ("hardhat", [])
      ∷ ("tenderly", [])
      ∷ ("testnet", [])
      ∷ (
        "oasys",
        ("WETH", "0x4FE47F7E105547B9A614C8C538BF3CE9B031A1436C4C8B0389D361083C019650")
            ∷ ("WOAS", "0x5683FFA73EA2E859693C40468AD5B829C0D9828528BD8401FAFCC0675F472F18")
            ∷ ("WBTC", "0x617A8A9849153666D89D0F28F297E348EBAB0184C643F5DE260AE3EDA23A870E")
            ∷ ("USDC", "0xC70308B3A6D5F1C999CD393F5D3078413441854F0B68D28E9B375CE6F2893C5D")
            ∷ ("MCHC", "0xD66498633007E239AF2F4482F88AB0FF3C622A1C974FF6E9986062B02FB0B568")
            ∷ [],
      )
      ∷ [];
}

-- PalmyConfig, without Mocks; its ReservesConfig is `palmy_reserves`
abbrev pub palmy_config : MarketConfig
palmy_config = record {
  market_id = "Palmy genesis market";
  ltoken_name_prefix = commons_config.ltoken_name_prefix;
  stable_debt_token_name_prefix = commons_config.stable_debt_token_name_prefix;
  variable_debt_token_name_prefix = commons_config.variable_debt_token_name_prefix;
  symbol_prefix = commons_config.symbol_prefix;
  provider_id = 1;
  mock_usd_price_in_wei = commons_config.mock_usd_price_in_wei;
  usd_address = commons_config.usd_address;
  nil_address = commons_config.nil_address;
  one_address = commons_config.one_address;
  palmy_referral = commons_config.palmy_referral;
  provider_registry_owner = commons_config.provider_registry_owner;
  lending_rate_oracle_rates_common = commons_config.lending_rate_oracle_rates_common;
  lending_pool_configurator = commons_config.lending_pool_configurator;
  dia_aggregator = commons_config.dia_aggregator;
  pool_admin = commons_config.pool_admin;
  pool_admin_index = commons_config.pool_admin_index;
  emergency_admin = commons_config.emergency_admin;
  emergency_admin_index = commons_config.emergency_admin_index;
  ltoken_domain_separator = commons_config.ltoken_domain_separator;
  weth = commons_config.weth;
  wrapped_native_token = commons_config.wrapped_native_token;
  reserve_factor_treasury_address = commons_config.reserve_factor_treasury_address;
  incentives_controller = commons_config.incentives_controller;
  reserve_assets =
      ("buidlerevm", [])
      ∷ ("hardhat", [])
      ∷ ("coverage", [])
      ∷ ("tenderly", [])
      ∷ (
        "testnet",
        ("WETH", "0x7C7dDDB4DD58300168DC652e2c2fB787B6f6aE54")
            ∷ ("WOAS", "0x5200000000000000000000000000000000000001")
            ∷ ("WBTC", "0xB9F1fb5c7dd67F3F249E42025E4255F402B535a0")
            ∷ ("USDC", "0xA36bb2502E4a8Af486ee99388b6033FBfc466a4f")
            ∷ [],
      )
      ∷ (
        "oasys",
        ("WOAS", "0x5200000000000000000000000000000000000001")
            ∷ ("WETH", "0x5801E5a61164024Be2554248E33127c6ebC8C113")
            ∷ ("WBTC", "0xdd30c42D57a0f14DD44c809F59836D57392FDbC9")
            ∷ ("USDC", "0x4D17C0609B77e456Fb98Ea99a62bCeF09adae32D")
            ∷ ("MCHC", "0x5B1CC635E524cAbb63a581c050C895534755F297")
            ∷ [],
      )
      ∷ [];
  oracle_quote_currency = commons_config.oracle_quote_currency;
  oracle_quote_unit = commons_config.oracle_quote_unit;
  staked_oas = commons_config.staked_oas;
  oracle_sender_address = commons_config.oracle_sender_address;
  oracle_price_key = commons_config.oracle_price_key;
}
