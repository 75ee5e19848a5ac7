-- ===== src/Deploy/Getters/Pairs.antt =====
-- The pairs of a deployment of helpers/contracts-deployments.ts and a getter of
-- helpers/contracts-getters.ts for the contract that it makes.
use palmy_protocol.Prelude.{String, Bool, Option, List, ◌<>◌}
use palmy_protocol.Deploy.{Env, Exec}
use palmy_protocol.Deploy.Contracts.{
  deploy_chainsight_oracle, deploy_default_reserve_interest_rate_strategy,
  deploy_lending_pool_addresses_provider, deploy_lending_pool_addresses_provider_registry,
  deploy_lending_pool_collateral_manager, deploy_lending_pool_configurator,
  deploy_lending_rate_oracle, deploy_ltokens_and_rates_helper, deploy_mock_flash_loan_receiver,
  deploy_palmy_fallback_oracle, deploy_palmy_oracle, deploy_palmy_protocol_data_provider,
  deploy_price_aggregator_chainsight_impl, deploy_price_oracle, deploy_selfdestruct_transfer_mock,
  deploy_stable_and_variable_tokens_helper, deploy_stake_ui_helper, deploy_wallet_balancer_provider,
  deploy_weth_gateway,
}
use palmy_protocol.Deploy.Contracts.Libraries.{
  deploy_generic_logic, deploy_lending_pool, deploy_lending_pool_tmp, deploy_lending_pool_v4,
  deploy_reserve_logic_library,
}
use palmy_protocol.Deploy.Contracts.Tokens.{
  DebtTokenArgs, LTokenArgs, deploy_generic_ltoken_impl, deploy_generic_stable_debt_token,
  deploy_generic_variable_debt_token, deploy_mintable_erc20, deploy_mock_ltoken,
  deploy_mock_stable_debt_token, deploy_mock_variable_debt_token, deploy_weth_mocked,
}
use palmy_protocol.Deploy.Getters.{
  Contract, get_chainsight_oracle, get_generic_logic, get_interest_rate_strategy, get_lending_pool,
  get_lending_pool_addresses_provider, get_lending_pool_addresses_provider_registry,
  get_lending_pool_collateral_manager, get_lending_pool_collateral_manager_impl,
  get_lending_pool_configurator_impl, get_lending_pool_configurator_proxy, get_lending_pool_impl,
  get_lending_pool_tmp_impl, get_lending_pool_v4_impl, get_lending_rate_oracle, get_ltoken,
  get_ltokens_and_rates_helper, get_mintable_erc20, get_mock_flash_loan_receiver, get_mock_ltoken,
  get_mock_stable_debt_token, get_mock_variable_debt_token, get_palmy_fallback_oracle,
  get_palmy_oracle, get_palmy_protocol_data_provider, get_price_aggregator, get_price_oracle,
  get_reserve_logic, get_selfdestruct_transfer_mock, get_stable_and_variable_tokens_helper,
  get_stable_debt_token, get_stake_ui_helper, get_variable_debt_token, get_wallet_provider,
  get_weth_gateway, get_weth_mocked,
}

-- A deployment, with its arguments but the choice of a verification.
pub data Deployment : Type 0 where
  addresses_provider : String → String → Deployment
  addresses_provider_registry : String → Deployment
  configurator : Deployment
  configurator_impl : Deployment
  collateral_manager : Deployment
  collateral_manager_impl : Deployment
  lending_pool : Deployment
  lending_pool_impl : Deployment
  lending_pool_tmp : Deployment
  lending_pool_v4 : Deployment
  reserve_logic : Deployment
  generic_logic : String → Deployment
  price_oracle : Deployment
  fallback_oracle : String → Deployment
  palmy_oracle : String → String → String → Deployment
  lending_rate_oracle : String → Deployment
  chainsight_oracle : String → Deployment
  price_aggregator : String → Deployment
  data_provider : Deployment
  rate_strategy : List String → Deployment
  flash_loan_receiver : String → Deployment
  debt_tokens_helper : String → Deployment
  ltokens_helper : String → Deployment
  weth_gateway : List String → Deployment
  wallet_provider : Deployment
  selfdestruct_transfer : Deployment
  stake_ui : Deployment
  ltoken : Deployment
  stable_debt_token : Deployment
  variable_debt_token : Deployment
  mock_ltoken : LTokenArgs → Deployment
  mock_stable_debt_token : DebtTokenArgs → Deployment
  mock_variable_debt_token : DebtTokenArgs → Deployment
  mintable_erc20 : List String → Deployment
  weth_mocked : Deployment

-- The contract that a getter connects to, and the id that it reads.
abbrev pub factory_of : Deployment → String
factory_of (addresses_provider market_id owner) = "LendingPoolAddressesProvider"
factory_of (addresses_provider_registry owner) = "LendingPoolAddressesProviderRegistry"
factory_of configurator = "LendingPoolConfigurator"
factory_of configurator_impl = "LendingPoolConfigurator"
factory_of collateral_manager = "LendingPoolCollateralManager"
factory_of collateral_manager_impl = "LendingPoolCollateralManager"
factory_of lending_pool = "LendingPool"
factory_of lending_pool_impl = "LendingPool"
factory_of lending_pool_tmp = "LendingPool"
factory_of lending_pool_v4 = "LendingPool"
factory_of reserve_logic = "ReserveLogic"
factory_of (generic_logic logic) = "GenericLogic"
factory_of price_oracle = "PriceOracle"
factory_of (fallback_oracle owner) = "PalmyFallbackOracle"
factory_of (palmy_oracle base_currency unit owner) = "PalmyOracle"
factory_of (lending_rate_oracle owner) = "LendingRateOracle"
factory_of (chainsight_oracle symbol) = "ChainsightOracle"
factory_of (price_aggregator owner) = "PriceAggregatorAdapterChainsightImpl"
factory_of data_provider = "PalmyProtocolDataProvider"
factory_of (rate_strategy args) = "DefaultReserveInterestRateStrategy"
factory_of (flash_loan_receiver provider) = "MockFlashLoanReceiver"
factory_of (debt_tokens_helper owner) = "StableAndVariableTokensHelper"
factory_of (ltokens_helper owner) = "LTokensAndRatesHelper"
factory_of (weth_gateway args) = "WETHGateway"
factory_of wallet_provider = "WalletBalanceProvider"
factory_of selfdestruct_transfer = "SelfdestructTransfer"
factory_of stake_ui = "StakeUIHelper"
factory_of ltoken = "LToken"
factory_of stable_debt_token = "StableDebtToken"
factory_of variable_debt_token = "VariableDebtToken"
factory_of (mock_ltoken ltoken_args) = "MockLToken"
factory_of (mock_stable_debt_token debt_args) = "MockStableDebtToken"
factory_of (mock_variable_debt_token debt_args) = "MockVariableDebtToken"
factory_of (mintable_erc20 args) = "MintableERC20"
factory_of weth_mocked = "WETH9Mocked"

abbrev pub id_of : Deployment → String
id_of (addresses_provider market_id owner) = "LendingPoolAddressesProvider"
id_of (addresses_provider_registry owner) = "LendingPoolAddressesProviderRegistry"
id_of configurator = "LendingPoolConfigurator"
id_of configurator_impl = "LendingPoolConfiguratorImpl"
id_of collateral_manager = "LendingPoolCollateralManager"
id_of collateral_manager_impl = "LendingPoolCollateralManagerImpl"
id_of lending_pool = "LendingPool"
id_of lending_pool_impl = "LendingPoolImpl"
id_of lending_pool_tmp = "LendingPoolTmpImpl"
id_of lending_pool_v4 = "LendingPoolV4Impl"
id_of reserve_logic = "ReserveLogic"
id_of (generic_logic logic) = "GenericLogic"
id_of price_oracle = "PriceOracle"
id_of (fallback_oracle owner) = "PalmyFallbackOracle"
id_of (palmy_oracle base_currency unit owner) = "PalmyOracle"
id_of (lending_rate_oracle owner) = "LendingRateOracle"
id_of (chainsight_oracle symbol) = "ChainsightOracle" <> symbol
id_of (price_aggregator owner) = "PriceAggregatorAdapterChainsightImpl"
id_of data_provider = "PalmyProtocolDataProvider"
id_of (rate_strategy args) = "DefaultReserveInterestRateStrategy"
id_of (flash_loan_receiver provider) = "MockFlashLoanReceiver"
id_of (debt_tokens_helper owner) = "StableAndVariableTokensHelper"
id_of (ltokens_helper owner) = "LTokensAndRatesHelper"
id_of (weth_gateway args) = "WETHGateway"
id_of wallet_provider = "WalletBalanceProvider"
id_of selfdestruct_transfer = "SelfdestructTransferMock"
id_of stake_ui = "StakeUIHelper"
id_of ltoken = "LToken"
id_of stable_debt_token = "StableDebtToken"
id_of variable_debt_token = "VariableDebtToken"
id_of (mock_ltoken ltoken_args) = "MockLToken"
id_of (mock_stable_debt_token debt_args) = "MockStableDebtToken"
id_of (mock_variable_debt_token debt_args) = "MockVariableDebtToken"
id_of (mintable_erc20 args) = "MintableERC20"
id_of weth_mocked = "WOASMocked"

module _ ⦃env : Env⦄ where
  abbrev pub deploys : Deployment → Bool → Exec String
  deploys (addresses_provider market_id owner) verify =
      deploy_lending_pool_addresses_provider market_id owner verify
  deploys (addresses_provider_registry owner) verify =
      deploy_lending_pool_addresses_provider_registry owner verify
  deploys configurator verify = deploy_lending_pool_configurator verify
  deploys configurator_impl verify = deploy_lending_pool_configurator verify
  deploys collateral_manager verify = deploy_lending_pool_collateral_manager verify
  deploys collateral_manager_impl verify = deploy_lending_pool_collateral_manager verify
  deploys lending_pool verify = deploy_lending_pool verify
  deploys lending_pool_impl verify = deploy_lending_pool verify
  deploys lending_pool_tmp verify = deploy_lending_pool_tmp verify
  deploys lending_pool_v4 verify = deploy_lending_pool_v4 verify
  deploys reserve_logic verify = deploy_reserve_logic_library verify
  deploys (generic_logic logic) verify = deploy_generic_logic logic verify
  deploys price_oracle verify = deploy_price_oracle verify
  deploys (fallback_oracle owner) verify = deploy_palmy_fallback_oracle owner verify
  deploys (palmy_oracle base_currency unit owner) verify =
      deploy_palmy_oracle base_currency unit owner verify
  deploys (lending_rate_oracle owner) verify = deploy_lending_rate_oracle owner verify
  deploys (chainsight_oracle symbol) verify = deploy_chainsight_oracle symbol verify
  deploys (price_aggregator owner) verify = deploy_price_aggregator_chainsight_impl owner verify
  deploys data_provider verify = deploy_palmy_protocol_data_provider verify
  deploys (rate_strategy args) verify = deploy_default_reserve_interest_rate_strategy args verify
  deploys (flash_loan_receiver provider) verify = deploy_mock_flash_loan_receiver provider verify
  deploys (debt_tokens_helper owner) verify = deploy_stable_and_variable_tokens_helper owner verify
  deploys (ltokens_helper owner) verify = deploy_ltokens_and_rates_helper owner verify
  deploys (weth_gateway args) verify = deploy_weth_gateway args verify
  deploys wallet_provider verify = deploy_wallet_balancer_provider verify
  deploys selfdestruct_transfer verify = deploy_selfdestruct_transfer_mock verify
  deploys stake_ui verify = deploy_stake_ui_helper verify
  deploys ltoken verify = deploy_generic_ltoken_impl verify
  deploys stable_debt_token verify = deploy_generic_stable_debt_token verify
  deploys variable_debt_token verify = deploy_generic_variable_debt_token verify
  deploys (mock_ltoken ltoken_args) verify = deploy_mock_ltoken ltoken_args verify
  deploys (mock_stable_debt_token debt_args) verify = deploy_mock_stable_debt_token debt_args verify
  deploys (mock_variable_debt_token debt_args) verify =
      deploy_mock_variable_debt_token debt_args verify
  deploys (mintable_erc20 args) verify = deploy_mintable_erc20 args verify
  deploys weth_mocked verify = deploy_weth_mocked verify

  abbrev pub gets : List String → Deployment → Option String → Exec Contract
  gets signers (addresses_provider market_id owner) address =
      get_lending_pool_addresses_provider signers address
  gets signers (addresses_provider_registry owner) address =
      get_lending_pool_addresses_provider_registry signers address
  gets signers configurator address = get_lending_pool_configurator_proxy signers address
  gets signers configurator_impl address = get_lending_pool_configurator_impl signers address
  gets signers collateral_manager address = get_lending_pool_collateral_manager signers address
  gets signers collateral_manager_impl address =
      get_lending_pool_collateral_manager_impl signers address
  gets signers lending_pool address = get_lending_pool signers address
  gets signers lending_pool_impl address = get_lending_pool_impl signers address
  gets signers lending_pool_tmp address = get_lending_pool_tmp_impl signers address
  gets signers lending_pool_v4 address = get_lending_pool_v4_impl signers address
  gets signers reserve_logic address = get_reserve_logic signers address
  gets signers (generic_logic logic) address = get_generic_logic signers address
  gets signers price_oracle address = get_price_oracle signers address
  gets signers (fallback_oracle owner) address = get_palmy_fallback_oracle signers address
  gets signers (palmy_oracle base_currency unit owner) address = get_palmy_oracle signers address
  gets signers (lending_rate_oracle owner) address = get_lending_rate_oracle signers address
  gets signers (chainsight_oracle symbol) address = get_chainsight_oracle signers symbol address
  gets signers (price_aggregator owner) address = get_price_aggregator signers address
  gets signers data_provider address = get_palmy_protocol_data_provider signers address
  gets signers (rate_strategy args) address = get_interest_rate_strategy signers address
  gets signers (flash_loan_receiver provider) address = get_mock_flash_loan_receiver signers address
  gets signers (debt_tokens_helper owner) address =
      get_stable_and_variable_tokens_helper signers address
  gets signers (ltokens_helper owner) address = get_ltokens_and_rates_helper signers address
  gets signers (weth_gateway args) address = get_weth_gateway signers address
  gets signers wallet_provider address = get_wallet_provider signers address
  gets signers selfdestruct_transfer address = get_selfdestruct_transfer_mock signers address
  gets signers stake_ui address = get_stake_ui_helper signers address
  gets signers ltoken address = get_ltoken signers address
  gets signers stable_debt_token address = get_stable_debt_token signers address
  gets signers variable_debt_token address = get_variable_debt_token signers address
  gets signers (mock_ltoken ltoken_args) address = get_mock_ltoken signers address
  gets signers (mock_stable_debt_token debt_args) address =
      get_mock_stable_debt_token signers address
  gets signers (mock_variable_debt_token debt_args) address =
      get_mock_variable_debt_token signers address
  gets signers (mintable_erc20 args) address = get_mintable_erc20 signers address
  gets signers weth_mocked address = get_weth_mocked signers address
