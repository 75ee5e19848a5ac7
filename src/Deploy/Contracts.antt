-- ===== src/Deploy/Contracts.antt =====
-- helpers/contracts-deployments.ts: the contracts that are created and saved without further calls.
-- A contract instance is its address. Typed argument tuples are lists of strings.
pub mod Libraries
pub mod Tokens
use palmy_protocol.Prelude.{String, Bool, List, [], ◌∷◌, ◌<>◌, map}
use palmy_protocol.Deploy.{
  Env, Argument, text, texts, Event, deployed_aggregator, authorize_lending_pool, Exec, perform,
  read, ◌>>=◌, ◌>>◌,
}
use palmy_protocol.Deploy.Registry.{deploy, with_save_and_verify, insert_contract_address_in_db}

module _ ⦃env : Env⦄ where
  -- withSaveAndVerify(await new Factory(signer).deploy(...args), id, arguments, verify)
  abbrev pub save : String → List String → String → List Argument → Bool → Exec String
  save factory args id arguments verify = do
    contract ← deploy factory args
    with_save_and_verify contract id arguments verify

  -- The same with an entry for the implementation before.
  abbrev pub save_with_impl : String → String → String → Bool → Exec String
  save_with_impl factory impl_id id verify = do
    contract ← deploy factory []
    insert_contract_address_in_db impl_id contract
    with_save_and_verify contract id [] verify

  unfoldable pub deploy_ui_incentive_data_provider_v2 : Bool → Exec String
  deploy_ui_incentive_data_provider_v2 verify =
      save "UiIncentiveDataProviderV2" [] "UiIncentiveDataProviderV2" [] verify

  unfoldable pub deploy_ui_pool_data_provider_v2 : Bool → Exec String
  deploy_ui_pool_data_provider_v2 verify =
      save "UiPoolDataProviderV2" [] "UiPoolDataProviderV2" [] verify

  unfoldable pub deploy_lending_pool_addresses_provider : String → String → Bool → Exec String
  deploy_lending_pool_addresses_provider market_id initial_owner verify =
      save "LendingPoolAddressesProvider" (market_id ∷ initial_owner ∷ [])
        "LendingPoolAddressesProvider" (map text (market_id ∷ initial_owner ∷ [])) verify

  unfoldable pub deploy_lending_pool_addresses_provider_registry : String → Bool → Exec String
  deploy_lending_pool_addresses_provider_registry initial_owner verify =
      save "LendingPoolAddressesProviderRegistry" (initial_owner ∷ [])
        "LendingPoolAddressesProviderRegistry" (map text (initial_owner ∷ [])) verify

  unfoldable pub deploy_price_oracle : Bool → Exec String
  deploy_price_oracle verify = save "PriceOracle" [] "PriceOracle" [] verify

  unfoldable pub deploy_palmy_fallback_oracle : String → Bool → Exec String
  deploy_palmy_fallback_oracle initial_owner verify =
      save "PalmyFallbackOracle" (initial_owner ∷ []) "PalmyFallbackOracle" [] verify

  unfoldable pub deploy_lending_rate_oracle : String → Bool → Exec String
  deploy_lending_rate_oracle initial_owner verify =
      save "LendingRateOracle" (initial_owner ∷ []) "LendingRateOracle" [] verify

  unfoldable pub deploy_palmy_oracle : String → String → String → Bool → Exec String
  deploy_palmy_oracle base_currency base_currency_unit initial_owner verify =
      save "PalmyOracle" (base_currency ∷ base_currency_unit ∷ initial_owner ∷ []) "PalmyOracle"
        (map text (base_currency ∷ base_currency_unit ∷ initial_owner ∷ [])) verify

  unfoldable pub deploy_initializable_admin_upgradeability_proxy : Bool → Exec String
  deploy_initializable_admin_upgradeability_proxy verify =
      save "InitializableAdminUpgradeabilityProxy" [] "InitializableAdminUpgradeabilityProxy" []
        verify

  unfoldable pub deploy_mock_flash_loan_receiver : String → Bool → Exec String
  deploy_mock_flash_loan_receiver addresses_provider verify =
      save "MockFlashLoanReceiver" (addresses_provider ∷ []) "MockFlashLoanReceiver"
        (map text (addresses_provider ∷ [])) verify

  unfoldable pub deploy_wallet_balancer_provider : Bool → Exec String
  deploy_wallet_balancer_provider verify =
      save "WalletBalanceProvider" [] "WalletBalanceProvider" [] verify

  unfoldable pub deploy_palmy_protocol_data_provider : Bool → Exec String
  deploy_palmy_protocol_data_provider verify =
      save "PalmyProtocolDataProvider" [] "PalmyProtocolDataProvider" [] verify

  unfoldable pub deploy_stable_and_variable_tokens_helper : String → Bool → Exec String
  deploy_stable_and_variable_tokens_helper initial_owner verify =
      save "StableAndVariableTokensHelper" (initial_owner ∷ []) "StableAndVariableTokensHelper" []
        verify

  unfoldable pub deploy_ltokens_and_rates_helper : String → Bool → Exec String
  deploy_ltokens_and_rates_helper initial_owner verify =
      save "LTokensAndRatesHelper" (initial_owner ∷ []) "LTokensAndRatesHelper" [] verify

  unfoldable pub deploy_weth_gateway : List String → Bool → Exec String
  deploy_weth_gateway args verify = save "WETHGateway" args "WETHGateway" (map text args) verify

  unfoldable pub deploy_selfdestruct_transfer_mock : Bool → Exec String
  deploy_selfdestruct_transfer_mock verify =
      save "SelfdestructTransfer" [] "SelfdestructTransferMock" [] verify

  unfoldable pub deploy_price_aggregator_chainsight_impl : String → Bool → Exec String
  deploy_price_aggregator_chainsight_impl initial_owner verify =
      save "PriceAggregatorAdapterChainsightImpl" (initial_owner ∷ [])
        "PriceAggregatorAdapterChainsightImpl" [] verify

  unfoldable pub deploy_stake_ui_helper : Bool → Exec String
  deploy_stake_ui_helper verify = save "StakeUIHelper" [] "StakeUIHelper" [] verify

  unfoldable pub deploy_default_reserve_interest_rate_strategy : List String → Bool → Exec String
  deploy_default_reserve_interest_rate_strategy args verify =
      save "DefaultReserveInterestRateStrategy" args "DefaultReserveInterestRateStrategy"
        (map text args) verify

  -- Every strategy name takes the default case.
  unfoldable pub deploy_rate_strategy : String → List String → Bool → Exec String
  unfolding deploy_default_reserve_interest_rate_strategy
  deploy_rate_strategy strategy_name args verify =
      deploy_default_reserve_interest_rate_strategy args verify

  unfoldable pub deploy_chainsight_oracle : String → Bool → Exec String
  deploy_chainsight_oracle symbol verify =
      save "ChainsightOracle" [] ("ChainsightOracle" <> symbol) [] verify

  unfoldable pub deploy_mock_aggregator : List String → List String → Bool → Exec String
  deploy_mock_aggregator assets prices verify = do
    perform (deployed_aggregator assets prices)
    contract ← read env.new_address
    with_save_and_verify contract "MockAggregator" (texts assets ∷ texts prices ∷ []) verify

  unfoldable pub deploy_lending_pool_configurator : Bool → Exec String
  deploy_lending_pool_configurator verify =
      save_with_impl "LendingPoolConfigurator" "LendingPoolConfiguratorImpl"
        "LendingPoolConfigurator" verify

  unfoldable pub deploy_lending_pool_collateral_manager : Bool → Exec String
  deploy_lending_pool_collateral_manager verify =
      save_with_impl "LendingPoolCollateralManager" "LendingPoolCollateralManagerImpl"
        "LendingPoolCollateralManager" verify

  unfoldable pub authorize_weth_gateway : String → String → Exec (Unit {0})
  authorize_weth_gateway weth_gateway lending_pool =
      perform (authorize_lending_pool weth_gateway lending_pool)
