-- ===== src/Deploy/Getters.antt =====
-- helpers/contracts-getters.ts: the contracts at an address, or at the one of an entry of the database.
-- A getter without an address finds its id in the database, and a missing entry is a TypeError.
-- `signers` has what getEthersSigners gives.
pub mod Pairs
pub mod Finds
pub mod Deployed
pub mod MockTokens
use palmy_protocol.Prelude.{
  String, Option, none, some, List, [], ◌∷◌, ◌<>◌, if◌then◌else◌, Dict, keys, insert, get_elem?,
}
use palmy_protocol.Misc.{not_falsy_or_zero_address}
use palmy_protocol.Types.{ReserveParams}
use palmy_protocol.Deploy.{Env, DbEntry, Exec, pure, throw, read, ◌>>=◌, type_error}
use palmy_protocol.Deploy.Registry.{truthy, entry_address}
use palmy_protocol.Deploy.Contracts.Tokens.{token_contract_ids}

-- What Factory.connect(address, signer) makes.
pub record Contract : Type 0 where
  pub factory : String
  pub address : String
  pub signer : Option String

-- `.address` of what the database has at an id
abbrev pub address_of : Option DbEntry → Exec String
address_of none = throw type_error
address_of (some entry) = pure entry.address

unfoldable pub get_first_signer : List String → Option String
get_first_signer signers = get_elem? signers 0

-- Factory.connect(address, await getFirstSigner())
unfoldable pub connect : List String → String → String → Contract
unfolding get_first_signer
connect signers factory address = record {
  factory = factory;
  address = address;
  signer = get_first_signer signers;
}

module _ ⦃env : Env⦄ where
  abbrev pub saved_address : String → Exec String
  saved_address id = do entry ← read (λ h. env.db_entry h id); address_of entry

  -- address || (await getDb().get(`${id}.${network}`).value()).address
  abbrev pub address_or_saved : Option String → String → Exec String
  address_or_saved none id = saved_address id
  address_or_saved (some address) id = pure address

  unfoldable pub get_address_by_id : String → Exec (Option String)
  get_address_by_id id = read (λ h. entry_address (env.db_entry h id))

  module _ (signers : List String) where
    -- What the getters share: the factory, the id, the address that is given.
    unfoldable pub find_contract : String → String → Option String → Exec Contract
    find_contract factory id address = do
      found ← address_or_saved (truthy address) id
      pure (connect signers factory found)

    unfoldable pub get_lending_pool_addresses_provider : Option String → Exec Contract
    get_lending_pool_addresses_provider address =
        find_contract "LendingPoolAddressesProvider" "LendingPoolAddressesProvider" address

    unfoldable pub get_lending_pool_configurator_proxy : Option String → Exec Contract
    get_lending_pool_configurator_proxy address =
        find_contract "LendingPoolConfigurator" "LendingPoolConfigurator" address

    unfoldable pub get_lending_pool : Option String → Exec Contract
    get_lending_pool address = find_contract "LendingPool" "LendingPool" address

    unfoldable pub get_price_oracle : Option String → Exec Contract
    get_price_oracle address = find_contract "PriceOracle" "PriceOracle" address

    unfoldable pub get_palmy_fallback_oracle : Option String → Exec Contract
    get_palmy_fallback_oracle address =
        find_contract "PalmyFallbackOracle" "PalmyFallbackOracle" address

    unfoldable pub get_ltoken : Option String → Exec Contract
    get_ltoken address = find_contract "LToken" "LToken" address

    unfoldable pub get_stable_debt_token : Option String → Exec Contract
    get_stable_debt_token address = find_contract "StableDebtToken" "StableDebtToken" address

    unfoldable pub get_variable_debt_token : Option String → Exec Contract
    get_variable_debt_token address = find_contract "VariableDebtToken" "VariableDebtToken" address

    unfoldable pub get_mintable_erc20 : Option String → Exec Contract
    get_mintable_erc20 address = find_contract "MintableERC20" "MintableERC20" address

    unfoldable pub get_ierc20_detailed : Option String → Exec Contract
    get_ierc20_detailed address = find_contract "IERC20Detailed" "IERC20Detailed" address

    unfoldable pub get_palmy_protocol_data_provider : Option String → Exec Contract
    get_palmy_protocol_data_provider address =
        find_contract "PalmyProtocolDataProvider" "PalmyProtocolDataProvider" address

    unfoldable pub get_interest_rate_strategy : Option String → Exec Contract
    get_interest_rate_strategy address =
        find_contract "DefaultReserveInterestRateStrategy" "DefaultReserveInterestRateStrategy"
          address

    unfoldable pub get_mock_flash_loan_receiver : Option String → Exec Contract
    get_mock_flash_loan_receiver address =
        find_contract "MockFlashLoanReceiver" "MockFlashLoanReceiver" address

    unfoldable pub get_lending_rate_oracle : Option String → Exec Contract
    get_lending_rate_oracle address = find_contract "LendingRateOracle" "LendingRateOracle" address

    unfoldable pub get_reserve_logic : Option String → Exec Contract
    get_reserve_logic address = find_contract "ReserveLogic" "ReserveLogic" address

    unfoldable pub get_generic_logic : Option String → Exec Contract
    get_generic_logic address = find_contract "GenericLogic" "GenericLogic" address

    unfoldable pub get_stable_and_variable_tokens_helper : Option String → Exec Contract
    get_stable_and_variable_tokens_helper address =
        find_contract "StableAndVariableTokensHelper" "StableAndVariableTokensHelper" address

    unfoldable pub get_ltokens_and_rates_helper : Option String → Exec Contract
    get_ltokens_and_rates_helper address =
        find_contract "LTokensAndRatesHelper" "LTokensAndRatesHelper" address

    unfoldable pub get_weth_gateway : Option String → Exec Contract
    get_weth_gateway address = find_contract "WETHGateway" "WETHGateway" address

    unfoldable pub get_weth_mocked : Option String → Exec Contract
    get_weth_mocked address = find_contract "WETH9Mocked" "WOASMocked" address

    unfoldable pub get_mock_ltoken : Option String → Exec Contract
    get_mock_ltoken address = find_contract "MockLToken" "MockLToken" address

    unfoldable pub get_mock_variable_debt_token : Option String → Exec Contract
    get_mock_variable_debt_token address =
        find_contract "MockVariableDebtToken" "MockVariableDebtToken" address

    unfoldable pub get_mock_stable_debt_token : Option String → Exec Contract
    get_mock_stable_debt_token address =
        find_contract "MockStableDebtToken" "MockStableDebtToken" address

    unfoldable pub get_selfdestruct_transfer_mock : Option String → Exec Contract
    get_selfdestruct_transfer_mock address =
        find_contract "SelfdestructTransfer" "SelfdestructTransferMock" address

    unfoldable pub get_lending_pool_impl : Option String → Exec Contract
    get_lending_pool_impl address = find_contract "LendingPool" "LendingPoolImpl" address

    unfoldable pub get_lending_pool_tmp_impl : Option String → Exec Contract
    get_lending_pool_tmp_impl address = find_contract "LendingPool" "LendingPoolTmpImpl" address

    unfoldable pub get_lending_pool_v4_impl : Option String → Exec Contract
    get_lending_pool_v4_impl address = find_contract "LendingPool" "LendingPoolV4Impl" address

    unfoldable pub get_lending_pool_configurator_impl : Option String → Exec Contract
    get_lending_pool_configurator_impl address =
        find_contract "LendingPoolConfigurator" "LendingPoolConfiguratorImpl" address

    unfoldable pub get_lending_pool_collateral_manager_impl : Option String → Exec Contract
    get_lending_pool_collateral_manager_impl address =
        find_contract "LendingPoolCollateralManager" "LendingPoolCollateralManagerImpl" address

    unfoldable pub get_wallet_provider : Option String → Exec Contract
    get_wallet_provider address =
        find_contract "WalletBalanceProvider" "WalletBalanceProvider" address

    unfoldable pub get_lending_pool_collateral_manager : Option String → Exec Contract
    get_lending_pool_collateral_manager address =
        find_contract "LendingPoolCollateralManager" "LendingPoolCollateralManager" address

    unfoldable pub get_stake_ui_helper : Option String → Exec Contract
    get_stake_ui_helper address = find_contract "StakeUIHelper" "StakeUIHelper" address

    unfoldable pub get_palmy_oracle : Option String → Exec Contract
    get_palmy_oracle address = find_contract "PalmyOracle" "PalmyOracle" address

    unfoldable pub get_price_aggregator : Option String → Exec Contract
    get_price_aggregator address =
        find_contract "PriceAggregatorAdapterChainsightImpl" "PriceAggregatorAdapterChainsightImpl"
          address

    unfoldable pub get_chainsight_oracle : String → Option String → Exec Contract
    get_chainsight_oracle symbol address =
        find_contract "ChainsightOracle" ("ChainsightOracle" <> symbol) address

    -- An address that is zero counts as missing here.
    unfoldable pub get_lending_pool_addresses_provider_registry : Option String → Exec Contract
    get_lending_pool_addresses_provider_registry address = do
      found ←
          address_or_saved (if not_falsy_or_zero_address env.tests address then address else none)
            "LendingPoolAddressesProviderRegistry"
      pure (connect signers "LendingPoolAddressesProviderRegistry" found)

    unfoldable pub get_proxy : String → Exec Contract
    get_proxy address = pure (connect signers "InitializableAdminUpgradeabilityProxy" address)

    module _ (to_upper_case : String → String) where
      -- The reduce over the symbols.
      unfoldable pub get_tokens : List String → Dict Contract → Exec (Dict Contract)
      get_tokens [] tokens = pure tokens
      get_tokens (symbol ∷ symbols) tokens = do
        address ← saved_address (to_upper_case symbol)
        token ← get_mintable_erc20 (some address)
        get_tokens symbols (insert symbol token tokens)

      unfoldable pub get_mocked_tokens : Dict ReserveParams → Exec (Dict Contract)
      get_mocked_tokens config = get_tokens (keys config) []

      unfoldable pub get_all_mocked_tokens : Exec (Dict Contract)
      get_all_mocked_tokens = get_tokens token_contract_ids []
