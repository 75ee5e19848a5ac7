-- ===== src/Deploy/Reserves.antt =====
-- helpers/init-helpers.ts: initialising the reserves of a market, one transaction for each, and
-- configuring them, twenty to a transaction, while the helper contract is the pool's admin.
-- Addresses of contracts that the source fetches with a getter are arguments.
pub mod Batches
pub mod Inputs
pub mod Bracket
pub mod Configuration
pub mod Progress
pub mod Pairs
use palmy_protocol.Prelude.{
  ℕ, String, Bool, true, false, Option, none, some, List, [], ◌∷◌, ◌++◌, ◌==◌, if◌then◌else◌,
  str_eq, Dict, lookup, insert, ◌<>◌, map,
}
use palmy_protocol.Misc.{not_falsy_or_zero_address, chunk, omit}
use palmy_protocol.Types.{ReserveParams, InterestRateStrategyParams}
use palmy_protocol.Deploy.{
  call_rejected, Env, Event, batch_init_reserve, set_pool_admin, configure_reserves, Exec, perform,
  read, pure, throw, unless, ◌>>=◌, ◌>>◌, InitReserveInput, ConfigureReserveInput,
  token_address_undefined, strategy_address_undefined, ltoken_impl_undefined, stable_impl_undefined,
  underlying_undefined, treasury_undefined,
}
use palmy_protocol.Deploy.Getters.{
  Contract, get_lending_pool_addresses_provider, get_lending_pool_configurator_proxy,
  get_ltokens_and_rates_helper,
}
use palmy_protocol.Deploy.Registry.{
  truthy, raw_insert_contract_address_in_db, get_contract_address_with_json_fallback,
}
use palmy_protocol.Deploy.Contracts.{deploy_rate_strategy}

-- The arguments of `initReservesByHelper` that stay the same for all reserves, and the address of the
-- provider that it finds. `config` is the market configuration by contract id.
pub record InitSettings : Type 0 where
  pub token_addresses : Dict String
  pub ltoken_name_prefix : String
  pub stable_debt_token_name_prefix : String
  pub variable_debt_token_name_prefix : String
  pub symbol_prefix : String
  pub treasury_address : String
  pub incentives_controller : String
  pub verify : Bool
  pub address_provider : String
  pub config : String → Option (Dict String)

abbrev pub at_provider : Contract → InitSettings → InitSettings
at_provider provider s = record s { address_provider = provider.address }

-- Every token name takes the default case.
unfoldable pub get_ltoken_extra_params : String → String → String
get_ltoken_extra_params ltoken_name token_address = "0x10"

abbrev pub strategy_rates : String → InterestRateStrategyParams → List String
strategy_rates provider s =
    provider ∷ s.optimal_utilization_rate ∷ s.base_variable_borrow_rate ∷ s.variable_rate_slope1
    ∷ s.variable_rate_slope2 ∷ s.stable_rate_slope1 ∷ s.stable_rate_slope2 ∷ []

-- The object that is pushed to `initInputParams`.
unfoldable pub init_input :
    InitSettings
    → String
    → ReserveParams
    → (token ltoken_impl stable_impl variable_impl strategy : String) → InitReserveInput
unfolding get_ltoken_extra_params
init_input s symbol params token ltoken_impl stable_impl variable_impl strategy = record {
  ltoken_impl = ltoken_impl;
  stable_debt_token_impl = stable_impl;
  variable_debt_token_impl = variable_impl;
  underlying_asset_decimals = params.reserve_decimals;
  interest_rate_strategy_address = strategy;
  underlying_asset = token;
  treasury = s.treasury_address;
  incentives_controller = s.incentives_controller;
  underlying_asset_name = symbol;
  ltoken_name = s.ltoken_name_prefix <> (" " <> symbol);
  ltoken_symbol = "l" <> (s.symbol_prefix <> symbol);
  variable_debt_token_name =
      s.variable_debt_token_name_prefix <> (" " <> (s.symbol_prefix <> symbol));
  variable_debt_token_symbol = "vd" <> (s.symbol_prefix <> symbol);
  stable_debt_token_name = s.stable_debt_token_name_prefix <> (" " <> symbol);
  stable_debt_token_symbol = "sd" <> (s.symbol_prefix <> symbol);
  params = get_ltoken_extra_params params.ltoken_impl token;
}

module _ ⦃env : Env⦄ where
  abbrev pub valid : String → Bool
  valid a = not_falsy_or_zero_address env.tests (some a)

  -- strategies[name], or a strategy that is deployed and saved, with its address added
  unfoldable pub strategy_of :
      InitSettings → InterestRateStrategyParams → Dict String → Exec (String × Dict String)
  strategy_of s strategy strategies = elim (truthy (lookup strategy.name strategies)) [
    | some address ↦ pure (address, strategies)
    | none ↦ do
      address ←
          deploy_rate_strategy strategy.name (strategy_rates s.address_provider strategy) s.verify
      raw_insert_contract_address_in_db strategy.name address
      pure (address, insert strategy.name address strategies)
  ]

  -- The checks and look-ups of one reserve. The message for the variable debt token is the source's.
  unfoldable pub checked_input :
      InitSettings → String → ReserveParams → (token strategy : String) → Exec InitReserveInput
  unfolding init_input
  checked_input s symbol params token strategy = do
    unless (valid token) (token_address_undefined symbol)
    unless (valid strategy) (strategy_address_undefined strategy)
    ltoken_impl ← get_contract_address_with_json_fallback s.config params.ltoken_impl
    unless (valid ltoken_impl) ltoken_impl_undefined
    stable_impl ← get_contract_address_with_json_fallback s.config "StableDebtToken"
    unless (valid stable_impl) stable_impl_undefined
    variable_impl ← get_contract_address_with_json_fallback s.config "VariableDebtToken"
    unless (valid variable_impl) ltoken_impl_undefined
    unless (valid token) (underlying_undefined token)
    unless (valid s.treasury_address) treasury_undefined
    pure (init_input s symbol params token ltoken_impl stable_impl variable_impl strategy)

  -- The loop over the reserves: the strategies and the inputs so far.
  unfoldable pub prepare_reserves :
      InitSettings
      → Dict ReserveParams
      → Dict String
      → List InitReserveInput
      → Exec (List InitReserveInput)
  unfolding strategy_of checked_input
  prepare_reserves s [] strategies inputs = pure inputs
  prepare_reserves s ((symbol, params) ∷ rest) strategies inputs =
      elim (truthy (lookup symbol s.token_addresses)) [
        | none ↦ prepare_reserves s rest strategies inputs
        | some token ↦ do
          found ← strategy_of s params.strategy strategies
          input ← checked_input s symbol params token found.0
          prepare_reserves s rest found.1 (inputs ++ (input ∷ []))
      ]

  -- One transaction after the other.
  unfoldable pub perform_all : List Event → Exec (Unit {0})
  perform_all [] = pure tt
  perform_all (event ∷ events) = do perform event; perform_all events

  -- `strategies` is strategyAddresses || {}. The addresses of the provider and of the configurator are
  -- optional.
  unfoldable pub init_reserves_by_helper :
      List String
      → (provider_address configurator_address : Option String) → InitSettings
      → Dict ReserveParams
      → Dict String
      → Exec (Unit {0})
  unfolding prepare_reserves perform_all
  init_reserves_by_helper signers provider_address configurator_address s reserves strategies = do
    address_provider ← get_lending_pool_addresses_provider signers provider_address
    inputs ← prepare_reserves (at_provider address_provider s) reserves strategies []
    configurator ← get_lending_pool_configurator_proxy signers configurator_address
    perform_all (map batch_init_reserve (chunk inputs 1))

  abbrev pub configure_input : String → ReserveParams → ConfigureReserveInput
  configure_input token params = record {
    asset = token;
    base_ltv = params.base_ltv_as_collateral;
    liquidation_threshold = params.liquidation_threshold;
    liquidation_bonus = params.liquidation_bonus;
    reserve_factor = params.reserve_factor;
    stable_borrowing_enabled = params.stable_borrow_rate_enabled;
    borrowing_enabled = params.borrowing_enabled;
  }

  -- The loop over the reserves: which are to be configured.
  abbrev pub answered : String → Option Bool → Exec Bool
  answered token none = throw (call_rejected token)
  answered token (some enabled) = pure enabled

  -- The flag of a reserve; the call is refused for an asset that is not initialised.
  unfoldable pub already_enabled : String → Exec Bool
  already_enabled token = do
    answer ← read (λ h. env.collateral_enabled h token)
    answered token answer

  unfoldable pub select_reserves :
      Dict String
      → Dict ReserveParams
      → List ConfigureReserveInput
      → Exec (List ConfigureReserveInput)
  unfolding already_enabled
  select_reserves token_addresses [] inputs = pure inputs
  select_reserves token_addresses ((symbol, params) ∷ rest) inputs =
      elim (truthy (lookup symbol token_addresses)) [
        | none ↦ select_reserves token_addresses rest inputs
        | some token ↦ elim (str_eq params.base_ltv_as_collateral "-1") [
          | true ↦ select_reserves token_addresses rest inputs
          | false ↦ do
            enabled ← already_enabled token
            elim enabled [
              | true ↦ select_reserves token_addresses rest inputs
              | false ↦ do
                unless (valid token) (token_address_undefined symbol)
                select_reserves token_addresses rest (inputs ++ (configure_input token params ∷ []))
            ]
        ]
      ]

  -- The part under `if (tokens.length)`.
  unfoldable pub configure_selected :
      (helper admin : String) → List ConfigureReserveInput → Exec (Unit {0})
  unfolding perform_all
  configure_selected helper admin [] = pure tt
  configure_selected helper admin (input ∷ inputs) = do
    perform (set_pool_admin helper)
    perform_all (map configure_reserves (chunk (input ∷ inputs) 20))
    perform (set_pool_admin admin)

  -- What is done with the helper at an address.
  abbrev pub configure_with :
      (helper admin : String) → Dict ReserveParams → Dict String → Exec (Unit {0})
  configure_with helper admin reserves token_addresses = do
    inputs ← select_reserves token_addresses reserves []
    configure_selected helper admin inputs

  -- The addresses of the provider and of the helper are optional. Transactions are sent to the contract
  -- of the provider.
  unfoldable pub configure_reserves_by_helper :
      List String
      → (provider_address helper_address : Option String) → (admin : String) → Dict ReserveParams
      → Dict String
      → Exec (Unit {0})
  unfolding select_reserves configure_selected
  configure_reserves_by_helper signers provider_address helper_address admin reserves
        token_addresses =
      do
        address_provider ← get_lending_pool_addresses_provider signers provider_address
        helper ← get_ltokens_and_rates_helper signers helper_address
        configure_with helper.address admin reserves token_addresses

-- The assets of `tokens` with their aggregators; `none` where one has none, a TypeError.
abbrev pub add_pair :
    String → Option String → Option (List (String × String)) → Option (List (String × String))
add_pair token (some source) (some pairs) = some ((token, source) ∷ pairs)
add_pair token (some source) none = none
add_pair token none pairs = none

unfoldable pub pair_all : Dict String → Dict String → Option (List (String × String))
pair_all [] aggregators = some []
pair_all ((symbol, token) ∷ tokens) aggregators =
    add_pair token (lookup symbol aggregators) (pair_all tokens aggregators)

abbrev pub unzip_pairs : Option (List (String × String)) → Option (List String × List String)
unzip_pairs none = none
unzip_pairs (some pairs) = some (map (λ p. p.0) pairs, map (λ p. p.1) pairs)

unfoldable pub get_pairs_token_aggregator :
    Dict String → Dict String → Option (List String × List String)
unfolding pair_all
get_pairs_token_aggregator assets aggregators =
    unzip_pairs (pair_all (omit assets ("ETH" ∷ "USD" ∷ "WETH" ∷ [])) aggregators)

-- helpers/contracts-getters.ts: the same with the quote currencies left out.
unfoldable pub get_quote_currencies : String → List String
get_quote_currencies quote = if str_eq quote "USD" then "USD" ∷ [] else "ETH" ∷ "WETH" ∷ []

unfoldable pub pairs_without_quote :
    Dict String → Dict String → String → Option (List String × List String)
unfolding pair_all get_quote_currencies
pairs_without_quote assets aggregators quote =
    unzip_pairs (pair_all (omit assets (get_quote_currencies quote)) aggregators)
