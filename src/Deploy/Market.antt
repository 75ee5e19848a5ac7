-- ===== src/Deploy/Market.antt =====
-- helpers/configuration.ts: what the scripts read from the configuration of a market. An entry that
-- is undefined in the source is left out of its table. `signers` has the addresses of the signers, and
-- `mainnet_fork` is process.env.MAINNET_FORK.
pub mod Administrators
pub mod Rates
pub mod Tokens
use palmy_protocol.Prelude.{
  ℕ, String, Bool, true, false, Option, none, some, List, [], ◌∷◌, if◌then◌else◌, str_eq, Dict,
  keys, lookup, includes, get_elem?,
}
use palmy_protocol.Misc.{filter_map_by}
use palmy_protocol.Deploy.{Env, Exec, pure, throw, type_error, native_token_not_set, quote_not_set}
use palmy_protocol.Deploy.Registry.{truthy, get_param_per_network}
use palmy_protocol.Deploy.Contracts.Tokens.{deploy_weth_mocked}

-- IBaseConfiguration
pub record MarketConfig : Type 0 where
  pub market_id : String
  pub ltoken_name_prefix : String
  pub stable_debt_token_name_prefix : String
  pub variable_debt_token_name_prefix : String
  pub symbol_prefix : String
  pub provider_id : ℕ
  -- ProtocolGlobalParams
  pub mock_usd_price_in_wei : String
  pub usd_address : String
  pub nil_address : String
  pub one_address : String
  pub palmy_referral : String
  -- by network
  pub provider_registry_owner : Dict String
  -- the borrow rate of each symbol
  pub lending_rate_oracle_rates_common : Dict String
  -- by network
  pub lending_pool_configurator : Dict String
  pub dia_aggregator : Dict (Dict String)
  pub pool_admin : Dict String
  pub pool_admin_index : ℕ
  pub emergency_admin : Dict String
  pub emergency_admin_index : ℕ
  pub ltoken_domain_separator : Dict String
  pub weth : Dict String
  pub wrapped_native_token : Dict String
  pub reserve_factor_treasury_address : Dict String
  pub incentives_controller : Dict String
  -- the assets of each network
  pub reserve_assets : Dict (Dict String)
  pub oracle_quote_currency : String
  pub oracle_quote_unit : String
  -- by network
  pub staked_oas : Dict String
  pub oracle_sender_address : Dict String
  pub oracle_price_key : Dict (Dict String)

abbrev pub or_signer : List String → ℕ → Option String → Option String
or_signer signers index none = get_elem? signers index
or_signer signers index (some target) = some target

module _ ⦃env : Env⦄ where
  -- process.env.FORK ? process.env.FORK : DRE.network.name
  abbrev pub current_network : String
  current_network = elim (truthy env.fork) [ none ↦ env.network | some fork ↦ fork ]

  -- The parameter of the current network, where it is truthy.
  abbrev pub configured : Dict String → Option String
  configured param = truthy (get_param_per_network env.fork param current_network)

  unfoldable pub get_genesis_pool_admin : List String → MarketConfig → Option String
  get_genesis_pool_admin signers config =
      or_signer signers config.pool_admin_index (configured config.pool_admin)

  unfoldable pub get_emergency_admin : List String → MarketConfig → Option String
  get_emergency_admin signers config =
      or_signer signers config.emergency_admin_index (configured config.emergency_admin)

  unfoldable pub get_treasury_address : MarketConfig → Option String
  get_treasury_address config =
      get_param_per_network env.fork config.reserve_factor_treasury_address current_network

  unfoldable pub get_ltoken_domain_separator_per_network : String → MarketConfig → Option String
  get_ltoken_domain_separator_per_network network config =
      get_param_per_network env.fork config.ltoken_domain_separator network

  unfoldable pub get_weth_address : MarketConfig → Exec String
  get_weth_address config = elim (configured config.weth) [
    | none ↦ deploy_weth_mocked false
    | some address ↦ pure address
  ]

  abbrev pub is_true : Option String → Bool
  is_true none = false
  is_true (some s) = str_eq s "true"

  -- process.env.MAINNET_FORK === 'true' ? 'main' : DRE.network.name
  abbrev pub native_network : Option String → String
  native_network mainnet_fork = if is_true mainnet_fork then "main" else env.network

  abbrev pub native_token_at : Option String → MarketConfig → Option String
  native_token_at mainnet_fork config =
      truthy
        (get_param_per_network env.fork config.wrapped_native_token (native_network mainnet_fork))

  unfoldable pub get_wrapped_native_token_address : Option String → MarketConfig → Exec String
  get_wrapped_native_token_address mainnet_fork config =
      elim (native_token_at mainnet_fork config) [
        | none ↦ elim (env.contains (native_network mainnet_fork) "oasys") [
          | true ↦ throw native_token_not_set
          | false ↦ deploy_weth_mocked false
        ]
        | some address ↦ pure address
      ]

  -- Without any rate, the callback that reads the network's assets is not called.
  abbrev pub rates_without_assets : Dict String → Exec (Dict String)
  rates_without_assets [] = pure []
  rates_without_assets (rate ∷ rates) = throw type_error

  unfoldable pub get_lending_rate_oracles : MarketConfig → Exec (Dict String)
  get_lending_rate_oracles config = elim (lookup current_network config.reserve_assets) [
    | none ↦ rates_without_assets config.lending_rate_oracle_rates_common
    | some assets ↦
        pure (
          filter_map_by config.lending_rate_oracle_rates_common (λ key. includes (keys assets) key))
  ]

  unfoldable pub get_quote_currency : MarketConfig → Exec String
  unfolding get_weth_address
  get_quote_currency config =
      if str_eq config.oracle_quote_currency "ETH"
      then get_weth_address config
      else if str_eq config.oracle_quote_currency "WETH"
      then get_weth_address config
      else if str_eq config.oracle_quote_currency "USD"
      then pure config.usd_address
      else throw (quote_not_set config.oracle_quote_currency)
