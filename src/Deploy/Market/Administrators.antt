-- ===== src/Deploy/Market/Administrators.antt =====
-- The two administrators of a market (helpers/configuration.ts).
use palmy_protocol.Prelude.{◌≡◌, ◌≢◌, none, String, List, get_elem?}
use palmy_protocol.Deploy.{Env}
use palmy_protocol.Deploy.Market.{
  MarketConfig, configured, get_genesis_pool_admin, get_emergency_admin,
}

module _ ⦃env : Env⦄ where
  -- Where neither administrator is configured for the network, the two differ if the signers at their
  -- indices differ.
  pub administrators_differ :
      (signers : List String) (config : MarketConfig)
      → configured config.pool_admin ≡ none
      → configured config.emergency_admin ≡ none
      → get_elem? signers config.pool_admin_index ≢ get_elem? signers config.emergency_admin_index
      → get_genesis_pool_admin signers config ≢ get_emergency_admin signers config
  unfolding get_genesis_pool_admin get_emergency_admin
  administrators_differ signers config no_pool no_emergency differ =
      rw (no_pool, no_emergency) differ
