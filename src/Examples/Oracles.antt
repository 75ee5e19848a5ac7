-- ===== src/Examples/Oracles.antt =====
-- The oracles of a market with two assets, and its token implementations.
use palmy_protocol.Prelude.{◌≡◌, refl, none, List, [], ◌∷◌, String, Dict, lookup}
use palmy_protocol.Misc.{chunk, chunk_loop}
use palmy_protocol.Deploy.{db_set, History, ok, ◌>>=◌, perform}
use palmy_protocol.Deploy.Getters.{
  Contract, get_stable_and_variable_tokens_helper, find_contract, connect, get_first_signer,
}
use palmy_protocol.Deploy.Reserves.{perform_all}
use palmy_protocol.Deploy.Oracles.{
  collect, set_initial_market_rates_in_rates_oracle_by_helper, set_asset_prices_in_fallback_oracle,
}
use palmy_protocol.Deploy.Oracles.Prices.{SetsRates, market_rates-ok}
use palmy_protocol.Examples.Deploy.{free}

abbrev rates_for : Dict String
rates_for = ("USDC", "39") ∷ ("WETH", "30") ∷ []

abbrev asset_addresses : Dict String
asset_addresses = ("WETH", "0xe1") ∷ ("USDC", "0xe2") ∷ []

abbrev signers : List String
signers = "0xd0" ∷ []

-- The database has the helper.
abbrev saved : History
saved = db_set "StableAndVariableTokensHelper" (record { address = "0xa1"; deployer = none }) ∷ []

abbrev rated : History
rated =
    (set_initial_market_rates_in_rates_oracle_by_helper ⦃env = free⦄ signers rates_for
      asset_addresses "0xb1" "0xa2" saved).1

rates_are_set :
    set_initial_market_rates_in_rates_oracle_by_helper ⦃env = free⦄ signers rates_for
      asset_addresses "0xb1" "0xa2" saved
    ≡ (ok tt, rated)
unfolding set_initial_market_rates_in_rates_oracle_by_helper get_stable_and_variable_tokens_helper
    find_contract connect get_first_signer collect lookup chunk chunk_loop perform perform_all ◌>>=◌
rates_are_set = refl

market_rates-ok_example :
    (helper : Contract) × (get_stable_and_variable_tokens_helper ⦃env = free⦄ signers none saved
      ≡ (ok helper, saved))
    × SetsRates ⦃env = free⦄ rates_for asset_addresses helper.address "0xb1" "0xa2" saved rated
market_rates-ok_example =
    market_rates-ok ⦃env = free⦄ signers rates_for asset_addresses "0xb1" "0xa2" saved rated
      rates_are_set

abbrev priced : History
priced = (set_asset_prices_in_fallback_oracle ⦃env = free⦄ rates_for asset_addresses []).1

prices_are_set :
    set_asset_prices_in_fallback_oracle ⦃env = free⦄ rates_for asset_addresses [] ≡ (ok tt, priced)
unfolding set_asset_prices_in_fallback_oracle collect lookup perform ◌>>=◌
prices_are_set = refl
