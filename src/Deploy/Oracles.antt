-- ===== src/Deploy/Oracles.antt =====
-- helpers/oracles-helpers.ts: initial borrow rates, twenty to a transaction while the helper contract
-- owns the rate oracle, and asset prices. A symbol without an asset is a TypeError.
pub mod Prices
use palmy_protocol.Prelude.{String, Bool, Option, none, some, List, [], ◌∷◌, ◌++◌, Dict, lookup}
use palmy_protocol.Misc.{chunk}
use palmy_protocol.Deploy.{
  Env, Event, transfer_ownership, set_oracle_borrow_rates, set_oracle_ownership, set_asset_price,
  submit_prices, Exec, perform, pure, throw, ◌>>=◌, ◌>>◌, type_error,
}
use palmy_protocol.Deploy.Getters.{get_stable_and_variable_tokens_helper}
use palmy_protocol.Deploy.Reserves.{perform_all}
use palmy_protocol.Deploy.Contracts.{deploy_mock_aggregator}

-- One transaction for each pair of chunks.
abbrev pub rate_calls : String → (tokens rates : List (List String)) → List Event
rate_calls oracle [] rates = []
rate_calls oracle (ts ∷ tokens) [] = []
rate_calls oracle (ts ∷ tokens) (rs ∷ rates) =
    set_oracle_borrow_rates ts rs oracle ∷ rate_calls oracle tokens rates

abbrev pub or_type_error : {A : Type 0} → Option A → Exec A
or_type_error none = throw type_error
or_type_error (some a) = pure a

module _ ⦃env : Env⦄ where
  -- The loop that collects the assets and the values of the symbols.
  unfoldable pub collect :
      Dict String → Dict String → (assets values : List String) → Exec (List String × List String)
  collect addresses [] assets values = pure (assets, values)
  collect addresses ((symbol, value) ∷ rest) assets values = do
    asset ← or_type_error (lookup symbol addresses)
    collect addresses rest (assets ++ (asset ∷ [])) (values ++ (value ∷ []))

  -- What is done with the helper at an address.
  abbrev pub set_rates_with :
      Dict String → Dict String → (helper oracle admin : String) → Exec (Unit {0})
  set_rates_with rates addresses helper oracle admin = do
    collected ← collect addresses rates [] []
    perform (transfer_ownership helper)
    perform_all (rate_calls oracle (chunk collected.0 20) (chunk collected.1 20))
    perform (set_oracle_ownership oracle admin)

  -- `rates` has the borrow rate of each symbol; `oracle` is an address.
  unfoldable pub set_initial_market_rates_in_rates_oracle_by_helper :
      List String → Dict String → Dict String → (oracle admin : String) → Exec (Unit {0})
  unfolding collect
  set_initial_market_rates_in_rates_oracle_by_helper signers rates addresses oracle admin = do
    helper ← get_stable_and_variable_tokens_helper signers none
    set_rates_with rates addresses helper.address oracle admin

  unfoldable pub set_initial_asset_prices_in_oracle : Dict String → Dict String → Exec (Unit {0})
  set_initial_asset_prices_in_oracle [] addresses = pure tt
  set_initial_asset_prices_in_oracle ((symbol, price) ∷ prices) addresses = do
    asset ← or_type_error (lookup symbol addresses)
    perform (set_asset_price asset price)
    set_initial_asset_prices_in_oracle prices addresses

  unfoldable pub set_asset_prices_in_oracle : Dict String → Dict String → Exec (Unit {0})
  set_asset_prices_in_oracle [] addresses = pure tt
  set_asset_prices_in_oracle ((symbol, price) ∷ prices) addresses = do
    asset ← or_type_error (lookup symbol addresses)
    perform (set_asset_price asset price)
    set_asset_prices_in_oracle prices addresses

  unfoldable pub set_asset_prices_in_fallback_oracle : Dict String → Dict String → Exec (Unit {0})
  unfolding collect
  set_asset_prices_in_fallback_oracle prices addresses = do
    collected ← collect addresses prices [] []
    perform (submit_prices collected.0 collected.1)

  unfoldable pub deploy_mock_aggregators : Dict String → Dict String → Bool → Exec String
  unfolding collect
  deploy_mock_aggregators prices addresses verify = do
    collected ← collect addresses prices [] []
    deploy_mock_aggregator collected.0 collected.1 verify
