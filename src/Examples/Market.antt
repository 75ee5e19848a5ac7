-- ===== src/Examples/Market.antt =====
-- The Palmy market on the oasys network.
use palmy_protocol.Prelude.{
  ◌⊎◌, ◌++◌, List, ◌≡◌, refl, Bool, true, false, none, some, [], ◌∷◌, String, Dict, keys, lookup,
  insert, includes, str_eq,
}
use palmy_protocol.Misc.{chunk, chunk_loop, assign, filter_map_loop, filter_map_by}
use palmy_protocol.Markets.{palmy_config}
use palmy_protocol.Deploy.{
  type_error, db_set, Env, Event, set_oracle_borrow_rates, Error, History, ok, err, perform,
  rejected, transfer_ownership, ◌>>=◌,
}
use palmy_protocol.Deploy.Registry.{
  get_param_per_network, select_network, deploy, with_save_and_verify, register_contract_in_json_db,
}
use palmy_protocol.Deploy.Contracts.Tokens.{deploy_weth_mocked}
use palmy_protocol.Deploy.Reserves.{perform_all}
use palmy_protocol.Deploy.Oracles.{collect, set_initial_market_rates_in_rates_oracle_by_helper}
use palmy_protocol.Deploy.Market.{get_weth_address, get_lending_rate_oracles, get_quote_currency}
use palmy_protocol.Deploy.Market.Rates.{
  Selects, lending_rates-Selects, IsRejected, market_rates-err,
}
use palmy_protocol.Deploy.Getters.{
  get_stable_and_variable_tokens_helper, find_contract, connect, get_first_signer,
}
use palmy_protocol.Examples.Deploy.{free, stored}

abbrev no_rates : History → Event → Bool
no_rates h (set_oracle_borrow_rates assets rates oracle) = true
no_rates h e = false

-- A network with a name, which refuses to set borrow rates.
abbrev at_network : String → Env
at_network name = record {
  tests = free.tests;
  network = name;
  fork = none;
  etherscan_key = false;
  db_entry = free.db_entry;
  new_address = free.new_address;
  sender = free.sender;
  refuses = no_rates;
  contains = str_eq;
  verify_error = free.verify_error;
  collateral_enabled = free.collateral_enabled;
}

abbrev oasys : Env
oasys = at_network "oasys"

abbrev assets : Dict String
assets =
    ("WOAS", "0x5200000000000000000000000000000000000001")
    ∷ ("WETH", "0x5801E5a61164024Be2554248E33127c6ebC8C113")
    ∷ ("WBTC", "0xdd30c42D57a0f14DD44c809F59836D57392FDbC9")
    ∷ ("USDC", "0x4D17C0609B77e456Fb98Ea99a62bCeF09adae32D")
    ∷ ("MCHC", "0x5B1CC635E524cAbb63a581c050C895534755F297")
    ∷ []

lending_rates-Selects_example : Selects ⦃env = oasys⦄ palmy_config assets []
unfolding lookup
lending_rates-Selects_example = lending_rates-Selects ⦃env = oasys⦄ palmy_config assets [] refl

abbrev rates : Dict String
rates = filter_map_by palmy_config.lending_rate_oracle_rates_common (λ k. includes (keys assets) k)

abbrev signers : List String
signers = "0xd0" ∷ []

-- The database has the helper.
abbrev saved : History
saved = db_set "StableAndVariableTokensHelper" (record { address = "0xa1"; deployer = none }) ∷ []

selects : get_lending_rate_oracles ⦃env = oasys⦄ palmy_config saved ≡ (ok rates, saved)
unfolding get_lending_rate_oracles lookup
selects = refl

abbrev refusal : Error
refusal = rejected (
    set_oracle_borrow_rates
      ("0x5801E5a61164024Be2554248E33127c6ebC8C113" ∷ "0x5200000000000000000000000000000000000001"
        ∷ "0x4D17C0609B77e456Fb98Ea99a62bCeF09adae32D"
        ∷ "0xdd30c42D57a0f14DD44c809F59836D57392FDbC9" ∷ [])
      ("30000000000000000000000000" ∷ "39000000000000000000000000" ∷ "39000000000000000000000000"
        ∷ "30000000000000000000000000" ∷ [])
      "0xb1")

refuses :
    set_initial_market_rates_in_rates_oracle_by_helper ⦃env = oasys⦄ signers rates assets "0xb1"
      "0xa2" saved
    ≡ (err refusal, saved ++ (transfer_ownership "0xa1" ∷ []))
unfolding set_initial_market_rates_in_rates_oracle_by_helper get_stable_and_variable_tokens_helper
    find_contract connect get_first_signer collect lookup insert assign filter_map_loop
    filter_map_by chunk chunk_loop perform perform_all ◌>>=◌
refuses = refl

market_rates-err_example :
    IsRejected refusal
    ⊎ ((refusal ≡ type_error) × (stored saved "StableAndVariableTokensHelper" ≡ none))
unfolding lookup
market_rates-err_example =
    market_rates-err ⦃env = oasys⦄ signers palmy_config assets rates "0xb1" "0xa2" saved saved
      (saved ++ (transfer_ownership "0xa1" ∷ [])) refusal known selects refuses
  where
    known : lookup "oasys" palmy_config.reserve_assets ≡ some assets
    known = refl

abbrev mocked : History
mocked = (get_weth_address ⦃env = oasys⦄ palmy_config []).1

mocks : get_weth_address ⦃env = oasys⦄ palmy_config [] ≡ (ok "0xc1", mocked)
unfolding get_weth_address get_param_per_network select_network lookup deploy_weth_mocked deploy
    with_save_and_verify register_contract_in_json_db perform ◌>>=◌
mocks = refl

quotes :
    get_quote_currency ⦃env = oasys⦄ palmy_config []
    ≡ (ok "0x10F7Fc1F91Ba351f9C629c5947AD69bD03C05b96", [])
unfolding get_quote_currency
quotes = refl
