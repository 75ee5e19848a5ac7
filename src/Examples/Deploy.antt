-- ===== src/Examples/Deploy.antt =====
-- A deployment on a test network with two reserves, of which one has no token address.
use palmy_protocol.Prelude.{
  List, ◌≡◌, refl, Bool, true, false, Option, none, some, [], ◌∷◌, ◌++◌, String, str_eq,
  if◌then◌else◌, Dict, lookup, insert, inl, inr, All,
}
use palmy_protocol.Misc.{not_falsy_or_zero_address, chunk, chunk_loop}
use palmy_protocol.Types.{ReserveParams}
use palmy_protocol.Deploy.{
  Env, Event, Error, db_set, configure_reserves, DbEntry, IsDb, History, ok, err, ◌>>=◌, perform,
  rejected, VerifyParams, InitReserveInput, missing_contract_address,
}
use palmy_protocol.Deploy.Verify.{run_task_with_retry}
use palmy_protocol.Deploy.Verify.Retries.{Runs, run_task-Runs}
use palmy_protocol.Deploy.Registry.{
  zero_address, select_network, get_param_per_network, get_optional_param_address_per_network,
  register_contract_in_json_db, get_contract_address_with_json_fallback, deploy,
  with_save_and_verify, raw_insert_contract_address_in_db,
}
use palmy_protocol.Deploy.Registry.Lookup.{at_market, register-get_contract_address}
use palmy_protocol.Deploy.Registry.Store.{IsStore, written_id}
use palmy_protocol.Deploy.Contracts.{
  deploy_rate_strategy, deploy_default_reserve_interest_rate_strategy,
}
use palmy_protocol.Deploy.Reserves.{
  InitSettings, at_provider, prepare_reserves, init_reserves_by_helper,
  configure_reserves_by_helper, perform_all, already_enabled, select_reserves, configure_selected,
  strategy_of, checked_input, init_input, get_ltoken_extra_params,
}
use palmy_protocol.Deploy.Reserves.Batches.{Sends, IsNotBatch, init_reserves-ok, init_reserves-err}
use palmy_protocol.Deploy.Reserves.Inputs.{IsUsable, listed, prepare_reserves-ok}
use palmy_protocol.Deploy.Reserves.Bracket.{Configures}
use palmy_protocol.Deploy.Reserves.Configuration.{
  Fails, configure_reserves-ok, configure_reserves-err,
}
use palmy_protocol.Deploy.Getters.{
  Contract, get_lending_pool_configurator_proxy, get_lending_pool_addresses_provider,
  get_ltokens_and_rates_helper, find_contract, connect, get_first_signer,
}
use palmy_protocol.Deploy.Reserves.Progress.{HasUsableToken, IsServing, configure_reserves-returns}
use palmy_protocol.Deploy.Events.{Extends}

abbrev pick : Option DbEntry → Option DbEntry → Option DbEntry
pick none early = early
pick (some late) early = some late

abbrev written : Event → String → Option DbEntry
written (db_set j e) id = if str_eq j id then some e else none
written event id = none

-- The last write at an id.
abbrev pub stored : History → String → Option DbEntry
stored [] id = none
stored (event ∷ h) id = pick (stored h id) (written event id)

abbrev always : History → Event → Bool
always h e = false

-- A network that refuses configurations.
abbrev no_configuration : History → Event → Bool
no_configuration h (configure_reserves inputs) = true
no_configuration h e = false

abbrev sample : (History → Event → Bool) → Env
sample refuses = record {
  tests = record { is_address = λ a. not_empty a; is_zero_address = λ a. str_eq a zero_address };
  network = "testnet";
  fork = none;
  etherscan_key = true;
  db_entry = stored;
  new_address = λ h. "0xc1";
  sender = "0xd0";
  refuses = refuses;
  contains = λ message part. false;
  verify_error = λ h params. some "busy";
  collateral_enabled = λ h token. some false;
}
  where
    not_empty : String → Bool
    not_empty a = if str_eq a "" then false else true

stored-after :
    (h : History) (id : String) (e : DbEntry) (j : String)
    → stored (h ++ (db_set id e ∷ [])) j ≡ (if str_eq id j then some e else stored h j)
stored-after [] id e j = refl
stored-after (event ∷ h) id e j = rw (stored-after h id e j) (late (str_eq id j))
  where
    late :
        (b : Bool)
        → pick (if b then some e else stored h j) (written event j)
          ≡ (if b then some e else pick (stored h j) (written event j))
    late true = refl
    late false = refl

abbrev pub free : Env
free = sample always

abbrev strict : Env
strict = sample no_configuration

free-IsDb : IsDb free
free-IsDb = record { after_set = stored-after }

written-other : (e : Event) (id : String) → written_id e ≡ none → written e id ≡ none
written-other (db_set j entry) id n = cc
written-other e id n = refl

stored-other :
    (h : History) (e : Event) (id : String)
    → written_id e ≡ none
    → stored (h ++ (e ∷ [])) id ≡ stored h id
stored-other [] e id n = rw (written-other e id n) refl
stored-other (event ∷ h) e id n = rw (stored-other h e id n) refl

pub free-IsStore : IsStore free
free-IsStore = record { db = free-IsDb; after_other = stored-other }

abbrev weth : ReserveParams
weth = record {
  borrowing_enabled = true;
  stable_borrow_rate_enabled = true;
  reserve_decimals = "18";
  base_ltv_as_collateral = "8000";
  liquidation_threshold = "8250";
  liquidation_bonus = "10500";
  ltoken_impl = "LToken";
  reserve_factor = "1000";
  strategy = record {
    name = "rateStrategyWETH";
    optimal_utilization_rate = "65";
    base_variable_borrow_rate = "0";
    variable_rate_slope1 = "8";
    variable_rate_slope2 = "100";
    stable_rate_slope1 = "10";
    stable_rate_slope2 = "100";
  };
}

abbrev pub reserves : Dict ReserveParams
reserves = ("WETH", weth) ∷ ("USDC", weth) ∷ []

abbrev tokens : Dict String
tokens = ("WETH", "0xe1") ∷ []

-- The token implementations, as the market configures them on the test network.
abbrev config : String → Option (Dict String)
config id = some (("testnet", "0xf1") ∷ [])

abbrev no_config : String → Option (Dict String)
no_config id = none

abbrev settings : (String → Option (Dict String)) → InitSettings
settings config = record {
  token_addresses = tokens;
  ltoken_name_prefix = "Palmy";
  stable_debt_token_name_prefix = "Palmy stable debt";
  variable_debt_token_name_prefix = "Palmy variable debt";
  symbol_prefix = "";
  treasury_address = "0xd1";
  incentives_controller = "0xd2";
  verify = false;
  address_provider = "0xd3";
  config = config;
}

abbrev params : VerifyParams
params = record {
  address = "0xc1";
  constructor_arguments = [];
  libraries = none;
  related_sources = true;
}

run_task-Runs_example : Runs ⦃env = free⦄ 4 [] (run_task_with_retry ⦃env = free⦄ 4 params [])
run_task-Runs_example = run_task-Runs ⦃env = free⦄ 4 params []

abbrev signers : List String
signers = "0xd0" ∷ []

abbrev provider_at : Contract
provider_at = connect signers "LendingPoolAddressesProvider" "0xd3"

provided :
    get_lending_pool_addresses_provider ⦃env = free⦄ signers (some "0xd3") [] ≡ (ok provider_at, [])
unfolding get_lending_pool_addresses_provider find_contract ◌>>=◌
provided = refl

abbrev initialised : History
initialised =
    (init_reserves_by_helper ⦃env = free⦄ signers (some "0xd3") (some "0xd4") (settings config)
      reserves [] []).1

initialises :
    init_reserves_by_helper ⦃env = free⦄ signers
      (some "0xd3")
      (some "0xd4")
      (settings config)
      reserves
      []
      []
    ≡ (ok tt, initialised)
unfolding init_reserves_by_helper get_lending_pool_addresses_provider
    get_lending_pool_configurator_proxy find_contract connect get_first_signer prepare_reserves
    strategy_of checked_input init_input get_ltoken_extra_params deploy_rate_strategy
    deploy_default_reserve_interest_rate_strategy deploy with_save_and_verify
    raw_insert_contract_address_in_db register_contract_in_json_db
    get_contract_address_with_json_fallback get_optional_param_address_per_network
    get_param_per_network select_network lookup insert not_falsy_or_zero_address chunk chunk_loop
    perform perform_all ◌>>=◌
initialises = refl

init_reserves-ok_example :
    (provider : Contract) × (get_lending_pool_addresses_provider ⦃env = free⦄ signers
        (some "0xd3")
        []
      ≡ (ok provider, []))
    × Sends ⦃env = free⦄ (at_provider provider (settings config)) reserves [] [] initialised
init_reserves-ok_example =
    init_reserves-ok ⦃env = free⦄ signers (some "0xd3") (some "0xd4") (settings config) reserves []
      [] initialised initialises

-- With no implementation in the market configuration or the database, the preparation throws.
abbrev unprepared : History
unprepared = (prepare_reserves ⦃env = free⦄ (settings no_config) reserves [] [] []).1

fails_to_prepare :
    prepare_reserves ⦃env = free⦄ (settings no_config) reserves [] [] []
    ≡ (err (missing_contract_address "LToken"), unprepared)
unfolding prepare_reserves connect strategy_of checked_input deploy_rate_strategy
    deploy_default_reserve_interest_rate_strategy deploy with_save_and_verify
    raw_insert_contract_address_in_db register_contract_in_json_db
    get_contract_address_with_json_fallback get_optional_param_address_per_network lookup insert
    not_falsy_or_zero_address perform ◌>>=◌
fails_to_prepare = refl

init_reserves-err_example :
    (init_reserves_by_helper ⦃env = free⦄ signers
        (some "0xd3")
        (some "0xd4")
        (settings no_config)
        reserves
        []
        []
      ≡ (err (missing_contract_address "LToken"), unprepared))
    × Extends IsNotBatch [] unprepared
unfolding connect
init_reserves-err_example =
    init_reserves-err ⦃env = free⦄ signers (some "0xd3") (some "0xd4") provider_at
      (settings no_config) reserves [] [] unprepared (missing_contract_address "LToken") provided
      fails_to_prepare

abbrev prepared : History
prepared = (prepare_reserves ⦃env = free⦄ (settings config) reserves [] [] []).1

abbrev weth_input : InitReserveInput
weth_input = init_input (settings config) "WETH" weth "0xe1" "0xf1" "0xf1" "0xf1" "0xc1"

prepares :
    prepare_reserves ⦃env = free⦄ (settings config) reserves [] [] []
    ≡ (ok (weth_input ∷ []), prepared)
unfolding prepare_reserves strategy_of checked_input init_input deploy_rate_strategy
    deploy_default_reserve_interest_rate_strategy deploy with_save_and_verify
    raw_insert_contract_address_in_db register_contract_in_json_db
    get_contract_address_with_json_fallback get_optional_param_address_per_network
    get_param_per_network select_network lookup insert not_falsy_or_zero_address perform ◌>>=◌
prepares = refl

prepare_reserves-ok_example :
    All (IsUsable ⦃env = free⦄) (weth_input ∷ [])
    × ((weth_input.underlying_asset_name ∷ []) ≡ listed tokens reserves)
unfolding init_input lookup
prepare_reserves-ok_example =
    prepare_reserves-ok ⦃env = free⦄ (settings config) reserves [] [] (weth_input ∷ []) [] prepared
      prepares tt

abbrev configured : History
configured =
    (configure_reserves_by_helper ⦃env = free⦄ signers (some "0xd3") (some "0xa1") "0xa2" reserves
      tokens []).1

configures :
    configure_reserves_by_helper ⦃env = free⦄ signers
      (some "0xd3")
      (some "0xa1")
      "0xa2"
      reserves
      tokens
      []
    ≡ (ok tt, configured)
unfolding configure_reserves_by_helper select_reserves configure_selected already_enabled lookup
    get_lending_pool_addresses_provider get_ltokens_and_rates_helper find_contract connect
    get_first_signer not_falsy_or_zero_address chunk chunk_loop perform perform_all ◌>>=◌
configures = refl

configure_reserves-ok_example :
    (helper : Contract) × (get_ltokens_and_rates_helper ⦃env = free⦄ signers (some "0xa1") []
      ≡ (ok helper, []))
    × Configures ⦃env = free⦄ helper.address "0xa2" reserves tokens [] configured
configure_reserves-ok_example =
    configure_reserves-ok ⦃env = free⦄ signers (some "0xd3") (some "0xa1") "0xa2" reserves tokens []
      configured configures

abbrev stopped : History
stopped =
    (configure_reserves_by_helper ⦃env = strict⦄ signers (some "0xd3") (some "0xa1") "0xa2" reserves
      tokens []).1

abbrev refusal : Error
refusal = rejected (
    configure_reserves (
      (record {
        asset = "0xe1";
        base_ltv = "8000";
        liquidation_threshold = "8250";
        liquidation_bonus = "10500";
        reserve_factor = "1000";
        stable_borrowing_enabled = true;
        borrowing_enabled = true;
      })
      ∷ []))

stops :
    configure_reserves_by_helper ⦃env = strict⦄ signers
      (some "0xd3")
      (some "0xa1")
      "0xa2"
      reserves
      tokens
      []
    ≡ (err refusal, stopped)
unfolding configure_reserves_by_helper select_reserves configure_selected already_enabled lookup
    get_lending_pool_addresses_provider get_ltokens_and_rates_helper find_contract connect
    get_first_signer not_falsy_or_zero_address chunk chunk_loop perform perform_all ◌>>=◌
stops = refl

configure_reserves-err_example : Fails ⦃env = strict⦄ signers (some "0xa1") (some "0xa2") stopped []
configure_reserves-err_example =
    configure_reserves-err ⦃env = strict⦄ signers (some "0xd3") (some "0xa1") "0xa2" reserves tokens
      [] stopped refusal (some "0xa2") stops

free-IsServing : IsServing free
free-IsServing = record { accepts = λ h. λ e. refl; answers = λ h. λ token. (false, refl) }

usable : All (HasUsableToken free tokens) reserves
unfolding lookup not_falsy_or_zero_address
usable = (inr refl, (inl refl, tt))

configure_reserves-returns_example :
    (h' : History) × (configure_reserves_by_helper ⦃env = free⦄ signers
        (some "0xd3")
        (some "0xa1")
        "0xa2"
        reserves
        tokens
        []
      ≡ (ok tt, h'))
    × (helper : Contract) × (get_ltokens_and_rates_helper ⦃env = free⦄ signers (some "0xa1") []
        ≡ (ok helper, []))
    × Configures ⦃env = free⦄ helper.address "0xa2" reserves tokens [] h'
configure_reserves-returns_example =
    configure_reserves-returns ⦃env = free⦄ free-IsServing signers (some "0xd3") (some "0xa1")
      "0xa2" reserves tokens [] (inl ("0xd3", refl)) (inl ("0xa1", refl)) usable

abbrev registered : History
registered = db_set "LToken" (record { address = "0xf2"; deployer = some "0xd0" }) ∷ []

register-get_contract_address_example :
    get_contract_address_with_json_fallback ⦃env = free⦄ no_config "LToken" registered
    ≡ (ok "0xf2", registered)
unfolding register_contract_in_json_db perform not_falsy_or_zero_address
    get_optional_param_address_per_network
register-get_contract_address_example =
    register-get_contract_address ⦃env = free⦄ free-IsDb no_config "LToken" "0xf2" [] registered
      registers no_market refl
  where
    registers : register_contract_in_json_db ⦃env = free⦄ "LToken" "0xf2" [] ≡ (ok tt, registered)
    registers = refl

    no_market : not_falsy_or_zero_address free.tests (at_market free no_config "LToken") ≡ false
    no_market = refl
