-- ===== src/Deploy/Registry.antt =====
-- helpers/contracts-helpers.ts: parameters per network and pool, the registry of deployed contracts in
-- the JSON database, and `withSaveAndVerify`.
pub mod Lookup
pub mod Saves
pub mod Store
pub mod Linking
use palmy_protocol.Prelude.{
  String, Bool, true, false, Option, none, some, List, [], ◌∷◌, if◌then◌else◌, str_eq, Dict, lookup,
}
use palmy_protocol.Misc.{not_falsy_or_zero_address}
use palmy_protocol.Types.{PalmyPools, proto}
use palmy_protocol.Deploy.{
  Env, DbEntry, Argument, Event, deployed, db_set, Exec, Result, ok, err, pure, throw, read,
  perform, when, ◌>>=◌, ◌>>◌, missing_contract_address,
}
use palmy_protocol.Deploy.Verify.{verify_etherscan_contract}

abbrev pub zero_address : String
zero_address = "0x0000000000000000000000000000000000000000"

-- a || b, for strings: undefined and the empty string are falsy
abbrev pub truthy : Option String → Option String
truthy none = none
truthy (some s) = if str_eq s "" then none else some s

module _ {A : Type 0} where
  -- The switch on the network name; `hardhat` has the parameter of `buidlerevm`.
  unfoldable pub select_network : Dict A → String → Option A
  select_network param network =
      if str_eq network "coverage"
      then lookup "coverage" param
      else if str_eq network "buidlerevm"
      then lookup "buidlerevm" param
      else if str_eq network "hardhat"
      then lookup "buidlerevm" param
      else if str_eq network "tenderly"
      then lookup "tenderly" param
      else if str_eq network "testnet"
      then lookup "testnet" param
      else if str_eq network "oasys"
      then lookup "oasys" param
      else none

  -- `fork` is process.env.FORK
  unfoldable pub get_param_per_network : Option String → Dict A → String → Option A
  unfolding select_network
  get_param_per_network fork param network = elim (truthy fork) [
    | none ↦ select_network param network
    | some name ↦ lookup name param
  ]

  unfoldable pub get_param_per_pool : A → PalmyPools → A
  get_param_per_pool param proto = param

unfoldable pub get_optional_param_address_per_network :
    Option String → Option (Dict String) → String → Option String
unfolding get_param_per_network
get_optional_param_address_per_network fork none network = some zero_address
get_optional_param_address_per_network fork (some param) network =
    get_param_per_network fork param network

module _ ⦃env : Env⦄ where
  unfoldable pub register_contract_in_json_db : String → String → Exec (Unit {0})
  register_contract_in_json_db contract_id address =
      perform (db_set contract_id (record { address = address; deployer = some env.sender }))

  unfoldable pub insert_contract_address_in_db : String → String → Exec (Unit {0})
  insert_contract_address_in_db id address =
      perform (db_set id (record { address = address; deployer = none }))

  unfoldable pub raw_insert_contract_address_in_db : String → String → Exec (Unit {0})
  raw_insert_contract_address_in_db id address =
      perform (db_set id (record { address = address; deployer = none }))

  -- new Factory(signer).deploy(...args), with the address of the instance
  unfoldable pub deploy : String → List String → Exec String
  deploy factory args = do perform (deployed factory args); read env.new_address

  unfoldable pub with_save_and_verify : String → String → List Argument → Bool → Exec String
  unfolding register_contract_in_json_db
  with_save_and_verify address id arguments verify = do
    register_contract_in_json_db id address
    when verify (verify_etherscan_contract address arguments none)
    pure address

  unfoldable pub register_contract_address_in_json_db : String → String → String → Exec (Unit {0})
  register_contract_address_in_json_db contract_id address deployer =
      perform (db_set contract_id (record { address = address; deployer = some deployer }))

  unfoldable pub deploy_contract : String → List String → Exec String
  unfolding register_contract_in_json_db
  deploy_contract contract_name args = do
    contract ← deploy contract_name args
    register_contract_in_json_db contract_name contract
    pure contract

  -- The entry's address, where there is one.
  abbrev pub entry_address : Option DbEntry → Option String
  entry_address none = none
  entry_address (some e) = truthy (some e.address)

  abbrev pub or_missing : String → Option String → Exec String
  or_missing id none = throw (missing_contract_address id)
  or_missing id (some a) = pure a

  -- `config` is the market configuration by contract id, poolConfig[id]
  unfoldable pub get_contract_address_with_json_fallback :
      (String → Option (Dict String)) → String → Exec String
  unfolding get_optional_param_address_per_network
  get_contract_address_with_json_fallback config id =
      let at_market = get_optional_param_address_per_network env.fork (config id) env.network in
      elim (not_falsy_or_zero_address env.tests at_market) [
        | true ↦ or_missing id at_market
        | false ↦ do entry ← read (λ h. env.db_entry h id); or_missing id (entry_address entry)
      ]
