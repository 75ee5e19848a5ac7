-- ===== src/Deploy/Contracts/Tokens.antt =====
-- helpers/contracts-deployments.ts: tokens, which are initialised after their creation, and the token
-- implementations of a market.
use palmy_protocol.Prelude.{
  String, Bool, false, Option, none, some, List, [], ◌∷◌, ◌++◌, if◌then◌else◌, str_eq, Dict, lookup,
  insert, includes, map,
}
use palmy_protocol.Misc.{not_falsy_or_zero_address}
use palmy_protocol.Types.{ReserveParams}
use palmy_protocol.Deploy.{
  text, Env, initialized, Exec, perform, pure, throw, ◌>>=◌, ◌>>◌, missing_deployment_script,
}
use palmy_protocol.Deploy.Registry.{
  deploy, with_save_and_verify, register_contract_in_json_db,
  get_optional_param_address_per_network,
}

-- The five first arguments of a debt token, and the parameters that come last.
pub record DebtTokenArgs : Type 0 where
  pub pool : String
  pub underlying_asset : String
  pub incentives_controller : String
  pub name : String
  pub symbol : String
  pub params : String

pub record LTokenArgs : Type 0 where
  pub pool : String
  pub underlying_asset : String
  pub treasury : String
  pub incentives_controller : String
  pub name : String
  pub symbol : String
  pub params : String

-- TokenContractId
abbrev pub token_contract_ids : List String
token_contract_ids = "WETH" ∷ "USD" ∷ "WOAS" ∷ "USDC" ∷ "USDT" ∷ "WBTC" ∷ []

-- The set of the implementations of all reserves, in the order in which they are met first.
unfoldable pub ltoken_implementations : Dict ReserveParams → List String → List String
ltoken_implementations [] acc = acc
ltoken_implementations ((symbol, entry) ∷ rest) acc =
    ltoken_implementations rest
      (if includes acc entry.ltoken_impl then acc else acc ++ (entry.ltoken_impl ∷ []))

module _ ⦃env : Env⦄ where
  abbrev pub saved : String → String → Bool → Exec String
  saved factory id verify = do
    contract ← deploy factory []
    with_save_and_verify contract id [] verify

  -- instance.initialize(args[0], args[1], args[2], '18', args[3], args[4], params)
  abbrev pub initialize_debt_token : String → DebtTokenArgs → Exec String
  initialize_debt_token contract args = do
    perform (
        initialized contract (
          args.pool ∷ args.underlying_asset ∷ args.incentives_controller ∷ "18" ∷ args.name
          ∷ args.symbol ∷ args.params ∷ []))
    pure contract

  -- instance.initialize(pool, treasury, underlying, incentives, '18', name, symbol, params)
  abbrev pub initialize_ltoken : String → LTokenArgs → Exec String
  initialize_ltoken contract args = do
    perform (
        initialized contract (
          args.pool ∷ args.treasury ∷ args.underlying_asset ∷ args.incentives_controller ∷ "18"
          ∷ args.name ∷ args.symbol ∷ args.params ∷ []))
    pure contract

  unfoldable pub deploy_stable_debt_token : DebtTokenArgs → Bool → Exec String
  deploy_stable_debt_token args verify = do
    contract ← saved "StableDebtToken" "StableDebtToken" verify
    initialize_debt_token contract (record args { params = "0x10" })

  unfoldable pub deploy_variable_debt_token : DebtTokenArgs → Bool → Exec String
  deploy_variable_debt_token args verify = do
    contract ← saved "VariableDebtToken" "VariableDebtToken" verify
    initialize_debt_token contract (record args { params = "0x10" })

  unfoldable pub deploy_mock_stable_debt_token : DebtTokenArgs → Bool → Exec String
  deploy_mock_stable_debt_token args verify = do
    contract ← saved "MockStableDebtToken" "MockStableDebtToken" verify
    initialize_debt_token contract args

  unfoldable pub deploy_mock_variable_debt_token : DebtTokenArgs → Bool → Exec String
  deploy_mock_variable_debt_token args verify = do
    contract ← saved "MockVariableDebtToken" "MockVariableDebtToken" verify
    initialize_debt_token contract args

  unfoldable pub deploy_generic_ltoken : LTokenArgs → Bool → Exec String
  deploy_generic_ltoken args verify = do
    contract ← saved "LToken" "LToken" verify
    initialize_ltoken contract (record args { params = "0x10" })

  unfoldable pub deploy_delegation_aware_ltoken : LTokenArgs → Bool → Exec String
  deploy_delegation_aware_ltoken args verify = do
    contract ← saved "DelegationAwareLToken" "DelegationAwareLToken" verify
    initialize_ltoken contract (record args { params = "0x10" })

  unfoldable pub deploy_mock_ltoken : LTokenArgs → Bool → Exec String
  deploy_mock_ltoken args verify = do
    contract ← saved "MockLToken" "MockLToken" verify
    initialize_ltoken contract args

  unfoldable pub deploy_generic_stable_debt_token : Bool → Exec String
  deploy_generic_stable_debt_token verify = saved "StableDebtToken" "StableDebtToken" verify

  unfoldable pub deploy_generic_variable_debt_token : Bool → Exec String
  deploy_generic_variable_debt_token verify = saved "VariableDebtToken" "VariableDebtToken" verify

  unfoldable pub deploy_generic_ltoken_impl : Bool → Exec String
  deploy_generic_ltoken_impl verify = saved "LToken" "LToken" verify

  unfoldable pub deploy_delegation_aware_ltoken_impl : Bool → Exec String
  deploy_delegation_aware_ltoken_impl verify =
      saved "DelegationAwareLToken" "DelegationAwareLToken" verify

  unfoldable pub deploy_mintable_erc20 : List String → Bool → Exec String
  deploy_mintable_erc20 args verify = do
    contract ← deploy "MintableERC20" args
    with_save_and_verify contract "MintableERC20" (map text args) verify

  unfoldable pub deploy_mintable_delegation_erc20 : List String → Bool → Exec String
  deploy_mintable_delegation_erc20 args verify = do
    contract ← deploy "MintableDelegationERC20" args
    with_save_and_verify contract "MintableDelegationERC20" (map text args) verify

  unfoldable pub deploy_weth_mocked : Bool → Exec String
  deploy_weth_mocked verify = saved "WETH9Mocked" "WOASMocked" verify

  -- configData ? configData.reserveDecimals : '18'
  abbrev pub decimals_of : Option ReserveParams → String
  decimals_of none = "18"
  decimals_of (some params) = params.reserve_decimals

  abbrev pub deploy_mock_token : Dict ReserveParams → Bool → String → Exec String
  deploy_mock_token config verify symbol =
      if str_eq symbol "WOAS"
      then deploy_weth_mocked false
      else deploy_mintable_erc20 (symbol ∷ symbol ∷ decimals_of (lookup symbol config) ∷ []) verify

  -- The loop over the symbols. They are upper case already, so that toUpperCase changes none.
  unfoldable pub deploy_mock_tokens :
      Dict ReserveParams → Bool → List String → Dict String → Exec (Dict String)
  deploy_mock_tokens config verify [] tokens = pure tokens
  deploy_mock_tokens config verify (symbol ∷ symbols) tokens = do
    token ← deploy_mock_token config verify symbol
    register_contract_in_json_db symbol token
    deploy_mock_tokens config verify symbols (insert symbol token tokens)

  unfoldable pub deploy_all_mock_tokens : Dict ReserveParams → Bool → Exec (Dict String)
  unfolding deploy_mock_tokens
  deploy_all_mock_tokens config verify = deploy_mock_tokens config verify token_contract_ids []

  unfoldable pub choose_ltoken_deployment : String → Exec (Bool → Exec String)
  choose_ltoken_deployment id =
      if str_eq id "LToken"
      then pure deploy_generic_ltoken_impl
      else if str_eq id "DelegationAwareLToken"
      then pure deploy_delegation_aware_ltoken_impl
      else throw (missing_deployment_script id)

  -- The loop over the implementations; `config` is poolConfig[id].
  unfoldable pub deploy_implementations :
      (String → Option (Dict String)) → Bool → List String → Exec (Unit {0})
  unfolding choose_ltoken_deployment
  deploy_implementations config verify [] = pure tt
  deploy_implementations config verify (impl ∷ impls) =
      let address = get_optional_param_address_per_network env.fork (config impl) env.network in
      if not_falsy_or_zero_address env.tests address
      then deploy_implementations config verify impls
      else do
        method ← choose_ltoken_deployment impl
        method verify
        deploy_implementations config verify impls

  unfoldable pub deploy_ltoken_implementations :
      (String → Option (Dict String)) → Dict ReserveParams → Bool → Exec (Unit {0})
  unfolding deploy_implementations
  deploy_ltoken_implementations config reserves_config verify = do
    deploy_implementations config verify (ltoken_implementations reserves_config [])
    deploy_generic_stable_debt_token verify
    deploy_generic_variable_debt_token verify
    pure tt
