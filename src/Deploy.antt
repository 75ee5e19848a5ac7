-- ===== src/Deploy.antt =====
-- What the deployment scripts do to the outside: transactions, contract creations, verification runs
-- and writes to the JSON database deployed-contracts.json, in order. A script is an action that reads
-- the history of these events, may throw, and keeps the events that came before the throw.
-- Everything that answers the scripts (lowdb, the chain, the environment) is the record `Env`.
pub mod Verify
pub mod Registry
pub mod Contracts
pub mod Reserves
pub mod Oracles
pub mod Market
pub mod Getters
pub mod Events
use palmy_protocol.Prelude.{
  ℕ, String, Bool, true, false, Option, none, some, List, [], ◌∷◌, ◌++◌, ◌≡◌, refl, if◌then◌else◌,
  str_eq, Dict,
}
use palmy_protocol.Misc.{AddressTests}

-- An entry of the database; `deployer` is absent from entries that are written by hand.
pub record DbEntry : Type 0 where
  pub address : String
  pub deployer : Option String

-- The input of `batchInitReserve`.
pub record InitReserveInput : Type 0 where
  pub ltoken_impl : String
  pub stable_debt_token_impl : String
  pub variable_debt_token_impl : String
  pub underlying_asset_decimals : String
  pub interest_rate_strategy_address : String
  pub underlying_asset : String
  pub treasury : String
  pub incentives_controller : String
  pub underlying_asset_name : String
  pub ltoken_name : String
  pub ltoken_symbol : String
  pub variable_debt_token_name : String
  pub variable_debt_token_symbol : String
  pub stable_debt_token_name : String
  pub stable_debt_token_symbol : String
  pub params : String

-- The input of `configureReserves`.
pub record ConfigureReserveInput : Type 0 where
  pub asset : String
  pub base_ltv : String
  pub liquidation_threshold : String
  pub liquidation_bonus : String
  pub reserve_factor : String
  pub stable_borrowing_enabled : Bool
  pub borrowing_enabled : Bool

-- An argument of a constructor: a string, or an array of strings.
pub data Argument : Type 0 where
  text : String → Argument
  texts : List String → Argument

-- The parameters of one run of the verification task; the source writes the constructor's arguments to a
-- temporary file and passes its path.
pub record VerifyParams : Type 0 where
  pub address : String
  pub constructor_arguments : List Argument
  pub libraries : Option String
  pub related_sources : Bool

pub data Event : Type 0 where
  -- a contract creation: the factory and the constructor's arguments
  deployed : String → List String → Event
  -- the same of a contract that is linked to libraries, by name or placeholder
  deployed_linked : String → Dict String → Event
  -- the same of an aggregator, whose arguments are assets and prices
  deployed_aggregator : List String → List String → Event
  -- getDb().set(`${id}.${network}`, entry).write()
  db_set : String → DbEntry → Event
  -- DRE.run('verify', params), and the removal of the temporary file
  verify_run : VerifyParams → Event
  cleanup : Event
  -- transactions
  initialized : String → List String → Event
  authorize_lending_pool : String → String → Event
  batch_init_reserve : List InitReserveInput → Event
  set_pool_admin : String → Event
  configure_reserves : List ConfigureReserveInput → Event
  transfer_ownership : String → Event
  set_oracle_borrow_rates : List String → List String → String → Event
  set_oracle_ownership : String → String → Event
  set_asset_price : String → String → Event
  submit_prices : List String → List String → Event

pub data Error : Type 0 where
  token_address_undefined : String → Error
  strategy_address_undefined : String → Error
  ltoken_impl_undefined stable_impl_undefined variable_impl_undefined : Error
  underlying_undefined : String → Error
  treasury_undefined : Error
  missing_contract_address : String → Error
  missing_deployment_script : String → Error
  missing_etherscan_key : Error
  network_not_supported : String → Error
  type_error : Error
  native_token_not_set : Error
  quote_not_set : String → Error
  rejected : Event → Error
  call_rejected : String → Error

pub data Result {ℓ} (A : Type ℓ) : Type ℓ where
  ok : A → Result A
  err : Error → Result A

abbrev pub History : Type 0
History = List Event

pub record Env : Type 0 where
  pub tests : AddressTests
  -- DRE.network.name, process.env.FORK, whether process.env.ETHERSCAN_KEY is set
  pub network : String
  pub fork : Option String
  pub etherscan_key : Bool
  -- getDb().get(`${id}.${network}`).value()
  pub db_entry : History → String → Option DbEntry
  -- the address of the instance that the last creation made, and of its sender
  pub new_address : History → String
  pub sender : String
  -- whether an event is refused: the transaction reverts, the task throws
  pub refuses : History → Event → Bool
  -- text.includes(part), of an error's message or the name of a network
  pub contains : String → String → Bool
  -- the message of a verification run that throws
  pub verify_error : History → VerifyParams → Option String
  -- getReserveConfigurationData(token).usageAsCollateralEnabled; `none` where the call is rejected
  pub collateral_enabled : History → String → Option Bool

abbrev pub Exec : Type 0 → Type 0
Exec A = History → Result A × History

module _ {A : Type 0} where
  abbrev pub pure : A → Exec A
  pure a h = (ok a, h)

  abbrev pub throw : Error → Exec A
  throw e h = (err e, h)

  abbrev pub read : (History → A) → Exec A
  read f h = (ok (f h), h)

module _ {A B : Type 0} where
  abbrev pub continue : Result A → (A → Exec B) → Exec B
  continue (ok a) f h = f a h
  continue (err e) f h = (err e, h)

  infixl 5 ◌>>=◌ ◌>>◌
  unfoldable pub ◌>>=◌ : Exec A → (A → Exec B) → Exec B
  ◌>>=◌ m f h = continue (m h).0 f (m h).1

  abbrev pub ◌>>◌ : Exec A → Exec B → Exec B
  m >> k = m >>= λ _. k

abbrev pub unless : Bool → Error → Exec (Unit {0})
unless true e = pure tt
unless false e = throw e

abbrev pub when : Bool → Exec (Unit {0}) → Exec (Unit {0})
when true m = m
when false m = pure tt

module _ ⦃env : Env⦄ where
  unfoldable pub perform : Event → Exec (Unit {0})
  perform e h = if env.refuses h e then (err (rejected e), h) else (ok tt, h ++ (e ∷ []))

-- How lowdb behaves: a read sees the last write at its path, and nothing else writes.
pub record IsDb (env : Env) : Type 0 where
  pub after_set :
      (h : History) (id : String) (e : DbEntry) (j : String)
      → env.db_entry (h ++ (db_set id e ∷ [])) j
        ≡ (if str_eq id j then some e else env.db_entry h j)
