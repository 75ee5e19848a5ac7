-- ===== src/Deploy/Contracts/Libraries.antt =====
-- helpers/contracts-deployments.ts: the logic libraries and the pools that are linked to them.
use palmy_protocol.Prelude.{String, Bool, [], ◌∷◌, Dict}
use palmy_protocol.Deploy.{Env, deployed_linked, Exec, perform, read, pure, ◌>>=◌, ◌>>◌}
use palmy_protocol.Deploy.Registry.{deploy, with_save_and_verify, insert_contract_address_in_db}

-- LendingPoolLibraryAddresses: addresses by the placeholders of the bytecode
unfoldable pub to_palmy_libs : String → String → Dict String
to_palmy_libs validation_logic_address reserve_logic_address =
    ("__$22cd43a9dda9ce44e9b92ba393b88fb9ac$__", reserve_logic_address)
    ∷ ("__$de8c0cf1a7d7c36c802af9a64fb9d86036$__", validation_logic_address)
    ∷ []

module _ ⦃env : Env⦄ where
  abbrev pub deploy_linked : String → Dict String → Exec String
  deploy_linked factory libraries = do
    perform (deployed_linked factory libraries)
    read env.new_address

  unfoldable pub deploy_reserve_logic_library : Bool → Exec String
  deploy_reserve_logic_library verify = do
    contract ← deploy "ReserveLogic" []
    with_save_and_verify contract "ReserveLogic" [] verify

  unfoldable pub deploy_generic_logic : String → Bool → Exec String
  deploy_generic_logic reserve_logic verify = do
    generic_logic ← deploy_linked "GenericLogic" (("ReserveLogic", reserve_logic) ∷ [])
    with_save_and_verify generic_logic "GenericLogic" [] verify

  unfoldable pub deploy_validation_logic : String → String → Bool → Exec String
  deploy_validation_logic reserve_logic generic_logic verify = do
    validation_logic ←
        deploy_linked "ValidationLogic"
          (("ReserveLogic", reserve_logic) ∷ ("GenericLogic", generic_logic) ∷ [])
    with_save_and_verify validation_logic "ValidationLogic" [] verify

  unfoldable pub deploy_palmy_libraries : Bool → Exec (Dict String)
  unfolding to_palmy_libs
  deploy_palmy_libraries verify = do
    reserve_logic ← deploy_reserve_logic_library verify
    generic_logic ← deploy_generic_logic reserve_logic verify
    validation_logic ← deploy_validation_logic reserve_logic generic_logic verify
    pure (to_palmy_libs validation_logic reserve_logic)

  -- What the three pools share: the factory, the entry of the implementation, the entry of the pool.
  abbrev pub deploy_pool : String → String → String → Bool → Exec String
  deploy_pool factory impl_id id verify = do
    libraries ← deploy_palmy_libraries verify
    lending_pool_impl ← deploy_linked factory libraries
    insert_contract_address_in_db impl_id lending_pool_impl
    with_save_and_verify lending_pool_impl id [] verify

  unfoldable pub deploy_lending_pool : Bool → Exec String
  deploy_lending_pool verify = deploy_pool "LendingPool" "LendingPoolImpl" "LendingPool" verify

  unfoldable pub deploy_lending_pool_tmp : Bool → Exec String
  deploy_lending_pool_tmp verify =
      deploy_pool "LendingPoolTmp" "LendingPoolTmpImpl" "LendingPoolTmpImpl" verify

  unfoldable pub deploy_lending_pool_v4 : Bool → Exec String
  deploy_lending_pool_v4 verify =
      deploy_pool "LendingPoolV4" "LendingPoolV4Impl" "LendingPoolV4Impl" verify
