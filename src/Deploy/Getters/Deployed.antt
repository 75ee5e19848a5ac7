-- ===== src/Deploy/Getters/Deployed.antt =====
-- The getters of helpers/contracts-getters.ts find what helpers/contracts-deployments.ts saves.
use palmy_protocol.Prelude.{
  ◌≡◌, refl, subst, ◌∙◌, ap, Bool, false, Option, none, some, List, String, str_eq,
}
use palmy_protocol.Misc.{not_falsy_or_zero_address}
use palmy_protocol.Deploy.{
  Env, Event, DbEntry, Argument, History, Exec, ok, pure, continue, perform, ◌>>=◌, ◌>>◌,
}
use palmy_protocol.Deploy.Events.{Adds-perform, >>=-ok}
use palmy_protocol.Deploy.Registry.{with_save_and_verify, insert_contract_address_in_db}
use palmy_protocol.Deploy.Registry.Store.{
  IsStore, Holds, Holds-Adds, Holds-perform, Leaves, Leaves-other, Leaves-save, save-Holds,
  written_id, address_in,
}
use palmy_protocol.Deploy.Contracts.{
  deploy_chainsight_oracle, deploy_default_reserve_interest_rate_strategy,
  deploy_lending_pool_addresses_provider, deploy_lending_pool_addresses_provider_registry,
  deploy_lending_pool_collateral_manager, deploy_lending_pool_configurator,
  deploy_lending_rate_oracle, deploy_ltokens_and_rates_helper, deploy_mock_flash_loan_receiver,
  deploy_palmy_fallback_oracle, deploy_palmy_oracle, deploy_palmy_protocol_data_provider,
  deploy_price_aggregator_chainsight_impl, deploy_price_oracle, deploy_selfdestruct_transfer_mock,
  deploy_stable_and_variable_tokens_helper, deploy_stake_ui_helper, deploy_wallet_balancer_provider,
  deploy_weth_gateway,
}
use palmy_protocol.Deploy.Contracts.Libraries.{
  deploy_generic_logic, deploy_lending_pool, deploy_lending_pool_tmp, deploy_lending_pool_v4,
  deploy_reserve_logic_library,
}
use palmy_protocol.Deploy.Contracts.Tokens.{
  deploy_generic_ltoken_impl, deploy_generic_stable_debt_token, deploy_generic_variable_debt_token,
  deploy_mintable_erc20, deploy_mock_ltoken, deploy_mock_stable_debt_token,
  deploy_mock_variable_debt_token, deploy_weth_mocked,
}
use palmy_protocol.Deploy.Getters.{
  connect, find_contract, address_of, saved_address, get_chainsight_oracle, get_generic_logic,
  get_interest_rate_strategy, get_lending_pool, get_lending_pool_addresses_provider,
  get_lending_pool_addresses_provider_registry, get_lending_pool_collateral_manager,
  get_lending_pool_collateral_manager_impl, get_lending_pool_configurator_impl,
  get_lending_pool_configurator_proxy, get_lending_pool_impl, get_lending_pool_tmp_impl,
  get_lending_pool_v4_impl, get_lending_rate_oracle, get_ltoken, get_ltokens_and_rates_helper,
  get_mintable_erc20, get_mock_flash_loan_receiver, get_mock_ltoken, get_mock_stable_debt_token,
  get_mock_variable_debt_token, get_palmy_fallback_oracle, get_palmy_oracle,
  get_palmy_protocol_data_provider, get_price_aggregator, get_price_oracle, get_reserve_logic,
  get_selfdestruct_transfer_mock, get_stable_and_variable_tokens_helper, get_stable_debt_token,
  get_stake_ui_helper, get_variable_debt_token, get_wallet_provider, get_weth_gateway,
  get_weth_mocked,
}
use palmy_protocol.Deploy.Getters.Pairs.{
  Deployment, addresses_provider, addresses_provider_registry, configurator, configurator_impl,
  collateral_manager, collateral_manager_impl, lending_pool, lending_pool_impl, lending_pool_tmp,
  lending_pool_v4, reserve_logic, generic_logic, price_oracle, fallback_oracle, palmy_oracle,
  lending_rate_oracle, chainsight_oracle, price_aggregator, data_provider, rate_strategy,
  flash_loan_receiver, debt_tokens_helper, ltokens_helper, weth_gateway, wallet_provider,
  selfdestruct_transfer, stake_ui, ltoken, stable_debt_token, variable_debt_token, mock_ltoken,
  mock_stable_debt_token, mock_variable_debt_token, mintable_erc20, weth_mocked, factory_of, id_of,
  deploys, gets,
}

module _ ⦃env : Env⦄ where
  -- A script whose result is what the id holds after it.
  pub record Registers (id : String) (m : Exec String) : Type 0 where
    pub holds : (h : History) {a : String} {h' : History} → m h ≡ (ok a, h') → Holds id a h'

  pub Registers-after :
      {A : Type 0} (id : String) (m : Exec A) {f : A → Exec String}
      → ((a : A) → Registers id (f a))
      → Registers id (m >>= f)
  Registers-after id m r = record {
    holds = λ h. λ e. let (a, h1, first, rest) = >>=-ok _ _ h e in (r a).holds h1 rest;
  }

  module _ (store : IsStore env) where
    pub Registers-save :
        (id a : String) (args : List Argument) (verify : Bool)
        → Registers id (with_save_and_verify a id args verify)
    Registers-save id a args verify = record {
      holds = λ h. λ e. (save-Holds store id a args verify h e).1;
    }

    renamed : (id : String) {a b : String} (h : History) → a ≡ b → Holds id a h → Holds id b h
    renamed id h same holds = subst (λ c. Holds id c h) same holds

    moved :
        (id a b : String) (h h' : History) → Holds id a h → pure a h ≡ (ok b, h') → Holds id b h'
    moved id a b h h' holds e =
        let returned : a ≡ b = cc in
        let ended : h ≡ h' = cc in subst (λ k. Holds id b k) ended (renamed id h returned holds)

    -- What happens to the contract after it is saved, where no entry is written.
    pub Registers-then :
        (id : String) {m : Exec String} (event : String → Event)
        → ((a : String) → written_id (event a) ≡ none)
        → Registers id m
        → Registers id (m >>= λ a. perform (event a) >> pure a)
    Registers-then id event other r = record {
      holds = λ h. λ e.
          let (a, h1, first, rest) = >>=-ok _ _ h e in
          let (t, h2, performed, last) = >>=-ok _ _ h1 rest in
          let kept : Holds id a h2 =
            Holds-Adds id a
              (Adds-perform (Leaves id) (event a) (Leaves-other store id (event a) (other a))) h1
              performed (r.holds h first) in
          moved id a _ h2 _ kept last;
    }

    -- The implementation's entry, before the contract is saved under its own id.
    pub Registers-impl :
        (impl_id id a : String) (args : List Argument) (verify : Bool)
        → str_eq id impl_id ≡ false
        → Registers impl_id
            (insert_contract_address_in_db impl_id a >> with_save_and_verify a id args verify)
    unfolding insert_contract_address_in_db
    Registers-impl impl_id id a args verify n = record {
      holds = λ h. λ e.
          let (t, h1, first, rest) = >>=-ok _ _ h e in
          let held : Holds impl_id a h1 = Holds-perform store impl_id _ h first in
          let kept =
            Holds-Adds impl_id a (Leaves-save store impl_id id a args verify n) h1 rest held in
          let (same, _) = save-Holds store id a args verify h1 rest in renamed impl_id _ same kept;
    }

    -- Every deployment leaves its contract in the entry of its id.
    deploys-Registers : (d : Deployment) (verify : Bool) → Registers (id_of d) (deploys d verify)
    unfolding deploy_chainsight_oracle deploy_default_reserve_interest_rate_strategy
        deploy_lending_pool_addresses_provider deploy_lending_pool_addresses_provider_registry
        deploy_lending_pool_collateral_manager deploy_lending_pool_configurator
        deploy_lending_rate_oracle deploy_ltokens_and_rates_helper deploy_mock_flash_loan_receiver
        deploy_palmy_fallback_oracle deploy_palmy_oracle deploy_palmy_protocol_data_provider
        deploy_price_aggregator_chainsight_impl deploy_price_oracle
        deploy_selfdestruct_transfer_mock deploy_stable_and_variable_tokens_helper
        deploy_stake_ui_helper deploy_wallet_balancer_provider deploy_weth_gateway
        deploy_generic_logic deploy_lending_pool deploy_lending_pool_tmp deploy_lending_pool_v4
        deploy_reserve_logic_library deploy_generic_ltoken_impl deploy_generic_stable_debt_token
        deploy_generic_variable_debt_token deploy_mintable_erc20 deploy_mock_ltoken
        deploy_mock_stable_debt_token deploy_mock_variable_debt_token deploy_weth_mocked
    deploys-Registers (addresses_provider market_id owner) verify =
        Registers-after _ _ (λ a. Registers-save _ a _ verify)
    deploys-Registers (addresses_provider_registry owner) verify =
        Registers-after _ _ (λ a. Registers-save _ a _ verify)
    deploys-Registers configurator verify =
        Registers-after _ _ (λ a. Registers-after _ _ (λ _. Registers-save _ a _ verify))
    deploys-Registers configurator_impl verify =
        Registers-after _ _ (λ a. Registers-impl _ _ a _ verify refl)
    deploys-Registers collateral_manager verify =
        Registers-after _ _ (λ a. Registers-after _ _ (λ _. Registers-save _ a _ verify))
    deploys-Registers collateral_manager_impl verify =
        Registers-after _ _ (λ a. Registers-impl _ _ a _ verify refl)
    deploys-Registers lending_pool verify =
        Registers-after _ _
          (λ _. Registers-after _ _ (λ a. Registers-after _ _ (λ _. Registers-save _ a _ verify)))
    deploys-Registers lending_pool_impl verify =
        Registers-after _ _ (λ _. Registers-after _ _ (λ a. Registers-impl _ _ a _ verify refl))
    deploys-Registers lending_pool_tmp verify =
        Registers-after _ _
          (λ _. Registers-after _ _ (λ a. Registers-after _ _ (λ _. Registers-save _ a _ verify)))
    deploys-Registers lending_pool_v4 verify =
        Registers-after _ _
          (λ _. Registers-after _ _ (λ a. Registers-after _ _ (λ _. Registers-save _ a _ verify)))
    deploys-Registers reserve_logic verify = Registers-after _ _ (λ a. Registers-save _ a _ verify)
    deploys-Registers (generic_logic logic) verify =
        Registers-after _ _ (λ a. Registers-save _ a _ verify)
    deploys-Registers price_oracle verify = Registers-after _ _ (λ a. Registers-save _ a _ verify)
    deploys-Registers (fallback_oracle owner) verify =
        Registers-after _ _ (λ a. Registers-save _ a _ verify)
    deploys-Registers (palmy_oracle base_currency unit owner) verify =
        Registers-after _ _ (λ a. Registers-save _ a _ verify)
    deploys-Registers (lending_rate_oracle owner) verify =
        Registers-after _ _ (λ a. Registers-save _ a _ verify)
    deploys-Registers (chainsight_oracle symbol) verify =
        Registers-after _ _ (λ a. Registers-save _ a _ verify)
    deploys-Registers (price_aggregator owner) verify =
        Registers-after _ _ (λ a. Registers-save _ a _ verify)
    deploys-Registers data_provider verify = Registers-after _ _ (λ a. Registers-save _ a _ verify)
    deploys-Registers (rate_strategy args) verify =
        Registers-after _ _ (λ a. Registers-save _ a _ verify)
    deploys-Registers (flash_loan_receiver provider) verify =
        Registers-after _ _ (λ a. Registers-save _ a _ verify)
    deploys-Registers (debt_tokens_helper owner) verify =
        Registers-after _ _ (λ a. Registers-save _ a _ verify)
    deploys-Registers (ltokens_helper owner) verify =
        Registers-after _ _ (λ a. Registers-save _ a _ verify)
    deploys-Registers (weth_gateway args) verify =
        Registers-after _ _ (λ a. Registers-save _ a _ verify)
    deploys-Registers wallet_provider verify =
        Registers-after _ _ (λ a. Registers-save _ a _ verify)
    deploys-Registers selfdestruct_transfer verify =
        Registers-after _ _ (λ a. Registers-save _ a _ verify)
    deploys-Registers stake_ui verify = Registers-after _ _ (λ a. Registers-save _ a _ verify)
    deploys-Registers ltoken verify = Registers-after _ _ (λ a. Registers-save _ a _ verify)
    deploys-Registers stable_debt_token verify =
        Registers-after _ _ (λ a. Registers-save _ a _ verify)
    deploys-Registers variable_debt_token verify =
        Registers-after _ _ (λ a. Registers-save _ a _ verify)
    deploys-Registers (mock_ltoken ltoken_args) verify =
        Registers-then _ _ (λ a. refl) (Registers-after _ _ (λ a. Registers-save _ a _ verify))
    deploys-Registers (mock_stable_debt_token debt_args) verify =
        Registers-then _ _ (λ a. refl) (Registers-after _ _ (λ a. Registers-save _ a _ verify))
    deploys-Registers (mock_variable_debt_token debt_args) verify =
        Registers-then _ _ (λ a. refl) (Registers-after _ _ (λ a. Registers-save _ a _ verify))
    deploys-Registers (mintable_erc20 args) verify =
        Registers-after _ _ (λ a. Registers-save _ a _ verify)
    deploys-Registers weth_mocked verify = Registers-after _ _ (λ a. Registers-save _ a _ verify)

  -- A getter that is given no address looks its id up.
  gets-none :
      (signers : List String) (d : Deployment) (h : History)
      → gets signers d none h ≡ find_contract signers (factory_of d) (id_of d) none h
  unfolding find_contract not_falsy_or_zero_address get_chainsight_oracle get_generic_logic
      get_interest_rate_strategy get_lending_pool get_lending_pool_addresses_provider
      get_lending_pool_addresses_provider_registry get_lending_pool_collateral_manager
      get_lending_pool_collateral_manager_impl get_lending_pool_configurator_impl
      get_lending_pool_configurator_proxy get_lending_pool_impl get_lending_pool_tmp_impl
      get_lending_pool_v4_impl get_lending_rate_oracle get_ltoken get_ltokens_and_rates_helper
      get_mintable_erc20 get_mock_flash_loan_receiver get_mock_ltoken get_mock_stable_debt_token
      get_mock_variable_debt_token get_palmy_fallback_oracle get_palmy_oracle
      get_palmy_protocol_data_provider get_price_aggregator get_price_oracle get_reserve_logic
      get_selfdestruct_transfer_mock get_stable_and_variable_tokens_helper get_stable_debt_token
      get_stake_ui_helper get_variable_debt_token get_wallet_provider get_weth_gateway
      get_weth_mocked
  gets-none signers (addresses_provider market_id owner) h = refl
  gets-none signers (addresses_provider_registry owner) h = refl
  gets-none signers configurator h = refl
  gets-none signers configurator_impl h = refl
  gets-none signers collateral_manager h = refl
  gets-none signers collateral_manager_impl h = refl
  gets-none signers lending_pool h = refl
  gets-none signers lending_pool_impl h = refl
  gets-none signers lending_pool_tmp h = refl
  gets-none signers lending_pool_v4 h = refl
  gets-none signers reserve_logic h = refl
  gets-none signers (generic_logic logic) h = refl
  gets-none signers price_oracle h = refl
  gets-none signers (fallback_oracle owner) h = refl
  gets-none signers (palmy_oracle base_currency unit owner) h = refl
  gets-none signers (lending_rate_oracle owner) h = refl
  gets-none signers (chainsight_oracle symbol) h = refl
  gets-none signers (price_aggregator owner) h = refl
  gets-none signers data_provider h = refl
  gets-none signers (rate_strategy args) h = refl
  gets-none signers (flash_loan_receiver provider) h = refl
  gets-none signers (debt_tokens_helper owner) h = refl
  gets-none signers (ltokens_helper owner) h = refl
  gets-none signers (weth_gateway args) h = refl
  gets-none signers wallet_provider h = refl
  gets-none signers selfdestruct_transfer h = refl
  gets-none signers stake_ui h = refl
  gets-none signers ltoken h = refl
  gets-none signers stable_debt_token h = refl
  gets-none signers variable_debt_token h = refl
  gets-none signers (mock_ltoken ltoken_args) h = refl
  gets-none signers (mock_stable_debt_token debt_args) h = refl
  gets-none signers (mock_variable_debt_token debt_args) h = refl
  gets-none signers (mintable_erc20 args) h = refl
  gets-none signers weth_mocked h = refl

  -- The lookup of an id finds the address that it holds.
  pub saved-Holds : (id a : String) (h : History) → Holds id a h → saved_address id h ≡ (ok a, h)
  unfolding ◌>>=◌
  saved-Holds id a h holds = found (env.db_entry h id) holds
    where
      found : (o : Option DbEntry) → address_in o ≡ some a → address_of o h ≡ (ok a, h)
      found none e = cc
      found (some entry) e = let same : entry.address ≡ a = cc in ap (λ x. (ok x, h)) same

  find-Holds :
      (signers : List String) (factory id a : String) (h : History)
      → Holds id a h
      → find_contract signers factory id none h ≡ (ok (connect signers factory a), h)
  unfolding find_contract ◌>>=◌
  find-Holds signers factory id a h holds =
      ap (λ r. continue r.0 (λ x. pure (connect signers factory x)) r.1) (saved-Holds id a h holds)

  -- Where the database returns the last write and nothing else writes it: after a deployment that
  -- succeeds, its getter without an address gives the contract at the address that was deployed, with
  -- the first signer, and changes nothing.
  pub deployment-getter :
      (store : IsStore env) (d : Deployment) (verify : Bool) (signers : List String)
      (h h' : History) (a : String)
      → deploys d verify h ≡ (ok a, h')
      → gets signers d none h' ≡ (ok (connect signers (factory_of d) a), h')
  deployment-getter store d verify signers h h' a e =
      gets-none signers d h'
      ∙ find-Holds signers (factory_of d) (id_of d) a h'
          ((deploys-Registers store d verify).holds h e)
