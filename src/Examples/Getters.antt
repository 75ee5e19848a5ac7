-- ===== src/Examples/Getters.antt =====
-- A deployment on the test network, and the getters after it.
use palmy_protocol.Prelude.{◌≡◌, refl, false, none, [], ◌∷◌, String, Dict, insert}
use palmy_protocol.Deploy.{History, ok, perform, ◌>>=◌}
use palmy_protocol.Deploy.Registry.{deploy, with_save_and_verify, insert_contract_address_in_db}
use palmy_protocol.Deploy.Contracts.{deploy_lending_pool_configurator}
use palmy_protocol.Deploy.Contracts.Tokens.{
  deploy_all_mock_tokens, deploy_weth_mocked, deploy_mintable_erc20,
}
use palmy_protocol.Deploy.Getters.{
  connect, get_lending_pool_configurator_impl, get_all_mocked_tokens,
}
use palmy_protocol.Deploy.Getters.Pairs.{configurator_impl}
use palmy_protocol.Deploy.Getters.Deployed.{deployment-getter}
use palmy_protocol.Deploy.Getters.MockTokens.{connected, mock_tokens-found}
use palmy_protocol.Examples.Deploy.{free, free-IsStore, reserves}

abbrev deployed_here : History
deployed_here = (deploy_lending_pool_configurator ⦃env = free⦄ false []).1

deploys_here : deploy_lending_pool_configurator ⦃env = free⦄ false [] ≡ (ok "0xc1", deployed_here)
unfolding deploy_lending_pool_configurator ◌>>=◌ deploy perform insert_contract_address_in_db
    with_save_and_verify
deploys_here = refl

deployment-getter_example :
    get_lending_pool_configurator_impl ⦃env = free⦄ ("0xd0" ∷ []) none deployed_here
    ≡ (ok (connect ("0xd0" ∷ []) "LendingPoolConfigurator" "0xc1"), deployed_here)
deployment-getter_example =
    deployment-getter ⦃env = free⦄ free-IsStore configurator_impl false ("0xd0" ∷ []) []
      deployed_here "0xc1" deploys_here

abbrev mocked_here : History
mocked_here = (deploy_all_mock_tokens ⦃env = free⦄ reserves false []).1

abbrev mocks_of : Dict String
mocks_of =
    ("WETH", "0xc1")
    ∷ ("USD", "0xc1")
    ∷ ("WOAS", "0xc1")
    ∷ ("USDC", "0xc1")
    ∷ ("USDT", "0xc1")
    ∷ ("WBTC", "0xc1")
    ∷ []

mocks_tokens : deploy_all_mock_tokens ⦃env = free⦄ reserves false [] ≡ (ok mocks_of, mocked_here)
unfolding deploy_all_mock_tokens ◌>>=◌ deploy_mintable_erc20 deploy perform with_save_and_verify
    deploy_weth_mocked insert
mocks_tokens = refl

mock_tokens-found_example :
    get_all_mocked_tokens ⦃env = free⦄ ("0xd0" ∷ []) (λ s. s) mocked_here
    ≡ (ok (connected ("0xd0" ∷ []) mocks_of), mocked_here)
mock_tokens-found_example =
    mock_tokens-found ⦃env = free⦄ free-IsStore (λ h. refl) ("0xd0" ∷ []) (λ s. s) reserves false []
      mocked_here mocks_of (refl, (refl, (refl, (refl, (refl, (refl, tt)))))) mocks_tokens
