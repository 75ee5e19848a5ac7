-- ===== src/Deploy/Market/Tokens.antt =====
-- Where the token addresses of a market come from (helpers/configuration.ts).
use palmy_protocol.Prelude.{
  ◌≡◌, refl, sym, ◌∙◌, ap, ◌⊎◌, inl, inr, Bool, true, false, Option, none, some, String, List, [],
  ◌∷◌, ◌++◌, append_assoc, str_eq, if◌then◌else◌, arith, eq_iff,
}
use palmy_protocol.Deploy.{
  Env, deployed, db_set, DbEntry, History, Result, ok, err, native_token_not_set, perform, Exec,
  pure, throw, ◌>>=◌,
}
use palmy_protocol.Deploy.Events.{>>=-ok, perform-ok, ok-eq, elim-Option}
use palmy_protocol.Deploy.Registry.{deploy, with_save_and_verify, register_contract_in_json_db}
use palmy_protocol.Deploy.Contracts.Tokens.{deploy_weth_mocked}
use palmy_protocol.Deploy.Market.{
  MarketConfig, configured, native_token_at, get_weth_address, get_wrapped_native_token_address,
  get_quote_currency,
}

-- The two ways through a comparison.
at_text :
    {A : Type 0} (s t : String) (m n : Exec A) (h : History) {r : Result A × History}
    → (if str_eq s t then m else n) h ≡ r
    → ((s ≡ t) × (m h ≡ r)) ⊎ (n h ≡ r)
at_text s t m n h {r = r} e = go (str_eq s t) (eq_iff s t).0 e
  where
    go :
        (b : Bool)
        → (b ≡ true → s ≡ t)
        → (if b then m else n) h ≡ r
        → ((s ≡ t) × (m h ≡ r)) ⊎ (n h ≡ r)
    go true same e = inl (same refl, e)
    go false same e = inr e

module _ ⦃env : Env⦄ where
  -- The mock is deployed and registered under its id, and nothing else happens.
  abbrev pub Mocks : History → String → History → Type 0
  Mocks h address h' =
      h'
      ≡ h
        ++ (deployed "WETH9Mocked" []
            ∷ db_set "WOASMocked" (record { address = address; deployer = some env.sender })
            ∷ [])

  -- The address is configured and nothing happens, or it is the one of a mock.
  abbrev pub Finds : Option String → History → String → History → Type 0
  Finds target h address h' =
      ((target ≡ some address) × (h' ≡ h)) ⊎ ((target ≡ none) × Mocks h address h')

  -- The quote currency is USD, or WETH under one of its names.
  abbrev pub Quotes : MarketConfig → History → String → History → Type 0
  Quotes config h a h' =
      ((config.oracle_quote_currency ≡ "USD") × (a ≡ config.usd_address) × (h' ≡ h))
      ⊎ (((config.oracle_quote_currency ≡ "ETH") ⊎ (config.oracle_quote_currency ≡ "WETH"))
          × Finds (configured config.weth) h a h')

  deploy-ok :
      (factory : String) (args : List String) (h : History) {a : String} {h' : History}
      → deploy factory args h ≡ (ok a, h')
      → h' ≡ h ++ (deployed factory args ∷ [])
  unfolding deploy
  deploy-ok factory args h e =
      let (_, h1, made, asked) = >>=-ok (perform (deployed factory args)) _ h e in
      ap (λ r. r.1) (sym asked) ∙ perform-ok (deployed factory args) h made

  -- The entry that is written without verification.
  abbrev entry : String → DbEntry
  entry address = record { address = address; deployer = some env.sender }

  with_save-ok :
      (address id : String) (h : History) {a : String} {h' : History}
      → with_save_and_verify address id [] false h ≡ (ok a, h')
      → (h' ≡ h ++ (db_set id (entry a) ∷ []))
  unfolding with_save_and_verify register_contract_in_json_db ◌>>=◌
  with_save-ok address id h {a = a} e =
      let (_, h1, wrote, given) = >>=-ok (perform (db_set id (entry address))) _ h e in
      ap (λ r. r.1) (sym given)
      ∙ perform-ok (db_set id (entry address)) h wrote
      ∙ ap (λ x. h ++ (db_set id (entry x) ∷ [])) (ok-eq given)

  deploy_weth_mocked-ok :
      (h : History) {a : String} {h' : History}
      → deploy_weth_mocked false h ≡ (ok a, h')
      → Mocks h a h'
  unfolding deploy_weth_mocked
  deploy_weth_mocked-ok h {a = a} e =
      let (made, h1, e1, e2) = >>=-ok (deploy "WETH9Mocked" []) _ h e in
      with_save-ok made "WOASMocked" h1 e2
      ∙ ap (λ k. k ++ (db_set "WOASMocked" (entry a) ∷ [])) (deploy-ok "WETH9Mocked" [] h e1)
      ∙ append_assoc h (deployed "WETH9Mocked" [] ∷ []) (db_set "WOASMocked" (entry a) ∷ [])

  pure-ok : {a b : String} {h h' : History} → pure a h ≡ (ok b, h') → (some a ≡ some b) × (h' ≡ h)
  pure-ok e = (ap some (ok-eq e), ap (λ r. r.1) (sym e))

  -- A run of `getWethAddress` that succeeds gives the address that is configured for the network and
  -- does nothing, or deploys and registers a mock and gives its address.
  pub weth_address-ok :
      (config : MarketConfig) (h h' : History) (a : String)
      → get_weth_address config h ≡ (ok a, h')
      → Finds (configured config.weth) h a h'
  unfolding get_weth_address
  weth_address-ok config h h' a e =
      elim (elim-Option (configured config.weth) (deploy_weth_mocked false) pure h (ok a, h') e) [
        | inl (unset, mocked) ↦ inr (unset, deploy_weth_mocked-ok h mocked)
        | inr (b, set, given) ↦ inl (set ∙ (pure-ok given).0, (pure-ok given).1)
      ]

  -- A run of `getQuoteCurrency` that succeeds gives the address for USD and does nothing, if the market
  -- quotes in USD; else the market quotes in ETH or WETH, and the address is found as that of WETH is.
  pub quote_currency-ok :
      (config : MarketConfig) (h h' : History) (a : String)
      → get_quote_currency config h ≡ (ok a, h')
      → Quotes config h a h'
  unfolding get_quote_currency
  quote_currency-ok config h h' a e =
      let quote = config.oracle_quote_currency in
      elim (at_text quote "ETH" (get_weth_address config) _ h e) [
        | inl (eth, found) ↦ inr (inl eth, weth_address-ok config h h' a found)
        | inr e1 ↦ elim (at_text quote "WETH" (get_weth_address config) _ h e1) [
          | inl (weth, found) ↦ inr (inr weth, weth_address-ok config h h' a found)
          | inr e2 ↦ elim (at_text quote "USD" (pure config.usd_address) _ h e2) [
            | inl (usd, given) ↦ inl (usd, sym (ok-eq given), (pure-ok given).1)
            | inr e3 ↦ cc
          ]
        ]
      ]

  -- On a network whose name contains "oasys" and without a fork of the main network,
  -- `getWrappedNativeTokenAddress` deploys nothing: it gives the configured address, or throws if there
  -- is none.
  pub native_token-on_oasys :
      (config : MarketConfig) (h : History)
      → env.contains env.network "oasys" ≡ true
      → get_wrapped_native_token_address none config h
        ≡ (elim (native_token_at none config) as (λ _. Result String × History) [
          | none ↦ (err native_token_not_set, h)
          | some a ↦ (ok a, h)
        ])
  unfolding get_wrapped_native_token_address
  native_token-on_oasys config h on_oasys =
      go (env.contains env.network "oasys") on_oasys (native_token_at none config)
    where
      go :
          (b : Bool)
          → b ≡ true
          → (target : Option String)
          → (elim target as (λ _. Exec String) [
            | none ↦ elim b [ true ↦ throw native_token_not_set | false ↦ deploy_weth_mocked false ]
            | some address ↦ pure address
          ])
              h
            ≡ (elim target as (λ _. Result String × History) [
              | none ↦ (err native_token_not_set, h)
              | some a ↦ (ok a, h)
            ])
      go true e none = refl
      go false e none = absurd (ground arith)
      go b e (some a) = refl
