-- ===== src/Deploy/Reserves/Batches.antt =====
-- What the transactions of helpers/init-helpers.ts amount to.
use palmy_protocol.Prelude.{
  ◌≤◌, ◌<◌, ◌≡◌, refl, sym, ◌∙◌, ap, subst, Bool, Option, none, some, List, [], ◌∷◌, ◌++◌, All,
  append_assoc, append-nil, String, map, Dict, lookup, length, flatten, arith,
}
use palmy_protocol.Misc.{chunk}
use palmy_protocol.Misc.Chunk.{chunk_partition}
use palmy_protocol.Types.{ReserveParams, InterestRateStrategyParams}
use palmy_protocol.Deploy.{
  continue, Exec, Env, Event, Error, History, ok, err, Exec, ◌>>=◌, ◌>>◌, perform, unless,
  batch_init_reserve, InitReserveInput,
}
use palmy_protocol.Deploy.Events.{
  Extends, Adds, Adds-elim, Adds-bind, Adds-pure, Adds-unless, >>=-ok, >>=-run, perform-ok,
}
use palmy_protocol.Deploy.Registry.{truthy, get_contract_address_with_json_fallback}
use palmy_protocol.Deploy.Registry.Saves.{AllowsSaves, Adds-strategy, Adds-insert, Adds-address}
use palmy_protocol.Deploy.Getters.{
  Contract, get_lending_pool_addresses_provider, get_lending_pool_configurator_proxy,
}
use palmy_protocol.Deploy.Getters.Finds.{provider-history, configurator-history}
use palmy_protocol.Deploy.Reserves.{
  at_provider, InitSettings, strategy_of, checked_input, prepare_reserves, perform_all,
  init_reserves_by_helper,
}

abbrev pub batch_of : Event → Option (List InitReserveInput)
batch_of (batch_init_reserve inputs) = some inputs
batch_of _ = none

-- Not a transaction that initialises reserves.
abbrev pub IsNotBatch : Event → Type 0
IsNotBatch e = batch_of e ≡ none

IsNotBatch-AllowsSaves : AllowsSaves IsNotBatch
IsNotBatch-AllowsSaves = record {
  creation = λ f args. refl;
  saving = λ id e. refl;
  verifying = λ v. refl;
  cleaning = refl;
}

singletons :
    {A : Type 0} (c : List (List A))
    → All (λ x. (0 < length x) × (length x ≤ 1)) c
    → c ≡ map (λ x. x ∷ []) (flatten c)
singletons [] h = refl
singletons ([] ∷ c) h = absurd (omega (arith, h.0.0))
singletons ((x ∷ []) ∷ c) h = ap (◌∷◌ (x ∷ [])) (singletons c h.1)
singletons ((x ∷ y ∷ xs) ∷ c) h = absurd (omega (arith, h.0.1))

chunk-one : {A : Type 0} (xs : List A) → chunk xs 1 ≡ map (λ x. x ∷ []) xs
chunk-one xs =
    let (covers, bounded, low, high) = chunk_partition xs 1 (omega arith) in
    singletons (chunk xs 1) bounded ∙ ap (map (λ x. x ∷ [])) covers

map-one :
    (inputs : List InitReserveInput)
    → map batch_init_reserve (map (λ x. x ∷ []) inputs)
      ≡ map (λ input. batch_init_reserve (input ∷ [])) inputs
map-one [] = refl
map-one (x ∷ inputs) = ap (◌∷◌ (batch_init_reserve (x ∷ []))) (map-one inputs)

module _ ⦃env : Env⦄ where
  Adds-strategy_of :
      (s : InitSettings) (strategy : InterestRateStrategyParams) (strategies : Dict String)
      → Adds IsNotBatch (strategy_of s strategy strategies)
  unfolding strategy_of
  Adds-strategy_of s strategy strategies =
      Adds-elim IsNotBatch (truthy (lookup strategy.name strategies))
        (Adds-bind IsNotBatch (Adds-strategy IsNotBatch IsNotBatch-AllowsSaves _ _ _) (λ address.
          Adds-bind IsNotBatch (Adds-insert IsNotBatch IsNotBatch-AllowsSaves _ _)
            (λ _. Adds-pure IsNotBatch _)))
        (λ address. Adds-pure IsNotBatch _)

  Adds-check : (b : Bool) (e : Error) → Adds IsNotBatch (unless b e)
  Adds-check b e = Adds-unless IsNotBatch b e

  Adds-impl :
      (s : InitSettings) (id : String)
      → Adds IsNotBatch (get_contract_address_with_json_fallback s.config id)
  Adds-impl s id = Adds-address IsNotBatch IsNotBatch-AllowsSaves s.config id

  Adds-then :
      {A B : Type 0} {m : Exec A} {f : A → Exec B}
      → Adds IsNotBatch m
      → ((a : A) → Adds IsNotBatch (f a))
      → Adds IsNotBatch (m >>= f)
  Adds-then x fs = Adds-bind IsNotBatch x fs

  Adds-checked_input :
      (s : InitSettings) (symbol : String) (params : ReserveParams) (token strategy : String)
      → Adds IsNotBatch (checked_input s symbol params token strategy)
  unfolding checked_input
  Adds-checked_input s symbol params token strategy = Adds-then (Adds-check _ _) (λ _.
      Adds-then (Adds-check _ _) (λ _. Adds-then (Adds-impl s _) (λ _.
        Adds-then (Adds-check _ _) (λ _. Adds-then (Adds-impl s _) (λ _.
          Adds-then (Adds-check _ _) (λ _. Adds-then (Adds-impl s _) (λ _.
            Adds-then (Adds-check _ _) (λ _.
              Adds-then (Adds-check _ _)
                (λ _. Adds-then (Adds-check _ _) (λ _. Adds-pure IsNotBatch _))))))))))

  Adds-prepare :
      (s : InitSettings) (reserves : Dict ReserveParams) (strategies : Dict String)
      (inputs : List InitReserveInput)
      → Adds IsNotBatch (prepare_reserves s reserves strategies inputs)
  unfolding prepare_reserves
  Adds-prepare s [] strategies inputs = Adds-pure IsNotBatch inputs
  Adds-prepare s ((symbol, params) ∷ rest) strategies inputs =
      Adds-elim IsNotBatch (truthy (lookup symbol s.token_addresses))
        (Adds-prepare s rest strategies inputs)
        (λ token. Adds-then (Adds-strategy_of s params.strategy strategies) (λ found.
          Adds-then (Adds-checked_input s symbol params token found.0)
            (λ input. Adds-prepare s rest found.1 (inputs ++ (input ∷ [])))))

  pub perform_all-ok :
      (events : List Event) (h : History) {t : Unit {0}} {h' : History}
      → perform_all events h ≡ (ok t, h')
      → h' ≡ h ++ events
  unfolding perform_all
  perform_all-ok [] h e = ap (λ r. r.1) (sym e) ∙ sym (append-nil h)
  perform_all-ok (event ∷ events) h e =
      let (_, h1, e1, e2) = >>=-ok (perform event) (λ _. perform_all events) h e in
      perform_all-ok events h1 e2
      ∙ ap (λ k. k ++ events) (perform-ok event h e1)
      ∙ append_assoc h (event ∷ []) events

  -- Transactions between a first and a last one, all of which succeed.
  pub bracket-ok :
      (first last : Event) (events : List Event) (h : History) {t : Unit {0}} {h' : History}
      → (perform first >> (perform_all events >> perform last)) h ≡ (ok t, h')
      → h' ≡ h ++ (first ∷ (events ++ (last ∷ [])))
  bracket-ok first last events h e =
      let (_, h1, a1, e1) = >>=-ok (perform first) (λ _. perform_all events >> perform last) h e in
      let (_, h2, a2, e2) = >>=-ok (perform_all events) (λ _. perform last) h1 e1 in
      perform-ok last h2 e2
      ∙ ap (λ k. k ++ (last ∷ []))
          (perform_all-ok events h1 a2 ∙ ap (λ k. k ++ events) (perform-ok first h a1))
      ∙ append_assoc (h ++ (first ∷ [])) events (last ∷ [])
      ∙ append_assoc h (first ∷ []) (events ++ (last ∷ []))

  -- A script whose first part throws.
  stopped :
      {A B : Type 0} (m : Exec A) (f : A → Exec B) (h : History) {x : Error} {h' : History}
      → m h ≡ (err x, h')
      → (m >>= f) h ≡ (err x, h')
  unfolding ◌>>=◌
  stopped m f h e = ap (λ r. continue r.0 f r.1) e

  -- What was prepared, without a `batchInitReserve`, and then one `batchInitReserve` for each input.
  abbrev pub Sends : InitSettings → Dict ReserveParams → Dict String → History → History → Type 0
  Sends s reserves strategies h h' =
      (inputs : List InitReserveInput) × (h1 : History) × (prepare_reserves s reserves strategies []
          h
        ≡ (ok inputs, h1))
      × Extends IsNotBatch h h1
      × (h' ≡ h1 ++ map (λ input. batch_init_reserve (input ∷ [])) inputs)

  -- A run of `initReservesByHelper` that succeeds found the provider, prepared a list of inputs with its
  -- address without any `batchInitReserve`, and then sent one `batchInitReserve` for each input, in order.
  pub init_reserves-ok :
      (signers : List String) (provider_address configurator_address : Option String)
      (s : InitSettings) (reserves : Dict ReserveParams) (strategies : Dict String) (h h' : History)
      → init_reserves_by_helper signers provider_address configurator_address s reserves strategies
          h
        ≡ (ok tt, h')
      → (provider : Contract) × (get_lending_pool_addresses_provider signers provider_address h
          ≡ (ok provider, h))
        × Sends (at_provider provider s) reserves strategies h h'
  unfolding init_reserves_by_helper
  init_reserves-ok signers provider_address configurator_address s reserves strategies h h' e =
      let (provider, k, a, r) =
        >>=-ok (get_lending_pool_addresses_provider signers provider_address) _ h e in
      let same : k ≡ h = ap (λ x. x.1) (sym a) ∙ provider-history signers provider_address h in
      let t = at_provider provider s in
      let (inputs, h1, e1, r1) = >>=-ok (prepare_reserves t reserves strategies []) _ k r in
      let (configurator, h2, b, e2) =
        >>=-ok (get_lending_pool_configurator_proxy signers configurator_address) _ h1 r1 in
      let same1 : h2 ≡ h1 =
        ap (λ x. x.1) (sym b) ∙ configurator-history signers configurator_address h1 in
      (
        provider,
        a ∙ ap (λ x. (ok provider, x)) same,
        (
          inputs,
          h1,
          ap (prepare_reserves t reserves strategies []) (sym same) ∙ e1,
          subst (λ x. Extends IsNotBatch x h1) same
              (subst (λ x. Extends IsNotBatch k x.1) e1
                ((Adds-prepare t reserves strategies []).extends k)),
          perform_all-ok _ h2 e2
              ∙ ap (λ c. h2 ++ map batch_init_reserve c) (chunk-one inputs)
              ∙ ap (◌++◌ h2) (map-one inputs)
              ∙ ap (λ x. x ++ map (λ input. batch_init_reserve (input ∷ [])) inputs) same1,
        ),
      )

  -- When the provider is found and the preparation throws, `initReservesByHelper` throws the same error,
  -- and no `batchInitReserve` was sent.
  pub init_reserves-err :
      (signers : List String) (provider_address configurator_address : Option String)
      (provider : Contract) (s : InitSettings) (reserves : Dict ReserveParams)
      (strategies : Dict String) (h h' : History) (x : Error)
      → get_lending_pool_addresses_provider signers provider_address h ≡ (ok provider, h)
      → prepare_reserves (at_provider provider s) reserves strategies [] h ≡ (err x, h')
      → (init_reserves_by_helper signers provider_address configurator_address s reserves strategies
            h
          ≡ (err x, h'))
        × Extends IsNotBatch h h'
  unfolding init_reserves_by_helper
  init_reserves-err signers provider_address configurator_address provider s reserves strategies h
        h' x found e =
      (
        >>=-run (get_lending_pool_addresses_provider signers provider_address) _ h found
            ∙ stopped (prepare_reserves (at_provider provider s) reserves strategies []) _ h e,
        subst (λ r. Extends IsNotBatch h r.1) e
            ((Adds-prepare (at_provider provider s) reserves strategies []).extends h),
      )
