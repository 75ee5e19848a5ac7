-- ===== src/Deploy/Oracles/Prices.antt =====
-- Every symbol gets its price (helpers/oracles-helpers.ts).
use palmy_protocol.Prelude.{
  ◌≡◌, refl, sym, subst, ◌∙◌, ap, Option, none, some, String, List, [], ◌∷◌, ◌++◌, map, Dict,
  lookup, flatten, append_assoc, append-nil, arith,
}
use palmy_protocol.Misc.{chunk}
use palmy_protocol.Misc.Map.{chunk-map}
use palmy_protocol.Misc.Chunk.{chunk_partition}
use palmy_protocol.Deploy.{
  Env, Event, transfer_ownership, set_oracle_borrow_rates, set_oracle_ownership, submit_prices,
  History, ok,
}
use palmy_protocol.Deploy.Events.{>>=-ok, perform-ok, ok-eq}
use palmy_protocol.Deploy.Getters.{Contract, get_stable_and_variable_tokens_helper}
use palmy_protocol.Deploy.Getters.Finds.{find-history}
use palmy_protocol.Deploy.Reserves.Batches.{bracket-ok}
use palmy_protocol.Deploy.Oracles.{
  or_type_error, collect, rate_calls, set_rates_with,
  set_initial_market_rates_in_rates_oracle_by_helper, set_asset_prices_in_fallback_oracle,
}

abbrev Pairs : Type 0
Pairs = List (String × String)

abbrev assets_of : Pairs → List String
assets_of pairs = map (λ p. p.0) pairs

abbrev values_of : Pairs → List String
values_of pairs = map (λ p. p.1) pairs

-- The assets and values are the addresses of the symbols with their values, in order.
abbrev pub IsPriced : Dict String → Dict String → Pairs → Type 0
IsPriced addresses prices pairs =
    map {B = Option String × String} (λ p. (some p.0, p.1)) pairs
    ≡ map (λ e. (lookup e.0 addresses, e.1)) prices

-- The assets that an event sets the rate of, with the rates.
abbrev zip : List String → List String → Pairs
zip [] ys = []
zip (x ∷ xs) [] = []
zip (x ∷ xs) (y ∷ ys) = (x, y) ∷ zip xs ys

abbrev set_in : Event → Pairs
set_in (set_oracle_borrow_rates assets rates oracle) = zip assets rates
set_in _ = []

abbrev pub rates_set : List Event → Pairs
rates_set [] = []
rates_set (event ∷ events) = set_in event ++ rates_set events

zip-parts : (pairs : Pairs) → zip (assets_of pairs) (values_of pairs) ≡ pairs
zip-parts [] = refl
zip-parts (p ∷ pairs) = ap (◌∷◌ p) (zip-parts pairs)

rates_set-rate_calls :
    (oracle : String) (cs : List Pairs)
    → rates_set (rate_calls oracle (map assets_of cs) (map values_of cs)) ≡ flatten cs
rates_set-rate_calls oracle [] = refl
rates_set-rate_calls oracle (c ∷ cs) =
    ap (λ l. l ++ rates_set (rate_calls oracle (map assets_of cs) (map values_of cs))) (zip-parts c)
    ∙ ap (◌++◌ c) (rates_set-rate_calls oracle cs)

-- The transactions for all pairs.
abbrev pub calls_of : String → Pairs → List Event
calls_of oracle pairs = rate_calls oracle (chunk (assets_of pairs) 20) (chunk (values_of pairs) 20)

rates_set-calls_of : (oracle : String) (pairs : Pairs) → rates_set (calls_of oracle pairs) ≡ pairs
rates_set-calls_of oracle pairs =
    let (covers, bounded, low, high) = chunk_partition pairs 20 (omega arith) in
    rw (chunk-map (λ p. p.0) pairs 20, chunk-map (λ p. p.1) pairs 20)
      (rates_set-rate_calls oracle (chunk pairs 20) ∙ covers)

or_type_error-ok :
    {A : Type 0} (o : Option A) (h : History) {a : A} {h' : History}
    → or_type_error o h ≡ (ok a, h')
    → (o ≡ some a) × (h' ≡ h)
or_type_error-ok none h e = cc
or_type_error-ok (some x) h e = (ap some (ok-eq e), ap (λ r. r.1) (sym e))

-- The transactions of collected assets and rates, between the two transfers of the ownership.
abbrev rate_events : (helper oracle admin : String) → List String × List String → List Event
rate_events helper oracle admin x =
    transfer_ownership helper
    ∷ (rate_calls oracle (chunk x.0 20) (chunk x.1 20) ++ (set_oracle_ownership oracle admin ∷ []))

module _ ⦃env : Env⦄ where
  collect-ok :
      (addresses prices : Dict String) (assets values : List String) (h h' : History)
      (r : List String × List String)
      → collect addresses prices assets values h ≡ (ok r, h')
      → (pairs : Pairs) × (r ≡ (assets ++ assets_of pairs, values ++ values_of pairs))
        × IsPriced addresses prices pairs
        × (h' ≡ h)
  unfolding collect
  collect-ok addresses [] assets values h h' r e = (
    [],
    ok-eq (sym e)
        ∙ ap (λ l. (l, values)) (sym (append-nil assets))
        ∙ ap (λ l. (assets ++ [], l)) (sym (append-nil values)),
    refl,
    ap (λ r. r.1) (sym e),
  )
  collect-ok addresses ((symbol, value) ∷ prices) assets values h h' r e =
      let (asset, h1, found, e1) = >>=-ok (or_type_error (lookup symbol addresses)) _ h e in
      let (known, same) = or_type_error-ok (lookup symbol addresses) h found in
      let (pairs, parts, priced, rest) =
        collect-ok addresses prices (assets ++ (asset ∷ [])) (values ++ (value ∷ [])) h1 h' r e1 in
      (
        (asset, value) ∷ pairs,
        parts
            ∙ ap (λ l. (l, (values ++ (value ∷ [])) ++ values_of pairs))
                (append_assoc assets (asset ∷ []) (assets_of pairs))
            ∙ ap (λ l. (assets ++ (asset ∷ assets_of pairs), l))
                (append_assoc values (value ∷ []) (values_of pairs)),
        ap (λ l. (some asset, value) ∷ l) priced
            ∙ ap (λ o. (o, value) ∷ map (λ e. (lookup e.0 addresses, e.1)) prices) (sym known),
        rest ∙ same,
      )

  -- Every symbol's asset gets the symbol's rate, in order, between the two transfers of the ownership.
  abbrev pub SetsRates :
      Dict String → Dict String → (helper oracle admin : String) → History → History → Type 0
  SetsRates rates addresses helper oracle admin h h' =
      (pairs : Pairs) × IsPriced addresses rates pairs
      × (h'
          ≡ h
            ++ (transfer_ownership helper
                ∷ (calls_of oracle pairs ++ (set_oracle_ownership oracle admin ∷ []))))
      × (rates_set (calls_of oracle pairs) ≡ pairs)

  set_rates_with-ok :
      (rates addresses : Dict String) (helper oracle admin : String) (h h' : History)
      → set_rates_with rates addresses helper oracle admin h ≡ (ok tt, h')
      → SetsRates rates addresses helper oracle admin h h'
  set_rates_with-ok rates addresses helper oracle admin h h' e =
      let (r, h1, a1, e1) = >>=-ok (collect addresses rates [] []) _ h e in
      let (pairs, parts, priced, same) = collect-ok addresses rates [] [] h h1 r a1 in
      (
        pairs,
        priced,
        bracket-ok (transfer_ownership helper) (set_oracle_ownership oracle admin) _ h1 e1
            ∙ ap (λ k. k ++ rate_events helper oracle admin r) same
            ∙ ap (λ x. h ++ rate_events helper oracle admin x) parts,
        rates_set-calls_of oracle pairs,
      )

  -- A run of `setInitialMarketRatesInRatesOracleByHelper` that succeeds finds the helper in the
  -- database, gives the ownership of the oracle to it, sets the rate of every symbol's asset, in order
  -- and in chunks of twenty, and gives the ownership to the admin.
  pub market_rates-ok :
      (signers : List String) (rates addresses : Dict String) (oracle admin : String)
      (h h' : History)
      → set_initial_market_rates_in_rates_oracle_by_helper signers rates addresses oracle admin h
        ≡ (ok tt, h')
      → (helper : Contract) × (get_stable_and_variable_tokens_helper signers none h
          ≡ (ok helper, h))
        × SetsRates rates addresses helper.address oracle admin h h'
  unfolding set_initial_market_rates_in_rates_oracle_by_helper get_stable_and_variable_tokens_helper
  market_rates-ok signers rates addresses oracle admin h h' e =
      let (helper, h1, a, e1) = >>=-ok (get_stable_and_variable_tokens_helper signers none) _ h e in
      let same : h1 ≡ h = ap (λ r. r.1) (sym a) ∙ find-history signers _ _ none h in
      (
        helper,
        a ∙ ap (λ k. (ok helper, k)) same,
        subst (λ k. SetsRates rates addresses helper.address oracle admin k h') same
            (set_rates_with-ok rates addresses helper.address oracle admin h1 h' e1),
      )

  abbrev pub Submits : Dict String → Dict String → History → History → Type 0
  Submits prices addresses h h' =
      (pairs : Pairs) × IsPriced addresses prices pairs
      × (h' ≡ h ++ (submit_prices (assets_of pairs) (values_of pairs) ∷ []))

  -- A run of `setAssetPricesInFallbackOracle` that succeeds is one transaction with the assets of all
  -- symbols and their prices, in order.
  pub fallback_prices-ok :
      (prices addresses : Dict String) (h h' : History)
      → set_asset_prices_in_fallback_oracle prices addresses h ≡ (ok tt, h')
      → Submits prices addresses h h'
  unfolding set_asset_prices_in_fallback_oracle
  fallback_prices-ok prices addresses h h' e =
      let (r, h1, a1, e1) = >>=-ok (collect addresses prices [] []) _ h e in
      let (pairs, parts, priced, same) = collect-ok addresses prices [] [] h h1 r a1 in
      (
        pairs,
        priced,
        perform-ok _ h1 e1
            ∙ ap (λ k. k ++ (submit_prices r.0 r.1 ∷ [])) same
            ∙ ap (λ (x : List String × List String). h ++ (submit_prices x.0 x.1 ∷ [])) parts,
      )
