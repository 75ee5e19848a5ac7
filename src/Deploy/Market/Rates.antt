-- ===== src/Deploy/Market/Rates.antt =====
-- The borrow rates of a market, from the configuration (helpers/configuration.ts) to the rate oracle
-- (helpers/oracles-helpers.ts).
use palmy_protocol.Prelude.{
  ◌⊎◌, ◌≡◌, refl, sym, ◌∙◌, subst, Bool, true, false, Bool-cases, Option, none, some, String, List,
  [], ◌∷◌, ◌++◌, Dict, keys, lookup, insert, includes, All, str_eq, inl, inr, if◌then◌else◌, arith,
}
use palmy_protocol.Misc.{assign, filter_map_loop, filter_map_by}
use palmy_protocol.Misc.Maps.{lookup-filter_map_by}
use palmy_protocol.Deploy.{
  type_error, Env, Event, Error, rejected, Exec, History, Result, ok, err, perform, ◌>>=◌, ◌>>◌,
  continue, transfer_ownership, set_oracle_ownership,
}
use palmy_protocol.Deploy.Events.{>>=-err, ok-eq}
use palmy_protocol.Deploy.Reserves.{perform_all}
use palmy_protocol.Deploy.Getters.{get_stable_and_variable_tokens_helper}
use palmy_protocol.Deploy.Getters.Finds.{find_saved-err}
use palmy_protocol.Deploy.Oracles.{
  set_rates_with, collect, set_initial_market_rates_in_rates_oracle_by_helper,
}
use palmy_protocol.Deploy.Market.{MarketConfig, current_network, get_lending_rate_oracles}

module _ (fn : String → Bool) where
  -- All keys are accepted.
  abbrev IsWithin : Dict String → Type 0
  IsWithin m = All (λ e. fn e.0 ≡ true) m

  insert-IsWithin :
      (key value : String) (m : Dict String)
      → fn key ≡ true
      → IsWithin m
      → IsWithin (insert key value m)
  unfolding insert
  insert-IsWithin key value [] accepted within = (accepted, tt)
  insert-IsWithin key value (e ∷ m) accepted within =
      place (str_eq e.0 key) (insert-IsWithin key value m accepted within.1)
    where
      place :
          (same : Bool)
          → IsWithin (insert key value m)
          → IsWithin (if same then (key, value) ∷ m else e ∷ insert key value m)
      place true later = (accepted, within.1)
      place false later = (within.0, later)

  assign-IsWithin :
      (raw obj : Dict String) (key : String)
      → fn key ≡ true
      → IsWithin obj
      → IsWithin (assign raw obj key)
  unfolding assign
  assign-IsWithin raw obj key accepted within = go (lookup key raw)
    where
      go :
          (r : Option String)
          → IsWithin (elim r as (λ _. Dict String) [ none ↦ obj | some v ↦ insert key v obj ])
      go none = within
      go (some v) = insert-IsWithin key v obj accepted within

  filter_map_loop-IsWithin :
      (raw : Dict String) (ks : List String) (obj : Dict String)
      → IsWithin obj
      → IsWithin (filter_map_loop raw fn ks obj)
  unfolding filter_map_loop
  filter_map_loop-IsWithin raw [] obj within = within
  filter_map_loop-IsWithin raw (key ∷ ks) obj within = elim (Bool-cases (fn key)) [
    | inl wanted ↦ rw wanted (
        filter_map_loop-IsWithin raw ks (assign raw obj key)
          (assign-IsWithin raw obj key wanted within))
    | inr unwanted ↦ rw unwanted (filter_map_loop-IsWithin raw ks obj within)
  ]

lookup-of_includes :
    (m : Dict String) (k : String)
    → includes (keys m) k ≡ true
    → (v : String) × (lookup k m ≡ some v)
unfolding lookup
lookup-of_includes [] k present = absurd (ground arith)
lookup-of_includes ((j, v) ∷ m) k present = elim (Bool-cases (str_eq j k)) [
  | inl same ↦ rw same (v, refl)
  | inr other ↦ rw other (lookup-of_includes m k (ground (arith, present, other)))
]

abbrev pub IsRejected : Error → Type 0
IsRejected x = (event : Event) × (x ≡ rejected event)

module _ ⦃env : Env⦄ where
  -- With an asset for every symbol, all are collected.
  collect-total :
      (addresses prices : Dict String) (assets values : List String) (h : History)
      → IsWithin (includes (keys addresses)) prices
      → (r : List String × List String) × (collect addresses prices assets values h ≡ (ok r, h))
  unfolding collect ◌>>=◌
  collect-total addresses [] assets values h within = ((assets, values), refl)
  collect-total addresses ((symbol, value) ∷ prices) assets values h within =
      let (asset, known) = lookup-of_includes addresses symbol within.0 in
      rw known (
        collect-total addresses prices (assets ++ (asset ∷ [])) (values ++ (value ∷ [])) h within.1)

  perform-IsRejected :
      (e : Event) (h : History) {x : Error} {h' : History}
      → perform e h ≡ (err x, h')
      → IsRejected x
  unfolding perform
  perform-IsRejected e h {x = x} {h' = h'} p = split (env.refuses h e) p
    where
      split :
          (refused : Bool)
          → ◌≡◌ {A = Result (Unit {0}) × History}
              (if refused then (err (rejected e), h) else (ok tt, h ++ (e ∷ [])))
              (err x, h')
          → IsRejected x
      split true p = (e, cc)
      split false p = cc

  perform_all-IsRejected :
      (events : List Event) (h : History) {x : Error} {h' : History}
      → perform_all events h ≡ (err x, h')
      → IsRejected x
  unfolding perform_all
  perform_all-IsRejected [] h p = cc
  perform_all-IsRejected (e ∷ events) h p =
      elim (>>=-err (perform e) (λ _. perform_all events) h p) [
        | inl first ↦ perform-IsRejected e h first
        | inr (_, h1, done, rest) ↦ perform_all-IsRejected events h1 rest
      ]

  bracket-IsRejected :
      (first last : Event) (events : List Event) (h : History) {x : Error} {h' : History}
      → (perform first >> (perform_all events >> perform last)) h ≡ (err x, h')
      → IsRejected x
  bracket-IsRejected first last events h p =
      elim (>>=-err (perform first) (λ _. perform_all events >> perform last) h p) [
        | inl at_first ↦ perform-IsRejected first h at_first
        | inr (_, h1, done, rest) ↦
            elim (>>=-err (perform_all events) (λ _. perform last) h1 rest) [
              | inl within ↦ perform_all-IsRejected events h1 within
              | inr (_, h2, all_done, at_last) ↦ perform-IsRejected last h2 at_last
            ]
      ]

  -- A script that fails after a first part that cannot fail.
  after_ok :
      {A B : Type 0} (m : Exec A) (f : A → Exec B) (h : History) {a : A} {x : Error} {h' : History}
      → m h ≡ (ok a, h)
      → (m >>= f) h ≡ (err x, h')
      → f a h ≡ (err x, h')
  unfolding ◌>>=◌
  after_ok {A = A} {B = B} m f h {x = x} {h' = h'} done p =
      subst (λ (r : Result A × History). continue r.0 f r.1 ≡ (err x, h')) done p

  -- The rates of the assets of the network, each with its common rate.
  abbrev pub Selects : MarketConfig → Dict String → History → Type 0
  Selects config assets h =
      (rates : Dict String) × (get_lending_rate_oracles config h ≡ (ok rates, h))
      × ((k : String)
          → lookup k rates ≡ (
              if includes (keys assets) k
              then lookup k config.lending_rate_oracle_rates_common
              else none))

  lending_rates_at :
      (config : MarketConfig) (assets : Dict String) (h : History)
      → lookup current_network config.reserve_assets ≡ some assets
      → get_lending_rate_oracles config h ≡ (
        ok (filter_map_by config.lending_rate_oracle_rates_common (λ k. includes (keys assets) k)),
        h,
      )
  unfolding get_lending_rate_oracles
  lending_rates_at config assets h known = rw (get_lending_rate_oracles, known) refl

  -- On a network with assets, `getLendingRateOracles` gives the symbols of these assets their common
  -- rates, where there are any, and no other symbol a rate.
  pub lending_rates-Selects :
      (config : MarketConfig) (assets : Dict String) (h : History)
      → lookup current_network config.reserve_assets ≡ some assets
      → Selects config assets h
  lending_rates-Selects config assets h known = (
    filter_map_by config.lending_rate_oracle_rates_common (λ k. includes (keys assets) k),
    lending_rates_at config assets h known,
    lookup-filter_map_by config.lending_rate_oracle_rates_common (λ k. includes (keys assets) k),
  )

  set_rates_with-IsRejected :
      (config : MarketConfig) (assets rates : Dict String) (helper oracle admin : String)
      (h h1 h2 h' : History) (x : Error)
      → lookup current_network config.reserve_assets ≡ some assets
      → get_lending_rate_oracles config h ≡ (ok rates, h1)
      → set_rates_with rates assets helper oracle admin h2 ≡ (err x, h')
      → IsRejected x
  unfolding filter_map_by
  set_rates_with-IsRejected config assets rates helper oracle admin h h1 h2 h' x known selected
        failed =
      let fn : String → Bool = includes (keys assets) in
      let common = config.lending_rate_oracle_rates_common in
      let same = lending_rates_at config assets h known in
      let within : IsWithin fn rates =
        subst (IsWithin fn) (ok-eq (sym same ∙ selected))
          (filter_map_loop-IsWithin fn common (keys common) [] tt) in
      let (r, collected) = collect-total assets rates [] [] h2 within in
      bracket-IsRejected (transfer_ownership helper) (set_oracle_ownership oracle admin) _ h2
        (after_ok (collect assets rates [] []) _ h2 collected failed)

  -- On a network with assets, `setInitialMarketRatesInRatesOracleByHelper`, with the rates that
  -- `getLendingRateOracles` gives and these assets, fails only if a transaction is refused, or, with a
  -- TypeError, if the database has no entry of the helper contract.
  pub market_rates-err :
      (signers : List String) (config : MarketConfig) (assets rates : Dict String)
      (oracle admin : String) (h h1 h' : History) (x : Error)
      → lookup current_network config.reserve_assets ≡ some assets
      → get_lending_rate_oracles config h ≡ (ok rates, h1)
      → set_initial_market_rates_in_rates_oracle_by_helper signers rates assets oracle admin h1
        ≡ (err x, h')
      → IsRejected x ⊎ ((x ≡ type_error) × (env.db_entry h1 "StableAndVariableTokensHelper" ≡ none))
  unfolding set_initial_market_rates_in_rates_oracle_by_helper get_stable_and_variable_tokens_helper
  market_rates-err signers config assets rates oracle admin h h1 h' x known selected failed =
      elim (>>=-err (get_stable_and_variable_tokens_helper signers none) _ h1 failed) [
        | inl missing ↦ inr (find_saved-err signers _ _ h1 missing)
        | inr (helper, h2, found, rest) ↦ inl (
            set_rates_with-IsRejected config assets rates helper.address oracle admin h h1 h2 h' x
              known selected rest)
      ]
