-- ===== src/Deploy/Reserves/Progress.antt =====
-- The configuration of reserves by helpers/init-helpers.ts comes to its end.
use palmy_protocol.Prelude.{
  ◌≡◌, refl, sym, ◌∙◌, ap, Bool, true, false, Option, none, some, List, [], ◌∷◌, ◌++◌, All, ◌⊎◌,
  inl, inr, String, Dict, lookup, str_eq, map,
}
use palmy_protocol.Misc.{chunk, not_falsy_or_zero_address}
use palmy_protocol.Types.{ReserveParams}
use palmy_protocol.Deploy.{
  Env, Event, Error, History, Exec, ok, pure, read, unless, perform, ◌>>=◌, configure_reserves,
  ConfigureReserveInput, set_pool_admin,
}
use palmy_protocol.Deploy.Events.{>>=-run}
use palmy_protocol.Deploy.Registry.{truthy}
use palmy_protocol.Deploy.Reserves.{
  perform_all, answered, already_enabled, select_reserves, configure_selected, configure_with,
  configure_reserves_by_helper, configure_input,
}
use palmy_protocol.Deploy.Reserves.Bracket.{Configures}
use palmy_protocol.Deploy.Reserves.Configuration.{configure_reserves-ok}
use palmy_protocol.Deploy.Getters.{
  Contract, get_lending_pool_addresses_provider, get_ltokens_and_rates_helper,
}
use palmy_protocol.Deploy.Getters.Finds.{HasAddress, find-HasAddress}

-- The script returns, whatever happened before it.
record Returns {A : Type 0} (m : Exec A) : Type 0 where
  result : (h : History) → (a : A) × (h' : History) × (m h ≡ (ok a, h'))

Returns-pure : {A : Type 0} (a : A) → Returns (pure a)
Returns-pure a = record { result = λ h. (a, h, refl) }

Returns-read : {A : Type 0} (f : History → A) → Returns (read f)
Returns-read f = record { result = λ h. (f h, h, refl) }

Returns-unless : (b : Bool) (e : Error) → b ≡ true → Returns (unless b e)
Returns-unless true e t = Returns-pure tt
Returns-unless false e t = cc

Returns-bind :
    {A B : Type 0} {m : Exec A} {f : A → Exec B}
    → Returns m
    → ((a : A) → Returns (f a))
    → Returns (m >>= f)
Returns-bind {m = m} {f = f} x fs = record {
  result = λ h.
      let (a, h1, first) = x.result h in
      let (b, h2, rest) = (fs a).result h1 in (b, h2, >>=-run m f h first ∙ rest);
}

Returns-cond :
    {B : Type 0} (b : Bool) {m n : Exec B}
    → Returns m
    → Returns n
    → Returns (elim b [ true ↦ m | false ↦ n ])
Returns-cond true x y = x
Returns-cond false x y = y

Returns-elim :
    {A B : Type 0} (o : Option A) {m : Exec B} {f : A → Exec B}
    → Returns m
    → ((a : A) → o ≡ some a → Returns (f a))
    → Returns (elim o [ none ↦ m | some a ↦ f a ])
Returns-elim none x fs = x
Returns-elim (some a) x fs = fs a refl

-- A reserve without a token is left out, and a token that is listed has a valid address.
abbrev pub HasUsableToken : (env : Env) → Dict String → String × ReserveParams → Type 0
HasUsableToken env tokens (symbol, params) =
    (truthy (lookup symbol tokens) ≡ none)
    ⊎ (not_falsy_or_zero_address env.tests (truthy (lookup symbol tokens)) ≡ true)

usable_token :
    ⦃env : Env⦄ (o : Option String) {a : String}
    → o ≡ some a
    → ((o ≡ none) ⊎ (not_falsy_or_zero_address env.tests o ≡ true))
    → not_falsy_or_zero_address env.tests (some a) ≡ true
usable_token o e (inl missing) = cc
usable_token ⦃env = env⦄ o e (inr u) = ap (not_falsy_or_zero_address env.tests) (sym e) ∙ u

-- How the chain behaves: no transaction is refused, and no call for the flag of a reserve is rejected.
pub record IsServing (env : Env) : Type 0 where
  pub accepts : (h : History) (e : Event) → env.refuses h e ≡ false
  pub answers :
      (h : History) (token : String)
      → (enabled : Bool) × (env.collateral_enabled h token ≡ some enabled)

module _ ⦃env : Env⦄ (chain : IsServing env) where
  already_enabled-ok :
      (token : String) (h : History) (answer : Option Bool) (enabled : Bool)
      → answer ≡ some enabled
      → answered token answer h ≡ (ok enabled, h)
  already_enabled-ok token h none enabled e = cc
  already_enabled-ok token h (some b) enabled e =
      let same : b ≡ enabled = cc in ap (λ c. (ok c, h)) same

  Returns-already_enabled : (token : String) → Returns (already_enabled token)
  unfolding already_enabled ◌>>=◌
  Returns-already_enabled token = record {
    result = λ h.
        let (enabled, e) = chain.answers h token in
        (enabled, h, already_enabled-ok token h (env.collateral_enabled h token) enabled e);
  }

  Returns-perform : (e : Event) → Returns (perform e)
  unfolding perform
  Returns-perform e = record { result = λ h. (tt, h ++ (e ∷ []), rw (chain.accepts h e) refl) }

  Returns-perform_all : (es : List Event) → Returns (perform_all es)
  unfolding perform_all
  Returns-perform_all [] = Returns-pure tt
  Returns-perform_all (e ∷ es) = Returns-bind (Returns-perform e) (λ _. Returns-perform_all es)

  Returns-select :
      (tokens : Dict String) (reserves : Dict ReserveParams) (acc : List ConfigureReserveInput)
      → All (HasUsableToken env tokens) reserves
      → Returns (select_reserves tokens reserves acc)
  unfolding select_reserves
  Returns-select tokens [] acc usable = Returns-pure acc
  Returns-select tokens ((symbol, params) ∷ rest) acc usable =
      let next =
        λ (inputs : List ConfigureReserveInput). Returns-select tokens rest inputs usable.1 in
      Returns-elim (truthy (lookup symbol tokens)) (next acc) (λ token e.
        Returns-cond (str_eq params.base_ltv_as_collateral "-1") (next acc) (
          Returns-bind (Returns-already_enabled token) (λ enabled. Returns-cond enabled (next acc) (
            Returns-bind
              (Returns-unless _ _ (usable_token (truthy (lookup symbol tokens)) e usable.0))
              (λ _. next (acc ++ (configure_input token params ∷ [])))))))

  Returns-configure :
      (helper admin : String) (inputs : List ConfigureReserveInput)
      → Returns (configure_selected helper admin inputs)
  unfolding configure_selected
  Returns-configure helper admin [] = Returns-pure tt
  Returns-configure helper admin (input ∷ inputs) =
      Returns-bind (Returns-perform (set_pool_admin helper)) (λ _.
        Returns-bind (Returns-perform_all (map configure_reserves (chunk (input ∷ inputs) 20)))
          (λ _. Returns-perform (set_pool_admin admin)))

  Returns-configure_with :
      (helper admin : String) (reserves : Dict ReserveParams) (tokens : Dict String)
      → All (HasUsableToken env tokens) reserves
      → Returns (configure_with helper admin reserves tokens)
  Returns-configure_with helper admin reserves tokens usable =
      Returns-bind (Returns-select tokens reserves [] usable) (Returns-configure helper admin)

  -- Where the addresses of the provider and of the helper are given or in the database, no transaction
  -- is refused, no call for the flag of a reserve is rejected, and every reserve that has a token
  -- address has a valid one: configureReservesByHelper returns, with the events that it sends for the
  -- reserves that it selects, after which the given admin is the pool's, or without any, where it
  -- selects no reserve.
  pub configure_reserves-returns :
      (signers : List String) (provider_address helper_address : Option String) (admin : String)
      (reserves : Dict ReserveParams) (tokens : Dict String) (h : History)
      → HasAddress provider_address "LendingPoolAddressesProvider" h
      → HasAddress helper_address "LTokensAndRatesHelper" h
      → All (HasUsableToken env tokens) reserves
      → (h' : History) × (configure_reserves_by_helper signers provider_address helper_address admin
            reserves tokens h
          ≡ (ok tt, h'))
        × (helper : Contract) × (get_ltokens_and_rates_helper signers helper_address h
            ≡ (ok helper, h))
        × Configures helper.address admin reserves tokens h h'
  unfolding configure_reserves_by_helper get_lending_pool_addresses_provider
      get_ltokens_and_rates_helper
  configure_reserves-returns signers provider_address helper_address admin reserves tokens h
        provided helped usable =
      let (provider, a) =
        find-HasAddress signers "LendingPoolAddressesProvider" "LendingPoolAddressesProvider"
          provider_address h provided in
      let (helper, b) =
        find-HasAddress signers "LTokensAndRatesHelper" "LTokensAndRatesHelper" helper_address h
          helped in
      let (t, h', e) =
        (Returns-configure_with helper.address admin reserves tokens usable).result h in
      let done : configure_reserves_by_helper signers provider_address helper_address admin reserves
            tokens h
          ≡ (ok tt, h') =
        >>=-run (get_lending_pool_addresses_provider signers provider_address) _ h a
        ∙ >>=-run (get_ltokens_and_rates_helper signers helper_address) _ h b
        ∙ e in
      let (found, same, configures) =
        configure_reserves-ok signers provider_address helper_address admin reserves tokens h h'
          done in
      (h', done, found, same, configures)
