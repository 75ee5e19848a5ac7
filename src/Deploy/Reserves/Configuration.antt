-- ===== src/Deploy/Reserves/Configuration.antt =====
-- A whole run of `configureReservesByHelper` (helpers/init-helpers.ts), with the look-up of its contracts.
use palmy_protocol.Prelude.{
  ◌≡◌, sym, ◌∙◌, ap, subst, Option, some, String, List, Dict, ◌⊎◌, inl, inr,
}
use palmy_protocol.Types.{ReserveParams}
use palmy_protocol.Deploy.{Env, Error, History, ok, err}
use palmy_protocol.Deploy.Events.{>>=-ok, >>=-err}
use palmy_protocol.Deploy.Getters.{
  Contract, get_lending_pool_addresses_provider, get_ltokens_and_rates_helper,
}
use palmy_protocol.Deploy.Getters.Finds.{provider-history, helper-history}
use palmy_protocol.Deploy.Reserves.{configure_reserves_by_helper, configure_with}
use palmy_protocol.Deploy.Reserves.Bracket.{
  Configures, pool_admin, configure_with-ok, configure_with-err,
}

module _ ⦃env : Env⦄ where
  -- A run of `configureReservesByHelper` that succeeds finds the helper, leaves the events before it as
  -- they are, and then either sends nothing, where it selects no reserve, or makes the helper the pool's
  -- admin, configures the selected reserves in chunks of twenty, and sets the given admin, who is the
  -- pool's admin at the end.
  pub configure_reserves-ok :
      (signers : List String) (provider_address helper_address : Option String) (admin : String)
      (reserves : Dict ReserveParams) (tokens : Dict String) (h h' : History)
      → configure_reserves_by_helper signers provider_address helper_address admin reserves tokens h
        ≡ (ok tt, h')
      → (helper : Contract) × (get_ltokens_and_rates_helper signers helper_address h
          ≡ (ok helper, h))
        × Configures helper.address admin reserves tokens h h'
  unfolding configure_reserves_by_helper
  configure_reserves-ok signers provider_address helper_address admin reserves tokens h h' e =
      let (provider, h1, a, e1) =
        >>=-ok (get_lending_pool_addresses_provider signers provider_address) _ h e in
      let same : h1 ≡ h = ap (λ r. r.1) (sym a) ∙ provider-history signers provider_address h in
      let (helper, h2, b, e2) =
        >>=-ok (get_ltokens_and_rates_helper signers helper_address) _ h1 e1 in
      let same2 : h2 ≡ h1 = ap (λ r. r.1) (sym b) ∙ helper-history signers helper_address h1 in
      let all : h2 ≡ h = same2 ∙ same in
      (
        helper,
        ap (get_ltokens_and_rates_helper signers helper_address) (sym same)
            ∙ b
            ∙ ap (λ k. (ok helper, k)) all,
        subst (λ k. Configures helper.address admin reserves tokens k h') all
            (configure_with-ok helper.address admin reserves tokens h2 h' e2),
      )

  -- Nothing was sent, or the helper that was found is the pool's admin.
  abbrev pub Fails :
      List String → Option String → (before : Option String) → (h' h : History) → Type 0
  Fails signers helper_address before h' h =
      (h' ≡ h)
      ⊎ ((helper : Contract) × (get_ltokens_and_rates_helper signers helper_address h
            ≡ (ok helper, h))
          × (pool_admin before h' ≡ some helper.address))

  with_helper-err :
      (signers : List String) (helper_address : Option String) (admin : String)
      (reserves : Dict ReserveParams) (tokens : Dict String) (h h1 h' : History) (x : Error)
      (before : Option String) (helper : Contract)
      → get_ltokens_and_rates_helper signers helper_address h ≡ (ok helper, h1)
      → configure_with helper.address admin reserves tokens h1 ≡ (err x, h')
      → Fails signers helper_address before h' h
  with_helper-err signers helper_address admin reserves tokens h h1 h' x before helper found
        failed =
      let same : h1 ≡ h = ap (λ r. r.1) (sym found) ∙ helper-history signers helper_address h in
      elim (configure_with-err helper.address admin reserves tokens h1 h' x before failed) [
        | inl nothing ↦ inl (nothing ∙ same)
        | inr held ↦ inr (helper, found ∙ ap (λ k. (ok helper, k)) same, held)
      ]

  -- When `configureReservesByHelper` throws, either no transaction was sent, or the helper contract that
  -- it found is still the pool's admin: the admin is not set back.
  pub configure_reserves-err :
      (signers : List String) (provider_address helper_address : Option String) (admin : String)
      (reserves : Dict ReserveParams) (tokens : Dict String) (h h' : History) (x : Error)
      (before : Option String)
      → configure_reserves_by_helper signers provider_address helper_address admin reserves tokens h
        ≡ (err x, h')
      → Fails signers helper_address before h' h
  unfolding configure_reserves_by_helper
  configure_reserves-err signers provider_address helper_address admin reserves tokens h h' x before
        e =
      elim (>>=-err (get_lending_pool_addresses_provider signers provider_address) _ h e) [
        | inl a ↦ inl (ap (λ r. r.1) (sym a) ∙ provider-history signers provider_address h)
        | inr (provider, h1, a, e1) ↦
            subst (Fails signers helper_address before h')
              (ap (λ r. r.1) (sym a) ∙ provider-history signers provider_address h)
              (elim (>>=-err (get_ltokens_and_rates_helper signers helper_address) _ h1 e1) [
                | inl b ↦ inl (ap (λ r. r.1) (sym b) ∙ helper-history signers helper_address h1)
                | inr (helper, h2, b, e2) ↦
                    with_helper-err signers helper_address admin reserves tokens h1 h2 h' x before
                      helper b e2
              ])
      ]
