-- ===== src/Deploy/Getters/Finds.antt =====
-- When a getter of helpers/contracts-getters.ts finds a contract.
use palmy_protocol.Prelude.{◌≡◌, refl, Option, none, some, String, List, ◌⊎◌, inl, inr}
use palmy_protocol.Deploy.{Env, DbEntry, Error, History, ok, err, pure, ◌>>=◌, type_error}
use palmy_protocol.Deploy.Registry.{truthy}
use palmy_protocol.Deploy.Getters.{
  Contract, connect, find_contract, address_of, address_or_saved,
  get_lending_pool_addresses_provider, get_ltokens_and_rates_helper,
  get_lending_pool_configurator_proxy,
}

module _ ⦃env : Env⦄ where
  -- An address is given, or the database has an entry.
  abbrev pub HasAddress : Option String → String → History → Type 0
  HasAddress address id h =
      ((a : String) × (truthy address ≡ some a)) ⊎ ((e : DbEntry) × (env.db_entry h id ≡ some e))

  of_entry :
      (signers : List String) (factory : String) (entry : Option DbEntry) (h : History)
      → ((e : DbEntry) × (entry ≡ some e))
      → (c : Contract) × ((address_of entry >>= λ a. pure (connect signers factory a)) h
          ≡ (ok c, h))
  unfolding ◌>>=◌
  of_entry signers factory none h (e, same) = cc
  of_entry signers factory (some entry) h (e, same) = (connect signers factory entry.address, refl)

  of_address :
      (signers : List String) (factory id : String) (given : Option String) (h : History)
      → (((a : String) × (given ≡ some a)) ⊎ ((e : DbEntry) × (env.db_entry h id ≡ some e)))
      → (c : Contract) × ((address_or_saved given id >>= λ a. pure (connect signers factory a)) h
          ≡ (ok c, h))
  unfolding ◌>>=◌
  of_address signers factory id (some a) h has = (connect signers factory a, refl)
  of_address signers factory id none h (inl (a, same)) = cc
  of_address signers factory id none h (inr found) =
      of_entry signers factory (env.db_entry h id) h found

  pub find-HasAddress :
      (signers : List String) (factory id : String) (address : Option String) (h : History)
      → HasAddress address id h
      → (c : Contract) × (find_contract signers factory id address h ≡ (ok c, h))
  unfolding find_contract
  find-HasAddress signers factory id address h has =
      of_address signers factory id (truthy address) h has

  -- A getter changes nothing, and fails only where it looks up an id that the database does not have.
  entry-history :
      (signers : List String) (factory : String) (entry : Option DbEntry) (h : History)
      → ((address_of entry >>= λ a. pure (connect signers factory a)) h).1 ≡ h
  unfolding ◌>>=◌
  entry-history signers factory none h = refl
  entry-history signers factory (some entry) h = refl

  address-history :
      (signers : List String) (factory id : String) (given : Option String) (h : History)
      → ((address_or_saved given id >>= λ a. pure (connect signers factory a)) h).1 ≡ h
  unfolding ◌>>=◌
  address-history signers factory id (some a) h = refl
  address-history signers factory id none h = entry-history signers factory (env.db_entry h id) h

  pub find-history :
      (signers : List String) (factory id : String) (address : Option String) (h : History)
      → (find_contract signers factory id address h).1 ≡ h
  unfolding find_contract
  find-history signers factory id address h = address-history signers factory id (truthy address) h

  entry-err :
      (signers : List String) (factory : String) (entry : Option DbEntry) (h : History) {x : Error}
      {h' : History}
      → (address_of entry >>= λ a. pure (connect signers factory a)) h ≡ (err x, h')
      → (x ≡ type_error) × (entry ≡ none)
  unfolding ◌>>=◌
  entry-err signers factory none h e = (cc, refl)
  entry-err signers factory (some entry) h e = cc

  pub find_saved-err :
      (signers : List String) (factory id : String) (h : History) {x : Error} {h' : History}
      → find_contract signers factory id none h ≡ (err x, h')
      → (x ≡ type_error) × (env.db_entry h id ≡ none)
  unfolding find_contract ◌>>=◌
  find_saved-err signers factory id h e = entry-err signers factory (env.db_entry h id) h e

  pub provider-history :
      (signers : List String) (address : Option String) (h : History)
      → (get_lending_pool_addresses_provider signers address h).1 ≡ h
  unfolding get_lending_pool_addresses_provider
  provider-history signers address h = find-history signers _ _ address h

  pub helper-history :
      (signers : List String) (address : Option String) (h : History)
      → (get_ltokens_and_rates_helper signers address h).1 ≡ h
  unfolding get_ltokens_and_rates_helper
  helper-history signers address h = find-history signers _ _ address h

  pub configurator-history :
      (signers : List String) (address : Option String) (h : History)
      → (get_lending_pool_configurator_proxy signers address h).1 ≡ h
  unfolding get_lending_pool_configurator_proxy
  configurator-history signers address h = find-history signers _ _ address h
