-- ===== src/Deploy/Registry/Lookup.antt =====
-- Which address helpers/contracts-helpers.ts finds for a contract id.
use palmy_protocol.Prelude.{
  ◌≡◌, refl, sym, ◌∙◌, ap, subst, true, false, Option, some, String, Dict, str_eq, eq_iff,
}
use palmy_protocol.Misc.{not_falsy_or_zero_address}
use palmy_protocol.Deploy.{Env, db_set, DbEntry, IsDb, History, Exec, read, ok, ◌>>=◌}
use palmy_protocol.Deploy.Events.{perform-ok}
use palmy_protocol.Deploy.Registry.{
  register_contract_in_json_db, get_contract_address_with_json_fallback, entry_address,
  get_optional_param_address_per_network, or_missing,
}

abbrev pub at_market : (env : Env) → (String → Option (Dict String)) → String → Option String
at_market env config id = get_optional_param_address_per_network env.fork (config id) env.network

module _ ⦃env : Env⦄ where
  -- An address of the market configuration that is neither falsy nor zero comes before the database:
  -- it is the result, and the history stays as it is.
  pub market_first :
      (config : String → Option (Dict String)) (id a : String) (h : History)
      → at_market env config id ≡ some a
      → not_falsy_or_zero_address env.tests (some a) ≡ true
      → get_contract_address_with_json_fallback config id h ≡ (ok a, h)
  unfolding get_contract_address_with_json_fallback
  market_first config id a h e v =
      subst
        (λ o.
          (elim (not_falsy_or_zero_address env.tests o) as (λ _. Exec String) [
            | true ↦ or_missing id o
            | false ↦ read (λ k. env.db_entry k id) >>= λ x. or_missing id (entry_address x)
          ])
            h
          ≡ (ok a, h))
        (sym e) (rw v refl)

  -- Where the market configuration has no such address, and the database behaves as a store, an
  -- address that was just registered, and is not empty, is the one that is found.
  pub register-get_contract_address :
      (db : IsDb env) (config : String → Option (Dict String)) (id a : String) (h h' : History)
      → register_contract_in_json_db id a h ≡ (ok tt, h')
      → not_falsy_or_zero_address env.tests (at_market env config id) ≡ false
      → str_eq a "" ≡ false
      → get_contract_address_with_json_fallback config id h' ≡ (ok a, h')
  unfolding get_contract_address_with_json_fallback register_contract_in_json_db ◌>>=◌
  register-get_contract_address db config id a h h' e m n =
      let same : str_eq id id ≡ true = (eq_iff id id).1 refl in
      let entry : DbEntry = record { address = a; deployer = some env.sender } in
      let stored : env.db_entry h' id ≡ some entry =
        ap (λ k. env.db_entry k id) (perform-ok (db_set id entry) h e)
        ∙ db.after_set h id entry id
        ∙ rw same refl in
      let found : or_missing id (entry_address (env.db_entry h' id)) h' ≡ (ok a, h') =
        rw (stored, n) refl in
      subst
        (λ b.
          (elim b as (λ _. Exec String) [
            | true ↦ or_missing id (at_market env config id)
            | false ↦ read (λ k. env.db_entry k id) >>= λ x. or_missing id (entry_address x)
          ])
            h'
          ≡ (ok a, h'))
        (sym m) found
