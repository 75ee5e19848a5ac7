-- ===== src/Deploy/Registry/Store.antt =====
-- The database of deployed contracts behind helpers/contracts-helpers.ts: what an id has after a
-- deployment, and which scripts leave it.
use palmy_protocol.Prelude.{
  ◌≡◌, refl, sym, subst, ◌∙◌, ap, Bool, true, false, Option, none, some, List, [], ◌∷◌, ◌++◌, All,
  String, str_eq, eq_iff, append_assoc, append-nil,
}
use palmy_protocol.Deploy.{
  Env, Event, db_set, DbEntry, Argument, IsDb, History, Exec, ok, perform, when,
}
use palmy_protocol.Deploy.Verify.{verify_etherscan_contract}
use palmy_protocol.Deploy.Events.{
  Adds, Adds-when, Adds-perform, Adds-pure, Adds-bind, perform-ok, >>=-ok,
}
use palmy_protocol.Deploy.Registry.{with_save_and_verify, register_contract_in_json_db}
use palmy_protocol.Deploy.Registry.Saves.{AllowsRuns, Adds-verify}

-- The id that an event writes.
abbrev pub written_id : Event → Option String
written_id (db_set id entry) = some id
written_id event = none

abbrev pub address_in : Option DbEntry → Option String
address_in none = none
address_in (some entry) = some entry.address

-- How lowdb behaves, with what else happens: an event that is no write leaves all entries.
pub record IsStore (env : Env) : Type 0 where
  pub db : IsDb env
  pub after_other :
      (h : History) (e : Event) (id : String)
      → written_id e ≡ none
      → env.db_entry (h ++ (e ∷ [])) id ≡ env.db_entry h id

module _ ⦃env : Env⦄ where
  -- The entry of an id has this address.
  abbrev pub Holds : String → String → History → Type 0
  Holds id a h = address_in (env.db_entry h id) ≡ some a

  -- An event that leaves the entry of the id.
  abbrev pub Leaves : String → Event → Type 0
  Leaves id e = (h : History) → env.db_entry (h ++ (e ∷ [])) id ≡ env.db_entry h id

  All-Leaves :
      (id : String) (h : History) (es : List Event)
      → All (Leaves id) es
      → env.db_entry (h ++ es) id ≡ env.db_entry h id
  All-Leaves id h [] a = ap (λ k. env.db_entry k id) (append-nil h)
  All-Leaves id h (e ∷ es) a =
      ap (λ k. env.db_entry k id) (sym (append_assoc h (e ∷ []) es))
      ∙ All-Leaves id (h ++ (e ∷ [])) es a.1
      ∙ a.0 h

  -- What an id holds, it holds after a script that leaves the id.
  pub Holds-Adds :
      {A : Type 0} (id a : String) {m : Exec A}
      → Adds (Leaves id) m
      → (h : History) {x : A} {h' : History} → m h ≡ (ok x, h')
      → Holds id a h
      → Holds id a h'
  Holds-Adds id a {m = m} leaves h {h' = h'} e holds =
      let (es, grown, all) = leaves.extends h in
      ap (λ k. address_in (env.db_entry k id)) (sym (ap (λ r. r.1) e) ∙ grown)
      ∙ ap address_in (All-Leaves id h es all)
      ∙ holds

  module _ (store : IsStore env) where
    pub Leaves-other : (id : String) (e : Event) → written_id e ≡ none → Leaves id e
    Leaves-other id e n h = store.after_other h e id n

    pub Leaves-set :
        (id j : String) (entry : DbEntry) → str_eq j id ≡ false → Leaves id (db_set j entry)
    Leaves-set id j entry n h = store.db.after_set h j entry id ∙ rw n refl

    allows : (id : String) → AllowsRuns (Leaves id)
    allows id = record {
      verifying = λ v. Leaves-other id _ refl;
      cleaning = Leaves-other id _ refl;
    }

    Adds-verifying :
        (id a : String) (args : List Argument) (verify : Bool)
        → Adds (Leaves id) (when verify (verify_etherscan_contract a args none))
    Adds-verifying id a args verify =
        Adds-when (Leaves id) verify _ (Adds-verify (Leaves id) (allows id) a args none)

    -- Saving a contract leaves the other ids.
    pub Leaves-save :
        (id j a : String) (args : List Argument) (verify : Bool)
        → str_eq j id ≡ false
        → Adds (Leaves id) (with_save_and_verify a j args verify)
    unfolding with_save_and_verify register_contract_in_json_db
    Leaves-save id j a args verify n =
        Adds-bind (Leaves id) (Adds-perform (Leaves id) _ (Leaves-set id j _ n)) (λ _.
          Adds-bind (Leaves id) (Adds-verifying id a args verify) (λ _. Adds-pure (Leaves id) a))

    Holds-set :
        (id : String) (entry : DbEntry) (h : History)
        → Holds id entry.address (h ++ (db_set id entry ∷ []))
    Holds-set id entry h =
        let same : str_eq id id ≡ true = (eq_iff id id).1 refl in
        let found : env.db_entry (h ++ (db_set id entry ∷ [])) id ≡ some entry =
          store.db.after_set h id entry id ∙ rw same refl in
        ap address_in found

    -- A write that succeeds is what the id holds.
    pub Holds-perform :
        (id : String) (entry : DbEntry) (h : History) {t : Unit {0}} {h' : History}
        → perform (db_set id entry) h ≡ (ok t, h')
        → Holds id entry.address h'
    Holds-perform id entry h e = rw (perform-ok (db_set id entry) h e) (Holds-set id entry h)

    -- A contract that is saved is returned, and its id holds its address.
    pub save-Holds :
        (id a : String) (args : List Argument) (verify : Bool) (h : History) {b : String}
        {h' : History}
        → with_save_and_verify a id args verify h ≡ (ok b, h')
        → (a ≡ b) × Holds id b h'
    unfolding with_save_and_verify register_contract_in_json_db
    save-Holds id a args verify h {b = b} {h' = h'} e =
        let (t, h1, first, rest) = >>=-ok _ _ h e in
        let (u, h2, second, last) = >>=-ok _ _ h1 rest in
        let kept : Holds id a h2 =
          Holds-Adds id a (Adds-verifying id a args verify) h1 second
            (Holds-perform id _ h first) in
        let returned : a ≡ b = cc in
        let ended : h2 ≡ h' = cc in
        (returned, subst (λ k. Holds id b k) ended (subst (λ c. Holds id c h2) returned kept))
