-- ===== src/Deploy/Registry/Saves.antt =====
-- helpers/contracts-helpers.ts and contracts-deployments.ts: which events a deployment may add.
use palmy_protocol.Prelude.{
  ◌≡◌, Bool, true, false, Option, none, some, List, [], ◌∷◌, ◌++◌, All, ◌⊎◌, inl, inr, String, map,
  Dict,
}
use palmy_protocol.Misc.{not_falsy_or_zero_address}
use palmy_protocol.Deploy.{
  Argument, ok, ◌>>=◌, Env, Event, deployed, db_set, DbEntry, verify_run, cleanup, VerifyParams,
  read,
}
use palmy_protocol.Deploy.Verify.{verify_etherscan_contract, run_task_with_retry}
use palmy_protocol.Deploy.Verify.Retries.{run_task-Runs}
use palmy_protocol.Deploy.Registry.{
  deploy, with_save_and_verify, register_contract_in_json_db, raw_insert_contract_address_in_db,
  get_contract_address_with_json_fallback, or_missing, entry_address,
  get_optional_param_address_per_network,
}
use palmy_protocol.Deploy.Contracts.{
  deploy_rate_strategy, deploy_default_reserve_interest_rate_strategy,
}
use palmy_protocol.Deploy.Events.{
  Adds, Adds-bind, Adds-unless, Adds-when, Adds-perform, Adds-pure, Adds-throw, Adds-read, All-join,
}

-- The events of a verification.
pub record AllowsRuns (P : Event → Type 0) : Type 0 where
  pub verifying : (v : VerifyParams) → P (verify_run v)
  pub cleaning : P cleanup

-- The events of a deployment.
pub record AllowsSaves (P : Event → Type 0) : Type 0 where
  pub creation : (f : String) (args : List String) → P (deployed f args)
  pub saving : (id : String) (e : DbEntry) → P (db_set id e)
  pub verifying : (v : VerifyParams) → P (verify_run v)
  pub cleaning : P cleanup

module _ (P : Event → Type 0) (allows : AllowsRuns P) ⦃env : Env⦄ where
  All-runs : (runs : List VerifyParams) → All P (map verify_run runs)
  All-runs [] = tt
  All-runs (r ∷ runs) = (allows.verifying r, All-runs runs)

  All-tail : (tail : List Event) → ((tail ≡ []) ⊎ (tail ≡ cleanup ∷ [])) → All P tail
  All-tail tail (inl e) = rw e tt
  All-tail tail (inr e) = rw e (allows.cleaning, tt)

  Adds-run : (v : VerifyParams) → Adds P (λ h. (ok (tt {0}), run_task_with_retry 4 v h))
  Adds-run v = record {
    extends = λ h.
        let (runs, tail, e, n, t) = run_task-Runs 4 v h in
        (map verify_run runs ++ tail, e, All-join P _ tail (All-runs runs) (All-tail tail t));
  }

  pub Adds-verify :
      (a : String) (args : List Argument) (l : Option String)
      → Adds P (verify_etherscan_contract a args l)
  unfolding verify_etherscan_contract
  Adds-verify a args l =
      Adds-bind P (Adds-unless P _ _) (λ _. Adds-bind P (Adds-unless P _ _) (λ _. Adds-run _))

module _ (P : Event → Type 0) (allows : AllowsSaves P) ⦃env : Env⦄ where
  runs : AllowsRuns P
  runs = record { verifying = allows.verifying; cleaning = allows.cleaning }

  pub Adds-deploy : (f : String) (args : List String) → Adds P (deploy f args)
  unfolding deploy
  Adds-deploy f args =
      Adds-bind P (Adds-perform P _ (allows.creation f args)) (λ _. Adds-read P env.new_address)

  pub Adds-save :
      (a id : String) (args : List Argument) (verify : Bool)
      → Adds P (with_save_and_verify a id args verify)
  unfolding with_save_and_verify register_contract_in_json_db
  Adds-save a id args verify = Adds-bind P (Adds-perform P _ (allows.saving id _)) (λ _.
      Adds-bind P (Adds-when P verify _ (Adds-verify P runs a args none)) (λ _. Adds-pure P a))

  pub Adds-insert : (id a : String) → Adds P (raw_insert_contract_address_in_db id a)
  unfolding raw_insert_contract_address_in_db
  Adds-insert id a = Adds-perform P _ (allows.saving id _)

  pub Adds-strategy :
      (name : String) (args : List String) (verify : Bool)
      → Adds P (deploy_rate_strategy name args verify)
  unfolding deploy_rate_strategy deploy_default_reserve_interest_rate_strategy
  Adds-strategy name args verify = Adds-bind P (Adds-deploy _ args) (λ a. Adds-save a _ _ verify)

  Adds-or_missing : (id : String) (o : Option String) → Adds P (or_missing id o)
  Adds-or_missing id none = Adds-throw P _
  Adds-or_missing id (some a) = Adds-pure P a

  pub Adds-address :
      (config : String → Option (Dict String)) (id : String)
      → Adds P (get_contract_address_with_json_fallback config id)
  unfolding get_contract_address_with_json_fallback
  Adds-address config id =
      let at_market = get_optional_param_address_per_network env.fork (config id) env.network in
      elim (not_falsy_or_zero_address env.tests at_market)
        as (λ b. Adds P (elim b [
          | true ↦ or_missing id at_market
          | false ↦ read (λ h. env.db_entry h id) >>= λ entry. or_missing id (entry_address entry)
        ])) [
          | true ↦ Adds-or_missing id at_market
          | false ↦ Adds-bind P (Adds-read P _) (λ entry. Adds-or_missing id (entry_address entry))
        ]
