-- ===== src/Deploy/Verify.antt =====
-- helpers/etherscan-verification.ts: the verification task and its retries. The delays are left out; a run is recorded whether it throws or not.
pub mod Retries
use palmy_protocol.Prelude.{
  ℕ, zero, suc, ◌+◌, String, Bool, true, false, not, Option, none, some, List, [], ◌∷◌, ◌++◌, ◌==◌,
  if◌then◌else◌, includes,
}
use palmy_protocol.Deploy.{
  Env, Event, verify_run, cleanup, VerifyParams, Argument, History, Exec, Result, ok, err, pure,
  ◌>>=◌, ◌>>◌, unless, missing_etherscan_key, network_not_supported,
}

abbrev pub fatal_errors : List String
fatal_errors =
    "The address provided as argument contains a contract, but its bytecode"
    ∷ "Daily limit of 100 source code submissions reached"
    ∷ "has no bytecode. Is the contract deployed to this network" ∷ "The constructor for" ∷ []

abbrev pub ok_errors : List String
ok_errors = "Contract source code already verified" ∷ []

abbrev pub unable_verify_error : String
unable_verify_error = "Fail - Unable to verify"

abbrev pub supported_etherscan_networks : List String
supported_etherscan_networks = "testnet" ∷ "oasys" ∷ []

module _ ⦃env : Env⦄ where
  -- reasons.some((reason) => message.includes(reason))
  abbrev pub matches : List String → String → Bool
  matches [] message = false
  matches (r ∷ rs) message = if env.contains message r then true else matches rs message

  abbrev pub without_sources : Bool → VerifyParams → VerifyParams
  without_sources true params = record params { related_sources = false }
  without_sources false params = params

  -- The error is caught inside, so that the task only extends the history.
  unfoldable pub run_task_with_retry : ℕ → VerifyParams → History → History
  run_task_with_retry zero params h = h ++ (cleanup ∷ [])
  run_task_with_retry (suc counter) params h =
      let sent = without_sources (counter == 0) params in
      let h' = h ++ (verify_run sent ∷ []) in
      elim (env.verify_error h sent) [
        | none ↦ h' ++ (cleanup ∷ [])
        | some message ↦ elim (matches ok_errors message) [
          | true ↦ h'
          | false ↦ elim (matches fatal_errors message) [
            | true ↦ h'
            | false ↦
                run_task_with_retry counter
                  (without_sources (env.contains message unable_verify_error) sent) h'
          ]
        ]
      ]

  unfoldable pub verify_etherscan_contract :
      String → List Argument → Option String → Exec (Unit {0})
  unfolding run_task_with_retry
  verify_etherscan_contract address arguments libraries = do
    unless env.etherscan_key missing_etherscan_key
    unless (includes supported_etherscan_networks env.network) (network_not_supported env.network)
    λ h. (
      ok tt,
      run_task_with_retry 4
          (record {
            address = address;
            constructor_arguments = arguments;
            libraries = libraries;
            related_sources = true;
          })
          h,
    )
