-- ===== src/Deploy/Verify/Retries.antt =====
-- The retries of helpers/etherscan-verification.ts end, and are bounded.
use palmy_protocol.Prelude.{
  ℕ, zero, suc, ◌≤◌, ◌≡◌, refl, sym, ◌∙◌, ◌⊎◌, inl, inr, String, Bool, true, false, Option, none,
  some, List, [], ◌∷◌, ◌++◌, map, arith, ◌==◌, length, append_assoc, append-nil,
}
use palmy_protocol.Deploy.{Env, Event, verify_run, cleanup, VerifyParams, History}
use palmy_protocol.Deploy.Verify.{
  run_task_with_retry, without_sources, matches, ok_errors, fatal_errors, unable_verify_error,
}

module _ ⦃env : Env⦄ where
  -- The events of one call: runs, and then at most one removal of the parameter file.
  abbrev pub Runs : ℕ → History → History → Type 0
  Runs times h h' =
      (runs : List VerifyParams) × (tail : List Event) × (h' ≡ h ++ (map verify_run runs ++ tail))
      × (length runs ≤ times)
      × ((tail ≡ []) ⊎ (tail ≡ cleanup ∷ []))

  Runs-next :
      (times : ℕ) (h h' : History) (sent : VerifyParams)
      → Runs times (h ++ (verify_run sent ∷ [])) h'
      → Runs (suc times) h h'
  Runs-next times h h' sent (runs, tail, e, n, t) = (
    sent ∷ runs,
    tail,
    e ∙ append_assoc h (verify_run sent ∷ []) (map verify_run runs ++ tail),
    omega arith,
    t,
  )

  Runs-stop : (times : ℕ) (h : History) → Runs times h h
  Runs-stop times h = ([], [], sym (append-nil h), omega arith, inl refl)

  -- What happens after an error, by whether its message is one of the accepted or the fatal ones.
  Runs-error :
      (times : ℕ) (h r : History) (accepted fatal : Bool)
      → Runs times h r
      → Runs times h (elim accepted [ true ↦ h | false ↦ elim fatal [ true ↦ h | false ↦ r ] ])
  Runs-error times h r true fatal rec = Runs-stop times h
  Runs-error times h r false true rec = Runs-stop times h
  Runs-error times h r false false rec = rec

  Runs-outcome :
      (times : ℕ) (h : History) (accepted fatal : String → Bool) (rest : String → History)
      (outcome : Option String)
      → ((m : String) → Runs times h (rest m))
      → Runs times h (elim outcome [
        | none ↦ h ++ (cleanup ∷ [])
        | some m ↦ elim (accepted m) [
          | true ↦ h
          | false ↦ elim (fatal m) [ true ↦ h | false ↦ rest m ]
        ]
      ])
  Runs-outcome times h accepted fatal rest none rec =
      ([], cleanup ∷ [], refl, omega arith, inr refl)
  Runs-outcome times h accepted fatal rest (some m) rec =
      Runs-error times h (rest m) (accepted m) (fatal m) (rec m)

  -- The task runs at most as often as `times` says, whatever the errors, and the parameter file is
  -- removed at most once, after the last run.
  pub run_task-Runs :
      (times : ℕ) (params : VerifyParams) (h : History)
      → Runs times h (run_task_with_retry times params h)
  unfolding run_task_with_retry
  run_task-Runs zero params h = ([], cleanup ∷ [], refl, omega arith, inr refl)
  run_task-Runs (suc n) params h =
      let sent = without_sources (n == 0) params in
      let h' = h ++ (verify_run sent ∷ []) in
      Runs-next n h _ sent (
        Runs-outcome n h' (matches ok_errors) (matches fatal_errors)
          (λ m.
            run_task_with_retry n (without_sources (env.contains m unable_verify_error) sent) h')
          (env.verify_error h sent)
          (λ m. run_task-Runs n (without_sources (env.contains m unable_verify_error) sent) h'))
