-- ===== src/Scenario/Steps/Drift.antt =====
-- What every action that passes keeps on the chain, up to the tolerance of the comparison
-- (test-suites/test-palmy/helpers/actions.ts with utils/calculations.ts).
use palmy_protocol.Prelude.{◌≡◌, ◌∙◌, ℕ, Bool, true, false, some, String, arith}
use palmy_protocol.Prelude.Int.{ℤ, pos, ◌+ℤ◌, ◌≤ℤ◌, int_laws}
use palmy_protocol.Number.{BigNumberLib, IsTruncating}
use palmy_protocol.Calculations.Actions.{IsPrompt}
use palmy_protocol.Calculations.Conservation.{wallet_conserved, from_others, nothing}
use palmy_protocol.Scenario.{TestEnv, passed}
use palmy_protocol.Scenario.Data.{ContractsData, data_of}
use palmy_protocol.Scenario.Compare.Near.{IsNear}
use palmy_protocol.Scenario.Steps.Requests.{
  Request, deposits, withdraws, borrows, repays, swaps, rebalances, perform, symbol_of, sender_of,
  user_of, wallet_of, action_of,
}
use palmy_protocol.Scenario.Steps.Refinement.{passed-Refines}

abbrev pub is_repay : Request → Bool
is_repay (deposits symbol amount sender on_behalf_of value) = false
is_repay (withdraws symbol amount user) = false
is_repay (borrows symbol amount mode user on_behalf_of time_travel) = false
is_repay (repays symbol amount mode user on_behalf_of value) = true
is_repay (swaps symbol user mode) = false
is_repay (rebalances symbol user target) = false

request-IsPrompt :
    (r : Request) (units tx now : ℤ) → is_repay r ≡ false → IsPrompt (action_of r units) tx now
request-IsPrompt (deposits symbol amount sender on_behalf_of value) units tx now h = tt
request-IsPrompt (withdraws symbol amount user) units tx now h = tt
request-IsPrompt (borrows symbol amount mode user on_behalf_of time_travel) units tx now h = tt
request-IsPrompt (repays symbol amount mode user on_behalf_of value) units tx now h =
    absurd (ground arith)
request-IsPrompt (swaps symbol user mode) units tx now h = tt
request-IsPrompt (rebalances symbol user target) units tx now h = tt

-- What the reserve has available, and the wallet that is among the data.
abbrev pub holdings : ContractsData → ℤ
holdings d = d.reserve_data.available_liquidity +ℤ d.user_data.wallet_balance

-- Nobody else pays but for a repayment.
request-from_others :
    ⦃lib : BigNumberLib⦄ (r : Request) (units : ℤ) (d : ContractsData) (payer on_behalf_of : String)
    (tx : ℤ)
    → is_repay r ≡ false
    → holdings d +ℤ from_others (action_of r units) d.reserve_data d.user_data payer on_behalf_of tx
      ≡ holdings d
request-from_others (deposits symbol amount sender owner value) units d payer on_behalf_of tx h =
    nothing (holdings d)
request-from_others (withdraws symbol amount user) units d payer on_behalf_of tx h =
    nothing (holdings d)
request-from_others (borrows symbol amount mode user owner time_travel) units d payer on_behalf_of
      tx h =
    nothing (holdings d)
request-from_others (repays symbol amount mode user owner value) units d payer on_behalf_of tx h =
    cc
request-from_others (swaps symbol user mode) units d payer on_behalf_of tx h = nothing (holdings d)
request-from_others (rebalances symbol user target) units d payer on_behalf_of tx h =
    nothing (holdings d)

-- Neither is more than `n` above the other.
abbrev pub IsWithin : ℕ → ℤ → ℤ → Type 0
IsWithin n a b = (a ≤ℤ b +ℤ pos n) × (b ≤ℤ a +ℤ pos n)

near_sum : (a b e f s : ℤ) → IsNear a e → IsNear b f → e +ℤ f ≡ s → IsWithin 6 (a +ℤ b) s
near_sum a b e f s p q h = rw (← h) (omega int_laws, omega int_laws)

module _ ⦃lib : BigNumberLib⦄ (law : IsTruncating lib) where
  module _ {W : Type 0} ⦃env : TestEnv W⦄ where
    -- The holdings of the reserve of the request, before and after it.
    abbrev pub Conserves : Request → W → W → Type 0
    Conserves r w v =
        (reserve : String) × (env.db_address (symbol_of r) ≡ some reserve)
        × IsWithin 6 (holdings (data_of v reserve (user_of r) (wallet_of r)))
            (holdings (data_of w reserve (user_of r) (wallet_of r)))

    -- With a BigNumber division that truncates: a request other than a repayment that the suite
    -- performs with the expectation of success, and that passes with the comparison switched on, leaves
    -- what the reserve has available and what the wallet has, added up, as they were on the chain before
    -- it, up to six units.
    pub passed-Conserves :
        (r : Request) (w v : W)
        → env.skip_integrity_check ≡ false
        → is_repay r ≡ false
        → perform r "success" w ≡ (passed tt, v)
        → Conserves r w v
    passed-Conserves r w v on other e =
        let step = passed-Refines law r w v on e in
        let c = step.conforms in
        let before = data_of w step.reserve (user_of r) (wallet_of r) in
        let after = data_of v step.reserve (user_of r) (wallet_of r) in
        let tx = env.block_timestamp step.sent step.block in
        (
          step.reserve,
          step.known,
          near_sum after.reserve_data.available_liquidity after.user_data.wallet_balance _ _ _
              c.reserve_near.available_liquidity c.user_near.wallet_balance
              (wallet_conserved env.reserves_params env.no_reserve env.no_user
                  (action_of r step.units) before.reserve_data before.user_data _ _ tx
                  after.timestamp (request-IsPrompt r step.units tx after.timestamp other)
                  c.predicted
                ∙ request-from_others r step.units before (sender_of r) (user_of r) tx other),
        )
