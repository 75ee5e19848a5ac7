-- ===== src/Scenario/Steps/Story.antt =====
-- The liquidity index over a story of requests on one reserve
-- (test-suites/test-palmy/helpers/scenario-engine.ts, actions.ts).
use palmy_protocol.Prelude.{
  ◌≡◌, sym, subst, ◌∙◌, ap, ◌*◌, ℕ, suc, false, some, String, List, [], ◌∷◌, All, length,
}
use palmy_protocol.Prelude.Fallible.{eq_of_some-eq}
use palmy_protocol.Prelude.Int.{ℤ, pos, ◌+ℤ◌, ◌≤ℤ◌, int_laws}
use palmy_protocol.Number.{BigNumberLib, IsTruncating}
use palmy_protocol.Calculations.Growth.{IsPast}
use palmy_protocol.Calculations.Indices.{index_monotone}
use palmy_protocol.Scenario.{TestEnv, Suite, passed, pure, ContractReceipt, Tx, ◌>>◌}
use palmy_protocol.Scenario.Runs.{>>=-passed}
use palmy_protocol.Scenario.Data.{data_of, get_reserve_data}
use palmy_protocol.Scenario.Compare.Near.{IsNear}
use palmy_protocol.Scenario.Steps.Requests.{
  Request, perform, symbol_of, sender_of, user_of, wallet_of, action_of,
}
use palmy_protocol.Scenario.Steps.Refinement.{passed-Refines}

near_after : (a b e : ℤ) → a ≤ℤ e → IsNear b e → a ≤ℤ b +ℤ pos 3
near_after a b e h near = omega int_laws

index_chain :
    (a b c : ℤ) (n : ℕ) → a ≤ℤ b +ℤ pos 3 → b ≤ℤ c +ℤ pos (3 * n) → a ≤ℤ c +ℤ pos (3 * suc n)
index_chain a b c n h k = omega int_laws

module _ (W : Type 0) ⦃env : TestEnv W⦄ ⦃lib : BigNumberLib⦄ where
  -- How the chain behaves: its numbers are not negative, and a block that a transaction is in is not
  -- earlier than the last update of a reserve before the transaction.
  pub record IsChronological : Type 0 where
    pub past :
        (w sent : W) (sender reserve : String) (tx : Tx) (receipt : ContractReceipt) (block : ℕ)
        → env.send w sender tx ≡ (some receipt, sent)
        → receipt.block_number ≡ some block
        → IsPast (get_reserve_data w reserve) (env.block_timestamp sent block)

module _ {W : Type 0} ⦃env : TestEnv W⦄ ⦃lib : BigNumberLib⦄ where
  abbrev pub index_of : W → String → ℤ
  index_of w reserve = (get_reserve_data w reserve).liquidity_index

  -- Requests one after the other.
  abbrev pub perform_all : List Request → Suite W (Unit {0})
  perform_all [] = pure tt
  perform_all (r ∷ rs) = do perform r "success"; perform_all rs

module _ ⦃lib : BigNumberLib⦄ (law : IsTruncating lib) {W : Type 0} ⦃env : TestEnv W⦄
    (chain : IsChronological W) where
  passed-index :
      (r : Request) (w v : W) (reserve : String)
      → env.skip_integrity_check ≡ false
      → env.db_address (symbol_of r) ≡ some reserve
      → perform r "success" w ≡ (passed tt, v)
      → index_of w reserve ≤ℤ index_of v reserve +ℤ pos 3
  unfolding data_of
  passed-index r w v reserve on known e =
      let step = passed-Refines law r w v on e in
      let c = step.conforms in
      let before = data_of w step.reserve (user_of r) (wallet_of r) in
      let after = data_of v step.reserve (user_of r) (wallet_of r) in
      let past =
        chain.past w step.sent (sender_of r) step.reserve _ step.receipt step.block step.accepted
          step.mined in
      let (grows, _) =
        index_monotone law env.reserves_params env.no_reserve (action_of r step.units)
          before.reserve_data before.user_data (env.block_timestamp step.sent step.block)
          after.timestamp past c.predicted in
      subst (λ a. index_of w a ≤ℤ index_of v a +ℤ pos 3) (eq_of_some-eq (sym step.known ∙ known))
        (near_after (index_of w step.reserve) (index_of v step.reserve) c.expected.liquidity_index
          grows c.reserve_near.liquidity_index)

  -- With a BigNumber division that truncates, on a chain whose numbers are not negative and whose
  -- blocks are not earlier than the last updates before them: where requests on one reserve pass one
  -- after the other, with the comparison switched on, the liquidity index of the reserve on the chain
  -- is not lower at the end than at the start by more than three units for each request.
  pub story-index :
      (symbol reserve : String) (rs : List Request) (w v : W)
      → env.skip_integrity_check ≡ false
      → env.db_address symbol ≡ some reserve
      → All (λ r. symbol_of r ≡ symbol) rs
      → perform_all rs w ≡ (passed tt, v)
      → index_of w reserve ≤ℤ index_of v reserve +ℤ pos (3 * length rs)
  story-index symbol reserve [] w v on known same e =
      subst (λ k. index_of w reserve ≤ℤ index_of k reserve +ℤ pos 0) (ap (λ x. x.1) e)
        (omega int_laws)
  story-index symbol reserve (r ∷ rs) w v on known same e =
      let (_, u, first, rest) = >>=-passed (perform r "success") (λ _. perform_all rs) w e in
      index_chain (index_of w reserve) (index_of u reserve) (index_of v reserve) (length rs)
        (passed-index r w u reserve on (rw same.0 known) first)
        (story-index symbol reserve rs u v on known same.1 rest)
