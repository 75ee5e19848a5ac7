-- ===== src/Scenario/Steps/Engine/Silent.antt =====
-- Actions with an expectation that is neither "success" nor "revert"
-- (test-suites/test-palmy/helpers/actions.ts, scenario-engine.ts).
use palmy_protocol.Prelude.{
  ◌≡◌, refl, sym, ◌∙◌, ap, Bool, true, false, Option, none, some, String, List, arith, str_eq,
  if◌then◌else◌,
}
use palmy_protocol.Number.{BigNumberLib}
use palmy_protocol.Deploy.Registry.{truthy}
use palmy_protocol.Scenario.{
  TestEnv, Suite, Failure, Tx, ContractReceipt, ◌>>=◌, action_name_missing, invalid_reserve,
  invalid_user, result_required,
}
use palmy_protocol.Scenario.Runs.{Reads, Reads-throw, Reads-pure, Reads-bind, Reads-defined}
use palmy_protocol.Scenario.Steps.{
  Expectation, expectation, nothing, transact, deposit, withdraw, borrow, repay,
  set_use_as_collateral, swap_borrow_rate_mode, rebalance_stable_borrow_rate,
}
use palmy_protocol.Scenario.Steps.Checked.{
  address-Reads, convert-Reads, amount_or_all-Reads, value_of-Reads, data-Reads,
}
use palmy_protocol.Scenario.Steps.Engine.{
  Args, Action, ActionName, mint_action, approve_action, deposit_action, delegate_action,
  withdraw_action, borrow_action, repay_action, collateral_action, swap_action, rebalance_action,
  or_throw, required, name_in, action_names, run_action, execute_action,
}

-- The actions that look at the expectation.
abbrev pub is_checked : ActionName → Bool
is_checked mint_action = false
is_checked approve_action = false
is_checked delegate_action = false
is_checked deposit_action = true
is_checked withdraw_action = true
is_checked borrow_action = true
is_checked repay_action = true
is_checked collateral_action = true
is_checked swap_action = true
is_checked rebalance_action = true

module _ {W : Type 0} where
  or_throw-Reads : {A : Type 0} (e : Failure) (o : Option A) → Reads {W = W} (or_throw e o)
  or_throw-Reads e none = Reads-throw e
  or_throw-Reads e (some t) = Reads-pure t

truthy-eq : (s a : String) → truthy (some s) ≡ some a → s ≡ a
truthy-eq s a e = go (str_eq s "") e
  where
    go : (b : Bool) → (if b then none else some s) ≡ some a → s ≡ a
    go true e = cc
    go false e = cc

module _ {W : Type 0} where
  -- A text that is required, and what it is.
  Reads-required :
      {B : Type 0} (e : Failure) (o : Option String) {f : String → Suite W B}
      → ((a : String) → o ≡ some a → Reads (f a))
      → Reads (or_throw e o >>= f)
  unfolding ◌>>=◌
  Reads-required e none fs = record { keeps = λ w. refl }
  Reads-required e (some a) fs = record { keeps = (fs a refl).keeps }

module _ {W : Type 0} ⦃env : TestEnv W⦄ ⦃lib : BigNumberLib⦄ where
  transact-Reads :
      (sender : String) (tx : Tx) (e : Expectation) (check : ContractReceipt → Suite W (Unit {0}))
      → e ≡ nothing
      → Reads (transact sender tx e check)
  unfolding transact
  transact-Reads sender tx e check silent = rw silent (Reads-pure tt)

  -- The functions of the suite, for an expectation with which nothing is sent.
  module _ (expected : String) (silent : expectation expected ≡ nothing) where
    deposit-Reads :
        (symbol amount sender on_behalf_of : String) (value : Option String)
        → Reads {W = W} (deposit symbol amount sender on_behalf_of value expected)
    unfolding deposit
    deposit-Reads symbol amount sender on_behalf_of value =
        Reads-bind (address-Reads symbol) (λ reserve.
          Reads-bind (convert-Reads reserve amount) (λ units.
            Reads-bind (data-Reads reserve on_behalf_of (some sender)) (λ before.
              Reads-bind (value_of-Reads reserve value)
                (λ given. transact-Reads sender _ (expectation expected) _ silent))))

    withdraw-Reads :
        (symbol amount user : String) → Reads {W = W} (withdraw symbol amount user expected)
    unfolding withdraw
    withdraw-Reads symbol amount user = Reads-bind (address-Reads symbol) (λ reserve.
        Reads-bind (data-Reads reserve user none) (λ before.
          Reads-bind (amount_or_all-Reads reserve amount)
            (λ units. transact-Reads user _ (expectation expected) _ silent)))

    borrow-Reads :
        (symbol amount mode user on_behalf_of : String) (days : Option String)
        → Reads {W = W} (borrow symbol amount mode user on_behalf_of days expected)
    unfolding borrow
    borrow-Reads symbol amount mode user on_behalf_of days =
        Reads-bind (address-Reads symbol) (λ reserve.
          Reads-bind (data-Reads reserve on_behalf_of (some user)) (λ before.
            Reads-bind (convert-Reads reserve amount)
              (λ units. transact-Reads user _ (expectation expected) _ silent)))

    repay-Reads :
        (symbol amount mode user on_behalf_of : String) (value : Option String)
        → Reads {W = W} (repay symbol amount mode user on_behalf_of value expected)
    unfolding repay
    repay-Reads symbol amount mode user on_behalf_of value =
        Reads-bind (address-Reads symbol) (λ reserve.
          Reads-bind (data-Reads reserve on_behalf_of none) (λ before.
            Reads-bind (amount_or_all-Reads reserve amount) (λ units.
              Reads-bind (value_of-Reads reserve value)
                (λ given. transact-Reads user _ (expectation expected) _ silent))))

    collateral-Reads :
        (symbol user : String) (enabled : Bool)
        → Reads {W = W} (set_use_as_collateral symbol user enabled expected)
    unfolding set_use_as_collateral
    collateral-Reads symbol user enabled = Reads-bind (address-Reads symbol) (λ reserve.
        Reads-bind (data-Reads reserve user none)
          (λ before. transact-Reads user _ (expectation expected) _ silent))

    swap-Reads :
        (symbol user mode : String)
        → Reads {W = W} (swap_borrow_rate_mode symbol user mode expected)
    unfolding swap_borrow_rate_mode
    swap-Reads symbol user mode = Reads-bind (address-Reads symbol) (λ reserve.
        Reads-bind (data-Reads reserve user none)
          (λ before. transact-Reads user _ (expectation expected) _ silent))

    rebalance-Reads :
        (symbol user target : String)
        → Reads {W = W} (rebalance_stable_borrow_rate symbol user target expected)
    unfolding rebalance_stable_borrow_rate
    rebalance-Reads symbol user target = Reads-bind (address-Reads symbol) (λ reserve.
        Reads-bind (data-Reads reserve target none)
          (λ before. transact-Reads user _ (expectation expected) _ silent))

    required-Reads : (e : Failure) (o : Option String) → Reads {W = W} (required o e)
    required-Reads e o = or_throw-Reads e (truthy o)

    run_action-Reads :
        (known : ActionName) (reserve : String) (users : List String) (user : Option String)
        (mode : String) (args : Args) (message : Option String)
        → is_checked known ≡ true
        → Reads {W = W} (run_action known reserve users user mode args expected message)
    unfolding run_action
    run_action-Reads mint_action reserve users user mode args message h = absurd (ground arith)
    run_action-Reads approve_action reserve users user mode args message h = absurd (ground arith)
    run_action-Reads delegate_action reserve users user mode args message h = absurd (ground arith)
    run_action-Reads deposit_action reserve users user mode args message h =
        Reads-bind (Reads-defined _) (λ on_behalf_of.
          Reads-bind (required-Reads _ args.amount) (λ amount.
            Reads-bind (Reads-defined user)
              (λ address. deposit-Reads reserve amount address on_behalf_of args.send_value)))
    run_action-Reads withdraw_action reserve users user mode args message h =
        Reads-bind (required-Reads _ args.amount) (λ amount.
          Reads-bind (Reads-defined user) (λ address. withdraw-Reads reserve amount address))
    run_action-Reads borrow_action reserve users user mode args message h =
        Reads-bind (Reads-defined _) (λ on_behalf_of.
          Reads-bind (required-Reads _ args.amount) (λ amount.
            Reads-bind (Reads-defined user)
              (λ address. borrow-Reads reserve amount mode address on_behalf_of args.time_travel)))
    run_action-Reads repay_action reserve users user mode args message h =
        Reads-bind (required-Reads _ args.amount) (λ amount.
          Reads-bind (Reads-defined _) (λ on_behalf_of.
            Reads-bind (Reads-defined user)
              (λ address. repay-Reads reserve amount mode address on_behalf_of args.send_value)))
    run_action-Reads collateral_action reserve users user mode args message h =
        Reads-bind (required-Reads _ args.use_as_collateral) (λ enabled.
          Reads-bind (Reads-defined user) (λ address. collateral-Reads reserve address _))
    run_action-Reads swap_action reserve users user mode args message h =
        Reads-bind (Reads-defined user) (λ address. swap-Reads reserve address mode)
    run_action-Reads rebalance_action reserve users user mode args message h =
        Reads-bind (required-Reads _ args.target) (λ index. Reads-bind (Reads-defined _) (λ target.
          Reads-bind (Reads-defined user) (λ address. rebalance-Reads reserve address target)))

  -- An action on the pool whose expectation is a text other than "success" and "revert" leaves the chain
  -- as it is, whether it passes or throws: its transaction is not sent.
  pub silent-Reads :
      (users : List String) (action : Action) (name expected : String) (known : ActionName)
      → action.name ≡ some name
      → name_in action_names name ≡ some known
      → is_checked known ≡ true
      → action.expected ≡ some expected
      → expectation expected ≡ nothing
      → Reads {W = W} (execute_action users action)
  unfolding execute_action
  silent-Reads users action name expected known named at_name checked expects silent =
      Reads-bind (Reads-defined action.args) (λ args.
        Reads-required action_name_missing (truthy action.name) (λ n found.
          Reads-bind (or_throw-Reads invalid_reserve (truthy args.reserve)) (λ reserve.
            Reads-bind (or_throw-Reads (invalid_user reserve) (truthy args.user)) (λ index.
              Reads-required (result_required n) (truthy action.expected) (λ e given.
                let same = truthy-eq name n (ap truthy (sym named) ∙ found) in
                let text = truthy-eq expected e (ap truthy (sym expects) ∙ given) in
                rw (← same, at_name, ← text)
                  (run_action-Reads expected silent known reserve users _ _ args
                    action.revert_message checked))))))
