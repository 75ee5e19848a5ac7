-- ===== src/Scenario/Steps/Engine.antt =====
-- test-suites/test-palmy/helpers/scenario-engine.ts: a story is a list of actions, each given by its
-- name and its arguments as texts. An argument that is missing is `none`.
pub mod Silent
use Prim.Native.Char.{Char, code}
use palmy_protocol.Prelude.{
  ℕ, ◌+◌, ◌-◌, ◌*◌, String, Bool, true, false, ◌&&◌, ◌||◌, Option, none, some, List, [], ◌∷◌, ◌==◌,
  leb, if◌then◌else◌, str_eq, get_elem?,
}
use palmy_protocol.Number.{BigNumberLib}
use palmy_protocol.Deploy.Registry.{truthy}
use palmy_protocol.Scenario.{
  TestEnv, Suite, Failure, action_name_missing, invalid_reserve, invalid_user, result_required,
  invalid_amount, invalid_collateral, target_missing, invalid_action, type_error, pure, throw,
  ◌>>=◌, ◌>>◌, defined,
}
use palmy_protocol.Scenario.Steps.{
  mint, approve, deposit, delegate_borrow_allowance, withdraw, borrow, repay, set_use_as_collateral,
  swap_borrow_rate_mode, rebalance_stable_borrow_rate,
}

pub record Args : Type 0 where
  pub reserve : Option String
  pub user : Option String
  pub borrow_rate_mode : Option String
  pub amount : Option String
  pub send_value : Option String
  pub on_behalf_of : Option String
  pub to_user : Option String
  pub time_travel : Option String
  pub use_as_collateral : Option String
  pub target : Option String

pub record Action : Type 0 where
  pub name : Option String
  pub args : Option Args
  pub expected : Option String
  pub revert_message : Option String

pub record Story : Type 0 where
  pub description : String
  pub actions : List Action

pub record Scenario : Type 0 where
  pub title : String
  pub description : String
  pub stories : List Story

-- if (!text || text === '') { throw … }
abbrev pub or_throw : {W : Type 0} {A : Type 0} → Failure → Option A → Suite W A
or_throw e none = throw e
or_throw e (some t) = pure t

abbrev pub required : {W : Type 0} → Option String → Failure → Suite W String
required text e = or_throw e (truthy text)

-- The number that the first digits of a text make, as `parseInt` reads it; users are numbered, so that
-- the sign and the spaces that it skips are left out.
abbrev pub is_digit : Char → Bool
is_digit c = leb 48 (code c) && leb (code c) 57

abbrev pub parse_digits : String → ℕ → ℕ
parse_digits String.[] n = n
parse_digits (String.◌∷◌ c s) n = if is_digit c then parse_digits s (n * 10 + (code c - 48)) else n

abbrev pub parse_int : String → Option ℕ
parse_int String.[] = none
parse_int (String.◌∷◌ c s) = if is_digit c then some (parse_digits s (code c - 48)) else none

-- users[parseInt(index)]
abbrev pub user_at : List String → Option ℕ → Option String
user_at users none = none
user_at users (some i) = get_elem? users i

abbrev pub digit_of_mode : String → String
digit_of_mode mode =
    if str_eq mode "none"
    then "0"
    else (if str_eq mode "stable" then "1" else (if str_eq mode "variable" then "2" else "4"))

-- The rate mode '4' tests an improper selection.
abbrev pub mode_digit : Option String → String
mode_digit mode = elim (truthy mode) [ none ↦ "0" | some m ↦ digit_of_mode m ]

-- text.toLowerCase() === 'true': each letter is the one of "true" or its capital.
abbrev pub is_letter : ℕ → Char → Bool
is_letter small c = (code c == small) || (code c + 32 == small)

abbrev pub lower_is_true : String → Bool
lower_is_true (String.◌∷◌ t (String.◌∷◌ r (String.◌∷◌ u (String.◌∷◌ e String.[])))) =
    is_letter 116 t && is_letter 114 r && is_letter 117 u && is_letter 101 e
lower_is_true _ = false

-- index ? users[parseInt(index)].address : user.address
abbrev pub chosen_user : List String → Option String → Option String → Option String
chosen_user users user none = user
chosen_user users user (some index) = user_at users (parse_int index)

abbrev pub user_or : {W : Type 0} → List String → Option String → Option String → Suite W String
user_or users user index = defined (chosen_user users user (truthy index))

-- The names of the actions; any other is invalid.
pub data ActionName : Type 0 where
  mint_action approve_action deposit_action delegate_action withdraw_action borrow_action :
      ActionName
  repay_action collateral_action swap_action rebalance_action : ActionName

abbrev pub action_names : List (String × ActionName)
action_names =
    ("mint", mint_action)
    ∷ ("approve", approve_action)
    ∷ ("deposit", deposit_action)
    ∷ ("delegateBorrowAllowance", delegate_action)
    ∷ ("withdraw", withdraw_action)
    ∷ ("borrow", borrow_action)
    ∷ ("repay", repay_action)
    ∷ ("setUseAsCollateral", collateral_action)
    ∷ ("swapBorrowRateMode", swap_action)
    ∷ ("rebalanceStableBorrowRate", rebalance_action)
    ∷ []

abbrev pub name_in : List (String × ActionName) → String → Option ActionName
name_in [] name = none
name_in ((n, action) ∷ names) name = if str_eq n name then some action else name_in names name

module _ {W : Type 0} ⦃env : TestEnv W⦄ ⦃lib : BigNumberLib⦄ where
  -- The switch over the name. `user` is undefined where its index is out of range.
  unfoldable pub run_action :
      ActionName
      → (reserve : String) → (users : List String) → (user : Option String) → (mode : String) → Args
      → (expected : String) → Option String
      → Suite W (Unit {0})
  run_action mint_action reserve users user mode args expected message = do
    amount ← required args.amount (invalid_amount reserve)
    address ← defined user
    mint reserve amount address
  run_action approve_action reserve users user mode args expected message = do
    address ← defined user
    approve reserve address
  run_action deposit_action reserve users user mode args expected message = do
    on_behalf_of ← user_or users user args.on_behalf_of
    amount ← required args.amount (invalid_amount reserve)
    address ← defined user
    deposit reserve amount address on_behalf_of args.send_value expected
  run_action delegate_action reserve users user mode args expected message = do
    receiver ← defined (elim args.to_user [ none ↦ none | some i ↦ user_at users (parse_int i) ])
    amount ← required args.amount (invalid_amount reserve)
    address ← defined user
    delegate_borrow_allowance reserve amount mode address receiver expected message
  run_action withdraw_action reserve users user mode args expected message = do
    amount ← required args.amount (invalid_amount reserve)
    address ← defined user
    withdraw reserve amount address expected
  run_action borrow_action reserve users user mode args expected message = do
    on_behalf_of ← user_or users user args.on_behalf_of
    amount ← required args.amount (invalid_amount reserve)
    address ← defined user
    borrow reserve amount mode address on_behalf_of args.time_travel expected
  run_action repay_action reserve users user mode args expected message = do
    amount ← required args.amount (invalid_amount reserve)
    on_behalf_of ← user_or users user args.on_behalf_of
    address ← defined user
    repay reserve amount mode address on_behalf_of args.send_value expected
  run_action collateral_action reserve users user mode args expected message = do
    use_as_collateral ← required args.use_as_collateral (invalid_collateral reserve)
    address ← defined user
    set_use_as_collateral reserve address (lower_is_true use_as_collateral) expected
  run_action swap_action reserve users user mode args expected message = do
    address ← defined user
    swap_borrow_rate_mode reserve address mode expected
  run_action rebalance_action reserve users user mode args expected message = do
    index ← required args.target target_missing
    target ← defined (user_at users (parse_int index))
    address ← defined user
    rebalance_stable_borrow_rate reserve address target expected

  unfoldable pub execute_action : List String → Action → Suite W (Unit {0})
  unfolding run_action
  execute_action users action = do
    args ← defined action.args
    name ← required action.name action_name_missing
    reserve ← required args.reserve invalid_reserve
    index ← required args.user (invalid_user reserve)
    expected ← required action.expected (result_required name)
    elim (name_in action_names name) [
      | none ↦ throw (invalid_action name)
      | some known ↦
          run_action known reserve users (user_at users (parse_int index))
            (mode_digit args.borrow_rate_mode) args expected action.revert_message
    ]

  -- for (const action of story.actions)
  unfoldable pub execute_actions : List String → List Action → Suite W (Unit {0})
  unfolding execute_action
  execute_actions users [] = pure tt
  execute_actions users (action ∷ actions) = do
    execute_action users action
    execute_actions users actions

  abbrev pub execute_story : List String → Story → Suite W (Unit {0})
  execute_story users story = execute_actions users story.actions
