-- ===== src/Calculations/Actions.antt =====
-- The actions on the lending pool, each with what the suite expects of the reserve and of the user
-- (calculations.ts). A repayment is by `payer`, of the debt of `on_behalf_of`.
use palmy_protocol.Prelude.{String, Bool, true, false, Option, Dict, ◌≡◌, ◌⊎◌, ◌==◌}
use palmy_protocol.Prelude.Int.{ℤ}
use palmy_protocol.Number.{BigNumberLib, magnitude}
use palmy_protocol.Types.{ReserveParams, RateMode}
use palmy_protocol.Math.{max_uint_amount}
use palmy_protocol.Calculations.{ReserveData, UserReserveData}
use palmy_protocol.Calculations.Reserve.{
  calc_expected_reserve_data_after_deposit, calc_expected_reserve_data_after_withdraw,
  calc_expected_reserve_data_after_swap_rate_mode,
  calc_expected_reserve_data_after_stable_rate_rebalance,
}
use palmy_protocol.Calculations.Loans.{
  calc_expected_reserve_data_after_borrow, calc_expected_reserve_data_after_repay,
}
use palmy_protocol.Calculations.User.{
  calc_expected_user_data_after_deposit, calc_expected_user_data_after_withdraw,
  calc_expected_user_data_after_borrow, calc_expected_user_data_after_repay,
  calc_expected_user_data_after_swap_rate_mode, calc_expected_user_data_after_stable_rate_rebalance,
}

pub data Action : Type 0 where
  deposit withdraw : ℤ → Action
  borrow repay : ℤ → RateMode → Action
  swap_rate_mode : RateMode → Action
  rebalance : Action

abbrev pub is_deposit : Action → Bool
is_deposit (deposit amount) = true
is_deposit (withdraw amount) = false
is_deposit (borrow amount mode) = false
is_deposit (repay amount mode) = false
is_deposit (swap_rate_mode mode) = false
is_deposit rebalance = false

abbrev pub is_borrow : Action → Bool
is_borrow (borrow amount mode) = true
is_borrow (deposit amount) = false
is_borrow (withdraw amount) = false
is_borrow (repay amount mode) = false
is_borrow (swap_rate_mode mode) = false
is_borrow rebalance = false

-- When the user repays all, the times of the transaction and of the comparison are the same.
abbrev pub IsPrompt : Action → (tx now : ℤ) → Type 0
IsPrompt (repay amount mode) tx now = ((magnitude amount == max_uint_amount) ≡ false) ⊎ (now ≡ tx)
IsPrompt (deposit amount) tx now = Unit
IsPrompt (withdraw amount) tx now = Unit
IsPrompt (borrow amount mode) tx now = Unit
IsPrompt (swap_rate_mode mode) tx now = Unit
IsPrompt rebalance tx now = Unit

module _ ⦃lib : BigNumberLib⦄ (params : Dict ReserveParams) (blank : ReserveData) where
  abbrev pub reserve_after :
      Action → ReserveData → UserReserveData → (tx now : ℤ) → Option ReserveData
  reserve_after (deposit amount) before user tx now =
      calc_expected_reserve_data_after_deposit params blank amount before tx
  reserve_after (withdraw amount) before user tx now =
      calc_expected_reserve_data_after_withdraw params blank amount before user tx
  reserve_after (borrow amount mode) before user tx now =
      calc_expected_reserve_data_after_borrow params blank amount mode before user tx now
  reserve_after (repay amount mode) before user tx now =
      calc_expected_reserve_data_after_repay params blank amount mode before user tx now
  reserve_after (swap_rate_mode mode) before user tx now =
      calc_expected_reserve_data_after_swap_rate_mode params blank before user mode tx
  reserve_after rebalance before user tx now =
      calc_expected_reserve_data_after_stable_rate_rebalance params blank before user tx

module _ ⦃lib : BigNumberLib⦄ (blank : UserReserveData) where
  abbrev pub user_after :
      Action
      → (before after : ReserveData) → UserReserveData
      → (payer on_behalf_of : String) → (tx now : ℤ) → UserReserveData
  user_after (deposit amount) before after user payer on_behalf_of tx now =
      calc_expected_user_data_after_deposit blank amount before after user tx
  user_after (withdraw amount) before after user payer on_behalf_of tx now =
      calc_expected_user_data_after_withdraw blank amount before after user tx
  user_after (borrow amount mode) before after user payer on_behalf_of tx now =
      calc_expected_user_data_after_borrow blank amount mode before after user tx now
  user_after (repay amount mode) before after user payer on_behalf_of tx now =
      calc_expected_user_data_after_repay blank amount mode before after user payer on_behalf_of tx
        now
  user_after (swap_rate_mode mode) before after user payer on_behalf_of tx now =
      calc_expected_user_data_after_swap_rate_mode before after user mode tx
  user_after rebalance before after user payer on_behalf_of tx now =
      calc_expected_user_data_after_stable_rate_rebalance before after user tx
