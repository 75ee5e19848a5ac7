-- ===== src/Calculations/Interest.antt =====
-- Interest over time: `calcLinearInterest`, `calcCompoundedInterest` and the debt and income that grow
-- by them (calculations.ts).
pub mod Agreement
use palmy_protocol.Prelude.{ℕ, Bool, ◌||◌, if◌then◌else◌}
use palmy_protocol.Prelude.Int.{ℤ, pos, ◌+ℤ◌, ◌-ℤ◌, ◌*ℤ◌, eq_ℤ, ltb_ℤ}
use palmy_protocol.Number.{BigNumberLib}
use palmy_protocol.Math.{ray_mul, ray_div, ray_const, one_year}
use palmy_protocol.Calculations.{ReserveData, UserReserveData}

module _ ⦃lib : BigNumberLib⦄ where
  open lib use {div}

  unfoldable pub calc_linear_interest : ℤ → ℤ → ℤ → ℤ
  calc_linear_interest rate current_timestamp last_update_timestamp =
      let time_difference = current_timestamp -ℤ last_update_timestamp in
      div (rate *ℤ time_difference) (pos one_year) +ℤ pos ray_const

  -- the branch of a positive time difference
  unfoldable pub compounded : ℤ → ℤ → ℤ
  compounded rate time_difference =
      let exp_minus_one = time_difference -ℤ pos 1 in
      let exp_minus_two : ℤ =
        if ltb_ℤ (pos 2) time_difference then time_difference -ℤ pos 2 else pos 0 in
      let rate_per_second = div rate (pos one_year) in
      let base_power_two = ray_mul rate_per_second rate_per_second in
      let base_power_three = ray_mul base_power_two rate_per_second in
      let second_term = div (time_difference *ℤ exp_minus_one *ℤ base_power_two) (pos 2) in
      let third_term =
        div (time_difference *ℤ exp_minus_one *ℤ exp_minus_two *ℤ base_power_three) (pos 6) in
      pos ray_const +ℤ rate_per_second *ℤ time_difference +ℤ second_term +ℤ third_term

  unfoldable pub calc_compounded_interest : ℤ → ℤ → ℤ → ℤ
  unfolding compounded
  calc_compounded_interest rate current_timestamp last_update_timestamp =
      let time_difference = current_timestamp -ℤ last_update_timestamp in
      if eq_ℤ time_difference (pos 0) then pos ray_const else compounded rate time_difference

  unfoldable pub calc_expected_stable_debt_token_balance : ℤ → ℤ → ℤ → ℤ → ℤ
  calc_expected_stable_debt_token_balance principal_stable_debt stable_borrow_rate
        stable_rate_last_updated current_timestamp =
      if eq_ℤ stable_borrow_rate (pos 0)
        || eq_ℤ current_timestamp stable_rate_last_updated
        || eq_ℤ stable_rate_last_updated (pos 0)
      then principal_stable_debt
      else ray_mul principal_stable_debt
          (calc_compounded_interest stable_borrow_rate current_timestamp stable_rate_last_updated)

  unfoldable pub calc_expected_reserve_normalized_income : ReserveData → ℤ → ℤ
  calc_expected_reserve_normalized_income reserve current_timestamp =
      if eq_ℤ reserve.liquidity_rate (pos 0)
      then reserve.liquidity_index
      else ray_mul
          (calc_linear_interest reserve.liquidity_rate current_timestamp
            reserve.last_update_timestamp)
          reserve.liquidity_index

  unfoldable pub calc_expected_reserve_normalized_debt : ℤ → ℤ → ℤ → ℤ → ℤ
  calc_expected_reserve_normalized_debt variable_borrow_rate variable_borrow_index
        last_update_timestamp current_timestamp =
      if eq_ℤ variable_borrow_rate (pos 0)
      then variable_borrow_index
      else ray_mul
          (calc_compounded_interest variable_borrow_rate current_timestamp last_update_timestamp)
          variable_borrow_index

  unfoldable pub calc_expected_ltoken_balance : ReserveData → UserReserveData → ℤ → ℤ
  calc_expected_ltoken_balance reserve user current_timestamp =
      ray_mul user.scaled_ltoken_balance
        (calc_expected_reserve_normalized_income reserve current_timestamp)

  unfoldable pub calc_expected_variable_debt_token_balance : ReserveData → UserReserveData → ℤ → ℤ
  calc_expected_variable_debt_token_balance reserve user current_timestamp =
      ray_mul user.scaled_variable_debt (
        calc_expected_reserve_normalized_debt reserve.variable_borrow_rate
          reserve.variable_borrow_index reserve.last_update_timestamp current_timestamp)

  unfoldable pub calc_expected_liquidity_index : ReserveData → ℤ → ℤ
  calc_expected_liquidity_index reserve timestamp =
      if eq_ℤ reserve.utilization_rate (pos 0)
      then reserve.liquidity_index
      else ray_mul
          (calc_linear_interest reserve.liquidity_rate timestamp reserve.last_update_timestamp)
          reserve.liquidity_index

  unfoldable pub calc_expected_variable_borrow_index : ReserveData → ℤ → ℤ
  calc_expected_variable_borrow_index reserve timestamp =
      if eq_ℤ reserve.total_variable_debt (pos 0)
      then reserve.variable_borrow_index
      else ray_mul
          (calc_compounded_interest reserve.variable_borrow_rate timestamp
            reserve.last_update_timestamp)
          reserve.variable_borrow_index

  unfoldable pub calc_expected_total_stable_debt : ℤ → ℤ → ℤ → ℤ → ℤ
  calc_expected_total_stable_debt principal_stable_debt average_stable_borrow_rate
        last_update_timestamp current_timestamp =
      ray_mul
        (calc_compounded_interest average_stable_borrow_rate current_timestamp
          last_update_timestamp)
        principal_stable_debt

  unfoldable pub calc_expected_total_variable_debt : ReserveData → ℤ → ℤ
  calc_expected_total_variable_debt reserve expected_variable_debt_index =
      ray_mul reserve.scaled_variable_debt expected_variable_debt_index

  unfoldable pub calc_expected_scaled_ltoken_balance : UserReserveData → ℤ → ℤ → ℤ → ℤ
  calc_expected_scaled_ltoken_balance user index amount_added amount_taken =
      user.scaled_ltoken_balance +ℤ ray_div amount_added index -ℤ ray_div amount_taken index
