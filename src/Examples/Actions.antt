-- ===== src/Examples/Actions.antt =====
-- Actions on a reserve with ten tokens, of which two are lent at a stable and three at a variable rate,
-- to a user who has half of the deposits, one token of stable and one of variable debt.
use palmy_protocol.Prelude.{
  ◌*◌, ◌^◌, ◌≡◌, refl, true, false, Option, some, none, [], ◌∷◌, Dict, lookup, inl, arith,
}
use palmy_protocol.Prelude.Int.{ℤ, pos, ◌+ℤ◌, ◌≤ℤ◌}
use palmy_protocol.Number.{exact_lib, exact_lib-IsTruncating}
use palmy_protocol.Types.{ReserveParams, stable, variable}
use palmy_protocol.Math.{max_uint_amount}
use palmy_protocol.Examples.Rates.{reserve}
use palmy_protocol.Calculations.{ReserveData, UserReserveData}
use palmy_protocol.Calculations.Rates.{calc_expected_interest_rates}
use palmy_protocol.Calculations.Reserve.{
  with_rates, calc_expected_reserve_data_after_withdraw,
  calc_expected_reserve_data_after_swap_rate_mode,
}
use palmy_protocol.Calculations.Loans.{
  after_stable_borrow, calc_expected_reserve_data_after_borrow, settled,
  calc_expected_reserve_data_after_repay,
}
use palmy_protocol.Calculations.User.{
  calc_expected_user_data_after_withdraw, calc_expected_user_data_after_repay,
}
use palmy_protocol.Calculations.Actions.{
  Action, withdraw, borrow, repay, swap_rate_mode, reserve_after, user_after,
}
use palmy_protocol.Calculations.Accounting.{IsAccounted, reserve_after-IsAccounted}
use palmy_protocol.Calculations.Conservation.{wallet_conserved}
use palmy_protocol.Calculations.Extremes.{repay-nonneg, withdraw_all, repay_all}
use palmy_protocol.Calculations.Configured.{HasRates, reserve_after-HasRates}
use palmy_protocol.Calculations.Growth.{IsPast}
use palmy_protocol.Calculations.Indices.{index_monotone}

abbrev params : Dict ReserveParams
params = ("DAI", reserve) ∷ []

abbrev token : ℤ
token = pos (10 ^ 18)

abbrev dai : ReserveData
dai = record {
  address = "0x01";
  symbol = "DAI";
  decimals = pos 18;
  total_liquidity = pos (10 * 10 ^ 18);
  available_liquidity = pos (5 * 10 ^ 18);
  total_stable_debt = pos (2 * 10 ^ 18);
  total_variable_debt = pos (3 * 10 ^ 18);
  principal_stable_debt = pos (2 * 10 ^ 18);
  scaled_variable_debt = pos (3 * 10 ^ 18);
  average_stable_borrow_rate = pos (6 * 10 ^ 25);
  variable_borrow_rate = pos (4 * 10 ^ 25);
  stable_borrow_rate = pos (6 * 10 ^ 25);
  utilization_rate = pos (5 * 10 ^ 26);
  liquidity_index = pos (10 ^ 27);
  variable_borrow_index = pos (10 ^ 27);
  ltoken_address = "0x02";
  market_stable_rate = pos (39 * 10 ^ 24);
  last_update_timestamp = pos 1700000000;
  total_stable_debt_last_updated = pos 1700000000;
  liquidity_rate = pos (2 * 10 ^ 25);
}

abbrev alice : UserReserveData
alice = record {
  scaled_ltoken_balance = pos (5 * 10 ^ 18);
  current_ltoken_balance = pos (5 * 10 ^ 18);
  current_stable_debt = token;
  current_variable_debt = token;
  principal_stable_debt = token;
  scaled_variable_debt = token;
  liquidity_rate = pos (2 * 10 ^ 25);
  stable_borrow_rate = pos (6 * 10 ^ 25);
  stable_rate_last_updated = pos 1700000000;
  usage_as_collateral_enabled = true;
  wallet_balance = pos (7 * 10 ^ 18);
  variable_borrow_index = pos (10 ^ 27);
  principal_variable_debt = token;
}

abbrev tx : ℤ
tx = pos 1700001000

abbrev now : ℤ
now = pos 1700001060

abbrev expected : Option ReserveData → ReserveData
expected none = dai
expected (some r) = r

abbrev after : Action → Option ReserveData
after action = reserve_after ⦃lib = exact_lib⦄ params dai action dai alice tx now

borrows : after (borrow token stable) ≡ some (expected (after (borrow token stable)))
unfolding calc_expected_reserve_data_after_borrow after_stable_borrow calc_expected_interest_rates
    lookup
borrows = refl

reserve_after-IsAccounted_example :
    IsAccounted ⦃lib = exact_lib⦄ (expected (after (borrow token stable)))
reserve_after-IsAccounted_example =
    reserve_after-IsAccounted ⦃lib = exact_lib⦄ params dai (borrow token stable) dai alice tx now
      refl borrows

repays : after (repay token variable) ≡ some (expected (after (repay token variable)))
unfolding calc_expected_reserve_data_after_repay settled with_rates calc_expected_interest_rates
    lookup
repays = refl

wallet_conserved_example :
    (expected (after (repay token variable))).available_liquidity
      +ℤ (user_after ⦃lib = exact_lib⦄ alice
          (repay token variable)
          dai
          (expected (after (repay token variable)))
          alice
          "alice"
          "alice"
          tx
          now).wallet_balance
    ≡ pos (5 * 10 ^ 18) +ℤ pos (7 * 10 ^ 18) +ℤ pos 0
wallet_conserved_example =
    wallet_conserved ⦃lib = exact_lib⦄ params dai alice (repay token variable) dai alice "alice"
      "alice" tx now (inl refl) repays

withdraws : after (withdraw token) ≡ some (expected (after (withdraw token)))
unfolding calc_expected_reserve_data_after_withdraw with_rates calc_expected_interest_rates lookup
withdraws = refl

reserve_after-HasRates_example :
    HasRates ⦃lib = exact_lib⦄ params dai dai (expected (after (withdraw token)))
reserve_after-HasRates_example =
    reserve_after-HasRates ⦃lib = exact_lib⦄ params dai (withdraw token) dai alice tx now refl
      withdraws

swaps : after (swap_rate_mode stable) ≡ some (expected (after (swap_rate_mode stable)))
unfolding calc_expected_reserve_data_after_swap_rate_mode with_rates calc_expected_interest_rates
    lookup
swaps = refl

index_monotone_example :
    (pos (10 ^ 27) ≤ℤ (expected (after (swap_rate_mode stable))).liquidity_index)
    × (pos (10 ^ 27) ≤ℤ (expected (after (swap_rate_mode stable))).variable_borrow_index)
index_monotone_example =
    index_monotone ⦃lib = exact_lib⦄ exact_lib-IsTruncating params dai (swap_rate_mode stable) dai
      alice tx now past swaps
  where
    past : IsPast dai tx
    past = record {
      liquidity_index = omega arith;
      variable_borrow_index = omega arith;
      liquidity_rate = omega arith;
      variable_borrow_rate = omega arith;
      last_update_timestamp = omega arith;
      not_after = omega arith;
    }

repays_all :
    after (repay (pos max_uint_amount) stable)
    ≡ some (expected (after (repay (pos max_uint_amount) stable)))
unfolding calc_expected_reserve_data_after_repay settled with_rates calc_expected_interest_rates
    lookup
repays_all = refl

repay-nonneg_example :
    (pos 0 ≤ℤ (expected (after (repay (pos max_uint_amount) stable))).total_stable_debt)
    × (pos 0 ≤ℤ (expected (after (repay (pos max_uint_amount) stable))).average_stable_borrow_rate)
    × ((expected (after (repay (pos max_uint_amount) stable))).principal_stable_debt
        ≡ (expected (after (repay (pos max_uint_amount) stable))).total_stable_debt)
repay-nonneg_example =
    repay-nonneg ⦃lib = exact_lib⦄ params dai (pos max_uint_amount) dai alice tx now repays_all

withdraw_all_example :
    let left =
      calc_expected_user_data_after_withdraw ⦃lib = exact_lib⦄ alice
        (pos max_uint_amount)
        dai
        dai
        alice
        tx in
    (left.current_ltoken_balance ≡ pos 0) × (left.usage_as_collateral_enabled ≡ false)
withdraw_all_example = withdraw_all ⦃lib = exact_lib⦄ alice dai dai alice tx refl

repay_all_example :
    let left =
      calc_expected_user_data_after_repay ⦃lib = exact_lib⦄ alice
        (pos max_uint_amount)
        stable
        dai
        dai
        alice
        "alice"
        "bob"
        tx
        now in
    (left.current_stable_debt ≡ pos 0)
    × (left.principal_stable_debt ≡ pos 0)
    × (left.stable_borrow_rate ≡ pos 0)
    × (left.stable_rate_last_updated ≡ pos 0)
repay_all_example = repay_all ⦃lib = exact_lib⦄ alice dai dai alice "alice" "bob" tx now
