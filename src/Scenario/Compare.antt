-- ===== src/Scenario/Compare.antt =====
-- `almostEqualOrEqual` and `expectEqual` of test-suites/test-palmy/helpers/actions.ts: the expected data
-- against those of the contracts, property by property in the order of the actual data's keys. The
-- accessory data (time of the last update, market rate, symbol, token, decimals) are skipped.
pub mod Near
pub mod Properties
use palmy_protocol.Prelude.{String, Bool, true, false, ◌||◌, List, [], ◌∷◌, str_eq, if◌then◌else◌}
use palmy_protocol.Prelude.Int.{ℤ, pos, ◌+ℤ◌, eq_ℤ}
use palmy_protocol.Number.{BigNumberLib}
use palmy_protocol.Calculations.{ReserveData, UserReserveData}
use palmy_protocol.Scenario.{TestEnv, Suite, pure, throw, unexpected, ◌>>=◌, ◌>>◌, assert}

module _ ⦃lib : BigNumberLib⦄ where
  -- equal, or off by one, two or three
  unfoldable pub almost_equal : (actual expected : ℤ) → Bool
  almost_equal actual expected =
      let a = lib.floor_places actual in
      let e = lib.floor_places expected in
      eq_ℤ a e
      || eq_ℤ (a +ℤ pos 1) e
      || eq_ℤ a (e +ℤ pos 1)
      || eq_ℤ (a +ℤ pos 2) e
      || eq_ℤ a (e +ℤ pos 2)
      || eq_ℤ (a +ℤ pos 3) e
      || eq_ℤ a (e +ℤ pos 3)

  -- The properties of a reserve that are compared, in the order of `getReserveData`.
  unfoldable pub reserve_checks : (actual expected : ReserveData) → List (String × Bool)
  unfolding almost_equal
  reserve_checks actual expected =
      ("totalLiquidity", almost_equal actual.total_liquidity expected.total_liquidity)
      ∷ ("utilizationRate", almost_equal actual.utilization_rate expected.utilization_rate)
      ∷ ("availableLiquidity", almost_equal actual.available_liquidity expected.available_liquidity)
      ∷ ("totalStableDebt", almost_equal actual.total_stable_debt expected.total_stable_debt)
      ∷ ("totalVariableDebt", almost_equal actual.total_variable_debt expected.total_variable_debt)
      ∷ ("liquidityRate", almost_equal actual.liquidity_rate expected.liquidity_rate)
      ∷ (
        "variableBorrowRate",
        almost_equal actual.variable_borrow_rate expected.variable_borrow_rate,
      )
      ∷ ("stableBorrowRate", almost_equal actual.stable_borrow_rate expected.stable_borrow_rate)
      ∷ (
        "averageStableBorrowRate",
        almost_equal actual.average_stable_borrow_rate expected.average_stable_borrow_rate,
      )
      ∷ ("liquidityIndex", almost_equal actual.liquidity_index expected.liquidity_index)
      ∷ (
        "variableBorrowIndex",
        almost_equal actual.variable_borrow_index expected.variable_borrow_index,
      )
      ∷ (
        "principalStableDebt",
        almost_equal actual.principal_stable_debt expected.principal_stable_debt,
      )
      ∷ (
        "scaledVariableDebt",
        almost_equal actual.scaled_variable_debt expected.scaled_variable_debt,
      )
      ∷ ("address", str_eq actual.address expected.address)
      ∷ []

  abbrev pub same_bool : Bool → Bool → Bool
  same_bool true b = b
  same_bool false true = false
  same_bool false false = true

  -- The properties of a user, in the order of `getUserData`.
  unfoldable pub user_checks : (actual expected : UserReserveData) → List (String × Bool)
  unfolding almost_equal
  user_checks actual expected =
      (
        "scaledLTokenBalance",
        almost_equal actual.scaled_ltoken_balance expected.scaled_ltoken_balance,
      )
      ∷ (
        "currentLTokenBalance",
        almost_equal actual.current_ltoken_balance expected.current_ltoken_balance,
      )
      ∷ ("currentStableDebt", almost_equal actual.current_stable_debt expected.current_stable_debt)
      ∷ (
        "currentVariableDebt",
        almost_equal actual.current_variable_debt expected.current_variable_debt,
      )
      ∷ (
        "principalStableDebt",
        almost_equal actual.principal_stable_debt expected.principal_stable_debt,
      )
      ∷ (
        "scaledVariableDebt",
        almost_equal actual.scaled_variable_debt expected.scaled_variable_debt,
      )
      ∷ ("stableBorrowRate", almost_equal actual.stable_borrow_rate expected.stable_borrow_rate)
      ∷ ("liquidityRate", almost_equal actual.liquidity_rate expected.liquidity_rate)
      ∷ (
        "usageAsCollateralEnabled",
        same_bool actual.usage_as_collateral_enabled expected.usage_as_collateral_enabled,
      )
      ∷ (
        "stableRateLastUpdated",
        almost_equal actual.stable_rate_last_updated expected.stable_rate_last_updated,
      )
      ∷ ("walletBalance", almost_equal actual.wallet_balance expected.wallet_balance)
      ∷ []

module _ {W : Type 0} where
  -- keys.forEach(…): the first property that is off throws.
  unfoldable pub assert_all : List (String × Bool) → Suite W (Unit {0})
  assert_all [] = pure tt
  assert_all ((key, same) ∷ checks) = do assert same (unexpected key); assert_all checks

module _ {W : Type 0} ⦃env : TestEnv W⦄ ⦃lib : BigNumberLib⦄ where
  unfoldable pub expect_equal : List (String × Bool) → Suite W (Unit {0})
  unfolding assert_all
  expect_equal checks = if env.skip_integrity_check then pure tt else assert_all checks

  abbrev pub expect_reserve : (actual expected : ReserveData) → Suite W (Unit {0})
  expect_reserve actual expected = expect_equal (reserve_checks actual expected)

  abbrev pub expect_user : (actual expected : UserReserveData) → Suite W (Unit {0})
  expect_user actual expected = expect_equal (user_checks actual expected)
