-- ===== src/Scenario/Compare/Properties.antt =====
-- What the comparison of test-suites/test-palmy/helpers/actions.ts says of the data of a reserve and of
-- a user, property by property.
use palmy_protocol.Prelude.{◌≡◌, refl, sym, Bool, true, false, All, eq_iff}
use palmy_protocol.Prelude.Int.{ℤ}
use palmy_protocol.Number.{BigNumberLib, IsTruncating}
use palmy_protocol.Calculations.{ReserveData, UserReserveData}
use palmy_protocol.Scenario.Compare.{almost_equal, same_bool, reserve_checks, user_checks}
use palmy_protocol.Scenario.Compare.Near.{IsTrue, IsNear, almost_equal_iff}

-- Two reserves agree in what is compared: the address, and thirteen numbers up to three units.
pub record NearReserve (actual expected : ReserveData) : Type 0 where
  pub total_liquidity : IsNear actual.total_liquidity expected.total_liquidity
  pub utilization_rate : IsNear actual.utilization_rate expected.utilization_rate
  pub available_liquidity : IsNear actual.available_liquidity expected.available_liquidity
  pub total_stable_debt : IsNear actual.total_stable_debt expected.total_stable_debt
  pub total_variable_debt : IsNear actual.total_variable_debt expected.total_variable_debt
  pub liquidity_rate : IsNear actual.liquidity_rate expected.liquidity_rate
  pub variable_borrow_rate : IsNear actual.variable_borrow_rate expected.variable_borrow_rate
  pub stable_borrow_rate : IsNear actual.stable_borrow_rate expected.stable_borrow_rate
  pub average_stable_borrow_rate :
      IsNear actual.average_stable_borrow_rate expected.average_stable_borrow_rate
  pub liquidity_index : IsNear actual.liquidity_index expected.liquidity_index
  pub variable_borrow_index : IsNear actual.variable_borrow_index expected.variable_borrow_index
  pub principal_stable_debt : IsNear actual.principal_stable_debt expected.principal_stable_debt
  pub scaled_variable_debt : IsNear actual.scaled_variable_debt expected.scaled_variable_debt
  pub address : actual.address ≡ expected.address

-- Two users agree: the collateral flag, and ten numbers up to three units.
pub record NearUser (actual expected : UserReserveData) : Type 0 where
  pub scaled_ltoken_balance : IsNear actual.scaled_ltoken_balance expected.scaled_ltoken_balance
  pub current_ltoken_balance : IsNear actual.current_ltoken_balance expected.current_ltoken_balance
  pub current_stable_debt : IsNear actual.current_stable_debt expected.current_stable_debt
  pub current_variable_debt : IsNear actual.current_variable_debt expected.current_variable_debt
  pub principal_stable_debt : IsNear actual.principal_stable_debt expected.principal_stable_debt
  pub scaled_variable_debt : IsNear actual.scaled_variable_debt expected.scaled_variable_debt
  pub stable_borrow_rate : IsNear actual.stable_borrow_rate expected.stable_borrow_rate
  pub liquidity_rate : IsNear actual.liquidity_rate expected.liquidity_rate
  pub usage_as_collateral_enabled :
      actual.usage_as_collateral_enabled ≡ expected.usage_as_collateral_enabled
  pub stable_rate_last_updated :
      IsNear actual.stable_rate_last_updated expected.stable_rate_last_updated
  pub wallet_balance : IsNear actual.wallet_balance expected.wallet_balance

same_bool-eq : ⦃lib : BigNumberLib⦄ (a b : Bool) → same_bool a b ≡ true → a ≡ b
same_bool-eq true b h = sym h
same_bool-eq false true h = h
same_bool-eq false false h = refl

module _ ⦃lib : BigNumberLib⦄ (law : IsTruncating lib) where
  pub checks-NearReserve : (a e : ReserveData) → All IsTrue (reserve_checks a e) → NearReserve a e
  unfolding reserve_checks
  checks-NearReserve a e checks =
      let near = λ (x y : ℤ) (h : almost_equal x y ≡ true). (almost_equal_iff law x y).0 h in
      record {
        total_liquidity = near _ _ checks.0;
        utilization_rate = near _ _ checks.1.0;
        available_liquidity = near _ _ checks.1.1.0;
        total_stable_debt = near _ _ checks.1.1.1.0;
        total_variable_debt = near _ _ checks.1.1.1.1.0;
        liquidity_rate = near _ _ checks.1.1.1.1.1.0;
        variable_borrow_rate = near _ _ checks.1.1.1.1.1.1.0;
        stable_borrow_rate = near _ _ checks.1.1.1.1.1.1.1.0;
        average_stable_borrow_rate = near _ _ checks.1.1.1.1.1.1.1.1.0;
        liquidity_index = near _ _ checks.1.1.1.1.1.1.1.1.1.0;
        variable_borrow_index = near _ _ checks.1.1.1.1.1.1.1.1.1.1.0;
        principal_stable_debt = near _ _ checks.1.1.1.1.1.1.1.1.1.1.1.0;
        scaled_variable_debt = near _ _ checks.1.1.1.1.1.1.1.1.1.1.1.1.0;
        address = (eq_iff a.address e.address).0 checks.1.1.1.1.1.1.1.1.1.1.1.1.1.0;
      }

  pub checks-NearUser : (a e : UserReserveData) → All IsTrue (user_checks a e) → NearUser a e
  unfolding user_checks
  checks-NearUser a e checks =
      let near = λ (x y : ℤ) (h : almost_equal x y ≡ true). (almost_equal_iff law x y).0 h in
      record {
        scaled_ltoken_balance = near _ _ checks.0;
        current_ltoken_balance = near _ _ checks.1.0;
        current_stable_debt = near _ _ checks.1.1.0;
        current_variable_debt = near _ _ checks.1.1.1.0;
        principal_stable_debt = near _ _ checks.1.1.1.1.0;
        scaled_variable_debt = near _ _ checks.1.1.1.1.1.0;
        stable_borrow_rate = near _ _ checks.1.1.1.1.1.1.0;
        liquidity_rate = near _ _ checks.1.1.1.1.1.1.1.0;
        usage_as_collateral_enabled = same_bool-eq _ _ checks.1.1.1.1.1.1.1.1.0;
        stable_rate_last_updated = near _ _ checks.1.1.1.1.1.1.1.1.1.0;
        wallet_balance = near _ _ checks.1.1.1.1.1.1.1.1.1.1.0;
      }
