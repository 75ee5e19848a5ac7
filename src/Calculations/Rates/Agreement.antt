-- ===== src/Calculations/Rates/Agreement.antt =====
-- The rates that the suite expects, beside DefaultReserveInterestRateStrategy.sol.
use palmy_protocol.Prelude.{
  ℕ, ◌+◌, ◌-◌, ◌≤◌, ◌<◌, ◌≡◌, sym, ap, ◌∙◌, arith, some, true, Bool-cases, inl, inr, ltb, ◌==◌,
  if◌then◌else◌,
}
use palmy_protocol.Prelude.Int.{ℤ, pos, ◌+ℤ◌, pos-+, pos-sub, eq_ℤ, ltb_ℤ}
use palmy_protocol.Prelude.Fallible.{◌>>=◌, >>=-eq-some, eq_of_some-eq}
use palmy_protocol.Number.{BigNumberLib, IsTruncating}
use palmy_protocol.Math
use palmy_protocol.Contracts
use palmy_protocol.Types.{InterestRateStrategyParams, ReserveParams}
use palmy_protocol.Contracts.{percentage_unit, ray_unit, SafeMath, IsChecked, uint_max, unit_ratio}
use palmy_protocol.Contracts.Checked.{wad_to_ray-fits, fits-value, fits-bound, add-value, sub-value}
use palmy_protocol.Contracts.Agreement.{
  ray_mul_agrees, ray_div_agrees, wad_to_ray_agrees, percent_mul_agrees,
}
use palmy_protocol.Contracts.Strategy
use palmy_protocol.Contracts.Strategy.{Strategy}
use palmy_protocol.Calculations.Rates.{
  Rates, borrow_rates, rates_of, calc_expected_overall_borrow_rate,
}

wad_to_ray-bound : (a : ℕ) {r : ℕ} → Contracts.wad_to_ray a ≡ some r → r ≤ uint_max
wad_to_ray-bound a h =
    let e = sym (wad_to_ray-fits a) ∙ h in omega (arith, fits-value _ _ e, fits-bound _ _ e)

test_pos : (a b : ℕ) → ltb_ℤ (pos a) (pos b) ≡ ltb a b
test_pos a b = ground arith

abbrev pos_pair : ℕ × ℕ → ℤ × ℤ
pos_pair r = (pos r.0, pos r.1)

zero_test : (a : ℕ) → eq_ℤ (pos a) (pos 0) ≡ (a == 0)
zero_test a = ground arith

module _ ⦃lib : BigNumberLib⦄ where
  -- The strings of a reserve's strategy, read as the numbers that the contract was built with.
  pub record IsSameStrategy (text : InterestRateStrategyParams) (s : Strategy) : Type 0 where
    pub optimal : lib.of_string text.optimal_utilization_rate ≡ pos s.optimal_utilization_rate
    pub below_one : s.optimal_utilization_rate ≤ ray_unit
    pub excess : s.excess_utilization_rate ≡ ray_unit - s.optimal_utilization_rate
    pub base : lib.of_string text.base_variable_borrow_rate ≡ pos s.base_variable_borrow_rate
    pub variable1 : lib.of_string text.variable_rate_slope1 ≡ pos s.variable_rate_slope1
    pub variable2 : lib.of_string text.variable_rate_slope2 ≡ pos s.variable_rate_slope2
    pub stable1 : lib.of_string text.stable_rate_slope1 ≡ pos s.stable_rate_slope1
    pub stable2 : lib.of_string text.stable_rate_slope2 ≡ pos s.stable_rate_slope2

abbrev pub pos_rates : ℕ × ℕ × ℕ → Rates
pos_rates r = record {
  liquidity_rate = pos r.0;
  stable_borrow_rate = pos r.1;
  variable_borrow_rate = pos r.2;
}

module _ ⦃lib : BigNumberLib⦄ (law : IsTruncating lib) ⦃safe : SafeMath⦄
    (checked : IsChecked safe) where
  open safe use {add, sub}

  weighted_agrees :
      (total stable variable variable_rate average : ℕ) {r : ℕ}
      → (do
        variable_ray ← Contracts.wad_to_ray variable
        weighted_variable_rate ← Contracts.ray_mul variable_ray variable_rate
        stable_ray ← Contracts.wad_to_ray stable
        weighted_stable_rate ← Contracts.ray_mul stable_ray average
        weighted ← add weighted_variable_rate weighted_stable_rate
        debt_ray ← Contracts.wad_to_ray total
        Contracts.ray_div weighted debt_ray)
        ≡ some r
      → Math.ray_div
          (Math.ray_mul (Math.wad_to_ray (pos variable)) (pos variable_rate)
            +ℤ Math.ray_mul (Math.wad_to_ray (pos stable)) (pos average))
          (Math.wad_to_ray (pos total))
        ≡ pos r
  weighted_agrees total stable variable variable_rate average h =
      let (v, e1, h1) = >>=-eq-some (Contracts.wad_to_ray variable) _ h in
      let (wv, e2, h2) = >>=-eq-some (Contracts.ray_mul v variable_rate) _ h1 in
      let (s, e3, h3) = >>=-eq-some (Contracts.wad_to_ray stable) _ h2 in
      let (ws, e4, h4) = >>=-eq-some (Contracts.ray_mul s average) _ h3 in
      let (w, e5, h5) = >>=-eq-some (add wv ws) _ h4 in
      let (t, e6, h6) = >>=-eq-some (Contracts.wad_to_ray total) _ h5 in
      rw
        (
          wad_to_ray_agrees law variable e1,
          ray_mul_agrees law v variable_rate e2,
          wad_to_ray_agrees law stable e3,
          ray_mul_agrees law s average e4,
          pos-+ wv ws,
          sym (add-value checked wv ws e5),
          wad_to_ray_agrees law total e6,
        )
        (ray_div_agrees law w t (wad_to_ray-bound total e6) h6)

  -- With a BigNumber division that truncates and the documented SafeMath, where the contract's overall
  -- borrow rate returns a value, the suite expects that value.
  pub overall_agrees :
      (stable variable variable_rate average : ℕ) {r : ℕ}
      → Strategy.overall_borrow_rate stable variable variable_rate average ≡ some r
      → calc_expected_overall_borrow_rate
          (pos stable)
          (pos variable)
          (pos variable_rate)
          (pos average)
        ≡ pos r
  unfolding Strategy.overall_borrow_rate calc_expected_overall_borrow_rate
  overall_agrees stable variable variable_rate average {r} h =
      let (total, e1, h1) = >>=-eq-some (add stable variable) _ h in
      let sum = add-value checked stable variable e1 in
      elim (Bool-cases (total == 0)) [
        | inl e ↦
            let nothing : some 0 ≡ some r = rw e at h1 in
            rw (pos-+ stable variable, ← sum, zero_test total ∙ e) (ap pos (eq_of_some-eq nothing))
        | inr e ↦
            rw (pos-+ stable variable, ← sum, zero_test total ∙ e)
              (weighted_agrees total stable variable variable_rate average (rw e at h1))
      ]

  -- Above the optimal utilization.
  excess_agrees :
      (text : InterestRateStrategyParams) (s : Strategy)
      → IsSameStrategy text s
      → (market u : ℕ) → ltb s.optimal_utilization_rate u ≡ true
      → {r : ℕ × ℕ} → Strategy.excess_rates s market u ≡ some r
      → borrow_rates text (pos market) (pos u) ≡ (pos r.0, pos r.1)
  unfolding Strategy.excess_rates borrow_rates
  excess_agrees text s same market u above h =
      let (e, e1, h1) = >>=-eq-some (sub u s.optimal_utilization_rate) _ h in
      let (ratio, e2, h2) = >>=-eq-some (Contracts.ray_div e s.excess_utilization_rate) _ h1 in
      let (sb, e3, h3) = >>=-eq-some (add market s.stable_rate_slope1) _ h2 in
      let (sx, e4, h4) = >>=-eq-some (Contracts.ray_mul s.stable_rate_slope2 ratio) _ h3 in
      let (sr, e5, h5) = >>=-eq-some (add sb sx) _ h4 in
      let (vb, e6, h6) =
        >>=-eq-some (add s.base_variable_borrow_rate s.variable_rate_slope1) _ h5 in
      let (vx, e7, h7) = >>=-eq-some (Contracts.ray_mul s.variable_rate_slope2 ratio) _ h6 in
      let (vr, e8, h8) = >>=-eq-some (add vb vx) _ h7 in
      rw
        (
          same.optimal,
          same.base,
          same.variable1,
          same.variable2,
          same.stable1,
          same.stable2,
          test_pos s.optimal_utilization_rate u,
          above,
          pos-sub u s.optimal_utilization_rate
              (sub-value checked u s.optimal_utilization_rate e1).0,
          sym (sub-value checked u s.optimal_utilization_rate e1).1,
          pos-sub ray_unit s.optimal_utilization_rate same.below_one,
          sym same.excess,
          ray_div_agrees law e s.excess_utilization_rate (omega (arith, same.excess)) e2,
          pos-+ market s.stable_rate_slope1,
          sym (add-value checked market s.stable_rate_slope1 e3),
          ray_mul_agrees law s.stable_rate_slope2 ratio e4,
          pos-+ sb sx,
          sym (add-value checked sb sx e5),
          pos-+ s.base_variable_borrow_rate s.variable_rate_slope1,
          sym (add-value checked s.base_variable_borrow_rate s.variable_rate_slope1 e6),
          ray_mul_agrees law s.variable_rate_slope2 ratio e7,
          pos-+ vb vx,
          sym (add-value checked vb vx e8),
        )
        (ap pos_pair (eq_of_some-eq h8))

  liquidity_agrees :
      (reserve : ReserveParams) (market u stable variable average factor : ℕ) (p : ℕ × ℕ)
      → lib.of_string reserve.reserve_factor ≡ pos factor
      → borrow_rates reserve.strategy (pos market) (pos u) ≡ pos_pair p
      → {r : ℕ × ℕ × ℕ}
      → (do
        overall ← Strategy.overall_borrow_rate stable variable p.1 average
        product ← Contracts.ray_mul overall u
        share ← sub percentage_unit factor
        liquidity_rate ← Contracts.percent_mul product share
        some (liquidity_rate, p.0, p.1))
        ≡ some r
      → rates_of reserve (pos market) (pos u) (pos stable) (pos variable) (pos average)
        ≡ pos_rates r
  unfolding rates_of
  liquidity_agrees reserve market u stable variable average factor p same_factor rates h =
      let (overall, e1, h1) =
        >>=-eq-some (Strategy.overall_borrow_rate stable variable p.1 average) _ h in
      let (product, e2, h2) = >>=-eq-some (Contracts.ray_mul overall u) _ h1 in
      let (share, e3, h3) = >>=-eq-some (sub percentage_unit factor) _ h2 in
      let (liquidity, e4, h4) = >>=-eq-some (Contracts.percent_mul product share) _ h3 in
      rw
        (
          rates,
          overall_agrees stable variable p.1 average e1,
          ray_mul_agrees law overall u e2,
          same_factor,
          pos-sub percentage_unit factor (sub-value checked percentage_unit factor e3).0,
          sym (sub-value checked percentage_unit factor e3).1,
          percent_mul_agrees law product share e4,
        )
        (ap pos_rates (eq_of_some-eq h4))

  rates_at :
      (reserve : ReserveParams) (s : Strategy) (market u stable variable average factor : ℕ)
      → IsSameStrategy reserve.strategy s
      → lib.of_string reserve.reserve_factor ≡ pos factor
      → s.optimal_utilization_rate < u
      → {r : ℕ × ℕ × ℕ}
      → (do
        rates ←
            if ltb s.optimal_utilization_rate u
            then Strategy.excess_rates s market u
            else Strategy.normal_rates s market u
        overall ← Strategy.overall_borrow_rate stable variable rates.1 average
        product ← Contracts.ray_mul overall u
        share ← sub percentage_unit factor
        liquidity_rate ← Contracts.percent_mul product share
        some (liquidity_rate, rates.0, rates.1))
        ≡ some r
      → rates_of reserve (pos market) (pos u) (pos stable) (pos variable) (pos average)
        ≡ pos_rates r
  rates_at reserve s market u stable variable average factor same sf above h =
      let test : ltb s.optimal_utilization_rate u ≡ true = ground arith in
      let (p, e1, h1) =
        >>=-eq-some
          (if ltb s.optimal_utilization_rate u
            then Strategy.excess_rates s market u
            else Strategy.normal_rates s market u)
          _ h in
      liquidity_agrees reserve market u stable variable average factor p sf
        (excess_agrees reserve.strategy s same market u test (rw test at e1)) h1

  -- With a BigNumber division that truncates and the documented SafeMath: if the strategy contract,
  -- built with the numbers of a reserve's configuration, finds a utilization
  -- above the optimal one and returns its three rates, the suite expects these rates at that
  -- utilization.
  pub rates_agree_above :
      (reserve : ReserveParams) (s : Strategy)
      (market available stable variable average factor u : ℕ)
      → IsSameStrategy reserve.strategy s
      → lib.of_string reserve.reserve_factor ≡ pos factor
      → Strategy.utilization (stable + variable) available ≡ some u
      → s.optimal_utilization_rate < u
      → {r : ℕ × ℕ × ℕ}
      → Strategy.calculate_interest_rates s market available stable variable average factor ≡ some r
      → rates_of reserve (pos market) (pos u) (pos stable) (pos variable) (pos average)
        ≡ pos_rates r
  unfolding Strategy.calculate_interest_rates
  rates_agree_above reserve s market available stable variable average factor u same sf eu above h =
      let (total, e1, h1) = >>=-eq-some (add stable variable) _ h in
      let (v, e2, h2) = >>=-eq-some (Strategy.utilization total available) _ h1 in
      let v_eq : v ≡ u = eq_of_some-eq (
        sym e2
        ∙ ap (λ t. Strategy.utilization t available) (add-value checked stable variable e1)
        ∙ eu) in
      rates_at reserve s market u stable variable average factor same sf above (rw v_eq at h2)
