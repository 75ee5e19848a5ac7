-- ===== src/Calculations/Growth.antt =====
-- The indices of a reserve never fall.
use palmy_protocol.Prelude.{
  ℕ, ◌+◌, ◌-◌, ◌*◌, ◌/◌, ◌≤◌, ◌≡◌, refl, sym, ◌∙◌, subst, arith, Bool, true, false, Bool-cases, inl,
  inr, ◌==◌, if◌then◌else◌,
}
use palmy_protocol.Prelude.Int.{ℤ, pos, negsuc, ◌≤ℤ◌, pos-+, pos-*, pos-sub, eq_ℤ}
use palmy_protocol.Number.{BigNumberLib, IsTruncating, div-pos}
use palmy_protocol.Math.{ray_mul, ray_const}
use palmy_protocol.Math.Naturals.{mul_nearest, ray_mul-pos}
use palmy_protocol.Contracts.{seconds_per_year}
use palmy_protocol.Calculations.{ReserveData}
use palmy_protocol.Calculations.Interest.{
  calc_linear_interest, calc_compounded_interest, compounded, calc_expected_liquidity_index,
  calc_expected_variable_borrow_index,
}
use palmy_protocol.Calculations.Interest.Agreement.{compounded-series, series, same_test}

-- A number that is not negative is a natural one.
natural : (a : ℤ) → pos 0 ≤ℤ a → (n : ℕ) × (a ≡ pos n)
natural (pos n) h = (n, refl)
natural (negsuc n) h = absurd (omega arith)

-- A factor of one RAY or more does not make an amount smaller.
mul_grows : (a b : ℕ) → ray_const ≤ a → b ≤ mul_nearest ray_const a b
mul_grows a b h = subst (λ x. b ≤ mul_nearest ray_const x b) (omega arith) (above (a - ray_const))
  where
    above : (d : ℕ) → b ≤ mul_nearest ray_const (ray_const + d) b
    above d = omega arith

-- Rates, indices and the last update are not negative, and the last update is not after `tx`.
pub record IsPast (before : ReserveData) (tx : ℤ) : Type 0 where
  pub liquidity_index : pos 0 ≤ℤ before.liquidity_index
  pub variable_borrow_index : pos 0 ≤ℤ before.variable_borrow_index
  pub liquidity_rate : pos 0 ≤ℤ before.liquidity_rate
  pub variable_borrow_rate : pos 0 ≤ℤ before.variable_borrow_rate
  pub last_update_timestamp : pos 0 ≤ℤ before.last_update_timestamp
  pub not_after : before.last_update_timestamp ≤ℤ tx

module _ ⦃lib : BigNumberLib⦄ (law : IsTruncating lib) where
  linear_grows :
      (rate last now : ℕ)
      → last ≤ now
      → (f : ℕ) × (calc_linear_interest (pos rate) (pos now) (pos last) ≡ pos f) × (ray_const ≤ f)
  unfolding calc_linear_interest
  linear_grows rate last now h = (
    rate * (now - last) / seconds_per_year + ray_const,
    rw
        (
          pos-sub now last h,
          pos-* rate (now - last),
          div-pos law (rate * (now - last)) seconds_per_year (omega arith),
          pos-+ (rate * (now - last) / seconds_per_year) ray_const,
        )
        refl,
    omega arith,
  )

  at_elapsed-grows :
      (rate exp : ℕ)
      → (f : ℕ) × ((if eq_ℤ (pos exp) (pos 0)
            then pos ray_const
            else compounded (pos rate) (pos exp))
          ≡ pos f)
        × (ray_const ≤ f)
  at_elapsed-grows rate exp = elim (Bool-cases (exp == 0)) [
    | inl e ↦ (ray_const, rw (same_test exp ∙ e) refl, omega arith)
    | inr e ↦
        let s : ℕ = rate / seconds_per_year in
        let p2 : ℕ = mul_nearest ray_const s s in
        let p3 : ℕ = mul_nearest ray_const p2 s in
        (
          series s exp p2 p3,
          rw (same_test exp ∙ e) (
              compounded-series law rate exp p2 p3 (ground arith) (ray_mul-pos law s s)
                (ray_mul-pos law p2 s)),
          omega arith,
        )
  ]

  compounded_grows :
      (rate last now : ℕ)
      → last ≤ now
      → (f : ℕ) × (calc_compounded_interest (pos rate) (pos now) (pos last) ≡ pos f)
        × (ray_const ≤ f)
  unfolding calc_compounded_interest
  compounded_grows rate last now h = rw (pos-sub now last h) (at_elapsed-grows rate (now - last))

  -- What `rayMul` of a growth factor does to an index.
  grown : (f i : ℕ) {factor : ℤ} → factor ≡ pos f → ray_const ≤ f → pos i ≤ℤ ray_mul factor (pos i)
  grown f i e h =
      subst (λ (x : ℤ). pos i ≤ℤ ray_mul x (pos i)) (sym e)
        (subst (λ (x : ℤ). pos i ≤ℤ x) (sym (ray_mul-pos law f i)) (omega (arith, mul_grows f i h)))

  accrued :
      (idle : Bool) (index factor : ℤ)
      → pos 0 ≤ℤ index
      → (f : ℕ) × (factor ≡ pos f) × (ray_const ≤ f)
      → index ≤ℤ (if idle then index else ray_mul factor index)
  accrued true index factor h g = omega arith
  accrued false (pos i) factor h (f, e, g) = grown f i e g
  accrued false (negsuc i) factor h g = absurd (omega arith)

  linear_factor :
      (rate last now : ℤ)
      → pos 0 ≤ℤ rate
      → pos 0 ≤ℤ last
      → last ≤ℤ now
      → (f : ℕ) × (calc_linear_interest rate now last ≡ pos f) × (ray_const ≤ f)
  linear_factor (pos rate) (pos last) (pos now) hr hl hn = linear_grows rate last now (omega arith)
  linear_factor (pos rate) (pos last) (negsuc now) hr hl hn = absurd (omega arith)
  linear_factor (pos rate) (negsuc last) now hr hl hn = absurd (omega arith)
  linear_factor (negsuc rate) last now hr hl hn = absurd (omega arith)

  compounded_factor :
      (rate last now : ℤ)
      → pos 0 ≤ℤ rate
      → pos 0 ≤ℤ last
      → last ≤ℤ now
      → (f : ℕ) × (calc_compounded_interest rate now last ≡ pos f) × (ray_const ≤ f)
  compounded_factor (pos rate) (pos last) (pos now) hr hl hn =
      compounded_grows rate last now (omega arith)
  compounded_factor (pos rate) (pos last) (negsuc now) hr hl hn = absurd (omega arith)
  compounded_factor (pos rate) (negsuc last) now hr hl hn = absurd (omega arith)
  compounded_factor (negsuc rate) last now hr hl hn = absurd (omega arith)

  pub index_grows :
      (before : ReserveData) (tx : ℤ)
      → IsPast before tx
      → (before.liquidity_index ≤ℤ calc_expected_liquidity_index before tx)
        × (before.variable_borrow_index ≤ℤ calc_expected_variable_borrow_index before tx)
  unfolding calc_expected_liquidity_index calc_expected_variable_borrow_index
  index_grows before tx p = (
    accrued (eq_ℤ before.utilization_rate (pos 0)) before.liquidity_index _ p.liquidity_index (
        linear_factor before.liquidity_rate before.last_update_timestamp tx p.liquidity_rate
          p.last_update_timestamp p.not_after),
    accrued (eq_ℤ before.total_variable_debt (pos 0)) before.variable_borrow_index _
        p.variable_borrow_index
        (compounded_factor before.variable_borrow_rate before.last_update_timestamp tx
          p.variable_borrow_rate p.last_update_timestamp p.not_after),
  )
