-- ===== src/Calculations/Interest/Agreement.antt =====
-- The interest that the suite expects is the interest of the contracts (MathUtils.sol).
use palmy_protocol.Prelude.{
  ℕ, ◌+◌, ◌-◌, ◌*◌, ◌/◌, ◌<◌, ◌≡◌, sym, ap, ◌∙◌, subst, arith, some, Bool-cases, inl, inr, ltb,
  ◌==◌, if◌then◌else◌,
}
use palmy_protocol.Prelude.Int.{pos, ◌-ℤ◌, pos-+, pos-*, pos-sub, ltb_ℤ, eq_ℤ}
use palmy_protocol.Prelude.Fallible.{>>=-eq-some, eq_of_some-eq}
use palmy_protocol.Number.{BigNumberLib, IsTruncating, div-pos}
use palmy_protocol.Math.{ray_mul, ray_const}
use palmy_protocol.Contracts
use palmy_protocol.Contracts.{SafeMath, IsChecked, fits, uint_max, ray_unit, seconds_per_year}
use palmy_protocol.Contracts.Checked.{add-value, mul-value, sub-value}
use palmy_protocol.Contracts.Agreement.{ray_mul_agrees}
use palmy_protocol.Calculations.Interest.{
  compounded, calc_compounded_interest, calc_linear_interest,
}

abbrev pub minus_two : ℕ → ℕ
minus_two exp = if ltb 2 exp then exp - 2 else 0

minus_two_pos :
    (exp : ℕ) → (if ltb_ℤ (pos 2) (pos exp) then pos exp -ℤ pos 2 else pos 0) ≡ pos (minus_two exp)
unfolding ◌-ℤ◌
minus_two_pos exp = ground arith

-- Three terms of the binomial series, by their two powers of the rate per second.
abbrev pub series : ℕ → ℕ → ℕ → ℕ → ℕ
series rate_per_second exp power_two power_three =
    ray_unit
    + rate_per_second * exp
    + exp * (exp - 1) * power_two / 2
    + exp * (exp - 1) * minus_two exp * power_three / 6

pub same_test : (exp : ℕ) → eq_ℤ (pos exp) (pos 0) ≡ (exp == 0)
same_test exp = ground arith

module _ ⦃lib : BigNumberLib⦄ (law : IsTruncating lib) where
  pub compounded-series :
      (rate exp p2 p3 : ℕ)
      → 0 < exp
      → let per_second = rate / seconds_per_year in
        ray_mul (pos per_second) (pos per_second) ≡ pos p2
        → ray_mul (pos p2) (pos (rate / seconds_per_year)) ≡ pos p3
        → compounded (pos rate) (pos exp) ≡ pos (series (rate / seconds_per_year) exp p2 p3)
  unfolding compounded
  compounded-series rate exp p2 p3 h e2 e3 =
      rw
        (
          div-pos law rate seconds_per_year (omega arith),
          e2,
          e3,
          minus_two_pos exp,
          pos-sub exp 1 h,
        )
        (simp (pos-*, pos-+)
          (rw
            (
              div-pos law (exp * (exp - 1) * p2) 2 (omega arith),
              div-pos law (exp * (exp - 1) * minus_two exp * p3) 6 (omega arith),
            )
            (simp pos-+)))

module _ ⦃lib : BigNumberLib⦄ (law : IsTruncating lib) ⦃safe : SafeMath⦄
    (checked : IsChecked safe) where
  open safe use {add, sub, mul}

  -- With a BigNumber division that truncates and the documented SafeMath, where the contracts' linear
  -- interest returns a value, the suite expects that value.
  pub linear_agrees :
      (rate last now : ℕ) {r : ℕ}
      → Contracts.calculate_linear_interest rate last now ≡ some r
      → calc_linear_interest (pos rate) (pos now) (pos last) ≡ pos r
  unfolding Contracts.calculate_linear_interest calc_linear_interest
  linear_agrees rate last now h =
      let (t, e1, h1) = >>=-eq-some (sub now last) _ h in
      let (p, e2, h2) = >>=-eq-some (mul rate t) _ h1 in
      let (before, elapsed) = sub-value checked now last e1 in
      let product : rate * (now - last) ≡ p =
        sym (mul-value checked rate t e2 ∙ ap (λ (x : ℕ). rate * x) elapsed) in
      rw
        (
          pos-sub now last before,
          pos-* rate (now - last),
          product,
          div-pos law p seconds_per_year (omega arith),
          pos-+ (p / seconds_per_year) ray_unit,
        )
        (ap pos (sym (add-value checked (p / seconds_per_year) ray_unit h2)))

  compounded-parts :
      (rate exp : ℕ) {r : ℕ}
      → Contracts.compounded rate exp ≡ some r
      → (p2 : ℕ) × (p3 : ℕ) × (ray_mul
            (pos (rate / seconds_per_year))
            (pos (rate / seconds_per_year))
          ≡ pos p2)
        × (ray_mul (pos p2) (pos (rate / seconds_per_year)) ≡ pos p3)
        × (r ≡ series (rate / seconds_per_year) exp p2 p3)
  unfolding Contracts.compounded
  compounded-parts rate exp h =
      let s : ℕ = rate / seconds_per_year in
      let (p2, e2, h2) = >>=-eq-some (Contracts.ray_mul s s) _ h in
      let (p3, e3, h3) = >>=-eq-some (Contracts.ray_mul p2 s) _ h2 in
      let (pairs, e4, h4) = >>=-eq-some (mul exp (exp - 1)) _ h3 in
      let (second, e5, h5) = >>=-eq-some (mul pairs p2) _ h4 in
      let (triples, e6, h6) = >>=-eq-some (mul pairs (minus_two exp)) _ h5 in
      let (third, e7, h7) = >>=-eq-some (mul triples p3) _ h6 in
      let (growth, e8, h8) = >>=-eq-some (mul s exp) _ h7 in
      let (one, e9, h9) = >>=-eq-some (add ray_unit growth) _ h8 in
      let (two, e10, h10) = >>=-eq-some (add one (second / 2)) _ h9 in
      (
        p2,
        p3,
        ray_mul_agrees law s s e2,
        ray_mul_agrees law p2 s e3,
        rw (
          add-value checked two (third / 6) h10,
          add-value checked one (second / 2) e10,
          add-value checked ray_unit growth e9,
          mul-value checked s exp e8,
          mul-value checked triples p3 e7,
          mul-value checked pairs (minus_two exp) e6,
          mul-value checked pairs p2 e5,
          mul-value checked exp (exp - 1) e4,
        ),
      )

  at_elapsed :
      (rate exp : ℕ) {r : ℕ}
      → (if exp == 0 then some ray_unit else Contracts.compounded rate exp) ≡ some r
      → (if eq_ℤ (pos exp) (pos 0) then pos ray_const else compounded (pos rate) (pos exp)) ≡ pos r
  at_elapsed rate exp h = elim (Bool-cases (exp == 0)) [
    | inl e ↦
        let now : some ray_unit ≡ some _ = rw e at h in
        rw (same_test exp ∙ e) (ap pos (eq_of_some-eq now))
    | inr e ↦
        let later : Contracts.compounded rate exp ≡ some _ = rw e at h in
        let (p2, p3, e2, e3, value) = compounded-parts rate exp later in
        rw (same_test exp ∙ e)
          (compounded-series law rate exp p2 p3 (ground arith) e2 e3 ∙ ap pos (sym value))
  ]

  -- With a BigNumber division that truncates and the documented SafeMath, where the contracts'
  -- compounded interest returns a value, the suite expects that value.
  pub compounded_agrees :
      (rate last now : ℕ) {r : ℕ}
      → Contracts.calculate_compounded_interest rate last now ≡ some r
      → calc_compounded_interest (pos rate) (pos now) (pos last) ≡ pos r
  unfolding Contracts.calculate_compounded_interest calc_compounded_interest
  compounded_agrees rate last now {r} h =
      let (t, e1, h1) = >>=-eq-some (sub now last) _ h in
      let (before, elapsed) = sub-value checked now last e1 in
      rw (pos-sub now last before) (
        at_elapsed rate (now - last) (
          subst (λ x. (if x == 0 then some ray_unit else Contracts.compounded rate x) ≡ some r)
            elapsed h1))
