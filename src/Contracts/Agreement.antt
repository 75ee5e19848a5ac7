-- ===== src/Contracts/Agreement.antt =====
-- The arithmetic of the test suite (math.ts) agrees with the contracts' wherever the contracts return.
use palmy_protocol.Prelude.{ℕ, ◌+◌, ◌*◌, ◌/◌, ◌<◌, ◌≤◌, ◌≡◌, sym, ap, ◌∙◌, arith, some}
use palmy_protocol.Prelude.Int.{pos}
use palmy_protocol.Number.{BigNumberLib, IsTruncating}
use palmy_protocol.Math
use palmy_protocol.Math.Naturals
use palmy_protocol.Contracts
use palmy_protocol.Contracts.{uint_max, fits, ray_unit, wad_unit, percentage_unit}
use palmy_protocol.Contracts.Checked
use palmy_protocol.Contracts.Checked.{fits-value}

-- A division by 0 reverts.
ray_div_by_zero : (a b : ℕ) {r : ℕ} → Contracts.ray_div a b ≡ some r → 0 < b
unfolding Contracts.ray_div
ray_div_by_zero a b h = ground arith

percent_div_by_zero : (a b : ℕ) {r : ℕ} → Contracts.percent_div a b ≡ some r → 0 < b
unfolding Contracts.percent_div
percent_div_by_zero a b h = ground arith

wad_div_by_zero : (a b : ℕ) {r : ℕ} → Contracts.wad_div a b ≡ some r → 0 < b
unfolding Contracts.wad_div
wad_div_by_zero a b h = ground arith

swapped : (a b u : ℕ) → (a + b) / u ≡ (b + a) / u
swapped a b u = ap (λ (t : ℕ). t / u) (omega arith)

module _ ⦃lib : BigNumberLib⦄ (law : IsTruncating lib) where
  -- With a BigNumber division that truncates, where `rayMul` of the contracts returns a value, `rayMul`
  -- of the suite is that value.
  pub ray_mul_agrees :
      (a b : ℕ) {r : ℕ} → Contracts.ray_mul a b ≡ some r → Math.ray_mul (pos a) (pos b) ≡ pos r
  ray_mul_agrees a b h =
      Naturals.ray_mul-pos law a b
      ∙ ap pos (
          swapped (ray_unit / 2) (a * b) ray_unit
          ∙ fits-value _ _ (sym (Checked.ray_mul-fits a b) ∙ h))

  pub wad_mul_agrees :
      (a b : ℕ) {r : ℕ} → Contracts.wad_mul a b ≡ some r → Math.wad_mul (pos a) (pos b) ≡ pos r
  wad_mul_agrees a b h =
      Naturals.wad_mul-pos law a b
      ∙ ap pos (
          swapped (wad_unit / 2) (a * b) wad_unit
          ∙ fits-value _ _ (sym (Checked.wad_mul-fits a b) ∙ h))

  pub percent_mul_agrees :
      (a b : ℕ) {r : ℕ}
      → Contracts.percent_mul a b ≡ some r
      → Math.percent_mul (pos a) (pos b) ≡ pos r
  percent_mul_agrees a b h =
      Naturals.percent_mul-pos law a b
      ∙ ap pos (
          swapped (percentage_unit / 2) (a * b) percentage_unit
          ∙ fits-value _ _ (sym (Checked.percent_mul-fits a b) ∙ h))

  -- With a BigNumber division that truncates, and for a divisor that fits a uint256, where `rayDiv` of
  -- the contracts returns a value, `rayDiv` of the suite is that value.
  pub ray_div_agrees :
      (a b : ℕ) {r : ℕ}
      → b ≤ uint_max
      → Contracts.ray_div a b ≡ some r
      → Math.ray_div (pos a) (pos b) ≡ pos r
  ray_div_agrees a b small h =
      let b_pos = ray_div_by_zero a b h in
      Naturals.ray_div-pos law a b b_pos
      ∙ ap pos (
          swapped (b / 2) (a * ray_unit) b
          ∙ fits-value _ _ (sym (Checked.ray_div-fits a b b_pos small) ∙ h))

  pub wad_div_agrees :
      (a b : ℕ) {r : ℕ}
      → b ≤ uint_max
      → Contracts.wad_div a b ≡ some r
      → Math.wad_div (pos a) (pos b) ≡ pos r
  wad_div_agrees a b small h =
      let b_pos = wad_div_by_zero a b h in
      Naturals.wad_div-pos law a b b_pos
      ∙ ap pos (
          swapped (b / 2) (a * wad_unit) b
          ∙ fits-value _ _ (sym (Checked.wad_div-fits a b b_pos small) ∙ h))

  pub percent_div_agrees :
      (a b : ℕ) {r : ℕ}
      → b ≤ uint_max
      → Contracts.percent_div a b ≡ some r
      → Math.percent_div (pos a) (pos b) ≡ pos r
  percent_div_agrees a b small h =
      let b_pos = percent_div_by_zero a b h in
      Naturals.percent_div-pos law a b b_pos
      ∙ ap pos (
          swapped (b / 2) (a * percentage_unit) b
          ∙ fits-value _ _ (sym (Checked.percent_div-fits a b b_pos small) ∙ h))

  pub wad_to_ray_agrees :
      (a : ℕ) {r : ℕ} → Contracts.wad_to_ray a ≡ some r → Math.wad_to_ray (pos a) ≡ pos r
  wad_to_ray_agrees a h =
      Naturals.wad_to_ray-pos law a ∙ ap pos (fits-value _ _ (sym (Checked.wad_to_ray-fits a) ∙ h))

  pub ray_to_wad_agrees :
      (a : ℕ) {r : ℕ}
      → a ≤ uint_max
      → Contracts.ray_to_wad a ≡ some r
      → Math.ray_to_wad (pos a) ≡ pos r
  ray_to_wad_agrees a small h =
      Naturals.ray_to_wad-pos law a
      ∙ ap pos (fits-value _ _ (sym (Checked.ray_to_wad-fits a small) ∙ h))
