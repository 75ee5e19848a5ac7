-- ===== src/Math/Naturals.antt =====
-- The fixed-point operations of math.ts at amounts that are not negative, as arithmetic on ℕ.
use palmy_protocol.Prelude.{ℕ, ◌+◌, ◌*◌, ◌/◌, ◌<◌, ◌≡◌, ap, ◌∙◌, arith}
use palmy_protocol.Prelude.Int.{pos, ◌+ℤ◌, ◌*ℤ◌, pos-+, pos-*}
use palmy_protocol.Number.{BigNumberLib, IsTruncating, div-pos}
use palmy_protocol.Math.{
  wad_mul, wad_div, ray_mul, ray_div, ray_to_wad, wad_to_ray, percent_mul, percent_div, wad_const,
  ray_const, wad_ray_ratio, percentage_factor, half_wad_const, half_ray_const,
  half_percentage_const,
}

-- (a * b) / unit and (a * unit) / b, rounded to the nearest integer, a half upwards.
abbrev pub mul_nearest : ℕ → ℕ → ℕ → ℕ
mul_nearest unit a b = (unit / 2 + a * b) / unit

abbrev pub div_nearest : ℕ → ℕ → ℕ → ℕ
div_nearest unit a b = (b / 2 + a * unit) / b

module _ ⦃lib : BigNumberLib⦄ (law : IsTruncating lib) where
  open lib use {div, floor_places}
  open law use {floor_places_id}

  mul_round :
      (half unit a b : ℕ)
      → 0 < unit
      → floor_places (div (floor_places (pos half) +ℤ pos a *ℤ pos b) (pos unit))
        ≡ pos ((half + a * b) / unit)
  mul_round half unit a b h =
      floor_places_id _ ∙ rw (floor_places_id, pos-*, pos-+) (div-pos law (half + a * b) unit h)

  div_round :
      (unit a b : ℕ)
      → 0 < b
      → floor_places (div (floor_places (div (pos b) (pos 2)) +ℤ pos a *ℤ pos unit) (pos b))
        ≡ pos ((b / 2 + a * unit) / b)
  div_round unit a b h =
      floor_places_id _
      ∙ rw (floor_places_id, div-pos law b 2 (omega arith), pos-*, pos-+)
          (div-pos law (b / 2 + a * unit) b h)

  -- Each operation at amounts that are not negative.
  pub ray_mul-pos : (a b : ℕ) → ray_mul (pos a) (pos b) ≡ pos (mul_nearest ray_const a b)
  unfolding ray_mul
  ray_mul-pos a b = mul_round half_ray_const ray_const a b (omega arith)

  pub wad_mul-pos : (a b : ℕ) → wad_mul (pos a) (pos b) ≡ pos (mul_nearest wad_const a b)
  unfolding wad_mul
  wad_mul-pos a b = mul_round half_wad_const wad_const a b (omega arith)

  pub percent_mul-pos :
      (a b : ℕ) → percent_mul (pos a) (pos b) ≡ pos (mul_nearest percentage_factor a b)
  unfolding percent_mul
  percent_mul-pos a b = mul_round half_percentage_const percentage_factor a b (omega arith)

  pub ray_div-pos : (a b : ℕ) → 0 < b → ray_div (pos a) (pos b) ≡ pos (div_nearest ray_const a b)
  unfolding ray_div
  ray_div-pos a b h =
      ap (λ t. floor_places (div t (pos b))) (floor_places_id _) ∙ div_round ray_const a b h

  pub wad_div-pos : (a b : ℕ) → 0 < b → wad_div (pos a) (pos b) ≡ pos (div_nearest wad_const a b)
  unfolding wad_div
  wad_div-pos a b h = div_round wad_const a b h

  pub percent_div-pos :
      (a b : ℕ) → 0 < b → percent_div (pos a) (pos b) ≡ pos (div_nearest percentage_factor a b)
  unfolding percent_div
  percent_div-pos a b h = div_round percentage_factor a b h

  pub wad_to_ray-pos : (a : ℕ) → wad_to_ray (pos a) ≡ pos (a * wad_ray_ratio)
  unfolding wad_to_ray
  wad_to_ray-pos a = floor_places_id _ ∙ pos-* a wad_ray_ratio

  pub ray_to_wad-pos : (a : ℕ) → ray_to_wad (pos a) ≡ pos ((wad_ray_ratio / 2 + a) / wad_ray_ratio)
  unfolding ray_to_wad
  ray_to_wad-pos a =
      floor_places_id _
      ∙ rw (div-pos law wad_ray_ratio 2 (omega arith), pos-+)
          (div-pos law (wad_ray_ratio / 2 + a) wad_ray_ratio (omega arith))
