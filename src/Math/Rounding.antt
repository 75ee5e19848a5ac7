-- ===== src/Math/Rounding.antt =====
-- How the fixed-point operations of math.ts round.
use native.Mathlib.Nat.{div-add-mod', mod-lt}
use palmy_protocol.Prelude.{ℕ, ◌+◌, ◌*◌, ◌/◌, ◌<◌, ◌≤◌, ◌≡◌, ap, arith}
use palmy_protocol.Prelude.Int.{pos}
use palmy_protocol.Number.{BigNumberLib, IsTruncating}
use palmy_protocol.Math.{ray_mul, ray_div, ray_to_wad, wad_to_ray, ray_const}
use palmy_protocol.Math.Naturals.{
  mul_nearest, div_nearest, ray_mul-pos, ray_div-pos, ray_to_wad-pos, wad_to_ray-pos,
}

-- `r` is off from x / y by at most a half.
abbrev pub IsNearest : ℕ → ℕ → ℕ → Type 0
IsNearest x y r = (2 * x < 2 * (r * y) + y + 1) × (2 * (r * y) < 2 * x + y + 1)

half_add-IsNearest : (x y : ℕ) → 0 < y → IsNearest x y ((y / 2 + x) / y)
half_add-IsNearest x y h = omega (arith, div-add-mod' (y / 2 + x) y, mod-lt (y / 2 + x) h)

module _ ⦃lib : BigNumberLib⦄ (law : IsTruncating lib) where
  -- With a BigNumber division that truncates, at amounts that are not negative, the second one positive, `rayMul` returns an integer that is off
  -- from a b / RAY by at most a half, and `rayDiv` one that is off from a RAY / b by at most a half.
  pub ray-IsNearest :
      (a b : ℕ)
      → 0 < b
      → ((r : ℕ) × (ray_mul (pos a) (pos b) ≡ pos r) × IsNearest (a * b) ray_const r)
        × ((r : ℕ) × (ray_div (pos a) (pos b) ≡ pos r) × IsNearest (a * ray_const) b r)
  ray-IsNearest a b h = (
    (
      mul_nearest ray_const a b,
      ray_mul-pos law a b,
      half_add-IsNearest (a * b) ray_const (omega arith),
    ),
    (div_nearest ray_const a b, ray_div-pos law a b h, half_add-IsNearest (a * ray_const) b h),
  )

  -- With a BigNumber division that truncates, an amount that is divided by a positive index and multiplied by it again, as a balance is scaled
  -- and unscaled, comes back as an integer m with 2 RAY |m - a| <= index + RAY.
  pub ray_mul-ray_div :
      (a index : ℕ)
      → 0 < index
      → (m : ℕ) × (ray_mul (ray_div (pos a) (pos index)) (pos index) ≡ pos m)
        × (2 * ray_const * m ≤ 2 * ray_const * a + index + ray_const)
        × (2 * ray_const * a ≤ 2 * ray_const * m + index + ray_const)
  ray_mul-ray_div a b h =
      let r : ℕ = div_nearest ray_const a b in
      let near : IsNearest (a * ray_const) b r = half_add-IsNearest (a * ray_const) b h in
      let near' : IsNearest (r * b) ray_const (mul_nearest ray_const r b) =
        half_add-IsNearest (r * b) ray_const (omega arith) in
      (
        mul_nearest ray_const r b,
        rw (ray_div-pos law a b h) (ray_mul-pos law r b),
        omega arith,
        omega arith,
      )

  -- With a BigNumber division that truncates, a wad amount survives the way to rays and back.
  pub ray_to_wad-wad_to_ray : (a : ℕ) → ray_to_wad (wad_to_ray (pos a)) ≡ pos a
  ray_to_wad-wad_to_ray a = rw (wad_to_ray-pos law, ray_to_wad-pos law) (ap pos (omega arith))
