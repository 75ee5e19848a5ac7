-- ===== src/Examples/Math.antt =====
-- math.ts and the contracts' arithmetic at concrete inputs.
use palmy_protocol.Prelude.{ℕ, ◌+◌, ◌*◌, ◌≤◌, ◌^◌, ◌/◌, ◌≡◌, refl, arith, none}
use palmy_protocol.Prelude.Int.{pos, ◌+ℤ◌, ◌*ℤ◌}
use palmy_protocol.Number.{exact_lib, exact_lib-IsTruncating}
use palmy_protocol.Math
use palmy_protocol.Math.{ray_const}
use palmy_protocol.Math.Rounding.{IsNearest, ray-IsNearest, ray_mul-ray_div}
use palmy_protocol.Contracts
use palmy_protocol.Contracts.Checked.{ray_mul-fits}
use palmy_protocol.Contracts.Agreement.{ray_mul_agrees, ray_div_agrees}

half_up : Math.ray_mul ⦃lib = exact_lib⦄ (pos (15 * 10 ^ 26)) (pos 3) ≡ pos 5
unfolding Math.ray_mul Math.half_ray ◌+ℤ◌ ◌*ℤ◌
half_up = refl

overflow : Contracts.ray_mul (2 ^ 200) (2 ^ 56) ≡ none
unfolding Contracts.ray_mul
overflow = refl

ray-IsNearest_example :
    ((r : ℕ) × (Math.ray_mul ⦃lib = exact_lib⦄ (pos 7) (pos 3) ≡ pos r)
      × IsNearest (7 * 3) ray_const r)
    × ((r : ℕ) × (Math.ray_div ⦃lib = exact_lib⦄ (pos 7) (pos 3) ≡ pos r)
        × IsNearest (7 * ray_const) 3 r)
ray-IsNearest_example = ray-IsNearest ⦃lib = exact_lib⦄ exact_lib-IsTruncating 7 3 (omega arith)

ray_mul-ray_div_example :
    (m : ℕ) × (Math.ray_mul ⦃lib = exact_lib⦄
        (Math.ray_div ⦃lib = exact_lib⦄ (pos 1000) (pos (11 * 10 ^ 26)))
        (pos (11 * 10 ^ 26))
      ≡ pos m)
    × (2 * ray_const * m ≤ 2 * ray_const * 1000 + 11 * 10 ^ 26 + ray_const)
    × (2 * ray_const * 1000 ≤ 2 * ray_const * m + 11 * 10 ^ 26 + ray_const)
ray_mul-ray_div_example =
    ray_mul-ray_div ⦃lib = exact_lib⦄ exact_lib-IsTruncating 1000 (11 * 10 ^ 26) (omega arith)

ray_mul-fits_example :
    Contracts.ray_mul (2 ^ 200) (2 ^ 56)
    ≡ Contracts.fits
        (2 ^ 200 * 2 ^ 56 + Contracts.ray_unit / 2)
        ((2 ^ 200 * 2 ^ 56 + Contracts.ray_unit / 2) / Contracts.ray_unit)
ray_mul-fits_example = ray_mul-fits (2 ^ 200) (2 ^ 56)

ray_mul_agrees_example : Math.ray_mul ⦃lib = exact_lib⦄ (pos (15 * 10 ^ 26)) (pos 3) ≡ pos 5
unfolding Contracts.ray_mul
ray_mul_agrees_example =
    ray_mul_agrees ⦃lib = exact_lib⦄ exact_lib-IsTruncating (15 * 10 ^ 26) 3 refl

ray_div_agrees_example :
    Math.ray_div ⦃lib = exact_lib⦄ (pos 1) (pos 3) ≡ pos 333333333333333333333333333
unfolding Contracts.ray_div
ray_div_agrees_example =
    ray_div_agrees ⦃lib = exact_lib⦄ exact_lib-IsTruncating 1 3 (omega arith) refl
