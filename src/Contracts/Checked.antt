-- ===== src/Contracts/Checked.antt =====
-- The contract's fixed-point operations are exact where they return, and they revert exactly where an
-- intermediate result does not fit a uint256 or a divisor is 0.
use native.Mathlib.Nat.{le-div_iff_mul-le, mod-eq_of_lt, div-eq_of_lt}
use palmy_protocol.Prelude.{
  ℕ, ◌+◌, ◌-◌, ◌*◌, ◌/◌, ◌<◌, ◌≤◌, ◌≡◌, ap, ◌∙◌, ◌↔◌, arith, none, some, ◌==◌, ◌||◌, true, false,
  leb, if◌then◌else◌, Bool-cases, inl, inr, sym, leb→le, le→leb, not_le→leb, not_leb→le,
}
use palmy_protocol.Contracts.{
  SafeMath, IsChecked, uint_max, wrap, fits, when_le, wad_unit, ray_unit, unit_ratio,
  percentage_unit, wad_mul, wad_div, ray_mul, ray_div, ray_to_wad, wad_to_ray, percent_mul,
  percent_div,
}

guard_exact : (n k b : ℕ) → 0 < b → k ≤ uint_max → (n ≤ (uint_max - k) / b) ↔ (n * b + k ≤ uint_max)
guard_exact n k b h small =
    let e = le-div_iff_mul-le {k = b} {x = n} {y = uint_max - k} h in
    (λ p. omega (arith, e.0 p), λ p. e.1 (omega arith))

fits-le : (n r : ℕ) → n ≤ uint_max → fits n r ≡ some r
fits-le n r h = ground arith

-- The guard of every operation: it passes exactly if the numerator fits, which then does not wrap.
guarded :
    (u a b k : ℕ)
    → 0 < b
    → k ≤ uint_max
    → when_le a ((uint_max - k) / b) (wrap (a * b + k) / u) ≡ fits (a * b + k) ((a * b + k) / u)
guarded u a b k h small = elim (Bool-cases (leb (a * b + k) uint_max)) [
  | inl e ↦
      let le : a * b + k ≤ uint_max = leb→le _ _ e in
      let whole : wrap (a * b + k) ≡ a * b + k = mod-eq_of_lt (omega arith) in
      rw (le→leb _ _ ((guard_exact a k b h small).1 le), whole, e)
  | inr e ↦ rw (e, not_le→leb _ _ (λ p. not_leb→le _ _ e ((guard_exact a k b h small).0 p)))
]

div-eq-zero : (unit n : ℕ) → n < unit → n / unit ≡ 0
div-eq-zero unit n h = div-eq_of_lt h

-- A product with a factor 0 is rounded to 0.
zero_product :
    (unit n : ℕ)
    → 0 < unit
    → unit ≤ uint_max
    → n ≡ 0
    → some 0 ≡ fits (n + unit / 2) ((n + unit / 2) / unit)
zero_product unit n h small e = rw e (
    sym (
      fits-le (0 + unit / 2) _ (omega arith)
      ∙ ap some (div-eq-zero unit (0 + unit / 2) (omega arith))))

product_zero : (a b : ℕ) → (a == 0 || b == 0) ≡ true → a * b ≡ 0
product_zero a b h = grind arith

right_positive : (a b : ℕ) → (a == 0 || b == 0) ≡ false → 0 < b
right_positive a b h = ground arith

positive_ne_zero : (b : ℕ) → 0 < b → ¬ ((b == 0) ≡ true)
positive_ne_zero b h e = ground arith

mul_shape-fits :
    (unit a b : ℕ)
    → 0 < unit
    → unit ≤ uint_max
    → (if a == 0 || b == 0
        then some 0
        else when_le a ((uint_max - unit / 2) / b) (wrap (a * b + unit / 2) / unit))
      ≡ fits (a * b + unit / 2) ((a * b + unit / 2) / unit)
mul_shape-fits unit a b h small = elim (Bool-cases (a == 0 || b == 0)) [
  | inl e ↦ rw e (zero_product unit (a * b) h small (product_zero a b e))
  | inr e ↦ rw e (guarded unit a b (unit / 2) (right_positive a b e) (omega arith))
]

div_shape-fits :
    (unit a b : ℕ)
    → 0 < unit
    → 0 < b
    → b ≤ uint_max
    → (if b == 0 then none else when_le a ((uint_max - b / 2) / unit) (wrap (a * unit + b / 2) / b))
      ≡ fits (a * unit + b / 2) ((a * unit + b / 2) / b)
div_shape-fits unit a b h pos small = elim (Bool-cases (b == 0)) [
  | inl e ↦ absurd (positive_ne_zero b pos e)
  | inr e ↦ rw e (guarded b a unit (b / 2) h (omega arith))
]

-- For all arguments `rayMul` of the contracts returns a b / RAY rounded half up, and reverts
-- exactly if a b + RAY / 2 does not fit a uint256.
pub ray_mul-fits :
    (a b : ℕ) → ray_mul a b ≡ fits (a * b + ray_unit / 2) ((a * b + ray_unit / 2) / ray_unit)
unfolding ray_mul
ray_mul-fits a b = mul_shape-fits ray_unit a b (omega arith) (omega arith)

pub wad_mul-fits :
    (a b : ℕ) → wad_mul a b ≡ fits (a * b + wad_unit / 2) ((a * b + wad_unit / 2) / wad_unit)
unfolding wad_mul
wad_mul-fits a b = mul_shape-fits wad_unit a b (omega arith) (omega arith)

pub percent_mul-fits :
    (a b : ℕ)
    → percent_mul a b
      ≡ fits (a * b + percentage_unit / 2) ((a * b + percentage_unit / 2) / percentage_unit)
unfolding percent_mul
percent_mul-fits a b = mul_shape-fits percentage_unit a b (omega arith) (omega arith)

pub ray_div-fits :
    (a b : ℕ)
    → 0 < b
    → b ≤ uint_max
    → ray_div a b ≡ fits (a * ray_unit + b / 2) ((a * ray_unit + b / 2) / b)
unfolding ray_div
ray_div-fits a b h small = div_shape-fits ray_unit a b (omega arith) h small

pub wad_div-fits :
    (a b : ℕ)
    → 0 < b
    → b ≤ uint_max
    → wad_div a b ≡ fits (a * wad_unit + b / 2) ((a * wad_unit + b / 2) / b)
unfolding wad_div
wad_div-fits a b h small = div_shape-fits wad_unit a b (omega arith) h small

pub percent_div-fits :
    (a b : ℕ)
    → 0 < b
    → b ≤ uint_max
    → percent_div a b ≡ fits (a * percentage_unit + b / 2) ((a * percentage_unit + b / 2) / b)
unfolding percent_div
percent_div-fits a b h small = div_shape-fits percentage_unit a b (omega arith) h small

-- `wadToRay` checks after the fact that its product has not wrapped.
pub wad_to_ray-fits : (a : ℕ) → wad_to_ray a ≡ fits (a * unit_ratio) (a * unit_ratio)
unfolding wad_to_ray
wad_to_ray-fits a = ground arith

pub ray_to_wad-fits :
    (a : ℕ)
    → a ≤ uint_max
    → ray_to_wad a ≡ fits (unit_ratio / 2 + a) ((unit_ratio / 2 + a) / unit_ratio)
unfolding ray_to_wad
ray_to_wad-fits a h = ground arith

-- What a checked computation returns is its value.
pub fits-value : (n r : ℕ) {s : ℕ} → fits n r ≡ some s → r ≡ s
fits-value n r h = ground arith

pub fits-bound : (n r : ℕ) {s : ℕ} → fits n r ≡ some s → n ≤ uint_max
fits-bound n r h = ground arith

module _ ⦃safe : SafeMath⦄ (checked : IsChecked safe) where
  open safe use {add, sub, mul}
  open checked use {add_exact, sub_exact, mul_exact}

  pub add-value : (a b : ℕ) {r : ℕ} → add a b ≡ some r → r ≡ a + b
  add-value a b h = sym (fits-value (a + b) (a + b) (sym (add_exact a b) ∙ h))

  pub mul-value : (a b : ℕ) {r : ℕ} → mul a b ≡ some r → r ≡ a * b
  mul-value a b h = sym (fits-value (a * b) (a * b) (sym (mul_exact a b) ∙ h))

  pub sub-value : (a b : ℕ) {r : ℕ} → sub a b ≡ some r → (b ≤ a) × (r ≡ a - b)
  sub-value a b h =
      let e : (if leb b a then some (a - b) else none) ≡ some _ = sym (sub_exact a b) ∙ h in
      ground arith
