-- ===== src/Scenario/Compare/Near.antt =====
-- What a comparison that passes says of the two numbers, and of all properties
-- (test-suites/test-palmy/helpers/actions.ts).
use palmy_protocol.Prelude.{
  ◌≡◌, ◌↔◌, ℕ, ◌≤◌, subst, Bool, true, false, ◌||◌, String, List, [], ◌∷◌, All, arith,
  if◌then◌else◌, ◌==◌, ◌+◌,
}
use palmy_protocol.Prelude.Int.{ℤ, pos, ◌+ℤ◌, ◌≤ℤ◌, eq_ℤ, pos_part, neg_part, +ℤ_parts}
use palmy_protocol.Number.{BigNumberLib, IsTruncating}
use palmy_protocol.Scenario.{TestEnv, passed, pure, unexpected, assert}
use palmy_protocol.Scenario.Runs.{
  Reads, Reads-pure, Reads-bind, Reads-assert, Reads-if, bind_unchanged, assert-passed,
}
use palmy_protocol.Scenario.Compare.{almost_equal, assert_all, expect_equal}

-- Neither is more than three above the other.
abbrev pub IsNear : ℤ → ℤ → Type 0
IsNear a e = (a ≤ℤ e +ℤ pos 3) × (e ≤ℤ a +ℤ pos 3)

-- The two parts of a difference, as numbers.
shift_left :
    (a e : ℤ) (k : ℕ)
    → eq_ℤ (a +ℤ pos k) e ≡ (pos_part a + neg_part e + k == pos_part e + neg_part a)
shift_left a e k = let sum = +ℤ_parts a (pos k) in ground arith

shift_right :
    (a e : ℤ) (k : ℕ)
    → eq_ℤ a (e +ℤ pos k) ≡ (pos_part a + neg_part e == pos_part e + neg_part a + k)
shift_right a e k = let sum = +ℤ_parts e (pos k) in ground arith

off_by_three :
    (p q : ℕ)
    → ((p == q || p + 1 == q || p == q + 1 || p + 2 == q || p == q + 2 || p + 3 == q || p == q + 3)
        ≡ true)
      ↔ ((p ≤ q + 3) × (q ≤ p + 3))
off_by_three p q = (λ h. ground arith, λ h. ground arith)

IsNear-parts :
    (a e : ℤ)
    → IsNear a e ↔ (
        (pos_part a + neg_part e ≤ pos_part e + neg_part a + 3)
        × (pos_part e + neg_part a ≤ pos_part a + neg_part e + 3))
IsNear-parts a e =
    let up = +ℤ_parts e (pos 3) in
    let down = +ℤ_parts a (pos 3) in
    (λ h. (omega arith, omega arith), λ h. (omega arith, omega arith))

module _ ⦃lib : BigNumberLib⦄ (law : IsTruncating lib) where
  -- With a BigNumber division that truncates: two numbers are almost equal exactly if neither is more
  -- than three above the other.
  pub almost_equal_iff : (a e : ℤ) → (almost_equal a e ≡ true) ↔ IsNear a e
  unfolding almost_equal
  almost_equal_iff a e =
      let parts = IsNear-parts a e in
      let near = off_by_three (pos_part a + neg_part e) (pos_part e + neg_part a) in
      rw
        (
          law.floor_places_id a,
          law.floor_places_id e,
          shift_left a e 1,
          shift_right a e 1,
          shift_left a e 2,
          shift_right a e 2,
          shift_left a e 3,
          shift_right a e 3,
        )
        (λ h. parts.1 (near.0 h), λ h. near.1 (parts.0 h))

-- All checks hold.
abbrev pub IsTrue : String × Bool → Type 0
IsTrue check = check.1 ≡ true

module _ {W : Type 0} where
  pub assert_all-Reads : (checks : List (String × Bool)) → Reads (assert_all {W = W} checks)
  unfolding assert_all
  assert_all-Reads [] = Reads-pure tt
  assert_all-Reads ((key, same) ∷ checks) =
      Reads-bind (Reads-assert same (unexpected key)) (λ _. assert_all-Reads checks)

  assert_all-passed :
      (checks : List (String × Bool)) (w : W) {v : W}
      → assert_all checks w ≡ (passed tt, v)
      → All IsTrue checks
  unfolding assert_all
  assert_all-passed [] w e = tt
  assert_all-passed ((key, same) ∷ checks) w e =
      let (_, first, rest) =
        bind_unchanged (assert same (unexpected key)) (λ _. assert_all checks) w
          (Reads-assert same (unexpected key)) e in
      (assert-passed same (unexpected key) w first, assert_all-passed checks w rest)

module _ {W : Type 0} ⦃env : TestEnv W⦄ ⦃lib : BigNumberLib⦄ where
  pub expect_equal-Reads : (checks : List (String × Bool)) → Reads {W = W} (expect_equal checks)
  unfolding expect_equal
  expect_equal-Reads checks =
      Reads-if env.skip_integrity_check (Reads-pure tt) (assert_all-Reads checks)

  pub expect_equal-passed :
      (checks : List (String × Bool)) (w : W) {v : W}
      → env.skip_integrity_check ≡ false
      → expect_equal checks w ≡ (passed tt, v)
      → All IsTrue checks
  unfolding expect_equal
  expect_equal-passed checks w {v = v} on e =
      assert_all-passed checks w
        (subst (λ b. (if b then pure tt else assert_all checks) w ≡ (passed tt, v)) on e)
