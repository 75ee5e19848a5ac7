-- ===== src/Scenario/Runs.antt =====
-- Reasoning on the functions of the suite: those that only read, and what the parts of a run did that
-- passes.
use palmy_protocol.Prelude.{
  ◌≡◌, refl, sym, ◌∙◌, ap, subst, Bool, true, false, Option, none, some, if◌then◌else◌,
}
use palmy_protocol.Scenario.{
  Suite, Outcome, passed, failed, Failure, pure, throw, read, continue, ◌>>=◌, assert, defined,
}

pub passed-eq :
    {W A : Type 0} {a b : A} {v w : W} → ◌≡◌ {A = Outcome A × W} (passed a, v) (passed b, w) → a ≡ b
passed-eq e = cc

pub not_passed :
    {W A : Type 0} {x : Failure} {b : A} {v w : W}
    → ◌≡◌ {A = Outcome A × W} (failed x, v) (passed b, w)
    → ⊥
not_passed e = absurd cc

module _ {W : Type 0} where
  -- The chain stays as it is, whether the function throws or not.
  pub record Reads {A : Type 0} (m : Suite W A) : Type 0 where
    pub keeps : (w : W) → (m w).1 ≡ w

  pub Reads-pure : {A : Type 0} (a : A) → Reads (pure a)
  Reads-pure a = record { keeps = λ w. refl }

  pub Reads-throw : {A : Type 0} (e : Failure) → Reads (throw {A = A} e)
  Reads-throw e = record { keeps = λ w. refl }

  pub Reads-read : {A : Type 0} (f : W → A) → Reads (read f)
  Reads-read f = record { keeps = λ w. refl }

  pub Reads-assert : (b : Bool) (e : Failure) → Reads (assert b e)
  Reads-assert true e = record { keeps = λ w. refl }
  Reads-assert false e = record { keeps = λ w. refl }

  pub Reads-defined : {A : Type 0} (o : Option A) → Reads (defined o)
  Reads-defined none = record { keeps = λ w. refl }
  Reads-defined (some a) = record { keeps = λ w. refl }

  Reads-continue :
      {A B : Type 0} (r : Outcome A) (f : A → Suite W B) (w v : W)
      → v ≡ w
      → ((a : A) → Reads (f a))
      → (continue r f v).1 ≡ w
  Reads-continue (passed a) f w v same fs = (fs a).keeps v ∙ same
  Reads-continue (failed e) f w v same fs = same

  pub Reads-bind :
      {A B : Type 0} {m : Suite W A} {f : A → Suite W B}
      → Reads m
      → ((a : A) → Reads (f a))
      → Reads (m >>= f)
  unfolding ◌>>=◌
  Reads-bind {m = m} {f = f} x fs = record {
    keeps = λ w. Reads-continue (m w).0 f w (m w).1 (x.keeps w) fs;
  }

  pub Reads-if :
      {A : Type 0} (b : Bool) {m n : Suite W A} → Reads m → Reads n → Reads (if b then m else n)
  Reads-if true x y = x
  Reads-if false x y = y

  pub Reads-elim :
      {A B : Type 0} (o : Option A) {m : Suite W B} {f : A → Suite W B}
      → Reads m
      → ((a : A) → Reads (f a))
      → Reads (elim o [ none ↦ m | some a ↦ f a ])
  Reads-elim none x fs = x
  Reads-elim (some a) x fs = fs a

  pub passed_unchanged :
      {A : Type 0} {m : Suite W A} {a : A} {w v : W} → Reads m → m w ≡ (passed a, v) → v ≡ w
  passed_unchanged {w = w} x e = ap (λ r. r.1) (sym e) ∙ x.keeps w

  -- A run that passes: its first part passed, and so did the rest after it.
  pub >>=-passed :
      {A B : Type 0} (m : Suite W A) (f : A → Suite W B) (w : W) {b : B} {v : W}
      → (m >>= f) w ≡ (passed b, v)
      → (a : A) × (u : W) × (m w ≡ (passed a, u)) × (f a u ≡ (passed b, v))
  unfolding ◌>>=◌
  >>=-passed {A = A} {B = B} m f w {b = b} {v = v} e = split (m w).0 (m w).1 refl e
    where
      split :
          (r : Outcome A) (u : W)
          → m w ≡ (r, u)
          → continue r f u ≡ (passed b, v)
          → (a : A) × (u : W) × (m w ≡ (passed a, u)) × (f a u ≡ (passed b, v))
      split (passed a) u e f = (a, u, e, f)
      split (failed x) u e f = cc

  -- The same after a part that only reads.
  pub bind_unchanged :
      {A B : Type 0} (m : Suite W A) (f : A → Suite W B) (w : W) {b : B} {v : W}
      → Reads m
      → (m >>= f) w ≡ (passed b, v)
      → (a : A) × (m w ≡ (passed a, w)) × (f a w ≡ (passed b, v))
  bind_unchanged {A = A} {B = B} m f w {b = b} {v = v} x e =
      let (a, u, first, rest) = >>=-passed m f w e in
      let same = passed_unchanged x first in
      (a, subst (λ k. m w ≡ (passed a, k)) same first, subst (λ k. f a k ≡ (passed b, v)) same rest)

  pub defined-passed :
      {A : Type 0} (o : Option A) (w : W) {a : A} {v : W} → defined o w ≡ (passed a, v) → o ≡ some a
  defined-passed none w e = cc
  defined-passed (some x) w e = ap some (passed-eq e)

  pub assert-passed :
      (b : Bool) (x : Failure) (w : W) {t : Unit {0}} {v : W}
      → assert b x w ≡ (passed t, v)
      → b ≡ true
  assert-passed true x w e = refl
  assert-passed false x w e = cc
