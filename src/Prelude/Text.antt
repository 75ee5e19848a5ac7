-- ===== src/Prelude/Text.antt =====
-- JavaScript objects as lists of their entries, in the order of `Object.entries`.
use Prim.Native.String.{String, ◌++◌}
use mathlib.Core.Path.{◌≡◌, refl}
use mathlib.Core.Bool.{Bool, true, false}
use mathlib.Core.Option.{Option, none, some}
use mathlib.Core.List.{List, [], ◌∷◌}
use native.Mathlib.Omega.{arith}
use text.Mathlib.Text.{◌==◌}
use text.Mathlib.TextEquality.{eq_iff}
use palmy_protocol.Prelude.Tests.{if◌then◌else◌}

-- a + b, and the template literals
infixr 5 ◌<>◌
abbrev pub ◌<>◌ : String → String → String
a <> b = a ++ b

abbrev pub str_eq : String → String → Bool
str_eq a b = a == b

-- The entries of an object: own keys, each once, in insertion order.
abbrev pub Dict {ℓ} : Type ℓ → Type ℓ
Dict V = List (String × V)

-- keys.includes(k)
abbrev pub includes : List String → String → Bool
includes [] k = false
includes (j ∷ js) k = if j == k then true else includes js k

module _ {ℓ} {V : Type ℓ} where
  -- Object.keys(m)
  abbrev pub keys : Dict V → List String
  keys [] = []
  keys ((j, v) ∷ m) = j ∷ keys m

  -- object[key]; `none` is undefined
  unfoldable pub lookup : String → Dict V → Option V
  lookup key [] = none
  lookup key (entry ∷ object) = if str_eq entry.0 key then some entry.1 else lookup key object

  -- object[key] = value: a key that is there keeps its place, a new one comes last
  unfoldable pub insert : String → V → Dict V → Dict V
  insert key value [] = (key, value) ∷ []
  insert key value (entry ∷ object) =
      if str_eq entry.0 key then (key, value) ∷ object else entry ∷ insert key value object

  -- A write is read back at its own key, and leaves the other keys as they are.
  pub lookup-insert :
      (key other : String) (value : V) (object : Dict V)
      → lookup other (insert key value object)
        ≡ (if str_eq key other then some value else lookup other object)
  unfolding lookup insert
  lookup-insert key other value [] = refl
  lookup-insert key other value (entry ∷ object) =
      let at_key = eq_iff entry.0 key in
      let at_other = eq_iff entry.0 other in
      ground (arith, at_key, at_other, eq_iff key other, lookup-insert key other value object)
