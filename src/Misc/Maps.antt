-- ===== src/Misc/Maps.antt =====
-- `filterMapBy` and `omit` of helpers/misc-utils.ts keep the wanted entries with their values.
use palmy_protocol.Prelude.{
  ◌≡◌, refl, ◌∙◌, String, Bool, true, false, not, ◌&&◌, Option, none, some, List, [], ◌∷◌, arith,
  eq_iff, Bool-cases, if◌then◌else◌, str_eq, Dict, keys, lookup, insert, includes, lookup-insert,
  inl, inr,
}
use palmy_protocol.Misc.{assign, filter_map_loop, filter_map_by, omit_loop, omit}

module _ {ℓ} {V : Type ℓ} where
  abbrev or_else : Option V → Option V → Option V
  or_else none o = o
  or_else (some v) o = some v

  -- the entry of `raw` at `k`, for a key that is wanted, over what was there
  abbrev over : Bool → Option V → Option V → Option V
  over b r o = if b then or_else r o else o

  lookup-assign :
      (raw obj : Dict V) (key k : String)
      → lookup k (assign raw obj key) ≡ over (str_eq key k) (lookup key raw) (lookup k obj)
  unfolding assign
  lookup-assign raw obj key k = go (lookup key raw)
    where
      go :
          (r : Option V)
          → lookup k (elim r [ none ↦ obj | some v ↦ insert key v obj ])
            ≡ over (str_eq key k) r (lookup k obj)
      go none = ground arith
      go (some v) = lookup-insert key k v obj

  lookup-filter_map_loop :
      (raw : Dict V) (fn : String → Bool) (ks : List String) (obj : Dict V) (k : String)
      → lookup k (filter_map_loop raw fn ks obj)
        ≡ over (includes ks k && fn k) (lookup k raw) (lookup k obj)
  unfolding filter_map_loop
  lookup-filter_map_loop raw fn [] obj k = refl
  lookup-filter_map_loop raw fn (key ∷ ks) obj k = elim (Bool-cases (fn key)) [
    | inl wanted ↦ rw wanted (
        ground (
          arith,
          lookup-filter_map_loop raw fn ks (assign raw obj key) k,
          lookup-assign raw obj key k,
          eq_iff key k,
        ))
    | inr unwanted ↦
        rw unwanted (ground (arith, lookup-filter_map_loop raw fn ks obj k, eq_iff key k))
  ]

  includes-keys :
      (m : Dict V) (k : String) → over (includes (keys m) k) (lookup k m) none ≡ lookup k m
  unfolding lookup
  includes-keys [] k = refl
  includes-keys ((j, v) ∷ m) k = ground (arith, includes-keys m k)

  -- A key has its old value in `filterMapBy raw fn` if the predicate accepts it, and none otherwise.
  pub lookup-filter_map_by :
      (raw : Dict V) (fn : String → Bool) (k : String)
      → lookup k (filter_map_by raw fn) ≡ (if fn k then lookup k raw else none)
  unfolding filter_map_by lookup
  lookup-filter_map_by raw fn k =
      ground (arith, lookup-filter_map_loop raw fn (keys raw) [] k, includes-keys raw k)

  -- `omit` is `filterMapBy` with the keys that are not listed.
  omit_loop-eq :
      (obj : Dict V) (dropped ks : List String) (acc : Dict V)
      → omit_loop obj dropped ks acc ≡ filter_map_loop obj (λ k. not (includes dropped k)) ks acc
  unfolding omit_loop filter_map_loop
  omit_loop-eq obj dropped [] acc = refl
  omit_loop-eq obj dropped (k ∷ ks) acc = elim (Bool-cases (includes dropped k)) [
    | inl e ↦ rw e (omit_loop-eq obj dropped ks acc)
    | inr e ↦ rw e (omit_loop-eq obj dropped ks (assign obj acc k))
  ]

  flip : (b : Bool) (o : Option V) → (if not b then o else none) ≡ (if b then none else o)
  flip true o = refl
  flip false o = refl

  -- A key of `omit obj dropped` has its old value if it is not among the dropped ones, and none
  -- otherwise.
  pub lookup-omit :
      (obj : Dict V) (dropped : List String) (k : String)
      → lookup k (omit obj dropped) ≡ (if includes dropped k then none else lookup k obj)
  unfolding omit filter_map_by
  lookup-omit obj dropped k =
      let fn : String → Bool = λ j. not (includes dropped j) in
      rw (omit_loop-eq obj dropped (keys obj) [])
        (lookup-filter_map_by obj fn k ∙ flip (includes dropped k) (lookup k obj))
