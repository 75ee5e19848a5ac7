-- ===== src/Misc.antt =====
-- The pure helpers of helpers/misc-utils.ts: `chunk`, `filterMapBy`, `omit` and
-- `notFalsyOrZeroAddress`. An object is the list of its entries; the keys in question are asset
-- symbols, so the reordering of integer-like keys by JavaScript is not modelled.
pub mod Chunk
pub mod Maps
pub mod Map
use palmy_protocol.Prelude.{
  ℕ, zero, suc, ◌+◌, ◌%◌, String, Bool, true, false, not, ◌&&◌, ◌||◌, Option, none, some, List, [],
  ◌∷◌, ◌++◌, ◌==◌, if◌then◌else◌, take, drop, Dict, keys, lookup, insert, includes, str_eq,
}

-- !(index % size): the remainder by 0 is NaN, which is falsy too
abbrev pub starts_chunk : ℕ → ℕ → Bool
starts_chunk index size = size == 0 || index % size == 0

module _ {ℓ} {A : Type ℓ} where
  -- arr.slice(from, from + size)
  abbrev pub slice : List A → ℕ → ℕ → List A
  slice arr from size = take size (drop from arr)

  -- the reduce of `chunk`: the array, the size, the index, the rest of the array, prevVal
  unfoldable pub chunk_loop : List A → ℕ → ℕ → List A → List (List A) → List (List A)
  chunk_loop arr size index [] prev = prev
  chunk_loop arr size index (x ∷ xs) prev =
      chunk_loop arr size (suc index) xs
        (if starts_chunk index size then prev ++ (slice arr index size ∷ []) else prev)

  unfoldable pub chunk : List A → ℕ → List (List A)
  chunk arr size = chunk_loop arr size 0 arr []

module _ {ℓ} {V : Type ℓ} where
  -- obj[key] = raw[key]
  unfoldable pub assign : Dict V → Dict V → String → Dict V
  assign raw obj key = elim (lookup key raw) [ none ↦ obj | some v ↦ insert key v obj ]

  -- Object.keys(raw).filter(fn).reduce(…)
  unfoldable pub filter_map_loop : Dict V → (String → Bool) → List String → Dict V → Dict V
  filter_map_loop raw fn [] obj = obj
  filter_map_loop raw fn (key ∷ ks) obj =
      filter_map_loop raw fn ks (if fn key then assign raw obj key else obj)

  unfoldable pub filter_map_by : Dict V → (String → Bool) → Dict V
  filter_map_by raw fn = filter_map_loop raw fn (keys raw) []

  -- the reduce of `omit`
  unfoldable pub omit_loop : Dict V → List String → List String → Dict V → Dict V
  omit_loop obj dropped [] acc = acc
  omit_loop obj dropped (curr ∷ ks) acc =
      omit_loop obj dropped ks (if includes dropped curr then acc else assign obj acc curr)

  unfoldable pub omit : Dict V → List String → Dict V
  omit obj dropped = omit_loop obj dropped (keys obj) []

-- `isAddress` of ethers and `isZeroAddress` of ethereumjs-util
pub record AddressTests : Type 0 where
  pub is_address : String → Bool
  pub is_zero_address : String → Bool

-- `none` is null or undefined; the empty string is falsy too
unfoldable pub not_falsy_or_zero_address : AddressTests → Option String → Bool
not_falsy_or_zero_address tests none = false
not_falsy_or_zero_address tests (some a) =
    if str_eq a "" then false else tests.is_address a && not (tests.is_zero_address a)
