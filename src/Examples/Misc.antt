-- ===== src/Examples/Misc.antt =====
-- helpers/misc-utils.ts at concrete inputs.
use palmy_protocol.Prelude.{
  ℕ, ◌+◌, ◌*◌, ◌≤◌, ◌<◌, ◌≡◌, refl, true, false, List, [], ◌∷◌, none, some, arith, Dict, lookup,
  insert, length, flatten, All, str_eq,
}
use palmy_protocol.Misc.{
  chunk, chunk_loop, filter_map_by, filter_map_loop, assign, omit, omit_loop, AddressTests,
  not_falsy_or_zero_address,
}
use palmy_protocol.Misc.Chunk.{chunk_partition}

abbrev five : List ℕ
five = 1 ∷ 2 ∷ 3 ∷ 4 ∷ 5 ∷ []

chunk_of_two : chunk five 2 ≡ (1 ∷ 2 ∷ []) ∷ (3 ∷ 4 ∷ []) ∷ (5 ∷ []) ∷ []
unfolding chunk chunk_loop
chunk_of_two = refl

-- A size of 0 gives an empty chunk for every element.
chunk_of_zero : chunk {A = ℕ} (1 ∷ 2 ∷ []) 0 ≡ [] ∷ [] ∷ []
unfolding chunk chunk_loop
chunk_of_zero = refl

chunk_partition_example :
    (flatten (chunk five 2) ≡ five)
    × All (λ c. (0 < length c) × (length c ≤ 2)) (chunk five 2)
    × (length five ≤ length (chunk five 2) * 2)
    × (length (chunk five 2) * 2 < length five + 2)
chunk_partition_example = chunk_partition five 2 (omega arith)

abbrev prices : Dict ℕ
prices = ("WETH", 10) ∷ ("USDC", 1) ∷ ("WOAS", 2) ∷ []

filtered : filter_map_by prices (λ k. str_eq k "USDC") ≡ ("USDC", 1) ∷ []
unfolding filter_map_by filter_map_loop assign lookup insert
filtered = refl

omitted : omit prices ("USDC" ∷ []) ≡ ("WETH", 10) ∷ ("WOAS", 2) ∷ []
unfolding omit omit_loop assign lookup insert
omitted = refl

abbrev some_tests : AddressTests
some_tests = record { is_address = λ s. true; is_zero_address = λ s. str_eq s "0x0" }

address_tests :
    (not_falsy_or_zero_address some_tests none ≡ false)
    × (not_falsy_or_zero_address some_tests (some "") ≡ false)
    × (not_falsy_or_zero_address some_tests (some "0x0") ≡ false)
    × (not_falsy_or_zero_address some_tests (some "0x1") ≡ true)
unfolding not_falsy_or_zero_address
address_tests = (refl, refl, refl, refl)
