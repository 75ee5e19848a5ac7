-- ===== src/Misc/Map.antt =====
-- `chunk` (helpers/misc-utils.ts) of a mapped array.
use palmy_protocol.Prelude.{
  ℕ, zero, suc, ◌≡◌, refl, sym, ◌∙◌, ap, Bool, true, false, List, [], ◌∷◌, ◌++◌, map, take, drop,
  if◌then◌else◌,
}
use palmy_protocol.Misc.{starts_chunk, slice, chunk_loop, chunk}

module _ {A B : Type 0} (f : A → B) where
  map-append : (xs ys : List A) → map f (xs ++ ys) ≡ map f xs ++ map f ys
  map-append [] ys = refl
  map-append (x ∷ xs) ys = ap (◌∷◌ (f x)) (map-append xs ys)

  take-map : (n : ℕ) (xs : List A) → take n (map f xs) ≡ map f (take n xs)
  take-map zero xs = refl
  take-map (suc n) [] = refl
  take-map (suc n) (x ∷ xs) = ap (◌∷◌ (f x)) (take-map n xs)

  drop-map : (n : ℕ) (xs : List A) → drop n (map f xs) ≡ map f (drop n xs)
  drop-map zero xs = refl
  drop-map (suc n) [] = refl
  drop-map (suc n) (x ∷ xs) = drop-map n xs

  slice-map :
      (xs : List A) (start size : ℕ) → slice (map f xs) start size ≡ map f (slice xs start size)
  slice-map xs start size = ap (take size) (drop-map start xs) ∙ take-map size (drop start xs)

module _ {A B : Type 0} (f : A → B) (arr : List A) (size : ℕ) where
  push-map :
      (index : ℕ) (prev : List (List A)) (start : Bool)
      → (if start
          then map (map f) prev ++ (slice (map f arr) index size ∷ [])
          else map (map f) prev)
        ≡ map (map f) (if start then prev ++ (slice arr index size ∷ []) else prev)
  push-map index prev true =
      ap (λ s. map (map f) prev ++ (s ∷ [])) (slice-map f arr index size)
      ∙ sym (map-append (map f) prev (slice arr index size ∷ []))
  push-map index prev false = refl

  chunk_loop-map :
      (index : ℕ) (rest : List A) (prev : List (List A))
      → chunk_loop (map f arr) size index (map f rest) (map (map f) prev)
        ≡ map (map f) (chunk_loop arr size index rest prev)
  unfolding chunk_loop
  chunk_loop-map index [] prev = refl
  chunk_loop-map index (x ∷ rest) prev =
      ap (chunk_loop (map f arr) size (suc index) (map f rest))
        (push-map index prev (starts_chunk index size))
      ∙ chunk_loop-map (suc index) rest _

  -- The chunks of a mapped array are the mapped chunks.
  pub chunk-map : chunk (map f arr) size ≡ map (map f) (chunk arr size)
  unfolding chunk
  chunk-map = chunk_loop-map 0 arr []
