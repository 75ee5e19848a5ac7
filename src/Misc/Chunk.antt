-- ===== src/Misc/Chunk.antt =====
-- `chunk` of helpers/misc-utils.ts cuts an array without losing, repeating or reordering anything.
use native.Mathlib.Nat.{mul-mod_left, mod-add-mod, mod-eq_of_lt}
use palmy_protocol.Prelude.{
  ℕ, zero, suc, ◌+◌, ◌-◌, ◌*◌, ◌%◌, ◌≤◌, ◌<◌, ◌≡◌, refl, sym, ap, subst, ◌∙◌, true, false, List, [],
  ◌∷◌, ◌++◌, arith, length, take, drop, flatten, All, take-of_le, take-add, drop-suc,
  flatten-append, All-append, length-append, length-take, length-drop,
}
use palmy_protocol.Misc.{starts_chunk, slice, chunk_loop, chunk}

-- `gap` is the way from `index` to the next multiple of `size`.
record AtGap (size index gap count : ℕ) : Type 0 where
  positive : 0 < size
  reach : index + gap ≡ count * size
  short : gap < size

starts_at_zero : {size index count : ℕ} → AtGap size index 0 count → starts_chunk index size ≡ true
starts_at_zero {size} {index} {count} a =
    let e : index ≡ count * size = omega (arith, a.reach) in
    ground (arith, a.positive, mul-mod_left count size, ap (λ (t : ℕ). t % size) e)

starts_not :
    {size index gap count : ℕ} → AtGap size index (suc gap) count → starts_chunk index size ≡ false
starts_not {size} {index} {gap} {count} a = ground (
  arith,
  a.positive,
  a.short,
  mod-add-mod index size (suc gap),
  mod-eq_of_lt a.short,
  ap (λ (t : ℕ). t % size) a.reach,
  mul-mod_left count size,
)

-- The gap after a chunk starts, and between two starts.
AtGap-start :
    {size index count : ℕ}
    → AtGap size index 0 count
    → AtGap size (suc index) (size - 1) (suc count)
AtGap-start a = record {
  positive = a.positive;
  reach = omega (arith, a.reach, a.positive);
  short = omega (arith, a.positive);
}

AtGap-next :
    {size index gap count : ℕ} → AtGap size index (suc gap) count → AtGap size (suc index) gap count
AtGap-next a = record {
  positive = a.positive;
  reach = omega (arith, a.reach);
  short = omega (arith, a.short);
}

module _ {ℓ} {A : Type ℓ} (arr : List A) (size : ℕ) where
  -- What the loop has gathered before it reads the element at `index`.
  record Gathered (index gap : ℕ) (prev : List (List A)) : Type ℓ where
    at_gap : AtGap size index gap (length prev)
    covers : flatten prev ≡ take (index + gap) arr
    bounded : All (λ c. (0 < length c) × (length c ≤ size)) prev

  Gathered-push :
      {index : ℕ} {prev : List (List A)}
      → index < length arr
      → Gathered index 0 prev
      → Gathered (suc index) (size - 1) (prev ++ (slice arr index size ∷ []))
  Gathered-push {index} {prev} more g = record {
    at_gap = rw counted (AtGap-start g.at_gap);
    covers =
        flatten-append prev (slice arr index size)
        ∙ ap (λ t. t ++ slice arr index size) (g.covers ∙ ap (λ n. take n arr) (omega arith))
        ∙ sym (take-add index size arr)
        ∙ ap (λ n. take n arr) (omega (arith, g.at_gap.positive));
    bounded =
        All-append (λ c. (0 < length c) × (length c ≤ size)) prev g.bounded
          (omega (
            arith,
            g.at_gap.positive,
            length-take {ℓ} size (drop index arr),
            length-drop {ℓ} index arr,
          ));
  }
    where
      counted : length (prev ++ (slice arr index size ∷ [])) ≡ suc (length prev)
      counted = omega (arith, length-append prev (slice arr index size ∷ []))

  Gathered-skip :
      {index gap : ℕ} {prev : List (List A)}
      → Gathered index (suc gap) prev
      → Gathered (suc index) gap prev
  Gathered-skip g = record {
    at_gap = AtGap-next g.at_gap;
    covers = g.covers ∙ ap (λ n. take n arr) (omega arith);
    bounded = g.bounded;
  }

  chunk_loop-Gathered :
      (index gap : ℕ) (xs : List A) (prev : List (List A))
      → drop index arr ≡ xs
      → index + length xs ≡ length arr
      → Gathered index gap prev
      → (g : ℕ) × Gathered (length arr) g (chunk_loop arr size index xs prev)
  unfolding chunk_loop
  chunk_loop-Gathered index gap [] prev rest n g =
      let e : index ≡ length arr = omega arith in (gap, subst (λ k. Gathered k gap prev) e g)
  chunk_loop-Gathered index zero (x ∷ xs) prev rest n g = rw (starts_at_zero g.at_gap) (
      chunk_loop-Gathered (suc index) (size - 1) xs (prev ++ (slice arr index size ∷ []))
        (drop-suc index arr rest) (omega arith) (Gathered-push (omega arith) g))
  chunk_loop-Gathered index (suc gap) (x ∷ xs) prev rest n g = rw (starts_not g.at_gap) (
      chunk_loop-Gathered (suc index) gap xs prev (drop-suc index arr rest) (omega arith)
        (Gathered-skip g))

  Gathered-start : 0 < size → Gathered 0 0 []
  Gathered-start h = record {
    at_gap = record { positive = h; reach = omega arith; short = h };
    covers = refl;
    bounded = tt;
  }

  gathered : 0 < size → (g : ℕ) × Gathered (length arr) g (chunk arr size)
  unfolding chunk
  gathered h = chunk_loop-Gathered 0 0 arr [] refl (omega arith) (Gathered-start h)

  -- For a positive size the chunks, joined in order, are the array; none is empty and none is longer
  -- than the size; and their number is the quotient of the length by the size, rounded up.
  pub chunk_partition :
      0 < size
      → (flatten (chunk arr size) ≡ arr)
        × All (λ c. (0 < length c) × (length c ≤ size)) (chunk arr size)
        × (length arr ≤ length (chunk arr size) * size)
        × (length (chunk arr size) * size < length arr + size)
  chunk_partition h =
      let (gap, g) = gathered h in
      (
        g.covers ∙ take-of_le (length arr + gap) arr (omega arith),
        g.bounded,
        omega (arith, g.at_gap.reach),
        omega (arith, g.at_gap.reach, g.at_gap.short),
      )
