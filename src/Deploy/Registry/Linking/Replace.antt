-- ===== src/Deploy/Registry/Linking/Replace.antt =====
-- Characters that are replaced in the middle of a list, as `linkBytecode` of helpers/contracts-helpers.ts
-- does.
use palmy_protocol.Prelude.{
  ℕ, zero, suc, ◌+◌, ◌-◌, ◌≤◌, ◌≡◌, refl, ap, true, ◌&&◌, List, [], ◌∷◌, ◌++◌, length, get_elem?,
  take, drop, ltb, leb, if◌then◌else◌, arith, length-append, length-take, length-drop,
}

module _ {A : Type 0} where
  -- Where the first characters are replaced by as many others.
  replace_first :
      (ys xs : List A) (p : ℕ)
      → length ys ≤ length xs
      → get_elem? (ys ++ drop (length ys) xs) p
        ≡ (if ltb p (length ys) then get_elem? ys p else get_elem? xs p)
  replace_first [] xs p h = ground arith
  replace_first (y ∷ ys) [] p h = absurd (omega arith)
  replace_first (y ∷ ys) (x ∷ xs) zero h = ground arith
  replace_first (y ∷ ys) (x ∷ xs) (suc p) h = ground (arith, replace_first ys xs p (omega arith))

  -- Where characters in the middle, from `i` to `j`, are.
  pub replace_middle :
      (i j : ℕ) (ys xs : List A) (p : ℕ)
      → j ≡ i + length ys
      → j ≤ length xs
      → get_elem? (take i xs ++ (ys ++ drop j xs)) p
        ≡ (if leb i p && ltb p j then get_elem? ys (p - i) else get_elem? xs p)
  replace_middle zero j ys xs p e h =
      let here : j ≡ length ys = omega arith in
      let first : leb 0 p ≡ true = ground arith in
      let same : p - 0 ≡ p = omega arith in
      rw (here, first, same) (replace_first ys xs p (omega arith))
  replace_middle (suc i) zero ys xs p e h = absurd (omega arith)
  replace_middle (suc i) (suc j) ys [] p e h = absurd (omega arith)
  replace_middle (suc i) (suc j) ys (x ∷ xs) zero e h = ground arith
  replace_middle (suc i) (suc j) ys (x ∷ xs) (suc p) e h =
      let from : leb (suc i) (suc p) ≡ leb i p = ground arith in
      let to : ltb (suc p) (suc j) ≡ ltb p j = ground arith in
      let shifted : suc p - suc i ≡ p - i = omega arith in
      rw (from, to, shifted) (replace_middle i j ys xs p (omega arith) (omega arith))

  pub replace_middle-length :
      (i j : ℕ) (ys xs : List A)
      → j ≡ i + length ys
      → j ≤ length xs
      → length (take i xs ++ (ys ++ drop j xs)) ≡ length xs
  replace_middle-length i j ys xs e h = omega (
    arith,
    length-append (take i xs) (ys ++ drop j xs),
    length-append ys (drop j xs),
    length-take i xs,
    length-drop j xs,
  )

  pub get_elem?-drop : (n p : ℕ) (xs : List A) → get_elem? (drop n xs) p ≡ get_elem? xs (n + p)
  get_elem?-drop zero p xs = ap (get_elem? xs) (omega arith)
  get_elem?-drop (suc n) p [] = refl
  get_elem?-drop (suc n) p (x ∷ xs) =
      let next : suc n + p ≡ suc (n + p) = omega arith in rw next (get_elem?-drop n p xs)
