-- ===== src/Deploy/Registry/Linking/Positions.antt =====
-- What `linkBytecode` of helpers/contracts-helpers.ts puts at each position of the byte code.
use palmy_protocol.Prelude.{
  ℕ, ◌+◌, ◌-◌, ◌*◌, ◌≤◌, ◌≡◌, refl, sym, subst, ◌∙◌, ap, ◌&&◌, Option, none, some, List, [], ◌∷◌,
  ◌++◌, All, length, get_elem?, drop, ltb, leb, if◌then◌else◌, Dict, lookup, arith, length-drop,
}
use palmy_protocol.Deploy.Registry.Linking.Replace.{
  replace_middle, replace_middle-length, get_elem?-drop,
}
use palmy_protocol.Deploy.Registry.Linking.{
  Fixup, LinkReferences, link_fixup, link_fixups, link_library, link_file, link_bytecode,
}

-- One address for one place.
abbrev pub Patch : Type 0 → Type 0
Patch A = List A × Fixup

All-both {ℓ κ} :
    {A : Type ℓ} (P : A → Type κ) (xs ys : List A) → All P (xs ++ ys) → All P xs × All P ys
All-both P [] ys a = (tt, a)
All-both P (x ∷ xs) ys a = let (here, there) = All-both P xs ys a.1 in ((a.0, here), there)

module _ {A : Type 0} where
  abbrev pub patches_of : Option (List A) → List Fixup → List (Patch A)
  patches_of none fixups = []
  patches_of (some addr) [] = []
  patches_of (some addr) (fixup ∷ fixups) = (addr, fixup) ∷ patches_of (some addr) fixups

  abbrev pub file_patches : Dict (List A) → Dict (List Fixup) → List (Patch A)
  file_patches libraries [] = []
  file_patches libraries ((lib_name, fixups) ∷ references) =
      patches_of (lookup lib_name libraries) fixups ++ file_patches libraries references

  -- All patches, in the order of the references.
  abbrev pub patches : Dict (List A) → LinkReferences → List (Patch A)
  patches libraries [] = []
  patches libraries ((file_name, references) ∷ files) =
      file_patches libraries references ++ patches libraries files

  -- The patch lies within the byte code, and its address, which starts with "0x", has its length.
  abbrev pub Fits : ℕ → Patch A → Type 0
  Fits size (addr, fixup) =
      (2 + (fixup.start + fixup.length) * 2 ≤ size) × (length addr ≡ 2 + fixup.length * 2)

  -- The character at a position: the one of the last patch that covers it, or else the given one.
  abbrev pub patched : ℕ → Option A → List (Patch A) → Option A
  patched p o [] = o
  patched p o ((addr, fixup) ∷ rest) =
      patched p
        (if leb (2 + fixup.start * 2) p && ltb p (2 + (fixup.start + fixup.length) * 2)
          then get_elem? addr (2 + (p - (2 + fixup.start * 2)))
          else o)
        rest

  -- One patch keeps the length, and puts its characters at the positions that it covers.
  link_fixup-patched :
      (addr : List A) (fixup : Fixup) (bytecode : List A) (p : ℕ)
      → Fits (length bytecode) (addr, fixup)
      → (length (link_fixup addr fixup bytecode) ≡ length bytecode)
        × (get_elem? (link_fixup addr fixup bytecode) p
            ≡ patched p (get_elem? bytecode p) ((addr, fixup) ∷ []))
  unfolding link_fixup
  link_fixup-patched addr fixup bytecode p fits =
      let i = 2 + fixup.start * 2 in
      let j = 2 + (fixup.start + fixup.length) * 2 in
      let size : length (drop 2 addr) ≡ fixup.length * 2 =
        omega (arith, length-drop 2 addr, fits.1) in
      let ends : j ≡ i + length (drop 2 addr) = omega (arith, size) in
      let inside : j ≤ length bytecode = fits.0 in
      (
        replace_middle-length i j (drop 2 addr) bytecode ends inside,
        replace_middle i j (drop 2 addr) bytecode p ends inside
            ∙ ap (λ o. if leb i p && ltb p j then o else get_elem? bytecode p)
                (get_elem?-drop 2 (p - i) addr),
      )

  -- What a list of patches makes of a byte code.
  Linked : List A → List A → List (Patch A) → Type 0
  Linked before after ps =
      (length after ≡ length before)
      × ((p : ℕ) → get_elem? after p ≡ patched p (get_elem? before p) ps)

  patched-append :
      (p : ℕ) (ps qs : List (Patch A)) (o : Option A)
      → patched p o (ps ++ qs) ≡ patched p (patched p o ps) qs
  patched-append p [] qs o = refl
  patched-append p ((addr, fixup) ∷ ps) qs o = patched-append p ps qs _

  Linked-append :
      (a b c : List A) (ps qs : List (Patch A))
      → Linked a b ps
      → Linked b c qs
      → Linked a c (ps ++ qs)
  unfolding Linked
  Linked-append a b c ps qs x y =
      (y.0 ∙ x.0, λ p. y.1 p ∙ ap (λ o. patched p o qs) (x.1 p) ∙ sym (patched-append p ps qs _))

  -- The patches of one library, of one file, and of all files.
  link_fixups-Linked :
      (addr : List A) (fixups : List Fixup) (b : List A)
      → All (Fits (length b)) (patches_of (some addr) fixups)
      → Linked b (link_fixups addr fixups b) (patches_of (some addr) fixups)
  unfolding link_fixups Linked
  link_fixups-Linked addr [] b fit = (refl, λ p. refl)
  link_fixups-Linked addr (fixup ∷ fixups) b fit =
      let b' = link_fixup addr fixup b in
      let one = λ (p : ℕ). link_fixup-patched addr fixup b p fit.0 in
      let size : length b ≡ length b' = sym (one 0).0 in
      Linked-append b b' _ ((addr, fixup) ∷ []) (patches_of (some addr) fixups)
        ((one 0).0, λ p. (one p).1)
        (link_fixups-Linked addr fixups b'
          (subst (λ n. All (Fits n) (patches_of (some addr) fixups)) size fit.1))

  link_library-Linked :
      (addr : Option (List A)) (fixups : List Fixup) (b : List A)
      → All (Fits (length b)) (patches_of addr fixups)
      → Linked b (link_library addr fixups b) (patches_of addr fixups)
  unfolding link_library Linked
  link_library-Linked none fixups b fit = (refl, λ p. refl)
  link_library-Linked (some addr) fixups b fit = link_fixups-Linked addr fixups b fit

  link_file-Linked :
      (libraries : Dict (List A)) (references : Dict (List Fixup)) (b : List A)
      → All (Fits (length b)) (file_patches libraries references)
      → Linked b (link_file libraries references b) (file_patches libraries references)
  unfolding link_file Linked
  link_file-Linked libraries [] b fit = (refl, λ p. refl)
  link_file-Linked libraries ((lib_name, fixups) ∷ references) b fit =
      let ps = patches_of (lookup lib_name libraries) fixups in
      let qs = file_patches libraries references in
      let (here, there) = All-both (Fits (length b)) ps qs fit in
      let first = link_library-Linked (lookup lib_name libraries) fixups b here in
      Linked-append b _ _ ps qs first
        (link_file-Linked libraries references _ (subst (λ n. All (Fits n) qs) (sym first.0) there))

  link_bytecode-Linked :
      (libraries : Dict (List A)) (references : LinkReferences) (b : List A)
      → All (Fits (length b)) (patches libraries references)
      → Linked b (link_bytecode libraries references b) (patches libraries references)
  unfolding link_bytecode Linked
  link_bytecode-Linked libraries [] b fit = (refl, λ p. refl)
  link_bytecode-Linked libraries ((file_name, references) ∷ files) b fit =
      let ps = file_patches libraries references in
      let qs = patches libraries files in
      let (here, there) = All-both (Fits (length b)) ps qs fit in
      let first = link_file-Linked libraries references b here in
      Linked-append b _ _ ps qs first
        (link_bytecode-Linked libraries files _ (subst (λ n. All (Fits n) qs) (sym first.0) there))

  -- Where every reference to a library with an address lies within the byte code, and has the length of
  -- this address: linking keeps the length of the byte code, and puts at each position the character
  -- of the last reference that covers it, or else the one that was there.
  pub link_bytecode-patched :
      (libraries : Dict (List A)) (references : LinkReferences) (bytecode : List A) (p : ℕ)
      → All (Fits (length bytecode)) (patches libraries references)
      → (length (link_bytecode libraries references bytecode) ≡ length bytecode)
        × (get_elem? (link_bytecode libraries references bytecode) p
            ≡ patched p (get_elem? bytecode p) (patches libraries references))
  unfolding Linked
  link_bytecode-patched libraries references bytecode p fit =
      let linked = link_bytecode-Linked libraries references bytecode fit in (linked.0, linked.1 p)
