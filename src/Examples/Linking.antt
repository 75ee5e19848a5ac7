-- ===== src/Examples/Linking.antt =====
-- Byte code with one library in two places, and one without an address.
use palmy_protocol.Prelude.{◌≡◌, refl, ℕ, List, [], ◌∷◌, get_elem?, length, Dict, lookup, arith}
use palmy_protocol.Deploy.Registry.Linking.{
  LinkReferences, link_bytecode, link_file, link_library, link_fixups, link_fixup,
}
use palmy_protocol.Deploy.Registry.Linking.Positions.{patched, patches, link_bytecode-patched}

abbrev code : List ℕ
code = 0 ∷ 99 ∷ 1 ∷ 2 ∷ 3 ∷ 4 ∷ 5 ∷ 6 ∷ []

abbrev references : LinkReferences
references =
    (
      "logic.sol",
      ("ReserveLogic", (record { start = 0; length = 1 }) ∷ (record { start = 2; length = 1 }) ∷ [])
          ∷ ("GenericLogic", (record { start = 1; length = 1 }) ∷ [])
          ∷ [],
    )
    ∷ []

abbrev libraries : Dict (List ℕ)
libraries = ("ReserveLogic", 0 ∷ 99 ∷ 7 ∷ 8 ∷ []) ∷ []

links : link_bytecode libraries references code ≡ 0 ∷ 99 ∷ 7 ∷ 8 ∷ 3 ∷ 4 ∷ 7 ∷ 8 ∷ []
unfolding link_bytecode link_file link_library link_fixups link_fixup lookup
links = refl

link_bytecode-patched_example :
    (length (link_bytecode libraries references code) ≡ length code)
    × (get_elem? (link_bytecode libraries references code) 6
        ≡ patched 6 (get_elem? code 6) (patches libraries references))
unfolding lookup
link_bytecode-patched_example =
    link_bytecode-patched libraries references code 6
      ((omega arith, refl), ((omega arith, refl), tt))
