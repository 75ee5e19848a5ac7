-- ===== src/Deploy/Registry/Linking.antt =====
-- helpers/contracts-helpers.ts: `linkBytecode`. Byte code and addresses are lists of characters: "0x", and
-- two characters for each byte. `linkReferences` are the entries by file and by library.
pub mod Replace
pub mod Positions
use palmy_protocol.Prelude.{
  ℕ, ◌+◌, ◌*◌, Option, none, some, List, [], ◌∷◌, ◌++◌, take, drop, Dict, lookup,
}

-- The place of an address in the byte code, in bytes.
pub record Fixup : Type 0 where
  pub start : ℕ
  pub length : ℕ

abbrev pub LinkReferences : Type 0
LinkReferences = Dict (Dict (List Fixup))

module _ {A : Type 0} where
  -- bytecode.substr(0, …) + addr.substr(2) + bytecode.substr(…)
  unfoldable pub link_fixup : List A → Fixup → List A → List A
  link_fixup addr fixup bytecode =
      take (2 + fixup.start * 2) bytecode
      ++ (drop 2 addr ++ drop (2 + (fixup.start + fixup.length) * 2) bytecode)

  unfoldable pub link_fixups : List A → List Fixup → List A → List A
  link_fixups addr [] bytecode = bytecode
  link_fixups addr (fixup ∷ fixups) bytecode =
      link_fixups addr fixups (link_fixup addr fixup bytecode)

  -- A library without an address is left out.
  unfoldable pub link_library : Option (List A) → List Fixup → List A → List A
  link_library none fixups bytecode = bytecode
  link_library (some addr) fixups bytecode = link_fixups addr fixups bytecode

  unfoldable pub link_file : Dict (List A) → Dict (List Fixup) → List A → List A
  unfolding link_library
  link_file libraries [] bytecode = bytecode
  link_file libraries ((lib_name, fixups) ∷ references) bytecode =
      link_file libraries references (link_library (lookup lib_name libraries) fixups bytecode)

  unfoldable pub link_bytecode : Dict (List A) → LinkReferences → List A → List A
  link_bytecode libraries [] bytecode = bytecode
  link_bytecode libraries ((file_name, references) ∷ files) bytecode =
      link_bytecode libraries files (link_file libraries references bytecode)
