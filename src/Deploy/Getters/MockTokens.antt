-- ===== src/Deploy/Getters/MockTokens.antt =====
-- The tokens that deployAllMockTokens of helpers/contracts-deployments.ts makes, and the ones that
-- getAllMockedTokens of helpers/contracts-getters.ts finds.
use palmy_protocol.Prelude.{
  ◌≡◌, refl, sym, ◌∙◌, ap, Bool, Bool-cases, inl, inr, true, false, some, List, [], ◌∷◌, All,
  String, str_eq, Dict, insert, includes, if◌then◌else◌,
}
use palmy_protocol.Types.{ReserveParams}
use palmy_protocol.Deploy.{Env, Argument, History, ok, ◌>>=◌}
use palmy_protocol.Deploy.Events.{
  Adds, Adds-bind, Adds-perform, Adds-pure, Adds-read, >>=-ok, >>=-run,
}
use palmy_protocol.Deploy.Registry.{deploy, with_save_and_verify, register_contract_in_json_db}
use palmy_protocol.Deploy.Registry.Store.{
  IsStore, Holds, Holds-Adds, Holds-perform, Leaves, Leaves-other, Leaves-set, Leaves-save,
  save-Holds,
}
use palmy_protocol.Deploy.Contracts.Tokens.{
  token_contract_ids, deploy_mock_token, deploy_mock_tokens, deploy_all_mock_tokens,
  deploy_weth_mocked, deploy_mintable_erc20,
}
use palmy_protocol.Deploy.Getters.{
  Contract, connect, find_contract, get_mintable_erc20, get_tokens, get_all_mocked_tokens,
  saved_address,
}
use palmy_protocol.Deploy.Getters.Deployed.{saved-Holds}

-- No string comes twice.
abbrev IsDistinct : List String → Type 0
IsDistinct [] = Unit
IsDistinct (x ∷ xs) = (includes xs x ≡ false) × IsDistinct xs

neither : (a b : Bool) → (if a then true else b) ≡ false → (a ≡ false) × (b ≡ false)
neither true b h = cc
neither false b h = (refl, h)

-- The ids that are saved beside the symbols.
abbrev IsUnreserved : String → Type 0
IsUnreserved id = (str_eq "MintableERC20" id ≡ false) × (str_eq "WOASMocked" id ≡ false)

-- The contracts at the addresses of the tokens.
abbrev pub connected : List String → Dict String → Dict Contract
connected signers [] = []
connected signers ((symbol, a) ∷ tokens) =
    (symbol, connect signers "MintableERC20" a) ∷ connected signers tokens

connected-insert :
    (signers : List String) (symbol a : String) (tokens : Dict String)
    → connected signers (insert symbol a tokens)
      ≡ insert symbol (connect signers "MintableERC20" a) (connected signers tokens)
unfolding insert
connected-insert signers symbol a [] = refl
connected-insert signers symbol a ((key, b) ∷ tokens) = elim (Bool-cases (str_eq key symbol)) [
  | inl e ↦ rw e refl
  | inr e ↦ rw e (
      ap (λ ts. (key, connect signers "MintableERC20" b) ∷ ts)
        (connected-insert signers symbol a tokens))
]

module _ ⦃env : Env⦄ (store : IsStore env) where
  save_fresh-Leaves :
      (id factory j : String) (args : List String) (arguments : List Argument) (verify : Bool)
      → str_eq j id ≡ false
      → Adds (Leaves id) (deploy factory args >>= λ a. with_save_and_verify a j arguments verify)
  unfolding deploy
  save_fresh-Leaves id factory j args arguments verify n =
      Adds-bind (Leaves id)
        (Adds-bind (Leaves id) (Adds-perform (Leaves id) _ (Leaves-other store id _ refl))
          (λ _. Adds-read (Leaves id) env.new_address))
        (λ a. Leaves-save store id j a arguments verify n)

  chosen-Leaves :
      (id : String) (args : List String) (verify : Bool)
      → IsUnreserved id
      → (is_native : Bool)
      → Adds
          (Leaves id)
          (if is_native then deploy_weth_mocked false else deploy_mintable_erc20 args verify)
  unfolding deploy_weth_mocked deploy_mintable_erc20
  chosen-Leaves id args verify n true = save_fresh-Leaves id _ _ _ _ false n.1
  chosen-Leaves id args verify n false = save_fresh-Leaves id _ _ args _ verify n.0

  -- A token leaves the ids that are not its own.
  mock_token-Leaves :
      (id : String) (config : Dict ReserveParams) (verify : Bool) (symbol : String)
      → IsUnreserved id
      → Adds (Leaves id) (deploy_mock_token config verify symbol)
  unfolding deploy_weth_mocked deploy_mintable_erc20
  mock_token-Leaves id config verify symbol n = chosen-Leaves id _ verify n (str_eq symbol "WOAS")

  mock_tokens-Leaves :
      (id : String) (config : Dict ReserveParams) (verify : Bool) (symbols : List String)
      (tokens : Dict String)
      → IsUnreserved id
      → includes symbols id ≡ false
      → Adds (Leaves id) (deploy_mock_tokens config verify symbols tokens)
  unfolding deploy_mock_tokens register_contract_in_json_db
  mock_tokens-Leaves id config verify [] tokens n absent = Adds-pure (Leaves id) tokens
  mock_tokens-Leaves id config verify (symbol ∷ symbols) tokens n absent =
      let (other, rest) = neither (str_eq symbol id) (includes symbols id) absent in
      Adds-bind (Leaves id) (mock_token-Leaves id config verify symbol n) (λ a.
        Adds-bind (Leaves id) (Adds-perform (Leaves id) _ (Leaves-set store id symbol _ other))
          (λ _. mock_tokens-Leaves id config verify symbols _ n rest))

  module _ (exists : (h : History) → str_eq (env.new_address h) "" ≡ false) where
    save_fresh-address :
        (factory j : String) (args : List String) (arguments : List Argument) (verify : Bool)
        (h : History) {a : String} {h' : History}
        → (deploy factory args >>= λ a. with_save_and_verify a j arguments verify) h ≡ (ok a, h')
        → str_eq a "" ≡ false
    unfolding deploy
    save_fresh-address factory j args arguments verify h e =
        let (b, h1, first, rest) = >>=-ok _ _ h e in
        let (t, h2, performed, last) = >>=-ok _ _ h first in
        let made : env.new_address h2 ≡ b = cc in
        let same = (save-Holds store j b arguments verify h1 rest).0 in
        ap (λ c. str_eq c "") (sym (made ∙ same)) ∙ exists h2

    chosen-address :
        (args : List String) (verify is_native : Bool) (h : History) {a : String} {h' : History}
        → (if is_native then deploy_weth_mocked false else deploy_mintable_erc20 args verify) h
          ≡ (ok a, h')
        → str_eq a "" ≡ false
    unfolding deploy_weth_mocked deploy_mintable_erc20
    chosen-address args verify true h e = save_fresh-address _ _ _ _ false h e
    chosen-address args verify false h e = save_fresh-address _ _ args _ verify h e

    mock_token-address :
        (config : Dict ReserveParams) (verify : Bool) (symbol : String) (h : History) {a : String}
        {h' : History}
        → deploy_mock_token config verify symbol h ≡ (ok a, h')
        → str_eq a "" ≡ false
    mock_token-address config verify symbol h e = chosen-address _ verify (str_eq symbol "WOAS") h e

    module _ (signers : List String) (to_upper_case : String → String) where
      -- The lookup of one token, and of the others after it.
      step-found :
          (symbol a : String) (symbols : List String) (tokens : Dict Contract) (h : History)
          → to_upper_case symbol ≡ symbol
          → str_eq a "" ≡ false
          → Holds symbol a h
          → get_tokens signers to_upper_case (symbol ∷ symbols) tokens h
            ≡ get_tokens signers to_upper_case symbols
                (insert symbol (connect signers "MintableERC20" a) tokens)
                h
      unfolding get_tokens get_mintable_erc20 find_contract ◌>>=◌
      step-found symbol a symbols tokens h upper given holds =
          let at_symbol : saved_address (to_upper_case symbol) h ≡ (ok a, h) =
            rw upper (saved-Holds symbol a h holds) in
          let connects : get_mintable_erc20 signers (some a) h
              ≡ (ok (connect signers "MintableERC20" a), h) =
            rw given refl in
          >>=-run (saved_address (to_upper_case symbol)) _ h at_symbol
          ∙ >>=-run (get_mintable_erc20 signers (some a)) _ h connects

      loop-found :
          (config : Dict ReserveParams) (verify : Bool) (symbols : List String)
          (tokens : Dict String) (h : History) {made : Dict String} {h' : History}
          → IsDistinct symbols
          → All IsUnreserved symbols
          → All (λ s. to_upper_case s ≡ s) symbols
          → deploy_mock_tokens config verify symbols tokens h ≡ (ok made, h')
          → get_tokens signers to_upper_case symbols (connected signers tokens) h'
            ≡ (ok (connected signers made), h')
      unfolding deploy_mock_tokens get_tokens register_contract_in_json_db
      loop-found config verify [] tokens h distinct unreserved upper e = cc
      loop-found config verify (symbol ∷ symbols) tokens h {h' = h'} distinct unreserved upper e =
          let (a, h1, first, rest) = >>=-ok _ _ h e in
          let (t, h2, registers, others) = >>=-ok _ _ h1 rest in
          let given = mock_token-address config verify symbol h first in
          let held = Holds-perform store symbol _ h1 registers in
          let kept =
            Holds-Adds symbol a
              (mock_tokens-Leaves symbol config verify symbols _ unreserved.0 distinct.0) h2 others
              held in
          step-found symbol a symbols _ h' upper.0 given kept
          ∙ ap (λ ts. get_tokens signers to_upper_case symbols ts h')
              (sym (connected-insert signers symbol a tokens))
          ∙ loop-found config verify symbols _ h2 distinct.1 unreserved.1 upper.1 others

      -- Where the database returns the last write and nothing else writes it, new contracts have an
      -- address that is not empty, and the token symbols are upper case: after a run of
      -- deployAllMockTokens that succeeds, getAllMockedTokens gives the same symbols, each with the
      -- contract at the address that was deployed for it.
      pub mock_tokens-found :
          (config : Dict ReserveParams) (verify : Bool) (h h' : History) (tokens : Dict String)
          → All (λ s. to_upper_case s ≡ s) token_contract_ids
          → deploy_all_mock_tokens config verify h ≡ (ok tokens, h')
          → get_all_mocked_tokens signers to_upper_case h' ≡ (ok (connected signers tokens), h')
      unfolding deploy_all_mock_tokens get_all_mocked_tokens
      mock_tokens-found config verify h h' tokens upper e =
          loop-found config verify token_contract_ids [] h distinct unreserved upper e
        where
          distinct : IsDistinct token_contract_ids
          distinct = (refl, (refl, (refl, (refl, (refl, (refl, tt))))))

          unreserved : All IsUnreserved token_contract_ids
          unreserved = (
            (refl, refl),
            ((refl, refl), ((refl, refl), ((refl, refl), ((refl, refl), ((refl, refl), tt))))),
          )
