-- ===== src/Deploy/Reserves/Inputs.antt =====
-- What helpers/init-helpers.ts sends to `batchInitReserve`: the reserves and their addresses.
use palmy_protocol.Prelude.{
  ◌≡◌, refl, sym, ◌∙◌, ap, true, Option, none, some, List, [], ◌∷◌, ◌++◌, All, All-append,
  append_assoc, append-nil, inl, inr, String, map, Dict, lookup,
}
use palmy_protocol.Types.{ReserveParams}
use palmy_protocol.Deploy.{Env, History, ok, ◌>>=◌, InitReserveInput}
use palmy_protocol.Deploy.Events.{>>=-ok, unless-ok, elim-Option, ok-eq}
use palmy_protocol.Deploy.Registry.{truthy}
use palmy_protocol.Deploy.Reserves.{
  InitSettings, valid, strategy_of, checked_input, init_input, prepare_reserves,
}

-- The symbols of the reserves that have a token address, in order.
abbrev pub listed_symbol : String → Option String → List String
listed_symbol symbol none = []
listed_symbol symbol (some token) = symbol ∷ []

abbrev pub listed : Dict String → Dict ReserveParams → List String
listed tokens [] = []
listed tokens ((symbol, params) ∷ rest) =
    listed_symbol symbol (truthy (lookup symbol tokens)) ++ listed tokens rest

module _ ⦃env : Env⦄ where
  -- The addresses of an input are neither falsy nor zero.
  abbrev pub IsUsable : InitReserveInput → Type 0
  IsUsable input =
      (valid input.underlying_asset ≡ true)
      × (valid input.interest_rate_strategy_address ≡ true)
      × (valid input.ltoken_impl ≡ true)
      × (valid input.stable_debt_token_impl ≡ true)
      × (valid input.variable_debt_token_impl ≡ true)
      × (valid input.treasury ≡ true)

  map-append :
      (acc : List InitReserveInput) (input : InitReserveInput)
      → map (λ i. i.underlying_asset_name) (acc ++ (input ∷ []))
        ≡ map (λ i. i.underlying_asset_name) acc ++ (input.underlying_asset_name ∷ [])
  map-append [] input = refl
  map-append (x ∷ acc) input = ap (◌∷◌ x.underlying_asset_name) (map-append acc input)

  checked_input-ok :
      (s : InitSettings) (symbol : String) (params : ReserveParams) (token strategy : String)
      (h h' : History) (input : InitReserveInput)
      → checked_input s symbol params token strategy h ≡ (ok input, h')
      → IsUsable input × (input.underlying_asset_name ≡ symbol)
  unfolding checked_input init_input
  checked_input-ok s symbol params token strategy h h' input e =
      let (_, h1, a1, e1) = >>=-ok _ _ h e in
      let (_, h2, a2, e2) = >>=-ok _ _ h1 e1 in
      let (l, h3, a3, e3) = >>=-ok _ _ h2 e2 in
      let (_, h4, a4, e4) = >>=-ok _ _ h3 e3 in
      let (st, h5, a5, e5) = >>=-ok _ _ h4 e4 in
      let (_, h6, a6, e6) = >>=-ok _ _ h5 e5 in
      let (v, h7, a7, e7) = >>=-ok _ _ h6 e6 in
      let (_, h8, a8, e8) = >>=-ok _ _ h7 e7 in
      let (_, h9, a9, e9) = >>=-ok _ _ h8 e8 in
      let (_, h10, a10, e10) = >>=-ok _ _ h9 e9 in
      let made : init_input s symbol params token l st v strategy ≡ input = ok-eq e10 in
      rw (sym made) (
        (
          (unless-ok _ _ h a1).0,
          (unless-ok _ _ h1 a2).0,
          (unless-ok _ _ h3 a4).0,
          (unless-ok _ _ h5 a6).0,
          (unless-ok _ _ h7 a8).0,
          (unless-ok _ _ h9 a10).0,
        ),
        refl,
      )

  -- One input for each reserve that has a token address, in order; and all addresses of an input are
  -- valid, where the inputs so far are.
  pub prepare_reserves-ok :
      (s : InitSettings) (reserves : Dict ReserveParams) (strategies : Dict String)
      (acc inputs : List InitReserveInput) (h h' : History)
      → prepare_reserves s reserves strategies acc h ≡ (ok inputs, h')
      → All IsUsable acc
      → All IsUsable inputs
        × (map (λ i. i.underlying_asset_name) inputs
            ≡ map (λ i. i.underlying_asset_name) acc ++ listed s.token_addresses reserves)
  unfolding prepare_reserves
  prepare_reserves-ok s [] strategies acc inputs h h' e usable = (
    rw (sym (ok-eq e)) usable,
    ap (map (λ i. i.underlying_asset_name)) (sym (ok-eq e)) ∙ sym (append-nil _),
  )
  prepare_reserves-ok s ((symbol, params) ∷ rest) strategies acc inputs h h' e usable =
      elim (elim-Option (truthy (lookup symbol s.token_addresses))
        (prepare_reserves s rest strategies acc)
        (λ token. strategy_of s params.strategy strategies >>= λ found.
          checked_input s symbol params token found.0 >>= λ input.
          prepare_reserves s rest found.1 (acc ++ (input ∷ [])))
        h _ e) [
          | inl (missing, e1) ↦
              rw missing (prepare_reserves-ok s rest strategies acc inputs h h' e1 usable)
          | inr (token, found, e1) ↦
              let (st, h1, a1, e2) = >>=-ok _ _ h e1 in
              let (input, h2, a2, e3) = >>=-ok _ _ h1 e2 in
              let (good, name) = checked_input-ok s symbol params token st.0 h1 h2 input a2 in
              let (all, names) =
                prepare_reserves-ok s rest st.1 (acc ++ (input ∷ [])) inputs h2 h' e3
                  (All-append IsUsable acc usable good) in
              (
                all,
                names
                    ∙ ap (λ l. l ++ listed s.token_addresses rest) (map-append acc input)
                    ∙ rw (found, name)
                        (append_assoc (map (λ i. i.underlying_asset_name) acc) (symbol ∷ [])
                          (listed s.token_addresses rest)),
              )
        ]
