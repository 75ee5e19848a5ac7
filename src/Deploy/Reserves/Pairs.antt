-- ===== src/Deploy/Reserves/Pairs.antt =====
-- The pairs of assets and aggregators (helpers/contracts-getters.ts).
use palmy_protocol.Prelude.{
  ◌≡◌, refl, ap, Option, none, some, String, List, [], ◌∷◌, map, Dict, lookup, All,
}
use palmy_protocol.Misc.{omit}
use palmy_protocol.Deploy.Reserves.{
  add_pair, pair_all, unzip_pairs, get_quote_currencies, pairs_without_quote,
}

-- The addresses are those of the entries, and the sources their aggregators.
abbrev Matches : Dict String → Dict String → List String → List String → Type 0
Matches entries aggregators tokens sources =
    (tokens ≡ map (λ e. e.1) entries)
    × (map some sources ≡ map (λ e. lookup e.0 aggregators) entries)

abbrev firsts : List (String × String) → List String
firsts pairs = map (λ p. p.0) pairs

abbrev seconds : List (String × String) → List String
seconds pairs = map (λ p. p.1) pairs

add_pair-some :
    (token : String) (source : Option String) (rest : Option (List (String × String)))
    (pairs : List (String × String))
    → add_pair token source rest ≡ some pairs
    → (a : String) × (ps : List (String × String)) × (source ≡ some a)
      × (rest ≡ some ps)
      × (pairs ≡ (token, a) ∷ ps)
add_pair-some token (some a) (some ps) pairs e = (a, ps, refl, refl, cc)
add_pair-some token (some a) none pairs e = cc
add_pair-some token none rest pairs e = cc

pair_all-Matches :
    (entries aggregators : Dict String) (pairs : List (String × String))
    → pair_all entries aggregators ≡ some pairs
    → Matches entries aggregators (firsts pairs) (seconds pairs)
unfolding pair_all
pair_all-Matches [] aggregators [] e = (refl, refl)
pair_all-Matches [] aggregators (p ∷ pairs) e = cc
pair_all-Matches ((symbol, token) ∷ entries) aggregators pairs e =
    let (a, ps, known, rest, built) =
      add_pair-some token (lookup symbol aggregators) (pair_all entries aggregators) pairs e in
    let (tokens, sources) = pair_all-Matches entries aggregators ps rest in
    rw (built, known) (ap (◌∷◌ token) tokens, ap (◌∷◌ (some a)) sources)

abbrev pub HasAggregator : Dict String → String × String → Type 0
HasAggregator aggregators entry = (a : String) × (lookup entry.0 aggregators ≡ some a)

pair_all-total :
    (entries aggregators : Dict String)
    → All (HasAggregator aggregators) entries
    → (pairs : List (String × String)) × (pair_all entries aggregators ≡ some pairs)
unfolding pair_all
pair_all-total [] aggregators have = ([], refl)
pair_all-total ((symbol, token) ∷ entries) aggregators have =
    let (a, known) = have.0 in
    let (pairs, built) = pair_all-total entries aggregators have.1 in
    rw (known, built) ((token, a) ∷ pairs, refl)

-- The pairs of a dictionary's entries are built, in order.
abbrev pub Pairs : Option (List String × List String) → Dict String → Dict String → Type 0
Pairs result entries aggregators =
    (tokens : List String) × (sources : List String) × (result ≡ some (tokens, sources))
    × Matches entries aggregators tokens sources

-- If every asset but the quote currencies has an aggregator, `getPairsTokenAggregator` of the getters
-- gives the addresses of these assets and their aggregators, in order.
pub pairs_without_quote-total :
    (assets aggregators : Dict String) (quote : String)
    → All (HasAggregator aggregators) (omit assets (get_quote_currencies quote))
    → Pairs
        (pairs_without_quote assets aggregators quote)
        (omit assets (get_quote_currencies quote))
        aggregators
unfolding pairs_without_quote
pairs_without_quote-total assets aggregators quote have =
    let kept = omit assets (get_quote_currencies quote) in
    let (pairs, built) = pair_all-total kept aggregators have in
    (
      firsts pairs,
      seconds pairs,
      ap unzip_pairs built,
      pair_all-Matches kept aggregators pairs built,
    )
