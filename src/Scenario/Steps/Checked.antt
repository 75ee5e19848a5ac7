-- ===== src/Scenario/Steps/Checked.antt =====
-- The parts of an action that passes (test-suites/test-palmy/helpers/actions.ts).
use palmy_protocol.Prelude.{
  ◌≡◌, refl, sym, ap, subst, false, Option, none, some, String, ℕ, All, str_eq,
}
use palmy_protocol.Prelude.Int.{ℤ}
use palmy_protocol.Number.{BigNumberLib}
use palmy_protocol.Calculations.{ReserveData, UserReserveData}
use palmy_protocol.Scenario.{TestEnv, Suite, passed, Tx, ContractReceipt, ◌>>=◌, defined}
use palmy_protocol.Scenario.Runs.{
  Reads, Reads-pure, Reads-throw, Reads-read, Reads-bind, Reads-if, Reads-defined, >>=-passed,
  bind_unchanged, passed_unchanged, defined-passed, passed-eq,
}
use palmy_protocol.Scenario.Data.{
  ContractsData, TxTimes, or_units, get_reserve_address_from_symbol, convert_to_currency_decimals,
  get_contracts_data, data_of, tx_times, get_tx_cost_and_timestamp, travel,
}
use palmy_protocol.Scenario.Compare.{reserve_checks, user_checks, expect_reserve}
use palmy_protocol.Scenario.Compare.Near.{IsTrue, expect_equal-Reads, expect_equal-passed}
use palmy_protocol.Scenario.Steps.{
  received, submit, transact, success, amount_or_all, value_of, expect_data,
}

module _ ⦃lib : BigNumberLib⦄ where
  -- What the comparison after a transaction shows, from the predictions `P` and `U`.
  abbrev pub AgreesAt :
      (P : ContractsData → ℤ → Option ReserveData)
      (U : ContractsData → ℤ → ReserveData → UserReserveData) (after : ContractsData)
      → ℤ
      → Type 0
  AgreesAt P U after tx =
      (expected : ReserveData) × (P after tx ≡ some expected)
      × All IsTrue (reserve_checks after.reserve_data expected)
      × All IsTrue (user_checks after.user_data (U after tx expected))

module _ {W : Type 0} ⦃env : TestEnv W⦄ where
  or_units-Reads : (amount : String) (o : Option ℤ) → Reads {W = W} (or_units amount o)
  or_units-Reads amount none = Reads-throw _
  or_units-Reads amount (some units) = Reads-pure units

  pub address-Reads : (symbol : String) → Reads {W = W} (get_reserve_address_from_symbol symbol)
  unfolding get_reserve_address_from_symbol
  address-Reads symbol = Reads-defined (env.db_address symbol)

  pub address-passed :
      (symbol : String) (w : W) {a : String} {v : W}
      → get_reserve_address_from_symbol symbol w ≡ (passed a, v)
      → env.db_address symbol ≡ some a
  unfolding get_reserve_address_from_symbol
  address-passed symbol w e = defined-passed (env.db_address symbol) w e

  pub convert-Reads :
      (token amount : String) → Reads {W = W} (convert_to_currency_decimals token amount)
  unfolding convert_to_currency_decimals
  convert-Reads token amount = Reads-bind (Reads-read _) (λ decimals. or_units-Reads amount _)

  pub amount_or_all-Reads : (reserve amount : String) → Reads {W = W} (amount_or_all reserve amount)
  amount_or_all-Reads reserve amount =
      Reads-if (str_eq amount "-1") (Reads-pure _) (convert-Reads reserve amount)

  pub value_of-Reads : (reserve : String) (o : Option String) → Reads {W = W} (value_of reserve o)
  value_of-Reads reserve none = Reads-pure none
  value_of-Reads reserve (some amount) =
      Reads-if (str_eq amount "") (Reads-pure none)
        (Reads-bind (convert-Reads reserve amount) (λ units. Reads-pure (some units)))

  tx_times-Reads :
      (block : Option ℕ) (hash : Option String) (gas : Option ℕ)
      → Reads {W = W} (tx_times block hash gas)
  tx_times-Reads none hash gas = Reads-throw _
  tx_times-Reads (some block) none gas = Reads-throw _
  tx_times-Reads (some block) (some hash) none = Reads-throw _
  tx_times-Reads (some block) (some hash) (some gas) = Reads-read _

  pub times-Reads : (tx : ContractReceipt) → Reads {W = W} (get_tx_cost_and_timestamp tx)
  unfolding get_tx_cost_and_timestamp
  times-Reads tx = tx_times-Reads tx.block_number tx.transaction_hash tx.cumulative_gas_used

  tx_times-passed :
      (block : Option ℕ) (hash : Option String) (gas : Option ℕ) (w : W) {t : TxTimes} {v : W}
      → tx_times block hash gas w ≡ (passed t, v)
      → (b : ℕ) × (block ≡ some b) × (t.tx_timestamp ≡ env.block_timestamp w b)
  tx_times-passed none hash gas w e = cc
  tx_times-passed (some block) none gas w e = cc
  tx_times-passed (some block) (some hash) none w e = cc
  tx_times-passed (some block) (some hash) (some gas) w e =
      (block, refl, ap (λ (t : TxTimes). t.tx_timestamp) (sym (passed-eq e)))

  times-passed :
      (tx : ContractReceipt) (w : W) {t : TxTimes} {v : W}
      → get_tx_cost_and_timestamp tx w ≡ (passed t, v)
      → (b : ℕ) × (tx.block_number ≡ some b) × (t.tx_timestamp ≡ env.block_timestamp w b)
  unfolding get_tx_cost_and_timestamp
  times-passed tx w e =
      tx_times-passed tx.block_number tx.transaction_hash tx.cumulative_gas_used w e

  submit-passed :
      (sender : String) (tx : Tx) (w : W) {r : ContractReceipt} {v : W}
      → submit sender tx w ≡ (passed r, v)
      → env.send w sender tx ≡ (some r, v)
  unfolding submit
  submit-passed sender tx w {r = r} {v = v} e = go (env.send w sender tx) e
    where
      go :
          (answer : Option ContractReceipt × W)
          → received tx answer ≡ (passed r, v)
          → answer ≡ (some r, v)
      go (none, u) e = cc
      go (some receipt, u) e = cc

module _ {W : Type 0} ⦃env : TestEnv W⦄ ⦃lib : BigNumberLib⦄ where
  pub data-Reads :
      (reserve user : String) (sender : Option String)
      → Reads {W = W} (get_contracts_data reserve user sender)
  unfolding get_contracts_data
  data-Reads reserve user sender = Reads-read _

  pub data-passed :
      (reserve user : String) (sender : Option String) (w : W) {d : ContractsData} {v : W}
      → get_contracts_data reserve user sender w ≡ (passed d, v)
      → d ≡ data_of w reserve user sender
  unfolding get_contracts_data
  data-passed reserve user sender w e = sym (passed-eq e)

  pub expect_data-Reads :
      (after : ContractsData) (predicted : Option ReserveData)
      (user : ReserveData → UserReserveData)
      → Reads {W = W} (expect_data after predicted user)
  expect_data-Reads after predicted user =
      Reads-bind (Reads-defined predicted)
        (λ expected. Reads-bind (expect_equal-Reads _) (λ _. expect_equal-Reads _))

  expect_data-passed :
      (after : ContractsData) (predicted : Option ReserveData)
      (user : ReserveData → UserReserveData) (w : W) {v : W}
      → env.skip_integrity_check ≡ false
      → expect_data after predicted user w ≡ (passed tt, v)
      → (expected : ReserveData) × (predicted ≡ some expected)
        × All IsTrue (reserve_checks after.reserve_data expected)
        × All IsTrue (user_checks after.user_data (user expected))
  expect_data-passed after predicted user w on e =
      let (expected, first, rest) =
        bind_unchanged (defined predicted) _ w (Reads-defined predicted) e in
      let (_, reserve, last) =
        bind_unchanged (expect_reserve after.reserve_data expected) _ w (expect_equal-Reads _)
          rest in
      (
        expected,
        defined-passed predicted w first,
        expect_equal-passed _ w on reserve,
        expect_equal-passed _ w on last,
      )

  pub transact-passed :
      (sender : String) (tx : Tx) (check : ContractReceipt → Suite W (Unit {0})) (w : W) {v : W}
      → transact sender tx success check w ≡ (passed tt, v)
      → (r : ContractReceipt) × (sent : W) × (env.send w sender tx ≡ (some r, sent))
        × (check r sent ≡ (passed tt, v))
  unfolding transact
  transact-passed sender tx check w e =
      let (r, sent, first, rest) = >>=-passed (submit sender tx) check w e in
      (r, sent, submit-passed sender tx w first, rest)

  abbrev pub Checked :
      (P : ContractsData → ℤ → Option ReserveData)
      (U : ContractsData → ℤ → ReserveData → UserReserveData) (reserve user : String)
      (sender : Option String)
      → ContractReceipt
      → (sent v : W) → Type 0
  Checked P U reserve user sender r sent v =
      (block : ℕ) × (r.block_number ≡ some block)
      × AgreesAt P U (data_of v reserve user sender) (env.block_timestamp sent block)

  module _ (on : env.skip_integrity_check ≡ false) (P : ContractsData → ℤ → Option ReserveData)
      (U : ContractsData → ℤ → ReserveData → UserReserveData) (reserve user : String)
      (sender : Option String) (r : ContractReceipt) where
    compared :
        (times : TxTimes) (block : ℕ) (sent u : W) {v : W}
        → r.block_number ≡ some block
        → times.tx_timestamp ≡ env.block_timestamp sent block
        → expect_data
            (data_of u reserve user sender)
            (P (data_of u reserve user sender) times.tx_timestamp)
            (U (data_of u reserve user sender) times.tx_timestamp)
            u
          ≡ (passed tt, v)
        → Checked P U reserve user sender r sent v
    compared times block sent u mined at e =
        let after = data_of u reserve user sender in
        let same = passed_unchanged (expect_data-Reads after _ _) e in
        (
          block,
          mined,
          subst (λ k. AgreesAt P U (data_of k reserve user sender) (env.block_timestamp sent block))
              (sym same)
              (subst (AgreesAt P U (data_of u reserve user sender)) at
                (expect_data-passed after _ _ u on e)),
        )

    pub data_first-Checked :
        (sent : W) {v : W}
        → (get_contracts_data reserve user sender >>= λ after.
              get_tx_cost_and_timestamp r >>= λ times.
              expect_data after (P after times.tx_timestamp) (U after times.tx_timestamp))
            sent
          ≡ (passed tt, v)
        → Checked P U reserve user sender r sent v
    data_first-Checked sent {v = v} e =
        let (after, e1, rest) =
          bind_unchanged (get_contracts_data reserve user sender) _ sent
            (data-Reads reserve user sender) e in
        let (times, e2, last) =
          bind_unchanged (get_tx_cost_and_timestamp r) _ sent (times-Reads r) rest in
        let (block, mined, at) = times-passed r sent e2 in
        compared times block sent sent mined at (
          subst
            (λ d.
              expect_data d (P d times.tx_timestamp) (U d times.tx_timestamp) sent ≡ (passed tt, v))
            (data-passed reserve user sender sent e1) last)

    data_then :
        (times : TxTimes) (block : ℕ) (sent u : W) {v : W}
        → r.block_number ≡ some block
        → times.tx_timestamp ≡ env.block_timestamp sent block
        → (get_contracts_data reserve user sender >>= λ after.
              expect_data after (P after times.tx_timestamp) (U after times.tx_timestamp))
            u
          ≡ (passed tt, v)
        → Checked P U reserve user sender r sent v
    data_then times block sent u {v = v} mined at e =
        let (after, e1, last) =
          bind_unchanged (get_contracts_data reserve user sender) _ u
            (data-Reads reserve user sender) e in
        compared times block sent u mined at (
          subst
            (λ d.
              expect_data d (P d times.tx_timestamp) (U d times.tx_timestamp) u ≡ (passed tt, v))
            (data-passed reserve user sender u e1) last)

    pub times_first-Checked :
        (sent : W) {v : W}
        → (get_tx_cost_and_timestamp r >>= λ times.
              get_contracts_data reserve user sender >>= λ after.
              expect_data after (P after times.tx_timestamp) (U after times.tx_timestamp))
            sent
          ≡ (passed tt, v)
        → Checked P U reserve user sender r sent v
    times_first-Checked sent e =
        let (times, e1, rest) =
          bind_unchanged (get_tx_cost_and_timestamp r) _ sent (times-Reads r) e in
        let (block, mined, at) = times-passed r sent e1 in
        data_then times block sent sent mined at rest

    pub travelled-Checked :
        (days : Option String) (sent : W) {v : W}
        → (get_tx_cost_and_timestamp r >>= λ times. travel days >>= λ _.
              get_contracts_data reserve user sender >>= λ after.
              expect_data after (P after times.tx_timestamp) (U after times.tx_timestamp))
            sent
          ≡ (passed tt, v)
        → Checked P U reserve user sender r sent v
    travelled-Checked days sent e =
        let (times, e1, rest) =
          bind_unchanged (get_tx_cost_and_timestamp r) _ sent (times-Reads r) e in
        let (block, mined, at) = times-passed r sent e1 in
        let (_, u, gone, last) = >>=-passed (travel days) _ sent rest in
        data_then times block sent u mined at last
