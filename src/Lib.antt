-- ===== src/Lib.antt =====
-- Palmy Protocol: the deployment scripts and the expected-value calculations of the repository.
--
-- The TypeScript of the repository has two parts with logic of their own. The scenario suite computes,
-- from the state before an action on the lending pool, the state that it expects after it, in
-- fixed-point arithmetic on BigNumber, and compares it with what the contracts did. The deployment
-- scripts create the contracts, record them in deployed-contracts.json, and initialise and configure
-- the reserves and the oracles of a market through helper contracts.
--
--   Number         bignumber.js, a parameter, with the law of its division
--   Math           test-suites/test-palmy/helpers/utils/math.ts and helpers/constants.ts
--   Math.Rounding  how far its results are from the exact ones
--   Contracts      contracts/protocol/libraries/math (WadRayMath, PercentageMath, MathUtils): a revert is
--                  `none`, SafeMath a parameter, a uint256 a number below 2 ^ 256
--   Contracts.Strategy   contracts/protocol/lendingpool/DefaultReserveInterestRateStrategy.sol
--   Contracts.Agreement  math.ts against these libraries
--   Calculations   test-suites/test-palmy/helpers/utils/calculations.ts: Interest has the interest and
--                  the balances, Rates the utilization and the rates; their children Agreement compare
--                  them with the contracts; Reserve and Loans have the expected reserve after an action,
--                  User the expected user, Actions all of them together; Accounting, Conservation,
--                  Indices, Configured and Extremes prove what they keep
--   Scenario       the suite that runs stories of actions against a chain: the state of the chain is a
--                  parameter, and TestEnv has what it answers. Data has test-suites/test-palmy/helpers/utils/
--                  helpers.ts and the readings of actions.ts, Compare its comparison, Steps its actions,
--                  Steps.Engine scenario-engine.ts. Runs has the lemmas on such functions; Steps.Requests
--                  the actions on the pool as data, Prepared, Checked and Refinement what a run of one does,
--                  Drift and Story what it keeps
--   Types          helpers/types.ts
--   Misc           helpers/misc-utils.ts: chunk, filterMapBy, omit, notFalsyOrZeroAddress
--   Deploy         the events of a script, its errors, and what answers it; Deploy.Events reasons on them
--   Deploy.Verify  helpers/etherscan-verification.ts
--   Deploy.Registry   helpers/contracts-helpers.ts: parameters by network, the database, look-ups, and the
--                  linking of byte code
--   Deploy.Contracts  helpers/contracts-deployments.ts
--   Deploy.Getters    helpers/contracts-getters.ts; Pairs has each deployment with its getter
--   Deploy.Reserves   helpers/init-helpers.ts
--   Deploy.Oracles    helpers/oracles-helpers.ts
--   Deploy.Market     helpers/configuration.ts, with the record of a market's configuration
--   Markets           markets/palmy: this record, the reserves and the rate strategies of the Palmy market
--   Examples       runs at concrete inputs
--
-- In the source an expected reserve starts as an empty object; here it starts from an argument
-- `blank`, whose values the fields keep that are not assigned. A BigNumber that the calculations keep
-- as an integer is a ℤ over the native numbers. An object is the list of its entries. A script is a
-- function from the history of the events so far (transactions, contract creations, database writes,
-- verification runs) to a result or an error and the history after it; what it reads is a function of
-- that history, so that every order of events is in the model. The actions of the suite are such
-- functions of the state of the chain. What a deployment makes is its address; a getter adds the
-- factory and the signer. The only counter is that of the verification's retries, which the source
-- has as well; all other loops follow a list.
--
-- Not modelled: the choice of a market by its name, the mock prices, the hardhat tasks and the set-up
-- of the suite, which call these parts in order; typed-data signatures, ABI encoding and the exports
-- of calldata, which are calls of libraries; the contracts other than those named; console output,
-- delays and files.
pub mod Prelude
pub mod Types
pub mod Misc
pub mod Number
pub mod Math
pub mod Contracts
pub mod Calculations
pub mod Scenario
pub mod Deploy
pub mod Markets
pub mod Examples
