-- ===== src/Examples.antt =====
-- Runs of the modelled code at concrete inputs, and the theorems applied there.
mod Misc
mod Math
mod Interest
mod Rates
mod Deploy
mod Getters
mod Linking
mod Actions
mod Oracles
mod Scenario
mod Market
