-- ===== src/Kvstore.antt =====
-- abci-kvstore: the key-value store that speaks ABCI to CometBFT and keeps its data in Badger.
pub mod Badger
pub mod State
pub mod App
pub mod Tx
pub mod Data
pub mod Hash
pub mod Commit
pub mod Block
pub mod Crash
pub mod Reports
pub mod Main
pub mod Closed
pub mod Resumed
pub mod Memory
mod Examples
mod CrashExamples
mod MainExamples
mod ResumedExamples
