-- ===== src/Mychain.antt =====
-- mychain/app: the chain's application.
pub mod Names
pub mod Ante
pub mod Wiring
pub mod Keepers
pub mod Built
pub mod Accepted
pub mod Orders
pub mod Start
pub mod Starts
pub mod Command
pub mod Manager
pub mod Carried
mod Examples
mod CarriedExamples
