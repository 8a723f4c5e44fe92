-- ===== src/Api.antt =====
-- api-backend: the clients of the two nodes and the HTTP handlers over them.
pub mod Respond
pub mod KvClient
pub mod ChainClient
pub mod Contract
pub mod Handlers
pub mod Bounties
pub mod Statuses
pub mod Start
pub mod Routes
pub mod Waits
pub mod Resolved
pub mod Requests
pub mod Paths
pub mod Funded
pub mod Stored
pub mod RegistryChain
pub mod Created
pub mod Server
pub mod Dispatched
pub mod Reference
pub mod OverHttp
pub mod FirstFit
pub mod Posted
pub mod Sequences
mod Memory
mod Examples
mod TaskExamples
mod HttpExamples
mod SequenceExamples
