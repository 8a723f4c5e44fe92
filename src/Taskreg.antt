-- ===== src/Taskreg.antt =====
-- mychain/x/taskreg: the chain's task registry.
pub mod Types
pub mod Store
pub mod Keeper
pub mod MsgServer
pub mod Query
pub mod Genesis
pub mod Access
pub mod Registry
pub mod Refines
pub mod History
pub mod Lifecycle
pub mod Guards
pub mod Prefix
pub mod Listing
pub mod Paging
pub mod Import
pub mod RoundTrip
pub mod Descriptors
pub mod Valid
pub mod Services
pub mod Served
pub mod Codec
pub mod Registered
pub mod Module
pub mod Restored
pub mod Protowire
pub mod Wire
pub mod Memory
pub mod Empty
mod Examples
mod PagingExamples
mod ServedExamples
mod RegisteredExamples
mod ValidExamples
