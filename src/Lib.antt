-- ===== src/Lib.antt =====
-- Verification library of poc-cometbft: a CometBFT key-value application (abci-kvstore), the task
-- registry of a Cosmos SDK chain (mychain/x/taskreg), the chain's application (mychain/app), and a web
-- backend (api-backend).
--
-- Files and the code that they model:
--   Prelude, Bytes, Kv  shared: outcomes of Go calls (value, error, panic), byte strings and the
--     standard library's functions on them, and the content of a store as pairs in key order.
--   Kvstore/State, Kvstore/App  abci-kvstore/state.go and app.go, one function per method. A block is
--     `finalize_block`, then `commit`. Kvstore/Badger is the database as a record of its operations
--     and of the laws that its documentation gives.
--   Kvstore/Main  abci-kvstore/main.go and NewState and Close of state.go; Kvstore/Closed and Resumed are
--     on the database where the process ends, and on the process that starts on it again.
--   Kvstore/Crash, Reports  proofs on nodes whose process ends and is started again at any moment, also
--     in `Commit` between its two writes: the data, the hash, and what the new process reports.
--   Kvstore/Tx, Data, Hash, Commit, Block  proofs on transactions, contents, the application hash,
--     commits and restarts, and sequences of blocks.
--   Taskreg/Types, Store, Keeper, MsgServer, Query, Genesis  mychain/x/taskreg/types and keeper, one
--     function per method; the SDK's store and codec are the records of Taskreg/Store.
--   Taskreg/Registry, Refines, History, Lifecycle, Guards  the registry as an abstract map with a next
--     id, that the handlers implement it, sequences of messages, and the life of a task as a relation.
--   Taskreg/Valid  proofs on what `ValidateBasic` of mychain/x/taskreg/types/msgs.go keeps out of the store.
--   Taskreg/Access, Prefix, Listing, Paging, Import, RoundTrip  proofs on the keeper's reads after its
--     writes, iteration, pages, and genesis.
--   Taskreg/Protowire, Wire  Marshal, Size and Unmarshal of mychain/x/taskreg/types/*.pb.go, over
--     protowire as a record of functions and laws. Wire/AsCodec makes them the codec of the keeper.
--   Taskreg/Descriptors  mychain/x/taskreg/types/proto_descriptor.go; Descriptors/Encoder is the wire
--     format of proto3 as a function of a descriptor, Descriptors/Agree that Marshal writes it.
--   Taskreg/Wire/Total, Leaves, Ranges  proofs on Unmarshal of any bytes.
--   Taskreg/Services  the service descriptions in tx.pb.go and query.pb.go with their functions, which
--     mychain/x/taskreg/module.go registers; Taskreg/Served  proofs on requests of any bytes to them.
--   Taskreg/Codec  mychain/x/taskreg/types/codec.go, and the names that the files *.pb.go register;
--     Taskreg/Registered  proofs that these, the services and the descriptors agree.
--   Taskreg/Module, Restored  mychain/x/taskreg/module.go: the genesis in JSON.
--   Mychain/Names, Wiring, Keepers, Start  mychain/app/app.go, encoding.go and export.go, and the calls of
--     them in mychain/cmd/mychaind/root.go; Mychain/Ante  mychain/app/ante.go. The SDK's module manager,
--     keepers and decorators are parameters.
--   Mychain/Command  mychain/cmd/mychaind/root.go and main.go, and `init` of mychain/app/app.go.
--   Mychain/Orders, Built, Starts, Accepted  proofs on the lists of modules, the order in which keepers
--     are made, the start, and the transactions that the ante handler accepts.
--   Mychain/Manager  the SDK's module manager as far as a genesis and an export need it, with its laws;
--     Mychain/Carried  proofs on the task registry's part of the chain's genesis.
--   Api/Respond, KvClient, ChainClient, Contract, Handlers, Bounties, Start, Routes  api-backend/handlers/util.go,
--     client/kvstore.go, client/chain.go, handlers/tasks.go, kvstore.go and health.go,
--     handlers/bounties.go, and main.go. The RPC of the nodes, the keyring, the SDK's transaction
--     factory and the chain's queries are records of functions.
--   Api/Server  the handlers behind the table of routes in api-backend/main.go, with chi's search of the
--     table as a parameter; Api/Dispatched, Reference  proofs on which handler a request reaches, by the
--     table and by docs/08-API-REFERENCE.md; Api/FirstFit  a router that meets the assumptions.
--   Api/RegistryChain  a chain that runs the registry, with `ValidateBasic` and an ante handler as a parameter
--     in front of it, when a transaction is broadcast and in its block; Api/Created, OverHttp, Posted  proofs
--     on the backend over it.
--   Api/Sequences  proofs on the sequences of the transactions that the client sends between blocks.
--   Api/Statuses, Funded, Requests, Paths, Waits, Resolved, Stored  proofs on what is sent and
--     answered, the ids in paths, the start, and the client of the key-value application.
--   Memory and Examples  concrete databases and runs: the laws can hold.
--
-- Conventions. A Go string or slice of bytes is a list of numbers. A uint64 is a number below 2 ^ 64,
-- and its additions wrap; an int or int64 is held as its 64-bit pattern, an int32 as its 32-bit
-- pattern. Calls that write return the store after them, also where they fail. Log lines are left out.
-- The loop of Unmarshal runs on the count of bytes as fuel, which is enough, since each round reads a
-- tag of one byte at least; out of fuel it panics, so that the theorem on panics covers it. The digits
-- of a uint64 are taken on a fuel of twenty, the most that it has. The waits of the backend count their
-- tries as the code does. A record of laws states what the documentation of a library promises.
--
-- Not modelled: the socket server, the parsing of flags and what the commands of mychaind do, gRPC and HTTP transport, the
-- modules of IBC, and the contract in Rust.
pub mod Prelude
pub mod Bytes
pub mod Kv
pub mod Kvstore
pub mod Taskreg
pub mod Api
pub mod Mychain
