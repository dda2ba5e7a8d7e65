-- ===== src/Lib.antt =====
-- Verification library of btck-rust-node, a Bitcoin node in Rust that hands consensus to
-- libbitcoinkernel and keeps the transaction pool and the peer-to-peer layer itself.
--
-- The parts and how they interact. The pool (src/mempool) takes transactions, asks the kernel
-- wrapper (src/kernel) for its structural checks, and keeps entries, spent outpoints and totals
-- under a policy, beside a fee estimator. The peer-to-peer layer (src/p2p) synchronises headers
-- first: one sync peer is asked for headers with a locator, the headers are appended to a chain,
-- and once the chain is near the best known height its blocks are queued in a downloader, which
-- assigns them to peers within two windows. A connection begins with a handshake; the headers are
-- kept in a file between runs. An inventory manager tracks what peers announce, under a manager of
-- peers, and an address manager (src/addrman.rs) keeps the addresses to connect to. An RPC server
-- (src/rpc) asks the kernel wrapper and the pool, and src/main.rs starts the parts and ends them.
--
-- Files and code:
--   Common/*                 machine words, integers, association lists, results
--   Chain                    the fields of the bitcoin crate's transactions that the code reads
--   ChainParams              src/chainparams.rs: the tables and the lookups of checkpoints
--   Kernel                   src/kernel/mod.rs: validate_transaction, check_tx_inputs and the
--                            return codes of process_block; Validity says what is accepted
--   Kernel/Foreign           libbitcoinkernel as a parameter, and the objects that are live
--   Kernel/Wrapper, Startup  the calls of Kernel on it, Kernel::new and Drop; Lifetime, Calls,
--                            Session, Genesis and Release say what is live after each
--   Mempool/Entry            src/mempool/entry.rs
--   Mempool/Policy           src/mempool/policy.rs
--   Mempool/Fees             src/mempool/fees.rs; Shape and Runs hold the invariant of its tables
--   Mempool/Pool             src/mempool/txmempool.rs: every method of Mempool that changes it
--   Mempool/Ledger, Books, Admission, Eviction, Replacement, Outcome, History, Limits
--                            an abstract view of the pool, its invariant and what the calls do
--   Mempool/Induction, Flags, Links, Order
--                            the links between parents and children, through every call
--   Mempool/Template         get_ancestors and get_block_template of src/mempool/txmempool.rs;
--                            Ancestors, Reach, Found, Included and Closed hold what is proved of
--                            them
--   AddrMan                  src/addrman.rs: the tables and buckets; Select has the choice of
--                            addresses; Buckets, Calls, Own, Choice and Several hold the rest
--   Connman                  src/network/connman.rs but for what opens a connection; Bans holds what
--                            is proved of it
--   P2p/Inventory            src/p2p/inventory.rs; its children hold the codes and the invariant
--   P2p/Downloader           Downloader of src/p2p/legacy.rs; Windows holds its invariant
--   P2p/Headers              PeerManager of src/p2p/legacy.rs; Events has the handlers of
--                            event_loop; Tree, Chain, Depths, Locator, Phases, Runs, Order and Rooted
--                            hold what is proved of them
--   P2p/HeadersFile          the headers file of src/p2p/legacy.rs
--   P2p/Handshake            Peer::handshake of src/p2p/legacy.rs, with what it writes and when
--   P2p/Manager              src/p2p/manager.rs, as steps of tasks that interleave
--   P2p/Bootstrap            add_outbound from the socket on, bootstrap and the handler of Addr
--   Rpc                      the handlers of src/rpc/blockchain.rs on the state of src/rpc/mod.rs;
--                            Reads and Served hold what is proved of them
--   Node                     src/main.rs: what is set up, the callbacks and a whole run, over the
--                            kernel, the pool, the peer manager and the server; Whole, Main and
--                            Fee hold what is proved of it
--
-- How state and operations correspond. A struct is a record with the source's fields; a method is
-- a function from the record to the record and its answer. A hash map is an association list, and
-- the order of its keys, which the code leaves open, is that of the list. Locks are gone: a method
-- runs as one step, but for add_peer of P2p/Manager, which lets go of its lock. The clock is an
-- argument `now`, in seconds (nanoseconds in the address manager). A panic (an index out of range,
-- an unwrap of nothing) is `none`. Arithmetic on u64, usize and i64 wraps as in the release
-- profile. Hashes are numbers that are only compared, and transactions are records of what the
-- code reads of them.
--
-- Bounds and fuel. Loops recur on the list that they go through. The loop of build_locator recurs
-- on the 32 places that it fills, that of the handshake on its 50 rounds, and that of
-- select_multiple on its three rounds for each address, which are the bounds in the code. The loop
-- of get_ancestors has a round for the transaction and one for each link to a parent, which
-- Mempool/Template/Ancestors shows to be enough.
--
-- Outside code. The hasher, the random numbers and the arithmetic of f64 in the address manager
-- are arguments; nothing is asked of them but that a random index is within its range. So are the
-- reading of a hash from text, libbitcoinkernel (any answers, but a call on an object that is not
-- live has no result), the encoded genesis block, and the encoding of a header, which takes 80
-- bytes and is read back as it was.
--
-- Not modelled: sockets, HTTP and DNS, beyond what they answer; errors of the disk; the bindings of
-- libbitcoinkernel, the diagnostics on block files, the connections of the connection manager, whose
-- nodes, messages and locks are those of types that are not in the repository, and its RPC calls
-- (both switched off in src/main.rs), the command line, the seeds and the build script; of the pool,
-- the statistics in floating point. The log is left out but for the lines of Kernel::process_block.
pub mod Common
pub mod Chain
pub mod ChainParams
pub mod Kernel
pub mod Mempool
pub mod AddrMan
pub mod Connman
pub mod P2p
pub mod Rpc
pub mod Node
