-- ===== src/Lib.antt =====
-- lachesis-base: the core of the Lachesis consensus in Go, modelled and verified.
--
-- The program. Validators create events; an event names its parents, and the events form a DAG. For
-- each event the vector engine (vecengine, vecfc) keeps two vectors, by which ForklessCause tells
-- whether one event is known to a quorum of validators by way of another. The orderer (abft) gives
-- every event a frame: an event that a quorum of the roots of a frame cause is past that frame, and
-- the first events of a validator in a frame are its roots. The election (abft/election) lets the
-- roots of later frames vote on the roots of a frame, until one of them is chosen as the Atropos,
-- whose past is the next block. Before all that, an event goes through the checks of eventcheck.
--
-- The parts, each with its state as a record and its operations as functions of it:
--   Base       names of the library, Boolean tests, indexed lists, and Go maps as association
--              lists; Base/Sums has sums over a list, and Base/Ints integers
--   Dag        inter/dag, hash.Events.Set and idx.MaxLamport: events and their metric
--   Pos        inter/pos: validator sets (validators.go, sort.go, stake_bigint.go) and the counters
--              of weight (stake.go). Pos/Weights, Build, Index, Counter, Quorum and Big hold the
--              lemmas on the loop of calcCaches, the caches, the indexes, the counters and the
--              quorum; the counters take a record of what a set promises (IsWeighted), which
--              `Build` fills.
--   Vec        vecfc/vector.go and vector_ops.go, byte by byte: Vec/Lowest and Vec/Highest
--   Engine     vecengine/branches_info.go, fillGlobalBranchID of vecengine/index.go, and
--              forklessCause of vecfc/forkless_cause.go, which uses Vec and Pos. Engine/Initial and
--              Branches hold the lemmas on the branches. Engine/Detect is the fork detection of
--              fillEventVectors and GetMergedHighestBefore. Engine/Add is the whole of Add,
--              fillEventVectors and DfsSubgraph over the tables of the index: Walk and Marked are
--              its walk, Refines is what LowestAfter stands for in the DAG, Ranges, Before and Past
--              what HighestBefore does, Latest and Branching the branches, Index and Adds the index
--              as a whole, Between and Cause what ForklessCause then says, and Grown the indexes
--              that calls of Add build
--   Election   abft/election: election.go, election_math.go and sort_roots.go
--   Abft       abft/event_processing.go and abft/store_roots.go: frames, roots and their table.
--              Abft/Decide is the election inside the orderer (handleElection, bootstrapElection,
--              processKnownRoots) with abft/frame_decide.go and Reset of abft/bootstrap.go
--   Block      abft/lachesis.go, abft/traversal.go and abft/store_event_confirmed.go: the events
--              that an Atropos confirms, the cheaters, and the callbacks of a block. Block/Stack
--              and Trace are the walk of confirmEvents as a relation, on which Block/Confirm
--              stands; Block/Fuel is its end, and Block/Cheaters is applyAtropos
--   EventBuffer gossip/dagordering/event_buffer.go, over Lru: events wait there for their parents.
--              EventBuffer/Held, Pushed and Leaks follow the events that are not released yet,
--              Turns, Evict and Spill the spill, Safety and Told the calls of the application, Rechecks
--              and Fuel the end of a push; Stable, Kept and Effects hold what they share
--   Flushable  kvdb/flushable/flushable.go: writes in memory over a database. Flushable/Laws has
--              what it relies on of the red-black tree and of the database below
--   Check      eventcheck: basiccheck, epochcheck, parentscheck and all.go
--   Lru        utils/simplewlru/simplewlru.go
--   Semaphore  utils/datasemaphore/semaphore.go
--   Bytes      common/bigendian/bytes.go and common/littleendian/bytes.go
--   Cheaters   lachesis/cheaters_list.go
--   DoubleSign emitter/doublesign: whether a node may emit events
--   Piecewise  utils/piecefunc/piecefunc.go
-- Each part has a module Tests with runs on concrete inputs.
--
-- Conventions. A hash is the number that its bytes stand for, the zero hash is 0. Go's unsigned
-- integers are native numbers with their wrap-around written out. A panic is `none`, or the
-- constructor `panicked` of a result type; an error is a value. A pointer to a shared object is an
-- index into the list of the objects. A Go map is an association list
-- with distinct keys. What the code gets as a callback (the DAG index, the roots of a frame, the
-- source of the events, the reader of the epoch) is an argument.
--
-- Bounds and fuel. `Set` of a vector grows it by one entry a round, so index + 1 rounds are enough;
-- vectors have fewer than 2 ^ 30 or 2 ^ 29 entries, since their byte indexes are uint32 products.
-- The loop over frames runs on the distance to its limit, AddRoot on the number of frames, and the
-- eviction loop of the cache on one step for each entry and one more. The loop of processKnownRoots
-- runs on one step for each frame with roots and one more; bootstrapElection runs on fuel for its
-- decisions, and its end by fuel is a result of its own. The walk of confirmEvents needs two steps
-- more than the parents of the unconfirmed events; pushEvent, whose fuel is the depth of its
-- recursion, two more than the number of the events in the buffer; the spill one more than that
-- number. DfsSubgraph needs one step more than the parents of the event and of the stored events.
--
-- Not modelled. RLP encoding, the backends of the key-value stores and the other wrappers, the iterator
-- of the flushable store, caches of ForklessCause, of vectors and of roots, and printing; the
-- goroutines of gossip and the choice of parents.
pub mod Base
pub mod Pos
pub mod Vec
pub mod Engine
pub mod Election
pub mod Dag
pub mod EventBuffer
pub mod Flushable
pub mod Lru
pub mod Check
pub mod Abft
pub mod Semaphore
pub mod Block
pub mod Bytes
pub mod Cheaters
pub mod DoubleSign
pub mod Piecewise
