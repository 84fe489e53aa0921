-- ===== src/Lib.antt =====
-- A model of the RBFT consensus core of axiom-bft, the Byzantine fault tolerant ordering of
-- requests among N validators of which at most F = (N - 1) / 3 are faulty.
--
-- A replica orders requests in the phases pre-prepare, prepare and commit, each request under a
-- view, a sequence number and a digest; the votes stand in certificates. A request with a quorum of
-- commits is executed in the order of the numbers. A replica that suspects the primary sends a view
-- change message with what it has prepared; the new primary and its backups compute from a quorum of
-- these messages the requests of the new view. The primary of a view may be drawn at random by
-- voting power.
--
-- Base            library names, Boolean tests, uint64 arithmetic, slices, maps, digits
--                 and the texts of storage keys
-- Messages        common/consensus/rbft.pb.go and pb_utils.go: the messages and their getters
-- Status          status_mgr.go and getStatus of rbft_impl.go: the two status words; Status.Cas has
--                 the compare-and-swap loops against other goroutines
-- Quorum          helper.go: commonCaseQuorum, allCorrectReplicasQuorum, oneCorrectQuorum
-- Certs           components.go, store_mgr.go, helper.go: msgCert, getCert, prePrepared, prepared,
--                 committed
-- Votes           rbft_impl.go: recvPrepare, maybeSendCommit, sendCommit, recvCommit, sendPrepare
--                 (Votes.Phases); commitPendingBlocks and what it calls (Votes.Pending); recvPrePrepare
--                 and, from batch_mgr.go, findNextPrepareBatch (Votes.Propose)
-- ViewChange      viewchange_mgr.go: assignSequenceNumbers (ViewChange.Assign); helper.go: calcPSet,
--                 calcQSet, getVcBasis, gatherPQC, and correctViewChange (ViewChange.Basis)
--                 viewchange_mgr.go: selectInitialCheckpoint (ViewChange.Initial)
-- Chain           chain_config.go: ChainConfig and its methods; viewchange_mgr.go: punishAbnormalNodes,
--                 recoverAbnormalNodes, setView, setViewWithRecovery, setLastStableView, checkView
-- Checkpoints     helper.go: compareCheckpointWithWeakSet; rbft_impl.go: recvCheckpoint,
--                 weakCheckpointSetOutOfRange, updateHighStateTarget
-- Persist         persist.go: the keys and what is stored under them; what is restored from them
--                 (Persist.Read), restoreCert (Persist.Recover), persistNewView and restoreView
--                 (Persist.View)
-- Watermarks      rbft_impl.go: moveWatermarks
-- Epoch           epoch_mgr.go: checkEpoch and the requests and proofs of epoch changes
-- Search          chain_config.go: binarySearch
-- Tracker         chain_config.go: AddBlock, ResetRecentBlockNum and GetRecentProcessorSet of
--                 BlockProcessorTracker
-- Wrf             chain_config.go: wrfSelectNodeByVotingPower
--
-- A uint64 is a natural number with its wrap-around written out. A Go map is an association list
-- whose order is the order of `range`, so that a statement about every list covers every order that
-- Go may choose. A panic is `none` of the handler's result. What a handler sends, persists, executes
-- and does to timers is a list of effects; a view change that a handler starts, always as its last
-- step, is one of them. Digests, signatures and transactions are texts.
-- A number is printed with at most 20 digits, which is enough for a uint64.
--
-- Fuel: binarySearch gets one round more than there are numbers, commitPendingBlocks one more than
-- committedCert has entries; assignSequenceNumbers takes its fuel as an argument, and more than L
-- rounds are enough; ResetRecentBlockNum gets one round for each number and one for the last test,
-- which is enough unless the last number is the greatest uint64. The theorems on these loops show
-- that the result is never that of lacking fuel.
--
-- Parameters: SHA-256, MD5, the request pool, getBlockFunc and the hash of a checkpoint; the
-- generated marshalling of the messages that are stored; what the storage returns; the checks of
-- signatures; the orders in which Go visits a map, where a theorem fixes one.
--
-- Not modelled: timers and the network; the storage itself; the primary's part of the pre-prepare
-- phase; the handlers of view changes and of the new view; the state transfer and the end of a
-- checkpoint; the turn into a new epoch; recovery; the restoring of batches and checkpoints; metrics
-- and logs, except that a log line that panics is modelled as a panic. They are left out for want of
-- models of the components that they call, or because they only pass data on.
pub mod Base
pub mod Status
pub mod Quorum
pub mod Messages
pub mod ViewChange
pub mod Search
pub mod Wrf
pub mod Certs
pub mod Votes
pub mod Persist
pub mod Watermarks
pub mod Epoch
pub mod Tracker
pub mod Chain
pub mod Checkpoints
mod Examples
