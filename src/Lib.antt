-- ===== src/Lib.antt =====
-- A verification library for golang-ap, a Go implementation of the HTCondor access point (schedd).
--
-- Parts and files. Paths are from the repository's root.
--   internal/policy/policy.go: Policy. Policy/Types holds its actions, modes and configuration,
--     Policy/Eval the evaluation of policy expressions, Policy/Analyze the function Analyze;
--     Policy/Rules and Policy/Safety hold proofs.
--   internal/queue/queue.go: Key (the key scheme of the job collection), User (user@domain names and
--     super users), Queue/State (the Queue, its stores, cluster ids, factory set), Queue/Open (what
--     Open recovers) and begin of Queue/TxnState.
--   internal/queue/authz.go: Queue/AuthzConfig (attribute categories) and Queue/Authz (authorize).
--   internal/queue/txn.go: Queue/TxnState (the Txn), Queue/Txn (its operations), Queue/Commit (Commit
--     and materialize); Queue/Permission, Queue/Aftermath, Queue/Forced, Queue/Deleted
--     and Queue/Staging hold proofs.
--   internal/queue/actions.go: Queue/Actions (hold, release, remove, complete); Queue/ActionRules and
--     Queue/ActionEffects hold proofs.
--   internal/queue/factory.go, and MaybeCleanupFactoryCluster of actions.go: Queue/Factory;
--     Queue/FactoryLaws holds proofs. MaterializeProc is `materialize_late`.
--   internal/queue/rrl.go: Rrl (the resource-request list); Rrl/Runs and Rrl/Feed hold proofs.
--   internal/qmgmt/handler.go: Qmgmt (one connection's requests over the transactions, those of job
--     factories included); Qmgmt/Inert and Qmgmt/Replies hold proofs.
--   internal/queue/sched.go, and OwnsJobAd of spool.go: Queue/Sched.
--   internal/factory/engine.go, materialize.go, items.go and attrmap.go: Factory/Strings (the items),
--     Factory/Row (the expansion of a proc) and Factory/Engine (one pass over a cluster); Factory/Bounds
--     holds proofs.
--   internal/match/match.go: Match (the table of claims and the ALIVE handler); Match/Lookup and
--     Match/Leases hold proofs.
--   internal/negotiate/negotiate.go: Negotiate (a negotiation round); Negotiate/Left and
--     Negotiate/Assign hold proofs.
--   internal/sched/sched.go: Sched/State (the Scheduler, its events, the registry of runs), Sched/Ads
--     (what is written to job ads), Sched/Exits (handleExited, handleFailed, handleReconnectFailed),
--     Sched/Teardown (handleTeardown, handleDrain, handleRecover), Sched/Periodic (the periodic
--     policy), Sched/Sweep (sweepExpired), Sched/Handle (handleMatch, handleStarted, handle and a turn
--     of loop), Sched/RunJob (runJob and reconnectJob). Sched/Runs, Sched/Registry, Sched/Matching,
--     Sched/Failures, Sched/Inert, Sched/Leases and Sched/Reports hold proofs. The exit code and
--     signal of shadow.Result, shadow/shadow.go, stand in Sched/State.
--   Prelude, Text, ClassAd and Assoc are shared: signed integers, Go strings with strconv.Itoa and
--     Atoi, the ClassAd library, Go maps with string keys. Files named Examples run the model.
-- How they interact: a connection (Qmgmt) holds one transaction at a time (Queue/Txn), which reads the
-- queue, asks Queue/Authz about each edit, stages ads and hands them to the store in Queue/Commit.
-- Queue actions write the store directly. All of them compare users by User and find jobs by Key. A
-- round (Negotiate) gives the Idle jobs of the groups of Rrl to the matches it is granted, and each
-- match is an event of the core (Sched), which writes to the queue by Queue/Sched and Queue/Actions,
-- asks Policy at an exit, and keeps the claims of its runs in Match.
--
-- Correspondence. A function keeps its name in snake case, a struct is a record, a const block a data
-- type or constants. A method that changes its receiver returns the new one. The transaction's in-place
-- change of staged ads is explicit: `prepared` is the transaction after Commit's loop. An error is an
-- Outcome, which tells AuthzError (denied) from the others (failed); the wording is left out.
--
-- What the core hands to other goroutines, a run, a released claim, a canceled context, a closed
-- channel, a call of the user log or a nudge, is an effect in the order of the calls; what comes back
-- is an event. The channel of events holds 256, and an event for a full channel is dropped, as the
-- source does. The detach flag that a run shares with its shadow is a field of the run's entry.
--
-- Parameters: the ClassAd library (ClassAdLib, with its documented laws in ClassAdLaws), the
-- collections library (World, StoreLaws: Put makes an ad's own attributes visible, Delete makes a key
-- absent), security.SplitFQU (Fqu), the projection checksum and the ordered index of Rrl, the vacate
-- hook of the queue actions, the text of errors in Qmgmt, the claim ids and session cache of the cedar
-- library (ClaimLib), the macro engine of golang-htcondor (Macros), what the startd's
-- client and a shadow answer to a run (Answers), what the spooling of a factory's files leaves (the
-- quoted path, or none where it fails), and the clock, which is an argument: `now`, or a Clock where the core reads it more than once for an event.
-- ClassAd.Sample, User.Sample and Queue.Sample show that the laws can be met. A job's clock readings
-- within one handler are taken as one.
--
-- Bounds. strconv.Itoa is written with the number plus one as the count of digits at most, which is
-- enough since each digit divides by ten. Integers are mathematical: ids are read within the range of
-- Go's int where Atoi checks it, and are not near its width elsewhere. Go maps are visited in order of
-- insertion. Letter case is folded for ASCII. A pass of the engine has the limit plus one as fuel, since
-- each round stores a proc below the limit. Proc ids of factories are not negative. Lease times are
-- nanoseconds from Go's zero time, and the products of a lease wrap at 64 bits as in Go. The wait
-- status of a shadow is not negative. A panic of runJob is one of the shadow's run.
--
-- Not modelled: locks, and the callback that wakes the materialization engine; the wire formats; the
-- timers and goroutines around the core, the advertiser and its intervals; the parser of factory
-- digests, the cache of parsed factories and the engine's goroutine; the user
-- log's writer, spooling, the shadow's protocol, statistics and the programs.
pub mod Prelude
pub mod Text
pub mod ClassAd
pub mod Assoc
pub mod Key
pub mod User
pub mod Rrl
pub mod Queue
pub mod Qmgmt
pub mod Policy
pub mod Match
pub mod Factory
pub mod Negotiate
pub mod Sched
