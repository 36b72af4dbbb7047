-- ===== src/Lib.antt =====
-- A verification library for Tasch, a distributed task scheduler: a master keeps a priority queue of
-- jobs, matches them to the nodes of a cluster, sends them to workers, and takes their reports.
--
-- The parts and their files:
--
-- * pkg/scheduler/queue.go. JobQueue.antt has the methods of heap.Interface (Swap, Push, Pop) and the
--   `index` fields of the jobs; Heap.antt the functions of Go's container/heap that run on them; Jobs.antt
--   the job, the group, Copy and Less. Scheduler.antt is GlobalScheduler with Enqueue, Dequeue, Peek,
--   Backfill, RemoveByID and Cancel; Scheduler/Moves.antt has Requeue, MarkRunning, RequeueRunningJob
--   and MarkCompleted, Scheduler/Views.antt the queries and the groups. Fairshare.antt is
--   FairshareCalculator. Scheduler/Spec.antt says without heap, pointers and indices what a call may
--   answer and change. The other files of Heap/ and Scheduler/ hold the proofs.
-- * internal/daemon/master.go. Breaker.antt is circuitBreaker, Tracker.antt is gpuTracker. Master.antt
--   is schedulerServer with appendLog; its modules are the handlers and the rounds of the loops:
--   Submit (SubmitJob, SubmitDistributedJob), Stop (CancelJob, handleGroupCompletion), Report
--   (ReportResult and the retries), Resources (canDispatchResources), Gang (tryDispatchGroup), Dispatch
--   (dispatchJob), Rounds (dispatchLoop), Enforce (walltimeEnforcer, dispatchTimeoutEnforcer,
--   /acknowledge_start, OnLeave). Requirement.antt is parseCELRequirement.
-- * internal/store/store.go is Store.antt, over a database and an encoding that are arguments;
--   Master/Restore.antt is what StartMaster loads from it,
--   Master/Start.antt what it opens and closes (with Open of the store), Master/Decay.antt its ticker,
--   Master/Writer.antt its goroutine that writes changes, Master/Queries.antt the handlers
--   GetJobStatus and ListJobs and the start of StreamLogs.
-- * pkg/matchmaker/evaluator.go is Matchmaker.antt; the master's rounds take its answers as an argument.
-- * pkg/messaging/payload.go (DispatchPayload), in Master.antt.
-- * internal/daemon/worker.go. Worker.antt is the loop on messages and the goroutine of a job, cut into
--   the steps between which other goroutines can come; Worker/Reach.antt puts the steps in every order.
--   Worker/Retry.antt is reportWithRetry and acknowledgeStart, Worker/Subscribe.antt
--   subscribeWithReconnect, Worker/Start.antt StartWorker. What the worker reports is the request that
--   Master/Report.antt takes.
-- * internal/config/config.go is Config.antt, internal/setup/setup.go Setup.antt (RunInteractive,
--   RunNonInteractive); Numbers.antt has Atoi, Sscanf and TrimSpace, which both call.
-- * internal/daemon/stop.go is Daemon/Pid.antt (WritePID, RemovePID) and Daemon/Stop.antt (StopDaemon);
--   cmd/tasch/main.go is Daemon/Command.antt (loadConfig, `tasch start`) and Daemon/Drain.antt.
-- * pkg/profiler/profiler.go and profiler_linux.go are Profiler/Text.antt, Profiler/Gpus.antt
--   and Profiler/Ad.antt, on the outputs of the commands; internal/cli/jobs.go (parseEnvFlags) is Client.antt.
-- * Base.antt and its modules hold what all share: tests on numbers, integers, slices, maps, texts.
--   Tests.antt and its modules hold small states, runs of the code and the theorems at them.
--
-- How state is modelled. The methods of the queue run under one mutex, so each is a function from a
-- state to the next one and a result. A job is a value in a store, named by a pointer (a number); the
-- queue and the map by id share the pointers, so a write through one is seen through the other. What
-- a method returns is a copy and so a value. The `index` fields stand in the queue's own record. The
-- time that a method reads is an argument; one time serves a handler or a round of a loop. Go maps are
-- association lists, iterated in the order of their entries. `int` is an integer without bound: the
-- program's sums stay far below 2 ^ 63. Floating-point numbers, the decoding of a node's advertisement,
-- and Evaluator.Match (CEL) are arguments: they are the work of Go, encoding/json and cel-go.
--
-- Fuel. The loops `up` and `down` of the heap run on fuel: `up` from index j gets j + 1 rounds and its
-- index falls in each, `down` in a heap of n gets n + 1 rounds and its index grows in each below n, so
-- that each loop ends before its fuel does; Heap/Fuel.antt has the proof. reportWithRetry, the wizard's
-- question for an address and the drain get their fuel as an argument and give none without enough;
-- how much is enough is among the results.
--
-- The environment. What the machine, a library or another process answers (files, signals, sockets,
-- TLS, gRPC, the socket of messages, the clock) is an argument: a value, or a function of the number
-- of the attempt. Processes and their output are the argument Exit of a worker's step.
--
-- Not modelled: the handlers of the health server, the loop of StreamLogs, the commands of the client, the profiler of other systems and the printing of
-- hardware, discovery, what is printed and logged, metrics, and the generated gRPC code.
pub mod Base
pub mod JobQueue
pub mod Heap
pub mod Jobs
pub mod Scheduler
pub mod Breaker
pub mod Tracker
pub mod Fairshare
pub mod Master
pub mod Requirement
pub mod Numbers
pub mod Config
pub mod Setup
pub mod Worker
pub mod Daemon
pub mod Profiler
pub mod Client
pub mod Store
pub mod Matchmaker
pub mod Tests
