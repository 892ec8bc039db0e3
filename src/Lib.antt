-- ===== src/Lib.antt =====
-- Verification of llama-swap: a proxy that starts and stops model servers on demand.
--
-- The program. The router (internal/router) runs one loop that hands events to a scheduler
-- (internal/router/scheduler), one at a time: a request arrives or is cancelled, a swap has ended,
-- a request was served, a timer ticks, models are unloaded, the program shuts down. The scheduler
-- decides which model may serve which request, which models a swap stops, and what waits. A planner
-- (the matrix or the groups) tells it what a model evicts, and the processes (internal/process)
-- tell it their states.
--
-- The model. `Fifo` (Scheduler/Types) is the FIFO struct of fifo.go with its maps as functions of
-- the model's name or as association lists (`active`), and a log `effects` of the calls that the
-- scheduler makes to the rest of the program, the latest first. `World` holds what the rest of the
-- program answers while one event is handled: the clock, the states of the processes, the
-- planner's evictions, and for each request whether its caller still takes an answer and whether
-- the loop guard holds its session. The theorems hold for every World, which may differ from event
-- to event.
--
-- The files, each with the code it is about (internal/router/scheduler unless a path is given):
--   Scheduler/Types      scheduler.go, the structs of fifo.go and kvwarm.go;
--                        internal/swaputil/tier.go, internal/process/process.go
--   Scheduler/Park       markParked, markWaitingFor, clearParked, markKVParked
--   Scheduler/Queue      enqueue, blockedByRankBarrier
--   Scheduler/Swaps      the map of active swaps, runningSet, collidesWith, conflictsWithInFlight,
--                        beingEvicted
--   Scheduler/Admission  sendAdmission, atCapacity, kvAdmit, releaseKV and grantHandler's reservation
--   Scheduler/Preempt    tryPreempt, dropGranted; internal/swaputil/preempt.go, CanPreempt
--   Scheduler/Grace      withinGrace, deferredByGrace, FinishCooldown, markGraceParked
--   Scheduler/KvWarm     kvwarm.go, the slot cooldown
--   Scheduler/Grant      grantHandler, startSwap, the decision tree of OnRequest and drainQueue
--   Scheduler/Drain      drainQueue
--   Scheduler/Events     OnRequest, OnCancel, OnSwapDone, OnServeDone, OnTick, OnUnload, OnShutdown
--   Scheduler/Setup      NewFIFO, and histories of events
--   Scheduler/Conserve   where requests go; its children follow the calls up to whole histories
--   Scheduler/Safety     what the active swaps may stop; likewise
--   Scheduler/Capacity   the counts of requests in flight; likewise
--   Scheduler/Pool       the KV tokens in flight; likewise
-- and beside the other definitions, in files of their own, the laws of one component each; the
-- children of Scheduler/Queue follow the order of the queue up to whole histories.
-- The planner of the swap matrix (internal/matrix), which answers what a swap evicts:
--   Matrix/Masks         bitMask of program.go: words of 64 bits, each bit a Boolean
--   Matrix/Syntax        node of dsl.go; a linked node has its set's root in place of the pointer
--   Matrix/Dsl           dsl.go; Dsl/Tokens the tokenizer, Dsl/Parser the parser, and the printer of
--                        Dsl/Parser/Print and Dsl/Tokens/Spell, which specifies what they read
--   Matrix/Compile       Compile and topologicalOrder of program.go; Compile/Stands says which
--                        combinations a named expression stands for, whatever the sets refer to
--   Matrix/Evaluate      evaluator, evaluate, addToFrontier; Evaluate/Choices says which
--                        combinations of models an expression stands for
--   Matrix/Program       computeSupport, Solve, CanContainAll, findContaining, flattenWitness
-- Router/Planners models EvictionFor of internal/router/matrix.go, which keeps the last decision of
-- the planner above, and of internal/router/group.go. Cache models internal/cache/cache.go, the byte
-- strings that the metrics keep within a limit; Cache/Laws says when one is valid.
-- Ring models internal/ring/buffer.go, the buffer of samples of the performance monitor; its
-- children show what it holds.
-- The Examples files have concrete states and the theorems applied to them. Prelude has the
-- conditional, Boolean tests, lists, texts and signed integers over the native numbers.
--
-- Conventions. A request is identified by its Respond channel, a number here, and its context by
-- another. Times are nanoseconds. Counts are natural numbers without overflow: where the code
-- decrements and tests `<= 0`, the model's subtraction stops at 0. Tier ranks and priorities are
-- signed. The code removes a swap from the map before it walks its waiters, and so does the model;
-- where the code ranges over a map, the model takes the order of its list, on which the answers to
-- different requests may depend but no theorem here does. Every loop of the scheduler is over a list
-- and is structural recursion, so no fuel is needed there. A World answers the same within one event.
--
-- In the planner the tokenizer has one unit of fuel more than the input has runes, the parser three
-- for each token and three more, and the visit of a set one more than there are sets. The classes of
-- package unicode (`Unicode`) and the resolver of names are parameters. A string is its runes, so a
-- text that is no valid UTF-8 is outside the model. The memo tables of collect and evaluate are left
-- out. Costs are natural numbers: internal/config/matrix.go refuses a cost below 1. The map of the
-- model bits is the list of the models in the order of their bits; where computeSupport ranges over a
-- map, the model takes the order of the leaves, which only permutes the bits. The eviction loop of
-- the cache is structural recursion on its order; a key of it is a natural number, as the counters
-- that the metrics use are.
--
-- Not modelled: the snapshots for readers outside the run loop (capacity.go, most of grace.go,
-- slot_warm_reporter.go, broadcastQueuePositions), which change no decision; log lines; the
-- goroutines of the router, the HTTP server, the processes, the configuration reader, and the
-- loop guard (its verdict is a World's `penalty_held`). The scheduler asks a World's `eviction_for`,
-- which stands for either planner.
pub mod Prelude
pub mod Cache
pub mod Matrix
pub mod Ring
pub mod Router
pub mod Scheduler
