-- ===== src/Tests/SpecTests.antt =====
-- The theorems on the promises of the scheduler and on the loops of its heap, at a state of three jobs.
use tasch.Base.{refl, pos, lookup, insert, arith}
use tasch.Scheduler.{new_global_scheduler, enqueue, set_state, heap_push, notify_job_change}
use tasch.Scheduler.WellFormed.{IsWellFormed}
use tasch.Scheduler.Reach.{IsFree}
use tasch.Scheduler.Spec.{enqueues}
use tasch.Scheduler.Spec.Calls.{perform, IsFresh, IsAllowed}
use tasch.Scheduler.Spec.Refines.{perform-IsAllowed}
use tasch.Tests.{job, three}
use tasch.Tests.SchedulerTests.{three-IsWellFormed}

fourth-IsFree : IsFree three 3
unfolding new_global_scheduler enqueue set_state heap_push notify_job_change lookup insert
fourth-IsFree id e = ground arith

fourth-IsFresh : IsFresh three 3 (enqueues (job "next" (pos 5) 11))
unfolding new_global_scheduler enqueue set_state heap_push notify_job_change lookup insert
fourth-IsFresh = (refl, fourth-IsFree)

perform-IsAllowed_example :
    IsAllowed three 3 (enqueues (job "next" (pos 5) 11))
    × IsWellFormed (perform three 3 (enqueues (job "next" (pos 5) 11))).0
perform-IsAllowed_example =
    perform-IsAllowed three 3 (enqueues (job "next" (pos 5) 11)) three-IsWellFormed fourth-IsFresh
