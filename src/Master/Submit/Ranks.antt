-- ===== src/Master/Submit/Ranks.antt =====
-- One rank that SubmitDistributedJob of internal/daemon/master.go puts into the queue, and the group that it registers.
use tasch.Base.{
  ℕ, zero, suc, ◌+◌, ◌-◌, ◌≡◌, refl, ap, ◌∙◌, ◌⊎◌, inl, inr, Bool, true, Bool-cases, ◌||◌, not,
  Option, none, some, [], ◌∷◌, length-append, length-set, set, get, insert, lookup-insert, arith,
  eq_iff, ◌==◌,
}
use tasch.Jobs.{Job, JobState, JobGroup}
use tasch.Master.{Server}
use tasch.Master.Submit.{enqueue_new}
use tasch.Scheduler.Views.{get_group, register_group}
use tasch.JobQueue
use tasch.JobQueue.{JobQueue, len}
use tasch.Heap
use tasch.Heap.Ops.{count-push}
use tasch.Scheduler.Lifecycle.{notify-mem, notify-queue}
use tasch.Base.{◌≢◌, count, if◌then◌else◌}
use tasch.Heap.{up_loop, up, parent, less_at}
use tasch.Scheduler.{
  QueueError, GlobalScheduler, is_full, enqueue, queue_len, queue_full, write, set_state, heap_push,
  notify_job_change, notify_group_change, less,
}

swap-len : (q : JobQueue) (i j : ℕ) → len (JobQueue.swap q i j) ≡ len q
unfolding JobQueue.swap
swap-len q i j =
    let a = get q.items i in
    let b = get q.items j in length-set (set q.items i b) j a ∙ length-set q.items i b

module _ (less : ℕ → ℕ → Bool) where
  up_loop-len : (f : ℕ) (q : JobQueue) (j : ℕ) → len (up_loop less f q j) ≡ len q
  unfolding up_loop
  up_loop-len zero q j = refl
  up_loop-len (suc f) q j = elim (Bool-cases (parent j == j || not (less_at less q j (parent j)))) [
    | inl stop ↦ rw (stop, up_loop) refl
    | inr go ↦
        rw (go, up_loop)
          (up_loop-len f (JobQueue.swap q (parent j) j) (parent j) ∙ swap-len q (parent j) j)
  ]

  push-len : (q : JobQueue) (p : ℕ) → len (Heap.push less q p) ≡ len q + 1
  unfolding Heap.push up JobQueue.push
  push-len q p =
      let r = JobQueue.push q p in
      up_loop-len (suc (len r - 1)) r (len r - 1) ∙ length-append q.items (p ∷ [])

notify-len : (s : GlobalScheduler) (p : ℕ) → queue_len (notify_job_change s p) ≡ queue_len s
unfolding notify_job_change
notify-len s p = elim (Bool-cases s.on_job_change) [ inl on ↦ rw on refl | inr off ↦ rw off refl ]

notify-groups : (s : GlobalScheduler) (p : ℕ) → (notify_job_change s p).groups ≡ s.groups
unfolding notify_job_change
notify-groups s p = elim (Bool-cases s.on_job_change) [
  | inl on ↦ rw on refl
  | inr off ↦ rw off refl
]

-- Whether Enqueue lets a job in, with no word of what is well formed.
enqueue_enters :
    (s : GlobalScheduler) (p : ℕ)
    → ((e : QueueError) × (is_full s ≡ true) × (enqueue s p ≡ (s, some e)))
      ⊎ ((s' : GlobalScheduler) × (enqueue s p ≡ (s', none))
          × (queue_len s' ≡ queue_len s + 1)
          × (s'.groups ≡ s.groups)
          × (s'.mem ≡ (write s p (record (s.mem p) { state = JobState.queued })).mem)
          × ((r : ℕ) → count r s'.queue.items ≡ count r s.queue.items + (if p == r then 1 else 0)))
unfolding enqueue heap_push set_state
enqueue_enters s p = elim (Bool-cases (is_full s)) [
  | inl full ↦ inl (queue_full s.max_queue_size, full, rw full refl)
  | inr room ↦
      let s₁ = set_state s p JobState.queued in
      let s₂ = record s₁ { jobs = insert (s₁.mem p).id p s₁.jobs } in
      let s₃ = heap_push s₂ p in
      inr (
        notify_job_change s₃ p,
        rw room refl,
        notify-len s₃ p ∙ push-len (less s₂) s.queue p,
        notify-groups s₃ p,
        notify-mem s₃ p,
        λ r. rw (notify-queue s₃ p) (count-push (less s₂) s.queue p r),
      )
]

-- The job is let in through the pointer `p`.
pub record Entered (s : GlobalScheduler) (p : ℕ) (job : Job) (s' : GlobalScheduler) : Type 0 where
  pub size : queue_len s' ≡ queue_len s + 1
  pub groups : s'.groups ≡ s.groups
  pub written : s'.mem p ≡ record job { state = JobState.queued }
  pub others : (q : ℕ) → p ≢ q → s'.mem q ≡ s.mem q
  pub entries : (q : ℕ) → count q s'.queue.items ≡ count q s.queue.items + (if p == q then 1 else 0)

pub enqueue_new_enters :
    {F : Type 0} (srv : Server F) (p : ℕ) (job : Job)
    → ((e : QueueError) × (is_full (write srv.queue p job) ≡ true)
        × (enqueue_new srv p job ≡ (record srv { queue = write srv.queue p job }, some e)))
      ⊎ ((s' : GlobalScheduler) × (enqueue_new srv p job ≡ (record srv { queue = s' }, none))
          × Entered srv.queue p job s')
unfolding enqueue_new
enqueue_new_enters srv p job = elim (enqueue_enters (write srv.queue p job) p) [
  | inl (e, full, same) ↦ inl (
    e,
    full,
    ap (λ (r : GlobalScheduler × Option QueueError). (record srv { queue = r.0 }, r.1)) same,
  )
  | inr (s', same, size, groups, mem, counts) ↦ inr (
    s',
    ap (λ (r : GlobalScheduler × Option QueueError). (record srv { queue = r.0 }, r.1)) same,
    record {
      size = size;
      groups = groups;
      written = rw mem (ground arith);
      others = λ q apart. rw mem (ground arith);
      entries = counts;
    },
  )
]

pub register_group_lem :
    (s : GlobalScheduler) (g : JobGroup)
    → ((register_group s g).queue ≡ s.queue) × ((register_group s g).mem ≡ s.mem)
unfolding register_group notify_group_change
register_group_lem s g = elim (Bool-cases s.on_group_change) [
  | inl on ↦ rw on (refl, refl)
  | inr off ↦ rw off (refl, refl)
]

pub get_group-register_group :
    (s : GlobalScheduler) (g : JobGroup) → get_group (register_group s g) g.group_id ≡ some g
unfolding register_group notify_group_change get_group
get_group-register_group s g =
    let found = lookup-insert g.group_id g.group_id g s.groups in
    elim (Bool-cases s.on_group_change) [
      | inl on ↦ ground (arith, found, eq_iff g.group_id g.group_id)
      | inr off ↦ ground (arith, found, eq_iff g.group_id g.group_id)
    ]
