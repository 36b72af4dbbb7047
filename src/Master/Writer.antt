-- ===== src/Master/Writer.antt =====
-- The goroutine of StartMaster in internal/daemon/master.go that writes the changes of jobs and groups
-- to the store. A change of a job is its pointer, so what is written is the job as it is when the
-- goroutine comes to it.
use tasch.Base.{
  ℕ, String, ◌≡◌, ◌≢◌, refl, ap, ◌∙◌, ◌⊎◌, inl, inr, Option-cases, some, List, [], ◌∷◌, ◌++◌, arith,
}
use tasch.Jobs.{Job, JobGroup}
use tasch.Scheduler.{Change, job_change, group_change}
use tasch.Store.{Bolt, done, jobs, groups, save, fetch, save_job, save_group, get_job}
use tasch.Store.RoundTrip.{BoltLaws, Result-cases, fetch-save_other}
use tasch.Master.Restore.{Formats}

module _ {D : Type 0} {B : Type 0} {E : Type 0} {F : Type 0} (bolt : Bolt D B E)
    (f : Formats B E F) where
  -- An error is logged and not read.
  unfoldable pub write_op : D → (ℕ → Job) → Change → D
  write_op db mem (job_change p) = (save_job bolt f.job_format db (mem p)).0
  write_op db mem (group_change g) = (save_group bolt f.group_format db g).0

  -- The changes stand latest first, as the goroutine takes them from the channel: each with the jobs as
  -- they are then, a group as it is then.
  unfoldable pub write_ops : D → List ((ℕ → Job) × Change) → D
  write_ops db [] = db
  write_ops db ((mem, c) ∷ older) = write_op (write_ops db older) mem c

  -- No change in the list is of a job with this id.
  pub data IsQuiet (id : String) : List ((ℕ → Job) × Change) → Type 0 where
    quiet_end : IsQuiet id []
    quiet_job :
        {mem : ℕ → Job} {p : ℕ} {newer : List ((ℕ → Job) × Change)}
        → (mem p).id ≢ id
        → IsQuiet id newer
        → IsQuiet id ((mem, job_change p) ∷ newer)
    quiet_group :
        {mem : ℕ → Job} {g : JobGroup} {newer : List ((ℕ → Job) × Change)}
        → IsQuiet id newer
        → IsQuiet id ((mem, group_change g) ∷ newer)

  module _ (laws : BoltLaws bolt) where
    get_job-quiet :
        (db : D) (id : String) (newer rest : List ((ℕ → Job) × Change))
        → IsQuiet id newer
        → get_job bolt f.job_format (write_ops db (newer ++ rest)) id
          ≡ get_job bolt f.job_format (write_ops db rest) id
    unfolding write_ops write_op
    get_job-quiet db id [] rest quiet_end = refl
    get_job-quiet db id ((mem, job_change p) ∷ newer) rest (quiet_job other quiet) =
        fetch-save_other bolt f.job_format f.job_format laws (write_ops db (newer ++ rest)) jobs
          jobs (mem p).id id (mem p) (inr other)
        ∙ get_job-quiet db id newer rest quiet
    get_job-quiet db id ((mem, group_change g) ∷ newer) rest (quiet_group quiet) =
        fetch-save_other bolt f.group_format f.job_format laws (write_ops db (newer ++ rest)) groups
          jobs g.group_id id g (inl (λ e. ground arith))
        ∙ get_job-quiet db id newer rest quiet

    fetch-save_own :
        (db : D) (j : Job)
        → ((e : E) × ((save_job bolt f.job_format db j).1 ≡ some e)
            × ((save_job bolt f.job_format db j).0 ≡ db))
          ⊎ ((v : B) × (f.job_format.marshal j ≡ done v)
              × (get_job bolt f.job_format (save_job bolt f.job_format db j).0 j.id
                  ≡ f.job_format.unmarshal v))
    unfolding save fetch
    fetch-save_own db j = elim (Result-cases (f.job_format.marshal j)) [
      | inl (e, bad) ↦ inl (e, rw (bad, save) refl, rw (bad, save) refl)
      | inr (v, fits) ↦ elim (Option-cases (bolt.put db jobs j.id v).1) [
        | inr (e, bad) ↦
            inl (e, rw (fits, save) bad, rw (fits, save) (laws.put_failed db jobs j.id v e bad))
        | inl fine ↦ inr (v, fits, rw (fits, save, fetch, laws.put_get db jobs j.id v fine) refl)
      ]
    ]

    -- The changes that the goroutine has taken, whatever they are: of the latest change of a job with
    -- some id, either the save has reported an error, and GetJob gives under this id what it gave before
    -- that change; or GetJob gives what is decoded from the encoding of the job as it was when the
    -- goroutine took this change.
    pub get_job-write_ops :
        (db : D) (newer older : List ((ℕ → Job) × Change)) (mem : ℕ → Job) (p : ℕ)
        → IsQuiet (mem p).id newer
        → let after = write_ops db (newer ++ (mem, job_change p) ∷ older) in
          let before = write_ops db older in
          ((e : E) × ((save_job bolt f.job_format before (mem p)).1 ≡ some e)
            × (get_job bolt f.job_format after (mem p).id
                ≡ get_job bolt f.job_format before (mem p).id))
          ⊎ ((v : B) × (f.job_format.marshal (mem p) ≡ done v)
              × (get_job bolt f.job_format after (mem p).id ≡ f.job_format.unmarshal v))
    unfolding write_ops write_op
    get_job-write_ops db newer older mem p quiet =
        let on = get_job-quiet db (mem p).id newer ((mem, job_change p) ∷ older) quiet in
        elim (fetch-save_own (write_ops db older) (mem p)) [
          | inl (e, bad, same) ↦
              inl (e, bad, on ∙ ap (λ db. get_job bolt f.job_format db (mem p).id) same)
          | inr (v, fits, got) ↦ inr (v, fits, on ∙ got)
        ]
