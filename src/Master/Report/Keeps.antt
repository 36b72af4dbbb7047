-- ===== src/Master/Report/Keeps.antt =====
-- The steps of ReportResult that touch neither the retries nor the dead letters of the master, of
-- internal/daemon/master.go.
use tasch.Base.{
  ℕ, String, Bool, true, false, List, [], ◌∷◌, ◌≡◌, inl, inr, refl, ◌∙◌, Bool-cases, Option-cases,
  str_eq,
}
use tasch.Jobs.{Job, JobGroup}
use tasch.Scheduler.{cancel}
use tasch.Scheduler.Views.{get_group}
use tasch.Fairshare.{FloatOps}
use tasch.Master.{Server, append_log, send, release_job}
use tasch.Master.Stop.{
  stop_on_node, cancel_sibling, cancel_siblings, complete_group, handle_group_completion, is_final,
  all_done,
}
use tasch.Master.Report.{ReportResultRequest, settle, bury, conclude}

-- A step that touches neither the retries nor the dead letters.
pub record Keeps {F : Type 0} (srv srv' : Server F) : Type 0 where
  pub retries : srv'.retries ≡ srv.retries
  pub dead_letters : srv'.dead_letters ≡ srv.dead_letters

pub Keeps-refl : {F : Type 0} (srv : Server F) → Keeps srv srv
Keeps-refl srv = record { retries = refl; dead_letters = refl }

pub Keeps-trans : {F : Type 0} {a b d : Server F} → Keeps a b → Keeps b d → Keeps a d
Keeps-trans h k = record {
  retries = k.retries ∙ h.retries;
  dead_letters = k.dead_letters ∙ h.dead_letters;
}

stop_on_node-Keeps : {F : Type 0} (srv : Server F) (job : Job) → Keeps srv (stop_on_node srv job)
unfolding stop_on_node send release_job
stop_on_node-Keeps srv job = elim (Bool-cases (str_eq job.worker_node "")) [
  | inl nowhere ↦ rw nowhere (Keeps-refl srv)
  | inr placed ↦ rw placed (record { retries = refl; dead_letters = refl })
]

cancel_sibling-Keeps :
    {F : Type 0} (srv : Server F) (jid : String) (now : ℕ) → Keeps srv (cancel_sibling srv jid now)
unfolding cancel_sibling
cancel_sibling-Keeps srv jid now =
    let r = cancel srv.queue jid now in
    let srv' = record srv { queue = r.0 } in
    elim (Option-cases r.1) [
      | inl missing ↦ rw (missing, cancel_sibling) (record { retries = refl; dead_letters = refl })
      | inr (job, found) ↦ elim (Bool-cases r.2) [
        | inl ended ↦
            rw (found, ended, cancel_sibling)
              (let k = stop_on_node-Keeps srv' job in
                record { retries = k.retries; dead_letters = k.dead_letters })
        | inr over ↦
            rw (found, over, cancel_sibling) (record { retries = refl; dead_letters = refl })
      ]
    ]

cancel_siblings-Keeps :
    {F : Type 0} (srv : Server F) (completed : String) (jids : List String) (now : ℕ)
    → Keeps srv (cancel_siblings srv completed jids now)
unfolding cancel_siblings
cancel_siblings-Keeps srv completed [] now = Keeps-refl srv
cancel_siblings-Keeps srv completed (jid ∷ jids) now = elim (Bool-cases (str_eq jid completed)) [
  | inl itself ↦ rw itself (cancel_siblings-Keeps srv completed jids now)
  | inr other ↦ rw other (
      Keeps-trans (cancel_sibling-Keeps srv jid now)
        (cancel_siblings-Keeps (cancel_sibling srv jid now) completed jids now))
]

complete_group-Keeps :
    {F : Type 0} (srv : Server F) (group : JobGroup) (completed : String) (success : Bool) (now : ℕ)
    → Keeps srv (complete_group srv group completed success now)
unfolding complete_group
complete_group-Keeps srv group completed false now =
    let k = cancel_siblings-Keeps srv completed group.job_ids now in
    record { retries = k.retries; dead_letters = k.dead_letters }
complete_group-Keeps srv group completed true now =
    elim (Bool-cases (all_done srv.queue group.job_ids)) [
      | inl over ↦ rw over (record { retries = refl; dead_letters = refl })
      | inr open_rank ↦ rw open_rank (Keeps-refl srv)
    ]

pub handle_group_completion-Keeps :
    {F : Type 0} (srv : Server F) (group_id completed : String) (success : Bool) (now : ℕ)
    → Keeps srv (handle_group_completion srv group_id completed success now)
unfolding handle_group_completion
handle_group_completion-Keeps srv group_id completed success now =
    elim (Option-cases (get_group srv.queue group_id)) [
      | inl missing ↦ rw (missing, handle_group_completion) (Keeps-refl srv)
      | inr (group, found) ↦ elim (Bool-cases (is_final group.state)) [
        | inl over ↦ rw (found, over, handle_group_completion) (Keeps-refl srv)
        | inr going ↦
            rw (found, going, handle_group_completion)
              (complete_group-Keeps srv (record group { group_id = group_id }) completed success
                now)
      ]
    ]

pub settle-Keeps :
    {F : Type 0} (ops : FloatOps F) (srv : Server F) (req : ReportResultRequest) (job : Job)
    (now : ℕ)
    → Keeps srv (settle ops srv req job now)
unfolding settle release_job
settle-Keeps ops srv req job now = elim (Bool-cases (str_eq job.worker_node "")) [
  | inl nowhere ↦ rw nowhere (record { retries = refl; dead_letters = refl })
  | inr placed ↦ rw placed (record { retries = refl; dead_letters = refl })
]

pub queue-settle :
    {F : Type 0} (ops : FloatOps F) (srv : Server F) (req : ReportResultRequest) (job : Job)
    (now : ℕ)
    → (settle ops srv req job now).queue ≡ srv.queue
unfolding settle release_job
queue-settle ops srv req job now = elim (Bool-cases (str_eq job.worker_node "")) [
  | inl nowhere ↦ rw nowhere refl
  | inr placed ↦ rw placed refl
]

-- What ends a report after the dead letters.
pub tail-Keeps :
    {F : Type 0} (ops : FloatOps F) (srv : Server F) (req : ReportResultRequest) (job : Job)
    (now : ℕ)
    → Keeps (bury ops srv req job now) (conclude ops srv req job now)
unfolding conclude append_log
tail-Keeps ops srv req job now =
    let b = bury ops srv req job now in
    let h = handle_group_completion-Keeps b job.group_id req.job_id req.success now in
    elim (Bool-cases (str_eq job.group_id "")) [
      | inl single ↦ elim (Bool-cases (str_eq req.error "")) [
        | inl fine ↦ rw (single, fine) (record { retries = refl; dead_letters = refl })
        | inr told ↦ rw (single, told) (record { retries = refl; dead_letters = refl })
      ]
      | inr grouped ↦ elim (Bool-cases (str_eq req.error "")) [
        | inl fine ↦
            rw (grouped, fine) (record { retries = h.retries; dead_letters = h.dead_letters })
        | inr told ↦
            rw (grouped, told) (record { retries = h.retries; dead_letters = h.dead_letters })
      ]
    ]
