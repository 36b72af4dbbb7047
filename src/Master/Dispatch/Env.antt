-- ===== src/Master/Dispatch/Env.antt =====
-- The environment that dispatchJob of internal/daemon/master.go sends with a job.
use tasch.Jobs.Copy.{lookup-copy_entries}
use tasch.Base.{
  ◌∙◌, ltb_ℤ, pos, String, ℤ, some, inl, inr, Map, lookup, ◌≡◌, arith, Bool-cases, Option-cases,
  str_eq, eq_iff, lookup-insert,
}
use tasch.Jobs.{Job}
use tasch.Master.Resources.{Cluster}
use tasch.Master.Dispatch.{insert_new, bind_gpus, env_copy, dispatch_env}

insert_new_keeps :
    (j k v w : String) (m : Map String) → lookup j m ≡ some w → lookup j (insert_new k v m) ≡ some w
unfolding insert_new
insert_new_keeps j k v w m h = elim (Option-cases (lookup k m)) [
  | inr (x, taken) ↦ rw (taken, insert_new) h
  | inl free ↦ ground (arith, free, eq_iff k j, lookup-insert j k v m)
]

bind_gpus_keeps :
    (vendor : String) (gpus : ℤ) (j w : String) (m : Map String)
    → lookup j m ≡ some w
    → lookup j (bind_gpus vendor gpus m) ≡ some w
unfolding bind_gpus
bind_gpus_keeps vendor gpus j w m h = elim (Bool-cases (str_eq vendor "intel")) [
  | inl intel ↦ rw intel (insert_new_keeps j _ _ w _ (insert_new_keeps j _ _ w m h))
  | inr a ↦ elim (Bool-cases (str_eq vendor "apple")) [
    | inl apple ↦ rw (a, apple) (insert_new_keeps j _ _ w m h)
    | inr b ↦ elim (Bool-cases (str_eq vendor "amd")) [
      | inl amd ↦ rw (a, b, amd) (insert_new_keeps j _ _ w m h)
      | inr d ↦ rw (a, b, d) (insert_new_keeps j _ _ w m h)
    ]
  ]
]

lookup-env_copy :
    (job : Job) (m : Map String) (k : String)
    → job.env_vars ≡ some m
    → lookup k (env_copy job) ≡ lookup k m
unfolding env_copy
lookup-env_copy job m k e = rw (e, env_copy) (lookup-copy_entries k m)

-- Each variable of the job is sent with its value: the binding of GPUs overwrites none of them.
pub dispatch_env_keeps :
    (c : Cluster) (job : Job) (node k v : String) (m : Map String)
    → job.env_vars ≡ some m
    → lookup k m ≡ some v
    → lookup k (dispatch_env c job node) ≡ some v
unfolding dispatch_env
dispatch_env_keeps c job node k v m e h =
    let kept : lookup k (env_copy job) ≡ some v = lookup-env_copy job m k e ∙ h in
    elim (Bool-cases (ltb_ℤ (pos 0) job.gpus_required)) [
      | inl asks ↦ rw asks (bind_gpus_keeps _ job.gpus_required k v (env_copy job) kept)
      | inr asks_none ↦ rw asks_none kept
    ]
