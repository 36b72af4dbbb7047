-- ===== src/Store.antt =====
-- internal/store/store.go: jobs, groups, fairshare usage and dead letters in the buckets of a bbolt
-- database. bbolt and encoding/json are parameters; Open and Close are calls of bbolt alone.
pub mod RoundTrip
use tasch.Base.{String, Option, none, some, List, [], ◌∷◌, Map}
use tasch.Jobs.{Job, JobGroup}

pub data Bucket : Type 0 where
  jobs groups fairshare dead_letters : Bucket

-- What a function of Go gives that returns a value and an error.
pub data Result {ℓ} (E : Type ℓ) (A : Type ℓ) : Type ℓ where
  failed : E → Result E A
  done : A → Result E A

-- bbolt, with a transaction a call: `put` and `delete` are an Update, `get` and `entries` a View of
-- one Get and of one ForEach. `not_found` is the error that the store itself makes.
pub record Bolt (D : Type 0) (B : Type 0) (E : Type 0) : Type 0 where
  pub put : D → Bucket → String → B → D × Option E
  pub delete : D → Bucket → String → D × Option E
  pub get : D → Bucket → String → Option B
  pub entries : D → Bucket → Result E (List (String × B))
  pub not_found : Bucket → E

-- json.Marshal and json.Unmarshal at one type.
pub record Json (A : Type 0) (B : Type 0) (E : Type 0) : Type 0 where
  pub marshal : A → Result E B
  pub unmarshal : B → Result E A

module _ {D : Type 0} {B : Type 0} {E : Type 0} (bolt : Bolt D B E) where
  -- The body that the Save methods share.
  unfoldable pub save : {A : Type 0} → Json A B E → D → Bucket → String → A → D × Option E
  save json db bucket key value = elim (json.marshal value) [
    | failed e ↦ (db, some e)
    | done data' ↦ bolt.put db bucket key data'
  ]

  -- The loop of ForEach: an entry that does not decode is passed over.
  unfoldable pub decode_all : {A : Type 0} → Json A B E → List (String × B) → List A
  decode_all json [] = []
  decode_all json ((k, v) ∷ kvs) =
      let rest = decode_all json kvs in
      elim (json.unmarshal v) [ failed e ↦ rest | done value ↦ value ∷ rest ]

  unfoldable pub load : {A : Type 0} → Json A B E → D → Bucket → Result E (List A)
  load json db bucket = elim (bolt.entries db bucket) [
    | failed e ↦ failed e
    | done kvs ↦ done (decode_all json kvs)
  ]

  unfoldable pub fetch : {A : Type 0} → Json A B E → D → Bucket → String → Result E A
  fetch json db bucket key = elim (bolt.get db bucket key) [
    | none ↦ failed (bolt.not_found bucket)
    | some v ↦ json.unmarshal v
  ]

  abbrev pub save_job : Json Job B E → D → Job → D × Option E
  save_job json db job = save json db jobs job.id job

  abbrev pub load_jobs : Json Job B E → D → Result E (List Job)
  load_jobs json db = load json db jobs

  abbrev pub delete_job : D → String → D × Option E
  delete_job db job_id = bolt.delete db jobs job_id

  abbrev pub get_job : Json Job B E → D → String → Result E Job
  get_job json db job_id = fetch json db jobs job_id

  abbrev pub save_group : Json JobGroup B E → D → JobGroup → D × Option E
  save_group json db group = save json db groups group.group_id group

  abbrev pub load_groups : Json JobGroup B E → D → Result E (List JobGroup)
  load_groups json db = load json db groups

  abbrev pub save_fairshare : {F : Type 0} → Json (Map F) B E → D → Map F → D × Option E
  save_fairshare json db usage = save json db fairshare "usage" usage

  -- A missing entry is an empty map.
  unfoldable pub load_fairshare : {F : Type 0} → Json (Map F) B E → D → Result E (Map F)
  load_fairshare json db = elim (bolt.get db fairshare "usage") [
    | none ↦ done []
    | some v ↦ json.unmarshal v
  ]

  abbrev pub save_dead_letter : Json Job B E → D → Job → D × Option E
  save_dead_letter json db job = save json db dead_letters job.id job

  abbrev pub load_dead_letters : Json Job B E → D → Result E (List Job)
  load_dead_letters json db = load json db dead_letters

  abbrev pub get_dead_letter : Json Job B E → D → String → Result E Job
  get_dead_letter json db job_id = fetch json db dead_letters job_id
