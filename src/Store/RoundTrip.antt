-- ===== src/Store/RoundTrip.antt =====
-- What the Get methods of internal/store/store.go read after a Save.
use tasch.Base.{
  String, none, some, ◌≡◌, refl, ◌⊎◌, inl, inr, arith, str_eq, eq_iff, if◌then◌else◌, Bool-cases,
  Option-cases, ◌≢◌,
}
use tasch.Jobs.{Job}
use tasch.Store.{
  Bucket, Result, failed, done, Bolt, Json, jobs, dead_letters, save, fetch, save_job, get_job,
  get_dead_letter,
}

-- What the store relies on. Of bbolt: a Put that reports no error is read back, and leaves the other
-- keys and buckets; one that reports an error has been rolled back.
pub record BoltLaws {D : Type 0} {B : Type 0} {E : Type 0} (bolt : Bolt D B E) : Type 0 where
  pub put_get :
      (db : D) (b : Bucket) (k : String) (v : B)
      → (bolt.put db b k v).1 ≡ none
      → bolt.get (bolt.put db b k v).0 b k ≡ some v
  pub put_other :
      (db : D) (b c : Bucket) (k j : String) (v : B)
      → (b ≢ c) ⊎ (k ≢ j)
      → bolt.get (bolt.put db b k v).0 c j ≡ bolt.get db c j
  pub put_failed :
      (db : D) (b : Bucket) (k : String) (v : B) (e : E)
      → (bolt.put db b k v).1 ≡ some e
      → (bolt.put db b k v).0 ≡ db

-- Of encoding/json: what Marshal encodes Unmarshal decodes.
abbrev pub Decodes : {A B E : Type 0} → Json A B E → Type 0
Decodes {A = A} {B = B} json = (a : A) (b : B) → json.marshal a ≡ done b → json.unmarshal b ≡ done a

pub Result-cases :
    {E A : Type 0} (r : Result E A) → ((e : E) × (r ≡ failed e)) ⊎ ((a : A) × (r ≡ done a))
Result-cases (failed e) = inl (e, refl)
Result-cases (done a) = inr (a, refl)

pub fetch-save :
    {D B E A : Type 0} (bolt : Bolt D B E) (json : Json A B E)
    → BoltLaws bolt
    → Decodes json
    → (db : D) (b : Bucket) (k j : String) (a : A)
    → let r = save bolt json db b k a in
      ((r.1 ≡ none)
        × (fetch bolt json r.0 b j ≡ (if str_eq k j then done a else fetch bolt json db b j)))
      ⊎ ((r.1 ≢ none) × (r.0 ≡ db))
unfolding save fetch
fetch-save bolt json laws decodes db b k j a = elim (Result-cases (json.marshal a)) [
  | inl (e, bad) ↦ inr (rw (bad, save) (λ h. absurd (ground arith)), rw (bad, save) refl)
  | inr (v, fits) ↦ elim (Option-cases (bolt.put db b k v).1) [
    | inl fine ↦ elim (Bool-cases (str_eq k j)) [
      | inl same ↦
          let e : k ≡ j = (eq_iff k j).0 same in
          inl (
            rw (fits, save) fine,
            rw (fits, save, same, ← e, fetch, laws.put_get db b k v fine) (decodes a v fits),
          )
      | inr apart ↦
          let e : k ≢ j = λ h. ground (arith, eq_iff k j) in
          inl (
            rw (fits, save) fine,
            rw (fits, save, apart, fetch, laws.put_other db b b k j v (inr e)) refl,
          )
    ]
    | inr (e, bad) ↦ inr (
      rw (fits, save) (λ h. absurd (ground arith)),
      rw (fits, save) (laws.put_failed db b k v e bad),
    )
  ]
]

pub fetch-save_other :
    {D B E A C : Type 0} (bolt : Bolt D B E) (json : Json A B E) (json' : Json C B E)
    → BoltLaws bolt
    → (db : D) (b c : Bucket) (k j : String) (a : A) → (b ≢ c) ⊎ (k ≢ j)
    → fetch bolt json' (save bolt json db b k a).0 c j ≡ fetch bolt json' db c j
unfolding save fetch
fetch-save_other bolt json json' laws db b c k j a apart = elim (Result-cases (json.marshal a)) [
  | inl (e, bad) ↦ rw (bad, save) refl
  | inr (v, fits) ↦ rw (fits, save, fetch, laws.put_other db b c k j v apart) refl
]

-- With a database that reads back what was put and an encoding that decodes: SaveJob either reports
-- an error and changes nothing, or GetJob then gives the job under its id and under every other id
-- what it gave before. No dead letter changes.
pub get_job-save_job :
    {D B E : Type 0} (bolt : Bolt D B E) (json : Json Job B E)
    → BoltLaws bolt
    → Decodes json
    → (db : D) (job : Job) (j : String)
    → let r = save_job bolt json db job in
      (((r.1 ≡ none)
          × (get_job bolt json r.0 j
              ≡ (if str_eq job.id j then done job else get_job bolt json db j)))
        ⊎ ((r.1 ≢ none) × (r.0 ≡ db)))
      × (get_dead_letter bolt json r.0 j ≡ get_dead_letter bolt json db j)
get_job-save_job bolt json laws decodes db job j = (
  fetch-save bolt json laws decodes db jobs job.id j job,
  fetch-save_other bolt json json laws db jobs dead_letters job.id j job (inl (λ e. ground arith)),
)
