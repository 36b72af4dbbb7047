-- ===== src/Master/Decay.antt =====
-- The ticker of StartMaster in internal/daemon/master.go: each minute the usage of fairshare decays
-- and is saved.
use tasch.Base.{◌≡◌, refl, ◌⊎◌, inl, inr, Option-cases, Map}
use tasch.Fairshare.{FloatOps, decay_usage}
use tasch.Store.{Bolt, fairshare, save, save_fairshare, load_fairshare}
use tasch.Store.RoundTrip.{BoltLaws, Decodes, Result-cases}
use tasch.Master.Restore.{Formats, load_usage}

module _ {D : Type 0} {B : Type 0} {E : Type 0} {F : Type 0} (bolt : Bolt D B E) (f : Formats B E F)
    (ops : FloatOps F) where
  -- One tick, with 0.95 as the factor. An error of the save is not read.
  unfoldable pub decay_tick : F → D → Map F → D × Map F
  decay_tick factor db usage =
      let usage' = decay_usage ops usage factor in
      ((save_fairshare bolt f.usage_format db usage').0, usage')

  -- A master that starts after a tick has the usage that the tick has left, or the save has failed and
  -- the database is as it was.
  pub load_usage-decay_tick :
      BoltLaws bolt
      → Decodes f.usage_format
      → (factor : F) (db : D) (usage : Map F)
      → (load_usage bolt f (decay_tick factor db usage).0 ≡ decay_usage ops usage factor)
        ⊎ ((decay_tick factor db usage).0 ≡ db)
  unfolding decay_tick save load_usage load_fairshare
  load_usage-decay_tick laws decodes factor db usage =
      let usage' = decay_usage ops usage factor in
      elim (Result-cases (f.usage_format.marshal usage')) [
        | inl (e, bad) ↦ inr (simp (bad, save) refl)
        | inr (v, fits) ↦ elim (Option-cases (bolt.put db fairshare "usage" v).1) [
          | inl fine ↦
              let got = laws.put_get db fairshare "usage" v fine in
              inl (simp (fits, save, load_usage, load_fairshare, got, decodes usage' v fits) refl)
          | inr (e, bad) ↦ inr (simp (fits, save) (laws.put_failed db fairshare "usage" v e bad))
        ]
      ]
