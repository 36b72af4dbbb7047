-- ===== src/Jobs/Copy.antt =====
-- Copy gives a job with the same fields and a map with the same entries.
use tasch.Base.{String, ◌≡◌, refl, Map, lookup, lookup-insert, [], ◌∷◌, arith}
use tasch.Jobs.{copy_entries}

pub lookup-copy_entries : (k : String) (m : Map String) → lookup k (copy_entries m) ≡ lookup k m
unfolding copy_entries lookup
lookup-copy_entries k [] = refl
lookup-copy_entries k ((j, v) ∷ m) =
    ground (arith, lookup-insert k j v (copy_entries m), lookup-copy_entries k m)
