-- ===== src/ConcList/Tests.antt =====
-- Keys 5 and 106 share a bucket; -1 has none.
use sysprg.Prelude.{◌≡◌, refl, true, false, none, some, [], ◌∷◌, replicate}
use sysprg.Prelude.Int.{pos, negsuc}
use sysprg.ConcList.{Hash, run, buckets}
use sysprg.ConcList.Lookup.{Told, run-Told}

-- An array that was used before.
abbrev old : Hash
old = replicate buckets (pos 7 ∷ [])

run-Told_example :
    Told
      (pos 106)
      ((true, pos 5) ∷ (true, pos 106) ∷ [])
      (run old ((true, pos 5) ∷ (true, pos 106) ∷ []) (pos 106))
run-Told_example = run-Told old ((true, pos 5) ∷ (true, pos 106) ∷ []) (pos 106) refl

-- The second insertion fails.
not_inserted : run old ((true, pos 5) ∷ (false, pos 106) ∷ []) (pos 106) ≡ some (negsuc 0)
unfolding run
not_inserted = refl

before_array : run old ((true, pos 5) ∷ []) (negsuc 0) ≡ none
unfolding run
before_array = refl
