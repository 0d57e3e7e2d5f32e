-- ===== src/Version/Wire.antt =====
-- model/version.cpp: the vector on the wire.
use syncspirit.Prelude.{
  ℕ, zero, suc, ◌<◌, ◌≡◌, refl, ◌↔◌, true, List, [], ◌∷◌, some, arith, length, map,
}
use syncspirit.Prelude.Find.{All}
use syncspirit.Version.{
  Counter, Version, best_mask, find_best, mark_at, from_proto, to_proto, same_counters,
  identical_to, unmarked,
}

-- Every value leaves the mark's bit free.
abbrev pub IsPlain : List Counter → Type 0
IsPlain = All (λ c. c.value < best_mask)

map-unmarked : (cs : List Counter) → IsPlain cs → map unmarked cs ≡ cs
map-unmarked [] h = refl
map-unmarked (c ∷ cs) h = ground (arith, map-unmarked cs h.1)

map-mark_at : (i : ℕ) (cs : List Counter) → IsPlain cs → map unmarked (mark_at i cs) ≡ cs
unfolding mark_at
map-mark_at i [] h = refl
map-mark_at zero (c ∷ cs) h = ground (arith, map-unmarked cs h.1)
map-mark_at (suc i) (c ∷ cs) h = ground (arith, map-mark_at i cs h.1)

-- A vector read from the wire is written back as it came.
pub to_proto-from_proto :
    (cs : List Counter) (v : Version) → IsPlain cs → from_proto cs ≡ some v → to_proto v ≡ cs
unfolding from_proto to_proto
to_proto-from_proto [] v h e = cc
to_proto-from_proto (c ∷ cs) v h e =
    ground (arith, map-mark_at (find_best (c ∷ cs) 0 0 c.value) (c ∷ cs) h)

same_counters_sound :
    (cs ds : List Counter)
    → length cs ≡ length ds
    → same_counters cs ds ≡ true
    → map unmarked cs ≡ map unmarked ds
unfolding same_counters
same_counters_sound [] [] n h = refl
same_counters_sound [] (d ∷ ds) n h = ground arith
same_counters_sound (c ∷ cs) [] n h = ground arith
same_counters_sound (c ∷ cs) (d ∷ ds) n h = ground (arith, same_counters_sound cs ds)

same_counters_complete :
    (cs ds : List Counter)
    → map unmarked cs ≡ map unmarked ds
    → (length cs ≡ length ds) × (same_counters cs ds ≡ true)
unfolding same_counters
same_counters_complete [] [] e = (refl, refl)
same_counters_complete [] (d ∷ ds) e = cc
same_counters_complete (c ∷ cs) [] e = cc
same_counters_complete (c ∷ cs) (d ∷ ds) e = ground (arith, same_counters_complete cs ds)

-- Two vectors are identical exactly when they are written alike on the wire.
pub identical_to_iff : (v w : Version) → (identical_to v w ≡ true) ↔ (to_proto v ≡ to_proto w)
unfolding identical_to to_proto
identical_to_iff v w = (
  λ h. ground (arith, same_counters_sound v.counters w.counters),
  λ e. ground (arith, same_counters_complete v.counters w.counters e),
)
