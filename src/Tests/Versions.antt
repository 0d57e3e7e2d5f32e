-- ===== src/Tests/Versions.antt =====
-- Runs of model/version.cpp.
use syncspirit.Prelude.{ℕ, ◌+◌, ◌≡◌, refl, true, false, List, [], ◌∷◌, some, arith}
use syncspirit.Version.{
  Counter, Version, best_mask, from_proto, update, get_best, contains, find_best, mark_at,
  next_value, index_of, update_index, covers,
}
use syncspirit.Version.Update.{update-get_best, update_supersedes}

abbrev pub counter : ℕ → ℕ → Counter
counter id value = record { id = id; value = value }

abbrev message : List Counter
message = counter 7 2 ∷ counter 9 10 ∷ counter 4 10 ∷ []

-- Device 9 is the best one.
abbrev pub parsed : Version
parsed = record { counters = counter 7 2 ∷ counter 9 (best_mask + 10) ∷ counter 4 10 ∷ [] }

parsed_lem : from_proto message ≡ some parsed
unfolding from_proto find_best mark_at
parsed_lem = refl

get_best_run : get_best parsed ≡ counter 9 10
unfolding get_best
get_best_run = refl

-- Device 7 writes in front of the mark, and its update is not seen.
update-get_best_example : get_best (update 7 100 parsed) ≡ get_best parsed
unfolding update_index index_of
update-get_best_example = update-get_best 7 100 parsed

-- Device 9 is updated in its place.
update_supersedes_example :
    (contains (update 9 100 parsed) parsed ≡ true) × (contains parsed (update 9 100 parsed) ≡ false)
unfolding next_value get_best contains covers update_index index_of
update_supersedes_example =
    update_supersedes 9 100 parsed (omega arith) (omega arith) (omega arith) refl refl
