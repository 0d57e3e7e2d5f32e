-- ===== src/Tests/Assembling.antt =====
-- Runs of model/diff/diff_assembler.cpp.
use syncspirit.Prelude.{ℕ, ◌≡◌, refl, false, true, [], ◌∷◌, none, some, arith}
use syncspirit.DiffAssembler.{
  Node, diff, interrupt, Chain, Assembler, make, push_back, push_front, push_all, consume,
  is_overused, has_diffs,
}
use syncspirit.DiffAssembler.Batches.{batches, HasRoot, push_all-HasRoot, push_all_refused}

abbrev alone : ℕ → Chain
alone n = record { first = n; siblings = [] }

abbrev with_sibling : Chain
with_sibling = record { first = 7; siblings = 8 ∷ [] }

batches_run :
    batches 2 2 (alone 1 ∷ with_sibling ∷ alone 3 ∷ [])
    ≡ diff 1 ∷ diff 7 ∷ diff 8 ∷ interrupt ∷ diff 3 ∷ []
unfolding batches
batches_run = refl

push_all-HasRoot_example :
    HasRoot
      (batches 2 2 (alone 1 ∷ with_sibling ∷ alone 3 ∷ []))
      (push_all (alone 1 ∷ with_sibling ∷ alone 3 ∷ []) (make 2))
push_all-HasRoot_example = push_all-HasRoot 2 1 (with_sibling ∷ alone 3 ∷ []) (omega arith)

push_all_refused_example : push_all (with_sibling ∷ alone 3 ∷ []) (make 2) ≡ none
push_all_refused_example = push_all_refused 2 with_sibling (alone 3) [] (omega arith) refl

-- A diff in front of others is taken for the last one.
abbrev pushed_twice : Assembler
pushed_twice = record (make 9) { left = 7; total = 2; root = diff 2 ∷ diff 1 ∷ []; next = some 1 }

push_front_run :
    push_front
      (alone 2)
      (record (make 9) { left = 8; total = 1; root = diff 1 ∷ []; next = some 0 })
    ≡ some (pushed_twice, false)
unfolding push_front
push_front_run = refl

push_back_after : push_back (alone 3) pushed_twice ≡ none
unfolding push_back syncspirit.DiffAssembler.attach syncspirit.DiffAssembler.append_to
    syncspirit.DiffAssembler.finish_back
push_back_after = refl

-- The total stays after the diffs have been consumed.
consume_overused :
    is_overused (consume (record (make 2) { total = 2; left = 2; root = diff 1 ∷ [] })).0 ≡ true
consume_overused = refl
