-- ===== src/Tests/Postponing.antt =====
-- Runs of model/misc/postponed_files.cpp.
use syncspirit.Prelude.{ℕ, ◌<◌, ◌≡◌, refl, [], ◌∷◌, inl, inr, arith}
use syncspirit.Prelude.Find.{All}
use syncspirit.PostponedFiles.{BlockToFile, PostponedFiles, forget, advance}
use syncspirit.PostponedFiles.Forgotten.{IsOrdered, forget-All}

abbrev pair : ℕ → ℕ → BlockToFile
pair block file = record { block = block; file = file }

abbrev waiting : PostponedFiles
waiting = record { block_2_files = pair 1 5 ∷ pair 2 6 ∷ pair 1 7 ∷ []; ready = [] }

waiting-IsOrdered : IsOrdered waiting.block_2_files
waiting-IsOrdered = ((omega arith, (omega arith, tt)), ((omega arith, tt), (tt, tt)))

-- The file 7 is forgotten with the file 6.
forget-All_example : All (λ (p : BlockToFile). p.file < 6) (forget 6 waiting).block_2_files
forget-All_example = forget-All 6 waiting waiting-IsOrdered (inr (inl refl))

forget_run : (forget 6 waiting).block_2_files ≡ pair 1 5 ∷ []
unfolding forget
forget_run = refl

-- A file that waits for one block is ready with it.
advance_run : (advance 2 waiting).ready ≡ 6 ∷ []
unfolding advance
advance_run = refl

-- One that waits for two blocks is not ready when both have come.
abbrev two_blocks : PostponedFiles
two_blocks = record waiting { block_2_files = pair 1 5 ∷ pair 2 5 ∷ [] }

advance_two : advance 2 (advance 1 two_blocks) ≡ two_blocks
unfolding advance
advance_two = refl
