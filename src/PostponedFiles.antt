-- ===== src/PostponedFiles.antt =====
-- model/misc/postponed_files.cpp: the files that wait for blocks. Blocks and files are named by their
-- addresses, and the pairs stand in the order of the index by file, which is by address.
pub mod Forgotten
use syncspirit.Prelude.{
  ℕ, zero, suc, ◌+◌, Bool, true, false, not, ◌&&◌, List, [], ◌∷◌, Option, none, some, if◌then◌else◌,
  leb, ◌==◌,
}
use syncspirit.Prelude.Find.{any_of, keep_if}

pub record BlockToFile : Type 0 where
  pub block : ℕ
  pub file : ℕ

pub record PostponedFiles : Type 0 where
  pub block_2_files : List BlockToFile
  pub ready : List ℕ

abbrev pub is_pair : ℕ → ℕ → BlockToFile → Bool
is_pair block file p = (p.block == block) && (p.file == file)

-- A new pair stands behind those of the same file.
unfoldable pub insert_pair : BlockToFile → List BlockToFile → List BlockToFile
insert_pair p [] = p ∷ []
insert_pair p (q ∷ qs) = if leb q.file p.file then q ∷ insert_pair p qs else p ∷ q ∷ qs

unfoldable pub postpone : ℕ → ℕ → PostponedFiles → PostponedFiles
unfolding insert_pair
postpone block file s = if any_of (is_pair block file) s.block_2_files then s else record s {
  block_2_files = insert_pair (record { block = block; file = file }) s.block_2_files;
}

-- The loop of `forget`, which starts at the first pair of the file and ends at the end of the index.
unfoldable pub erase_found : ℕ → List BlockToFile → List BlockToFile
erase_found file [] = []
erase_found file (p ∷ ps) = if p.file == file then [] else p ∷ erase_found file ps

unfoldable pub forget : ℕ → PostponedFiles → PostponedFiles
unfolding erase_found
forget file s = record {
  block_2_files = erase_found file s.block_2_files;
  ready = keep_if (λ f. not (f == file)) s.ready;
}

-- How many blocks a file waits for.
unfoldable pub count_of : ℕ → List BlockToFile → ℕ
count_of file [] = 0
count_of file (p ∷ ps) = if p.file == file then suc (count_of file ps) else count_of file ps

-- The body of the loop of `advance`, and the loop over the pairs of the block. The pairs of a file
-- are not changed by what happens to other files, so that the order does not matter.
unfoldable pub advance_file : ℕ → ℕ → PostponedFiles → PostponedFiles
unfolding count_of
advance_file block file s =
    if count_of file s.block_2_files == 1
    then record {
      block_2_files = keep_if (λ p. not (is_pair block file p)) s.block_2_files;
      ready = if any_of (λ f. f == file) s.ready then s.ready else file ∷ s.ready;
    }
    else s

unfoldable pub advance_pairs : ℕ → List BlockToFile → PostponedFiles → PostponedFiles
unfolding advance_file
advance_pairs block [] s = s
advance_pairs block (p ∷ ps) s = advance_pairs block ps (advance_file block p.file s)

unfoldable pub advance : ℕ → PostponedFiles → PostponedFiles
unfolding advance_pairs
advance block s = advance_pairs block (keep_if (λ p. p.block == block) s.block_2_files) s

-- Any of the ready files is taken; here the first one.
abbrev pub get_ready : PostponedFiles → Option ℕ × PostponedFiles
get_ready s = elim s.ready [ [] ↦ (none, s) | f ∷ fs ↦ (some f, record s { ready = fs }) ]

abbrev pub clear : PostponedFiles → PostponedFiles
clear s = record { block_2_files = []; ready = [] }
