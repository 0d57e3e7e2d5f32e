-- ===== src/OrphanedBlocks.antt =====
-- model/misc/orphaned_blocks.cpp: the blocks that are lost with a set of files. A set of hashes is a
-- list, in the order in which the code adds to it.
pub mod Lost
use syncspirit.Prelude.{
  ℕ, ◌-◌, Bool, true, false, List, [], ◌∷◌, Option, none, some, if◌then◌else◌, ◌==◌,
}
use syncspirit.Prelude.Find.{any_of}
use syncspirit.Block.{BlockInfo, FileBlock, uses, get_total}
use syncspirit.File.{BlockRef, FileInfo, is_file, file_blocks}
use syncspirit.File.Wire.{Blocks, same_text}

abbrev pub has_hash : List (List ℕ) → List ℕ → Bool
has_hash hashes hash = any_of (same_text hash) hashes

abbrev pub has_file : List FileInfo → ℕ → Bool
has_file files address = any_of (λ f. f.address == address) files

-- `record(file)`
unfoldable pub record_file : FileInfo → List FileInfo → List FileInfo
record_file file files = if has_file files file.address then files else file ∷ files

-- The loop over the uses of a block, from `usages = get_total()` on.
unfoldable pub left_usages : List FileInfo → List FileBlock → ℕ → ℕ
left_usages files [] usages = usages
left_usages files (fb ∷ fbs) usages =
    left_usages files fbs (if has_file files fb.file_info then usages - 1 else usages)

-- The sets `processed` and `r`.
pub record Found : Type 0 where
  pub processed : List (List ℕ)
  pub result : List (List ℕ)

unfoldable pub visit_block : List FileInfo → List (List ℕ) → BlockInfo → Found → Found
unfolding left_usages
visit_block files white_listed b s =
    if has_hash white_listed b.hash then s else if has_hash s.processed b.hash then s else record {
      processed = b.hash ∷ s.processed;
      result =
          if left_usages files (uses b) (get_total b) == 0 then b.hash ∷ s.result else s.result;
    }

-- The loop over the blocks of a file, which ends at a null pointer.
unfoldable pub visit_blocks : Blocks → List FileInfo → List (List ℕ) → List BlockRef → Found → Found
unfolding visit_block
visit_blocks store files white_listed [] s = s
visit_blocks store files white_listed (r ∷ rs) s = elim r.block [
  | none ↦ s
  | some a ↦ visit_blocks store files white_listed rs (visit_block files white_listed (store a) s)
]

unfoldable pub visit_files : Blocks → List FileInfo → List (List ℕ) → List FileInfo → Found → Found
unfolding visit_blocks
visit_files store all white_listed [] s = s
visit_files store all white_listed (f ∷ fs) s =
    visit_files store all white_listed fs
      (if is_file f then visit_blocks store all white_listed (file_blocks f) s else s)

unfoldable pub deduce : Blocks → List FileInfo → List (List ℕ) → List (List ℕ)
unfolding visit_files
deduce store files white_listed =
    (visit_files store files white_listed files (record { processed = []; result = [] })).result
