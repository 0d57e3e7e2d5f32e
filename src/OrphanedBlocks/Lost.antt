-- ===== src/OrphanedBlocks/Lost.antt =====
-- model/misc/orphaned_blocks.cpp: a block is lost only with all the files that use it.
use syncspirit.Prelude.{
  ℕ, ◌+◌, ◌-◌, ◌≤◌, ◌≡◌, refl, true, false, List, [], ◌∷◌, Option, none, some, arith, ◌==◌, length,
  Bool-cases, inl, inr,
}
use syncspirit.Prelude.Find.{All}
use syncspirit.Block.{BlockInfo, FileBlock, uses, get_total}
use syncspirit.File.{BlockRef, FileInfo, is_file, file_blocks}
use syncspirit.File.Wire.{Blocks}
use syncspirit.OrphanedBlocks.{
  has_hash, has_file, left_usages, Found, visit_block, visit_blocks, visit_files, deduce,
}

-- Some block has the hash, all files that use it are in the set, and the hash is not listed.
abbrev pub IsLost : Blocks → List FileInfo → List (List ℕ) → List ℕ → Type 0
IsLost store files white_listed hash =
    (has_hash white_listed hash ≡ false)
    × ((a : ℕ) × ((store a).hash ≡ hash)
        × All (λ fb. has_file files fb.file_info ≡ true) (uses (store a)))

length-uses : (b : BlockInfo) → length (uses b) ≤ get_total b
unfolding uses get_total
length-uses b = ground arith

left_usages_le :
    (files : List FileInfo) (fbs : List FileBlock) (n : ℕ)
    → n ≤ left_usages files fbs n + length fbs
unfolding left_usages
left_usages_le files [] n = omega arith
left_usages_le files (fb ∷ fbs) n =
    ground (arith, left_usages_le files fbs (n - 1), left_usages_le files fbs n)

left_usages-zero :
    (files : List FileInfo) (fbs : List FileBlock) (n : ℕ)
    → length fbs ≤ n
    → left_usages files fbs n ≡ 0
    → All (λ fb. has_file files fb.file_info ≡ true) fbs
unfolding left_usages
left_usages-zero files [] n l h = tt
left_usages-zero files (fb ∷ fbs) n l h = elim (Bool-cases (has_file files fb.file_info)) [
  | inl there ↦ ground (arith, there, h, left_usages-zero files fbs (n - 1))
  | inr gone ↦ ground (arith, gone, h, left_usages_le files fbs n)
]

abbrev AllLost : Blocks → List FileInfo → List (List ℕ) → Found → Type 0
AllLost store files white_listed s = All (IsLost store files white_listed) s.result

visit_block-AllLost :
    (store : Blocks) (files : List FileInfo) (white : List (List ℕ)) (a : ℕ) (s : Found)
    → AllLost store files white s
    → AllLost store files white (visit_block files white (store a) s)
unfolding visit_block
visit_block-AllLost store files white a s h = elim (Bool-cases (has_hash white (store a).hash)) [
  | inl listed ↦ rw listed h
  | inr free ↦ elim (Bool-cases (has_hash s.processed (store a).hash)) [
    | inl done ↦ rw (free, done) h
    | inr new ↦ elim (Bool-cases (left_usages files (uses (store a)) (get_total (store a)) == 0)) [
      | inl lost ↦
          let all =
            left_usages-zero files (uses (store a)) (get_total (store a)) (length-uses (store a))
              (ground (arith, lost)) in
          rw (free, new, lost) ((free, (a, refl, all)), h)
      | inr used ↦ rw (free, new, used) h
    ]
  ]
]

visit_ref-AllLost :
    (store : Blocks) (files : List FileInfo) (white : List (List ℕ)) (block : Option ℕ)
    (rs : List BlockRef) (s : Found)
    → ((t : Found)
        → AllLost store files white t
        → AllLost store files white (visit_blocks store files white rs t))
    → AllLost store files white s
    → AllLost store files white (elim block [
      | none ↦ s
      | some a ↦ visit_blocks store files white rs (visit_block files white (store a) s)
    ])
visit_ref-AllLost store files white none rs s rest h = h
visit_ref-AllLost store files white (some a) rs s rest h =
    rest (visit_block files white (store a) s) (visit_block-AllLost store files white a s h)

visit_blocks-AllLost :
    (store : Blocks) (files : List FileInfo) (white : List (List ℕ)) (rs : List BlockRef)
    (s : Found)
    → AllLost store files white s
    → AllLost store files white (visit_blocks store files white rs s)
unfolding visit_blocks
visit_blocks-AllLost store files white [] s h = h
visit_blocks-AllLost store files white (r ∷ rs) s h =
    visit_ref-AllLost store files white r.block rs s (visit_blocks-AllLost store files white rs) h

visit_files-AllLost :
    (store : Blocks) (all : List FileInfo) (white : List (List ℕ)) (fs : List FileInfo) (s : Found)
    → AllLost store all white s
    → AllLost store all white (visit_files store all white fs s)
unfolding visit_files
visit_files-AllLost store all white [] s h = h
visit_files-AllLost store all white (f ∷ fs) s h = elim (Bool-cases (is_file f)) [
  | inl plain ↦ rw plain (
      visit_files-AllLost store all white fs (visit_blocks store all white (file_blocks f) s)
        (visit_blocks-AllLost store all white (file_blocks f) s h))
  | inr other ↦ rw other (visit_files-AllLost store all white fs s h)
]

-- Every hash that is deduced from a set of files is that of a block all of whose uses are in files
-- of the set, and is not white-listed.
pub deduce-IsLost :
    (store : Blocks) (files : List FileInfo) (white_listed : List (List ℕ))
    → All (IsLost store files white_listed) (deduce store files white_listed)
unfolding deduce
deduce-IsLost store files white_listed =
    visit_files-AllLost store files white_listed files (record { processed = []; result = [] }) tt
