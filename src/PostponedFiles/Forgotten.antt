-- ===== src/PostponedFiles/Forgotten.antt =====
-- model/misc/postponed_files.cpp: the order of the index, and what `forget` leaves.
use syncspirit.Prelude.{ℕ, ◌<◌, ◌≤◌, ◌≡◌, List, [], ◌∷◌, leb, ◌==◌, arith, Bool-cases, inl, inr}
use syncspirit.Prelude.Find.{All, Any, any_of}
use syncspirit.PostponedFiles.{
  BlockToFile, PostponedFiles, is_pair, insert_pair, postpone, erase_found, forget,
}

abbrev pub IsOrdered : List BlockToFile → Type 0
IsOrdered [] = Unit
IsOrdered (p ∷ ps) = All (λ (q : BlockToFile). p.file ≤ q.file) ps × IsOrdered ps

insert_pair-All :
    (n : ℕ) (p : BlockToFile) (ps : List BlockToFile)
    → n ≤ p.file
    → All (λ (q : BlockToFile). n ≤ q.file) ps
    → All (λ (q : BlockToFile). n ≤ q.file) (insert_pair p ps)
unfolding insert_pair
insert_pair-All n p [] h all = (h, tt)
insert_pair-All n p (q ∷ qs) h (k, all) = elim (Bool-cases (leb q.file p.file)) [
  | inl behind ↦ rw behind (k, insert_pair-All n p qs h all)
  | inr before ↦ rw before (h, (k, all))
]

All-weaken :
    (m n : ℕ) (ps : List BlockToFile)
    → m ≤ n
    → All (λ (q : BlockToFile). n ≤ q.file) ps
    → All (λ (q : BlockToFile). m ≤ q.file) ps
All-weaken m n [] h all = tt
All-weaken m n (p ∷ ps) h (k, all) = (omega (arith, h, k), All-weaken m n ps h all)

insert_pair-IsOrdered :
    (p : BlockToFile) (ps : List BlockToFile) → IsOrdered ps → IsOrdered (insert_pair p ps)
unfolding insert_pair
insert_pair-IsOrdered p [] o = (tt, tt)
insert_pair-IsOrdered p (q ∷ qs) (all, o) = elim (Bool-cases (leb q.file p.file)) [
  | inl behind ↦
      let low : q.file ≤ p.file = ground arith in
      rw behind (insert_pair-All q.file p qs low all, insert_pair-IsOrdered p qs o)
  | inr before ↦
      let low : p.file ≤ q.file = ground arith in
      rw before ((low, All-weaken p.file q.file qs low all), (all, o))
]

-- Postponing keeps the order.
pub postpone-IsOrdered :
    (block file : ℕ) (s : PostponedFiles)
    → IsOrdered s.block_2_files
    → IsOrdered (postpone block file s).block_2_files
unfolding postpone
postpone-IsOrdered block file s o =
    elim (Bool-cases (any_of (is_pair block file) s.block_2_files)) [
      | inl there ↦ rw there o
      | inr new ↦
          rw new (insert_pair-IsOrdered (record { block = block; file = file }) s.block_2_files o)
    ]

below-Any :
    (n file : ℕ) (ps : List BlockToFile)
    → All (λ (q : BlockToFile). n ≤ q.file) ps
    → Any (λ (q : BlockToFile). q.file ≡ file) ps
    → n ≤ file
below-Any n file [] h m = elim m [ ]
below-Any n file (p ∷ ps) (h, hs) (inl e) = omega (arith, h, e)
below-Any n file (p ∷ ps) (h, hs) (inr m) = below-Any n file ps hs m

erase_found-All :
    (file : ℕ) (ps : List BlockToFile)
    → IsOrdered ps
    → Any (λ (p : BlockToFile). p.file ≡ file) ps
    → All (λ (p : BlockToFile). p.file < file) (erase_found file ps)
unfolding erase_found
erase_found-All file [] o m = elim m [ ]
erase_found-All file (p ∷ ps) (all, o) m = elim (Bool-cases (p.file == file)) [
  | inl found ↦ rw found tt
  | inr other ↦ elim m [
    | inl here ↦ absurd (ground arith)
    | inr there ↦
        let low = below-Any p.file file ps all there in
        rw other (ground arith, erase_found-All file ps o there)
  ]
]

-- When a file with a pair is forgotten, all pairs of the files behind it in the index are forgotten as
-- well: those that stay are of files in front of it.
pub forget-All :
    (file : ℕ) (s : PostponedFiles)
    → IsOrdered s.block_2_files
    → Any (λ (p : BlockToFile). p.file ≡ file) s.block_2_files
    → All (λ (p : BlockToFile). p.file < file) (forget file s).block_2_files
unfolding forget
forget-All file s o m = erase_found-All file s.block_2_files o m
