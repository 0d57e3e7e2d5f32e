-- ===== src/FileMap/Sequence.antt =====
-- model/folder_info.cpp: the largest sequence number of a folder bounds its files.
use syncspirit.Prelude.{
  ℕ, ◌≤◌, ◌≡◌, refl, true, false, not, List, [], ◌∷◌, arith, ltb, max, Bool-cases, inl, inr,
}
use syncspirit.Prelude.Find.{All, keep_if}
use syncspirit.File.{FileInfo}
use syncspirit.FileMap.{FolderInfo, put, put_over, collides, add_relaxed, add_strict, range}
use syncspirit.FileMap.Order.{
  IsOrdered, AtMostOne, IsFound, put-IsOrdered, All-insert_file, All-keep_if,
}

abbrev pub Within : ℕ → List FileInfo → Type 0
Within n = All (λ f. f.sequence ≤ n)

Within-mono : (m n : ℕ) (fs : List FileInfo) → m ≤ n → Within m fs → Within n fs
Within-mono m n [] l h = tt
Within-mono m n (f ∷ fs) l h = (omega arith, Within-mono m n fs l h.1)

put_over-Within :
    (n : ℕ) (item : FileInfo) (olds fs : List FileInfo)
    → item.sequence ≤ n
    → Within n fs
    → Within n (put_over item true olds fs)
unfolding put_over
put_over-Within n item [] fs l h = All-insert_file (λ f. f.sequence ≤ n) item fs l h
put_over-Within n item (old ∷ []) fs l h =
    All-insert_file (λ f. f.sequence ≤ n) item (keep_if (λ f. not (collides item f)) fs) l
      (All-keep_if (λ f. f.sequence ≤ n) (λ f. not (collides item f)) fs h)
put_over-Within n item (old ∷ other ∷ olds) fs l h = h

put-Within :
    (n : ℕ) (item : FileInfo) (fs : List FileInfo)
    → item.sequence ≤ n
    → Within n fs
    → Within n (put item true fs)
unfolding put
put-Within n item fs l h = put_over-Within n item (keep_if (collides item) fs) fs l h

pub record IsSound (fi : FolderInfo) : Type 0 where
  pub ordered : IsOrdered fi.files
  pub within : Within fi.max_sequence fi.files

-- Adding a file keeps the folder sound. The strict way accepts the file exactly if its number is
-- beyond the largest one, which becomes its number, and changes nothing otherwise; the relaxed way
-- accepts any file and never lowers the largest number. An accepted file is found by each of its keys
-- afterwards, unless two files of the folder have a key of it.
pub add-IsSound :
    (file : FileInfo) (fi : FolderInfo)
    → IsSound fi
    → IsSound (add_strict file fi).0
      × ((add_strict file fi).1 ≡ ltb fi.max_sequence file.sequence)
      × ((add_strict file fi).1 ≡ true → (add_strict file fi).0.max_sequence ≡ file.sequence)
      × ((add_strict file fi).1 ≡ false → (add_strict file fi).0 ≡ fi)
      × IsSound (add_relaxed file fi)
      × (fi.max_sequence ≤ (add_relaxed file fi).max_sequence)
      × ((add_strict file fi).1 ≡ true
          → AtMostOne (keep_if (collides file) fi.files)
          → IsFound file (add_strict file fi).0.files)
      × (AtMostOne (keep_if (collides file) fi.files) → IsFound file (add_relaxed file fi).files)
unfolding add_strict add_relaxed
add-IsSound file fi s =
    let (ordered, found) = put-IsOrdered file fi.files s.ordered in
    let strict : FolderInfo = record fi {
      max_sequence = file.sequence;
      files = put file true fi.files;
    } in
    let relaxed : FolderInfo = record fi {
      max_sequence = max fi.max_sequence file.sequence;
      files = put file true fi.files;
    } in
    let relaxed_sound : IsSound relaxed = record {
      ordered = ordered;
      within = put-Within (max fi.max_sequence file.sequence) file fi.files (omega arith) (
          Within-mono fi.max_sequence (max fi.max_sequence file.sequence) fi.files (omega arith)
            s.within);
    } in
    elim (Bool-cases (ltb fi.max_sequence file.sequence)) [
      | inl beyond ↦
          let strict_sound : IsSound strict = record {
            ordered = ordered;
            within =
                put-Within file.sequence file fi.files (omega arith)
                  (Within-mono fi.max_sequence file.sequence fi.files (ground arith) s.within);
          } in
          (
            rw beyond strict_sound,
            rw beyond refl,
            rw beyond (λ e. refl),
            rw beyond (λ e. cc),
            relaxed_sound,
            omega arith,
            rw beyond (λ e h. found h),
            found,
          )
      | inr behind ↦ (
        rw behind s,
        rw behind refl,
        rw behind (λ e. cc),
        rw behind (λ e. refl),
        relaxed_sound,
        omega arith,
        rw behind (λ e h. absurd cc),
        found,
      )
    ]

-- A range of an ordered folder lies within its bounds.
pub range-bounds :
    (lower upper : ℕ) (fs : List FileInfo)
    → All (λ f. (lower ≤ f.sequence) × (f.sequence ≤ upper)) (range lower upper fs)
unfolding range
range-bounds lower upper [] = tt
range-bounds lower upper (f ∷ fs) = ground (arith, range-bounds lower upper fs)
