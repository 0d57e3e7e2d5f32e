-- ===== src/IndexUpdate/Files.antt =====
-- model/diff/peer/update_folder.cpp: what `apply_impl` makes of the files of the folder.
use syncspirit.Prelude.{
  ℕ, suc, ◌<◌, ◌≤◌, ◌≡◌, refl, ap, ◌∙◌, true, false, not, List, [], ◌∷◌, Option, none, some, arith,
  ltb, ◌==◌, Bool-cases, inl, inr,
}
use syncspirit.Prelude.Find.{keep_if}
use syncspirit.File.{FileInfo}
use syncspirit.File.Wire.{ProtoFile, same_text}
use syncspirit.File.Store.{State}
use syncspirit.FileMap.{FolderInfo, by_name, remove, add_strict}
use syncspirit.FileMap.Order.{IsOrdered, remove-IsOrdered, All-keep_if}
use syncspirit.FileMap.Sequence.{IsSound, Within, add-IsSound}
use syncspirit.IndexUpdate.Apply.{
  Applied, make_file, replace_file, add_file, place_file, apply_file, apply_files,
}

remove-Within :
    (n : ℕ) (item : FileInfo) (fs : List FileInfo) → Within n fs → Within n (remove item fs)
unfolding remove
remove-Within n item fs h =
    let below : FileInfo → Type 0 = λ f. f.sequence ≤ n in
    let first = keep_if (λ f. not (f.uuid == item.uuid)) fs in
    let second = keep_if (λ f. not (same_text f.name item.name)) first in
    All-keep_if below (λ f. not (f.sequence == item.sequence)) second
      (All-keep_if below (λ f. not (same_text f.name item.name)) first
        (All-keep_if below (λ f. not (f.uuid == item.uuid)) fs h))

-- A result, if there is one, has a sound folder.
abbrev pub Sound : Option Applied → Type 0
Sound none = Unit
Sound (some a) = IsSound a.folder

-- What a folder has under a name afterwards, if there is a result.
abbrev pub lookup_in : List ℕ → Option Applied → Option (Option FileInfo)
lookup_in name none = none
lookup_in name (some a) = some (by_name name a.folder.files)

pub removed-IsSound :
    (item : FileInfo) (folder : FolderInfo)
    → IsSound folder
    → IsSound (record folder { files = remove item folder.files })
removed-IsSound item folder h = record {
  ordered = (remove-IsOrdered item folder.files h.ordered).0;
  within = remove-Within folder.max_sequence item folder.files h.within;
}

replaced-Sound :
    (folder : FolderInfo) (prev_file : FileInfo) (o : Option State)
    → IsSound folder
    → Sound (elim o [
      | none ↦ none
      | some t ↦ some (add_file (record folder { files = remove prev_file folder.files }) t)
    ])
replaced-Sound folder prev_file none h = tt
replaced-Sound folder prev_file (some t) h =
    (add-IsSound t.this (record folder { files = remove prev_file folder.files })
      (removed-IsSound prev_file folder h)).0

place_file-Sound :
    (folder : FolderInfo) (o : Option FileInfo) (s : State)
    → IsSound folder
    → Sound (place_file folder o s)
unfolding place_file
place_file-Sound folder none s h = (add-IsSound s.this folder h).0
place_file-Sound folder (some prev_file) s h =
    elim (Bool-cases (ltb prev_file.sequence s.this.sequence)) [
      | inl newer ↦ rw newer (replaced-Sound folder prev_file (replace_file prev_file s) h)
      | inr older ↦ elim (Bool-cases (prev_file.sequence == s.this.sequence)) [
        | inl same ↦ rw (older, same) h
        | inr other ↦ rw (older, other) (add-IsSound s.this folder h).0
      ]
    ]

made-Sound :
    (folder : FolderInfo) (o : Option State)
    → IsSound folder
    → Sound
        (elim o [ none ↦ none | some s ↦ place_file folder (by_name s.this.name folder.files) s ])
made-Sound folder none h = tt
made-Sound folder (some s) h = place_file-Sound folder (by_name s.this.name folder.files) s h

apply_file-Sound :
    (by_hash : List ℕ → Option ℕ) (address uuid : ℕ) (f : ProtoFile) (a : Applied)
    → IsSound a.folder
    → Sound (apply_file by_hash address uuid f a)
unfolding apply_file
apply_file-Sound by_hash address uuid f a h =
    made-Sound a.folder (make_file by_hash address uuid f a.store) h

apply_files_next :
    (by_hash : List ℕ → Option ℕ) (address : ℕ) (uuids : List ℕ) (fs : List ProtoFile)
    (o : Option Applied)
    → Sound o
    → ((b : Applied) → IsSound b.folder → Sound (apply_files by_hash (suc address) uuids fs b))
    → Sound (elim o [ none ↦ none | some b ↦ apply_files by_hash (suc address) uuids fs b ])
apply_files_next by_hash address uuids fs none h rest = tt
apply_files_next by_hash address uuids fs (some b) h rest = rest b h

-- Putting the files of an update into a sound folder gives a sound folder, whatever the files and
-- their sequence numbers, unless an assertion fails.
pub apply_files-Sound :
    (by_hash : List ℕ → Option ℕ) (address : ℕ) (uuids : List ℕ) (fs : List ProtoFile) (a : Applied)
    → IsSound a.folder
    → Sound (apply_files by_hash address uuids fs a)
unfolding apply_files
apply_files-Sound by_hash address uuids [] a h = h
apply_files-Sound by_hash address [] (f ∷ fs) a h = tt
apply_files-Sound by_hash address (uuid ∷ uuids) (f ∷ fs) a h =
    apply_files_next by_hash address uuids fs (apply_file by_hash address uuid f a)
      (apply_file-Sound by_hash address uuid f a h)
      (apply_files-Sound by_hash (suc address) uuids fs)

add_strict_refused :
    (file : FileInfo) (fi : FolderInfo)
    → file.sequence ≤ fi.max_sequence
    → (add_strict file fi).0 ≡ fi
unfolding add_strict
add_strict_refused file fi l =
    let behind : ltb fi.max_sequence file.sequence ≡ false = ground (arith, l) in rw behind refl

-- A newer file that replaces one of its name, but stands behind the largest sequence number of the
-- folder, is lost: the old file is removed and the new one is not added.
pub place_file-by_name :
    (folder : FolderInfo) (prev_file : FileInfo) (s t : State)
    → IsOrdered folder.files
    → prev_file.sequence < s.this.sequence
    → replace_file prev_file s ≡ some t
    → t.this.sequence ≤ folder.max_sequence
    → lookup_in prev_file.name (place_file folder (some prev_file) s) ≡ some none
unfolding place_file
place_file-by_name folder prev_file s t o l e b =
    let newer : ltb prev_file.sequence s.this.sequence ≡ true = ground (arith, l) in
    rw (newer, e)
      (ap (λ (fi : FolderInfo). some (by_name prev_file.name fi.files))
          (add_strict_refused t.this (record folder { files = remove prev_file folder.files }) b)
        ∙ ap some (remove-IsOrdered prev_file folder.files o).2)
