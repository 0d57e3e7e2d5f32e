-- ===== src/FileMap.antt =====
-- model/file_info.cpp (`file_infos_map_t`) and model/folder_info.cpp: the files that one device has
-- in a folder. The container is unique by uuid, by name and by sequence number, and ordered by the
-- last; here it is the list in that order.
pub mod Order
pub mod Sequence
use syncspirit.Prelude.{
  ℕ, zero, suc, ◌+◌, Bool, true, false, not, ◌&&◌, ◌||◌, List, [], ◌∷◌, Option, none, some,
  if◌then◌else◌, ltb, leb, ◌==◌, max,
}
use syncspirit.Prelude.Find.{find_if, keep_if}
use syncspirit.File.{FileInfo}
use syncspirit.File.Wire.{same_text}

abbrev pub by_uuid : ℕ → List FileInfo → Option FileInfo
by_uuid uuid = find_if (λ f. f.uuid == uuid)

abbrev pub by_name : List ℕ → List FileInfo → Option FileInfo
by_name name = find_if (λ f. same_text f.name name)

abbrev pub by_sequence : ℕ → List FileInfo → Option FileInfo
by_sequence sequence = find_if (λ f. f.sequence == sequence)

-- Two files that the container cannot hold together.
abbrev pub collides : FileInfo → FileInfo → Bool
collides item f = f.uuid == item.uuid || (same_text f.name item.name || f.sequence == item.sequence)

unfoldable pub insert_file : FileInfo → List FileInfo → List FileInfo
insert_file item [] = item ∷ []
insert_file item (f ∷ fs) =
    if ltb item.sequence f.sequence then item ∷ f ∷ fs else f ∷ insert_file item fs

-- `put(item, replace)`: an insertion that one file blocks replaces it, and one that several block
-- changes nothing, as `replace` refuses a second collision. The three rounds of the code, one for
-- each index, do the same: once the item is in, it blocks itself. The result is `true` on every
-- path with `replace`.
unfoldable pub put_over : FileInfo → Bool → List FileInfo → List FileInfo → List FileInfo
unfolding insert_file
put_over item replace [] fs = insert_file item fs
put_over item replace (old ∷ []) fs =
    if replace then insert_file item (keep_if (λ f. not (collides item f)) fs) else fs
put_over item replace (old ∷ other ∷ olds) fs = fs

unfoldable pub put : FileInfo → Bool → List FileInfo → List FileInfo
unfolding put_over
put item replace fs = put_over item replace (keep_if (collides item) fs) fs

-- Erasing by each of the keys, one after the other.
unfoldable pub remove : FileInfo → List FileInfo → List FileInfo
remove item fs =
    keep_if (λ f. not (f.sequence == item.sequence))
      (keep_if (λ f. not (same_text f.name item.name))
        (keep_if (λ f. not (f.uuid == item.uuid)) fs))

-- `range(lower, upper)`: both bounds belong to it.
unfoldable pub range : ℕ → ℕ → List FileInfo → List FileInfo
range lower upper = keep_if (λ f. leb lower f.sequence && leb f.sequence upper)

-- `folder_info_t`, as far as it changes.
pub record FolderInfo : Type 0 where
  pub device : ℕ
  pub index : ℕ
  pub max_sequence : ℕ
  pub files : List FileInfo

unfoldable pub add_relaxed : FileInfo → FolderInfo → FolderInfo
add_relaxed file fi = record fi {
  files = put file true fi.files;
  max_sequence = max fi.max_sequence file.sequence;
}

unfoldable pub add_strict : FileInfo → FolderInfo → FolderInfo × Bool
add_strict file fi =
    if ltb fi.max_sequence file.sequence
    then (record fi { max_sequence = file.sequence; files = put file true fi.files }, true)
    else (fi, false)

unfoldable pub set_index : ℕ → FolderInfo → FolderInfo
set_index value fi =
    if value == fi.index then fi else record fi { index = value; max_sequence = 0; files = [] }
