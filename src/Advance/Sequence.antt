-- ===== src/Advance/Sequence.antt =====
-- model/diff/advance/advance.cpp: `apply_impl` gives the file the next sequence number of the folder.
use syncspirit.Prelude.{◌+◌, ◌≡◌, Option, none, some}
use syncspirit.File.{FileInfo}
use syncspirit.Prelude.Find.{keep_if}
use syncspirit.FileMap.{FolderInfo, collides}
use syncspirit.FileMap.Order.{AtMostOne, IsFound}
use syncspirit.FileMap.Sequence.{IsSound}
use syncspirit.IndexUpdate.Apply.{Applied}
use syncspirit.Advance.{Advance, without}

-- A file with the next sequence number is found by each of its keys in the folder of the result,
-- unless two of the other files have a key of it.
abbrev pub IsPlaced : FolderInfo → Applied → Type 0
IsPlaced folder a =
    (file : FileInfo) × (file.sequence ≡ folder.max_sequence + 1)
    × (AtMostOne (keep_if (collides file) folder.files) → IsFound file a.folder.files)

-- The folder of a result, if there is one, is sound and ends with the next sequence number, which is
-- that of the new file. The own file of the name is out of the way.
abbrev pub Numbered : Option FileInfo → FolderInfo → Option Applied → Type 0
Numbered prev_file folder none = Unit
Numbered prev_file folder (some a) =
    IsSound a.folder
    × (a.folder.max_sequence ≡ folder.max_sequence + 1)
    × IsPlaced (without prev_file folder) a
