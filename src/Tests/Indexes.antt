-- ===== src/Tests/Indexes.antt =====
-- Runs of model/diff/peer/update_folder.cpp and model/misc/orphaned_blocks.cpp.
use syncspirit.Prelude.{ℕ, ◌+◌, ◌≡◌, refl, not, true, false, List, [], ◌∷◌, none, some, arith}
use syncspirit.Prelude.Find.{All}
use syncspirit.Prelude.Int.{pos}
use syncspirit.Block.{multi}
use syncspirit.File.{FileInfo, FileType, blocks}
use syncspirit.File.Wire.{Blocks, ProtoFile}
use syncspirit.File.Store.{State, update}
use syncspirit.FileMap.{FolderInfo}
use syncspirit.FileMap.Sequence.{IsSound}
use syncspirit.OrphanedBlocks.{has_hash, deduce}
use syncspirit.OrphanedBlocks.Lost.{IsLost, deduce-IsLost}
use syncspirit.IndexUpdate.{
  Cluster, Known, Taken, check_files, construct, block_hashes, instantiate,
}
use syncspirit.IndexUpdate.Checked.{diff_files, expected_files, instantiate-files}
use syncspirit.IndexUpdate.Covered.{Covers, IsGivenUp, construct-IsGivenUp, check_files-Covers}
use syncspirit.IndexUpdate.Apply.{Applied, place_file, replace_file}
use syncspirit.IndexUpdate.Files.{lookup_in, place_file-by_name}
use syncspirit.Tests.Versions.{counter}
use syncspirit.Tests.Resolving.{file_at}

abbrev pub store : Blocks
store a = record { address = a; hash = a ∷ []; size = 8; counter = 0; file_blocks = multi [] }

abbrev pub known_file : FileInfo
known_file = record (file_at 1 10 (record { counters = counter 5 3 ∷ [] })) {
  content = blocks (record { block = some 4; local = false } ∷ []);
}

abbrev pub peer_folder : FolderInfo
peer_folder = record { device = 7; index = 2; max_sequence = 1; files = known_file ∷ [] }

abbrev cluster : Cluster
cluster = record {
  folders = record { id = b'f' ∷ []; folder_infos = peer_folder ∷ [] } ∷ [];
  hashes = [];
  store = store;
}

abbrev pub announced : ℕ → ℕ → ProtoFile
announced name sequence = record {
  name = name ∷ [];
  type = FileType.file;
  size = 8;
  permissions = 7;
  modified_s = pos 5;
  modified_ns = 6;
  modified_by = 7;
  deleted = false;
  invalid = false;
  no_permissions = false;
  version = counter 5 4 ∷ [];
  sequence = sequence;
  block_size = 8;
  blocks = record { hash = 9 ∷ []; size = 8; offset = 0 } ∷ [];
  symlink_target = [];
}

-- The first file is outdated by the last one.
abbrev message : List ProtoFile
message = announced b'a' 5 ∷ announced b'c' 3 ∷ announced b'a' 6 ∷ []

instantiate-files_example :
    diff_files (instantiate (λ n. n + 10) cluster 7 (b'f' ∷ []) message)
    ≡ expected_files cluster 7 (b'f' ∷ []) message
instantiate-files_example = instantiate-files (λ n. n + 10) cluster 7 (b'f' ∷ []) message

abbrev known : Known
known = record { hashes = []; store = store; folder = peer_folder }

check_files-Covers_example :
    Covers known.hashes
      (check_files known message (record { files = []; unique_new_blocks = []; new_blocks = [] }))
check_files-Covers_example = check_files-Covers known message

abbrev taken : Taken
taken = record { files = announced b'a' 6 ∷ []; unique_new_blocks = []; new_blocks = [] }

construct-IsGivenUp_example :
    All
      (λ hash. IsGivenUp known taken hash × (not (has_hash (block_hashes []) hash) ≡ true))
      (construct (λ n. n) known taken).removed_blocks
construct-IsGivenUp_example = construct-IsGivenUp (λ n. n) known taken

deduce-IsLost_example : All (IsLost store (known_file ∷ []) []) (deduce store (known_file ∷ []) [])
deduce-IsLost_example = deduce-IsLost store (known_file ∷ []) []

pub peer_folder-IsSound : IsSound peer_folder
peer_folder-IsSound = record { ordered = (tt, tt, tt); within = (omega arith, tt) }

abbrev pub applied : Applied
applied = record { store = store; folder = peer_folder }

-- Another file of the message raised the number of the folder to 8 before.
abbrev raised : FolderInfo
raised = record peer_folder { max_sequence = 8 }

abbrev plain : FileInfo
plain = file_at 2 20 (record { counters = counter 5 4 ∷ [] })

abbrev made : State
made = record { store = store; this = record plain { sequence = 6; uuid = known_file.uuid } }

abbrev empty_file : FileInfo
empty_file = record known_file { content = blocks [] }

abbrev replacement : State
replacement = record {
  store = store;
  this = record empty_file { modified_s = pos 20; version = plain.version; sequence = 6 };
}

replacing : replace_file empty_file made ≡ some replacement
unfolding update
replacing = refl

place_file-by_name_example :
    lookup_in empty_file.name
      (place_file (record raised { files = empty_file ∷ [] }) (some empty_file) made)
    ≡ some none
place_file-by_name_example =
    place_file-by_name (record raised { files = empty_file ∷ [] }) empty_file made replacement
      (tt, tt, tt) (omega arith) replacing (omega arith)
