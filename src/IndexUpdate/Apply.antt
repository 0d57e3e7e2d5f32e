-- ===== src/IndexUpdate/Apply.antt =====
-- model/diff/peer/update_folder.cpp: `apply_impl`, which puts the files of an update into the folder
-- of the peer.
use syncspirit.Prelude.{
  ℕ, suc, false, not, ◌&&◌, List, [], ◌∷◌, Option, none, some, ltb, if◌then◌else◌, ◌==◌,
}
use syncspirit.Prelude.Int.{pos}
use syncspirit.File.{FileInfo, Flags, symlink_target, is_file, is_deleted}
use syncspirit.File.Wire.{Blocks, ProtoFile, ProtoBlock, fields_update}
use syncspirit.File.Store.{State, assign_block, update}
use syncspirit.FileMap.{FolderInfo, by_name, remove, add_strict}
use syncspirit.IndexUpdate.{make_strict_hash}

-- A file just made, before its fields are set, and its flags.
abbrev no_flags : Flags
no_flags = record {
  type_file = false;
  type_dir = false;
  type_link = false;
  deleted = false;
  invalid = false;
  no_permissions = false;
  synchronizing = false;
  unreachable = false;
  local = false;
  available = false;
}

abbrev pub blank : ℕ → ℕ → FileInfo
blank address uuid = record {
  address = address;
  uuid = uuid;
  name = [];
  modified_s = pos 0;
  modified_ns = 0;
  modified_by = 0;
  sequence = 0;
  permissions = 0;
  content = symlink_target [];
  version = record { counters = [] };
  flags = no_flags;
}

-- The loop that assigns the blocks of the message, found by their hashes; `none` is a failed
-- assertion.
unfoldable pub assign_blocks : (List ℕ → Option ℕ) → ℕ → List ProtoBlock → State → Option State
assign_blocks by_hash i [] s = some s
assign_blocks by_hash i (b ∷ bs) s = elim (by_hash (make_strict_hash b.hash)) [
  | none ↦ none
  | some a ↦ elim (assign_block a i s) [ none ↦ none | some t ↦ assign_blocks by_hash (suc i) bs t ]
]

-- `file_info_t::create` and the blocks of the file.
unfoldable pub make_file : (List ℕ → Option ℕ) → ℕ → ℕ → ProtoFile → Blocks → Option State
unfolding assign_blocks
make_file by_hash address uuid f store = elim (fields_update f (blank address uuid)) [
  | none ↦ none
  | some made ↦
      let s : State = record { store = store; this = made } in
      if is_file made && (not (is_deleted made) && not (f.size == 0))
      then assign_blocks by_hash 0 f.blocks s
      else some s
]

pub record Applied : Type 0 where
  pub store : Blocks
  pub folder : FolderInfo

-- `fm.remove(prev_file); prev_file->update(*file)`, and the file that is there then.
abbrev pub replace_file : FileInfo → State → Option State
replace_file prev_file s = update s.this (record { store = s.store; this = prev_file })

abbrev pub add_file : FolderInfo → State → Applied
add_file folder s = record { store = s.store; folder = (add_strict s.this folder).0 }

unfoldable pub place_file : FolderInfo → Option FileInfo → State → Option Applied
place_file folder none s = some (add_file folder s)
place_file folder (some prev_file) s =
    if ltb prev_file.sequence s.this.sequence
    then elim (replace_file prev_file s) [
      | none ↦ none
      | some t ↦ some (add_file (record folder { files = remove prev_file folder.files }) t)
    ]
    else if prev_file.sequence == s.this.sequence
    then some (record { store = s.store; folder = folder })
    else some (add_file folder s)

unfoldable pub apply_file : (List ℕ → Option ℕ) → ℕ → ℕ → ProtoFile → Applied → Option Applied
unfolding make_file place_file
apply_file by_hash address uuid f a = elim (make_file by_hash address uuid f a.store) [
  | none ↦ none
  | some s ↦ place_file a.folder (by_name s.this.name a.folder.files) s
]

-- The loop of `apply_impl`, after the children added and removed blocks. A new file stands at the
-- next address.
unfoldable pub apply_files :
    (List ℕ → Option ℕ) → ℕ → List ℕ → List ProtoFile → Applied → Option Applied
unfolding apply_file
apply_files by_hash address uuids [] a = some a
apply_files by_hash address [] (f ∷ fs) a = none
apply_files by_hash address (uuid ∷ uuids) (f ∷ fs) a = elim (apply_file by_hash address uuid f a) [
  | none ↦ none
  | some b ↦ apply_files by_hash (suc address) uuids fs b
]
