-- ===== src/IndexUpdate.antt =====
-- model/diff/peer/update_folder.cpp: the files of a peer's Index and IndexUpdate messages, from the
-- checks of the message to the files of the folder. Sequence numbers of the protocol are signed;
-- a negative one counts as 0 here, which the code refuses in the same way.
pub mod Checked
pub mod Covered
pub mod Apply
pub mod Files
use syncspirit.Prelude.{
  ℕ, zero, suc, ◌+◌, Bool, true, false, not, ◌&&◌, List, [], ◌∷◌, ◌++◌, Option, none, some, ltb,
  leb, if◌then◌else◌, ◌==◌, length,
}
use syncspirit.Prelude.Find.{any_of, find_if, keep_if}
use syncspirit.File.{
  FileType, file, directory, symlink, FileInfo, Flags, symlink_target, is_file, is_deleted,
}
use syncspirit.File.Wire.{Blocks, ProtoFile, ProtoBlock, same_text, fields_update}
use syncspirit.File.Store.{identical_to_message, State, assign_block, update}
use syncspirit.FileMap.{FolderInfo, by_name, remove, add_strict}
use syncspirit.OrphanedBlocks.{has_hash, record_file, deduce}

-- The error codes; `aborted` is none of them, but a failed assertion or the use of a null pointer.
pub data Error : Type 0 where
  folder_does_not_exist folder_is_not_shared invalid_sequence mismatch_file_size missing_version
        aborted :
      Error

pub data Result {ℓ} (A : Type ℓ) : Type ℓ where
  ok : A → Result A
  err : Error → Result A

infixl 5 ◌>>=◌
abbrev pub ◌>>=◌ {ℓ κ} : {A : Type ℓ} {B : Type κ} → Result A → (A → Result B) → Result B
ok a >>= f = f a
err e >>= f = err e

-- `make_strict_hash`, below its assertion: the bytes of the hash, which are at most 32, with zeros up
-- to the length of a digest.
unfoldable pub pad : ℕ → List ℕ → List ℕ
pad zero hash = hash
pad (suc n) [] = 0 ∷ pad n []
pad (suc n) (c ∷ cs) = c ∷ pad n cs

unfoldable pub make_strict_hash : List ℕ → List ℕ
unfolding pad
make_strict_hash hash = pad 32 hash

-- Pass 1, from the last file to the first: the names seen so far, and whether each file is skipped.
unfoldable pub seen_names : List ProtoFile → List (List ℕ)
seen_names [] = []
seen_names (f ∷ fs) =
    let seen = seen_names fs in if any_of (same_text f.name) seen then seen else f.name ∷ seen

abbrev pub is_skipped : ProtoFile → List ProtoFile → Bool
is_skipped f later = any_of (same_text f.name) (seen_names later)

-- What pass 2 collects.
pub record Taken : Type 0 where
  pub files : List ProtoFile
  pub unique_new_blocks : List (List ℕ)
  pub new_blocks : List ProtoBlock

-- The part of the cluster that the checks read: the hashes of the known blocks, the blocks, and
-- what the cluster has of the peer in the folder.
pub record Known : Type 0 where
  pub hashes : List (List ℕ)
  pub store : Blocks
  pub folder : FolderInfo

abbrev pub is_downloadable : ProtoFile → Bool
is_downloadable f =
    not f.deleted
    && (not f.invalid && elim f.type [ file ↦ true | directory ↦ false | symlink ↦ false ])

-- The sum of the sizes, which are signed in the message and not negative here.
unfoldable pub size_by_blocks : List ProtoBlock → ℕ
size_by_blocks [] = 0
size_by_blocks (b ∷ bs) = b.size + size_by_blocks bs

-- The loop over the blocks of a file, as far as it collects the unknown ones.
unfoldable pub take_step : List (List ℕ) → ProtoBlock → Taken → Taken
take_step known b t =
    let hash = make_strict_hash b.hash in
    if has_hash known hash then t else if has_hash t.unique_new_blocks hash then t else record t {
      unique_new_blocks = hash ∷ t.unique_new_blocks;
      new_blocks = t.new_blocks ++ b ∷ [];
    }

unfoldable pub take_new : List (List ℕ) → List ProtoBlock → Taken → Taken
take_new known [] t = t
take_new known (b ∷ bs) t = take_new known bs (take_step known b t)

-- The assertion of `make_strict_hash` fails, which ends the loop over the blocks.
abbrev pub is_oversized : ProtoBlock → Bool
is_oversized b = ltb 32 (length b.hash)

-- A file that is not newer than the folder has to be the one that is there.
unfoldable pub check_seen : Known → ProtoFile → Taken → Result Taken
check_seen known f t = elim (by_name f.name known.folder.files) [
  | none ↦ err invalid_sequence
  | some prev_file ↦ elim (identical_to_message known.store prev_file f) [
    | none ↦ err aborted
    | some same ↦ if same then ok t else err invalid_sequence
  ]
]

unfoldable pub check_new : Known → ProtoFile → Taken → Result Taken
unfolding take_new size_by_blocks
check_new known f t =
    if leb f.sequence 0
    then err invalid_sequence
    else if any_of is_oversized f.blocks
    then err aborted
    else if is_downloadable f && not (f.size == size_by_blocks f.blocks)
    then err mismatch_file_size
    else if length f.version == 0
    then err missing_version
    else (let t' = take_new known.hashes f.blocks t in
        ok (record t' { files = t'.files ++ f ∷ [] }))

unfoldable pub check_file : Known → ProtoFile → Taken → Result Taken
unfolding check_seen check_new
check_file known f t =
    if leb f.sequence known.folder.max_sequence then check_seen known f t else check_new known f t

-- Pass 2.
unfoldable pub check_files : Known → List ProtoFile → Taken → Result Taken
check_files known [] t = ok t
check_files known (f ∷ fs) t =
    if is_skipped f fs
    then check_files known fs t
    else (check_file known f t >>= check_files known fs)

-- `update_folder_t`
pub record UpdateFolder : Type 0 where
  pub files : List ProtoFile
  pub uuids : List ℕ
  pub new_blocks : List ProtoBlock
  pub removed_blocks : List (List ℕ)

-- The loop of `construct`: the identifier of each file, which the n-th call of the sequencer gives
-- to a file not seen before, and the files that are replaced.
unfoldable pub assign_uuids : (ℕ → ℕ) → ℕ → List FileInfo → List ProtoFile → List ℕ × List FileInfo
assign_uuids next_uuid n prev_files [] = ([], [])
assign_uuids next_uuid n prev_files (f ∷ fs) = elim (by_name f.name prev_files) [
  | none ↦
      let (uuids, replaced) = assign_uuids next_uuid (suc n) prev_files fs in
      (next_uuid n ∷ uuids, replaced)
  | some prev_file ↦
      let (uuids, replaced) = assign_uuids next_uuid n prev_files fs in
      (prev_file.uuid ∷ uuids, record_file prev_file replaced)
]

unfoldable pub block_hashes : List ProtoBlock → List (List ℕ)
block_hashes [] = []
block_hashes (b ∷ bs) = make_strict_hash b.hash ∷ block_hashes bs

unfoldable pub white_listed : List ProtoFile → List (List ℕ)
unfolding block_hashes
white_listed [] = []
white_listed (f ∷ fs) = block_hashes f.blocks ++ white_listed fs

unfoldable pub construct : (ℕ → ℕ) → Known → Taken → UpdateFolder
unfolding assign_uuids white_listed
construct next_uuid known t =
    let (uuids, replaced) = assign_uuids next_uuid 0 known.folder.files t.files in
    record {
      files = t.files;
      uuids = uuids;
      new_blocks = t.new_blocks;
      removed_blocks =
          keep_if (λ hash. not (has_hash (block_hashes t.new_blocks) hash))
            (deduce known.store replaced (white_listed t.files));
    }

-- A folder of the cluster, by what each device has of it.
pub record Folder : Type 0 where
  pub id : List ℕ
  pub folder_infos : List FolderInfo

pub record Cluster : Type 0 where
  pub folders : List Folder
  pub hashes : List (List ℕ)
  pub store : Blocks

abbrev pub by_id : List ℕ → List Folder → Option Folder
by_id id = find_if (λ folder. same_text folder.id id)

abbrev pub by_device : ℕ → List FolderInfo → Option FolderInfo
by_device device = find_if (λ fi. fi.device == device)

abbrev pub found_folder : Cluster → List ℕ → Result Folder
found_folder cluster id = elim (by_id id cluster.folders) [
  | none ↦ err folder_does_not_exist
  | some folder ↦ ok folder
]

abbrev pub found_peer : ℕ → Folder → Result FolderInfo
found_peer device folder = elim (by_device device folder.folder_infos) [
  | none ↦ err folder_is_not_shared
  | some fi ↦ ok fi
]

-- `instantiate` and `update_folder_t::create`.
unfoldable pub instantiate : (ℕ → ℕ) → Cluster → ℕ → List ℕ → List ProtoFile → Result UpdateFolder
unfolding check_files construct
instantiate next_uuid cluster source folder_id files = do
  folder ← found_folder cluster folder_id
  fi ← found_peer source folder
  let known : Known = record { hashes = cluster.hashes; store = cluster.store; folder = fi }
  taken ← check_files known files (record { files = []; unique_new_blocks = []; new_blocks = [] })
  ok (construct next_uuid known taken)
