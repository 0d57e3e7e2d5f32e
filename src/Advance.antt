-- ===== src/Advance.antt =====
-- model/diff/advance/advance.cpp: the diff that gives the own device a file. The hashes of the
-- cluster, the blocks and the own files are arguments, as are the identifier that the sequencer
-- makes, and the one that a diff has before one is assigned. A failed assertion and an error are
-- `none`. The child diffs add and remove the blocks before `apply_impl` goes on.
pub mod Stocked
pub mod Sequence
pub mod Local
pub mod Original
use syncspirit.Prelude.{
  ℕ, zero, suc, ◌+◌, Bool, true, false, not, ◌&&◌, List, [], ◌∷◌, Option, none, some, if◌then◌else◌,
  ◌==◌, length,
}
use syncspirit.Prelude.Find.{keep_if}
use syncspirit.File.{FileInfo, mark_local}
use syncspirit.File.Wire.{Blocks, ProtoFile, ProtoBlock, fields_update, same_text}
use syncspirit.File.Store.{State, assign_block, mark_local_available}
use syncspirit.FileMap.{FolderInfo, by_name, remove, add_strict}
use syncspirit.OrphanedBlocks.{has_hash, record_file, deduce}
use syncspirit.IndexUpdate.{make_strict_hash}
use syncspirit.IndexUpdate.Apply.{Applied, blank, replace_file, add_file}

-- What `initialize` sets of `advance_t`; the blocks are those of its child diffs.
pub record Advance : Type 0 where
  pub proto_source : ProtoFile
  pub proto_local : ProtoFile
  pub uuid : ℕ
  pub new_blocks : List ProtoBlock
  pub removed_blocks : List (List ℕ)

abbrev pub erase : List ℕ → List (List ℕ) → List (List ℕ)
erase hash = keep_if (λ h. not (same_text h hash))

-- The loop over the blocks of the file: those that the cluster lacks, and the orphans that are left.
unfoldable pub collect :
    List (List ℕ) → List ProtoBlock → List (List ℕ) → List ProtoBlock × List (List ℕ)
collect hashes [] orphans = ([], orphans)
collect hashes (b ∷ bs) orphans =
    let lacking = collect hashes bs orphans in
    let there = collect hashes bs (erase (make_strict_hash b.hash) orphans) in
    if has_hash hashes (make_strict_hash b.hash) then there else (b ∷ lacking.0, lacking.1)

abbrev pub local_name : ProtoFile → List ℕ → List ℕ
local_name source name = if length name == 0 then source.name else name

abbrev pub as_local : ProtoFile → List ℕ → ProtoFile
as_local source name = record source { sequence = 0; name = local_name source name }

-- The identifier and the orphans, by the own file.
unfoldable pub take_over : ℕ → ℕ → Bool → Blocks → Option FileInfo → ℕ × List (List ℕ)
take_over fresh unset disable_blocks_removal store none = (fresh, [])
take_over fresh unset disable_blocks_removal store (some file) =
    if disable_blocks_removal
    then (unset, [])
    else (file.uuid, deduce store (record_file file []) [])

unfoldable pub collected :
    List (List ℕ) → ProtoFile → List (List ℕ) → List ProtoBlock × List (List ℕ)
collected hashes f orphans = if f.size == 0 then ([], orphans) else collect hashes f.blocks orphans

-- `initialize`; `is_local_update` says whether that is the action.
unfoldable pub initialize :
    ℕ
    → ℕ
    → Bool
    → Bool
    → List (List ℕ)
    → Blocks
    → List FileInfo
    → ProtoFile
    → List ℕ
    → Option Advance
initialize fresh unset disable_blocks_removal is_local_update hashes store local_files source name =
    let f = as_local source name in
    let owned = take_over fresh unset disable_blocks_removal store (by_name f.name local_files) in
    let found = collected hashes f owned.1 in
    if not (length source.blocks == 0) && source.deleted
    then none
    else if not (length found.0 == 0) && not is_local_update
    then none
    else some (record {
      proto_source = source;
      proto_local = f;
      uuid = owned.0;
      new_blocks = found.0;
      removed_blocks = found.1;
    })

-- The loop that assigns the blocks of the file and marks them.
unfoldable pub assign_local : (List ℕ → Option ℕ) → ℕ → List ProtoBlock → State → Option State
assign_local by_hash i [] s = some s
assign_local by_hash i (b ∷ bs) s = elim (by_hash (make_strict_hash b.hash)) [
  | none ↦ none
  | some a ↦ elim (assign_block a i s) [
    | none ↦ none
    | some t ↦ elim (mark_local_available i t) [
      | none ↦ none
      | some u ↦ assign_local by_hash (suc i) bs u
    ]
  ]
]

-- `prev_file->update(*local_file)`, where there is one.
unfoldable pub merged : Option FileInfo → State → Option State
merged none s = some s
merged (some prev_file) s = replace_file prev_file s

abbrev pub without : Option FileInfo → FolderInfo → FolderInfo
without none folder = folder
without (some prev_file) folder = record folder { files = remove prev_file folder.files }

-- `mark_local(true)`, the next sequence number, and `add_strict`.
unfoldable pub finish : FolderInfo → State → Applied
finish folder s =
    add_file folder
      (record s { this = record (mark_local true s.this) { sequence = folder.max_sequence + 1 } })

-- The file with its blocks, after the own file of the name.
unfoldable pub advanced :
    (List ℕ → Option ℕ) → ProtoFile → Option FileInfo → FileInfo → Blocks → Option State
unfolding assign_local merged
advanced by_hash f prev_file made store =
    elim (merged prev_file (record { store = store; this = made })) [
      | none ↦ none
      | some s ↦ if f.size == 0 then some s else assign_local by_hash 0 f.blocks s
    ]

-- `apply_impl`, after the children.
unfoldable pub apply_impl : (List ℕ → Option ℕ) → ℕ → Advance → Applied → Option Applied
unfolding advanced finish
apply_impl by_hash address diff a =
    let prev_file = by_name diff.proto_local.name a.folder.files in
    elim (fields_update diff.proto_local (blank address diff.uuid)) [
      | none ↦ none
      | some made ↦ elim (advanced by_hash diff.proto_local prev_file made a.store) [
        | none ↦ none
        | some s ↦ some (finish (without prev_file a.folder) s)
      ]
    ]
