-- ===== src/File/Wire.antt =====
-- model/file_info.cpp: `fields_update`, `as_proto`, `as_db` and the two comparisons with a message.
-- The messages are the records of the protocol; their encoding belongs to the protobuf library.
use syncspirit.Prelude.{
  ℕ, ◌+◌, ◌-◌, Bool, true, false, not, ◌&&◌, List, [], ◌∷◌, ◌*◌, ◌%◌, ◌^◌, Option, none, some,
  if◌then◌else◌, ltb, ◌==◌, length, replicate,
}
use syncspirit.Prelude.Int.{ℤ, pos_part, neg_part}
use syncspirit.Version.{Counter, from_proto, to_proto}
use syncspirit.Block.{BlockInfo}
use syncspirit.File.{
  FileType, file, directory, symlink, reset_flags, as_type, BlockRef, null_ref, Content, FileInfo,
  is_file, is_link, is_deleted, is_invalid, file_blocks, get_link_target, content_target,
}

pub record ProtoBlock : Type 0 where
  pub hash : List ℕ
  pub size : ℕ
  pub offset : ℕ

pub record ProtoFile : Type 0 where
  pub name : List ℕ
  pub type : FileType
  pub size : ℕ
  pub permissions : ℕ
  pub modified_s : ℤ
  pub modified_ns : ℕ
  pub modified_by : ℕ
  pub deleted : Bool
  pub invalid : Bool
  pub no_permissions : Bool
  pub version : List Counter
  pub sequence : ℕ
  pub block_size : ℕ
  pub blocks : List ProtoBlock
  pub symlink_target : List ℕ

-- `reserve_blocks`, on the content just made: null pointers, for a file of a declared size.
unfoldable pub reserved : ℕ → ℕ → List BlockRef
reserved declared_size count = replicate (if declared_size == 0 then 0 else count) null_ref

-- `reserve_blocks` goes through `remove_blocks`, which drops the AVAILABLE flag.
abbrev pub drops_available : ProtoFile → Bool
drops_available source = not (source.size == 0) && not (length source.blocks == 0)

-- `none` is the failed assertion on a vector with no counter.
unfoldable pub fields_update : ProtoFile → FileInfo → Option FileInfo
unfolding reserved reset_flags
fields_update source f = elim (from_proto source.version) [
  | none ↦ none
  | some version ↦
      let reset = reset_flags source.type f.flags in
      let flags = record reset {
        deleted = source.deleted;
        invalid = source.invalid;
        no_permissions = source.no_permissions;
      } in
      some (record f {
        name = source.name;
        sequence = source.sequence;
        permissions = source.permissions;
        modified_s = source.modified_s;
        modified_ns = source.modified_ns;
        modified_by = source.modified_by;
        version = version;
        content =
            if flags.type_file
            then Content.blocks (reserved source.size (length source.blocks))
            else Content.symlink_target source.symlink_target;
        flags =
            if flags.type_file && drops_available source
            then record flags { available = false }
            else flags;
      })
]

-- The blocks are found by address. `none` is a null pointer, which the code would follow.
abbrev pub Blocks : Type 0
Blocks = ℕ → BlockInfo

abbrev pub block_at : Blocks → BlockRef → Option BlockInfo
block_at store r = elim r.block [ none ↦ none | some a ↦ some (store a) ]

-- The loop of `as_proto`: `block->as_bep(offset)` with a running offset.
unfoldable pub bep_blocks : Blocks → ℕ → List BlockRef → Option (List ProtoBlock)
bep_blocks store offset [] = some []
bep_blocks store offset (r ∷ rs) = elim (block_at store r) [
  | none ↦ none
  | some b ↦ elim (bep_blocks store (offset + b.size) rs) [
    | none ↦ none
    | some out ↦ some (record { hash = b.hash; size = b.size; offset = offset } ∷ out)
  ]
]

-- The loop of `as_db` skips the null pointers.
unfoldable pub db_blocks : Blocks → List BlockRef → List (List ℕ)
db_blocks store [] = []
db_blocks store (r ∷ rs) = elim r.block [
  | none ↦ db_blocks store rs
  | some a ↦ (store a).hash ∷ db_blocks store rs
]

-- `get_block_size`; a null front pointer is read as a block of size 0.
abbrev pub size_at : Blocks → BlockRef → ℕ
size_at store r = elim r.block [ none ↦ 0 | some a ↦ (store a).size ]

abbrev pub front_size : Blocks → List BlockRef → ℕ
front_size store [] = 0
front_size store (r ∷ rs) = size_at store r

unfoldable pub get_block_size : Blocks → FileInfo → ℕ
get_block_size store f = if is_file f then front_size store (file_blocks f) else 0

unfoldable pub back_size : Blocks → List BlockRef → ℕ
back_size store [] = 0
back_size store (r ∷ []) = size_at store r
back_size store (r ∷ next ∷ rs) = back_size store (next ∷ rs)

-- `get_size`: the product of two uint32 is a uint32.
unfoldable pub blocks_size : Blocks → List BlockRef → ℕ
unfolding back_size
blocks_size store refs =
    back_size store refs
    + (if ltb 1 (length refs) then (length refs - 1) * front_size store refs % 2 ^ 32 else 0)

unfoldable pub get_size : Blocks → FileInfo → ℕ
unfolding blocks_size
get_size store f =
    if is_file f && not (is_deleted f) && not (is_invalid f)
    then blocks_size store (file_blocks f)
    else 0

-- `get_block_offset`: here the product has the width of the index.
unfoldable pub get_block_offset : Blocks → FileInfo → ℕ → ℕ
get_block_offset store f index = front_size store (file_blocks f) * index % 2 ^ 64

-- The fields that `as_proto` and `as_db` write alike.
abbrev meta : Blocks → FileInfo → ProtoFile
meta store f = record {
  name = f.name;
  type = as_type f.flags;
  size = if is_file f then get_size store f else 0;
  permissions = f.permissions;
  modified_s = f.modified_s;
  modified_ns = f.modified_ns;
  modified_by = f.modified_by;
  deleted = is_deleted f;
  invalid = is_invalid f;
  no_permissions = f.flags.no_permissions;
  version = to_proto f.version;
  sequence = f.sequence;
  block_size = if is_file f then get_block_size store f else 0;
  blocks = [];
  symlink_target = if is_file f then [] else content_target f.content;
}

-- `as_proto(include_blocks)`, given the block of an empty file, which holds its digest.
unfoldable pub as_proto : Blocks → ProtoBlock → Bool → FileInfo → Option ProtoFile
unfolding as_type bep_blocks get_size get_block_size
as_proto store empty_block include_blocks f =
    if is_file f && include_blocks
    then elim (bep_blocks store 0 (file_blocks f)) [
      | none ↦ none
      | some out ↦ some (record (meta store f) {
        blocks =
            if length (file_blocks f) == 0 && not (is_deleted f) then empty_block ∷ [] else out;
      })
    ]
    else some (meta store f)

-- `as_db(include_blocks)`: the message, and the hashes of the blocks beside it.
unfoldable pub as_db : Blocks → Bool → FileInfo → ProtoFile × List (List ℕ)
unfolding as_type db_blocks get_size get_block_size
as_db store include_blocks f =
    (meta store f, if is_file f && include_blocks then db_blocks store (file_blocks f) else [])

abbrev pub same_text : List ℕ → List ℕ → Bool
same_text [] [] = true
same_text [] (d ∷ ds) = false
same_text (c ∷ cs) [] = false
same_text (c ∷ cs) (d ∷ ds) = c == d && same_text cs ds

abbrev pub same_type : FileType → FileType → Bool
same_type file file = true
same_type directory directory = true
same_type symlink symlink = true
same_type _ _ = false

abbrev pub same_bool : Bool → Bool → Bool
same_bool a b = if a then b else not b

abbrev pub same_int : ℤ → ℤ → Bool
same_int a b = pos_part a == pos_part b && neg_part a == neg_part b

-- `identical_by_content_to`, below the assertion that the names are equal.
unfoldable pub identical_by_content_to : Blocks → FileInfo → ProtoFile → Bool
unfolding get_size get_block_size get_link_target as_type
identical_by_content_to store f m =
    if not (m.size == get_size store f)
    then false
    else if not (
        same_type m.type (as_type f.flags)
        && same_int m.modified_s f.modified_s
        && m.modified_ns == f.modified_ns
        && same_bool m.deleted (is_deleted f)
        && same_bool m.invalid (is_invalid f))
    then false
    else if is_link f && not (same_text m.symlink_target (get_link_target f))
    then false
    else if not f.flags.no_permissions && not (m.permissions == f.permissions)
    then false
    else if not (m.size == 0) && not (m.block_size == get_block_size store f)
    then false
    else true
