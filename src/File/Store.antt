-- ===== src/File/Store.antt =====
-- model/file_info.cpp: the operations on a file that write its blocks too. A file and the store of
-- blocks go in and come out; `none` is a failed assertion. A block whose count falls to 0 stays in
-- the store with no uses, where the code deletes it.
use syncspirit.Prelude.{
  ℕ, zero, suc, Bool, true, false, ◌&&◌, ◌||◌, List, [], ◌∷◌, Option, none, some, if◌then◌else◌,
  ◌==◌, length, get_elem?, set, replicate,
}
use syncspirit.Prelude.Find.{any_of}
use syncspirit.Version.{identical_to, from_proto}
use syncspirit.Block.{
  BlockInfo, refcouner_inc, refcouner_dec, link, unlink, uses, mark_local_available as block_mark,
  is_locally_available as use_is_local,
}
use syncspirit.File.{
  Flags, BlockRef, null_ref, Content, blocks, symlink_target, FileInfo, is_file, is_link,
  file_blocks, count_local, content_target,
}
use syncspirit.File.Wire.{Blocks, same_text, ProtoFile, ProtoBlock}

pub record State : Type 0 where
  pub store : Blocks
  pub this : FileInfo

abbrev pub write_block : ℕ → BlockInfo → Blocks → Blocks
write_block a b store x = if x == a then b else store x

abbrev pub with_blocks : List BlockRef → FileInfo → FileInfo
with_blocks refs f = record f { content = blocks refs }

unfoldable pub assign_block : ℕ → ℕ → State → Option State
assign_block a index s = elim (get_elem? (file_blocks s.this) index) [
  | none ↦ none
  | some r ↦ elim r.block [
    | some _ ↦ none
    | none ↦
        if is_file s.this
        then (let counted = record (s.store a) { counter = refcouner_inc (s.store a).counter } in
            some (record {
              store = write_block a (link counted s.this.address index) s.store;
              this =
                  with_blocks
                    (set (file_blocks s.this) index (record { block = some a; local = false }))
                    s.this;
            }))
        else none
  ]
]

unfoldable pub mark_local_available : ℕ → State → Option State
unfolding count_local
mark_local_available index s = elim (get_elem? (file_blocks s.this) index) [
  | none ↦ none
  | some r ↦ elim r.block [
    | none ↦ none
    | some a ↦
        if r.local
        then none
        else let refs = set (file_blocks s.this) index (record r { local = true }) in
          let all = count_local refs == length refs in
          some (record {
            store = write_block a (block_mark (s.store a) s.this.address) s.store;
            this = record (with_blocks refs s.this) {
              flags = record s.this.flags { available = s.this.flags.available || all };
            };
          })
  ]
]

-- `for (auto i : indices)`: the pointer at each index is cleared and one reference is dropped.
abbrev pub clear_refs : List ℕ → List BlockRef → List BlockRef
clear_refs [] refs = refs
clear_refs (i ∷ is) refs = clear_refs is (set refs i null_ref)

abbrev pub drop_refs : List ℕ → BlockInfo → BlockInfo
drop_refs [] b = b
drop_refs (i ∷ is) b = drop_refs is (record b { counter = (refcouner_dec b.counter).0 })

unfoldable pub remove_block : Option ℕ → State → Option State
remove_block none s = some s
remove_block (some a) s = elim (unlink (s.store a) s.this.address) [
  | none ↦ none
  | some r ↦ some (record {
    store = write_block a (drop_refs r.1 r.0) s.store;
    this = with_blocks (clear_refs r.1 (file_blocks s.this)) s.this;
  })
]

abbrev pub block_at_index : List BlockRef → ℕ → Option ℕ
block_at_index [] i = none
block_at_index (r ∷ rs) zero = r.block
block_at_index (r ∷ rs) (suc i) = block_at_index rs i

-- The walk over the pointers, which the removals clear as it goes.
unfoldable pub remove_blocks_from : ℕ → ℕ → State → Option State
unfolding remove_block
remove_blocks_from zero i s = some s
remove_blocks_from (suc left) i s = elim (remove_block (block_at_index (file_blocks s.this) i) s) [
  | none ↦ none
  | some t ↦ remove_blocks_from left (suc i) t
]

abbrev clear_available : State → State
clear_available s = record s {
  this = record s.this { flags = record s.this.flags { available = false } };
}

unfoldable pub remove_blocks : State → Option State
unfolding remove_blocks_from
remove_blocks s =
    if is_file s.this
    then elim (remove_blocks_from (length (file_blocks s.this)) 0 s) [
      | none ↦ none
      | some t ↦ some (clear_available t)
    ]
    else some s

-- The first loop of `update`: the hashes of the blocks that this file has on disk.
unfoldable pub local_block_hashes : Blocks → ℕ → List BlockRef → List (List ℕ)
local_block_hashes store file [] = []
local_block_hashes store file (r ∷ rs) = elim r.block [
  | none ↦ local_block_hashes store file rs
  | some a ↦
      let rest = local_block_hashes store file rs in
      if any_of (λ fb. use_is_local fb && fb.file_info == file) (uses (store a))
      then (store a).hash ∷ rest
      else rest
]

-- The last loop of `update`: the other file's blocks are assigned, and those on disk marked.
unfoldable pub take_blocks : List (List ℕ) → ℕ → List BlockRef → State → Option State
unfolding assign_block mark_local_available
take_blocks hashes i [] s = some s
take_blocks hashes i (r ∷ rs) s = elim r.block [
  | none ↦ take_blocks hashes (suc i) rs s
  | some a ↦ elim (assign_block a i s) [
    | none ↦ none
    | some t ↦
        if any_of (same_text (t.store a).hash) hashes
        then elim (mark_local_available i t) [
          | none ↦ none
          | some u ↦ take_blocks hashes (suc i) rs u
        ]
        else take_blocks hashes (suc i) rs t
  ]
]

-- The two rebuilds of the union where the file bit changes, and the `resize` of the new blocks.
unfoldable pub rebuild : Bool → Bool → ℕ → FileInfo → FileInfo
rebuild prev_file new_file size f =
    if new_file
    then record f { content = blocks (replicate size null_ref) }
    else if prev_file
    then record f { content = symlink_target [] }
    else f

abbrev pub copy_fields : FileInfo → FileInfo → FileInfo
copy_fields other f = record f {
  permissions = other.permissions;
  modified_s = other.modified_s;
  modified_ns = other.modified_ns;
  modified_by = other.modified_by;
  version = other.version;
  sequence = other.sequence;
  content =
      if is_link f && is_link other
      then symlink_target (content_target other.content)
      else f.content;
}

-- `(other.flags & 0b111111) | (flags & ~0b111111)`.
abbrev pub merge_flags : Flags → Flags → Flags
merge_flags other mine = record other {
  synchronizing = mine.synchronizing;
  unreachable = mine.unreachable;
  local = mine.local;
  available = mine.available;
}

abbrev pub finish_update : FileInfo → Option State → Option State
finish_update other none = none
finish_update other (some s) =
    some (record s { this = record s.this { flags = merge_flags other.flags s.this.flags } })

-- The assertions of `update`: one name, and one identifier or identical versions.
abbrev pub is_updatable : FileInfo → FileInfo → Bool
is_updatable f other =
    same_text f.name other.name && (f.uuid == other.uuid || identical_to f.version other.version)

-- The rest of `update`, behind the removal of the blocks.
unfoldable pub refill : FileInfo → State → Option State → Option State
unfolding local_block_hashes take_blocks rebuild
refill other s none = none
refill other s (some emptied) =
    let hashes =
      if is_file s.this
      then local_block_hashes s.store s.this.address (file_blocks s.this)
      else [] in
    let refs = file_blocks other in
    let rebuilt = record emptied {
      this = rebuild (is_file s.this) (is_file other) (length refs) emptied.this;
    } in
    finish_update other (if is_file other then take_blocks hashes 0 refs rebuilt else some rebuilt)

-- `update(other)`; `none` is a failed assertion.
unfoldable pub update : FileInfo → State → Option State
unfolding remove_blocks refill
update other s =
    if is_updatable s.this other
    then refill other s (remove_blocks (record s { this = copy_fields other s.this }))
    else none

-- The loop of `identical_to(message)`: the hashes agree one by one. `none` is the use of a null
-- pointer, or of the bytes of a symlink's target as pointers.
unfoldable pub same_hashes : Blocks → List BlockRef → List ProtoBlock → Option Bool
same_hashes store [] [] = some true
same_hashes store [] (m ∷ ms) = none
same_hashes store (r ∷ rs) [] = some true
same_hashes store (r ∷ rs) (m ∷ ms) = elim r.block [
  | none ↦ none
  | some a ↦
      let rest = same_hashes store rs ms in
      if same_text (store a).hash m.hash then rest else some false
]

-- The size of the compact vector that the union holds: of the pointers, or of the target's bytes,
-- which the code reads at the same place whatever the type.
abbrev pub raw_size : Content → ℕ
raw_size (blocks refs) = length refs
raw_size (symlink_target target) = length target

-- `none` is also the failed assertion on an empty version vector.
unfoldable pub identical_to_message : Blocks → FileInfo → ProtoFile → Option Bool
unfolding same_hashes
identical_to_message store f m = elim (from_proto m.version) [
  | none ↦ none
  | some version ↦
      if identical_to f.version version && length m.blocks == raw_size f.content
      then same_hashes store (file_blocks f) m.blocks
      else some false
]
