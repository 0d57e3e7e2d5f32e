-- ===== src/Tests/Files.antt =====
-- Runs of model/file_info.cpp and model/misc/path.cpp.
use syncspirit.Prelude.{
  ℕ, ◌+◌, ◌*◌, ◌/◌, ◌^◌, ◌≡◌, ◌≢◌, refl, true, false, [], ◌∷◌, Option, none, some, arith,
}
use syncspirit.Prelude.Int.{pos}
use syncspirit.Version
use syncspirit.Version.{Version, best_mask, from_proto, find_best, mark_at}
use syncspirit.Block.{multi, refcouner_inc, link}
use syncspirit.File.{
  FileInfo, BlockRef, blocks, symlink_target, FileType, is_file, file_blocks, get_link_target,
}
use syncspirit.File.Wire.{Blocks, ProtoFile, ProtoBlock, fields_update, get_size}
use syncspirit.File.Store.{State, mark_local_available, assign_block, update}
use syncspirit.File.Size.{ArePresent, total_size, get_size-total}
use syncspirit.File.Available.{IsTruthful}
use syncspirit.File.Linked.{update-get_link_target}
use syncspirit.Tests.Versions.{counter}
use syncspirit.Tests.Resolving.{plain_flags, file_at}

-- Blocks of 1 GiB.
abbrev store : Blocks
store a = record { address = a; hash = a ∷ []; size = 2 ^ 30; counter = 0; file_blocks = multi [] }

abbrev ref_to : ℕ → BlockRef
ref_to a = record { block = some a; local = false }

abbrev version : Version
version = record { counters = counter 5 (best_mask + 3) ∷ [] }

-- A file of six of them.
abbrev large : FileInfo
large = record (file_at 1 20 version) {
  content = blocks (ref_to 0 ∷ ref_to 1 ∷ ref_to 2 ∷ ref_to 3 ∷ ref_to 4 ∷ ref_to 5 ∷ []);
}

large_size : get_size store large ≡ 2 * 2 ^ 30
unfolding get_size
large_size = refl

ref_to-block : (a : ℕ) → (ref_to a).block ≢ none
ref_to-block a e = cc

large-ArePresent : ArePresent (file_blocks large)
large-ArePresent = (
  ref_to-block 0,
  (ref_to-block 1, (ref_to-block 2, (ref_to-block 3, (ref_to-block 4, (ref_to-block 5, tt))))),
)

get_size-total_example :
    total_size store (file_blocks large) ≡ get_size store large + 5 * 2 ^ 30 / 2 ^ 32 * 2 ^ 32
get_size-total_example =
    get_size-total store (2 ^ 30) large (ref_to 0) (ref_to 1)
      (ref_to 2 ∷ ref_to 3 ∷ ref_to 4 ∷ ref_to 5 ∷ []) refl refl refl refl large-ArePresent
      (omega arith)

large-IsTruthful : IsTruthful large
large-IsTruthful is_file available = cc

abbrev before : State
before = record { store = store; this = large }

abbrev result : Option State → State
result none = before
result (some t) = t

-- The first block comes to disk.
marked : State
unfolding mark_local_available
marked = result (mark_local_available 0 before)

marked_lem : mark_local_available 0 before ≡ some marked
unfolding marked
marked_lem = refl

abbrev message : ProtoFile
message = record {
  name = b'n' ∷ [];
  type = FileType.symlink;
  size = 0;
  permissions = 7;
  modified_s = pos 5;
  modified_ns = 6;
  modified_by = 7;
  deleted = false;
  invalid = true;
  no_permissions = false;
  version = counter 5 3 ∷ [];
  sequence = 12;
  block_size = 0;
  blocks = [];
  symlink_target = b't' ∷ [];
}

abbrev empty_block : ProtoBlock
empty_block = record { hash = []; size = 0; offset = 0 }

made : FileInfo
unfolding fields_update from_proto find_best mark_at
made = elim (fields_update message large) [ none ↦ large | some g ↦ g ]

made_lem : fields_update message large ≡ some made
unfolding made
made_lem = refl

-- The large file, as another one takes it.
abbrev copy : State
copy = record { store = store; this = record (file_at 2 10 version) { content = blocks [] } }

abbrev small : FileInfo
small = record (file_at 3 20 version) { content = blocks (ref_to 4 ∷ []) }

updated : State
unfolding update assign_block link refcouner_inc
updated = result (update small copy)

updated_lem : update small copy ≡ some updated
unfolding updated Version.identical_to Version.same_counters
updated_lem = refl

-- The file becomes a symbolic link to `t`.
abbrev linked : FileInfo
linked = record small {
  content = symlink_target (b't' ∷ []);
  flags = record plain_flags { type_file = false; type_link = true };
}

relinked : State
unfolding update
relinked = result (update linked copy)

relinked_lem : update linked copy ≡ some relinked
unfolding relinked Version.identical_to Version.same_counters
relinked_lem = refl

update-get_link_target_example : get_link_target relinked.this ≡ []
update-get_link_target_example = update-get_link_target linked copy relinked refl refl relinked_lem
