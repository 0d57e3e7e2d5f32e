-- ===== src/Block.antt =====
-- model/block_info.{h,cpp} and model/misc/file_block.{h,cpp}: a block of content and the places of
-- files that use it. The counter word packs the reference count with two flags, and the uses are a
-- union of one use in place and a vector of them, which the SINGLE flag tells apart. The code
-- splits on the flag, and the operations here on the member that lives: reading the other member
-- is undefined in C++, and `Block.Uses.IsSound` is the invariant that the two agree.
pub mod Counter
pub mod Uses
use syncspirit.Prelude.{
  ℕ, zero, suc, ◌+◌, ◌-◌, ◌/◌, ◌%◌, ◌^◌, Bool, true, false, not, ◌&&◌, List, [], ◌∷◌, ◌++◌, map,
  Option, none, some, if◌then◌else◌, ltb, leb, ◌==◌, length, get_elem?,
}
use syncspirit.Prelude.Find.{keep_if}

-- `1 << 31`, `1 << 30`, and the tests and writes of such a bit of a uint32.
abbrev pub lock_mask : ℕ
lock_mask = 2 ^ 31

abbrev pub single_mask : ℕ
single_mask = 2 ^ 30

abbrev pub has_bit : ℕ → ℕ → Bool
has_bit mask word = word / mask % 2 == 1

abbrev pub set_bit : ℕ → ℕ → ℕ
set_bit mask word = if has_bit mask word then word else word + mask

abbrev pub clear_bit : ℕ → ℕ → ℕ
clear_bit mask word = if has_bit mask word then word - mask else word

-- `counter & COUNTER_MASK` and `counter & (LOCK_MASK | SINGLE_MASK)`.
unfoldable pub use_count : ℕ → ℕ
use_count counter = counter % single_mask

unfoldable pub save_bits : ℕ → ℕ
save_bits counter = counter - counter % single_mask

abbrev pub u32 : ℕ → ℕ
u32 n = n % 2 ^ 32

-- `save_bits | value`, over values that may have run into the flags.
abbrev pub join_bits : ℕ → ℕ → ℕ
join_bits saved value =
    value % single_mask
    + (if has_bit single_mask saved
        then single_mask
        else if has_bit single_mask value
        then single_mask
        else 0)
    + (if has_bit lock_mask saved
        then lock_mask
        else if has_bit lock_mask value
        then lock_mask
        else 0)

unfoldable pub refcouner_inc : ℕ → ℕ
unfolding save_bits use_count
refcouner_inc counter = join_bits (save_bits counter) (u32 (use_count counter + 1))

-- The new counter, and the value that `intrusive_ptr_release` compares with 0.
unfoldable pub refcouner_dec : ℕ → ℕ × ℕ
unfolding save_bits use_count
refcouner_dec counter =
    let value = u32 (use_count counter + 2 ^ 32 - 1) in (join_bits (save_bits counter) value, value)

-- A use: the block and the file by their addresses, and the index with its local bit.
pub record FileBlock : Type 0 where
  pub block_info : ℕ
  pub file_info : ℕ
  pub block_idx : ℕ  -- uint32

abbrev pub is_locally_available : FileBlock → Bool
is_locally_available fb = has_bit lock_mask fb.block_idx

abbrev pub block_index : FileBlock → ℕ
block_index fb = fb.block_idx % lock_mask

unfoldable pub mark_locally_available : FileBlock → Bool → FileBlock
mark_locally_available fb value = record fb {
  block_idx = if value then set_bit lock_mask fb.block_idx else fb.block_idx % lock_mask;
}

unfoldable pub matches : FileBlock → ℕ → ℕ → Bool
matches fb block file = fb.block_info == block && fb.file_info == file

pub data FileBlocks : Type 0 where
  single : FileBlock → FileBlocks
  multi : List FileBlock → FileBlocks

-- A block at its address.
pub record BlockInfo : Type 0 where
  pub address : ℕ
  pub hash : List ℕ
  pub size : ℕ
  pub counter : ℕ
  pub file_blocks : FileBlocks

abbrev pub is_single : BlockInfo → Bool
is_single b = has_bit single_mask b.counter

-- What `iterate_blocks` walks over, with the member of the union that the flag selects. A flag that
-- does not fit the member is undefined behaviour in C++: nothing is read here.
unfoldable pub uses : BlockInfo → List FileBlock
uses b = elim b.file_blocks [
  | single fb ↦ if is_single b then fb ∷ [] else []
  | multi fbs ↦ if is_single b then [] else fbs
]

-- `file_blocks_iterator_t::next` from an index on, and `get_total`.
unfoldable pub next_use : BlockInfo → ℕ → Option FileBlock × ℕ
unfolding uses
next_use b index = elim (get_elem? (uses b) index) [
  | none ↦ (none, index)
  | some fb ↦ (some fb, suc index)
]

unfoldable pub get_total : BlockInfo → ℕ
unfolding uses
get_total b = elim b.file_blocks [
  | single fb ↦ 1
  | multi fbs ↦ if is_single b then 1 else length fbs
]

unfoldable pub find_local : List FileBlock → Option FileBlock
find_local [] = none
find_local (fb ∷ fbs) = if is_locally_available fb then some fb else find_local fbs

-- `local_file()`; `none` is the empty file block.
unfoldable pub local_file : BlockInfo → Option FileBlock
unfolding find_local uses
local_file b = find_local (uses b)

-- The constructor `file_block_t(block, file, index)`: local where some use of the block is.
unfoldable pub make_file_block : BlockInfo → ℕ → ℕ → FileBlock
unfolding local_file
make_file_block b file index = record {
  block_info = b.address;
  file_info = file;
  block_idx = elim (local_file b) [ none ↦ u32 index | some _ ↦ set_bit lock_mask (u32 index) ];
}

-- The three ways through `link`: one use becomes two, a vector grows, and the first use is stored
-- in place. In the last the constructor runs over the union just emptied.
unfoldable pub link : BlockInfo → ℕ → ℕ → BlockInfo
unfolding make_file_block
link b file index = elim b.file_blocks [
  | single first ↦
      let b' = record b {
        counter = clear_bit single_mask b.counter;
        file_blocks = multi (first ∷ []);
      } in
      record b' { file_blocks = multi (first ∷ make_file_block b' file index ∷ []) }
  | multi [] ↦ record b {
    counter = set_bit single_mask b.counter;
    file_blocks = single (make_file_block b file index);
  }
  | multi (fb ∷ fbs) ↦ record b {
    file_blocks = multi (fb ∷ fbs ++ make_file_block b file index ∷ []);
  }
]

-- The loop of `unlink`: the indices of the file's uses, and the uses of other files.
unfoldable pub removed_indices : ℕ → ℕ → List FileBlock → List ℕ
removed_indices block file [] = []
removed_indices block file (fb ∷ fbs) =
    if matches fb block file
    then block_index fb ∷ removed_indices block file fbs
    else removed_indices block file fbs

abbrev pub others : ℕ → ℕ → List FileBlock → List FileBlock
others block file = keep_if (λ fb. not (matches fb block file))

-- `if (fbs.size() == 1)`: the last use of a vector goes in place.
unfoldable pub settle : BlockInfo → List FileBlock → BlockInfo
settle b [] = record b { file_blocks = multi [] }
settle b (fb ∷ []) = record b { counter = set_bit single_mask b.counter; file_blocks = single fb }
settle b (fb ∷ next ∷ fbs) = record b { file_blocks = multi (fb ∷ next ∷ fbs) }

-- The body of `unlink`, up to its assertion.
unfoldable pub unlink_uses : BlockInfo → ℕ → BlockInfo × List ℕ
unfolding removed_indices settle
unlink_uses b file = elim b.file_blocks [
  | single fb ↦
      if matches fb b.address file
      then (
        record b { counter = clear_bit single_mask b.counter; file_blocks = multi [] },
        block_index fb ∷ [],
      )
      else (b, [])
  | multi fbs ↦ (settle b (others b.address file fbs), removed_indices b.address file fbs)
]

-- `assert(!r.empty())`; `none` is its failure.
abbrev pub if_removed : BlockInfo × List ℕ → Option (BlockInfo × List ℕ)
if_removed (b, []) = none
if_removed (b, i ∷ is) = some (b, i ∷ is)

unfoldable pub unlink : BlockInfo → ℕ → Option (BlockInfo × List ℕ)
unfolding unlink_uses
unlink b file = if_removed (unlink_uses b file)

-- The `break` of the loop: the first use of the file alone is marked.
unfoldable pub mark_first : ℕ → ℕ → List FileBlock → List FileBlock
unfolding mark_locally_available
mark_first block file [] = []
mark_first block file (fb ∷ fbs) =
    if matches fb block file
    then mark_locally_available fb true ∷ fbs
    else fb ∷ mark_first block file fbs

unfoldable pub mark_local_available : BlockInfo → ℕ → BlockInfo
unfolding mark_first
mark_local_available b file = elim b.file_blocks [
  | single fb ↦
      if matches fb b.address file
      then record b { file_blocks = single (mark_locally_available fb true) }
      else b
  | multi fbs ↦ record b { file_blocks = multi (mark_first b.address file fbs) }
]

abbrev pub is_locked : BlockInfo → Bool
is_locked b = has_bit lock_mask b.counter

-- `none` is the failed assertion.
unfoldable pub lock : BlockInfo → Option BlockInfo
lock b = if is_locked b then none else some (record b { counter = set_bit lock_mask b.counter })

unfoldable pub unlock : BlockInfo → Option BlockInfo
unlock b = if is_locked b then some (record b { counter = clear_bit lock_mask b.counter }) else none
