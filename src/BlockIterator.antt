-- ===== src/BlockIterator.antt =====
-- model/misc/block_iterator.cpp: `blocks_iterator_t`, which gives the blocks of a file that are not
-- here yet. The file is shared with other code and an argument of every operation. An index out of
-- the vector is `none`.
pub mod Missing
use syncspirit.Prelude.{
  ℕ, zero, suc, ◌+◌, ◌%◌, ◌^◌, Bool, true, false, not, ◌&&◌, ◌||◌, List, [], ◌∷◌, Option, none,
  some, if◌then◌else◌, leb, ◌==◌, length, drop, get_elem?,
}
use syncspirit.File.{BlockRef, FileInfo, file_blocks}

abbrev pub wrong_index : ℕ
wrong_index = 4294967295

pub record BlockIterator : Type 0 where
  pub i : ℕ
  pub sequence : ℕ

-- `file_block_t` as `next` builds it: the block, the file and the index.
pub record Found : Type 0 where
  pub block : Option ℕ
  pub file : ℕ
  pub index : ℕ

-- How many entries the loop of `advance` passes: those with the tag.
unfoldable pub local_prefix : List BlockRef → ℕ
local_prefix [] = 0
local_prefix (r ∷ rs) = if r.local then suc (local_prefix rs) else 0

unfoldable pub prepare : FileInfo → BlockIterator → BlockIterator
prepare source it =
    if it.i == wrong_index
    then it
    else if source.flags.unreachable || leb (length (file_blocks source)) it.i
    then record it { i = wrong_index }
    else it

unfoldable pub advance : FileInfo → BlockIterator → BlockIterator
unfolding local_prefix prepare
advance source it =
    prepare source (record it { i = it.i + local_prefix (drop it.i (file_blocks source)) })

-- The member `sequence` has no value before it is set; 0 stands for what it holds then.
unfoldable pub make_iterator : FileInfo → BlockIterator
unfolding advance
make_iterator source =
    if length (file_blocks source) == 0
    then record { i = wrong_index; sequence = 0 }
    else advance source (record { i = 0; sequence = source.sequence })

-- `operator bool`
unfoldable pub is_active : FileInfo → BlockIterator → Bool
is_active source it = not (it.i == wrong_index) && source.sequence == it.sequence

abbrev pub found_at : FileInfo → ℕ → Option BlockRef → Option Found
found_at source index none = none
found_at source index (some r) =
    some (record { block = r.block; file = source.address; index = index })

unfoldable pub next : FileInfo → BlockIterator → BlockIterator × Option Found
unfolding advance
next source it = (
  advance source (record it { i = (it.i + 1) % 2 ^ 32 }),
  found_at source it.i (get_elem? (file_blocks source) it.i),
)
