-- ===== src/Tests/Blocks.antt =====
-- Runs of model/block_info.cpp and fs/utils.cpp.
use syncspirit.Prelude.{◌+◌, refl, [], arith}
use syncspirit.Block.{BlockInfo, single, link, unlink, make_file_block, lock_mask, single_mask}
use syncspirit.Block.Uses.{IsSound, Links, Unlinked, link-Links, unlink-Unlinked}

-- One use, by the file at 20, in place.
abbrev used_once : BlockInfo
used_once = record {
  address = 10;
  hash = [];
  size = 5;
  counter = single_mask + 1;
  file_blocks = single (record { block_info = 10; file_info = 20; block_idx = 0 });
}

sound : IsSound used_once
sound = record { shape = refl; word = omega arith }

link-Links_example : Links used_once (link used_once 30 2) (make_file_block used_once 30 2)
link-Links_example = link-Links used_once 30 2 sound

unlink-Unlinked_example : Unlinked used_once 20 (unlink used_once 20)
unlink-Unlinked_example = unlink-Unlinked used_once 20 sound

abbrev locked : BlockInfo
locked = record used_once { counter = lock_mask + (single_mask + 1) }
