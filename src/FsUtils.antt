-- ===== src/FsUtils.antt =====
-- fs/utils.cpp: the temporary suffix and the division of a file into blocks. Sizes are not negative;
-- texts are lists of bytes.
pub mod Division
use syncspirit.Prelude.{
  ℕ, zero, suc, ◌+◌, ◌-◌, ◌*◌, ◌/◌, ◌%◌, ◌^◌, Bool, true, false, not, ◌&&◌, List, [], ◌∷◌,
  if◌then◌else◌, ltb, leb, ◌==◌, length, drop, Option, none, some,
}
use syncspirit.Prelude.Find.{any_of, find_if}
use syncspirit.File.Wire.{same_text}

-- ".syncspirit-tmp".
abbrev pub tmp_suffix : List ℕ
tmp_suffix =
    b'.' ∷ b's' ∷ b'y' ∷ b'n' ∷ b'c' ∷ b's' ∷ b'p' ∷ b'i' ∷ b'r' ∷ b'i' ∷ b't' ∷ b'-' ∷ b't' ∷ b'm'
    ∷ b'p' ∷ []

-- `_is_temporal`: the text is long enough and its end is the suffix.
unfoldable pub is_temporal : List ℕ → Bool
is_temporal path =
    leb (length tmp_suffix) (length path)
    && same_text (drop (length path - length tmp_suffix) path) tmp_suffix

abbrev pub block_sizes : List ℕ
block_sizes = 2 ^ 17 ∷ 2 ^ 18 ∷ 2 ^ 19 ∷ 2 ^ 20 ∷ 2 ^ 21 ∷ 2 ^ 22 ∷ 2 ^ 23 ∷ 2 ^ 24 ∷ []

abbrev pub max_blocks_count : ℕ
max_blocks_count = 2000

pub record BlockDivision : Type 0 where
  pub count : ℕ  -- int32
  pub size : ℕ  -- int32

-- The first loop: the size that the file had is kept, if the file still fills a block.
abbrev pub kept_size : ℕ → ℕ → ℕ
kept_size sz prev_size =
    if leb (2 ^ 17) sz && any_of (λ bs. bs == prev_size) block_sizes then prev_size else 0

abbrev pub capped_size : ℕ → Option ℕ → ℕ
capped_size sz none = 0
capped_size sz (some bs) = if ltb sz bs then sz else bs

-- The second loop: the least size at which `max_blocks_count` blocks hold the file.
abbrev pub fitting_size : ℕ → ℕ
fitting_size sz = capped_size sz (find_if (λ bs. leb sz (bs * max_blocks_count)) block_sizes)

unfoldable pub chosen_size : ℕ → ℕ → ℕ
chosen_size sz prev_size =
    let kept = kept_size sz prev_size in
    let fitting = if kept == 0 then fitting_size sz else kept in
    if fitting == 0 && not (sz == 0) then 2 ^ 24 else fitting

-- `++count` where the division leaves a rest.
unfoldable pub blocks_count : ℕ → ℕ → ℕ
blocks_count sz bs = if bs == 0 then 0 else if ltb (sz / bs * bs) sz then sz / bs + 1 else sz / bs

unfoldable pub get_block_size : ℕ → ℕ → BlockDivision
unfolding chosen_size blocks_count
get_block_size sz prev_size = record {
  count = blocks_count sz (chosen_size sz prev_size);
  size = chosen_size sz prev_size;
}
