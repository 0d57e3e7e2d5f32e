-- ===== src/File/Size.antt =====
-- model/file_info.cpp: `get_size` against the sum of the blocks.
use syncspirit.Prelude.{
  ℕ, suc, ◌+◌, ◌-◌, ◌*◌, ◌/◌, ◌%◌, ◌^◌, ◌≡◌, ◌≢◌, none, ap, true, false, List, [], ◌∷◌, arith,
  length,
}
use syncspirit.Prelude.Find.{All}
use syncspirit.File.{FileInfo, BlockRef, is_file, is_deleted, is_invalid, file_blocks}
use syncspirit.File.Wire.{Blocks, size_at, back_size, blocks_size, get_size}

-- What the blocks of a file hold together.
pub total_size : Blocks → List BlockRef → ℕ
total_size store [] = 0
total_size store (r ∷ rs) = size_at store r + total_size store rs

-- All blocks but the last have one size.
abbrev pub HasBlockSize : Blocks → ℕ → List BlockRef → Type 0
HasBlockSize store k [] = Unit
HasBlockSize store k (r ∷ []) = Unit
HasBlockSize store k (r ∷ next ∷ rs) = (size_at store r ≡ k) × HasBlockSize store k (next ∷ rs)

total_size-HasBlockSize :
    (store : Blocks) (k : ℕ) (r : BlockRef) (rs : List BlockRef)
    → HasBlockSize store k (r ∷ rs)
    → total_size store (r ∷ rs) ≡ length rs * k + back_size store (r ∷ rs)
unfolding total_size back_size
total_size-HasBlockSize store k r [] h = grind arith
total_size-HasBlockSize store k r (next ∷ rs) h =
    grind (arith, total_size-HasBlockSize store k next rs h.1)

blocks_size-cons :
    (store : Blocks) (r next : BlockRef) (rs : List BlockRef)
    → blocks_size store (r ∷ next ∷ rs)
      ≡ back_size store (r ∷ next ∷ rs) + suc (length rs) * size_at store r % 2 ^ 32
unfolding blocks_size
blocks_size-cons store r next rs =
    ground (arith, ap (λ (n : ℕ). n * size_at store r % 2 ^ 32) (pred-suc (length rs)))
  where
    pred-suc : (n : ℕ) → suc (suc n) - 1 ≡ suc n
    pred-suc n = omega arith

split_product : (p b t : ℕ) → t ≡ p + b → t ≡ b + p % 2 ^ 32 + p / 2 ^ 32 * 2 ^ 32
split_product p b t h = omega arith

blocks_size-total :
    (store : Blocks) (k : ℕ) (r next : BlockRef) (rs : List BlockRef)
    → HasBlockSize store k (r ∷ next ∷ rs)
    → total_size store (r ∷ next ∷ rs)
      ≡ blocks_size store (r ∷ next ∷ rs) + suc (length rs) * k / 2 ^ 32 * 2 ^ 32
blocks_size-total store k r next rs h = rw (blocks_size-cons store r next rs) (
    rw (h.0) (
      split_product (suc (length rs) * k) (back_size store (r ∷ next ∷ rs)) _
        (total_size-HasBlockSize store k r (next ∷ rs) h)))

-- No pointer to a block is null.
abbrev pub ArePresent : List BlockRef → Type 0
ArePresent = All (λ r. r.block ≢ none)

-- For a regular file that is neither deleted nor invalid, with two blocks or more, none of them a null
-- pointer, and all but the last of one size: the size that the file reports is the sum of its blocks,
-- short of 2 ^ 32 for each 2 ^ 32 that the blocks before the last hold; so it is the sum exactly where
-- those hold less than 4 GiB.
pub get_size-total :
    (store : Blocks) (k : ℕ) (f : FileInfo) (r next : BlockRef) (rs : List BlockRef)
    → is_file f ≡ true
    → is_deleted f ≡ false
    → is_invalid f ≡ false
    → file_blocks f ≡ r ∷ next ∷ rs
    → ArePresent (r ∷ next ∷ rs)
    → HasBlockSize store k (r ∷ next ∷ rs)
    → total_size store (r ∷ next ∷ rs) ≡ get_size store f + suc (length rs) * k / 2 ^ 32 * 2 ^ 32
unfolding get_size
get_size-total store k f r next rs file live valid e there h =
    rw (file, live, valid, e) (blocks_size-total store k r next rs h)
