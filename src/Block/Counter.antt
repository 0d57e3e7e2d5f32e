-- ===== src/Block/Counter.antt =====
-- model/block_info.cpp: the counter word of a block, its references and its flags.
use syncspirit.Prelude.{ℕ, ◌+◌, ◌<◌, ◌^◌, ◌≡◌, arith, none, some}
use syncspirit.Block.{
  lock_mask, single_mask, has_bit, use_count, refcouner_inc, refcouner_dec, BlockInfo, lock, unlock,
}

abbrev SameFlags : ℕ → ℕ → Type 0
SameFlags before after =
    (has_bit lock_mask after ≡ has_bit lock_mask before)
    × (has_bit single_mask after ≡ has_bit single_mask before)

-- Below the counter's limit a taken reference counts one more and leaves both flags alone.
pub refcouner_inc_lem :
    (counter : ℕ)
    → counter < 2 ^ 32
    → use_count counter + 1 < single_mask
    → (use_count (refcouner_inc counter) ≡ use_count counter + 1)
      × SameFlags counter (refcouner_inc counter)
unfolding refcouner_inc
refcouner_inc_lem counter w h = ground arith

-- A reference dropped is one taken, undone: the word comes back, and the value that decides on the
-- deletion is the old count.
pub refcouner_dec-refcouner_inc :
    (counter : ℕ)
    → counter < 2 ^ 32
    → use_count counter + 1 < single_mask
    → refcouner_dec (refcouner_inc counter) ≡ (counter, use_count counter)
unfolding refcouner_inc refcouner_dec
refcouner_dec-refcouner_inc counter w h = ground arith

-- A lock is taken only where it is free, and releasing it gives back the very block.
pub unlock-lock :
    (b c : BlockInfo) → b.counter < 2 ^ 32 → lock b ≡ some c → (lock c ≡ none) × (unlock c ≡ some b)
unfolding lock unlock
unlock-lock b c w e = ground arith
