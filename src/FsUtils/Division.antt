-- ===== src/FsUtils/Division.antt =====
-- fs/utils.cpp: the blocks cover the file and none is empty.
use syncspirit.Prelude.{ℕ, ◌+◌, ◌*◌, ◌^◌, ◌≤◌, ◌<◌, arith}
use syncspirit.FsUtils.{chosen_size, blocks_count, get_block_size, kept_size, fitting_size}

blocks_count-covers :
    (sz bs : ℕ) → 0 < bs → (sz ≤ blocks_count sz bs * bs) × (blocks_count sz bs * bs < sz + bs)
unfolding blocks_count
blocks_count-covers sz bs h = grind arith

kept_size-le : (sz prev : ℕ) → kept_size sz prev ≤ 2 ^ 24
kept_size-le sz prev = ground arith

fitting_size-le : (sz : ℕ) → (fitting_size sz ≤ 2 ^ 24)
fitting_size-le sz = ground arith

chosen_size-bounds :
    (sz prev : ℕ) → 0 < sz → (0 < chosen_size sz prev) × (chosen_size sz prev ≤ 2 ^ 24)
unfolding chosen_size
chosen_size-bounds sz prev h = ground (arith, kept_size-le sz prev, fitting_size-le sz)

-- A file that is not empty is cut into blocks of a positive size of at most 16 MiB, which cover it,
-- the last of them not empty.
pub get_block_size-covers :
    (sz prev : ℕ)
    → 0 < sz
    → let d = get_block_size sz prev in
      (0 < d.size) × (d.size ≤ 2 ^ 24) × (sz ≤ d.count * d.size) × (d.count * d.size < sz + d.size)
unfolding get_block_size
get_block_size-covers sz prev h =
    let (positive, capped) = chosen_size-bounds sz prev h in
    let (below, above) = blocks_count-covers sz (chosen_size sz prev) positive in
    (positive, capped, below, above)

chosen_size-fits : (sz : ℕ) → 0 < sz → sz ≤ 2000 * 2 ^ 24 → sz ≤ chosen_size sz 0 * 2000
unfolding chosen_size
chosen_size-fits sz p h = ground arith

few_blocks : (count bs sz : ℕ) → 0 < bs → count * bs < sz + bs → sz ≤ bs * 2000 → count ≤ 2000
few_blocks count bs sz p above fits = grind arith

-- A file made anew, of at most 2000 of the largest blocks, is cut into at most 2000.
pub get_block_size-max_blocks_count :
    (sz : ℕ) → 0 < sz → sz ≤ 2000 * 2 ^ 24 → (get_block_size sz 0).count ≤ 2000
unfolding get_block_size
get_block_size-max_blocks_count sz p h =
    let (positive, capped) = chosen_size-bounds sz 0 p in
    let (below, above) = blocks_count-covers sz (chosen_size sz 0) positive in
    few_blocks (blocks_count sz (chosen_size sz 0)) (chosen_size sz 0) sz positive above
      (chosen_size-fits sz p h)
