-- ===== src/Block/Uses.antt =====
-- model/block_info.cpp: the union of one use and many behaves as the list of uses.
use syncspirit.Prelude.{
  ℕ, ◌<◌, ◌^◌, ◌≡◌, ◌≢◌, Bool, true, false, List, [], ◌∷◌, ◌++◌, none, arith, length, refl, ap, sym,
  subst, ◌∙◌, ◌%◌, Bool-cases, inl, inr, Option, some,
}
use syncspirit.Prelude.Find.{Any, keep_if}
use syncspirit.Block.{
  lock_mask, has_bit, use_count, FileBlock, FileBlocks, single, multi, BlockInfo, is_single, uses,
  find_local, local_file, make_file_block, link, matches, removed_indices, others, settle,
  unlink_uses, if_removed, unlink, mark_first, mark_locally_available, mark_local_available,
  get_total, block_index,
}

-- The flag says which member of the union lives, and a vector never holds one use alone.
abbrev pub HasShape : Bool → FileBlocks → Type 0
HasShape flag (single fb) = flag ≡ true
HasShape flag (multi []) = flag ≡ false
HasShape flag (multi (fb ∷ [])) = ⊥
HasShape flag (multi (fb ∷ next ∷ fbs)) = flag ≡ false

pub record IsSound (b : BlockInfo) : Type 0 where
  pub shape : HasShape (is_single b) b.file_blocks
  pub word : b.counter < 2 ^ 32

-- A link appends one use and keeps the references and the lock.
pub record Links (b c : BlockInfo) (fb : FileBlock) : Type 0 where
  pub sound : IsSound c
  pub appended : uses c ≡ uses b ++ fb ∷ []
  pub references : use_count c.counter ≡ use_count b.counter
  pub lock_kept : has_bit lock_mask c.counter ≡ has_bit lock_mask b.counter

link-Links_at :
    (b : BlockInfo) (fbs : FileBlocks) (file index : ℕ)
    → b.file_blocks ≡ fbs
    → IsSound b
    → Links b (link b file index) (make_file_block b file index)
unfolding link uses use_count
link-Links_at b (single first) file index e s = ground arith
link-Links_at b (multi []) file index e s = ground arith
link-Links_at b (multi (fb ∷ [])) file index e s = ground arith
link-Links_at b (multi (fb ∷ next ∷ fbs)) file index e s = ground arith

-- `link` keeps the block sound, appends one use to the list of uses, and leaves the reference count
-- and the lock alone.
pub link-Links :
    (b : BlockInfo) (file index : ℕ)
    → IsSound b
    → Links b (link b file index) (make_file_block b file index)
link-Links b file index s = link-Links_at b b.file_blocks file index refl s

-- The other uses are kept, and the indices of the removed ones are told.
record Detaches (b c : BlockInfo) (file : ℕ) (indices : List ℕ) : Type 0 where
  pub sound : IsSound c
  pub kept : uses c ≡ others b.address file (uses b)
  pub told : indices ≡ removed_indices b.address file (uses b)
  pub references : use_count c.counter ≡ use_count b.counter
  pub lock_kept : has_bit lock_mask c.counter ≡ has_bit lock_mask b.counter

settle-Detaches :
    (b : BlockInfo) (rest : List FileBlock)
    → is_single b ≡ false
    → b.counter < 2 ^ 32
    → IsSound (settle b rest)
      × (uses (settle b rest) ≡ rest)
      × (use_count (settle b rest).counter ≡ use_count b.counter)
      × (has_bit lock_mask (settle b rest).counter ≡ has_bit lock_mask b.counter)
unfolding settle uses use_count
settle-Detaches b [] m w = ground arith
settle-Detaches b (fb ∷ []) m w = ground arith
settle-Detaches b (fb ∷ next ∷ fbs) m w = ground arith

HasShape-multi : (flag : Bool) (fbs : List FileBlock) → HasShape flag (multi fbs) → flag ≡ false
HasShape-multi flag [] h = h
HasShape-multi flag (fb ∷ []) h = absurd h
HasShape-multi flag (fb ∷ next ∷ fbs) h = h

unlink_uses-Detaches_at :
    (b : BlockInfo) (fbs : FileBlocks) (file : ℕ)
    → b.file_blocks ≡ fbs
    → IsSound b
    → Detaches b (unlink_uses b file).0 file (unlink_uses b file).1
unfolding unlink_uses uses use_count removed_indices
unlink_uses-Detaches_at b (single fb) file e s = ground arith
unlink_uses-Detaches_at b (multi fbs) file e s =
    let flag = HasShape-multi (is_single b) fbs (ground (arith, s.shape)) in
    ground (arith, flag, settle-Detaches b (others b.address file fbs) flag s.word)

unlink_uses-Detaches :
    (b : BlockInfo) (file : ℕ)
    → IsSound b
    → Detaches b (unlink_uses b file).0 file (unlink_uses b file).1
unlink_uses-Detaches b file s = unlink_uses-Detaches_at b b.file_blocks file refl s

-- The use is that of the block in the file.
abbrev pub IsUse : ℕ → ℕ → FileBlock → Type 0
IsUse block file fb = (fb.block_info ≡ block) × (fb.file_info ≡ file)

-- A list of uses, the ones of it that are not the file's, in order, and the indices of those that
-- are, below their top bit.
pub data Parts (block file : ℕ) : List FileBlock → List FileBlock → List ℕ → Type 0 where
  none_left : Parts block file [] [] []
  own_use :
      (fb : FileBlock) (fbs rest : List FileBlock) (indices : List ℕ)
      → IsUse block file fb
      → Parts block file fbs rest indices
      → Parts block file (fb ∷ fbs) rest (fb.block_idx % 2 ^ 31 ∷ indices)
  other_use :
      (fb : FileBlock) (fbs rest : List FileBlock) (indices : List ℕ)
      → ¬ IsUse block file fb
      → Parts block file fbs rest indices
      → Parts block file (fb ∷ fbs) (fb ∷ rest) indices

matches-IsUse :
    (block file : ℕ) (fb : FileBlock) → matches fb block file ≡ true → IsUse block file fb
unfolding matches
matches-IsUse block file fb h = ground arith

not_matches-IsUse :
    (block file : ℕ) (fb : FileBlock) → matches fb block file ≡ false → ¬ IsUse block file fb
unfolding matches
not_matches-IsUse block file fb h u = ground arith

others-Parts :
    (block file : ℕ) (fbs : List FileBlock)
    → Parts block file fbs (others block file fbs) (removed_indices block file fbs)
unfolding removed_indices
others-Parts block file [] = none_left
others-Parts block file (fb ∷ fbs) = elim (Bool-cases (matches fb block file)) [
  | inl own ↦
      rw (others, keep_if, removed_indices, own)
        (own_use fb fbs (others block file fbs) (removed_indices block file fbs)
          (matches-IsUse block file fb own) (others-Parts block file fbs))
  | inr other ↦
      rw (others, keep_if, removed_indices, other)
        (other_use fb fbs (others block file fbs) (removed_indices block file fbs)
          (not_matches-IsUse block file fb other) (others-Parts block file fbs))
]

-- What an unlink makes of a block: one that is sound, with the uses of the other files and the same
-- references and lock, and the indices of the uses that are gone.
pub record Unlinks (b c : BlockInfo) (file : ℕ) (indices : List ℕ) : Type 0 where
  pub sound : IsSound c
  pub parts : Parts b.address file (uses b) (uses c) indices
  pub references : use_count c.counter ≡ use_count b.counter
  pub lock_kept : has_bit lock_mask c.counter ≡ has_bit lock_mask b.counter

-- The assertion fails where no use is the file's, and else the indices are at least one.
abbrev pub Unlinked : BlockInfo → ℕ → Option (BlockInfo × List ℕ) → Type 0
Unlinked b file none = Parts b.address file (uses b) (uses b) []
Unlinked b file (some (c, indices)) = Unlinks b c file indices × (0 < length indices)

all_kept :
    (block file : ℕ) (fbs : List FileBlock)
    → removed_indices block file fbs ≡ []
    → others block file fbs ≡ fbs
unfolding removed_indices
all_kept block file [] e = refl
all_kept block file (fb ∷ fbs) e = ground (arith, all_kept block file fbs)

-- `unlink` keeps a sound block sound, keeps the uses of the other files in order, tells the index of
-- each use that it removed, of which there is at least one, and leaves the reference count and the
-- lock alone. Its assertion fails exactly where the file does not use the block.
pub unlink-Unlinked : (b : BlockInfo) (file : ℕ) → IsSound b → Unlinked b file (unlink b file)
unfolding unlink
unlink-Unlinked b file s = go (unlink_uses b file) (unlink_uses-Detaches b file s)
  where
    parts :
        (c : BlockInfo) (indices : List ℕ)
        → Detaches b c file indices
        → Parts b.address file (uses b) (uses c) indices
    parts c indices d = rw (d.kept, d.told) (others-Parts b.address file (uses b))

    go : (r : BlockInfo × List ℕ) → Detaches b r.0 file r.1 → Unlinked b file (if_removed r)
    go (c, []) d =
        subst (λ fbs. Parts b.address file (uses b) fbs [])
          (d.kept ∙ all_kept b.address file (uses b) (sym d.told)) (parts c [] d)
    go (c, i ∷ is) d = (
      record {
        sound = d.sound;
        parts = parts c (i ∷ is) d;
        references = d.references;
        lock_kept = d.lock_kept;
      },
      omega arith,
    )

-- The walk of `iterate_blocks` counts what it yields.
pub get_total-length : (b : BlockInfo) → IsSound b → get_total b ≡ length (uses b)
unfolding get_total uses
get_total-length b s = get_total-length_at b.file_blocks refl
  where
    get_total-length_at : (fbs : FileBlocks) → b.file_blocks ≡ fbs → get_total b ≡ length (uses b)
    get_total-length_at (single fb) e = ground (arith, s.shape)
    get_total-length_at (multi fbs) e =
        ground (arith, HasShape-multi (is_single b) fbs (ground (arith, s.shape)))

-- A block that no use of the file stands in.
abbrev pub Strange : ℕ → ℕ → List FileBlock → Type 0
Strange block file [] = Unit
Strange block file (fb ∷ fbs) = (matches fb block file ≡ false) × Strange block file fbs

others-append :
    (block file : ℕ) (fbs : List FileBlock) (fb : FileBlock)
    → Strange block file fbs
    → matches fb block file ≡ true
    → (others block file (fbs ++ fb ∷ []) ≡ fbs)
      × (removed_indices block file (fbs ++ fb ∷ []) ≡ block_index fb ∷ [])
unfolding removed_indices
others-append block file [] fb s m = ground arith
others-append block file (f ∷ fbs) fb s m = ground (arith, others-append block file fbs fb s.1 m)

make_file_block-matches :
    (b : BlockInfo) (file index : ℕ) → matches (make_file_block b file index) b.address file ≡ true
unfolding make_file_block matches
make_file_block-matches b file index = ground arith

make_file_block-block_index :
    (b : BlockInfo) (file index : ℕ)
    → index < lock_mask
    → block_index (make_file_block b file index) ≡ index
unfolding make_file_block
make_file_block-block_index b file index l = ground arith

link-address : (b : BlockInfo) (file index : ℕ) → (link b file index).address ≡ b.address
unfolding link
link-address b file index = ground arith

-- A use that is linked and unlinked again leaves the uses as they were, and its index is told.
pub unlink_uses-link :
    (b : BlockInfo) (file index : ℕ)
    → IsSound b
    → index < lock_mask
    → Strange b.address file (uses b)
    → (uses (unlink_uses (link b file index) file).0 ≡ uses b)
      × ((unlink_uses (link b file index) file).1 ≡ index ∷ [])
unfolding uses
unlink_uses-link b file index s l n =
    let linked = link-Links b file index s in
    let removed = unlink_uses-Detaches (link b file index) file linked.sound in
    let fb = make_file_block b file index in
    let (kept, told) =
      others-append b.address file (uses b) fb n (make_file_block-matches b file index) in
    (
      rw (removed.kept, link-address b file index, linked.appended) kept,
      rw (removed.told, link-address b file index, linked.appended)
          (rw told (ap (λ i. i ∷ []) (make_file_block-block_index b file index l))),
    )

mark_first-length :
    (block file : ℕ) (fbs : List FileBlock) → length (mark_first block file fbs) ≡ length fbs
unfolding mark_first
mark_first-length block file [] = refl
mark_first-length block file (fb ∷ fbs) = ground (arith, mark_first-length block file fbs)

HasShape-mark_first :
    (flag : Bool) (block file : ℕ) (fbs : List FileBlock)
    → HasShape flag (multi fbs)
    → HasShape flag (multi (mark_first block file fbs))
unfolding mark_first
HasShape-mark_first flag block file [] h = h
HasShape-mark_first flag block file (fb ∷ []) h = absurd h
HasShape-mark_first flag block file (fb ∷ next ∷ fbs) h = ground arith

mark_local_available_at :
    (b : BlockInfo) (fbs : FileBlocks) (file : ℕ)
    → b.file_blocks ≡ fbs
    → IsSound b
    → IsSound (mark_local_available b file)
      × (uses (mark_local_available b file) ≡ mark_first b.address file (uses b))
unfolding mark_local_available uses
mark_local_available_at b (single fb) file e s = ground arith
mark_local_available_at b (multi fbs) file e s =
    let shape : HasShape (is_single b) (multi fbs) = ground (arith, s.shape) in
    let flag = HasShape-multi (is_single b) fbs shape in
    ground (arith, flag, HasShape-mark_first (is_single b) b.address file fbs shape)

find_local-mark_first :
    (block file : ℕ) (fbs : List FileBlock)
    → Any (λ fb. matches fb block file ≡ true) fbs
    → find_local (mark_first block file fbs) ≢ none
unfolding find_local mark_first mark_locally_available
find_local-mark_first block file [] h = absurd h
find_local-mark_first block file (fb ∷ fbs) h = ground (arith, find_local-mark_first block file fbs)

-- Once a file that uses the block has it, the block has a local file, and its uses are those
-- before but for the file's first one.
pub mark_local_available-local_file :
    (b : BlockInfo) (file : ℕ)
    → IsSound b
    → Any (λ fb. matches fb b.address file ≡ true) (uses b)
    → IsSound (mark_local_available b file)
      × (uses (mark_local_available b file) ≡ mark_first b.address file (uses b))
      × (local_file (mark_local_available b file) ≢ none)
unfolding local_file
mark_local_available-local_file b file s h =
    let (sound, marked) = mark_local_available_at b b.file_blocks file refl s in
    (sound, marked, rw marked (find_local-mark_first b.address file (uses b) h))
