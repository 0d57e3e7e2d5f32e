-- ===== src/File/Available.antt =====
-- model/file_info.cpp: the AVAILABLE flag against the tags of the blocks.
use syncspirit.Prelude.{
  ℕ, zero, suc, ◌≤◌, ◌<◌, ◌≡◌, refl, true, List, [], ◌∷◌, some, arith, length, get_elem?, set, ◌==◌,
  Option-cases, inl, inr,
}
use syncspirit.File.{
  FileInfo, BlockRef, is_file, file_blocks, count_local, all_tagged, mark_local,
  is_locally_available, is_block_available, iterator_is_locally_available,
}
use syncspirit.File.Store.{State, mark_local_available}

count_local-le : (rs : List BlockRef) → count_local rs ≤ length rs
unfolding count_local
count_local-le [] = omega arith
count_local-le (r ∷ rs) = ground (arith, count_local-le rs)

count_local-all_tagged : (rs : List BlockRef) → (count_local rs == length rs) ≡ all_tagged rs
unfolding count_local all_tagged
count_local-all_tagged [] = refl
count_local-all_tagged (r ∷ rs) = ground (arith, count_local-le rs, count_local-all_tagged rs)

-- The AVAILABLE flag is set on files whose blocks all are on disk, and on no others.
abbrev pub IsTruthful : FileInfo → Type 0
IsTruthful f = is_file f ≡ true → f.flags.available ≡ true → all_tagged (file_blocks f) ≡ true

-- Marking a file as local answers, by its flag, what a walk over its blocks answers; and the mark
-- goes with every truthful flag.
pub mark_local-is_locally_available :
    (f : FileInfo)
    → is_file f ≡ true
    → IsTruthful f
    → IsTruthful (mark_local true f)
      × (is_locally_available (mark_local true f) ≡ iterator_is_locally_available f)
unfolding mark_local is_locally_available iterator_is_locally_available
mark_local-is_locally_available f file t =
    ground (arith, count_local-all_tagged (file_blocks f), count_local-le (file_blocks f), t file)

is_block_available-set :
    (rs : List BlockRef) (i : ℕ) (r : BlockRef)
    → i < length rs
    → is_block_available (set rs i r) i ≡ some r.local
unfolding is_block_available
is_block_available-set [] i r l = elim l [ ]
is_block_available-set (x ∷ rs) zero r l = refl
is_block_available-set (x ∷ rs) (suc i) r l = is_block_available-set rs i r (omega arith)

get_elem?-lt : (rs : List BlockRef) (i : ℕ) (r : BlockRef) → get_elem? rs i ≡ some r → i < length rs
get_elem?-lt [] i r e = cc
get_elem?-lt (x ∷ rs) zero r e = omega arith
get_elem?-lt (x ∷ rs) (suc i) r e = omega (arith, get_elem?-lt rs i r e)

all_tagged-get_elem? :
    (rs : List BlockRef) (i : ℕ) (r : BlockRef)
    → get_elem? rs i ≡ some r
    → all_tagged rs ≡ true
    → r.local ≡ true
unfolding all_tagged
all_tagged-get_elem? [] i r e a = cc
all_tagged-get_elem? (x ∷ rs) zero r e a = ground arith
all_tagged-get_elem? (x ∷ rs) (suc i) r e a = ground (arith, all_tagged-get_elem? rs i r e)

-- A block that has come to disk is answered as available, and from then on the AVAILABLE flag says
-- exactly whether every block of the file has come.
pub mark_local_available_lem :
    (index : ℕ) (s t : State)
    → is_file s.this ≡ true
    → IsTruthful s.this
    → mark_local_available index s ≡ some t
    → (is_block_available (file_blocks t.this) index ≡ some true)
      × (t.this.flags.available ≡ all_tagged (file_blocks t.this))
unfolding mark_local_available
mark_local_available_lem index s t file h e =
    elim (Option-cases (get_elem? (file_blocks s.this) index)) [
      | inl out ↦ ground arith
      | inr (r, found) ↦ ground (
        arith,
        h file,
        is_block_available-set (file_blocks s.this) index (record r { local = true }),
        get_elem?-lt (file_blocks s.this) index r found,
        all_tagged-get_elem? (file_blocks s.this) index r found,
        count_local-all_tagged (set (file_blocks s.this) index (record r { local = true })),
      )
    ]
