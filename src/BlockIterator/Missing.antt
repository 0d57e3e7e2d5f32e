-- ===== src/BlockIterator/Missing.antt =====
-- model/misc/block_iterator.cpp: the iterator gives the blocks without the tag, in order.
use syncspirit.Prelude.{
  ℕ, zero, suc, ◌+◌, ◌%◌, ◌^◌, ◌<◌, ◌≤◌, ◌≡◌, ◌≢◌, refl, ap, sym, subst, ◌∙◌, true, false, List, [],
  ◌∷◌, Option, none, some, ◌⊎◌, inl, inr, arith, if◌then◌else◌, leb, ◌==◌, length, length-drop,
  drop, get_elem?, Bool-cases,
}
use syncspirit.File.{BlockRef, FileInfo, file_blocks}
use syncspirit.BlockIterator.{
  wrong_index, BlockIterator, Found, found_at, local_prefix, prepare, advance, make_iterator, next,
}

-- The indices of the entries without the tag, counted from `i`.
unfoldable pub missing_from : ℕ → List BlockRef → List ℕ
missing_from i [] = []
missing_from i (r ∷ rs) = if r.local then missing_from (suc i) rs else i ∷ missing_from (suc i) rs

-- Those at `i` and behind it.
abbrev pub pending : List BlockRef → ℕ → List ℕ
pending refs i = missing_from i (drop i refs)

drop_out : (refs : List BlockRef) (i : ℕ) → length refs ≤ i → drop i refs ≡ []
drop_out [] zero l = refl
drop_out [] (suc i) l = refl
drop_out (r ∷ refs) zero l = absurd (omega arith)
drop_out (r ∷ refs) (suc i) l = drop_out refs i (omega arith)

missing_out : (refs : List BlockRef) (i j : ℕ) → length refs ≤ i → missing_from j (drop i refs) ≡ []
unfolding missing_from
missing_out refs i j l = ap (missing_from j) (drop_out refs i l)

-- The entries from the `n`-th on, where the list starts at `k`: the missing ones of the whole.
abbrev left_from : ℕ → ℕ → List BlockRef → List ℕ
left_from k n rs = missing_from (k + n) (drop n rs)

-- Passing the tagged entries ends at the first missing one, or at the end.
abbrev Passed : ℕ → ℕ → List BlockRef → List ℕ → Type 0
Passed k n rs missing =
    ((length rs ≤ n) × (missing ≡ []))
    ⊎ ((n < length rs)
        × (missing ≡ (k + n) ∷ left_from k (suc n) rs)
        × (left_from k n rs ≡ missing))

plus_suc : (k n : ℕ) → suc k + n ≡ k + suc n
plus_suc k n = omega arith

plus_zero : (k : ℕ) → k + 0 ≡ k
plus_zero k = omega arith

zero_plus : (k : ℕ) → 0 + k ≡ k
zero_plus k = omega arith

suc_plus : (i n : ℕ) → suc (i + n) ≡ suc i + n
suc_plus i n = omega arith

plus_one : (k : ℕ) → suc k ≡ k + 1
plus_one k = omega arith

Passed-suc :
    (k n : ℕ) (r : BlockRef) (rs : List BlockRef) (missing : List ℕ)
    → Passed (suc k) n rs missing
    → Passed k (suc n) (r ∷ rs) missing
Passed-suc k n r rs missing (inl h) = inl (omega (arith, h.0), h.1)
Passed-suc k n r rs missing (inr h) = inr (
  omega (arith, h.0),
  h.1
      ∙ (ap (λ j. j ∷ missing_from (suc k + suc n) (drop (suc n) rs)) (plus_suc k n)
          ∙ ap (λ j. (k + suc n) ∷ missing_from j (drop (suc n) rs)) (plus_suc k (suc n))),
  ap (λ j. missing_from j (drop n rs)) (sym (plus_suc k n)) ∙ h.2,
)

-- From the start of a list.
Passed-all : (rs : List BlockRef) (k : ℕ) → Passed k (local_prefix rs) rs (missing_from k rs)
unfolding local_prefix missing_from
Passed-all [] k = inl (omega arith, refl)
Passed-all (r ∷ rs) k = elim (Bool-cases r.local) [
  | inl tagged ↦
      rw tagged
        (Passed-suc k (local_prefix rs) r rs (missing_from (suc k) rs) (Passed-all rs (suc k)))
  | inr free ↦ rw free (
      inr (
        omega arith,
        ap (λ j. j ∷ missing_from (suc k) rs) (sym (plus_zero k))
            ∙ ap (λ j. (k + 0) ∷ missing_from j rs) (plus_one k),
        ap (λ j. j ∷ missing_from (suc j) rs) (plus_zero k),
      ))
]

-- From any place.
Passed-from :
    (rs : List BlockRef) (k i : ℕ) → Passed k (i + local_prefix (drop i rs)) rs (left_from k i rs)
unfolding missing_from
Passed-from rs k zero =
    subst (λ n. Passed k n rs (left_from k 0 rs)) (sym (zero_plus (local_prefix rs)))
      (subst (Passed k (local_prefix rs) rs) (ap (λ j. missing_from j rs) (sym (plus_zero k)))
        (Passed-all rs k))
Passed-from [] k (suc i) = inl (omega arith, refl)
Passed-from (r ∷ rs) k (suc i) =
    subst (Passed k (suc i + local_prefix (drop i rs)) (r ∷ rs))
      (ap (λ j. missing_from j (drop i rs)) (plus_suc k i))
      (subst (λ n. Passed k n (r ∷ rs) (left_from (suc k) i rs))
        (suc_plus i (local_prefix (drop i rs)))
        (Passed-suc k (i + local_prefix (drop i rs)) r rs (left_from (suc k) i rs)
          (Passed-from rs (suc k) i)))

-- The iterator is at the end, or at a missing block.
abbrev pub IsReady : FileInfo → BlockIterator → Type 0
IsReady source it =
    (it.i ≡ wrong_index)
    ⊎ ((it.i < length (file_blocks source))
        × (pending (file_blocks source) it.i ≡ it.i ∷ pending (file_blocks source) (suc it.i)))

settled :
    (source : FileInfo) (i j sequence : ℕ)
    → source.flags.unreachable ≡ false
    → length (file_blocks source) < wrong_index
    → j ≢ wrong_index
    → Passed 0 j (file_blocks source) (left_from 0 i (file_blocks source))
    → IsReady source (prepare source (record { i = j; sequence = sequence }))
      × (pending (file_blocks source) (prepare source (record { i = j; sequence = sequence })).i
          ≡ pending (file_blocks source) i)
unfolding prepare
settled source i j sequence reachable bound inside p =
    let refs = file_blocks source in
    let here : (j == wrong_index) ≡ false = ground (arith, inside) in
    elim p [
      | inl h ↦
          let ends : leb (length refs) j ≡ true = ground (arith, h) in
          rw (here, reachable, ends)
            (
              inl refl,
              missing_out refs wrong_index wrong_index (omega (arith, bound))
                  ∙ sym (ap (λ k. missing_from k (drop i refs)) (sym (zero_plus i)) ∙ h.1),
            )
      | inr h ↦
          let goes : leb (length refs) j ≡ false = ground (arith, h) in
          let at = ap (λ k. missing_from k (drop i refs)) (sym (zero_plus i)) in
          let passed : pending refs j ≡ pending refs i =
            ap (λ k. missing_from k (drop j refs)) (sym (zero_plus j)) ∙ (h.2 ∙ sym at) in
          rw (here, reachable, goes)
            (
              inr (
                h.0,
                passed
                    ∙ (at
                        ∙ (h.1
                            ∙ (ap (λ k. k ∷ left_from 0 (suc j) refs) (zero_plus j)
                                ∙ ap (λ k. j ∷ missing_from k (drop (suc j) refs))
                                    (zero_plus (suc j))))),
              ),
              passed,
            )
    ]

local_prefix_le : (rs : List BlockRef) → local_prefix rs ≤ length rs
unfolding local_prefix
local_prefix_le [] = omega arith
local_prefix_le (r ∷ rs) = ground (arith, local_prefix_le rs)

advance-IsReady :
    (source : FileInfo) (i sequence : ℕ)
    → source.flags.unreachable ≡ false
    → length (file_blocks source) < wrong_index
    → i ≤ length (file_blocks source)
    → IsReady source (advance source (record { i = i; sequence = sequence }))
      × (pending (file_blocks source) (advance source (record { i = i; sequence = sequence })).i
          ≡ pending (file_blocks source) i)
unfolding advance
advance-IsReady source i sequence reachable bound inside =
    let refs = file_blocks source in
    let j = i + local_prefix (drop i refs) in
    let within : j ≤ length refs =
      omega (arith, local_prefix_le (drop i refs), length-drop i refs, inside) in
    settled source i j sequence reachable bound (λ e. absurd (omega (arith, within, bound, e)))
      (Passed-from refs 0 i)

-- A new iterator over a file that is reachable, with fewer blocks than the index of the end, is at
-- the first block without the tag or at the end, and all such blocks are to come.
pub make_iterator-IsReady :
    (source : FileInfo)
    → source.flags.unreachable ≡ false
    → length (file_blocks source) < wrong_index
    → IsReady source (make_iterator source)
      × (pending (file_blocks source) (make_iterator source).i
          ≡ missing_from 0 (file_blocks source))
unfolding make_iterator
make_iterator-IsReady source reachable bound =
    elim (Bool-cases (length (file_blocks source) == 0)) [
      | inl empty ↦ rw empty (
        inl refl,
        missing_out (file_blocks source) wrong_index wrong_index (omega (arith, bound))
            ∙ sym (missing_out (file_blocks source) 0 0 (ground (arith, empty))),
      )
      | inr some_there ↦
          rw some_there (advance-IsReady source 0 source.sequence reachable bound (omega arith))
    ]

-- The result is the block at an index of the file.
abbrev pub Gives : FileInfo → ℕ → Option Found → Type 0
Gives source i none = ⊥
Gives source i (some found) = (found.index ≡ i) × (found.file ≡ source.address)

Gives-at :
    (source : FileInfo) (index : ℕ) (refs : List BlockRef) (i : ℕ)
    → i < length refs
    → Gives source index (found_at source index (get_elem? refs i))
Gives-at source index [] i l = absurd (omega arith)
Gives-at source index (r ∷ refs) zero l = (refl, refl)
Gives-at source index (r ∷ refs) (suc i) l = Gives-at source index refs i (omega arith)

-- An iterator that is not at the end gives the first of the blocks that are left, and is then at
-- the next one or at the end: the blocks left before are the given one and those left after.
pub next-IsReady :
    (source : FileInfo) (it : BlockIterator)
    → source.flags.unreachable ≡ false
    → length (file_blocks source) < wrong_index
    → IsReady source it
    → it.i ≢ wrong_index
    → IsReady source (next source it).0
      × (pending (file_blocks source) it.i
          ≡ it.i ∷ pending (file_blocks source) (next source it).0.i)
      × Gives source it.i (next source it).1
unfolding next
next-IsReady source it reachable bound (inl ended) going = absurd (going ended)
next-IsReady source it reachable bound (inr h) going =
    let exact : (it.i + 1) % 2 ^ 32 ≡ suc it.i = omega (arith, bound, h.0) in
    let (ready, same) =
      advance-IsReady source (suc it.i) it.sequence reachable bound (omega (arith, h.0)) in
    rw exact (
      ready,
      h.1 ∙ ap (λ t. it.i ∷ t) (sym same),
      Gives-at source it.i (file_blocks source) it.i h.0,
    )
