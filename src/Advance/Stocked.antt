-- ===== src/Advance/Stocked.antt =====
-- model/diff/advance/advance.cpp: the blocks that the children of an advance add and remove.
use syncspirit.Prelude.{
  ℕ, ◌≡◌, ◌⊎◌, ◌≢◌, subst, refl, sym, Bool, true, false, not, ◌&&◌, List, [], ◌∷◌, Option, none,
  some, arith, if◌then◌else◌, ◌==◌, length, Bool-cases, inl, inr,
}
use syncspirit.Prelude.Find.{All}
use syncspirit.File.{FileInfo}
use syncspirit.File.Wire.{Blocks, ProtoFile, ProtoBlock, same_text}
use syncspirit.FileMap.{by_name}
use syncspirit.Mediator.Counts.{same_text_iff}
use syncspirit.OrphanedBlocks.{has_hash, record_file}
use syncspirit.OrphanedBlocks.Lost.{IsLost, deduce-IsLost}
use syncspirit.IndexUpdate.{make_strict_hash, block_hashes}
use syncspirit.Advance.{Advance, erase, collect, as_local, take_over, collected, initialize}

differ : (s t : List ℕ) → same_text t s ≡ false → s ≡ t → ⊥
differ s t e same = let equal : same_text t s ≡ true = (same_text_iff t s).1 (sym same) in absurd cc

same_text_no : (s t : List ℕ) → same_text t s ≡ false → same_text s t ≡ false
same_text_no s t e = elim (Bool-cases (same_text s t)) [
  | inl same ↦ absurd (differ s t e ((same_text_iff s t).0 same))
  | inr other ↦ other
]

has_hash-erase_self : (h : List ℕ) (os : List (List ℕ)) → has_hash (erase h os) h ≡ false
has_hash-erase_self h [] = refl
has_hash-erase_self h (o ∷ os) = elim (Bool-cases (same_text o h)) [
  | inl same ↦ rw same (has_hash-erase_self h os)
  | inr other ↦ rw (other, same_text_no h o other) (has_hash-erase_self h os)
]

neither : (b c : Bool) → (if b then true else c) ≡ false → (b ≡ false) × (c ≡ false)
neither true c e = absurd cc
neither false c e = (refl, e)

has_hash-erase :
    (h x : List ℕ) (os : List (List ℕ)) → has_hash os x ≡ false → has_hash (erase h os) x ≡ false
has_hash-erase h x [] e = refl
has_hash-erase h x (o ∷ os) e =
    let (here, there) = neither (same_text x o) (has_hash os x) e in
    elim (Bool-cases (same_text o h)) [
      | inl same ↦ rw same (has_hash-erase h x os there)
      | inr other ↦ rw (other, here) (has_hash-erase h x os there)
    ]

erase-All : (P : List ℕ → Type 0) (h : List ℕ) (os : List (List ℕ)) → All P os → All P (erase h os)
erase-All P h [] a = tt
erase-All P h (o ∷ os) a = elim (Bool-cases (same_text o h)) [
  | inl same ↦ rw same (erase-All P h os a.1)
  | inr other ↦ rw other (a.0, erase-All P h os a.1)
]

-- A block of the file is added, or it is in the cluster and not removed.
abbrev pub IsStocked : List (List ℕ) → List ProtoBlock × List (List ℕ) → ProtoBlock → Type 0
IsStocked hashes r b =
    (has_hash (block_hashes r.0) (make_strict_hash b.hash) ≡ true)
    ⊎ ((has_hash hashes (make_strict_hash b.hash) ≡ true)
        × (has_hash r.1 (make_strict_hash b.hash) ≡ false))

collect_gone :
    (hashes : List (List ℕ)) (bs : List ProtoBlock) (os : List (List ℕ)) (x : List ℕ)
    → has_hash os x ≡ false
    → has_hash (collect hashes bs os).1 x ≡ false
unfolding collect
collect_gone hashes [] os x e = e
collect_gone hashes (b ∷ bs) os x e =
    let h = make_strict_hash b.hash in
    elim (Bool-cases (has_hash hashes h)) [
      | inl known ↦ rw known (collect_gone hashes bs (erase h os) x (has_hash-erase h x os e))
      | inr new ↦ rw new (collect_gone hashes bs os x e)
    ]

collect-All :
    (P : List ℕ → Type 0) (hashes : List (List ℕ)) (bs : List ProtoBlock) (os : List (List ℕ))
    → All P os
    → All P (collect hashes bs os).1
unfolding collect
collect-All P hashes [] os a = a
collect-All P hashes (b ∷ bs) os a =
    let h = make_strict_hash b.hash in
    elim (Bool-cases (has_hash hashes h)) [
      | inl known ↦ rw known (collect-All P hashes bs (erase h os) (erase-All P h os a))
      | inr new ↦ rw new (collect-All P hashes bs os a)
    ]

either : (b c : Bool) → c ≡ true → (if b then true else c) ≡ true
either true c e = refl
either false c e = e

more-IsStocked :
    (hashes : List (List ℕ)) (b : ProtoBlock) (r : List ProtoBlock × List (List ℕ)) (c : ProtoBlock)
    → IsStocked hashes r c
    → IsStocked hashes (b ∷ r.0, r.1) c
unfolding block_hashes
more-IsStocked hashes b r c (inl new) = inl (
    either (same_text (make_strict_hash c.hash) (make_strict_hash b.hash))
      (has_hash (block_hashes r.0) (make_strict_hash c.hash)) new)
more-IsStocked hashes b r c (inr there) = inr there

more_blocks :
    (hashes : List (List ℕ)) (b : ProtoBlock) (r : List ProtoBlock × List (List ℕ))
    (bs : List ProtoBlock)
    → All (IsStocked hashes r) bs
    → All (IsStocked hashes (b ∷ r.0, r.1)) bs
unfolding block_hashes
more_blocks hashes b r [] a = tt
more_blocks hashes b r (c ∷ bs) a = (more-IsStocked hashes b r c a.0, more_blocks hashes b r bs a.1)

collect_known :
    (hashes : List (List ℕ)) (b : ProtoBlock) (bs : List ProtoBlock) (os : List (List ℕ))
    → has_hash hashes (make_strict_hash b.hash) ≡ true
    → collect hashes (b ∷ bs) os ≡ collect hashes bs (erase (make_strict_hash b.hash) os)
unfolding collect
collect_known hashes b bs os e = rw e refl

collect_new :
    (hashes : List (List ℕ)) (b : ProtoBlock) (bs : List ProtoBlock) (os : List (List ℕ))
    → has_hash hashes (make_strict_hash b.hash) ≡ false
    → collect hashes (b ∷ bs) os ≡ (b ∷ (collect hashes bs os).0, (collect hashes bs os).1)
unfolding collect
collect_new hashes b bs os e = rw e refl

first-IsStocked :
    (hashes : List (List ℕ)) (b : ProtoBlock) (r : List ProtoBlock × List (List ℕ))
    → IsStocked hashes (b ∷ r.0, r.1) b
unfolding block_hashes
first-IsStocked hashes b r =
    let same : same_text (make_strict_hash b.hash) (make_strict_hash b.hash) ≡ true =
      (same_text_iff (make_strict_hash b.hash) (make_strict_hash b.hash)).1 refl in
    inl (rw same refl)

collect-IsStocked :
    (hashes : List (List ℕ)) (bs : List ProtoBlock) (os : List (List ℕ))
    → All (IsStocked hashes (collect hashes bs os)) bs
collect-IsStocked hashes [] os = tt
collect-IsStocked hashes (b ∷ bs) os =
    let h = make_strict_hash b.hash in
    elim (Bool-cases (has_hash hashes h)) [
      | inl known ↦
          subst (λ r. All (IsStocked hashes r) (b ∷ bs)) (sym (collect_known hashes b bs os known))
            (
              inr (known, collect_gone hashes bs (erase h os) h (has_hash-erase_self h os)),
              collect-IsStocked hashes bs (erase h os),
            )
      | inr new ↦
          subst (λ r. All (IsStocked hashes r) (b ∷ bs)) (sym (collect_new hashes b bs os new))
            (
              first-IsStocked hashes b (collect hashes bs os),
              more_blocks hashes b (collect hashes bs os) bs (collect-IsStocked hashes bs os),
            )
    ]

-- The own file of the name, as the files whose uses of a block do not count.
abbrev pub own_files : Option FileInfo → List FileInfo
own_files none = []
own_files (some file) = record_file file []

take_over-IsLost :
    (fresh unset : ℕ) (disable : Bool) (store : Blocks) (o : Option FileInfo)
    → All (IsLost store (own_files o) []) (take_over fresh unset disable store o).1
unfolding take_over
take_over-IsLost fresh unset disable store none = tt
take_over-IsLost fresh unset true store (some file) = tt
take_over-IsLost fresh unset false store (some file) = deduce-IsLost store (record_file file []) []

-- What an advance adds and removes, if it is made: each block of a file with a size is there after
-- that, and each hash that is removed is that of a block all of whose uses are in the own file.
abbrev pub Stocked : List (List ℕ) → Blocks → List FileInfo → Option Advance → Type 0
Stocked hashes store local_files none = Unit
Stocked hashes store local_files (some diff) =
    (diff.proto_local.size ≢ 0
      → All (IsStocked hashes (diff.new_blocks, diff.removed_blocks)) diff.proto_local.blocks)
    × All (IsLost store (own_files (by_name diff.proto_local.name local_files)) [])
        diff.removed_blocks

guard-Stocked :
    (hashes : List (List ℕ)) (store : Blocks) (local_files : List FileInfo) (b c : Bool)
    (diff : Advance)
    → Stocked hashes store local_files (some diff)
    → Stocked hashes store local_files (if b then none else if c then none else some diff)
guard-Stocked hashes store local_files true c diff h = tt
guard-Stocked hashes store local_files false true diff h = tt
guard-Stocked hashes store local_files false false diff h = h

collected-IsStocked :
    (hashes : List (List ℕ)) (f : ProtoFile) (os : List (List ℕ))
    → f.size ≢ 0
    → All (IsStocked hashes (collected hashes f os)) f.blocks
unfolding collected
collected-IsStocked hashes f os n =
    let sized : (f.size == 0) ≡ false = ground (arith, n) in
    subst (λ r. All (IsStocked hashes r) f.blocks) (rw sized refl)
      (collect-IsStocked hashes f.blocks os)

collected-All :
    (P : List ℕ → Type 0) (hashes : List (List ℕ)) (f : ProtoFile) (os : List (List ℕ))
    → All P os
    → All P (collected hashes f os).1
unfolding collected
collected-All P hashes f os a = elim (Bool-cases (f.size == 0)) [
  | inl empty ↦ rw empty a
  | inr sized ↦ rw sized (collect-All P hashes f.blocks os a)
]

-- After the children of an advance, the cluster has each block that the file needs: it is added, or
-- it was there and is not removed. And only blocks are removed that no other file uses than the own
-- one that is replaced.
pub initialize-Stocked :
    (fresh unset : ℕ) (disable_blocks_removal is_local_update : Bool) (hashes : List (List ℕ))
    (store : Blocks) (local_files : List FileInfo) (source : ProtoFile) (name : List ℕ)
    → Stocked hashes store local_files (
        initialize fresh unset disable_blocks_removal is_local_update hashes store local_files
          source name)
unfolding initialize
initialize-Stocked fresh unset disable is_local_update hashes store local_files source name =
    let f = as_local source name in
    let own = by_name f.name local_files in
    let owned = take_over fresh unset disable store own in
    let found = collected hashes f owned.1 in
    guard-Stocked hashes store local_files (not (length source.blocks == 0) && source.deleted)
      (not (length found.0 == 0) && not is_local_update)
      (record {
        proto_source = source;
        proto_local = f;
        uuid = owned.0;
        new_blocks = found.0;
        removed_blocks = found.1;
      })
      (
        λ n. collected-IsStocked hashes f owned.1 n,
        collected-All (IsLost store (own_files own) []) hashes f owned.1
            (take_over-IsLost fresh unset disable store own),
      )
