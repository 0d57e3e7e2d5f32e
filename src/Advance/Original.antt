-- ===== src/Advance/Original.antt =====
-- model/diff/advance/local_update.cpp: which file of a peer a change on the disk is taken for.
use syncspirit.Prelude.{
  ℕ, ◌≡◌, ◌⊎◌, refl, sym, ap, subst, ◌∙◌, arith, inl, inr, Bool, true, false, ◌&&◌, List, [], ◌∷◌,
  Option, none, some, if◌then◌else◌, ◌==◌, length, Bool-cases, Option-cases,
}
use syncspirit.File.{
  FileInfo, FileType, BlockRef, as_type, is_file, is_deleted, is_invalid, file_blocks,
}
use syncspirit.File.Wire.{Blocks, ProtoFile, ProtoBlock, get_size, same_type, same_text}
use syncspirit.FileMap.{FolderInfo, by_name}
use syncspirit.Mediator.Counts.{same_text_iff}
use syncspirit.Resolver.{Sign, negative, zero_sign, positive, compare}
use syncspirit.Advance.Local.{match_of, is_match, same_blocks, exceeds_one, prefer, get_original}

-- The first match of the folder's devices.
abbrev first_match : Blocks → ℕ → ProtoFile → List FolderInfo → Option FileInfo
first_match store self local [] = none
first_match store self local (fi ∷ fis) = elim (match_of store self local fi) [
  | none ↦ first_match store self local fis
  | some file ↦ some file
]

exceeds_one_no : (s : Sign) → exceeds_one s ≡ false
unfolding exceeds_one
exceeds_one_no negative = refl
exceeds_one_no zero_sign = refl
exceeds_one_no positive = refl

prefer_kept : (file : FileInfo) (o : Option FileInfo) → prefer (some file) o ≡ some file
unfolding prefer
prefer_kept file none = refl
prefer_kept file (some other) = rw (exceeds_one_no (compare other file)) refl

get_original_kept :
    (store : Blocks) (self : ℕ) (local : ProtoFile) (fis : List FolderInfo) (file : FileInfo)
    → get_original store self local fis (some file) ≡ some file
unfolding get_original
get_original_kept store self local [] file = refl
get_original_kept store self local (fi ∷ fis) file =
    ap (get_original store self local fis) (prefer_kept file (match_of store self local fi))
    ∙ get_original_kept store self local fis file

prefer_first :
    (store : Blocks) (self : ℕ) (local : ProtoFile) (fis : List FolderInfo) (o : Option FileInfo)
    → (get_original store self local fis none ≡ first_match store self local fis)
    → get_original store self local fis (prefer none o)
      ≡ elim o [ none ↦ first_match store self local fis | some file ↦ some file ]
unfolding prefer
prefer_first store self local fis none h = h
prefer_first store self local fis (some file) h = get_original_kept store self local fis file

get_original_first :
    (store : Blocks) (self : ℕ) (local : ProtoFile) (fis : List FolderInfo)
    → get_original store self local fis none ≡ first_match store self local fis
unfolding get_original
get_original_first store self local [] = refl
get_original_first store self local (fi ∷ fis) =
    prefer_first store self local fis (match_of store self local fi)
      (get_original_first store self local fis)

-- The hashes of the blocks are those that are announced, up to the first block that is not there.
abbrev pub HasHashes : Blocks → List BlockRef → List ProtoBlock → Type 0
HasHashes store [] bs = Unit
HasHashes store (r ∷ rs) [] = Unit
HasHashes store (r ∷ rs) (b ∷ bs) = elim r.block [
  | none ↦ Unit
  | some a ↦ ((store a).hash ≡ b.hash) × HasHashes store rs bs
]

abbrev pub HasBlocks : Blocks → FileInfo → List ProtoBlock → Type 0
HasBlocks store f bs =
    if is_file f
    then (length (file_blocks f) ≡ length bs) × HasHashes store (file_blocks f) bs
    else Unit

-- The file of a peer is the one that is found on the disk: its size, type and flags, its
-- permissions, unless the two agree in whether there are any, and the blocks of a regular file.
pub record IsSame (store : Blocks) (local : ProtoFile) (f : FileInfo) : Type 0 where
  pub size : get_size store f ≡ local.size
  pub type : local.type ≡ as_type f.flags
  pub deleted : local.deleted ≡ is_deleted f
  pub invalid : local.invalid ≡ is_invalid f
  pub permissions :
      (local.no_permissions ≡ f.flags.no_permissions) ⊎ (local.permissions ≡ f.permissions)
  pub contents : HasBlocks store f local.blocks

-- The device is another one, and its file of the name is the one that is found.
abbrev pub IsCandidate : Blocks → ℕ → ProtoFile → FolderInfo → FileInfo → Type 0
IsCandidate store self local fi f =
    ((fi.device == self) ≡ false) × (by_name local.name fi.files ≡ some f) × IsSame store local f

-- The file of the first device that has a candidate, or none.
abbrev pub IsFirst : Blocks → ℕ → ProtoFile → List FolderInfo → Option FileInfo → Type 0
IsFirst store self local [] o = o ≡ none
IsFirst store self local (fi ∷ fis) o =
    ((f : FileInfo) × IsCandidate store self local fi f × (o ≡ some f))
    ⊎ ((¬ ((f : FileInfo) × IsCandidate store self local fi f)) × IsFirst store self local fis o)

same_type-eq : (s t : FileType) → same_type s t ≡ true → s ≡ t
same_type-eq s t h = ground arith

same_type_refl : (s : FileType) → same_type s s ≡ true
same_type_refl s = ground arith

same_blocks-HasHashes :
    (store : Blocks) (rs : List BlockRef) (bs : List ProtoBlock)
    → same_blocks store rs bs ≡ true
    → HasHashes store rs bs
unfolding same_blocks
same_blocks-HasHashes store [] bs h = tt
same_blocks-HasHashes store (r ∷ rs) [] h = tt
same_blocks-HasHashes store (r ∷ rs) (b ∷ bs) h = elim (Option-cases r.block) [
  | inl gone ↦ rw gone tt
  | inr (a, there) ↦
      let both : (same_text (store a).hash b.hash && same_blocks store rs bs) ≡ true =
        ground (arith, h, there) in
      rw there (
        (same_text_iff (store a).hash b.hash).0 (ground (arith, both)),
        same_blocks-HasHashes store rs bs (ground (arith, both)),
      )
]

HasHashes-same_blocks :
    (store : Blocks) (rs : List BlockRef) (bs : List ProtoBlock)
    → HasHashes store rs bs
    → same_blocks store rs bs ≡ true
unfolding same_blocks
HasHashes-same_blocks store [] bs h = refl
HasHashes-same_blocks store (r ∷ rs) [] h = refl
HasHashes-same_blocks store (r ∷ rs) (b ∷ bs) h = go r.block h (HasHashes-same_blocks store rs bs)
  where
    go :
        (o : Option ℕ)
        → (elim o as (λ x. Type 0) [
          | none ↦ Unit
          | some a ↦ ((store a).hash ≡ b.hash) × HasHashes store rs bs
        ])
        → (HasHashes store rs bs → same_blocks store rs bs ≡ true)
        → (elim o as (λ x. Bool) [
          | none ↦ true
          | some a ↦ same_text (store a).hash b.hash && same_blocks store rs bs
        ])
          ≡ true
    go none k rest = refl
    go (some a) k rest = rw ((same_text_iff (store a).hash b.hash).1 k.0, rest k.1) refl

is_match-IsSame :
    (store : Blocks) (local : ProtoFile) (f : FileInfo)
    → is_match store local f ≡ true
    → IsSame store local f
unfolding is_match
is_match-IsSame store local f h = record {
  size = ground (arith, h);
  type = same_type-eq local.type (as_type f.flags) (ground (arith, h));
  deleted = ground (arith, h);
  invalid = ground (arith, h);
  permissions = ground (arith, h);
  contents = elim (Bool-cases (is_file f)) [
    | inl file ↦ rw file (
      ground (arith, h, file),
      same_blocks-HasHashes store (file_blocks f) local.blocks (ground (arith, h, file)),
    )
    | inr other ↦ rw other tt
  ];
}

IsSame-is_match :
    (store : Blocks) (local : ProtoFile) (f : FileInfo)
    → IsSame store local f
    → is_match store local f ≡ true
unfolding is_match
IsSame-is_match store local f h = elim (Bool-cases (is_file f)) [
  | inl file ↦
      let held : (length (file_blocks f) ≡ length local.blocks)
          × HasHashes store (file_blocks f) local.blocks =
        subst
          (λ b.
            if b
            then (length (file_blocks f) ≡ length local.blocks)
              × HasHashes store (file_blocks f) local.blocks
            else Unit)
          file h.contents in
      ground (
        arith,
        file,
        h.size,
        h.type,
        same_type_refl local.type,
        h.deleted,
        h.invalid,
        h.permissions,
        held.0,
        HasHashes-same_blocks store (file_blocks f) local.blocks held.1,
      )
  | inr other ↦
      ground (
        arith,
        other,
        h.size,
        h.type,
        same_type_refl local.type,
        h.deleted,
        h.invalid,
        h.permissions,
      )
]

match_of-some :
    (store : Blocks) (self : ℕ) (local : ProtoFile) (fi : FolderInfo) (f : FileInfo)
    → match_of store self local fi ≡ some f
    → IsCandidate store self local fi f
unfolding match_of
match_of-some store self local fi f h = elim (Option-cases (by_name local.name fi.files)) [
  | inl absent ↦ ground (arith, h, absent)
  | inr (g, there) ↦
      let same : is_match store local g ≡ true = ground (arith, h, there) in
      let other : (fi.device == self) ≡ false = ground (arith, h, there) in
      let found : g ≡ f = ground (arith, h, there, same, other) in
      (
        other,
        there ∙ ap (λ x. some x) found,
        is_match-IsSame store local f (subst (λ x. is_match store local x ≡ true) found same),
      )
]

match_of-none :
    (store : Blocks) (self : ℕ) (local : ProtoFile) (fi : FolderInfo)
    → match_of store self local fi ≡ none
    → ¬ ((f : FileInfo) × IsCandidate store self local fi f)
unfolding match_of
match_of-none store self local fi h (f, (other, there, same)) =
    ground (arith, h, other, there, IsSame-is_match store local f same)

first_match-IsFirst :
    (store : Blocks) (self : ℕ) (local : ProtoFile) (fis : List FolderInfo)
    → IsFirst store self local fis (first_match store self local fis)
first_match-IsFirst store self local [] = refl
first_match-IsFirst store self local (fi ∷ fis) =
    elim (Option-cases (match_of store self local fi)) [
      | inl absent ↦
          rw (first_match, absent)
            (inr
              (match_of-none store self local fi absent, first_match-IsFirst store self local fis))
      | inr (f, found) ↦
          rw (first_match, found) (inl (f, match_of-some store self local fi f found, refl))
    ]

-- A change on the disk is taken for the file of the first other device that has the same file of
-- the name, and for none if no device has it. The same file has the size, the type, the flags for
-- deleted and invalid, and, if it is a regular file, as many blocks with the same hashes, compared
-- up to the first block that is not there. Permissions are equal where one side has none and the
-- other has some, and do not count elsewhere. The versions of the files do not count. In a size, a
-- block that is not there, whose size the code would read through a null pointer, counts 0.
pub get_original-IsFirst :
    (store : Blocks) (self : ℕ) (local : ProtoFile) (fis : List FolderInfo)
    → IsFirst store self local fis (get_original store self local fis none)
get_original-IsFirst store self local fis =
    subst (IsFirst store self local fis) (sym (get_original_first store self local fis))
      (first_match-IsFirst store self local fis)
