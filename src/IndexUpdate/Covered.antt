-- ===== src/IndexUpdate/Covered.antt =====
-- model/diff/peer/update_folder.cpp: the blocks that an update adds and removes.
use syncspirit.Prelude.{
  ℕ, ◌≡◌, refl, sym, ◌∙◌, subst, Bool, true, false, not, ◌&&◌, ◌||◌, List, [], ◌∷◌, ◌++◌, Option,
  none, some, arith, if◌then◌else◌, leb, ◌==◌, length, Bool-cases, Option-cases, inl, inr, suc,
}
use syncspirit.Prelude.Find.{All, Any, any_of, find_if, keep_if}
use syncspirit.File.{FileInfo}
use syncspirit.File.Wire.{ProtoFile, ProtoBlock, same_text}
use syncspirit.File.Store.{identical_to_message}
use syncspirit.FileMap.{by_name}
use syncspirit.IndexUpdate.Checked.{take_new-files}
use syncspirit.Mediator.Counts.{same_text_iff}
use syncspirit.OrphanedBlocks.{has_hash, has_file, record_file, deduce}
use syncspirit.Block.{uses}
use syncspirit.OrphanedBlocks.Lost.{IsLost, deduce-IsLost}
use syncspirit.IndexUpdate.{
  Result, ok, err, invalid_sequence, mismatch_file_size, missing_version, aborted, ◌>>=◌,
  make_strict_hash, is_skipped, is_oversized, Taken, Known, is_downloadable, size_by_blocks,
  take_step, take_new, check_seen, check_new, check_file, check_files, construct, assign_uuids,
  block_hashes, white_listed,
}

All-keep :
    (P : List ℕ → Type 0) (p : List ℕ → Bool) (hs : List (List ℕ))
    → All P hs
    → All (λ h. P h × (p h ≡ true)) (keep_if p hs)
All-keep P p [] a = tt
All-keep P p (h ∷ hs) a = elim (Bool-cases (p h)) [
  | inl kept ↦ rw kept ((a.0, kept), All-keep P p hs a.1)
  | inr gone ↦ rw gone (All-keep P p hs a.1)
]

module _ {A : Type 0} where
  Any-map : (P Q : A → Type 0) (xs : List A) → ((x : A) → P x → Q x) → Any P xs → Any Q xs
  Any-map P Q [] h m = elim m [ ]
  Any-map P Q (x ∷ xs) h (inl p) = inl (h x p)
  Any-map P Q (x ∷ xs) h (inr m) = inr (Any-map P Q xs h m)

  All-map : (P Q : A → Type 0) (xs : List A) → ((x : A) → P x → Q x) → All P xs → All Q xs
  All-map P Q [] h a = tt
  All-map P Q (x ∷ xs) h a = (h x a.0, All-map P Q xs h a.1)

  find_if-Any :
      (p : A → Bool) (P : A → Type 0) (xs : List A) (x : A)
      → find_if p xs ≡ some x
      → (p x ≡ true → P x)
      → Any P xs
  find_if-Any p P [] x e h = cc
  find_if-Any p P (y ∷ xs) x e h = elim (Bool-cases (p y)) [
    | inl found ↦
        let same : y ≡ x = ground (arith, e, found) in
        inl (subst P (sym same) (h (subst (λ z. p z ≡ true) same found)))
    | inr other ↦ inr (find_if-Any p P xs x (ground (arith, e, other)) h)
  ]

-- A file of the folder, by its address, that has the name of a file of the update.
abbrev pub IsReplaced : List FileInfo → List ProtoFile → ℕ → Type 0
IsReplaced held files address =
    Any (λ f. (f.address ≡ address) × Any (λ g. f.name ≡ g.name) files) held

-- No block has the hash.
abbrev pub IsUnused : List ℕ → List ProtoBlock → Type 0
IsUnused hash bs = All (λ b. same_text hash (make_strict_hash b.hash) ≡ false) bs

IsReplaced-more :
    (held : List FileInfo) (g : ProtoFile) (gs : List ProtoFile) (address : ℕ)
    → IsReplaced held gs address
    → IsReplaced held (g ∷ gs) address
IsReplaced-more held g gs address =
    Any-map (λ f. (f.address ≡ address) × Any (λ h. f.name ≡ h.name) gs)
      (λ f. (f.address ≡ address) × Any (λ h. f.name ≡ h.name) (g ∷ gs)) held
      (λ f m. (m.0, inr m.1))

record_file-All :
    (P : ℕ → Type 0) (f : FileInfo) (fs : List FileInfo)
    → P f.address
    → All (λ g. P g.address) fs
    → All (λ g. P g.address) (record_file f fs)
unfolding record_file
record_file-All P f fs p a = elim (Bool-cases (has_file fs f.address)) [
  | inl there ↦ rw there a
  | inr new ↦ rw new (p, a)
]

assign_uuids-All :
    (next_uuid : ℕ → ℕ) (n : ℕ) (held : List FileInfo) (fs : List ProtoFile)
    → All (λ f. IsReplaced held fs f.address) (assign_uuids next_uuid n held fs).1
unfolding assign_uuids
assign_uuids-All next_uuid n held [] = tt
assign_uuids-All next_uuid n held (g ∷ fs) = elim (Option-cases (by_name g.name held)) [
  | inl none_yet ↦
      rw (assign_uuids, none_yet)
        (All-map (λ f. IsReplaced held fs f.address) (λ f. IsReplaced held (g ∷ fs) f.address) _
          (λ f. IsReplaced-more held g fs f.address) (assign_uuids-All next_uuid (suc n) held fs))
  | inr (f, found) ↦
      rw (assign_uuids, found)
        (record_file-All (IsReplaced held (g ∷ fs)) f _
          (find_if-Any (λ x. same_text x.name g.name)
            (λ x. (x.address ≡ f.address) × Any (λ h. x.name ≡ h.name) (g ∷ fs)) held f found
            (λ same. (refl, inl ((same_text_iff f.name g.name).0 same))))
          (All-map (λ x. IsReplaced held fs x.address) (λ x. IsReplaced held (g ∷ fs) x.address) _
            (λ x. IsReplaced-more held g fs x.address) (assign_uuids-All next_uuid n held fs)))
]

has_file-All :
    (P : ℕ → Type 0) (fs : List FileInfo) (a : ℕ)
    → All (λ f. P f.address) fs
    → has_file fs a ≡ true
    → P a
has_file-All P [] a h e = cc
has_file-All P (f ∷ fs) a h e = elim (Bool-cases (f.address == a)) [
  | inl same ↦ subst P (ground arith) h.0
  | inr other ↦ has_file-All P fs a h.1 (ground (arith, e, other))
]

IsUnused-append :
    (hash : List ℕ) (bs : List ProtoBlock) (hs : List (List ℕ))
    → has_hash (block_hashes bs ++ hs) hash ≡ false
    → IsUnused hash bs × (has_hash hs hash ≡ false)
unfolding block_hashes
IsUnused-append hash [] hs e = (tt, e)
IsUnused-append hash (b ∷ bs) hs e = ground (arith, e, IsUnused-append hash bs hs)

white_listed-IsUnused :
    (hash : List ℕ) (fs : List ProtoFile)
    → has_hash (white_listed fs) hash ≡ false
    → All (λ f. IsUnused hash f.blocks) fs
unfolding white_listed
white_listed-IsUnused hash [] e = tt
white_listed-IsUnused hash (f ∷ fs) e =
    let (first, rest) = IsUnused-append hash f.blocks (white_listed fs) e in
    (first, white_listed-IsUnused hash fs rest)

-- A block has the hash, and is used only by files of the folder that have the name of a file of the
-- update; and no file of the update has a block with the hash.
abbrev pub IsGivenUp : Known → Taken → List ℕ → Type 0
IsGivenUp known t hash =
    ((a : ℕ) × ((known.store a).hash ≡ hash)
      × All (λ fb. IsReplaced known.folder.files t.files fb.file_info) (uses (known.store a)))
    × All (λ f. IsUnused hash f.blocks) t.files

-- Every hash that an update removes is that of a block all of whose uses are in files of the folder
-- that have the name of a file of the update. No file of the update has a block with this hash, and
-- none of the blocks that it adds has it.
pub construct-IsGivenUp :
    (next_uuid : ℕ → ℕ) (known : Known) (t : Taken)
    → All
        (λ hash. IsGivenUp known t hash × (not (has_hash (block_hashes t.new_blocks) hash) ≡ true))
        (construct next_uuid known t).removed_blocks
unfolding construct
construct-IsGivenUp next_uuid known t =
    let replaced = (assign_uuids next_uuid 0 known.folder.files t.files).1 in
    All-keep (IsGivenUp known t) (λ hash. not (has_hash (block_hashes t.new_blocks) hash))
      (deduce known.store replaced (white_listed t.files))
      (All-map (IsLost known.store replaced (white_listed t.files)) (IsGivenUp known t) _
        (λ hash (free, (a, same, used)). (
          (
            a,
            same,
            All-map (λ fb. has_file replaced fb.file_info ≡ true)
                (λ fb. IsReplaced known.folder.files t.files fb.file_info) _
                (λ fb.
                  has_file-All (IsReplaced known.folder.files t.files) replaced fb.file_info
                    (assign_uuids-All next_uuid 0 known.folder.files t.files))
                used,
          ),
          white_listed-IsUnused hash t.files free,
        ))
        (deduce-IsLost known.store replaced (white_listed t.files)))

-- A block that the cluster has, or that is among the collected ones.
abbrev pub IsThere : List (List ℕ) → Taken → ProtoBlock → Type 0
IsThere known t b =
    (has_hash known (make_strict_hash b.hash)
      || has_hash (block_hashes t.new_blocks) (make_strict_hash b.hash))
    ≡ true

-- The two collections agree, and each collected block is unknown and collected once.
abbrev pub IsFresh : List (List ℕ) → List ProtoBlock → Type 0
IsFresh known [] = Unit
IsFresh known (b ∷ bs) =
    (has_hash known (make_strict_hash b.hash) ≡ false)
    × (has_hash (block_hashes bs) (make_strict_hash b.hash) ≡ false)
    × IsFresh known bs

has_hash-append :
    (bs : List ProtoBlock) (b : ProtoBlock) (h : List ℕ)
    → has_hash (block_hashes (bs ++ b ∷ [])) h
      ≡ (has_hash (block_hashes bs) h || same_text h (make_strict_hash b.hash))
unfolding block_hashes
has_hash-append [] b h = ground arith
has_hash-append (c ∷ bs) b h = ground (arith, has_hash-append bs b h)

IsFresh-append :
    (known : List (List ℕ)) (bs : List ProtoBlock) (b : ProtoBlock)
    → IsFresh known bs
    → has_hash known (make_strict_hash b.hash) ≡ false
    → has_hash (block_hashes bs) (make_strict_hash b.hash) ≡ false
    → IsFresh known (bs ++ b ∷ [])
unfolding block_hashes
IsFresh-append known [] b f k n = ground arith
IsFresh-append known (c ∷ bs) b f k n = ground (
  arith,
  f,
  has_hash-append bs b (make_strict_hash c.hash),
  same_text_iff (make_strict_hash b.hash) (make_strict_hash c.hash),
  same_text_iff (make_strict_hash c.hash) (make_strict_hash b.hash),
  IsFresh-append known bs b f.2 k,
)

-- The collections agree, and hold fresh blocks.
record IsProper (known : List (List ℕ)) (t : Taken) : Type 0 where
  agree : (h : List ℕ) → has_hash t.unique_new_blocks h ≡ has_hash (block_hashes t.new_blocks) h
  fresh : IsFresh known t.new_blocks

Grows : Taken → Taken → Type 0
Grows t u =
    (h : List ℕ)
    → has_hash (block_hashes t.new_blocks) h ≡ true
    → has_hash (block_hashes u.new_blocks) h ≡ true

take_step-IsProper :
    (known : List (List ℕ)) (b : ProtoBlock) (t : Taken)
    → IsProper known t
    → IsProper known (take_step known b t)
unfolding take_step
take_step-IsProper known b t p = elim (Bool-cases (has_hash known (make_strict_hash b.hash))) [
  | inl old ↦ rw old p
  | inr new ↦ elim (Bool-cases (has_hash t.unique_new_blocks (make_strict_hash b.hash))) [
    | inl again ↦ rw (new, again) p
    | inr first ↦
        rw (new, first)
          (record {
            agree = λ h. ground (arith, p.agree h, has_hash-append t.new_blocks b h);
            fresh =
                IsFresh-append known t.new_blocks b p.fresh new
                  (sym (p.agree (make_strict_hash b.hash)) ∙ first);
          })
  ]
]

take_step-Grows :
    (known : List (List ℕ)) (b : ProtoBlock) (t : Taken) → Grows t (take_step known b t)
unfolding take_step Grows
take_step-Grows known b t h l = ground (arith, l, has_hash-append t.new_blocks b h)

take_step-IsThere :
    (known : List (List ℕ)) (b : ProtoBlock) (t : Taken)
    → IsProper known t
    → IsThere known (take_step known b t) b
unfolding take_step
take_step-IsThere known b t p = ground (
  arith,
  p.agree (make_strict_hash b.hash),
  has_hash-append t.new_blocks b (make_strict_hash b.hash),
  (same_text_iff (make_strict_hash b.hash) (make_strict_hash b.hash)).1 refl,
)

take_new-IsProper :
    (known : List (List ℕ)) (bs : List ProtoBlock) (t : Taken)
    → IsProper known t
    → IsProper known (take_new known bs t)
unfolding take_new
take_new-IsProper known [] t p = p
take_new-IsProper known (b ∷ bs) t p =
    take_new-IsProper known bs (take_step known b t) (take_step-IsProper known b t p)

take_new-Grows :
    (known : List (List ℕ)) (bs : List ProtoBlock) (t : Taken) → Grows t (take_new known bs t)
unfolding take_new Grows
take_new-Grows known [] t h l = l
take_new-Grows known (b ∷ bs) t h l =
    take_new-Grows known bs (take_step known b t) h (take_step-Grows known b t h l)

Grows-IsThere :
    (known : List (List ℕ)) (t u : Taken) (b : ProtoBlock)
    → Grows t u
    → IsThere known t b
    → IsThere known u b
unfolding Grows
Grows-IsThere known t u b g i = ground (arith, g (make_strict_hash b.hash), i)

take_new-IsThere :
    (known : List (List ℕ)) (bs : List ProtoBlock) (t : Taken)
    → IsProper known t
    → All (IsThere known (take_new known bs t)) bs
unfolding take_new
take_new-IsThere known [] t p = tt
take_new-IsThere known (b ∷ bs) t p = (
  Grows-IsThere known (take_step known b t) (take_new known bs (take_step known b t)) b
      (take_new-Grows known bs (take_step known b t)) (take_step-IsThere known b t p),
  take_new-IsThere known bs (take_step known b t) (take_step-IsProper known b t p),
)

-- The files taken so far have their blocks in the cluster or among the collected ones.
pub record IsCovered (known : List (List ℕ)) (t : Taken) : Type 0 where
  pub fresh : IsFresh known t.new_blocks
  pub there : All (λ f. All (IsThere known t) f.blocks) t.files

All-IsThere :
    (known : List (List ℕ)) (t u : Taken) (bs : List ProtoBlock)
    → Grows t u
    → All (IsThere known t) bs
    → All (IsThere known u) bs
All-IsThere known t u [] g a = tt
All-IsThere known t u (b ∷ bs) g a =
    (Grows-IsThere known t u b g a.0, All-IsThere known t u bs g a.1)

covered-append :
    (known : List (List ℕ)) (t u : Taken) (f : ProtoFile) (fs : List ProtoFile)
    → Grows t u
    → All (λ g. All (IsThere known t) g.blocks) fs
    → All (IsThere known u) f.blocks
    → All (λ g. All (IsThere known u) g.blocks) (fs ++ f ∷ [])
covered-append known t u f [] g a b = (b, tt)
covered-append known t u f (h ∷ fs) g a b =
    (All-IsThere known t u h.blocks g a.0, covered-append known t u f fs g a.1 b)

-- What a check keeps: both invariants.
abbrev Kept : List (List ℕ) → Result Taken → Type 0
Kept known (ok t) = IsProper known t × IsCovered known t
Kept known (err e) = Unit

Kept-if :
    (known : List (List ℕ)) (test : Bool) (r s : Result Taken)
    → Kept known r
    → Kept known s
    → Kept known (if test then r else s)
Kept-if known true r s h k = h
Kept-if known false r s h k = k

Kept-seen :
    (known : Known) (f : ProtoFile) (t : Taken) (o : Option FileInfo)
    → Kept known.hashes (ok t)
    → Kept known.hashes (elim o [
      | none ↦ err invalid_sequence
      | some prev_file ↦ elim (identical_to_message known.store prev_file f) [
        | none ↦ err aborted
        | some same ↦ if same then ok t else err invalid_sequence
      ]
    ])
Kept-seen known f t none h = tt
Kept-seen known f t (some prev_file) h = go (identical_to_message known.store prev_file f)
  where
    go :
        (o : Option Bool)
        → Kept known.hashes (elim o as (λ x. Result Taken) [
          | none ↦ err aborted
          | some same ↦ if same then ok t else err invalid_sequence
        ])
    go none = tt
    go (some same) = Kept-if known.hashes same (ok t) (err invalid_sequence) h tt

taken-Kept :
    (known : List (List ℕ)) (f : ProtoFile) (t : Taken)
    → IsProper known t
    → IsCovered known t
    → Kept known (
        ok (record (take_new known f.blocks t) {
          files = (take_new known f.blocks t).files ++ f ∷ [];
        }))
taken-Kept known f t p c =
    let u = take_new known f.blocks t in
    let q = take_new-IsProper known f.blocks t p in
    (
      record { agree = q.agree; fresh = q.fresh },
      record {
        fresh = q.fresh;
        there =
            subst (λ files. All (λ g. All (IsThere known u) g.blocks) (files ++ f ∷ []))
              (sym (take_new-files known f.blocks t))
              (covered-append known t u f t.files (take_new-Grows known f.blocks t) c.there
                (take_new-IsThere known f.blocks t p));
      },
    )

check_file-Kept :
    (known : Known) (f : ProtoFile) (t : Taken)
    → IsProper known.hashes t
    → IsCovered known.hashes t
    → Kept known.hashes (check_file known f t)
unfolding check_file check_seen check_new
check_file-Kept known f t p c =
    let t' = take_new known.hashes f.blocks t in
    let taken : Result Taken = ok (record t' { files = t'.files ++ f ∷ [] }) in
    let versioned : Result Taken = if length f.version == 0 then err missing_version else taken in
    let sized : Result Taken =
      if is_downloadable f && not (f.size == size_by_blocks f.blocks)
      then err mismatch_file_size
      else versioned in
    let fitting : Result Taken = if any_of is_oversized f.blocks then err aborted else sized in
    Kept-if known.hashes (leb f.sequence known.folder.max_sequence) (check_seen known f t)
      (check_new known f t) (Kept-seen known f t (by_name f.name known.folder.files) (p, c))
      (Kept-if known.hashes (leb f.sequence 0) (err invalid_sequence) fitting tt (
        Kept-if known.hashes (any_of is_oversized f.blocks) (err aborted) sized tt (
          Kept-if known.hashes (is_downloadable f && not (f.size == size_by_blocks f.blocks))
            (err mismatch_file_size) versioned tt
            (Kept-if known.hashes (length f.version == 0) (err missing_version) taken tt
              (taken-Kept known.hashes f t p c)))))

Kept-bind :
    (known : Known) (fs : List ProtoFile) (r : Result Taken)
    → Kept known.hashes r
    → ((t : Taken) → Kept known.hashes (ok t) → Kept known.hashes (check_files known fs t))
    → Kept known.hashes (r >>= check_files known fs)
Kept-bind known fs (ok t) h rest = rest t h
Kept-bind known fs (err e) h rest = tt

start_agree : (h : List ℕ) → has_hash [] h ≡ has_hash (block_hashes []) h
unfolding block_hashes
start_agree h = refl

check_files-Kept :
    (known : Known) (fs : List ProtoFile) (t : Taken)
    → Kept known.hashes (ok t)
    → Kept known.hashes (check_files known fs t)
unfolding check_files
check_files-Kept known [] t h = h
check_files-Kept known (f ∷ fs) t h =
    Kept-if known.hashes (is_skipped f fs) (check_files known fs t)
      (check_file known f t >>= check_files known fs) (check_files-Kept known fs t h)
      (Kept-bind known fs (check_file known f t) (check_file-Kept known f t h.0 h.1)
        (check_files-Kept known fs))

-- What holds of the result of a check of the files, if it is not an error.
abbrev pub Covers : List (List ℕ) → Result Taken → Type 0
Covers known (ok t) = IsCovered known t
Covers known (err e) = Unit

Kept-Covers : (known : List (List ℕ)) (r : Result Taken) → Kept known r → Covers known r
Kept-Covers known (ok t) h = h.1
Kept-Covers known (err e) h = tt

-- Every block of every file that a message gives is in the cluster or among the new blocks of the
-- update, and each new block is unknown to the cluster and there once.
pub check_files-Covers :
    (known : Known) (files : List ProtoFile)
    → Covers known.hashes
        (check_files known files (record { files = []; unique_new_blocks = []; new_blocks = [] }))
check_files-Covers known files =
    let start : Taken = record { files = []; unique_new_blocks = []; new_blocks = [] } in
    Kept-Covers known.hashes (check_files known files start) (
      check_files-Kept known files start
        (record { agree = λ h. start_agree h; fresh = tt }, record { fresh = tt; there = tt }))
