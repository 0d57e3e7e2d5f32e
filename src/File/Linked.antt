-- ===== src/File/Linked.antt =====
-- model/file_info.cpp: what `update` takes from the other file and what it keeps.
use syncspirit.Prelude.{
  ℕ, zero, suc, ◌≡◌, refl, Bool, true, false, List, [], ◌∷◌, Option, none, some, arith, length,
  if◌then◌else◌, Option-cases, inl, inr, Bool-cases,
}
use syncspirit.Prelude.Find.{any_of}
use syncspirit.File.{FileInfo, BlockRef, is_file, file_blocks, get_link_target}
use syncspirit.File.Wire.{same_text}
use syncspirit.File.Store.{
  State, assign_block, mark_local_available, remove_block, remove_blocks_from, remove_blocks,
  block_at_index, take_blocks, local_block_hashes, rebuild, copy_fields, merge_flags, finish_update,
  refill, update,
}
use syncspirit.Block.{unlink}

-- Nothing but the blocks and the AVAILABLE flag differs.
abbrev Retagged : FileInfo → FileInfo → Type 0
Retagged f g =
    g ≡ record f { content = g.content; flags = record f.flags { available = g.flags.available } }

Retagged-trans : (f g h : FileInfo) → Retagged f g → Retagged g h → Retagged f h
Retagged-trans f g h p q = ground arith

assign_block-Retagged :
    (a i : ℕ) (s t : State) → assign_block a i s ≡ some t → Retagged s.this t.this
unfolding assign_block
assign_block-Retagged a i s t e = ground arith

mark_local_available-Retagged :
    (i : ℕ) (s t : State) → mark_local_available i s ≡ some t → Retagged s.this t.this
unfolding mark_local_available
mark_local_available-Retagged i s t e = ground arith

remove_block-Retagged :
    (a : Option ℕ) (s t : State) → remove_block a s ≡ some t → Retagged s.this t.this
unfolding remove_block
remove_block-Retagged none s t e = ground arith
remove_block-Retagged (some a) s t e = elim (Option-cases (unlink (s.store a) s.this.address)) [
  | inl refused ↦ ground (arith, e, refused)
  | inr (r, done) ↦ ground (arith, e, done)
]

remove_blocks_from-Retagged :
    (left i : ℕ) (s t : State) → remove_blocks_from left i s ≡ some t → Retagged s.this t.this
unfolding remove_blocks_from
remove_blocks_from-Retagged zero i s t e = ground arith
remove_blocks_from-Retagged (suc left) i s t e =
    let a = block_at_index (file_blocks s.this) i in
    elim (Option-cases (remove_block a s)) [
      | inl refused ↦ ground (arith, e, refused)
      | inr (u, done) ↦
          Retagged-trans s.this u.this t.this (remove_block-Retagged a s u done)
            (remove_blocks_from-Retagged left (suc i) u t (ground (arith, e, done)))
    ]

remove_blocks-Retagged : (s t : State) → remove_blocks s ≡ some t → Retagged s.this t.this
unfolding remove_blocks
remove_blocks-Retagged s t e = elim (Bool-cases (is_file s.this)) [
  | inl file ↦ elim (Option-cases (remove_blocks_from (length (file_blocks s.this)) 0 s)) [
    | inl refused ↦ ground (arith, e, file, refused)
    | inr (u, done) ↦
        ground (
          arith,
          e,
          file,
          done,
          remove_blocks_from-Retagged (length (file_blocks s.this)) 0 s u done,
        )
  ]
  | inr other ↦ ground (arith, e, other)
]

take_blocks-Retagged :
    (hashes : List (List ℕ)) (i : ℕ) (refs : List BlockRef) (s t : State)
    → take_blocks hashes i refs s ≡ some t
    → Retagged s.this t.this
unfolding take_blocks
take_blocks-Retagged hashes i [] s t e = ground arith
take_blocks-Retagged hashes i (r ∷ rs) s t e = elim (Option-cases r.block) [
  | inl null ↦ ground (arith, take_blocks-Retagged hashes (suc i) rs s t)
  | inr (a, there) ↦ elim (Option-cases (assign_block a i s)) [
    | inl refused ↦ ground arith
    | inr (u, assigned) ↦
        Retagged-trans s.this u.this t.this (assign_block-Retagged a i s u assigned)
          (elim (Bool-cases (any_of (same_text (u.store a).hash) hashes)) [
            | inl known ↦ elim (Option-cases (mark_local_available i u)) [
              | inl refused ↦ ground arith
              | inr (w, marked) ↦
                  Retagged-trans u.this w.this t.this (mark_local_available-Retagged i u w marked)
                    (take_blocks-Retagged hashes (suc i) rs w t (ground arith))
            ]
            | inr fresh ↦ take_blocks-Retagged hashes (suc i) rs u t (ground arith)
          ])
  ]
]

-- The other file's fields and shared flags, over this file's identity and local flags.
abbrev pub Merged : FileInfo → FileInfo → FileInfo → Type 0
Merged other f g = g ≡ record other {
  address = f.address;
  uuid = f.uuid;
  name = f.name;
  content = g.content;
  flags = record (merge_flags other.flags f.flags) { available = g.flags.available };
}

rebuild-Retagged :
    (prev_file new_file : Bool) (size : ℕ) (f : FileInfo)
    → Retagged f (rebuild prev_file new_file size f)
unfolding rebuild
rebuild-Retagged prev_file new_file size f = ground arith

finish_update-Merged :
    (other f : FileInfo) (s t : State) (after : Option State)
    → Retagged (copy_fields other f) s.this
    → ((u : State) → after ≡ some u → Retagged s.this u.this)
    → finish_update other after ≡ some t
    → Merged other f t.this
finish_update-Merged other f s t none r k e = cc
finish_update-Merged other f s t (some u) r k e = ground (arith, k u refl)

refill-Merged :
    (other : FileInfo) (s emptied t : State)
    → Retagged (copy_fields other s.this) emptied.this
    → refill other s (some emptied) ≡ some t
    → Merged other s.this t.this
unfolding refill
refill-Merged other s emptied t kept e =
    let size : ℕ = length (file_blocks other) in
    let rebuilt : State = record emptied {
      this = rebuild (is_file s.this) (is_file other) size emptied.this;
    } in
    let hashes : List (List ℕ) =
      if is_file s.this
      then local_block_hashes s.store s.this.address (file_blocks s.this)
      else [] in
    finish_update-Merged other s.this rebuilt t
      (if is_file other then take_blocks hashes 0 (file_blocks other) rebuilt else some rebuilt)
      (Retagged-trans (copy_fields other s.this) emptied.this rebuilt.this kept
        (rebuild-Retagged (is_file s.this) (is_file other) size emptied.this))
      (taken hashes rebuilt) e
  where
    taken :
        (hashes : List (List ℕ)) (rebuilt u : State)
        → (if is_file other then take_blocks hashes 0 (file_blocks other) rebuilt else some rebuilt)
          ≡ some u
        → Retagged rebuilt.this u.this
    taken hashes rebuilt u q = elim (Bool-cases (is_file other)) [
      | inl yes_file ↦ take_blocks-Retagged hashes 0 (file_blocks other) rebuilt u (ground arith)
      | inr no_file ↦ ground arith
    ]

-- An update that goes through gives the file every field and shared flag of the other one, and
-- keeps its name, its identity and its local flags but the one on the availability.
pub update-Merged :
    (other : FileInfo) (s t : State) → update other s ≡ some t → Merged other s.this t.this
unfolding update refill
update-Merged other s t e =
    let copied : State = record s { this = copy_fields other s.this } in
    elim (Option-cases (remove_blocks copied)) [
      | inl refused ↦ ground (arith, e, refused)
      | inr (emptied, done) ↦
          refill-Merged other s emptied t (remove_blocks-Retagged copied emptied done)
            (ground (arith, e, done))
    ]

-- A file that becomes a symbolic link loses the link's target: the target is copied only from link
-- to link, and the content is rebuilt empty after that.
pub update-get_link_target :
    (other : FileInfo) (s t : State)
    → is_file s.this ≡ true
    → is_file other ≡ false
    → update other s ≡ some t
    → get_link_target t.this ≡ []
unfolding update refill get_link_target
update-get_link_target other s t file link e =
    elim (Option-cases (remove_blocks (record s { this = copy_fields other s.this }))) [
      | inl refused ↦ ground (arith, e, refused)
      | inr (emptied, done) ↦ ground (arith, e, done, file, link)
    ]
