-- ===== src/IndexUpdate/Checked.antt =====
-- model/diff/peer/update_folder.cpp: which files of a message are taken, and the errors.
use syncspirit.Prelude.{
  ℕ, ◌≡◌, refl, ap, sym, ◌∙◌, Bool, not, ◌&&◌, List, [], ◌∷◌, ◌++◌, Option, none, some, arith, ltb,
  leb, if◌then◌else◌, ◌==◌, length, Bool-cases, inl, inr,
}
use syncspirit.Prelude.Find.{any_of, keep_if}
use syncspirit.File.Wire.{ProtoFile, ProtoBlock, same_text}
use syncspirit.File.Store.{identical_to_message}
use syncspirit.FileMap.{FolderInfo, by_name}
use syncspirit.Mediator.Counts.{same_text_iff}
use syncspirit.IndexUpdate.{
  Error, folder_does_not_exist, folder_is_not_shared, invalid_sequence, mismatch_file_size,
  missing_version, aborted, Result, ok, err, ◌>>=◌, seen_names, Taken, Known, is_downloadable,
  size_by_blocks, take_step, take_new, check_seen, check_new, check_file, check_files, UpdateFolder,
  construct, Cluster, Folder, by_id, by_device, found_peer, instantiate,
}

abbrev pub has_name : List ℕ → List ProtoFile → Bool
has_name name = any_of (λ f. same_text f.name name)

-- The last file of each name.
abbrev pub latest : List ProtoFile → List ProtoFile
latest [] = []
latest (f ∷ fs) = if has_name f.name fs then latest fs else f ∷ latest fs

-- What is wrong with a file, if anything.
abbrev pub fault : Known → ProtoFile → Option Error
fault known f =
    if leb f.sequence known.folder.max_sequence
    then elim (by_name f.name known.folder.files) [
      | none ↦ some invalid_sequence
      | some prev_file ↦ elim (identical_to_message known.store prev_file f) [
        | none ↦ some aborted
        | some same ↦ if same then none else some invalid_sequence
      ]
    ]
    else if any_of (λ b. ltb 32 (length b.hash)) f.blocks
    then some aborted
    else if is_downloadable f && not (f.size == size_by_blocks f.blocks)
    then some mismatch_file_size
    else if length f.version == 0
    then some missing_version
    else none

abbrev pub first_fault : Known → List ProtoFile → Option Error
first_fault known [] = none
first_fault known (f ∷ fs) = elim (fault known f) [ some e ↦ some e | none ↦ first_fault known fs ]

abbrev pub newer : Known → List ProtoFile → List ProtoFile
newer known = keep_if (λ f. ltb known.folder.max_sequence f.sequence)

seen_names-lem :
    (name : List ℕ) (fs : List ProtoFile)
    → any_of (same_text name) (seen_names fs) ≡ has_name name fs
unfolding seen_names
seen_names-lem name [] = refl
seen_names-lem name (f ∷ fs) = ground (
  arith,
  seen_names-lem name fs,
  seen_names-lem f.name fs,
  same_text_iff f.name name,
  same_text_iff name f.name,
)

take_step-files :
    (known : List (List ℕ)) (b : ProtoBlock) (t : Taken) → (take_step known b t).files ≡ t.files
unfolding take_step
take_step-files known b t = ground arith

pub take_new-files :
    (known : List (List ℕ)) (bs : List ProtoBlock) (t : Taken)
    → (take_new known bs t).files ≡ t.files
unfolding take_new take_step
take_new-files known [] t = refl
take_new-files known (b ∷ bs) t =
    take_new-files known bs (take_step known b t) ∙ take_step-files known b t

-- What a check gives, as far as the files go.
abbrev pub given_files : Result Taken → Result (List ProtoFile)
given_files (ok t) = ok t.files
given_files (err e) = err e

abbrev pub verdict : Option Error → List ProtoFile → Result (List ProtoFile)
verdict none files = ok files
verdict (some e) files = err e

check_file-verdict :
    (known : Known) (f : ProtoFile) (t : Taken)
    → given_files (check_file known f t)
      ≡ verdict
          (fault known f)
          (if ltb known.folder.max_sequence f.sequence then t.files ++ f ∷ [] else t.files)
unfolding check_file check_seen check_new
check_file-verdict known f t = ground (arith, take_new-files known.hashes f.blocks t)

append_assoc : (xs ys zs : List ProtoFile) → (xs ++ ys) ++ zs ≡ xs ++ (ys ++ zs)
append_assoc [] ys zs = refl
append_assoc (x ∷ xs) ys zs = ap (λ t. x ∷ t) (append_assoc xs ys zs)

append_nil : (xs : List ProtoFile) → xs ++ [] ≡ xs
append_nil [] = refl
append_nil (x ∷ xs) = ap (λ t. x ∷ t) (append_nil xs)

ok_injective : (xs ys : List ProtoFile) → ok xs ≡ ok ys → xs ≡ ys
ok_injective xs ys h = cc

bind-verdict :
    (known : Known) (fs : List ProtoFile) (r : Result Taken) (o : Option Error)
    (files : List ProtoFile)
    → ((t : Taken)
        → given_files (check_files known fs t)
          ≡ verdict (first_fault known (latest fs)) (t.files ++ newer known (latest fs)))
    → given_files r ≡ verdict o files
    → given_files (r >>= check_files known fs)
      ≡ verdict
          (elim o [ some e ↦ some e | none ↦ first_fault known (latest fs) ])
          (files ++ newer known (latest fs))
bind-verdict known fs (ok t) none files rest h =
    rest t
    ∙ ap (λ x. verdict (first_fault known (latest fs)) (x ++ newer known (latest fs)))
        (ok_injective t.files files h)
bind-verdict known fs (ok t) (some e) files rest h = cc
bind-verdict known fs (err e) none files rest h = cc
bind-verdict known fs (err e) (some d) files rest h = cc

-- The file put behind those taken, and before those still to come.
taken_next :
    (known : Known) (f : ProtoFile) (fs files : List ProtoFile)
    → (if ltb known.folder.max_sequence f.sequence then files ++ f ∷ [] else files)
        ++ newer known fs
      ≡ files ++ newer known (f ∷ fs)
taken_next known f fs files = elim (Bool-cases (ltb known.folder.max_sequence f.sequence)) [
  | inl new ↦ rw new (append_assoc files (f ∷ []) (newer known fs))
  | inr old ↦ rw old refl
]

check_files-verdict :
    (known : Known) (fs : List ProtoFile) (t : Taken)
    → given_files (check_files known fs t)
      ≡ verdict (first_fault known (latest fs)) (t.files ++ newer known (latest fs))
unfolding check_files
check_files-verdict known [] t = ap ok (sym (append_nil t.files))
check_files-verdict known (f ∷ fs) t = elim (Bool-cases (has_name f.name fs)) [
  | inl later ↦
      let skipped = seen_names-lem f.name fs ∙ later in
      rw (skipped, later) (check_files-verdict known fs t)
  | inr last ↦
      let kept = seen_names-lem f.name fs ∙ last in
      rw (kept, last)
        (bind-verdict known fs (check_file known f t) (fault known f)
            (if ltb known.folder.max_sequence f.sequence then t.files ++ f ∷ [] else t.files)
            (check_files-verdict known fs) (check_file-verdict known f t)
          ∙ ap (verdict (first_fault known (f ∷ latest fs)))
              (taken_next known f (latest fs) t.files))
]

-- What the message is expected to give: the errors of the lookups, then the first fault among the
-- last files of each name, else those of them that are newer than the folder.
abbrev pub expected_files : Cluster → ℕ → List ℕ → List ProtoFile → Result (List ProtoFile)
expected_files cluster source folder_id files = elim (by_id folder_id cluster.folders) [
  | none ↦ err folder_does_not_exist
  | some folder ↦ elim (by_device source folder.folder_infos) [
    | none ↦ err folder_is_not_shared
    | some fi ↦
        let known : Known = record {
          hashes = cluster.hashes;
          store = cluster.store;
          folder = fi;
        } in
        verdict (first_fault known (latest files)) (newer known (latest files))
  ]
]

abbrev pub diff_files : Result UpdateFolder → Result (List ProtoFile)
diff_files (ok d) = ok d.files
diff_files (err e) = err e

abbrev known_by : Cluster → FolderInfo → Known
known_by cluster fi = record { hashes = cluster.hashes; store = cluster.store; folder = fi }

abbrev nothing_taken : Taken
nothing_taken = record { files = []; unique_new_blocks = []; new_blocks = [] }

constructed-files :
    (next_uuid : ℕ → ℕ) (known : Known) (r : Result Taken)
    → diff_files (r >>= λ t. ok (construct next_uuid known t)) ≡ given_files r
unfolding construct
constructed-files next_uuid known (ok t) = refl
constructed-files next_uuid known (err e) = refl

with_peer-files :
    (next_uuid : ℕ → ℕ) (cluster : Cluster) (files : List ProtoFile) (o : Option FolderInfo)
    → diff_files (
        elim o [ none ↦ err folder_is_not_shared | some fi ↦ ok fi ] >>= λ (fi : FolderInfo).
        check_files (known_by cluster fi) files nothing_taken >>= λ t.
        ok (construct next_uuid (known_by cluster fi) t))
      ≡ elim o [
        | none ↦ err folder_is_not_shared
        | some fi ↦
            verdict
              (first_fault (known_by cluster fi) (latest files))
              (newer (known_by cluster fi) (latest files))
      ]
with_peer-files next_uuid cluster files none = refl
with_peer-files next_uuid cluster files (some fi) =
    constructed-files next_uuid (known_by cluster fi)
      (check_files (known_by cluster fi) files nothing_taken)
    ∙ check_files-verdict (known_by cluster fi) files nothing_taken

with_folder-files :
    (next_uuid : ℕ → ℕ) (cluster : Cluster) (source : ℕ) (files : List ProtoFile)
    (o : Option Folder)
    → diff_files (
        elim o [ none ↦ err folder_does_not_exist | some folder ↦ ok folder ]
        >>= λ (folder : Folder). found_peer source folder >>= λ fi.
            check_files (known_by cluster fi) files nothing_taken >>= λ t.
            ok (construct next_uuid (known_by cluster fi) t))
      ≡ elim o [
        | none ↦ err folder_does_not_exist
        | some folder ↦ elim (by_device source folder.folder_infos) [
          | none ↦ err folder_is_not_shared
          | some fi ↦
              verdict
                (first_fault (known_by cluster fi) (latest files))
                (newer (known_by cluster fi) (latest files))
        ]
      ]
with_folder-files next_uuid cluster source files none = refl
with_folder-files next_uuid cluster source files (some folder) =
    with_peer-files next_uuid cluster files (by_device source folder.folder_infos)

-- A message is taken if its folder is there, is shared with the peer, and no file is at fault,
-- where only the last file of each name counts: a file not beyond the largest sequence number of
-- the folder has to be identical to the one there, and a file beyond it needs a version and, if it
-- can be downloaded, the size of its blocks. The files of the diff are then those beyond the number.
-- Otherwise the result is the error of the first fault. A fault is also what aborts the run: a file
-- that is to be identical and has no version, or has the version and as many blocks as the one there
-- where a block that is compared is a null pointer or the bytes of a symlink's target; and a hash of
-- more than 32 bytes in a file beyond the number. Sizes and sequence numbers of the message are not
-- negative.
pub instantiate-files :
    (next_uuid : ℕ → ℕ) (cluster : Cluster) (source : ℕ) (folder_id : List ℕ)
    (files : List ProtoFile)
    → diff_files (instantiate next_uuid cluster source folder_id files)
      ≡ expected_files cluster source folder_id files
unfolding instantiate
instantiate-files next_uuid cluster source folder_id files =
    with_folder-files next_uuid cluster source files (by_id folder_id cluster.folders)
