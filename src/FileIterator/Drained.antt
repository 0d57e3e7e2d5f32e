-- ===== src/FileIterator/Drained.antt =====
-- model/misc/file_iterator.cpp: `next` gives none only when nothing is left to give, and each file
-- that it gives leaves the queues.
use syncspirit.Prelude.{
  ℕ, zero, suc, ◌+◌, ◌%◌, ◌<◌, ◌≡◌, ◌≢◌, ◌⊎◌, refl, ap, sym, ◌∙◌, subst, true, false, List, [], ◌∷◌,
  Option, none, some, arith, Bool-cases, Option-cases, inl, inr, length, get_elem?,
  get_elem?-set_ne, length-set, ℕ_discrete, dec_le, ◌-◌,
}
use native.Mathlib.Nat.{mod-lt, mod-eq_of_lt, mod-add-mod, add-mod_right}
use syncspirit.Prelude.Find.{All}
use syncspirit.FileIterator.{
  World, FolderIterator, FileIterator, Picked, decide, is_ignored, do_scan, pick, after_pick,
  next_folders, next, with_queue, step_index,
}

module _ {ℓ} {A : Type ℓ} where
  get_elem?-none : (xs : List A) (i : ℕ) → i < length xs → get_elem? xs i ≢ none
  get_elem?-none [] i l = λ e. absurd (omega (arith, l))
  get_elem?-none (x ∷ xs) zero l = λ e. absurd cc
  get_elem?-none (x ∷ xs) (suc i) l = get_elem?-none xs i (omega (arith, l))

  get_elem?_below : (xs : List A) (i : ℕ) {x : A} → get_elem? xs i ≡ some x → i < length xs
  get_elem?_below [] i e = absurd cc
  get_elem?_below (x ∷ xs) zero e = omega arith
  get_elem?_below (x ∷ xs) (suc i) e = omega (arith, get_elem?_below xs i e)

  All_from :
      (P : A → Type 0) (xs : List A) → ((i : ℕ) (x : A) → get_elem? xs i ≡ some x → P x) → All P xs
  All_from P [] h = tt
  All_from P (x ∷ xs) h = (h 0 x refl, All_from P xs (λ i y e. h (suc i) y e))

-- The file is locked, or the resolver ignores it.
abbrev pub Passed : World → ℕ → ℕ → Type 0
Passed w folder a =
    (w.is_locked (w.files a).name ≡ true) ⊎ (is_ignored (decide w folder (w.files a)) ≡ true)

abbrev pub Checked : World → FolderIterator → Type 0
Checked w fi = do_scan w fi ≡ true → All (Passed w fi.folder) fi.files_queue

pick-none :
    (w : World) (folder : ℕ) (queue : List ℕ)
    → (pick w folder queue).1 ≡ none
    → All (Passed w folder) queue
unfolding pick
pick-none w folder [] = λ h. tt
pick-none w folder (a ∷ queue) = elim (Bool-cases (w.is_locked (w.files a).name)) [
  | inl locked ↦ rw locked (λ h. (inl refl, pick-none w folder queue h))
  | inr free ↦ elim (Bool-cases (is_ignored (decide w folder (w.files a)))) [
    | inl ignored ↦ rw (free, ignored) (λ h. (inr refl, pick-none w folder queue h))
    | inr taken ↦ rw (free, taken) (λ h. absurd cc)
  ]
]

after_pick-none :
    (rest : FileIterator → FileIterator × Option Picked) (fi : FolderIterator) (it : FileIterator)
    (r : List ℕ × Option Picked)
    → (after_pick rest fi it r).1 ≡ none
    → (r.1 ≡ none) × ((rest (step_index (with_queue it.folder_index fi r.0 it))).1 ≡ none)
unfolding after_pick
after_pick-none rest fi it (queue, some p) h = absurd cc
after_pick-none rest fi it (queue, none) h = (refl, h)

-- From `i` on, around `n` folders, the index `j` is reached after fewer than `n` steps.
ahead : (n i j : ℕ) → i < n → j < n → (k : ℕ) × (k < n) × ((i + k) % n ≡ j)
ahead n i j l m = elim (dec_le i j) [
  | yes before ↦
      (j - i, omega (arith, l, m), ap (λ x. x % n) (omega (arith, before)) ∙ mod-eq_of_lt m)
  | no after ↦ (
    j + n - i,
    omega (arith, l, m, after),
    ap (λ x. x % n) (omega (arith, l)) ∙ add-mod_right j n ∙ mod-eq_of_lt m,
  )
]

Reaches : World → ℕ → Type 0
Reaches w left =
    (it : FileIterator) (k j : ℕ) (fi : FolderIterator)
    → it.folder_index < length it.folders_list
    → (it.folder_index + k) % length it.folders_list ≡ j
    → k < left
    → get_elem? it.folders_list j ≡ some fi
    → (next_folders w left it).1 ≡ none
    → Checked w fi

-- The rest of the loop, after the folder at the index is done with.
reaches_rest :
    (w : World) (left : ℕ) (it t : FileIterator) (k j : ℕ) (fi : FolderIterator)
    → Reaches w left
    → t.folder_index ≡ it.folder_index
    → length t.folders_list ≡ length it.folders_list
    → it.folder_index < length it.folders_list
    → (it.folder_index + k) % length it.folders_list ≡ j
    → it.folder_index ≢ j
    → k < suc left
    → get_elem? t.folders_list j ≡ some fi
    → (next_folders w left (step_index t)).1 ≡ none
    → Checked w fi
unfolding Reaches
reaches_rest w left it t zero j fi rest i n l m d b e h =
    absurd (d (sym (mod-eq_of_lt l) ∙ ap (λ x. x % length it.folders_list) (omega arith) ∙ m))
reaches_rest w left it t (suc k) j fi rest i n l m d b e h =
    rest (step_index t) k j fi (mod-lt (t.folder_index + 1) (omega (arith, n, l)))
      (mod-add-mod (t.folder_index + 1) (length t.folders_list) k
        ∙ rw (i, n) (ap (λ x. x % length it.folders_list) (omega arith) ∙ m))
      (omega (arith, b)) e h

module _ (w : World) (left : ℕ) (it : FileIterator) (g : FolderIterator) (k j : ℕ)
    (fi : FolderIterator) (rest : Reaches w left)
    (there : get_elem? it.folders_list it.folder_index ≡ some g) where
  found : it.folder_index ≡ j → get_elem? it.folders_list j ≡ some fi → g ≡ fi
  found same e = cc

  scanned :
      do_scan w g ≡ true
      → it.folder_index < length it.folders_list
      → (it.folder_index + k) % length it.folders_list ≡ j
      → k < suc left
      → get_elem? it.folders_list j ≡ some fi
      → (after_pick (next_folders w left) g it (pick w g.folder g.files_queue)).1 ≡ none
      → Checked w fi
  scanned scan l m b e h =
      let parts = after_pick-none (next_folders w left) g it (pick w g.folder g.files_queue) h in
      let queue = (pick w g.folder g.files_queue).0 in
      elim (ℕ_discrete it.folder_index j) [
        | yes same ↦
            subst (Checked w) (found same e) (λ s. pick-none w g.folder g.files_queue parts.0)
        | no other ↦
            reaches_rest w left it (with_queue it.folder_index g queue it) k j fi rest refl
              (length-set it.folders_list it.folder_index (record g { files_queue = queue })) l m
              other b
              (get_elem?-set_ne it.folders_list (record g { files_queue = queue }) other ∙ e)
              parts.1
      ]

  skipped :
      do_scan w g ≡ false
      → it.folder_index < length it.folders_list
      → (it.folder_index + k) % length it.folders_list ≡ j
      → k < suc left
      → get_elem? it.folders_list j ≡ some fi
      → (next_folders w left (step_index it)).1 ≡ none
      → Checked w fi
  skipped skip l m b e h = elim (ℕ_discrete it.folder_index j) [
    | yes same ↦ subst (Checked w) (found same e) (λ scan. absurd cc)
    | no other ↦ reaches_rest w left it it k j fi rest refl refl l m other b e h
  ]

next_folders_none : (w : World) (left : ℕ) → Reaches w left
unfolding Reaches next_folders
next_folders_none w zero it k j fi l m b e = absurd (omega (arith, b))
next_folders_none w (suc left) it k j fi l m b e =
    elim (Option-cases (get_elem? it.folders_list it.folder_index)) [
      | inl out ↦ absurd (get_elem?-none it.folders_list it.folder_index l out)
      | inr (g, there) ↦ elim (Bool-cases (do_scan w g)) [
        | inl scan ↦
            rw (there, scan, next_folders)
              (scanned w left it g k j fi (next_folders_none w left) there scan l m b e)
        | inr skip ↦
            rw (there, skip, next_folders)
              (skipped w left it g k j fi (next_folders_none w left) there skip l m b e)
      ]
    ]

-- When `next` gives none, each folder that is scanned had only files in its queue that are locked
-- or that the resolver ignores. The index of the iterator is one of its list.
pub next_none :
    (w : World) (it : FileIterator)
    → it.folder_index < length it.folders_list
    → (next w it).1 ≡ none
    → All (Checked w) it.folders_list
unfolding next Reaches
next_none w it l h = All_from (Checked w) it.folders_list (λ j fi e.
    let (k, b, m) =
      ahead (length it.folders_list) it.folder_index j l (get_elem?_below it.folders_list j e) in
    next_folders_none w (length it.folders_list) it k j fi l m b e h)
