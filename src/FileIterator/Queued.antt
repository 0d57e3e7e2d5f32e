-- ===== src/FileIterator/Queued.antt =====
-- model/misc/file_iterator.cpp: each file that `next` gives leaves the queues.
use syncspirit.Prelude.{
  ℕ, zero, suc, ◌+◌, ◌≤◌, ◌≡◌, List, [], ◌∷◌, Option, none, some, arith, Bool-cases, Option-cases,
  inl, inr, length, get_elem?, set,
}
use syncspirit.FileIterator.{
  World, FolderIterator, FileIterator, Picked, decide, is_ignored, do_scan, pick, after_pick,
  next_folders, next, with_queue, step_index,
}

-- How many files the queues hold.
abbrev pub queued : List FolderIterator → ℕ
queued [] = 0
queued (fi ∷ fis) = length fi.files_queue + queued fis

queued-set :
    (fis : List FolderIterator) (i : ℕ) (fi : FolderIterator) (queue : List ℕ)
    → get_elem? fis i ≡ some fi
    → queued (set fis i (record fi { files_queue = queue })) + length fi.files_queue
      ≡ queued fis + length queue
queued-set [] i fi queue e = absurd cc
queued-set (g ∷ fis) zero fi queue e = let same : g ≡ fi = cc in rw same (omega arith)
queued-set (g ∷ fis) (suc i) fi queue e = omega (arith, queued-set fis i fi queue e)

-- The cost of a result: one for a file.
abbrev pub given : Option Picked → ℕ
given none = 0
given (some p) = 1

length-pick :
    (w : World) (folder : ℕ) (queue : List ℕ)
    → length (pick w folder queue).0 + given (pick w folder queue).1 ≤ length queue
unfolding pick
length-pick w folder [] = omega arith
length-pick w folder (a ∷ queue) = elim (Bool-cases (w.is_locked (w.files a).name)) [
  | inl locked ↦ rw locked (omega (arith, length-pick w folder queue))
  | inr free ↦ elim (Bool-cases (is_ignored (decide w folder (w.files a)))) [
    | inl ignored ↦ rw (free, ignored) (omega (arith, length-pick w folder queue))
    | inr taken ↦ rw (free, taken) (omega arith)
  ]
]

unfoldable Shrinks : FileIterator → FileIterator × Option Picked → Type 0
Shrinks it r = queued r.0.folders_list + given r.1 ≤ queued it.folders_list

after_pick-Shrinks :
    (rest : FileIterator → FileIterator × Option Picked) (fi : FolderIterator) (it : FileIterator)
    (r : List ℕ × Option Picked)
    → get_elem? it.folders_list it.folder_index ≡ some fi
    → length r.0 + given r.1 ≤ length fi.files_queue
    → ((t : FileIterator) → Shrinks t (rest t))
    → Shrinks it (after_pick rest fi it r)
unfolding after_pick Shrinks
after_pick-Shrinks rest fi it (queue, some p) there l k =
    omega (arith, l, queued-set it.folders_list it.folder_index fi queue there)
after_pick-Shrinks rest fi it (queue, none) there l k = omega (
  arith,
  l,
  queued-set it.folders_list it.folder_index fi queue there,
  k (step_index (with_queue it.folder_index fi queue it)),
)

next_folders-Shrinks :
    (w : World) (left : ℕ) (it : FileIterator) → Shrinks it (next_folders w left it)
unfolding next_folders Shrinks
next_folders-Shrinks w zero it = omega arith
next_folders-Shrinks w (suc left) it =
    elim (Option-cases (get_elem? it.folders_list it.folder_index)) [
      | inl out ↦ rw (out, next_folders) (omega arith)
      | inr (fi, there) ↦ elim (Bool-cases (do_scan w fi)) [
        | inl scan ↦
            rw (there, scan, next_folders)
              (after_pick-Shrinks (next_folders w left) fi it (pick w fi.folder fi.files_queue)
                there (length-pick w fi.folder fi.files_queue) (next_folders-Shrinks w left))
        | inr skip ↦ rw (there, skip, next_folders) (next_folders-Shrinks w left (step_index it))
      ]
    ]

-- Each file that `next` gives leaves fewer files in the queues, and no call leaves more, so a drain
-- of the iterator ends after at most as many files as are queued.
pub next-queued :
    (w : World) (it : FileIterator)
    → queued (next w it).0.folders_list + given (next w it).1 ≤ queued it.folders_list
unfolding next Shrinks
next-queued w it = next_folders-Shrinks w (length it.folders_list) it
