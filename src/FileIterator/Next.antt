-- ===== src/FileIterator/Next.antt =====
-- model/misc/file_iterator.cpp: what `next` gives, and when it gives none.
use syncspirit.Prelude.{
  ℕ, zero, suc, ◌≡◌, refl, subst, true, false, List, [], ◌∷◌, Option, none, some, Bool-cases,
  Option-cases, inl, inr, length, get_elem?, set,
}
use syncspirit.Prelude.Find.{Any}
use syncspirit.Resolver.{by_name}
use syncspirit.FileIterator.{
  World, FolderIterator, FileIterator, Picked, decide, is_ignored, do_scan, pick, after_pick,
  next_folders, next, with_queue, step_index,
}

module _ {ℓ} {A : Type ℓ} (P : A → Type 0) where
  Any-get : (xs : List A) (i : ℕ) {x : A} → get_elem? xs i ≡ some x → P x → Any P xs
  Any-get [] i e p = absurd cc
  Any-get (y ∷ xs) zero {x = x} e p = let same : x ≡ y = cc in inl (subst P same p)
  Any-get (x ∷ xs) (suc i) e p = inr (Any-get xs i e p)

  Any-set :
      (xs : List A) (i : ℕ) {x y : A}
      → get_elem? xs i ≡ some x
      → (P y → P x)
      → Any P (set xs i y)
      → Any P xs
  Any-set [] i e f h = h
  Any-set (z ∷ xs) zero {x = x} e f (inl h) = let same : x ≡ z = cc in inl (subst P same (f h))
  Any-set (x ∷ xs) zero e f (inr h) = inr h
  Any-set (x ∷ xs) (suc i) e f (inl h) = inl h
  Any-set (x ∷ xs) (suc i) e f (inr h) = inr (Any-set xs i e f h)

-- A file that is taken: its name is not locked, and the resolver does not ignore it.
abbrev pub IsFree : World → Picked → Type 0
IsFree w p =
    let file = w.files p.peer_file in
    (w.is_locked file.name ≡ false)
    × (is_ignored p.action ≡ false)
    × (decide w p.peer_folder file ≡ p.action)
    × (by_name file.name (w.folders p.peer_folder).local_folder ≡ p.local_file)

-- The file is in the queue of a folder that is scanned.
abbrev pub Offers : World → Picked → FolderIterator → Type 0
Offers w p fi =
    (fi.folder ≡ p.peer_folder) × (do_scan w fi ≡ true) × Any (λ a. a ≡ p.peer_file) fi.files_queue

abbrev pub Sound : World → List FolderIterator → Option Picked → Type 0
Sound w fis none = Unit
Sound w fis (some p) = IsFree w p × Any (Offers w p) fis

PickSound : World → ℕ → List ℕ → List ℕ × Option Picked → Type 0
PickSound w folder queue (left, none) = Unit
PickSound w folder queue (left, some p) =
    IsFree w p × (folder ≡ p.peer_folder) × Any (λ a. a ≡ p.peer_file) queue

later :
    (w : World) (folder a : ℕ) (queue : List ℕ) (r : List ℕ × Option Picked)
    → PickSound w folder queue r
    → PickSound w folder (a ∷ queue) r
unfolding PickSound
later w folder a queue (left, none) h = tt
later w folder a queue (left, some p) h = (h.0, h.1, inr h.2)

pick-PickSound :
    (w : World) (folder : ℕ) (queue : List ℕ) → PickSound w folder queue (pick w folder queue)
unfolding pick PickSound
pick-PickSound w folder [] = tt
pick-PickSound w folder (a ∷ queue) =
    let rest = later w folder a queue (pick w folder queue) (pick-PickSound w folder queue) in
    elim (Bool-cases (w.is_locked (w.files a).name)) [
      | inl locked ↦ rw locked rest
      | inr free ↦ elim (Bool-cases (is_ignored (decide w folder (w.files a)))) [
        | inl ignored ↦ rw (free, ignored) rest
        | inr taken ↦ rw (free, taken) ((free, taken, refl, refl), refl, inl refl)
      ]
    ]

pick-left :
    (w : World) (folder : ℕ) (P : ℕ → Type 0) (queue : List ℕ)
    → Any P (pick w folder queue).0
    → Any P queue
unfolding pick
pick-left w folder P [] = λ h. h
pick-left w folder P (a ∷ queue) = elim (Bool-cases (w.is_locked (w.files a).name)) [
  | inl locked ↦ rw locked (λ h. inr (pick-left w folder P queue h))
  | inr free ↦ elim (Bool-cases (is_ignored (decide w folder (w.files a)))) [
    | inl ignored ↦ rw (free, ignored) (λ h. inr (pick-left w folder P queue h))
    | inr taken ↦ rw (free, taken) (λ h. inr h)
  ]
]

set-Sound :
    (w : World) (o : Option Picked) (fi : FolderIterator) (it : FileIterator) (queue : List ℕ)
    → get_elem? it.folders_list it.folder_index ≡ some fi
    → do_scan w fi ≡ true
    → ((P : ℕ → Type 0) → Any P queue → Any P fi.files_queue)
    → Sound w (with_queue it.folder_index fi queue it).folders_list o
    → Sound w it.folders_list o
set-Sound w none fi it queue there scan sub h = tt
set-Sound w (some p) fi it queue there scan sub h = (
  h.0,
  Any-set (Offers w p) it.folders_list it.folder_index there
      (λ k. (k.0, scan, sub (λ a. a ≡ p.peer_file) k.2)) h.1,
)

after_pick-Sound :
    (w : World) (rest : FileIterator → FileIterator × Option Picked) (fi : FolderIterator)
    (it : FileIterator) (r : List ℕ × Option Picked)
    → get_elem? it.folders_list it.folder_index ≡ some fi
    → do_scan w fi ≡ true
    → ((P : ℕ → Type 0) → Any P r.0 → Any P fi.files_queue)
    → PickSound w fi.folder fi.files_queue r
    → ((t : FileIterator) → Sound w t.folders_list (rest t).1)
    → Sound w it.folders_list (after_pick rest fi it r).1
unfolding PickSound after_pick
after_pick-Sound w rest fi it (queue, some p) there scan sub h k =
    (h.0, Any-get (Offers w p) it.folders_list it.folder_index there (h.1, scan, h.2))
after_pick-Sound w rest fi it (queue, none) there scan sub h k =
    set-Sound w (rest (step_index (with_queue it.folder_index fi queue it))).1 fi it queue there
      scan sub (k (step_index (with_queue it.folder_index fi queue it)))

next_folders-Sound :
    (w : World) (left : ℕ) (it : FileIterator) → Sound w it.folders_list (next_folders w left it).1
unfolding next_folders
next_folders-Sound w zero it = tt
next_folders-Sound w (suc left) it =
    elim (Option-cases (get_elem? it.folders_list it.folder_index)) [
      | inl out ↦ rw (out, Sound) tt
      | inr (fi, there) ↦ elim (Bool-cases (do_scan w fi)) [
        | inl scan ↦
            rw (there, scan, Sound)
              (after_pick-Sound w (next_folders w left) fi it (pick w fi.folder fi.files_queue)
                there scan (λ P. pick-left w fi.folder P fi.files_queue)
                (pick-PickSound w fi.folder fi.files_queue) (next_folders-Sound w left))
        | inr skip ↦ rw (there, skip, Sound) (next_folders-Sound w left (step_index it))
      ]
    ]

-- A file that `next` gives was queued in a folder that is scanned, its name is not locked, and it
-- comes with what the resolver decides about it, which is not to ignore it, and with the local file
-- of its name.
pub next-Sound : (w : World) (it : FileIterator) → Sound w it.folders_list (next w it).1
unfolding next
next-Sound w it = next_folders-Sound w (length it.folders_list) it
