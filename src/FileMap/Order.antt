-- ===== src/FileMap/Order.antt =====
-- model/file_info.cpp: the container keeps its order and its keys apart.
use syncspirit.Prelude.{
  ℕ, ◌<◌, ◌≡◌, refl, Bool, true, false, not, List, [], ◌∷◌, none, some, arith, ltb, ◌==◌,
  Bool-cases, inl, inr,
}
use syncspirit.Prelude.Find.{All, find_if, keep_if}
use syncspirit.File.{FileInfo}
use syncspirit.File.Wire.{same_text}
use syncspirit.Mediator.Counts.{same_text_iff}
use syncspirit.FileMap.{collides, insert_file, put_over, put, remove, by_uuid, by_name, by_sequence}

-- The files rise by sequence number and no two collide.
abbrev pub IsOrdered : List FileInfo → Type 0
IsOrdered [] = Unit
IsOrdered (f ∷ fs) =
    All (λ g. f.sequence < g.sequence) fs × All (λ g. collides f g ≡ false) fs × IsOrdered fs

pub All-keep_if :
    (P : FileInfo → Type 0) (p : FileInfo → Bool) (fs : List FileInfo)
    → All P fs
    → All P (keep_if p fs)
All-keep_if P p [] h = tt
All-keep_if P p (f ∷ fs) h = ground (arith, All-keep_if P p fs h.1)

pub keep_if-IsOrdered :
    (p : FileInfo → Bool) (fs : List FileInfo) → IsOrdered fs → IsOrdered (keep_if p fs)
keep_if-IsOrdered p [] h = tt
keep_if-IsOrdered p (f ∷ fs) h = ground (
  arith,
  All-keep_if (λ g. f.sequence < g.sequence) p fs h.0,
  All-keep_if (λ g. collides f g ≡ false) p fs h.1,
  keep_if-IsOrdered p fs h.2,
)

pub collides-sym : (f g : FileInfo) → collides f g ≡ false → collides g f ≡ false
collides-sym f g h = ground (arith, same_text_iff f.name g.name, same_text_iff g.name f.name)

-- No file of the list collides with the item.
abbrev Apart : FileInfo → List FileInfo → Type 0
Apart item = All (λ f. collides item f ≡ false)

pub All-insert_file :
    (P : FileInfo → Type 0) (item : FileInfo) (fs : List FileInfo)
    → P item
    → All P fs
    → All P (insert_file item fs)
unfolding insert_file
All-insert_file P item [] i h = (i, tt)
All-insert_file P item (f ∷ fs) i h = ground (arith, All-insert_file P item fs i h.1)

All-lt_trans :
    (a b : ℕ) (fs : List FileInfo)
    → a < b
    → All (λ g. b < g.sequence) fs
    → All (λ g. a < g.sequence) fs
All-lt_trans a b [] l h = tt
All-lt_trans a b (f ∷ fs) l h = (omega arith, All-lt_trans a b fs l h.1)

insert_file-IsOrdered :
    (item : FileInfo) (fs : List FileInfo)
    → Apart item fs
    → IsOrdered fs
    → IsOrdered (insert_file item fs)
unfolding insert_file
insert_file-IsOrdered item [] a h = (tt, tt, tt)
insert_file-IsOrdered item (f ∷ fs) a h = elim (Bool-cases (ltb item.sequence f.sequence)) [
  | inl before ↦ ground (arith, All-lt_trans item.sequence f.sequence fs)
  | inr behind ↦ ground (
    arith,
    insert_file-IsOrdered item fs a.1 h.2,
    All-insert_file (λ g. f.sequence < g.sequence) item fs,
    All-insert_file (λ g. collides f g ≡ false) item fs (collides-sym item f a.0) h.1,
  )
]

keep_if-Apart :
    (item : FileInfo) (fs : List FileInfo) → Apart item (keep_if (λ f. not (collides item f)) fs)
keep_if-Apart item [] = tt
keep_if-Apart item (f ∷ fs) = ground (arith, keep_if-Apart item fs)

Apart-keep_if :
    (item : FileInfo) (fs : List FileInfo) → keep_if (collides item) fs ≡ [] → Apart item fs
Apart-keep_if item [] h = tt
Apart-keep_if item (f ∷ fs) h = ground (arith, Apart-keep_if item fs)

find_if-insert_file :
    (p : FileInfo → Bool) (item : FileInfo) (fs : List FileInfo)
    → p item ≡ true
    → All (λ f. p f ≡ false) fs
    → find_if p (insert_file item fs) ≡ some item
unfolding insert_file
find_if-insert_file p item [] i h = ground arith
find_if-insert_file p item (f ∷ fs) i h = ground (arith, find_if-insert_file p item fs i h.1)

-- The file is found by each of its keys.
abbrev pub IsFound : FileInfo → List FileInfo → Type 0
IsFound item fs =
    (by_uuid item.uuid fs ≡ some item)
    × (by_name item.name fs ≡ some item)
    × (by_sequence item.sequence fs ≡ some item)

pub Apart-keys :
    (item : FileInfo) (fs : List FileInfo)
    → Apart item fs
    → All (λ f. (f.uuid == item.uuid) ≡ false) fs
      × All (λ f. same_text f.name item.name ≡ false) fs
      × All (λ f. (f.sequence == item.sequence) ≡ false) fs
Apart-keys item [] h = (tt, tt, tt)
Apart-keys item (f ∷ fs) h = ground (arith, Apart-keys item fs h.1)

insert_file-IsFound :
    (item : FileInfo) (fs : List FileInfo) → Apart item fs → IsFound item (insert_file item fs)
insert_file-IsFound item fs a =
    let (uuid, name, sequence) = Apart-keys item fs a in
    (
      find_if-insert_file (λ f. f.uuid == item.uuid) item fs (ground arith) uuid,
      find_if-insert_file (λ f. same_text f.name item.name) item fs
          ((same_text_iff item.name item.name).1 refl) name,
      find_if-insert_file (λ f. f.sequence == item.sequence) item fs (ground arith) sequence,
    )

-- No two files of the folder stand in the item's way.
abbrev pub AtMostOne : List FileInfo → Type 0
AtMostOne [] = Unit
AtMostOne (f ∷ []) = Unit
AtMostOne (f ∷ g ∷ fs) = ⊥

put_over-IsOrdered :
    (item : FileInfo) (replace : Bool) (olds fs : List FileInfo)
    → keep_if (collides item) fs ≡ olds
    → IsOrdered fs
    → IsOrdered (put_over item replace olds fs)
unfolding put_over
put_over-IsOrdered item replace [] fs e h =
    insert_file-IsOrdered item fs (Apart-keep_if item fs e) h
put_over-IsOrdered item true (old ∷ []) fs e h =
    insert_file-IsOrdered item (keep_if (λ f. not (collides item f)) fs) (keep_if-Apart item fs)
      (keep_if-IsOrdered (λ f. not (collides item f)) fs h)
put_over-IsOrdered item false (old ∷ []) fs e h = h
put_over-IsOrdered item replace (old ∷ other ∷ olds) fs e h = h

put_over-IsFound :
    (item : FileInfo) (olds fs : List FileInfo)
    → keep_if (collides item) fs ≡ olds
    → AtMostOne olds
    → IsFound item (put_over item true olds fs)
unfolding put_over
put_over-IsFound item [] fs e h = insert_file-IsFound item fs (Apart-keep_if item fs e)
put_over-IsFound item (old ∷ []) fs e h =
    insert_file-IsFound item (keep_if (λ f. not (collides item f)) fs) (keep_if-Apart item fs)
put_over-IsFound item (old ∷ other ∷ olds) fs e h = absurd h

-- A put keeps the files in order and apart, whatever collides; and where at most one file has a key
-- of the item, the item is found by each of its keys.
pub put-IsOrdered :
    (item : FileInfo) (fs : List FileInfo)
    → IsOrdered fs
    → IsOrdered (put item true fs)
      × (AtMostOne (keep_if (collides item) fs) → IsFound item (put item true fs))
unfolding put
put-IsOrdered item fs h = (
  put_over-IsOrdered item true (keep_if (collides item) fs) fs refl h,
  put_over-IsFound item (keep_if (collides item) fs) fs refl,
)

find_if-keep_if :
    (p : FileInfo → Bool) (fs : List FileInfo) → find_if p (keep_if (λ f. not (p f)) fs) ≡ none
find_if-keep_if p [] = refl
find_if-keep_if p (f ∷ fs) = ground (arith, find_if-keep_if p fs)

find_if-none :
    (p q : FileInfo → Bool) (fs : List FileInfo)
    → find_if p fs ≡ none
    → find_if p (keep_if q fs) ≡ none
find_if-none p q [] h = refl
find_if-none p q (f ∷ fs) h = ground (arith, find_if-none p q fs)

-- A removed file is found by none of its keys, and the rest stay in order.
pub remove-IsOrdered :
    (item : FileInfo) (fs : List FileInfo)
    → IsOrdered fs
    → IsOrdered (remove item fs)
      × (by_uuid item.uuid (remove item fs) ≡ none)
      × (by_name item.name (remove item fs) ≡ none)
      × (by_sequence item.sequence (remove item fs) ≡ none)
unfolding remove
remove-IsOrdered item fs h =
    let by_id : FileInfo → Bool = λ f. f.uuid == item.uuid in
    let by_text : FileInfo → Bool = λ f. same_text f.name item.name in
    let by_number : FileInfo → Bool = λ f. f.sequence == item.sequence in
    let first : List FileInfo = keep_if (λ f. not (by_id f)) fs in
    let second : List FileInfo = keep_if (λ f. not (by_text f)) first in
    (
      keep_if-IsOrdered (λ f. not (by_number f)) second
          (keep_if-IsOrdered (λ f. not (by_text f)) first
            (keep_if-IsOrdered (λ f. not (by_id f)) fs h)),
      find_if-none by_id (λ f. not (by_number f)) second
          (find_if-none by_id (λ f. not (by_text f)) first (find_if-keep_if by_id fs)),
      find_if-none by_text (λ f. not (by_number f)) second (find_if-keep_if by_text first),
      find_if-keep_if by_number second,
    )
