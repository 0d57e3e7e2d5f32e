-- ===== src/UpdatesStreamer/Ranges.antt =====
-- model/misc/updates_streamer.cpp: the containers of unseen files, which are ordered, as lists.
use syncspirit.Prelude.{
  ℕ, ◌+◌, ◌<◌, ◌≤◌, ◌≡◌, refl, ap, sym, ◌∙◌, Bool, true, false, not, ◌&&◌, List, [], ◌∷◌, ◌++◌,
  arith, leb, ◌==◌, Bool-cases, inl, inr,
}
use syncspirit.Prelude.Find.{All, keep_if}
use syncspirit.File.{FileInfo}
use syncspirit.File.Wire.{same_text}
use syncspirit.FileMap.{collides, insert_file, put_over, put, remove, range}
use syncspirit.FileMap.Order.{IsOrdered, All-keep_if, Apart-keys, collides-sym}
use syncspirit.UpdatesStreamer.{put_all}

pub keep_if-All :
    (p : FileInfo → Bool) (fs : List FileInfo) → All (λ f. p f ≡ true) fs → keep_if p fs ≡ fs
keep_if-All p [] h = refl
keep_if-All p (f ∷ fs) h = ground (arith, h.0, keep_if-All p fs h.1)

keep_if_none :
    (p : FileInfo → Bool) (fs : List FileInfo) → All (λ f. p f ≡ false) fs → keep_if p fs ≡ []
keep_if_none p [] h = refl
keep_if_none p (f ∷ fs) h = ground (arith, h.0, keep_if_none p fs h.1)

pub All-not :
    (p : FileInfo → Bool) (fs : List FileInfo)
    → All (λ f. p f ≡ false) fs
    → All (λ f. not (p f) ≡ true) fs
All-not p [] h = tt
All-not p (f ∷ fs) h = (ground (arith, h.0), All-not p fs h.1)

keep_if_head :
    (p : FileInfo → Bool) (f : FileInfo) (fs : List FileInfo)
    → p f ≡ true
    → keep_if (λ g. not (p g)) (f ∷ fs) ≡ keep_if (λ g. not (p g)) fs
keep_if_head p f fs h = rw h refl

-- Removing the first file of an ordered container leaves the others.
pub remove-first : (f : FileInfo) (fs : List FileInfo) → IsOrdered (f ∷ fs) → remove f (f ∷ fs) ≡ fs
unfolding remove
remove-first f fs h =
    let (uuid, name, sequence) = Apart-keys f fs h.1 in
    let by_uuid_kept =
      keep_if-All (λ g. not (g.uuid == f.uuid)) fs (All-not (λ g. g.uuid == f.uuid) fs uuid) in
    let by_name_kept =
      keep_if-All (λ g. not (same_text g.name f.name)) fs
        (All-not (λ g. same_text g.name f.name) fs name) in
    let by_sequence_kept =
      keep_if-All (λ g. not (g.sequence == f.sequence)) fs
        (All-not (λ g. g.sequence == f.sequence) fs sequence) in
    let head_goes = keep_if_head (λ g. g.uuid == f.uuid) f fs (ground arith) in
    ap
      (λ t.
        keep_if (λ g. not (g.sequence == f.sequence))
          (keep_if (λ g. not (same_text g.name f.name)) t))
      (head_goes ∙ by_uuid_kept)
    ∙ (ap (keep_if (λ g. not (g.sequence == f.sequence))) by_name_kept ∙ by_sequence_kept)

-- The first file after a number is the first of the range, and the range after it is the rest.
range_later :
    (g lower upper : ℕ) (fs : List FileInfo)
    → lower ≤ g
    → All (λ f. g < f.sequence) fs
    → range (g + 1) upper fs ≡ range lower upper fs
unfolding range
range_later g lower upper [] l h = refl
range_later g lower upper (f ∷ fs) l h = ground (arith, h.0, range_later g lower upper fs l h.1)

cons_injective : (f g : FileInfo) (fs gs : List FileInfo) → f ∷ fs ≡ g ∷ gs → (f ≡ g) × (fs ≡ gs)
cons_injective f g fs gs e = (cc, cc)

range_in :
    (lower upper : ℕ) (g : FileInfo) (files : List FileInfo)
    → (leb lower g.sequence && leb g.sequence upper) ≡ true
    → range lower upper (g ∷ files) ≡ g ∷ range lower upper files
unfolding range
range_in lower upper g files h = rw h refl

range_out :
    (lower upper : ℕ) (g : FileInfo) (files : List FileInfo)
    → (leb lower g.sequence && leb g.sequence upper) ≡ false
    → range lower upper (g ∷ files) ≡ range lower upper files
unfolding range
range_out lower upper g files h = rw h refl

pub All-range :
    (P : FileInfo → Type 0) (lower upper : ℕ) (fs : List FileInfo)
    → All P fs
    → All P (range lower upper fs)
unfolding range
All-range P lower upper fs h =
    All-keep_if P (λ f. leb lower f.sequence && leb f.sequence upper) fs h

All-first :
    (P : FileInfo → Type 0) (gs : List FileInfo) (f : FileInfo) (fs : List FileInfo)
    → gs ≡ f ∷ fs
    → All P gs
    → P f
All-first P [] f fs e h = absurd cc
All-first P (g ∷ gs) f fs e h = rw (sym (cons_injective g f gs fs e).0) h.0

pub range-rest :
    (lower upper : ℕ) (f : FileInfo) (fs files : List FileInfo)
    → IsOrdered files
    → range lower upper files ≡ f ∷ fs
    → (lower ≤ f.sequence) × (range (f.sequence + 1) upper files ≡ fs)
unfolding range
range-rest lower upper f fs [] o e = absurd (cc)
range-rest lower upper f fs (g ∷ files) o e =
    elim (Bool-cases (leb lower g.sequence && leb g.sequence upper)) [
      | inl inside ↦
          let (first, rest) =
            cons_injective g f (range lower upper files) fs
              (sym (range_in lower upper g files inside) ∙ e) in
          let same : g.sequence ≡ f.sequence = ap (λ x. x.sequence) first in
          (
            grind (arith, inside, same),
            range_out (f.sequence + 1) upper g files (ground (arith, same))
                ∙ (ap (λ n. range (n + 1) upper files) (sym same)
                    ∙ (range_later g.sequence lower upper files (ground (arith, inside)) o.0
                        ∙ rest)),
          )
      | inr outside ↦
          let e' = sym (range_out lower upper g files outside) ∙ e in
          let (above, rest) = range-rest lower upper f fs files o.2 e' in
          let beyond : g.sequence < f.sequence =
            All-first (λ h. g.sequence < h.sequence) (range lower upper files) f fs e'
              (All-range (λ h. g.sequence < h.sequence) lower upper files o.0) in
          (above, range_out (f.sequence + 1) upper g files (ground (arith, beyond)) ∙ rest)
    ]

pub insert_file_last :
    (item : FileInfo) (fs : List FileInfo)
    → All (λ f. f.sequence < item.sequence) fs
    → insert_file item fs ≡ fs ++ item ∷ []
unfolding insert_file
insert_file_last item [] h = refl
insert_file_last item (f ∷ fs) h = ground (arith, h.0, insert_file_last item fs h.1)

put_last :
    (item : FileInfo) (fs : List FileInfo)
    → All (λ f. f.sequence < item.sequence) fs
    → All (λ f. collides item f ≡ false) fs
    → put item true fs ≡ fs ++ item ∷ []
unfolding put put_over
put_last item fs l h = rw (keep_if_none (collides item) fs h) (insert_file_last item fs l)

append_shift : (f : FileInfo) (fs gs : List FileInfo) → (fs ++ f ∷ []) ++ gs ≡ fs ++ f ∷ gs
append_shift f [] gs = refl
append_shift f (g ∷ fs) gs = ap (λ t. g ∷ t) (append_shift f fs gs)

append_nil : (fs : List FileInfo) → fs ++ [] ≡ fs
append_nil [] = refl
append_nil (f ∷ fs) = ap (λ t. f ∷ t) (append_nil fs)

All-middle :
    (P : FileInfo → Type 0) (fs : List FileInfo) (f : FileInfo) (gs : List FileInfo)
    → All P (fs ++ f ∷ gs)
    → P f
All-middle P [] f gs h = h.0
All-middle P (g ∷ fs) f gs h = All-middle P fs f gs h.1

-- What comes before a file in an ordered container.
ordered_before :
    (fs : List FileInfo) (f : FileInfo) (gs : List FileInfo)
    → IsOrdered (fs ++ f ∷ gs)
    → All (λ g. g.sequence < f.sequence) fs × All (λ g. collides f g ≡ false) fs
ordered_before [] f gs h = (tt, tt)
ordered_before (g ∷ fs) f gs h =
    let (below, apart) = ordered_before fs f gs h.2 in
    let less = All-middle (λ x. g.sequence < x.sequence) fs f gs h.0 in
    let free = All-middle (λ x. collides g x ≡ false) fs f gs h.1 in
    ((less, below), (collides-sym g f free, apart))

-- A container filled with ordered files is their list.
put_all-append :
    (fs files : List FileInfo) → IsOrdered (files ++ fs) → put_all fs files ≡ files ++ fs
unfolding put_all
put_all-append [] files h = sym (append_nil files)
put_all-append (f ∷ fs) files h =
    let (below, apart) = ordered_before files f fs h in
    rw (put_last f files below apart) (
      put_all-append fs (files ++ f ∷ []) (rw (append_shift f files fs) h)
      ∙ append_shift f files fs)

pub put_all-ordered : (fs : List FileInfo) → IsOrdered fs → put_all fs [] ≡ fs
put_all-ordered fs h = put_all-append fs [] h
