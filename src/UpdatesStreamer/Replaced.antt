-- ===== src/UpdatesStreamer/Replaced.antt =====
-- model/misc/updates_streamer.cpp: the unseen files of a folder to which a file was added.
use syncspirit.Prelude.{
  ℕ, ◌+◌, ◌<◌, ◌≤◌, ◌≡◌, refl, ap, sym, subst, ◌∙◌, Bool, true, not, ◌&&◌, List, [], ◌∷◌, ◌++◌,
  arith, ltb, leb, Bool-cases, inl, inr,
}
use syncspirit.Prelude.Find.{All, keep_if}
use syncspirit.File.{FileInfo}
use syncspirit.FileMap.{FolderInfo, collides, put_over, put, range, add_strict}
use syncspirit.FileMap.Order.{AtMostOne, All-keep_if}
use syncspirit.FileMap.Sequence.{Within}
use syncspirit.UpdatesStreamer.{unseen}
use syncspirit.UpdatesStreamer.Ranges.{insert_file_last}

-- The files that a put of the item leaves, with the item behind them.
abbrev pub replaced : FileInfo → List FileInfo → List FileInfo
replaced item fs = keep_if (λ f. not (collides item f)) fs ++ item ∷ []

keep_if_same :
    (p : FileInfo → Bool) (fs : List FileInfo)
    → keep_if p fs ≡ []
    → keep_if (λ f. not (p f)) fs ≡ fs
keep_if_same p [] h = refl
keep_if_same p (f ∷ fs) h = ground (arith, h, keep_if_same p fs)

put_over-replaced :
    (item : FileInfo) (olds fs : List FileInfo)
    → AtMostOne olds
    → keep_if (collides item) fs ≡ olds
    → All (λ f. f.sequence < item.sequence) fs
    → put_over item true olds fs ≡ replaced item fs
unfolding put_over
put_over-replaced item [] fs a e l =
    insert_file_last item fs l ∙ ap (λ t. t ++ item ∷ []) (sym (keep_if_same (collides item) fs e))
put_over-replaced item (old ∷ []) fs a e l =
    insert_file_last item (keep_if (λ f. not (collides item f)) fs)
      (All-keep_if (λ f. f.sequence < item.sequence) (λ f. not (collides item f)) fs l)
put_over-replaced item (old ∷ other ∷ olds) fs a e l = absurd a

put-replaced :
    (item : FileInfo) (fs : List FileInfo)
    → AtMostOne (keep_if (collides item) fs)
    → All (λ f. f.sequence < item.sequence) fs
    → put item true fs ≡ replaced item fs
unfolding put
put-replaced item fs a l = put_over-replaced item (keep_if (collides item) fs) fs a refl l

keep_if_commute :
    (p q : FileInfo → Bool) (fs : List FileInfo)
    → keep_if p (keep_if q fs) ≡ keep_if q (keep_if p fs)
keep_if_commute p q [] = refl
keep_if_commute p q (f ∷ fs) = ground (arith, keep_if_commute p q fs)

keep_if-append :
    (p : FileInfo → Bool) (fs gs : List FileInfo)
    → keep_if p (fs ++ gs) ≡ keep_if p fs ++ keep_if p gs
keep_if-append p [] gs = refl
keep_if-append p (f ∷ fs) gs = ground (arith, keep_if-append p fs gs)

keep_if-AtMostOne :
    (p : FileInfo → Bool) (fs : List FileInfo) → AtMostOne fs → AtMostOne (keep_if p fs)
keep_if-AtMostOne p [] a = tt
keep_if-AtMostOne p (f ∷ []) a = elim (Bool-cases (p f)) [
  | inl kept ↦ rw kept tt
  | inr gone ↦ rw gone tt
]
keep_if-AtMostOne p (f ∷ g ∷ fs) a = absurd a

-- A larger upper bound adds nothing to the range of files below the smaller one.
range_wider :
    (lower m n : ℕ) (fs : List FileInfo) → m ≤ n → Within m fs → range lower n fs ≡ range lower m fs
unfolding range
range_wider lower m n [] l h = refl
range_wider lower m n (f ∷ fs) l h = ground (arith, h.0, range_wider lower m n fs l h.1)

Within-lt : (m n : ℕ) (fs : List FileInfo) → m < n → Within m fs → All (λ f. f.sequence < n) fs
Within-lt m n [] l h = tt
Within-lt m n (f ∷ fs) l h = (omega arith, Within-lt m n fs l h.1)

pub add_strict_taken :
    (file : FileInfo) (fi : FolderInfo)
    → fi.max_sequence < file.sequence
    → (add_strict file fi).0
      ≡ record fi { max_sequence = file.sequence; files = put file true fi.files }
unfolding add_strict
add_strict_taken file fi l =
    let above : ltb fi.max_sequence file.sequence ≡ true = ground (arith, l) in rw above refl

range_last :
    (lower : ℕ) (file : FileInfo)
    → lower ≤ file.sequence
    → range lower file.sequence (file ∷ []) ≡ file ∷ []
unfolding range
range_last lower file l = ground (arith, l)

-- The range of a folder to which a file was added is the range before with the file put to it.
pub unseen_added :
    (fi : FolderInfo) (file : FileInfo) (n : ℕ)
    → n ≤ fi.max_sequence
    → fi.max_sequence < file.sequence
    → Within fi.max_sequence fi.files
    → AtMostOne (keep_if (collides file) fi.files)
    → unseen (add_strict file fi).0 n ≡ put file true (unseen fi n)
unfolding unseen range
unseen_added fi file n seen above within alone =
    let fs = fi.files in
    let m = fi.max_sequence in
    let free : FileInfo → Bool = λ f. not (collides file f) in
    let inside : ℕ → FileInfo → Bool = λ k f. leb (n + 1) f.sequence && leb f.sequence k in
    let below = Within-lt m file.sequence fs above within in
    let stored = put-replaced file fs alone below in
    let split = keep_if-append (inside file.sequence) (keep_if free fs) (file ∷ []) in
    let last = range_last (n + 1) file (omega arith) in
    let wider =
      range_wider (n + 1) m file.sequence (keep_if free fs) (omega arith)
        (All-keep_if (λ f. f.sequence ≤ m) free fs within) in
    let there = keep_if_commute (inside m) free fs in
    let sent =
      put-replaced file (keep_if (inside m) fs)
        (subst AtMostOne (keep_if_commute (inside m) (collides file) fs)
          (keep_if-AtMostOne (inside m) (keep_if (collides file) fs) alone))
        (All-keep_if (λ f. f.sequence < file.sequence) (inside m) fs below) in
    ap (λ t. unseen t n) (add_strict_taken file fi above)
    ∙ (ap (keep_if (inside file.sequence)) stored
        ∙ (split
            ∙ (ap (λ t. keep_if (inside file.sequence) (keep_if free fs) ++ t) last
                ∙ (ap (λ t. t ++ file ∷ []) (wider ∙ there) ∙ sym sent))))
