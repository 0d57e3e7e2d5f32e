-- ===== src/UpdatesStreamer/Next.antt =====
-- model/misc/updates_streamer.cpp: what `next` gives and what it leaves.
use syncspirit.Prelude.{
  ℕ, ◌+◌, ◌<◌, ◌≡◌, ◌≢◌, refl, ap, sym, subst, ◌∙◌, ◌&&◌, List, [], ◌∷◌, Option, none, some, arith,
  ltb, leb, ◌==◌, Bool-cases, inl, inr,
}
use syncspirit.Prelude.Find.{All}
use syncspirit.File.{FileInfo}
use syncspirit.FileMap.{FolderInfo, range}
use syncspirit.FileMap.Order.{IsOrdered, keep_if-IsOrdered}
use syncspirit.UpdatesStreamer.{
  Seen, Streaming, Streamer, Update, seen_of, set_seen, unseen, keep_rest, give_first, scan,
  next_streaming, next,
}
use syncspirit.UpdatesStreamer.Ranges.{remove-first, range-rest, put_all-ordered}

abbrev pub IsKeyed : List Seen → Type 0
IsKeyed [] = Unit
IsKeyed (e ∷ es) = All (λ d. d.folder ≢ e.folder) es × IsKeyed es

-- The container of unseen files has those of its folder.
abbrev pub IsStreamed : (ℕ → FolderInfo) → Option Streaming → List Seen → Type 0
IsStreamed infos none es = Unit
IsStreamed infos (some s) es = s.unseen_files ≡ unseen (infos s.folder) (seen_of s.folder es)

pub record IsSound (infos : ℕ → FolderInfo) (self : Streamer) : Type 0 where
  pub keyed : IsKeyed self.seen_info
  pub streamed : IsStreamed infos self.streaming self.seen_info

-- What a call gives: a file that was the first unseen one of its folder, where the others stay
-- unseen and no other folder changes; or nothing, when no folder of the list has an unseen file.
abbrev pub IsGiven : (ℕ → FolderInfo) → List Seen → Streamer → Streamer → Option Update → Type 0
IsGiven infos es before after none =
    All (λ e. unseen (infos e.folder) e.sequence ≡ []) es
    × IsSound infos after
    × (after.seen_info ≡ before.seen_info)
IsGiven infos es before after (some u) =
    (unseen (infos u.folder) (seen_of u.folder before.seen_info)
      ≡ u.file ∷ unseen (infos u.folder) (seen_of u.folder after.seen_info))
    × IsSound infos after
    × (seen_of u.folder after.seen_info ≡ u.file.sequence)
    × ((other : ℕ)
        → other ≢ u.folder
        → seen_of other after.seen_info ≡ seen_of other before.seen_info)
    × (u.initial ≡ (seen_of u.folder before.seen_info == 0))

seen_of-set_seen : (folder n : ℕ) (es : List Seen) → seen_of folder (set_seen folder n es) ≡ n
unfolding seen_of set_seen
seen_of-set_seen folder n [] = ground arith
seen_of-set_seen folder n (e ∷ es) = ground (arith, seen_of-set_seen folder n es)

seen_of-set_seen_ne :
    (folder n other : ℕ) (es : List Seen)
    → other ≢ folder
    → seen_of other (set_seen folder n es) ≡ seen_of other es
unfolding seen_of set_seen
seen_of-set_seen_ne folder n other [] h = ground (arith, h)
seen_of-set_seen_ne folder n other (e ∷ es) h =
    ground (arith, h, seen_of-set_seen_ne folder n other es h)

All-set_seen :
    (k folder n : ℕ) (es : List Seen)
    → folder ≢ k
    → All (λ d. d.folder ≢ k) es
    → All (λ d. d.folder ≢ k) (set_seen folder n es)
unfolding set_seen
All-set_seen k folder n [] h a = (h, tt)
All-set_seen k folder n (e ∷ es) h a = ground (arith, h, a.0, All-set_seen k folder n es h a.1)

All-rename :
    (k l : ℕ) (es : List Seen) → k ≡ l → All (λ d. d.folder ≢ k) es → All (λ d. d.folder ≢ l) es
All-rename k l [] e h = tt
All-rename k l (d ∷ es) e h = (ground (arith, e, h.0), All-rename k l es e h.1)

set_seen-IsKeyed : (folder n : ℕ) (es : List Seen) → IsKeyed es → IsKeyed (set_seen folder n es)
unfolding set_seen
set_seen-IsKeyed folder n [] h = (tt, tt)
set_seen-IsKeyed folder n (e ∷ es) h = elim (Bool-cases (e.folder == folder)) [
  | inl same ↦ rw same (All-rename e.folder folder es (ground (arith, same)) h.0, h.1)
  | inr other ↦ rw other (
    All-set_seen e.folder folder n es (ground (arith, other)) h.0,
    set_seen-IsKeyed folder n es h.1,
  )
]

All-seen_of :
    (e : Seen) (es ds : List Seen)
    → All (λ d. d.folder ≢ e.folder) ds
    → All (λ d. seen_of d.folder es ≡ d.sequence) ds
    → All (λ d. seen_of d.folder (e ∷ es) ≡ d.sequence) ds
unfolding seen_of
All-seen_of e es [] h k = tt
All-seen_of e es (d ∷ ds) h k = (ground (arith, h.0, k.0), All-seen_of e es ds h.1 k.1)

-- Each entry is the one that a search for its folder finds.
pub keyed-seen_of : (es : List Seen) → IsKeyed es → All (λ e. seen_of e.folder es ≡ e.sequence) es
unfolding seen_of
keyed-seen_of [] h = tt
keyed-seen_of (e ∷ es) h = (ground arith, All-seen_of e es es h.0 (keyed-seen_of es h.1))

range_empty : (lower upper : ℕ) (fs : List FileInfo) → upper < lower → range lower upper fs ≡ []
unfolding range
range_empty lower upper [] h = refl
range_empty lower upper (f ∷ fs) h = ground (arith, h, range_empty lower upper fs h)

pub unseen-IsOrdered : (fi : FolderInfo) (n : ℕ) → IsOrdered fi.files → IsOrdered (unseen fi n)
unfolding unseen range
unseen-IsOrdered fi n h =
    keep_if-IsOrdered (λ f. leb (n + 1) f.sequence && leb f.sequence fi.max_sequence) fi.files h

unseen_rest :
    (fi : FolderInfo) (n : ℕ) (f : FileInfo) (fs : List FileInfo)
    → IsOrdered fi.files
    → unseen fi n ≡ f ∷ fs
    → unseen fi f.sequence ≡ fs
unfolding unseen
unseen_rest fi n f fs o e = (range-rest (n + 1) fi.max_sequence f fs fi.files o e).1

-- An entry without unseen files adds nothing to what the rest of the list gives.
extend-IsGiven :
    (infos : ℕ → FolderInfo) (e : Seen) (es : List Seen) (before after : Streamer)
    (u : Option Update)
    → unseen (infos e.folder) e.sequence ≡ []
    → IsGiven infos es before after u
    → IsGiven infos (e ∷ es) before after u
extend-IsGiven infos e es before after none h g = ((h, g.0), g.1, g.2)
extend-IsGiven infos e es before after (some u) h g = g

keep_rest-IsStreamed :
    (infos : ℕ → FolderInfo) (folder : ℕ) (files : List FileInfo) (es : List Seen)
    → IsOrdered files
    → unseen (infos folder) (seen_of folder es) ≡ files
    → IsStreamed infos (keep_rest folder files none) es
unfolding keep_rest
keep_rest-IsStreamed infos folder [] es o h = tt
keep_rest-IsStreamed infos folder (f ∷ fs) es o h = put_all-ordered (f ∷ fs) o ∙ sym h

give_first-IsGiven :
    (infos : ℕ → FolderInfo) (e : Seen) (es all : List Seen) (files : List FileInfo)
    (rest : Streamer × Option Update)
    → ((folder : ℕ) → IsOrdered (infos folder).files)
    → IsKeyed all
    → seen_of e.folder all ≡ e.sequence
    → unseen (infos e.folder) e.sequence ≡ files
    → IsGiven infos es (record { seen_info = all; streaming = none }) rest.0 rest.1
    → IsGiven infos
        (e ∷ es)
        (record { seen_info = all; streaming = none })
        (give_first e files (record { seen_info = all; streaming = none }) rest).0
        (give_first e files (record { seen_info = all; streaming = none }) rest).1
unfolding give_first
give_first-IsGiven infos e es all [] rest o k s h g =
    extend-IsGiven infos e es (record { seen_info = all; streaming = none }) rest.0 rest.1 h g
give_first-IsGiven infos e es all (f ∷ fs) rest o k s h g =
    let fi = infos e.folder in
    let now = seen_of-set_seen e.folder f.sequence all in
    let left : unseen fi (seen_of e.folder (set_seen e.folder f.sequence all)) ≡ fs =
      ap (unseen fi) now ∙ unseen_rest fi e.sequence f fs (o e.folder) h in
    (
      ap (unseen fi) s ∙ (h ∙ ap (λ t. f ∷ t) (sym left)),
      record {
        keyed = set_seen-IsKeyed e.folder f.sequence all k;
        streamed =
            keep_rest-IsStreamed infos e.folder fs (set_seen e.folder f.sequence all)
              (subst IsOrdered (unseen_rest fi e.sequence f fs (o e.folder) h)
                (unseen-IsOrdered fi f.sequence (o e.folder)))
              left;
      },
      now,
      λ other ne. seen_of-set_seen_ne e.folder f.sequence other all ne,
      ap (λ n. n == 0) (sym s),
    )

scan-IsGiven :
    (infos : ℕ → FolderInfo) (es all : List Seen)
    → ((folder : ℕ) → IsOrdered (infos folder).files)
    → IsKeyed all
    → All (λ e. seen_of e.folder all ≡ e.sequence) es
    → IsGiven infos es
        (record { seen_info = all; streaming = none })
        (scan infos es (record { seen_info = all; streaming = none })).0
        (scan infos es (record { seen_info = all; streaming = none })).1
unfolding scan unseen
scan-IsGiven infos [] all o k s = (tt, record { keyed = k; streamed = tt }, refl)
scan-IsGiven infos (e ∷ es) all o k s =
    let self : Streamer = record { seen_info = all; streaming = none } in
    let rest = scan-IsGiven infos es all o k s.1 in
    elim (Bool-cases (ltb e.sequence (infos e.folder).max_sequence)) [
      | inl behind ↦ rw behind (
          give_first-IsGiven infos e es all (unseen (infos e.folder) e.sequence)
            (scan infos es self) o k s.0 refl rest)
      | inr done ↦ rw done (
          extend-IsGiven infos e es self (scan infos es self).0 (scan infos es self).1
            (range_empty (e.sequence + 1) (infos e.folder).max_sequence (infos e.folder).files
              (ground (arith, done)))
            rest)
    ]

same_seen :
    (infos : ℕ → FolderInfo) (es seen : List Seen) (streaming : Option Streaming) (after : Streamer)
    (u : Option Update)
    → IsGiven infos es (record { seen_info = seen; streaming = none }) after u
    → IsGiven infos es (record { seen_info = seen; streaming = streaming }) after u
same_seen infos es seen streaming after none g = g
same_seen infos es seen streaming after (some u) g = g

next_streaming-IsGiven :
    (infos : ℕ → FolderInfo) (folder : ℕ) (es : List Seen) (files : List FileInfo)
    → ((folder : ℕ) → IsOrdered (infos folder).files)
    → IsKeyed es
    → unseen (infos folder) (seen_of folder es) ≡ files
    → (streaming : Option Streaming)
    → IsGiven infos es
        (record { seen_info = es; streaming = streaming })
        (next_streaming infos folder files (record { seen_info = es; streaming = streaming })).0
        (next_streaming infos folder files (record { seen_info = es; streaming = streaming })).1
unfolding next_streaming
next_streaming-IsGiven infos folder es [] o k h streaming =
    same_seen infos es es streaming (scan infos es (record { seen_info = es; streaming = none })).0
      (scan infos es (record { seen_info = es; streaming = none })).1
      (scan-IsGiven infos es es o k (keyed-seen_of es k))
next_streaming-IsGiven infos folder es (f ∷ fs) o k h streaming =
    let fi = infos folder in
    let now = seen_of-set_seen folder f.sequence es in
    let left : unseen fi (seen_of folder (set_seen folder f.sequence es)) ≡ fs =
      ap (unseen fi) now ∙ unseen_rest fi (seen_of folder es) f fs (o folder) h in
    let ordered : IsOrdered (f ∷ fs) =
      subst IsOrdered h (unseen-IsOrdered fi (seen_of folder es) (o folder)) in
    (
      h ∙ ap (λ t. f ∷ t) (sym left),
      record {
        keyed = set_seen-IsKeyed folder f.sequence es k;
        streamed = remove-first f fs ordered ∙ sym left;
      },
      now,
      λ other ne. seen_of-set_seen_ne folder f.sequence other es ne,
      refl,
    )

next_at :
    (infos : ℕ → FolderInfo) (es : List Seen) (streaming : Option Streaming)
    → ((folder : ℕ) → IsOrdered (infos folder).files)
    → IsKeyed es
    → IsStreamed infos streaming es
    → IsGiven infos es
        (record { seen_info = es; streaming = streaming })
        (next infos (record { seen_info = es; streaming = streaming })).0
        (next infos (record { seen_info = es; streaming = streaming })).1
unfolding next
next_at infos es none o k h = scan-IsGiven infos es es o k (keyed-seen_of es k)
next_at infos es (some s) o k h =
    next_streaming-IsGiven infos s.folder es s.unseen_files o k (sym h) (some s)

-- Where the files of every folder are ordered by their keys and the streamer is sound, a call of
-- `next` gives the first unseen file of some folder: the unseen files of that folder are the given
-- one and those that stay unseen, the number seen is that of the file, and nothing changes for
-- other folders. It gives nothing only if no listed folder has an unseen file, and keeps the
-- streamer sound.
pub next-IsGiven :
    (infos : ℕ → FolderInfo) (self : Streamer)
    → ((folder : ℕ) → IsOrdered (infos folder).files)
    → IsSound infos self
    → IsGiven infos self.seen_info self (next infos self).0 (next infos self).1
next-IsGiven infos self o s = next_at infos self.seen_info self.streaming o s.keyed s.streamed
