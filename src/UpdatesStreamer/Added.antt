-- ===== src/UpdatesStreamer/Added.antt =====
-- model/misc/updates_streamer.cpp: `on_update`, once the file was added to its folder.
use syncspirit.Prelude.{
  ℕ, ◌<◌, ◌≤◌, ◌≡◌, ◌≢◌, refl, ap, sym, subst, ◌∙◌, true, false, List, [], ◌∷◌, Option, none, some,
  arith, ◌==◌, Bool-cases, inl, inr,
}
use syncspirit.Prelude.Find.{keep_if}
use syncspirit.File.{FileInfo}
use syncspirit.FileMap.{FolderInfo, collides, put, add_strict}
use syncspirit.FileMap.Order.{IsOrdered, AtMostOne, put-IsOrdered}
use syncspirit.FileMap.Sequence.{Within}
use syncspirit.UpdatesStreamer.{
  Seen, Streaming, Streamer, seen_of, unseen, begin_streaming, begin_found, on_update,
}
use syncspirit.UpdatesStreamer.Ranges.{put_all-ordered}
use syncspirit.UpdatesStreamer.Next.{IsSound, IsKeyed, IsStreamed, unseen-IsOrdered}
use syncspirit.UpdatesStreamer.Replaced.{add_strict_taken, unseen_added}

seen_of_head :
    (folder : ℕ) (e : Seen) (es : List Seen)
    → (e.folder == folder) ≡ true
    → seen_of folder (e ∷ es) ≡ e.sequence
unfolding seen_of
seen_of_head folder e es h = rw h refl

seen_of_tail :
    (folder : ℕ) (e : Seen) (es : List Seen)
    → (e.folder == folder) ≡ false
    → seen_of folder (e ∷ es) ≡ seen_of folder es
unfolding seen_of
seen_of_tail folder e es h = rw h refl

-- A streaming of the folder, with what is unseen of it.
abbrev IsBegun : (ℕ → FolderInfo) → ℕ → List Seen → Option Streaming → Type 0
IsBegun infos folder es none = Unit
IsBegun infos folder es (some s) =
    (s.folder ≡ folder) × (s.unseen_files ≡ unseen (infos folder) (seen_of folder es))

IsBegun-later :
    (infos : ℕ → FolderInfo) (folder : ℕ) (e : Seen) (es : List Seen) (u : Option Streaming)
    → (e.folder == folder) ≡ false
    → IsBegun infos folder es u
    → IsBegun infos folder (e ∷ es) u
IsBegun-later infos folder e es none h b = tt
IsBegun-later infos folder e es (some s) h b =
    (b.0, b.1 ∙ ap (unseen (infos folder)) (sym (seen_of_tail folder e es h)))

begin_streaming-IsBegun :
    (infos : ℕ → FolderInfo) (folder : ℕ) (es : List Seen)
    → IsOrdered (infos folder).files
    → IsBegun infos folder es (begin_streaming infos folder es)
unfolding begin_streaming
begin_streaming-IsBegun infos folder [] o = tt
begin_streaming-IsBegun infos folder (e ∷ es) o = elim (Bool-cases (e.folder == folder)) [
  | inl same ↦ rw same (
    refl,
    put_all-ordered (unseen (infos folder) e.sequence)
          (unseen-IsOrdered (infos folder) e.sequence o)
        ∙ ap (unseen (infos folder)) (sym (seen_of_head folder e es same)),
  )
  | inr other ↦ rw other (
      IsBegun-later infos folder e es (begin_streaming infos folder es) other
        (begin_streaming-IsBegun infos folder es o))
]

-- Whether the folder is the one that is streamed.
abbrev pub Streams : ℕ → Option Streaming → Type 0
Streams folder none = ⊥
Streams folder (some s) = s.folder ≡ folder

begin_found-IsSound :
    (infos : ℕ → FolderInfo) (folder : ℕ) (es : List Seen) (u : Option Streaming)
    → IsKeyed es
    → IsBegun infos folder es u
    → IsSound infos (begin_found u (record { seen_info = es; streaming = none })).0
      × ((begin_found u (record { seen_info = es; streaming = none })).1 ≡ true
          → Streams folder
              (begin_found u (record { seen_info = es; streaming = none })).0.streaming)
unfolding begin_found
begin_found-IsSound infos folder es none k b = (record { keyed = k; streamed = tt }, λ h. absurd cc)
begin_found-IsSound infos folder es (some s) k b = (
  record { keyed = k; streamed = b.1 ∙ ap (λ d. unseen (infos d) (seen_of d es)) (sym b.0) },
  λ h. b.0,
)

-- The streaming of another folder, and of the folder itself, after a file was added.
kept_result :
    (before after : ℕ → FolderInfo) (file : FileInfo) (folder : ℕ) (es : List Seen) (s : Streaming)
    → unseen (after folder) (seen_of folder es)
      ≡ put file true (unseen (before folder) (seen_of folder es))
    → ((other : ℕ) → other ≢ folder → after other ≡ before other)
    → IsKeyed es
    → IsStreamed before (some s) es
    → IsSound after (on_update after file folder (record { seen_info = es; streaming = some s })).0
      × ((on_update after file folder (record { seen_info = es; streaming = some s })).1 ≡ true
          → Streams folder
              (on_update after file folder
                (record { seen_info = es; streaming = some s })).0.streaming)
unfolding on_update
kept_result before after file folder es s added others k b =
    elim (Bool-cases (s.folder == folder)) [
      | inl same ↦
          let equal : s.folder ≡ folder = ground (arith, same) in
          rw same (
            record {
              keyed = k;
              streamed =
                  ap (put file true) (b ∙ ap (λ d. unseen (before d) (seen_of d es)) equal)
                  ∙ (sym added ∙ ap (λ d. unseen (after d) (seen_of d es)) (sym equal));
            },
            λ h. equal,
          )
      | inr other ↦
          let apart : s.folder ≢ folder = ground (arith, other) in
          rw other (
            record {
              keyed = k;
              streamed =
                  b ∙ ap (λ fi. unseen fi (seen_of s.folder es)) (sym (others s.folder apart));
            },
            λ h. absurd cc,
          )
    ]

on_update_at :
    (before after : ℕ → FolderInfo) (file : FileInfo) (folder : ℕ) (es : List Seen)
    (streaming : Option Streaming)
    → IsOrdered (after folder).files
    → unseen (after folder) (seen_of folder es)
      ≡ put file true (unseen (before folder) (seen_of folder es))
    → ((other : ℕ) → other ≢ folder → after other ≡ before other)
    → IsKeyed es
    → IsStreamed before streaming es
    → IsSound after
        (on_update after file folder (record { seen_info = es; streaming = streaming })).0
      × ((on_update after file folder (record { seen_info = es; streaming = streaming })).1 ≡ true
          → Streams folder
              (on_update after file folder
                (record { seen_info = es; streaming = streaming })).0.streaming)
unfolding on_update
on_update_at before after file folder es none o added others k b =
    begin_found-IsSound after folder es (begin_streaming after folder es) k
      (begin_streaming-IsBegun after folder es o)
on_update_at before after file folder es (some s) o added others k b =
    kept_result before after file folder es s added others k b

-- A folder is sound, and a new file has a number beyond all of its and at most one file in its way.
pub record Accepts (fi : FolderInfo) (file : FileInfo) : Type 0 where
  pub ordered : IsOrdered fi.files
  pub within : Within fi.max_sequence fi.files
  pub above : fi.max_sequence < file.sequence
  pub alone : AtMostOne (keep_if (collides file) fi.files)

-- After a file was added to a folder that accepts it, with the number beyond those of the folder,
-- and no other folder changed, `on_update` keeps a sound streamer sound over the changed folder, of
-- which no more was seen than there was. If it returns true, that folder is the one streamed.
pub on_update-IsSound :
    (before after : ℕ → FolderInfo) (file : FileInfo) (folder : ℕ) (self : Streamer)
    → Accepts (before folder) file
    → after folder ≡ (add_strict file (before folder)).0
    → ((other : ℕ) → other ≢ folder → after other ≡ before other)
    → seen_of folder self.seen_info ≤ (before folder).max_sequence
    → IsSound before self
    → IsSound after (on_update after file folder self).0
      × ((on_update after file folder self).1 ≡ true
          → Streams folder (on_update after file folder self).0.streaming)
on_update-IsSound before after file folder self a changed others seen s =
    on_update_at before after file folder self.seen_info self.streaming
      (subst (λ fi. IsOrdered fi.files)
        (sym (changed ∙ add_strict_taken file (before folder) a.above))
        (put-IsOrdered file (before folder).files a.ordered).0)
      (ap (λ fi. unseen fi (seen_of folder self.seen_info)) changed
        ∙ unseen_added (before folder) file (seen_of folder self.seen_info) seen a.above a.within
            a.alone)
      others s.keyed s.streamed
