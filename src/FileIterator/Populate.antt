-- ===== src/FileIterator/Populate.antt =====
-- model/misc/file_iterator.cpp: which files `populate` leaves in a queue.
use syncspirit.Prelude.{
  ℕ, ◌<◌, ◌≡◌, ◌⊎◌, Bool, true, false, not, ◌&&◌, List, [], if◌then◌else◌, leb, ltb, ◌==◌,
}
use syncspirit.Prelude.Find.{All, Any, keep_if}
use syncspirit.File.{FileInfo}
use syncspirit.FileIterator.{World, PullOrder, FolderIterator, decide, is_ignored, queue_less}

-- The entry was queued before, under the same index.
abbrev pub Stays : World → FolderIterator → ℕ → Type 0
Stays w fi a =
    (((w.folders fi.folder).peer_folder.index == fi.seen_index) ≡ true)
    × Any (λ b. b ≡ a) fi.files_queue

-- The entry is a file of the peer beyond the sequence number seen so far, which is not ignored.
abbrev pub Arrives : World → FolderIterator → ℕ → Type 0
Arrives w fi a =
    (f : FileInfo) × Any (λ g. g ≡ f) (w.folders fi.folder).peer_folder.files
    × (f.address ≡ a)
    × (fi.seen_sequence < f.sequence)
    × (is_ignored (decide w fi.folder f) ≡ false)

-- The entry, or one that the order of the folder does not tell apart from it.
abbrev pub IsLike : World → PullOrder → ℕ → ℕ → Type 0
IsLike w order a b = (b ≡ a) ⊎ ((queue_less w order a b ≡ false) × (queue_less w order b a ≡ false))

-- A file of the peer that is to be queued: beyond the sequence number seen so far, up to the last one
-- that the folder counts, and not ignored.
abbrev pub is_due : World → FolderIterator → FileInfo → Bool
is_due w fi f =
    ltb fi.seen_sequence f.sequence
    && (leb f.sequence (w.folders fi.folder).peer_folder.max_sequence
        && not (is_ignored (decide w fi.folder f)))

-- What a queue holds after `populate`: nothing but what it held, or a file that arrives; all of what
-- it held under an unchanged index; and each file that is due, or one like it.
pub record Populated (w : World) (fi : FolderIterator) (queue : List ℕ) : Type 0 where
  pub only : All (λ a. Stays w fi a ⊎ Arrives w fi a) queue
  pub kept :
      All
        (λ a. Any (λ b. b ≡ a) queue)
        (if (w.folders fi.folder).peer_folder.index == fi.seen_index then fi.files_queue else [])
  pub due :
      All
        (λ f. Any (IsLike w fi.pull_order f.address) queue)
        (keep_if (is_due w fi) (w.folders fi.folder).peer_folder.files)
