-- ===== src/FileIterator/Upsert.antt =====
-- model/misc/file_iterator.cpp: what the iterator does when a folder of the peer, a folder or a file
-- changes. The folder of the peer is named by its folder.
use syncspirit.Prelude.{
  ℕ, ◌+◌, Bool, true, false, not, ◌&&◌, List, [], ◌∷◌, Option, none, some, if◌then◌else◌, ◌==◌,
}
use syncspirit.File.{FileInfo}
use syncspirit.FileMap.{range}
use syncspirit.FileIterator.{
  World, PullOrder, random, alphabetic, smallest, largest, oldest, newest, FolderIterator,
  FileIterator, fill_queue, insert_file, queue_less, decide, is_ignored, prepare_folder,
}

-- The local `seen_sequence` is read before a changed index sets the member to 0.
unfoldable pub populate : World → FolderIterator → FolderIterator
unfolding fill_queue
populate w fi =
    let peer_folder = (w.folders fi.folder).peer_folder in
    let kept = if peer_folder.index == fi.seen_index then fi.files_queue else [] in
    record fi {
      files_queue =
          fill_queue w fi.folder fi.pull_order
            (range (fi.seen_sequence + 1) peer_folder.max_sequence peer_folder.files) kept;
      seen_sequence = peer_folder.max_sequence;
    }

-- The loop of `on_upsert(folder_info)`: the folders with the first match populated, if there is one.
unfoldable pub populate_first : World → ℕ → List FolderIterator → Option (List FolderIterator)
unfolding populate
populate_first w folder [] = none
populate_first w folder (fi ∷ fis) =
    if fi.folder == folder && fi.can_receive
    then some (populate w fi ∷ fis)
    else elim (populate_first w folder fis) [ none ↦ none | some rest ↦ some (fi ∷ rest) ]

unfoldable pub on_upsert_info : World → ℕ → FileIterator → FileIterator
unfolding populate_first prepare_folder
on_upsert_info w folder it = elim (populate_first w folder it.folders_list) [
  | none ↦ prepare_folder w folder it
  | some folders_list ↦ record it { folders_list = folders_list }
]

unfoldable pub reorder : (ℕ → ℕ → Bool) → List ℕ → List ℕ → List ℕ
unfolding insert_file
reorder less [] queue = queue
reorder less (a ∷ rest_files) queue = reorder less rest_files (insert_file less a queue)

unfoldable pub same_order : PullOrder → PullOrder → Bool
same_order random random = true
same_order alphabetic alphabetic = true
same_order smallest smallest = true
same_order largest largest = true
same_order oldest oldest = true
same_order newest newest = true
same_order _ _ = false

-- The body of the loop of `on_upsert(folder)`.
unfoldable pub upsert_folder : World → FolderIterator → FolderIterator
unfolding reorder populate same_order
upsert_folder w fi =
    let f = w.folders fi.folder in
    if f.is_send
    then record fi {
      files_queue = if fi.can_receive then [] else fi.files_queue;
      can_receive = false;
    }
    else if not fi.can_receive
    then record (populate w (record fi { seen_sequence = 0 })) { can_receive = true }
    else if same_order fi.pull_order f.pull_order
    then fi
    else record fi {
      files_queue = reorder (queue_less w f.pull_order) fi.files_queue [];
      pull_order = f.pull_order;
    }

unfoldable pub upsert_folders : World → ℕ → List FolderIterator → List FolderIterator
unfolding upsert_folder
upsert_folders w folder [] = []
upsert_folders w folder (fi ∷ fis) =
    (if fi.folder == folder then upsert_folder w fi else fi) ∷ upsert_folders w folder fis

unfoldable pub on_upsert : World → ℕ → FileIterator → FileIterator
unfolding upsert_folders
on_upsert w folder it = record it { folders_list = upsert_folders w folder it.folders_list }

unfoldable pub remove_first : ℕ → List FolderIterator → Option (List FolderIterator)
remove_first folder [] = none
remove_first folder (fi ∷ fis) =
    if fi.folder == folder
    then some fis
    else elim (remove_first folder fis) [ none ↦ none | some rest ↦ some (fi ∷ rest) ]

unfoldable pub on_remove : ℕ → FileIterator → FileIterator
unfolding remove_first
on_remove folder it = elim (remove_first folder it.folders_list) [
  | none ↦ it
  | some folders_list ↦ record { folder_index = 0; folders_list = folders_list }
]

-- The loop of `recheck`, which ends at the first match.
unfoldable pub recheck_first : World → ℕ → FileInfo → List FolderIterator → List FolderIterator
unfolding decide insert_file
recheck_first w folder remote [] = []
recheck_first w folder remote (fi ∷ fis) =
    if fi.folder == folder
    then (if fi.can_receive && not (is_ignored (decide w folder remote))
        then record fi {
          files_queue = insert_file (queue_less w fi.pull_order) remote.address fi.files_queue;
        }
        else fi)
      ∷ fis
    else fi ∷ recheck_first w folder remote fis

unfoldable pub recheck : World → ℕ → FileInfo → FileIterator → FileIterator
unfolding recheck_first
recheck w folder remote it = record it {
  folders_list = recheck_first w folder remote it.folders_list;
}
