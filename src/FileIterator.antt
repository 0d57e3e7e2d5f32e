-- ===== src/FileIterator.antt =====
-- model/misc/file_iterator.cpp: the files of a peer that are to be taken, folder by folder. A queue
-- holds pointers, which are addresses here; `World` is what other code owns and changes. The folder
-- of the peer is named by its folder. The member `it` of a folder is written and never read, and is
-- left out.
pub mod Upsert
pub mod Next
pub mod Drained
pub mod Queued
pub mod Order
pub mod Populate
use syncspirit.Prelude.{
  ℕ, zero, suc, ◌+◌, ◌%◌, Bool, true, false, not, ◌&&◌, ◌||◌, List, [], ◌∷◌, ◌++◌, Option, none,
  some, if◌then◌else◌, ltb, leb, ◌==◌, length, get_elem?, set,
}
use syncspirit.Prelude.Int.{ltb_ℤ}
use syncspirit.File.{FileInfo, file_blocks, is_file}
use syncspirit.File.Wire.{Blocks, get_size}
use syncspirit.FileMap.{FolderInfo}
use syncspirit.Resolver.{
  AdvanceAction, ignore, remote_copy, local_update, resolve_remote_win, Platform, resolve, by_name,
}
use syncspirit.Resolver

pub data PullOrder : Type 0 where
  random alphabetic smallest largest oldest newest : PullOrder

-- A folder, by what the resolver reads of it, what the own device and the peer have of it, and its
-- settings. `remote_view` is the largest sequence number in the view of the peer on itself.
pub record Folder : Type 0 where
  pub resolving : Resolver.Folder
  pub local_folder : Resolver.FolderInfo
  pub peer_folder : FolderInfo
  pub pull_order : PullOrder
  pub is_send : Bool
  pub is_paused : Bool
  pub is_scheduled : Bool
  pub is_suspended : Bool
  pub remote_view : Option ℕ

-- The files by address, the blocks, the folders by address, and the locked names.
pub record World : Type 0 where
  pub platform : Platform
  pub files : ℕ → FileInfo
  pub store : Blocks
  pub folders : ℕ → Folder
  pub is_locked : List ℕ → Bool

-- The place of a byte among the values of `char`, which is signed.
abbrev pub char_key : ℕ → ℕ
char_key c = (c + 128) % 256

-- `std::lexicographical_compare`
unfoldable pub text_less : List ℕ → List ℕ → Bool
text_less s [] = false
text_less [] (d ∷ ds) = true
text_less (c ∷ cs) (d ∷ ds) =
    if ltb (char_key c) (char_key d)
    then true
    else if ltb (char_key d) (char_key c)
    then false
    else text_less cs ds

-- `iterate_blocks().get_total()`
abbrev pub blocks_total : FileInfo → ℕ
blocks_total f = if is_file f then length (file_blocks f) else 0

-- The two tests that the order of the folder makes: whether the left file is before the right one,
-- which is asked both ways.
unfoldable pub ordered_before : PullOrder → Blocks → FileInfo → FileInfo → Bool
ordered_before newest store l r = ltb_ℤ r.modified_s l.modified_s
ordered_before oldest store l r = ltb_ℤ l.modified_s r.modified_s
ordered_before smallest store l r = ltb (get_size store l) (get_size store r)
ordered_before largest store l r = ltb (get_size store r) (get_size store l)
ordered_before random store l r = false
ordered_before alphabetic store l r = false

-- `file_comparator_t`
unfoldable pub file_less : PullOrder → Blocks → FileInfo → FileInfo → Bool
unfolding ordered_before text_less
file_less order store l r =
    let le = blocks_total l == 0 in
    let re = blocks_total r == 0 in
    if le && not re
    then true
    else if re && not le
    then false
    else if ordered_before order store l r
    then true
    else if ordered_before order store r l
    then false
    else text_less l.name r.name

-- `emplace` of `std::set`: a file that is equivalent to one of the queue is not added.
unfoldable pub insert_file : (ℕ → ℕ → Bool) → ℕ → List ℕ → List ℕ
insert_file less a [] = a ∷ []
insert_file less a (b ∷ bs) =
    if less a b then a ∷ b ∷ bs else if less b a then b ∷ insert_file less a bs else b ∷ bs

-- `folder_iterator_t`; the order is that of the comparator in the queue.
pub record FolderIterator : Type 0 where
  pub folder : ℕ
  pub files_queue : List ℕ
  pub pull_order : PullOrder
  pub seen_index : ℕ
  pub seen_sequence : ℕ
  pub can_receive : Bool

pub record FileIterator : Type 0 where
  pub folder_index : ℕ
  pub folders_list : List FolderIterator

abbrev pub queue_less : World → PullOrder → ℕ → ℕ → Bool
queue_less w order a b = file_less order w.store (w.files a) (w.files b)

-- `resolve(file, local_file, local_folder)`, where the local file has the same name.
unfoldable pub decide : World → ℕ → FileInfo → AdvanceAction
decide w folder file =
    let f = w.folders folder in
    resolve w.platform f.resolving f.local_folder file (by_name file.name f.local_folder)

abbrev pub is_ignored : AdvanceAction → Bool
is_ignored ignore = true
is_ignored remote_copy = false
is_ignored local_update = false
is_ignored resolve_remote_win = false

-- The loops that fill a queue with the files that are not ignored.
unfoldable pub fill_queue : World → ℕ → PullOrder → List FileInfo → List ℕ → List ℕ
unfolding decide insert_file
fill_queue w folder order [] queue = queue
fill_queue w folder order (f ∷ fs) queue = fill_queue w folder order fs (
    if is_ignored (decide w folder f)
    then queue
    else insert_file (queue_less w order) f.address queue)

unfoldable pub make_folder_iterator : World → ℕ → FolderIterator
unfolding fill_queue
make_folder_iterator w folder =
    let f = w.folders folder in
    record {
      folder = folder;
      files_queue =
          if f.is_send then [] else fill_queue w folder f.pull_order f.peer_folder.files [];
      pull_order = f.pull_order;
      seen_index = if f.is_send then 0 else f.peer_folder.index;
      seen_sequence = if f.is_send then 0 else f.peer_folder.max_sequence;
      can_receive = not f.is_send;
    }

unfoldable pub prepare_folder : World → ℕ → FileIterator → FileIterator
unfolding make_folder_iterator
prepare_folder w folder it = record it {
  folders_list = it.folders_list ++ make_folder_iterator w folder ∷ [];
}

-- The constructor, over the folders that the own device and the peer share.
unfoldable pub make_iterator : World → List ℕ → FileIterator → FileIterator
unfolding prepare_folder
make_iterator w [] it = it
make_iterator w (folder ∷ folders) it = make_iterator w folders (prepare_folder w folder it)

unfoldable pub do_scan : World → FolderIterator → Bool
do_scan w fi =
    let f = w.folders fi.folder in
    if not f.is_paused
      && (not f.is_scheduled && (not f.is_suspended && not (length fi.files_queue == 0)))
    then elim f.remote_view [
      | none ↦ false
      | some max_sequence ↦ leb max_sequence f.peer_folder.max_sequence
    ]
    else false

-- `result_t`, where there is a file.
pub record Picked : Type 0 where
  pub peer_file : ℕ
  pub peer_folder : ℕ
  pub local_file : Option FileInfo
  pub action : AdvanceAction

-- The inner loop of `next`: what is found, and what is left of the queue.
unfoldable pub pick : World → ℕ → List ℕ → List ℕ × Option Picked
unfolding decide
pick w folder [] = ([], none)
pick w folder (a ∷ rest_files) =
    let rest = pick w folder rest_files in
    if w.is_locked (w.files a).name
    then rest
    else if is_ignored (decide w folder (w.files a))
    then rest
    else (
      rest_files,
      some (record {
        peer_file = a;
        peer_folder = folder;
        local_file = by_name (w.files a).name (w.folders folder).local_folder;
        action = decide w folder (w.files a);
      }),
    )

abbrev pub with_queue : ℕ → FolderIterator → List ℕ → FileIterator → FileIterator
with_queue i fi queue it = record it {
  folders_list = set it.folders_list i (record fi { files_queue = queue });
}

-- `folder_index = (folder_index + 1) % folders_count`
abbrev pub step_index : FileIterator → FileIterator
step_index it = record it { folder_index = (it.folder_index + 1) % length it.folders_list }

-- What follows the inner loop: the file is given, or the next folder is scanned.
unfoldable pub after_pick :
    (FileIterator → FileIterator × Option Picked)
    → FolderIterator
    → FileIterator
    → List ℕ × Option Picked
    → FileIterator × Option Picked
after_pick rest fi it (queue, some p) = (with_queue it.folder_index fi queue it, some p)
after_pick rest fi it (queue, none) = rest (step_index (with_queue it.folder_index fi queue it))

-- The outer loop of `next`, over the folders that are left to be scanned.
unfoldable pub next_folders : World → ℕ → FileIterator → FileIterator × Option Picked
unfolding pick do_scan after_pick
next_folders w zero it = (it, none)
next_folders w (suc left) it = elim (get_elem? it.folders_list it.folder_index) [
  | none ↦ (it, none)
  | some fi ↦
      if do_scan w fi
      then after_pick (next_folders w left) fi it (pick w fi.folder fi.files_queue)
      else next_folders w left (step_index it)
]

unfoldable pub next : World → FileIterator → FileIterator × Option Picked
unfolding next_folders
next w it = next_folders w (length it.folders_list) it
