-- ===== src/Tests/Iterating.antt =====
-- Runs of model/misc/file_iterator.cpp.
use syncspirit.Prelude.{ℕ, ◌+◌, ◌≤◌, ◌≡◌, refl, Bool, true, false, [], ◌∷◌, some, arith}
use syncspirit.Prelude.Find.{All}
use syncspirit.Block.{multi}
use syncspirit.File.{FileInfo}
use syncspirit.File.Wire.{Blocks}
use syncspirit.Resolver.{Platform}
use syncspirit.Resolver
use syncspirit.FileIterator.{World, Folder, alphabetic, FolderIterator, FileIterator, next}
use syncspirit.FileIterator.Next.{Sound, next-Sound}
use syncspirit.FileIterator.Drained.{Checked, next_none}
use syncspirit.FileIterator.Queued.{queued, given, next-queued}
use syncspirit.Tests.Versions.{counter}
use syncspirit.Tests.Resolving.{file_at}

abbrev store : Blocks
store a = record { address = a; hash = a ∷ []; size = 8; counter = 0; file_blocks = multi [] }

abbrev platform : Platform
platform = record {
  symlinks_supported = true;
  path_supported = λ name. true;
  own_name = λ name. name;
  make_conflicting_name = λ file. b'~' ∷ file.name;
}

abbrev queued_file : FileInfo
queued_file = file_at 1 10 (record { counters = counter 5 3 ∷ [] })

-- The own device is 6, and the peer 7 has one file.
abbrev folder_at : ℕ → Folder
folder_at index = record {
  resolving = record { folder_infos = []; ignore_delete = false };
  local_folder = record { device = 6; files = [] };
  peer_folder = record { device = 7; index = index; max_sequence = 30; files = queued_file ∷ [] };
  pull_order = alphabetic;
  is_send = false;
  is_paused = false;
  is_scheduled = false;
  is_suspended = false;
  remote_view = some 3;
}

abbrev world : Bool → World
world locked = record {
  platform = platform;
  files = λ a. queued_file;
  store = store;
  folders = folder_at;
  is_locked = λ name. locked;
}

abbrev iterated : ℕ → FolderIterator
iterated folder = record {
  folder = folder;
  files_queue = queued_file.address ∷ [];
  pull_order = alphabetic;
  seen_index = 2;
  seen_sequence = 0;
  can_receive = true;
}

abbrev two_folders : FileIterator
two_folders = record { folder_index = 1; folders_list = iterated 2 ∷ iterated 3 ∷ [] }

next-Sound_example : Sound (world false) two_folders.folders_list (next (world false) two_folders).1
next-Sound_example = next-Sound (world false) two_folders

next_none_example : All (Checked (world true)) two_folders.folders_list
unfolding next
next_none_example = next_none (world true) two_folders (omega arith) refl

next-queued_example :
    queued (next (world false) two_folders).0.folders_list
      + given (next (world false) two_folders).1
    ≤ queued two_folders.folders_list
next-queued_example = next-queued (world false) two_folders

abbrev later_file : FileInfo
later_file = record queued_file { name = b'z' ∷ [] }

-- The peer's file is given from the folder at the index, and taken out of its queue.
given_from : given (next (world false) two_folders).1 ≡ 1
unfolding next Resolver.resolve Resolver.resolve_in
given_from = refl
