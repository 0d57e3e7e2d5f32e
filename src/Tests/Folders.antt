-- ===== src/Tests/Folders.antt =====
-- Runs of model/file_info.cpp (`file_infos_map_t`), model/folder_info.cpp, model/misc/lru_cache.hpp,
-- model/device_state.cpp, model/misc/updates_streamer.cpp,
-- model/misc/block_iterator.cpp and model/folder.cpp.
use syncspirit.Prelude.{
  inr, ℕ, ◌≤◌, ◌≡◌, ◌≢◌, refl, if◌then◌else◌, ◌==◌, true, false, List, [], ◌∷◌, some, none, arith,
}
use syncspirit.File.{FileInfo, blocks}
use syncspirit.BlockIterator.{BlockIterator}
use syncspirit.BlockIterator.Missing.{IsReady, missing_from}
use syncspirit.FileMap.{FolderInfo, add_strict, add_relaxed, collides}
use syncspirit.FileMap.Order.{IsOrdered, AtMostOne, IsFound}
use syncspirit.Prelude.Find.{keep_if}
use syncspirit.FileMap.Sequence.{add-IsSound}
use syncspirit.FileMap.Sequence
use syncspirit.MruList.{Item, MruList}
use syncspirit.MruList.Recent.{put-IsSound, get-IsSound, IsPut, IsGet}
use syncspirit.MruList.Recent
use syncspirit.DeviceState.{
  connecting, online, Url, DeviceState, make_offline, to_connecting, tcp, relay, run, moved, rank,
}
use syncspirit.DeviceState.Life.{
  weight, less-weight, Reachable, start, step, Reachable-IsSound, run-can_roollback_to,
}
use syncspirit.DeviceState.Life
use syncspirit.UpdatesStreamer.{Streamer, on_update, seen_of}
use syncspirit.UpdatesStreamer.Added.{Accepts, Streams, on_update-IsSound}
use syncspirit.UpdatesStreamer.Next.{IsGiven, next-IsGiven}
use syncspirit.UpdatesStreamer.Next
use syncspirit.Prelude.Int.{pos}
use syncspirit.FolderScan.{FolderScan}
use syncspirit.Tests.Resolving.{file_at}

abbrev first : FileInfo
first = file_at 1 10 (record { counters = [] })

abbrev second : FileInfo
second = record (file_at 2 20 (record { counters = [] })) { name = b'c' ∷ []; sequence = 4 }

abbrev both : List FileInfo
both = first ∷ second ∷ []

abbrev changed : FileInfo
changed = record second { sequence = 7 }

both-IsOrdered : IsOrdered both
both-IsOrdered = ((omega arith, tt), (refl, tt), (tt, tt, tt))

abbrev held : FolderInfo
held = record { device = 0; index = 9; max_sequence = 4; files = both }

held-IsSound : Sequence.IsSound held
held-IsSound = record { ordered = both-IsOrdered; within = (omega arith, (omega arith, tt)) }

add-IsSound_example :
    Sequence.IsSound (add_strict changed held).0
    × ((add_strict changed held).1 ≡ true)
    × ((add_strict changed held).1 ≡ true → (add_strict changed held).0.max_sequence ≡ 7)
    × ((add_strict changed held).1 ≡ false → (add_strict changed held).0 ≡ held)
    × Sequence.IsSound (add_relaxed changed held)
    × (4 ≤ (add_relaxed changed held).max_sequence)
    × ((add_strict changed held).1 ≡ true
        → AtMostOne (keep_if (collides changed) held.files)
        → IsFound changed (add_strict changed held).0.files)
    × (AtMostOne (keep_if (collides changed) held.files)
        → IsFound changed (add_relaxed changed held).files)
add-IsSound_example = add-IsSound changed held held-IsSound

-- Two items in a list that holds two.
abbrev recent : MruList
recent = record {
  il = record { key = 1; value = 10 } ∷ record { key = 2; value = 20 } ∷ [];
  max_items = 2;
}

recent-IsSound : Recent.IsSound recent
recent-IsSound = record { unique = (((λ e. omega arith), tt), (tt, tt)); bounded = omega arith }

abbrev newer : Item
newer = record { key = 3; value = 30 }

abbrev direct : Url
direct = record { scheme = tcp; port_number = 22000; text = tcp }

abbrev over_relay : Url
over_relay = record { scheme = relay; port_number = 443; text = relay }

abbrev online_at : Url → DeviceState
online_at url = record { token = 1; connection_state = online; online_url = some url }

abbrev dialled : DeviceState
dialled = record { token = 1; connection_state = connecting; online_url = none }

dialled-Reachable : Reachable (make_offline 0).1 dialled
unfolding make_offline run moved rank
dialled-Reachable =
    step (make_offline 0).1 (make_offline 0).1 dialled to_connecting (start (make_offline 0).1) refl

Reachable-IsSound_example : Life.IsSound dialled × (dialled.token ≡ (make_offline 0).1.token)
Reachable-IsSound_example = Reachable-IsSound 0 dialled dialled-Reachable

-- A peer that has seen nothing of the folder yet.
abbrev sender : Streamer
sender = record { seen_info = record { folder = 3; sequence = 0 } ∷ []; streaming = none }

sender-IsSound : Next.IsSound (λ folder. held) sender
sender-IsSound = record { keyed = (tt, tt); streamed = tt }

abbrev folders_after : ℕ → FolderInfo
folders_after folder = if folder == 3 then (add_strict changed held).0 else held

held-Accepts : Accepts held changed
held-Accepts = record {
  ordered = both-IsOrdered;
  within = (omega arith, (omega arith, tt));
  above = omega arith;
  alone = tt;
}

folders_after_others : (other : ℕ) → other ≢ 3 → folders_after other ≡ held
folders_after_others other h = let apart : (other == 3) ≡ false = ground (arith, h) in rw apart refl

on_update-IsSound_example :
    Next.IsSound folders_after (on_update folders_after changed 3 sender).0
    × ((on_update folders_after changed 3 sender).1 ≡ true
        → Streams 3 (on_update folders_after changed 3 sender).0.streaming)
unfolding seen_of
on_update-IsSound_example =
    on_update-IsSound (λ folder. held) folders_after changed 3 sender held-Accepts refl
      folders_after_others (omega arith) sender-IsSound

-- A file of two blocks, of which the second is missing.
abbrev halved : FileInfo
halved = record first {
  content =
      blocks
        (record { block = some 5; local = true } ∷ record { block = some 6; local = false } ∷ []);
}

abbrev at_second : BlockIterator
at_second = record { i = 1; sequence = 1 }

at_second-IsReady : IsReady halved at_second
unfolding missing_from
at_second-IsReady = inr (omega arith, refl)

abbrev idle : FolderScan
idle = record {
  scan_start = none;
  scan_finish = none;
  synchronizing = pos 0;
  suspended = false;
  suspend_reason = none;
}
