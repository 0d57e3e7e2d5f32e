-- ===== src/UpdatesStreamer.antt =====
-- model/misc/updates_streamer.cpp: the files of the own device that a peer has not been sent yet. A
-- folder stands for what the own device has of it (`folder_info_t`) and is known by its address;
-- `infos` reads it, as other code changes it. The list of seen numbers is the hash map in the order
-- of its iteration.
pub mod Ranges
pub mod Next
pub mod Replaced
pub mod Added
use syncspirit.Prelude.{
  ℕ, zero, suc, ◌+◌, Bool, true, false, not, ◌&&◌, List, [], ◌∷◌, Option, none, some, if◌then◌else◌,
  ltb, ◌==◌, max,
}
use syncspirit.File.{FileInfo}
use syncspirit.FileMap.{FolderInfo, put, remove, range}

-- An entry of `seen_info`.
pub record Seen : Type 0 where
  pub folder : ℕ
  pub sequence : ℕ

pub record Streaming : Type 0 where
  pub folder : ℕ
  pub unseen_files : List FileInfo

pub record Streamer : Type 0 where
  pub seen_info : List Seen
  pub streaming : Option Streaming

-- `update_t`
pub record Update : Type 0 where
  pub file : FileInfo
  pub folder : ℕ
  pub initial : Bool

-- `seen_info[folder]`: a missing entry reads 0, and a write adds one.
unfoldable pub seen_of : ℕ → List Seen → ℕ
seen_of folder [] = 0
seen_of folder (e ∷ es) = if e.folder == folder then e.sequence else seen_of folder es

unfoldable pub set_seen : ℕ → ℕ → List Seen → List Seen
set_seen folder sequence [] = record { folder = folder; sequence = sequence } ∷ []
set_seen folder sequence (e ∷ es) =
    if e.folder == folder
    then record { folder = folder; sequence = sequence } ∷ es
    else e ∷ set_seen folder sequence es

-- The loops that fill a new container.
unfoldable pub put_all : List FileInfo → List FileInfo → List FileInfo
put_all [] files = files
put_all (f ∷ fs) files = put_all fs (put f true files)

-- `range(seen + 1, max)` of a folder.
unfoldable pub unseen : FolderInfo → ℕ → List FileInfo
unseen fi sequence = range (sequence + 1) fi.max_sequence fi.files

-- The files behind the first one are kept for the next calls, if there are any.
unfoldable pub keep_rest : ℕ → List FileInfo → Option Streaming → Option Streaming
keep_rest folder [] streaming = streaming
keep_rest folder (f ∷ fs) streaming =
    some (record { folder = folder; unseen_files = put_all (f ∷ fs) [] })

unfoldable pub give_first :
    Seen → List FileInfo → Streamer → Streamer × Option Update → Streamer × Option Update
unfolding keep_rest
give_first e [] self rest = rest
give_first e (file ∷ files) self rest = (
  record {
    seen_info = set_seen e.folder file.sequence self.seen_info;
    streaming = keep_rest e.folder files self.streaming;
  },
  some (record { file = file; folder = e.folder; initial = e.sequence == 0 }),
)

-- The loop of `next` over the folders.
unfoldable pub scan : (ℕ → FolderInfo) → List Seen → Streamer → Streamer × Option Update
unfolding give_first unseen
scan infos [] self = (self, none)
scan infos (e ∷ es) self =
    let rest = scan infos es self in
    if ltb e.sequence (infos e.folder).max_sequence
    then give_first e (unseen (infos e.folder) e.sequence) self rest
    else rest

unfoldable pub next_streaming :
    (ℕ → FolderInfo) → ℕ → List FileInfo → Streamer → Streamer × Option Update
unfolding scan
next_streaming infos folder [] self = scan infos self.seen_info (record self { streaming = none })
next_streaming infos folder (file ∷ files) self = (
  record {
    seen_info = set_seen folder file.sequence self.seen_info;
    streaming = some (record { folder = folder; unseen_files = remove file (file ∷ files) });
  },
  some (record { file = file; folder = folder; initial = seen_of folder self.seen_info == 0 }),
)

unfoldable pub next : (ℕ → FolderInfo) → Streamer → Streamer × Option Update
unfolding next_streaming
next infos self = elim self.streaming [
  | none ↦ scan infos self.seen_info self
  | some s ↦ next_streaming infos s.folder s.unseen_files self
]

-- The loop of `on_update` over the folders.
unfoldable pub begin_streaming : (ℕ → FolderInfo) → ℕ → List Seen → Option Streaming
begin_streaming infos folder [] = none
begin_streaming infos folder (e ∷ es) =
    let rest = begin_streaming infos folder es in
    if e.folder == folder
    then some
        (record { folder = folder; unseen_files = put_all (unseen (infos folder) e.sequence) [] })
    else rest

-- What the loop found is streamed from now on.
unfoldable pub begin_found : Option Streaming → Streamer → Streamer × Bool
begin_found none self = (self, false)
begin_found (some s) self = (record self { streaming = some s }, true)

unfoldable pub on_update : (ℕ → FolderInfo) → FileInfo → ℕ → Streamer → Streamer × Bool
unfolding begin_streaming begin_found
on_update infos file folder self = elim self.streaming [
  | none ↦ begin_found (begin_streaming infos folder self.seen_info) self
  | some s ↦
      if s.folder == folder
      then (
        record self { streaming = some (record s { unseen_files = put file true s.unseen_files }) },
        true,
      )
      else (self, false)
]

-- What a peer has told of the own files in a folder.
pub record RemoteView : Type 0 where
  pub index_id : ℕ
  pub max_sequence : ℕ

-- A folder of the cluster, as far as `refresh_remote` reads it: the address of what the own device
-- has of it, whether the folder only receives, whether it is shared with the peer, and the view of
-- the peer on it.
pub record Folder : Type 0 where
  pub local_folder : ℕ
  pub receives : Bool
  pub is_shared : Bool
  pub remote_view : Option RemoteView

abbrev pub is_sent : Folder → Bool
is_sent folder = not folder.receives && folder.is_shared

-- `seen`: a view of another index counts for nothing.
unfoldable pub seen_in : FolderInfo → RemoteView → ℕ → ℕ
seen_in fi view previously_seen =
    max (if view.index_id == fi.index then view.max_sequence else 0) previously_seen

-- The loop over the folders, as far as it fills `seen_info`.
unfoldable pub refresh_seen : (ℕ → FolderInfo) → List Seen → List Folder → List Seen → List Seen
unfolding seen_in
refresh_seen infos prev_seen [] seen_info = seen_info
refresh_seen infos prev_seen (folder ∷ folders) seen_info = refresh_seen infos prev_seen folders (
    if is_sent folder
    then elim folder.remote_view [
      | none ↦ seen_info
      | some view ↦
          set_seen folder.local_folder
            (seen_in (infos folder.local_folder) view (seen_of folder.local_folder prev_seen))
            seen_info
    ]
    else seen_info)

-- The same loop, as far as it looks for the folder that is streamed: the last one counts.
unfoldable pub streaming_folder : ℕ → List Folder → Option Folder
streaming_folder folder [] = none
streaming_folder folder (f ∷ fs) = elim (streaming_folder folder fs) [
  | some g ↦ some g
  | none ↦ if is_sent f && (f.local_folder == folder) then some f else none
]

-- What stays of the streaming: a folder that is no longer sent, or of which the peer has a view of
-- another index, is dropped.
unfoldable pub refresh_streaming :
    (ℕ → FolderInfo) → List Folder → Option Streaming → Option Streaming
unfolding streaming_folder
refresh_streaming infos folders none = none
refresh_streaming infos folders (some s) = elim (streaming_folder s.folder folders) [
  | none ↦ none
  | some folder ↦ elim folder.remote_view [
    | none ↦ some s
    | some view ↦ if view.index_id == (infos s.folder).index then some s else none
  ]
]

unfoldable pub refresh_remote : (ℕ → FolderInfo) → List Folder → Streamer → Streamer
unfolding refresh_seen refresh_streaming
refresh_remote infos folders self = record {
  seen_info = refresh_seen infos self.seen_info folders [];
  streaming = refresh_streaming infos folders self.streaming;
}
