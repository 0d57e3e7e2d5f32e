-- ===== src/ClusterUpdate.antt =====
-- model/diff/peer/cluster_update.cpp: what a cluster configuration of a peer makes of the cluster;
-- here its data. Passes has the passes over the message and Diffs what follows them. Identifiers
-- that the sequencer makes are left out, and so are the fields of a new folder that are constants.
pub mod Passes
pub mod Diffs
pub mod Steps
pub mod Marks
pub mod Spared
pub mod Introduced
pub mod Malformed
use syncspirit.Prelude.{
  ℕ, Bool, true, false, List, [], ◌∷◌, Option, none, some, if◌then◌else◌, ◌==◌, ◌&&◌,
}
use syncspirit.Prelude.Find.{find_if, any_of}
use syncspirit.File.{FileInfo}
use syncspirit.File.Wire.{Blocks, same_text}

pub data Error : Type 0 where
  malformed_url empty_folder_name : Error
  make_dir_error : ℕ → Error

pub data Outcome (A : Type 0) : Type 0 where
  ok : A → Outcome A
  err : Error → Outcome A

infixl 5 ◌>>=◌
abbrev pub ◌>>=◌ : {A B : Type 0} → Outcome A → (A → Outcome B) → Outcome B
ok a >>= f = f a
err e >>= f = err e

-- The message: a device is named by its digest.
pub record ProtoDevice : Type 0 where
  pub id : List ℕ
  pub name : List ℕ
  pub addresses : List (List ℕ)
  pub compression : ℕ
  pub introducer : Bool
  pub skip_introduction_removals : Bool
  pub index_id : ℕ
  pub max_sequence : ℕ

pub record Settings : Type 0 where
  pub ignore_permissions : Bool
  pub ignore_delete : Bool
  pub disable_temp_indexes : Bool
  pub paused : Bool

pub record ProtoFolder : Type 0 where
  pub id : List ℕ
  pub label : List ℕ
  pub settings : Settings
  pub devices : List ProtoDevice

-- The cluster, as far as it is read. The key and the uuid of a folder info are its address; keys of
-- devices are their digests.
pub record FolderInfo : Type 0 where
  pub address : ℕ
  pub device : List ℕ
  pub introducer_device_key : List ℕ
  pub index : ℕ
  pub max_sequence : ℕ
  pub files : List FileInfo

pub record Folder : Type 0 where
  pub id : List ℕ
  pub folder_infos : List FolderInfo

pub record PendingFolder : Type 0 where
  pub key : ℕ
  pub device : List ℕ
  pub id : List ℕ
  pub index : ℕ
  pub max_sequence : ℕ

pub record Cluster : Type 0 where
  pub device : List ℕ
  pub devices : List (List ℕ)
  pub folders : List Folder
  pub pending_folders : List PendingFolder
  pub store : Blocks

-- The peer that sends the message.
pub record Source : Type 0 where
  pub sha256 : List ℕ
  pub has_auto_accept : Bool
  pub is_introducer : Bool
  pub skip_introduction_removals : Bool

-- What other code provides: the directory for a folder below the default path, and whether the text
-- of an address is a url.
pub record Outside : Type 0 where
  pub path_of : List ℕ → List ℕ
  pub create_directories : List ℕ → Option ℕ
  pub is_parsable : List ℕ → Bool

-- What the passes collect.
pub record View : Type 0 where
  pub folder_id : List ℕ
  pub device_id : List ℕ
  pub index_id : ℕ
  pub max_sequence : ℕ

pub record NewFolder : Type 0 where
  pub id : List ℕ
  pub label : List ℕ
  pub path : List ℕ
  pub settings : Settings

pub record NewPending : Type 0 where
  pub id : List ℕ
  pub label : List ℕ
  pub settings : Settings
  pub index_id : ℕ
  pub max_sequence : ℕ
  pub peer_id : List ℕ

pub record IntroducedDevice : Type 0 where
  pub device_id : List ℕ
  pub name : List ℕ
  pub addresses : List (List ℕ)
  pub compression : ℕ
  pub introducer : Bool
  pub skip_introduction_removals : Bool

-- The introducer that the code gives with it is always the peer that sent the message, and is left
-- out.
pub record UpsertedFolderInfo : Type 0 where
  pub folder_id : List ℕ
  pub new_index_id : ℕ
  pub device_id : List ℕ

pub record State : Type 0 where
  pub folder_device_set : List (List ℕ × List ℕ)
  pub remote_views : List View
  pub new_pending_folders : List NewPending
  pub removed_pending_folders : List ℕ
  pub confirmed_pending_folders : List ℕ
  pub confirmed_folders : List ℕ
  pub reset_folders : List ℕ
  pub processed_introduced_devices : List (List ℕ)
  pub seen_devices : List (List ℕ)
  pub introduced_devices : List IntroducedDevice
  pub upserted_folder_infos : List UpsertedFolderInfo
  pub upserted_folders : List NewFolder

abbrev pub start : State
start = record {
  folder_device_set = [];
  remote_views = [];
  new_pending_folders = [];
  removed_pending_folders = [];
  confirmed_pending_folders = [];
  confirmed_folders = [];
  reset_folders = [];
  processed_introduced_devices = [];
  seen_devices = [];
  introduced_devices = [];
  upserted_folder_infos = [];
  upserted_folders = [];
}

abbrev pub has_id : List (List ℕ) → List ℕ → Bool
has_id ids id = any_of (same_text id) ids

abbrev pub has_key : List ℕ → ℕ → Bool
has_key keys key = any_of (λ k. k == key) keys

abbrev pub has_pair : List (List ℕ × List ℕ) → List ℕ → List ℕ → Bool
has_pair pairs folder device =
    any_of (λ (p : List ℕ × List ℕ). same_text folder p.0 && same_text device p.1) pairs

-- `folders.by_id`, and `by_device_id` of the folder infos.
abbrev pub by_id : List ℕ → List Folder → Option Folder
by_id id = find_if (λ folder. same_text folder.id id)

abbrev pub by_device : List ℕ → List FolderInfo → Option FolderInfo
by_device device = find_if (λ fi. same_text fi.device device)

-- The folder info of a device in a folder, if both are there.
abbrev pub info_of : Option Folder → List ℕ → Option FolderInfo
info_of none device = none
info_of (some folder) device = by_device device folder.folder_infos
