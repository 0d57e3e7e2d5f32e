-- ===== src/Tests/ClusterUpdating.antt =====
-- Runs of model/diff/peer/cluster_update.cpp.
use syncspirit.Prelude.{ℕ, ◌≡◌, refl, true, false, List, [], ◌∷◌, none, inl, inr}
use syncspirit.Prelude.Find.{All, Any}
use syncspirit.ClusterUpdate.{
  Outcome, ok, err, ProtoDevice, ProtoFolder, FolderInfo, Folder, Cluster, Source, Outside, start,
  by_id, info_of,
}
use syncspirit.ClusterUpdate.Diffs.{Diff, remove_peer, create, removed}
use syncspirit.ClusterUpdate.Steps.{Holds}
use syncspirit.ClusterUpdate.Spared.{IsSparing, create-IsSparing}
use syncspirit.ClusterUpdate.Introduced.{is_gone, removed-is_gone, create-removes_source}
use syncspirit.ClusterUpdate.Malformed.{create-malformed}
use syncspirit.Tests.Indexes.{store}

-- A digest of 32 equal bytes.
abbrev digest : ℕ → List ℕ
digest c =
    c ∷ c ∷ c ∷ c ∷ c ∷ c ∷ c ∷ c ∷ c ∷ c ∷ c ∷ c ∷ c ∷ c ∷ c ∷ c ∷ c ∷ c ∷ c ∷ c ∷ c ∷ c ∷ c ∷ c
    ∷ c ∷ c ∷ c ∷ c ∷ c ∷ c ∷ c ∷ c ∷ []

abbrev outside : Outside
outside = record {
  path_of = λ label. b'/' ∷ label;
  create_directories = λ label. none;
  is_parsable = λ address. true;
}

abbrev source : Source
source = record {
  sha256 = digest 2;
  has_auto_accept = true;
  is_introducer = true;
  skip_introduction_removals = false;
}

abbrev listed : ℕ → ProtoDevice
listed c = record {
  id = digest c;
  name = [];
  addresses = [];
  compression = 0;
  introducer = false;
  skip_introduction_removals = false;
  index_id = 5;
  max_sequence = 0;
}

abbrev shared_folder : ProtoFolder
shared_folder = record {
  id = b'f' ∷ [];
  label = b'f' ∷ [];
  settings = record {
    ignore_permissions = false;
    ignore_delete = false;
    disable_temp_indexes = false;
    paused = false;
  };
  devices = listed 2 ∷ listed 3 ∷ [];
}

abbrev info_at : ℕ → ℕ → FolderInfo
info_at address c = record {
  address = address;
  device = digest c;
  introducer_device_key = digest 2;
  index = 5;
  max_sequence = 0;
  files = [];
}

-- The own device, the peer and a device that the peer introduced share a folder.
abbrev cluster : Cluster
cluster = record {
  device = digest 1;
  devices = digest 1 ∷ digest 2 ∷ digest 3 ∷ [];
  folders = record { id = b'f' ∷ []; folder_infos = info_at 10 2 ∷ info_at 11 3 ∷ [] } ∷ [];
  pending_folders = [];
  store = store;
}

create-IsSparing_example :
    Holds
      (All (IsSparing (info_of (by_id shared_folder.id cluster.folders) (digest 3)) (digest 3)))
      (create outside cluster source (shared_folder ∷ []))
create-IsSparing_example =
    create-IsSparing outside cluster source (shared_folder ∷ []) shared_folder (listed 3) (inl refl)
      (inr (inl refl)) (refl, refl)

removed-is_gone_example : is_gone (info_at 11 3) (removed cluster source start) ≡ true
removed-is_gone_example =
    removed-is_gone cluster source start (info_at 11 3) (inl (inr (inl refl))) refl (refl, refl)

create-removes_source_example :
    (ds : List Diff) × (create outside cluster source [] ≡ ok ds)
    × Any (λ c. c ≡ remove_peer (digest 2)) ds
unfolding syncspirit.ClusterUpdate.Diffs.unlisted
create-removes_source_example =
    create-removes_source outside cluster source (info_at 10 2) (inl (inl refl)) refl refl refl refl

abbrev malformed_folder : ProtoFolder
malformed_folder = record shared_folder {
  devices = listed 2 ∷ record (listed 3) { id = 3 ∷ [] } ∷ [];
}

create-malformed_example :
    Holds
      (λ (ds : List Diff). ⊥)
      (create outside cluster source (shared_folder ∷ malformed_folder ∷ []))
create-malformed_example =
    create-malformed outside cluster source (shared_folder ∷ malformed_folder ∷ []) malformed_folder
      (record (listed 3) { id = 3 ∷ [] }) (inr (inl refl)) (inr (inl refl)) refl
