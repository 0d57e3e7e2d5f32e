-- ===== src/ClusterUpdate/Diffs.antt =====
-- model/diff/peer/cluster_update.cpp: what is removed after the passes, and the child diffs in their
-- order. Of `upsert_folder_t`, `remove_peer_t` and the like only what they are made of is kept.
use syncspirit.Prelude.{
  ℕ, Bool, not, ◌&&◌, List, [], ◌∷◌, ◌++◌, none, some, if◌then◌else◌, ◌==◌, map,
}
use syncspirit.Prelude.Find.{keep_if}
use syncspirit.File.{FileInfo}
use syncspirit.File.Wire.{same_text}
use syncspirit.OrphanedBlocks.{record_file, deduce}
use syncspirit.ClusterUpdate.{
  Outcome, ok, ◌>>=◌, ProtoFolder, FolderInfo, Folder, PendingFolder, Cluster, Source, Outside,
  View, NewFolder, NewPending, IntroducedDevice, UpsertedFolderInfo, State, start, has_id, has_key,
  info_of,
}
use syncspirit.ClusterUpdate.Passes.{passes}

-- The pending folders of the peer that the message did not confirm.
unfoldable pub unconfirmed : Source → List ℕ → List PendingFolder → List ℕ
unconfirmed source confirmed [] = []
unconfirmed source confirmed (uf ∷ ufs) =
    let rest = unconfirmed source confirmed ufs in
    if not (same_text uf.device source.sha256)
    then rest
    else if has_key confirmed uf.key
    then rest
    else uf.key ∷ rest

-- The folder infos of the peer that the message does not list, and that have had files; they are
-- removed and shared anew.
unfoldable pub unlisted : Source → List ℕ → List Folder → List FolderInfo
unlisted source confirmed [] = []
unlisted source confirmed (folder ∷ folders) =
    let rest = unlisted source confirmed folders in
    elim (info_of (some folder) source.sha256) [
      | none ↦ rest
      | some fi ↦
          if has_key confirmed fi.address
          then rest
          else if fi.max_sequence == 0
          then rest
          else fi ∷ rest
    ]

-- The folder infos that are removed, and the devices.
pub record Removed : Type 0 where
  pub folder_infos : List FolderInfo
  pub devices : List (List ℕ)

abbrev pub has_info : List FolderInfo → ℕ → Bool
has_info fis address = has_key (map (λ (fi : FolderInfo). fi.address) fis) address

abbrev pub add_device : List ℕ → List (List ℕ) → List (List ℕ)
add_device device devices = if has_id devices device then devices else device ∷ devices

-- The loops over the folder infos of all folders.
unfoldable pub check_introduced : Source → State → FolderInfo → Removed → Removed
check_introduced source s fi r =
    if same_text fi.introducer_device_key source.sha256
      && (not (has_key s.confirmed_folders fi.address) && not (has_info r.folder_infos fi.address))
    then if not (has_id s.seen_devices fi.device)
      then record r { devices = add_device fi.device r.devices }
      else record r { folder_infos = fi ∷ r.folder_infos }
    else r

unfoldable pub check_infos : Source → State → List FolderInfo → Removed → Removed
unfolding check_introduced
check_infos source s [] r = r
check_infos source s (fi ∷ fis) r = check_infos source s fis (check_introduced source s fi r)

unfoldable pub check_folders : Source → State → List Folder → Removed → Removed
unfolding check_infos
check_folders source s [] r = r
check_folders source s (folder ∷ folders) r =
    check_folders source s folders (check_infos source s folder.folder_infos r)

unfoldable pub removed : Cluster → Source → State → Removed
unfolding unlisted check_folders
removed cluster source s =
    let r : Removed = record {
      folder_infos = unlisted source s.confirmed_folders cluster.folders;
      devices = [];
    } in
    if source.skip_introduction_removals then r else check_folders source s cluster.folders r

-- The children.
pub data Diff : Type 0 where
  upsert_folder : NewFolder → Diff
  reset_folder_infos : (addresses : List ℕ) → Diff
  remove_peer : (device : List ℕ) → Diff
  remove_folder_infos : (folder_infos : List FolderInfo) → Diff
  remove_blocks : (hashes : List (List ℕ)) → Diff
  remove_pending_folders : (keys : List ℕ) → Diff
  reshare_folder_info : (original : FolderInfo) → Diff
  add_pending_folders : List NewPending → Diff
  update_remote_views : List View → Diff
  update_peer : IntroducedDevice → Diff
  upsert_folder_info : UpsertedFolderInfo → Diff

-- A diff over a collection, which is not made of an empty one.
abbrev pub unless_empty : {A : Type 0} → (List A → Diff) → List A → List Diff
unless_empty make [] = []
unless_empty make (x ∷ xs) = make (x ∷ xs) ∷ []

-- `orphaned_blocks`: the files of the folder infos that are reset or removed.
unfoldable pub record_files : List FileInfo → List FileInfo → List FileInfo
record_files [] orphans = orphans
record_files (f ∷ fs) orphans = record_file f (record_files fs orphans)

unfoldable pub infos_files : List FolderInfo → List FileInfo
unfolding record_files
infos_files [] = []
infos_files (fi ∷ fis) = record_files fi.files (infos_files fis)

unfoldable pub infos_in : (FolderInfo → Bool) → List Folder → List FolderInfo
infos_in p [] = []
infos_in p (folder ∷ folders) = keep_if p folder.folder_infos ++ infos_in p folders

unfoldable pub removed_blocks : Cluster → State → Removed → List (List ℕ)
unfolding infos_files infos_in
removed_blocks cluster s r =
    deduce cluster.store
      (infos_files
        (infos_in (λ fi. has_key s.reset_folders fi.address) cluster.folders ++ r.folder_infos))
      []

unfoldable pub make_diffs : Cluster → Source → State → List Diff
unfolding removed removed_blocks unconfirmed
make_diffs cluster source s =
    let r = removed cluster source s in
    map upsert_folder s.upserted_folders
    ++ (unless_empty reset_folder_infos s.reset_folders
        ++ (map remove_peer r.devices
            ++ (unless_empty remove_folder_infos r.folder_infos
                ++ (unless_empty remove_blocks (removed_blocks cluster s r)
                    ++ (unless_empty remove_pending_folders (
                          s.removed_pending_folders
                          ++ unconfirmed source s.confirmed_pending_folders cluster.pending_folders)
                        ++ (map reshare_folder_info
                              (unlisted source s.confirmed_folders cluster.folders)
                            ++ (unless_empty add_pending_folders s.new_pending_folders
                                ++ (unless_empty update_remote_views s.remote_views
                                    ++ (map update_peer s.introduced_devices
                                        ++ map upsert_folder_info s.upserted_folder_infos)))))))))

-- `create`, and the constructor.
unfoldable pub create : Outside → Cluster → Source → List ProtoFolder → Outcome (List Diff)
unfolding passes make_diffs
create outside cluster source message =
    passes outside cluster source message start >>= λ s. ok (make_diffs cluster source s)
