-- ===== src/ClusterUpdate/Passes.antt =====
-- model/diff/peer/cluster_update.cpp: the two passes over the folders and devices of the message. A
-- set is a list here; adding to it again changes nothing that is asked of it.
use syncspirit.Prelude.{
  ℕ, Bool, true, false, not, ◌&&◌, ◌||◌, List, [], ◌∷◌, ◌++◌, Option, none, some, if◌then◌else◌,
  ◌==◌, length,
}
use syncspirit.Prelude.Find.{any_of}
use syncspirit.File.Wire.{same_text}
use syncspirit.ClusterUpdate.{
  malformed_url, empty_folder_name, make_dir_error, Outcome, ok, err, ◌>>=◌, ProtoDevice,
  ProtoFolder, FolderInfo, PendingFolder, Cluster, Source, Outside, NewFolder, NewPending, State,
  has_id, has_pair, by_id, info_of,
}

-- `device_id_t::from_sha256` gives an id exactly for a digest of 32 bytes, whose text in base 32 has
-- 52 characters.
abbrev pub is_device_id : List ℕ → Bool
is_device_id sha = length sha == 32

unfoldable pub for_each {ℓ} :
    {A : Type ℓ} → (A → State → Outcome State) → List A → State → Outcome State
for_each step [] s = ok s
for_each step (x ∷ xs) s = step x s >>= for_each step xs

-- The loop of `add_pending` over the known pending folders, and whether it returned.
unfoldable pub match_pending :
    Source → ProtoFolder → ProtoDevice → List PendingFolder → State → State × Bool
match_pending source f d [] s = (s, false)
match_pending source f d (uf ∷ ufs) s =
    let confirmed = record s { confirmed_pending_folders = uf.key ∷ s.confirmed_pending_folders } in
    let others = match_pending source f d ufs s in
    let outdated =
      match_pending source f d ufs
        (record confirmed { removed_pending_folders = uf.key ∷ s.removed_pending_folders }) in
    if same_text uf.device source.sha256 && same_text uf.id f.id
    then if (uf.index == d.index_id) && (uf.max_sequence == d.max_sequence)
      then (confirmed, true)
      else outdated
    else others

abbrev pub pending_of : Source → ProtoFolder → ProtoDevice → NewPending
pending_of source f d = record {
  id = f.id;
  label = f.label;
  settings = f.settings;
  index_id = d.index_id;
  max_sequence = d.max_sequence;
  peer_id = source.sha256;
}

unfoldable pub add_pending : Cluster → Source → ProtoFolder → ProtoDevice → State → State
unfolding match_pending
add_pending cluster source f d s =
    let (t, returned) = match_pending source f d cluster.pending_folders s in
    if returned
    then t
    else record t { new_pending_folders = t.new_pending_folders ++ pending_of source f d ∷ [] }

-- `add_folder_info`, and `upsert_folder_info` with the folder and the device of the folder info.
abbrev pub add_folder_info : List ℕ → ℕ → List ℕ → State → State
add_folder_info folder_id index device s = record s {
  upserted_folder_infos =
      s.upserted_folder_infos
      ++ record { folder_id = folder_id; new_index_id = index; device_id = device } ∷ [];
}

unfoldable pub try_make_path : Outside → List ℕ → Outcome (List ℕ)
try_make_path outside label =
    if length label == 0 then err empty_folder_name else elim (outside.create_directories label) [
      | none ↦ ok (outside.path_of label)
      | some e ↦ err (make_dir_error e)
    ]

unfoldable pub folder_path : Outside → ProtoFolder → Outcome (List ℕ)
unfolding try_make_path
folder_path outside folder = elim (try_make_path outside folder.label) [
  | ok path ↦ ok path
  | err e ↦ try_make_path outside folder.id
]

unfoldable pub add_folder : Outside → ProtoFolder → State → Outcome State
unfolding folder_path
add_folder outside folder s = folder_path outside folder >>= λ path. ok (record s {
  upserted_folders =
      s.upserted_folders
      ++ record { id = folder.id; label = folder.label; path = path; settings = folder.settings }
        ∷ [];
})

-- "dynamic"
abbrev pub dynamic : List ℕ
dynamic = b'd' ∷ b'y' ∷ b'n' ∷ b'a' ∷ b'm' ∷ b'i' ∷ b'c' ∷ []

-- The addresses that are kept.
unfoldable pub take_addresses : Outside → List (List ℕ) → Outcome (List (List ℕ))
take_addresses outside [] = ok []
take_addresses outside (address ∷ addresses) =
    let rest = take_addresses outside addresses in
    if same_text address dynamic
    then rest
    else if outside.is_parsable address
    then (rest >>= λ kept. ok (address ∷ kept))
    else err malformed_url

abbrev pub introduced : ProtoDevice → List (List ℕ) → State → State
introduced device addresses s = record s {
  introduced_devices =
      s.introduced_devices
      ++ record {
        device_id = device.id;
        name = device.name;
        addresses = addresses;
        compression = device.compression;
        introducer = device.introducer;
        skip_introduction_removals = device.skip_introduction_removals;
      }
        ∷ [];
}

unfoldable pub introduce_device : Outside → List ℕ → ProtoDevice → State → Outcome State
unfolding take_addresses
introduce_device outside folder_id device s =
    if has_id s.processed_introduced_devices device.id
    then ok (add_folder_info folder_id device.index_id device.id s)
    else (take_addresses outside device.addresses >>= λ addresses. ok (
        add_folder_info folder_id device.index_id device.id (
          introduced device addresses (record s {
            processed_introduced_devices = device.id ∷ s.processed_introduced_devices;
            seen_devices = device.id ∷ s.seen_devices;
          }))))

abbrev pub is_some {ℓ} : {A : Type ℓ} → Option A → Bool
is_some none = false
is_some (some a) = true

unfoldable pub is_shared_with_source : Cluster → Source → List ℕ → State → Bool
is_shared_with_source cluster source folder_id s =
    is_some (info_of (by_id folder_id cluster.folders) source.sha256)
    || any_of (λ (db_f : NewFolder). same_text db_f.id folder_id) s.upserted_folders

-- What is made of a folder that the peer shares and the cluster does not share with it.
unfoldable pub share_folder :
    Outside → Cluster → Source → ProtoFolder → ProtoDevice → State → Outcome State
unfolding add_pending add_folder
share_folder outside cluster source f d s =
    if same_text d.id source.sha256
    then if source.has_auto_accept
      then ((if is_some (by_id f.id cluster.folders) then ok s else add_folder outside f s) >>= λ t.
          ok (add_folder_info f.id d.index_id d.id t))
      else ok (add_pending cluster source f d s)
    else if source.is_introducer
    then ok (add_folder_info f.id d.index_id d.id s)
    else ok s

-- What is made of a folder info that is there.
unfoldable pub confirm_folder : ProtoFolder → ProtoDevice → FolderInfo → State → State
confirm_folder f d fi s =
    let t =
      if d.index_id == fi.index
      then s
      else add_folder_info f.id d.index_id fi.device
          (record s { reset_folders = fi.address ∷ s.reset_folders }) in
    record t { confirmed_folders = fi.address ∷ t.confirmed_folders }

-- The body of the first pass, below the test of the id and of the pairs that have been seen.
unfoldable pub first_known :
    Outside → Cluster → Source → ProtoFolder → ProtoDevice → State → Outcome State
unfolding share_folder confirm_folder
first_known outside cluster source f d s =
    let viewed = record s {
      remote_views =
          s.remote_views
          ++ record {
            folder_id = f.id;
            device_id = d.id;
            index_id = d.index_id;
            max_sequence = d.max_sequence;
          }
            ∷ [];
    } in
    if not (same_text d.id source.sha256) && not (same_text d.id cluster.device)
    then ok s
    else if same_text d.id cluster.device
    then ok viewed
    else elim (info_of (by_id f.id cluster.folders) d.id) [
      | none ↦ share_folder outside cluster source f d viewed
      | some fi ↦ ok (confirm_folder f d fi viewed)
    ]

abbrev pub see_device : ProtoDevice → State → State
see_device d s = record s { seen_devices = d.id ∷ s.seen_devices }

unfoldable pub first_pass :
    Outside → Cluster → Source → ProtoFolder → ProtoDevice → State → Outcome State
unfolding first_known
first_pass outside cluster source f d s =
    if not (is_device_id d.id)
    then err malformed_url
    else if has_pair s.folder_device_set f.id d.id
    then ok s
    else let t = record s { folder_device_set = (f.id, d.id) ∷ s.folder_device_set } in
      if has_id cluster.devices d.id
      then first_known outside cluster source f d (see_device d t)
      else ok t

-- The body of the second pass for a device that the cluster knows.
unfoldable pub second_known : Cluster → Source → ProtoFolder → ProtoDevice → State → State
second_known cluster source f d s = elim (info_of (by_id f.id cluster.folders) d.id) [
  | none ↦ if source.is_introducer then add_folder_info f.id d.index_id d.id s else s
  | some fi ↦ record s { confirmed_folders = fi.address ∷ s.confirmed_folders }
]

unfoldable pub second_pass :
    Outside → Cluster → Source → ProtoFolder → ProtoDevice → State → Outcome State
unfolding second_known introduce_device is_shared_with_source
second_pass outside cluster source f d s =
    if same_text d.id source.sha256 || same_text d.id cluster.device
    then ok s
    else if has_id cluster.devices d.id
    then ok (second_known cluster source f d (see_device d s))
    else if source.is_introducer && is_shared_with_source cluster source f.id s
    then introduce_device outside f.id d s
    else ok s

-- The passes over all folders.
unfoldable pub passes : Outside → Cluster → Source → List ProtoFolder → State → Outcome State
unfolding for_each first_pass second_pass
passes outside cluster source folders s =
    for_each (λ f. for_each (first_pass outside cluster source f) f.devices) folders s
    >>= for_each (λ f. for_each (second_pass outside cluster source f) f.devices) folders
