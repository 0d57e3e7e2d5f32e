-- ===== src/ClusterUpdate/Marks.antt =====
-- model/diff/peer/cluster_update.cpp: the passes never take back that a device is seen or that a
-- folder info is confirmed.
use syncspirit.Prelude.{
  ℕ, ◌≡◌, refl, Bool, true, false, not, ◌&&◌, ◌||◌, List, [], ◌∷◌, Option, none, some,
  if◌then◌else◌, ◌==◌, Bool-cases, inl, inr,
}
use syncspirit.File.Wire.{same_text}
use syncspirit.ClusterUpdate.{
  Outcome, ok, err, ProtoDevice, ProtoFolder, FolderInfo, PendingFolder, Cluster, Source, Outside,
  State, has_id, has_key, has_pair, by_id, info_of,
}
use syncspirit.ClusterUpdate.Passes.{
  is_device_id, match_pending, add_pending, add_folder_info, folder_path, add_folder,
  take_addresses, introduce_device, share_folder, confirm_folder, first_known, see_device,
  first_pass, second_known, second_pass, is_shared_with_source, is_some,
}
use syncspirit.ClusterUpdate.Steps.{Holds, Holds-bind, Holds-if, Holds-any}

-- What is seen and confirmed stays so.
abbrev pub Grown : State → State → Type 0
Grown s t =
    ((x : List ℕ) → has_id s.seen_devices x ≡ true → has_id t.seen_devices x ≡ true)
    × ((a : ℕ) → has_key s.confirmed_folders a ≡ true → has_key t.confirmed_folders a ≡ true)

pub Grown-refl : (s : State) → Grown s s
Grown-refl s = (λ x h. h, λ a h. h)

either : (b c : Bool) → c ≡ true → (if b then true else c) ≡ true
either true c e = refl
either false c e = e

see_device-Grown : (d : ProtoDevice) (s : State) → Grown s (see_device d s)
see_device-Grown d s = (λ x h. either (same_text x d.id) (has_id s.seen_devices x) h, λ a h. h)

-- A folder info that is confirmed besides.
confirmed-Grown :
    (a : ℕ) (s : State) → Grown s (record s { confirmed_folders = a ∷ s.confirmed_folders })
confirmed-Grown a s = (λ x h. h, λ b h. either (a == b) (has_key s.confirmed_folders b) h)

match_pending-Grown :
    (source : Source) (f : ProtoFolder) (d : ProtoDevice) (ufs : List PendingFolder) (s : State)
    → Grown s (match_pending source f d ufs s).0
unfolding match_pending
match_pending-Grown source f d [] s = Grown-refl s
match_pending-Grown source f d (uf ∷ ufs) s =
    let confirmed = record s { confirmed_pending_folders = uf.key ∷ s.confirmed_pending_folders } in
    elim (Bool-cases (same_text uf.device source.sha256 && same_text uf.id f.id)) [
      | inl same ↦
          elim (Bool-cases ((uf.index == d.index_id) && (uf.max_sequence == d.max_sequence))) [
            | inl actual ↦ rw (same, actual) (Grown-refl s)
            | inr outdated ↦
                rw (same, outdated)
                  (match_pending-Grown source f d ufs (record confirmed {
                    removed_pending_folders = uf.key ∷ s.removed_pending_folders;
                  }))
          ]
      | inr other ↦ rw other (match_pending-Grown source f d ufs s)
    ]

add_pending-Grown :
    (cluster : Cluster) (source : Source) (f : ProtoFolder) (d : ProtoDevice) (s : State)
    → Grown s (add_pending cluster source f d s)
unfolding add_pending
add_pending-Grown cluster source f d s =
    let r = match_pending source f d cluster.pending_folders s in
    let g = match_pending-Grown source f d cluster.pending_folders s in
    elim (Bool-cases r.1) [ inl returned ↦ rw returned g | inr goes_on ↦ rw goes_on g ]

add_folder-Grown :
    (outside : Outside) (folder : ProtoFolder) (s : State)
    → Holds (Grown s) (add_folder outside folder s)
unfolding add_folder
add_folder-Grown outside folder s =
    Holds-bind (λ path. Unit {0}) (Grown s) (folder_path outside folder) _
      (Holds-any (λ path. Unit {0}) (folder_path outside folder) (λ path. tt))
      (λ path u. Grown-refl s)

share_folder-Grown :
    (outside : Outside) (cluster : Cluster) (source : Source) (f : ProtoFolder) (d : ProtoDevice)
    (s : State)
    → Holds (Grown s) (share_folder outside cluster source f d s)
unfolding share_folder
share_folder-Grown outside cluster source f d s =
    Holds-if (Grown s) (same_text d.id source.sha256) _ _
      (λ own.
        Holds-if (Grown s) source.has_auto_accept _ _
          (λ accept.
            Holds-bind (Grown s) (Grown s) _ _
              (Holds-if (Grown s) (is_some (by_id f.id cluster.folders)) _ _ (λ there. Grown-refl s)
                (λ new. add_folder-Grown outside f s))
              (λ t g. g))
          (λ manual. add_pending-Grown cluster source f d s))
      (λ other.
        Holds-if (Grown s) source.is_introducer _ _ (λ yes_it. Grown-refl s)
          (λ not_it. Grown-refl s))

confirm_folder-Grown :
    (f : ProtoFolder) (d : ProtoDevice) (fi : FolderInfo) (s : State)
    → Grown s (confirm_folder f d fi s)
unfolding confirm_folder
confirm_folder-Grown f d fi s = elim (Bool-cases (d.index_id == fi.index)) [
  | inl same ↦ rw same (confirmed-Grown fi.address s)
  | inr other ↦ rw other (confirmed-Grown fi.address s)
]

info_Grown :
    (outside : Outside) (cluster : Cluster) (source : Source) (f : ProtoFolder) (d : ProtoDevice)
    (s : State) (o : Option FolderInfo)
    → Holds (Grown s) (elim o [
      | none ↦ share_folder outside cluster source f d s
      | some fi ↦ ok (confirm_folder f d fi s)
    ])
info_Grown outside cluster source f d s none = share_folder-Grown outside cluster source f d s
info_Grown outside cluster source f d s (some fi) = confirm_folder-Grown f d fi s

first_known-Grown :
    (outside : Outside) (cluster : Cluster) (source : Source) (f : ProtoFolder) (d : ProtoDevice)
    (s : State)
    → Holds (Grown s) (first_known outside cluster source f d s)
unfolding first_known
first_known-Grown outside cluster source f d s =
    Holds-if (Grown s) (not (same_text d.id source.sha256) && not (same_text d.id cluster.device)) _
      _ (λ other. Grown-refl s)
      (λ listed.
        Holds-if (Grown s) (same_text d.id cluster.device) _ _ (λ own. Grown-refl s)
          (λ peer.
            info_Grown outside cluster source f d _ (info_of (by_id f.id cluster.folders) d.id)))

Holds-Grown : (s t : State) (o : Outcome State) → Grown s t → Holds (Grown t) o → Holds (Grown s) o
Holds-Grown s t (ok u) g h = (λ x m. h.0 x (g.0 x m), λ a m. h.1 a (g.1 a m))
Holds-Grown s t (err e) g h = tt

pub first_pass-Grown :
    (outside : Outside) (cluster : Cluster) (source : Source) (f : ProtoFolder) (d : ProtoDevice)
    (s : State)
    → Holds (Grown s) (first_pass outside cluster source f d s)
unfolding first_pass
first_pass-Grown outside cluster source f d s =
    Holds-if (Grown s) (not (is_device_id d.id)) _ _ (λ bad. tt)
      (λ good.
        Holds-if (Grown s) (has_pair s.folder_device_set f.id d.id) _ _ (λ again. Grown-refl s)
          (λ new.
            Holds-if (Grown s) (has_id cluster.devices d.id) _ _
              (λ known.
                Holds-Grown s (see_device d s) _ (see_device-Grown d s)
                  (first_known-Grown outside cluster source f d _))
              (λ unknown. Grown-refl s)))

known_Grown :
    (source : Source) (f : ProtoFolder) (d : ProtoDevice) (s : State) (o : Option FolderInfo)
    → Grown s (elim o [
      | none ↦ if source.is_introducer then add_folder_info f.id d.index_id d.id s else s
      | some fi ↦ record s { confirmed_folders = fi.address ∷ s.confirmed_folders }
    ])
known_Grown source f d s none = elim (Bool-cases source.is_introducer) [
  | inl introducer ↦ rw introducer (Grown-refl s)
  | inr plain ↦ rw plain (Grown-refl s)
]
known_Grown source f d s (some fi) = confirmed-Grown fi.address s

second_known-Grown :
    (cluster : Cluster) (source : Source) (f : ProtoFolder) (d : ProtoDevice) (s : State)
    → Grown s (second_known cluster source f d s)
unfolding second_known
second_known-Grown cluster source f d s =
    known_Grown source f d s (info_of (by_id f.id cluster.folders) d.id)

introduce_device-Grown :
    (outside : Outside) (folder_id : List ℕ) (d : ProtoDevice) (s : State)
    → Holds (Grown s) (introduce_device outside folder_id d s)
unfolding introduce_device
introduce_device-Grown outside folder_id d s =
    Holds-if (Grown s) (has_id s.processed_introduced_devices d.id) _ _ (λ again. Grown-refl s)
      (λ new.
        Holds-bind (λ kept. Unit {0}) (Grown s) (take_addresses outside d.addresses) _
          (Holds-any (λ kept. Unit {0}) (take_addresses outside d.addresses) (λ kept. tt))
          (λ kept u. see_device-Grown d s))

pub second_pass-Grown :
    (outside : Outside) (cluster : Cluster) (source : Source) (f : ProtoFolder) (d : ProtoDevice)
    (s : State)
    → Holds (Grown s) (second_pass outside cluster source f d s)
unfolding second_pass
second_pass-Grown outside cluster source f d s =
    Holds-if (Grown s) (same_text d.id source.sha256 || same_text d.id cluster.device) _ _
      (λ skipped. Grown-refl s)
      (λ other.
        Holds-if (Grown s) (has_id cluster.devices d.id) _ _
          (λ known.
            Holds-Grown s (see_device d s) (ok (second_known cluster source f d (see_device d s)))
              (see_device-Grown d s) (second_known-Grown cluster source f d (see_device d s)))
          (λ unknown.
            Holds-if (Grown s) (source.is_introducer && is_shared_with_source cluster source f.id s)
              _ _ (λ introduces. introduce_device-Grown outside f.id d s)
              (λ ignores. Grown-refl s)))
