-- ===== src/ClusterUpdate/Spared.antt =====
-- model/diff/peer/cluster_update.cpp: what a message lists is not removed.
use syncspirit.Prelude.{
  ℕ, ◌≡◌, refl, Bool, true, false, not, ◌&&◌, ◌||◌, List, [], ◌∷◌, ◌++◌, Option, none, some, arith,
  if◌then◌else◌, ◌==◌, Bool-cases, inl, inr, map,
}
use syncspirit.Prelude.{Option-cases}
use syncspirit.Prelude.Find.{All, Any, All-append}
use syncspirit.File.Wire.{same_text}
use syncspirit.Mediator.Counts.{same_text_iff}
use syncspirit.ClusterUpdate.{
  Outcome, ok, err, ProtoDevice, ProtoFolder, FolderInfo, Folder, Cluster, Source, Outside, State,
  start, has_id, has_key, by_id, info_of,
}
use syncspirit.ClusterUpdate.Passes.{
  for_each, first_pass, second_known, see_device, second_pass, passes, add_folder_info,
}
use syncspirit.ClusterUpdate.Diffs.{
  Removed, Diff, unlisted, has_info, add_device, check_introduced, check_infos, check_folders,
  removed, upsert_folder, reset_folder_infos, remove_peer, remove_folder_infos, remove_blocks,
  remove_pending_folders, reshare_folder_info, add_pending_folders, update_remote_views,
  update_peer, upsert_folder_info, unless_empty, removed_blocks, unconfirmed, make_diffs, create,
}
use syncspirit.ClusterUpdate.Steps.{
  Holds, Holds-bind, Holds-if, Holds-any, Holds-for_each, for_each_reached,
}
use syncspirit.ClusterUpdate.Marks.{Grown, second_pass-Grown}

abbrev IsConfirmed : Option FolderInfo → State → Type 0
IsConfirmed none s = Unit
IsConfirmed (some fi) s = has_key s.confirmed_folders fi.address ≡ true

-- The device is seen, and its folder info, if there is one, is confirmed.
abbrev Marked : ProtoDevice → Option FolderInfo → State → Type 0
Marked d o s = (has_id s.seen_devices d.id ≡ true) × IsConfirmed o s

Marked-Grown :
    (d : ProtoDevice) (o : Option FolderInfo) (s t : State)
    → Marked d o s
    → Grown s t
    → Marked d o t
Marked-Grown d none s t m g = (g.0 d.id m.0, tt)
Marked-Grown d (some fi) s t m g = (g.0 d.id m.0, g.1 fi.address m.1)

Holds-Marked :
    (d : ProtoDevice) (o : Option FolderInfo) (s : State) (r : Outcome State)
    → Marked d o s
    → Holds (Grown s) r
    → Holds (Marked d o) r
Holds-Marked d o s (ok t) m g = Marked-Grown d o s t m g
Holds-Marked d o s (err e) m g = tt

has_id_first : (x : List ℕ) (xs : List (List ℕ)) → has_id (x ∷ xs) x ≡ true
has_id_first x xs = let same : same_text x x ≡ true = (same_text_iff x x).1 refl in rw same refl

known_Marked :
    (source : Source) (f : ProtoFolder) (d : ProtoDevice) (s : State) (o : Option FolderInfo)
    → has_id s.seen_devices d.id ≡ true
    → Marked d o (elim o [
      | none ↦ if source.is_introducer then add_folder_info f.id d.index_id d.id s else s
      | some fi ↦ record s { confirmed_folders = fi.address ∷ s.confirmed_folders }
    ])
known_Marked source f d s none m = elim (Bool-cases source.is_introducer) [
  | inl introducer ↦ rw introducer (m, tt)
  | inr plain ↦ rw plain (m, tt)
]
known_Marked source f d s (some fi) m = (m, ground arith)

-- A device that the second pass does not skip, and that the cluster knows.
abbrev pub IsOther : Cluster → Source → ProtoDevice → Type 0
IsOther cluster source d =
    ((same_text d.id source.sha256 || same_text d.id cluster.device) ≡ false)
    × (has_id cluster.devices d.id ≡ true)

second_pass-Marked :
    (outside : Outside) (cluster : Cluster) (source : Source) (f : ProtoFolder) (d : ProtoDevice)
    (s : State)
    → IsOther cluster source d
    → Holds
        (Marked d (info_of (by_id f.id cluster.folders) d.id))
        (second_pass outside cluster source f d s)
unfolding second_pass second_known
second_pass-Marked outside cluster source f d s (other, known) =
    let P = Marked d (info_of (by_id f.id cluster.folders) d.id) in
    Holds-if P (same_text d.id source.sha256 || same_text d.id cluster.device) _ _
      (λ skipped. absurd cc)
      (λ stays.
        Holds-if P (has_id cluster.devices d.id) _ _
          (λ there.
            known_Marked source f d (see_device d s) (info_of (by_id f.id cluster.folders) d.id)
              (has_id_first d.id s.seen_devices))
          (λ out. absurd cc))

passes-Marked :
    (outside : Outside) (cluster : Cluster) (source : Source) (fs : List ProtoFolder)
    (f : ProtoFolder) (d : ProtoDevice) (s : State)
    → Any (λ g. g ≡ f) fs
    → Any (λ c. c ≡ d) f.devices
    → IsOther cluster source d
    → Holds
        (Marked d (info_of (by_id f.id cluster.folders) d.id))
        (passes outside cluster source fs s)
unfolding passes
passes-Marked outside cluster source fs f d s m n other =
    let P = Marked d (info_of (by_id f.id cluster.folders) d.id) in
    let keep : (g : ProtoFolder) (c : ProtoDevice) (t : State)
        → P t
        → Holds P (second_pass outside cluster source g c t) =
      λ g c t p.
        Holds-Marked d (info_of (by_id f.id cluster.folders) d.id) t _ p
          (second_pass-Grown outside cluster source g c t) in
    Holds-bind (λ t. Unit {0}) P
      (for_each (λ g. for_each (first_pass outside cluster source g) g.devices) fs s) _
      (Holds-any (λ t. Unit {0})
        (for_each (λ g. for_each (first_pass outside cluster source g) g.devices) fs s) (λ t. tt))
      (λ t u.
        for_each_reached (λ g. for_each (second_pass outside cluster source g) g.devices) P f fs t m
          (λ v.
            for_each_reached (second_pass outside cluster source f) P d f.devices v n
              (λ w. second_pass-Marked outside cluster source f d w other) (keep f))
          (λ g v p. Holds-for_each (second_pass outside cluster source g) P g.devices v (keep g) p))

module _ (a : ℕ) where
  has_info_first :
      (fi : FolderInfo) (fis : List FolderInfo) (keys : List ℕ)
      → has_key keys a ≡ true
      → has_key keys fi.address ≡ false
      → has_info fis a ≡ false
      → has_info (fi ∷ fis) a ≡ false
  has_info_first fi fis keys h k l = grind arith

  unlisted-has_info :
      (source : Source) (keys : List ℕ) (folders : List Folder)
      → has_key keys a ≡ true
      → has_info (unlisted source keys folders) a ≡ false
  unfolding unlisted
  unlisted-has_info source keys [] h = refl
  unlisted-has_info source keys (folder ∷ folders) h =
      let rest = unlisted-has_info source keys folders h in
      elim (Option-cases (info_of (some folder) source.sha256)) [
        | inl e ↦ rw (unlisted, e) rest
        | inr (fi, e) ↦ elim (Bool-cases (has_key keys fi.address)) [
          | inl listed ↦ rw (unlisted, e, listed) rest
          | inr out ↦ elim (Bool-cases (fi.max_sequence == 0)) [
            | inl empty ↦ rw (unlisted, e, out, empty) rest
            | inr stocked ↦
                rw (unlisted, e, out, stocked)
                  (has_info_first fi (unlisted source keys folders) keys h out rest)
          ]
        ]
      ]

-- No folder info of the address is removed, and not the device.
abbrev Keeps : Option FolderInfo → List ℕ → Removed → Type 0
Keeps none x r = has_id r.devices x ≡ false
Keeps (some fi) x r = (has_id r.devices x ≡ false) × (has_info r.folder_infos fi.address ≡ false)

other-add_device :
    (x y : List ℕ) (ids : List (List ℕ))
    → same_text x y ≡ false
    → has_id ids x ≡ false
    → has_id (add_device y ids) x ≡ false
other-add_device x y ids e h = elim (Bool-cases (has_id ids y)) [
  | inl there ↦ rw there h
  | inr new ↦ rw (new, e) h
]

-- A device that is seen is not one that is not.
seen-differs :
    (x y : List ℕ) (ids : List (List ℕ))
    → has_id ids x ≡ true
    → has_id ids y ≡ false
    → same_text x y ≡ false
seen-differs x y ids h k = elim (Bool-cases (same_text x y)) [
  | inl same ↦ let e : x ≡ y = (same_text_iff x y).0 same in absurd cc
  | inr other ↦ other
]

Keeps-unshared :
    (o : Option FolderInfo) (d : ProtoDevice) (s : State) (fi : FolderInfo) (r : Removed)
    → Marked d o s
    → has_key s.confirmed_folders fi.address ≡ false
    → Keeps o d.id r
    → Keeps o d.id (record r { folder_infos = fi ∷ r.folder_infos })
Keeps-unshared none d s fi r m h k = k
Keeps-unshared (some own) d s fi r m h k =
    (k.0, has_info_first own.address fi r.folder_infos s.confirmed_folders m.1 h k.1)

Keeps-removed :
    (o : Option FolderInfo) (d : ProtoDevice) (s : State) (y : List ℕ) (r : Removed)
    → Marked d o s
    → has_id s.seen_devices y ≡ false
    → Keeps o d.id r
    → Keeps o d.id (record r { devices = add_device y r.devices })
Keeps-removed none d s y r m h k =
    other-add_device d.id y r.devices (seen-differs d.id y s.seen_devices m.0 h) k
Keeps-removed (some own) d s y r m h k =
    (other-add_device d.id y r.devices (seen-differs d.id y s.seen_devices m.0 h) k.0, k.1)

and_not : (a b c : Bool) → (a && (not b && c)) ≡ true → b ≡ false
and_not a b c h = ground arith

check_introduced-Keeps :
    (source : Source) (s : State) (d : ProtoDevice) (o : Option FolderInfo) (fi : FolderInfo)
    (r : Removed)
    → Marked d o s
    → Keeps o d.id r
    → Keeps o d.id (check_introduced source s fi r)
unfolding check_introduced
check_introduced-Keeps source s d o fi r m k =
    elim (Bool-cases (
      same_text fi.introducer_device_key source.sha256
      && (not (has_key s.confirmed_folders fi.address)
          && not (has_info r.folder_infos fi.address)))) [
            | inr stays ↦ rw stays k
            | inl goes ↦ elim (Bool-cases (has_id s.seen_devices fi.device)) [
              | inl seen ↦
                  rw (goes, seen)
                    (Keeps-unshared o d s fi r m
                      (and_not (same_text fi.introducer_device_key source.sha256)
                        (has_key s.confirmed_folders fi.address)
                        (not (has_info r.folder_infos fi.address)) goes)
                      k)
              | inr unseen ↦ rw (goes, unseen) (Keeps-removed o d s fi.device r m unseen k)
            ]
          ]

check_infos-Keeps :
    (source : Source) (s : State) (d : ProtoDevice) (o : Option FolderInfo) (fis : List FolderInfo)
    (r : Removed)
    → Marked d o s
    → Keeps o d.id r
    → Keeps o d.id (check_infos source s fis r)
unfolding check_infos
check_infos-Keeps source s d o [] r m k = k
check_infos-Keeps source s d o (fi ∷ fis) r m k =
    check_infos-Keeps source s d o fis (check_introduced source s fi r) m
      (check_introduced-Keeps source s d o fi r m k)

check_folders-Keeps :
    (source : Source) (s : State) (d : ProtoDevice) (o : Option FolderInfo) (folders : List Folder)
    (r : Removed)
    → Marked d o s
    → Keeps o d.id r
    → Keeps o d.id (check_folders source s folders r)
unfolding check_folders
check_folders-Keeps source s d o [] r m k = k
check_folders-Keeps source s d o (folder ∷ folders) r m k =
    check_folders-Keeps source s d o folders (check_infos source s folder.folder_infos r) m
      (check_infos-Keeps source s d o folder.folder_infos r m k)

unlisted-Keeps :
    (source : Source) (s : State) (d : ProtoDevice) (o : Option FolderInfo) (folders : List Folder)
    → Marked d o s
    → Keeps o d.id
        (record { folder_infos = unlisted source s.confirmed_folders folders; devices = [] })
unlisted-Keeps source s d none folders m = refl
unlisted-Keeps source s d (some fi) folders m =
    (refl, unlisted-has_info fi.address source s.confirmed_folders folders m.1)

removed-Keeps :
    (cluster : Cluster) (source : Source) (s : State) (d : ProtoDevice) (o : Option FolderInfo)
    → Marked d o s
    → Keeps o d.id (removed cluster source s)
unfolding removed
removed-Keeps cluster source s d o m = elim (Bool-cases source.skip_introduction_removals) [
  | inl skips ↦ rw skips (unlisted-Keeps source s d o cluster.folders m)
  | inr checks ↦ rw checks (
      check_folders-Keeps source s d o cluster.folders _ m
        (unlisted-Keeps source s d o cluster.folders m))
]

-- A child that neither removes the device nor its folder info.
abbrev pub IsSparing : Option FolderInfo → List ℕ → Diff → Type 0
IsSparing o x (upsert_folder f) = Unit
IsSparing o x (reset_folder_infos addresses) = Unit
IsSparing o x (remove_peer device) = same_text x device ≡ false
IsSparing none x (remove_folder_infos fis) = Unit
IsSparing (some fi) x (remove_folder_infos fis) = has_info fis fi.address ≡ false
IsSparing o x (remove_blocks hashes) = Unit
IsSparing o x (remove_pending_folders keys) = Unit
IsSparing o x (reshare_folder_info original) = Unit
IsSparing o x (add_pending_folders added) = Unit
IsSparing o x (update_remote_views views) = Unit
IsSparing o x (update_peer device) = Unit
IsSparing o x (upsert_folder_info info) = Unit

module _ (P : Diff → Type 0) where
  All-map :
      {A : Type 0} (make : A → Diff) (xs : List A) → ((x : A) → P (make x)) → All P (map make xs)
  All-map make [] h = tt
  All-map make (x ∷ xs) h = (h x, All-map make xs h)

  All-unless_empty :
      {A : Type 0} (make : List A → Diff) (xs : List A) → P (make xs) → All P (unless_empty make xs)
  All-unless_empty make [] h = tt
  All-unless_empty make (x ∷ xs) h = (h, tt)

remove_peer-All :
    (o : Option FolderInfo) (x : List ℕ) (ids : List (List ℕ))
    → has_id ids x ≡ false
    → All (IsSparing o x) (map remove_peer ids)
remove_peer-All o x [] h = tt
remove_peer-All o x (y ∷ ys) h = (ground arith, remove_peer-All o x ys (ground arith))

remove_folder_infos-IsSparing :
    (o : Option FolderInfo) (x : List ℕ) (r : Removed)
    → Keeps o x r
    → IsSparing o x (remove_folder_infos r.folder_infos)
remove_folder_infos-IsSparing none x r k = tt
remove_folder_infos-IsSparing (some fi) x r k = k.1

Keeps-devices :
    (o : Option FolderInfo) (x : List ℕ) (r : Removed) → Keeps o x r → has_id r.devices x ≡ false
Keeps-devices none x r k = k
Keeps-devices (some fi) x r k = k.0

make_diffs-IsSparing :
    (cluster : Cluster) (source : Source) (s : State) (d : ProtoDevice) (o : Option FolderInfo)
    → Marked d o s
    → All (IsSparing o d.id) (make_diffs cluster source s)
unfolding make_diffs
make_diffs-IsSparing cluster source s d o m =
    let P = IsSparing o d.id in
    let r = removed cluster source s in
    let k = removed-Keeps cluster source s d o m in
    let gone = removed_blocks cluster s r in
    let forgotten =
      s.removed_pending_folders
      ++ unconfirmed source s.confirmed_pending_folders cluster.pending_folders in
    let reshared = map reshare_folder_info (unlisted source s.confirmed_folders cluster.folders) in
    let added =
      unless_empty add_pending_folders s.new_pending_folders
      ++ (unless_empty update_remote_views s.remote_views
          ++ (map update_peer s.introduced_devices
              ++ map upsert_folder_info s.upserted_folder_infos)) in
    let added-P : All P added =
      All-append P _ _ (All-unless_empty P add_pending_folders s.new_pending_folders tt) (
        All-append P _ _ (All-unless_empty P update_remote_views s.remote_views tt) (
          All-append P _ _ (All-map P update_peer s.introduced_devices (λ x. tt))
            (All-map P upsert_folder_info s.upserted_folder_infos (λ x. tt)))) in
    let blocks_first = unless_empty remove_pending_folders forgotten ++ (reshared ++ added) in
    let blocks_first-P : All P blocks_first =
      All-append P (unless_empty remove_pending_folders forgotten) (reshared ++ added)
        (All-unless_empty P remove_pending_folders forgotten tt)
        (All-append P reshared added (All-map P reshare_folder_info _ (λ x. tt)) added-P) in
    All-append P _ _ (All-map P upsert_folder s.upserted_folders (λ x. tt)) (
      All-append P _ _ (All-unless_empty P reset_folder_infos s.reset_folders tt) (
        All-append P _ _ (remove_peer-All o d.id r.devices (Keeps-devices o d.id r k)) (
          All-append P _ (unless_empty remove_blocks gone ++ blocks_first)
            (All-unless_empty P remove_folder_infos r.folder_infos
              (remove_folder_infos-IsSparing o d.id r k))
            (All-append P (unless_empty remove_blocks gone) blocks_first
              (All-unless_empty P remove_blocks gone tt) blocks_first-P))))

-- A device that the message lists for a folder, that the cluster knows and that is neither the peer
-- that sends the message nor the own device, is not removed by any child diff of the cluster update,
-- and neither is its folder info for that folder, if it has one.
pub create-IsSparing :
    (outside : Outside) (cluster : Cluster) (source : Source) (message : List ProtoFolder)
    (f : ProtoFolder) (d : ProtoDevice)
    → Any (λ g. g ≡ f) message
    → Any (λ c. c ≡ d) f.devices
    → IsOther cluster source d
    → Holds
        (All (IsSparing (info_of (by_id f.id cluster.folders) d.id) d.id))
        (create outside cluster source message)
unfolding create
create-IsSparing outside cluster source message f d m n other =
    let o = info_of (by_id f.id cluster.folders) d.id in
    Holds-bind (Marked d o) (All (IsSparing o d.id)) (passes outside cluster source message start) _
      (passes-Marked outside cluster source message f d start m n other)
      (λ s marked. make_diffs-IsSparing cluster source s d o marked)
