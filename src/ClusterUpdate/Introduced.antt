-- ===== src/ClusterUpdate/Introduced.antt =====
-- model/diff/peer/cluster_update.cpp: what becomes of the folder infos that the peer introduced and
-- that it does not list any more.
use syncspirit.Prelude.{
  ℕ, ◌≡◌, refl, sym, ap, ◌∙◌, subst, Bool, true, false, not, ◌&&◌, ◌||◌, List, [], ◌∷◌, ◌++◌, arith,
  Bool-cases, inl, inr, map,
}
use syncspirit.Prelude.Find.{Any}
use syncspirit.File.Wire.{same_text}
use syncspirit.Mediator.Counts.{same_text_iff}
use syncspirit.ClusterUpdate.{
  ok, FolderInfo, Folder, Cluster, Source, Outside, State, start, has_id, has_key,
}
use syncspirit.ClusterUpdate.Passes.{for_each, passes}
use syncspirit.ClusterUpdate.Diffs.{
  Removed, Diff, unlisted, has_info, add_device, check_introduced, check_infos, check_folders,
  removed, remove_peer, make_diffs, create,
}

-- The device of the folder info is removed, or the folder info.
abbrev pub is_gone : FolderInfo → Removed → Bool
is_gone fi r = has_id r.devices fi.device || has_info r.folder_infos fi.address

-- Introduced by the peer, and not confirmed.
abbrev pub IsOutdated : Source → State → FolderInfo → Type 0
IsOutdated source s fi =
    (same_text fi.introducer_device_key source.sha256 ≡ true)
    × (has_key s.confirmed_folders fi.address ≡ false)

has_id-add_device : (x : List ℕ) (ids : List (List ℕ)) → has_id (add_device x ids) x ≡ true
has_id-add_device x ids = elim (Bool-cases (has_id ids x)) [
  | inl there ↦ rw (there, there) refl
  | inr new ↦ let same : same_text x x ≡ true = (same_text_iff x x).1 refl in rw (new, same) refl
]

has_id-add_device-other :
    (x y : List ℕ) (ids : List (List ℕ)) → has_id ids x ≡ true → has_id (add_device y ids) x ≡ true
has_id-add_device-other x y ids h = elim (Bool-cases (has_id ids y)) [
  | inl there ↦ rw there h
  | inr new ↦ rw new (ground arith)
]

check_introduced-is_gone :
    (source : Source) (s : State) (fi : FolderInfo) (r : Removed)
    → IsOutdated source s fi
    → is_gone fi (check_introduced source s fi r) ≡ true
unfolding check_introduced
check_introduced-is_gone source s fi r (own, out) =
    elim (Bool-cases (has_info r.folder_infos fi.address)) [
      | inl there ↦ rw (own, out, there, there) (ground arith)
      | inr stays ↦ elim (Bool-cases (has_id s.seen_devices fi.device)) [
        | inl seen ↦ rw (own, out, stays, seen) (ground arith)
        | inr unseen ↦ rw (own, out, stays, unseen, has_id-add_device fi.device r.devices) refl
      ]
    ]

Gone-grows :
    (fi : FolderInfo) (r t : Removed)
    → (has_id r.devices fi.device ≡ true → has_id t.devices fi.device ≡ true)
    → (has_info r.folder_infos fi.address ≡ true → has_info t.folder_infos fi.address ≡ true)
    → is_gone fi r ≡ true
    → is_gone fi t ≡ true
Gone-grows fi r t h k g = ground arith

check_introduced-stays :
    (source : Source) (s : State) (fi other : FolderInfo) (r : Removed)
    → is_gone fi r ≡ true
    → is_gone fi (check_introduced source s other r) ≡ true
unfolding check_introduced
check_introduced-stays source s fi other r g =
    elim (Bool-cases (
      same_text other.introducer_device_key source.sha256
      && (not (has_key s.confirmed_folders other.address)
          && not (has_info r.folder_infos other.address)))) [
            | inr stays ↦ rw stays g
            | inl goes ↦ elim (Bool-cases (has_id s.seen_devices other.device)) [
              | inl seen ↦
                  rw (goes, seen)
                    (Gone-grows fi r (record r { folder_infos = other ∷ r.folder_infos }) (λ h. h)
                      (λ h. ground arith) g)
              | inr unseen ↦
                  rw (goes, unseen)
                    (Gone-grows fi r (record r { devices = add_device other.device r.devices })
                      (has_id-add_device-other fi.device other.device r.devices) (λ h. h) g)
            ]
          ]

check_infos-stays :
    (source : Source) (s : State) (fi : FolderInfo) (fis : List FolderInfo) (r : Removed)
    → is_gone fi r ≡ true
    → is_gone fi (check_infos source s fis r) ≡ true
unfolding check_infos
check_infos-stays source s fi [] r g = g
check_infos-stays source s fi (x ∷ xs) r g =
    check_infos-stays source s fi xs (check_introduced source s x r)
      (check_introduced-stays source s fi x r g)

check_infos-is_gone :
    (source : Source) (s : State) (fi : FolderInfo) (fis : List FolderInfo) (r : Removed)
    → Any (λ x. x ≡ fi) fis
    → IsOutdated source s fi
    → is_gone fi (check_infos source s fis r) ≡ true
unfolding check_infos
check_infos-is_gone source s fi [] r m h = elim m [ ]
check_infos-is_gone source s fi (x ∷ xs) r (inl here) h =
    subst (λ y. is_gone fi (check_infos source s xs (check_introduced source s y r)) ≡ true)
      (sym here)
      (check_infos-stays source s fi xs (check_introduced source s fi r)
        (check_introduced-is_gone source s fi r h))
check_infos-is_gone source s fi (x ∷ xs) r (inr m) h =
    check_infos-is_gone source s fi xs (check_introduced source s x r) m h

check_folders-stays :
    (source : Source) (s : State) (fi : FolderInfo) (folders : List Folder) (r : Removed)
    → is_gone fi r ≡ true
    → is_gone fi (check_folders source s folders r) ≡ true
unfolding check_folders
check_folders-stays source s fi [] r g = g
check_folders-stays source s fi (f ∷ fs) r g =
    check_folders-stays source s fi fs (check_infos source s f.folder_infos r)
      (check_infos-stays source s fi f.folder_infos r g)

check_folders-is_gone :
    (source : Source) (s : State) (fi : FolderInfo) (folders : List Folder) (r : Removed)
    → Any (λ f. Any (λ x. x ≡ fi) f.folder_infos) folders
    → IsOutdated source s fi
    → is_gone fi (check_folders source s folders r) ≡ true
unfolding check_folders
check_folders-is_gone source s fi [] r m h = elim m [ ]
check_folders-is_gone source s fi (f ∷ fs) r (inl here) h =
    check_folders-stays source s fi fs (check_infos source s f.folder_infos r)
      (check_infos-is_gone source s fi f.folder_infos r here h)
check_folders-is_gone source s fi (f ∷ fs) r (inr m) h =
    check_folders-is_gone source s fi fs (check_infos source s f.folder_infos r) m h

-- Whatever the passes collected, and unless the peer says that introductions are not to be removed:
-- of every folder info that the peer introduced and that is not confirmed, the device is removed or
-- the folder info is.
pub removed-is_gone :
    (cluster : Cluster) (source : Source) (s : State) (fi : FolderInfo)
    → Any (λ f. Any (λ x. x ≡ fi) f.folder_infos) cluster.folders
    → source.skip_introduction_removals ≡ false
    → IsOutdated source s fi
    → is_gone fi (removed cluster source s) ≡ true
unfolding removed
removed-is_gone cluster source s fi m e h =
    rw (removed, e) (check_folders-is_gone source s fi cluster.folders _ m h)

-- As long as no device is seen no folder info is added.
check_introduced-infos :
    (source : Source) (fi : FolderInfo) (r : Removed)
    → (check_introduced source start fi r).folder_infos ≡ r.folder_infos
unfolding check_introduced
check_introduced-infos source fi r =
    elim (Bool-cases (
      same_text fi.introducer_device_key source.sha256
      && (true && not (has_info r.folder_infos fi.address)))) [
        | inl goes ↦ rw goes refl
        | inr stays ↦ rw stays refl
      ]

check_infos-infos :
    (source : Source) (fis : List FolderInfo) (r : Removed)
    → (check_infos source start fis r).folder_infos ≡ r.folder_infos
unfolding check_infos
check_infos-infos source [] r = refl
check_infos-infos source (fi ∷ fis) r =
    check_infos-infos source fis (check_introduced source start fi r)
    ∙ check_introduced-infos source fi r

check_folders-infos :
    (source : Source) (folders : List Folder) (r : Removed)
    → (check_folders source start folders r).folder_infos ≡ r.folder_infos
unfolding check_folders
check_folders-infos source [] r = refl
check_folders-infos source (f ∷ fs) r =
    check_folders-infos source fs (check_infos source start f.folder_infos r)
    ∙ check_infos-infos source f.folder_infos r

Any-left : {A : Type 0} (P : A → Type 0) (xs ys : List A) → Any P xs → Any P (xs ++ ys)
Any-left P [] ys m = elim m [ ]
Any-left P (x ∷ xs) ys (inl h) = inl h
Any-left P (x ∷ xs) ys (inr m) = inr (Any-left P xs ys m)

remove_peer-Any :
    (x : List ℕ) (ids : List (List ℕ))
    → has_id ids x ≡ true
    → Any (λ c. c ≡ remove_peer x) (map remove_peer ids)
remove_peer-Any x [] h = absurd cc
remove_peer-Any x (y ∷ ys) h = elim (Bool-cases (same_text x y)) [
  | inl same ↦ inl (ap remove_peer (sym ((same_text_iff x y).0 same)))
  | inr other ↦ inr (remove_peer-Any x ys (ground arith))
]

left_of : (a b : Bool) → (a || b) ≡ true → b ≡ false → a ≡ true
left_of a b h k = ground arith

-- A message without folders removes the peer that sends it, if a folder info of the peer says that
-- the peer introduced itself, as those say that are made when a folder of the peer is accepted, and
-- it is not among those that are shared anew, which have had files.
pub create-removes_source :
    (outside : Outside) (cluster : Cluster) (source : Source) (fi : FolderInfo)
    → Any (λ f. Any (λ x. x ≡ fi) f.folder_infos) cluster.folders
    → source.skip_introduction_removals ≡ false
    → fi.device ≡ source.sha256
    → fi.introducer_device_key ≡ source.sha256
    → has_info (unlisted source [] cluster.folders) fi.address ≡ false
    → (ds : List Diff) × (create outside cluster source [] ≡ ok ds)
      × Any (λ c. c ≡ remove_peer source.sha256) ds
unfolding create passes for_each make_diffs removed
create-removes_source outside cluster source fi m e own by_self out =
    let r0 : Removed = record { folder_infos = unlisted source [] cluster.folders; devices = [] } in
    let r = check_folders source start cluster.folders r0 in
    let same : same_text fi.introducer_device_key source.sha256 ≡ true =
      (same_text_iff fi.introducer_device_key source.sha256).1 by_self in
    let gone : is_gone fi r ≡ true =
      check_folders-is_gone source start fi cluster.folders r0 m (same, refl) in
    let stays : has_info r.folder_infos fi.address ≡ false =
      ap (λ fis. has_info fis fi.address) (check_folders-infos source cluster.folders r0) ∙ out in
    let there : has_id r.devices source.sha256 ≡ true =
      subst (λ x. has_id r.devices x ≡ true) own
        (left_of (has_id r.devices fi.device) (has_info r.folder_infos fi.address) gone stays) in
    (
      make_diffs cluster source start,
      refl,
      rw e (
          Any-left (λ c. c ≡ remove_peer source.sha256) _ _
            (remove_peer-Any source.sha256 r.devices there)),
    )
