-- ===== src/Resolver/Safety.antt =====
-- model/misc/resolver.cpp: when a file of a peer is taken.
use syncspirit.Prelude.{
  ℕ, ◌≡◌, ◌≢◌, true, false, List, [], ◌∷◌, Option, none, some, arith, ◌⊎◌, inl, inr, Bool-cases,
  ◌==◌,
}
use syncspirit.Prelude.Find.{All}
use syncspirit.Version.{contains}
use syncspirit.File.{FileInfo, is_deleted, is_invalid, is_unreachable, is_local, is_link}
use syncspirit.Resolver.{
  ignore, resolve_remote_win, FolderInfo, Folder, by_name, is_outdated, resolve_local, resolve_in,
  Platform, settle_conflict, resolve, has_text, conflict_mark,
}

-- What every other device has under the name is contained in the remote version.
abbrev pub Contained : FileInfo → ℕ → List FolderInfo → Type 0
Contained remote self = All (λ fi.
    (fi.device ≡ self)
    ⊎ ((other : FileInfo)
        → by_name remote.name fi ≡ some other
        → other.address ≢ remote.address
        → contains remote.version other.version ≡ true))

is_outdated-Contained :
    (remote : FileInfo) (self : ℕ) (fis : List FolderInfo)
    → is_outdated remote self fis ≡ false
    → Contained remote self fis
unfolding is_outdated
is_outdated-Contained remote self [] h = tt
is_outdated-Contained remote self (fi ∷ fis) h = elim (Bool-cases (fi.device == self)) [
  | inl mine ↦ (inl (ground arith), is_outdated-Contained remote self fis (ground arith))
  | inr theirs ↦ (
    inr (λ other found differs. ground arith),
    is_outdated-Contained remote self fis (ground arith),
  )
]

-- What holds of a file of a peer that is taken over the local one.
pub record IsTakeable (folder : Folder) (self : ℕ) (remote : FileInfo) (local : Option FileInfo)
    : Type 0 where
  pub reachable : is_unreachable remote ≡ false
  pub valid : is_invalid remote ≡ false
  pub newest : Contained remote self folder.folder_infos
  pub deletion_wanted : is_deleted remote ≡ true → folder.ignore_delete ≡ false
  pub scanned :
      (file : FileInfo)
      → local ≡ some file
      → (is_local file ≡ true) × ((is_deleted file ≡ false) ⊎ (is_deleted remote ≡ false))

resolve_local-scanned :
    (remote : FileInfo) (local : Option FileInfo)
    → resolve_local remote local ≢ ignore
    → (file : FileInfo) → local ≡ some file
    → (is_local file ≡ true) × ((is_deleted file ≡ false) ⊎ (is_deleted remote ≡ false))
unfolding resolve_local
resolve_local-scanned remote none h file e = cc
resolve_local-scanned remote (some l) h file e = ground arith

resolve_in-gates :
    (folder : Folder) (self : ℕ) (remote : FileInfo) (local : Option FileInfo)
    → resolve_in folder self remote local ≢ ignore
    → (is_unreachable remote ≡ false)
      × (is_invalid remote ≡ false)
      × (is_outdated remote self folder.folder_infos ≡ false)
      × (is_deleted remote ≡ true → folder.ignore_delete ≡ false)
      × (resolve_local remote local ≢ ignore)
unfolding resolve_in
resolve_in-gates folder self remote local h = ground arith

resolve_in-IsTakeable :
    (folder : Folder) (self : ℕ) (remote : FileInfo) (local : Option FileInfo)
    → resolve_in folder self remote local ≢ ignore
    → IsTakeable folder self remote local
resolve_in-IsTakeable folder self remote local h =
    let (reachable, valid, newest, wanted, chosen) = resolve_in-gates folder self remote local h in
    record {
      reachable = reachable;
      valid = valid;
      newest = is_outdated-Contained remote self folder.folder_infos newest;
      deletion_wanted = wanted;
      scanned = resolve_local-scanned remote local chosen;
    }

resolve-resolve_in :
    (platform : Platform) (folder : Folder) (mine : FolderInfo) (remote : FileInfo)
    (local : Option FileInfo)
    → resolve platform folder mine remote local ≢ ignore
    → (resolve_in folder mine.device remote local ≢ ignore)
      × (platform.path_supported remote.name ≡ true)
      × (is_link remote ≡ true → is_deleted remote ≡ false → platform.symlinks_supported ≡ true)
unfolding resolve
resolve-resolve_in platform folder mine remote local h = ground arith

-- A file of a peer is taken, in whatever way, only if it is reachable and valid, contains what every
-- other device has under its name, deletes only where deletions are followed, meets a local file
-- that has been scanned and is not deleted too, and can exist on this platform.
pub resolve-IsTakeable :
    (platform : Platform) (folder : Folder) (mine : FolderInfo) (remote : FileInfo)
    (local : Option FileInfo)
    → resolve platform folder mine remote local ≢ ignore
    → IsTakeable folder mine.device remote local
      × (platform.path_supported remote.name ≡ true)
      × (is_link remote ≡ true → is_deleted remote ≡ false → platform.symlinks_supported ≡ true)
resolve-IsTakeable platform folder mine remote local h =
    let (chosen, path, link) = resolve-resolve_in platform folder mine remote local h in
    (resolve_in-IsTakeable folder mine.device remote local chosen, path, link)

-- Where the remote file wins a conflict, neither it is itself the copy of one nor is a file lost: the
-- name for the local copy is free.
pub resolve_remote_win-free :
    (platform : Platform) (folder : Folder) (mine : FolderInfo) (remote file : FileInfo)
    → resolve platform folder mine remote (some file) ≡ resolve_remote_win
    → (has_text conflict_mark (platform.own_name remote.name) ≡ false)
      × (by_name (platform.make_conflicting_name file) mine ≡ none)
unfolding resolve settle_conflict
resolve_remote_win-free platform folder mine remote file h = ground arith
