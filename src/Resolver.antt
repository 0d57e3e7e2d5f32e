-- ===== src/Resolver.antt =====
-- model/misc/resolver.{h,cpp}: what to do about a file of a peer. A folder is the list of what each
-- device has in it. The platform's abilities and the name of the copy that a conflict leaves, which
-- is made by the local calendar, are arguments.
pub mod Winner
pub mod Safety
use syncspirit.Prelude.{
  ℕ, zero, suc, Bool, true, false, not, ◌&&◌, ◌||◌, List, [], ◌∷◌, Option, none, some, ◌+◌,
  if◌then◌else◌, ltb, leb, ◌==◌,
}
use syncspirit.Prelude.Find.{find_if}
use syncspirit.Prelude.Int.{ℤ, ltb_ℤ}
use syncspirit.Version.{Version, Counter, get_best, contains}
use syncspirit.File.{FileInfo, is_deleted, is_invalid, is_unreachable, is_local, is_link}
use syncspirit.File.Wire.{same_text}
use syncspirit.FilePath.{starts_with}

pub data AdvanceAction : Type 0 where
  ignore remote_copy local_update resolve_remote_win : AdvanceAction

-- The files of one device in a folder.
pub record FolderInfo : Type 0 where
  pub device : ℕ
  pub files : List FileInfo

pub record Folder : Type 0 where
  pub folder_infos : List FolderInfo
  pub ignore_delete : Bool

-- `get_file_infos().by_name`.
abbrev pub by_name : List ℕ → FolderInfo → Option FileInfo
by_name name fi = find_if (λ f. same_text f.name name) fi.files

-- The tests behind the ids, in order.
unfoldable pub compare_concurrent : FileInfo → FileInfo → ℕ → ℕ → AdvanceAction
compare_concurrent remote local r_id l_id =
    if ltb_ℤ local.modified_s remote.modified_s
    then resolve_remote_win
    else if ltb_ℤ remote.modified_s local.modified_s
    then ignore
    else if leb l_id r_id
    then resolve_remote_win
    else ignore

unfoldable pub compare_superior : Bool → Bool → FileInfo → FileInfo → ℕ → ℕ → AdvanceAction
unfolding compare_concurrent
compare_superior r_superior l_superior remote local r_id l_id =
    let concurrent = not r_superior && not l_superior in
    if concurrent && is_deleted remote
    then ignore
    else if concurrent && is_deleted local
    then remote_copy
    else if r_superior
    then remote_copy
    else if l_superior
    then ignore
    else compare_concurrent remote local r_id l_id

unfoldable pub compare_by_version : FileInfo → FileInfo → AdvanceAction
unfolding compare_superior
compare_by_version remote local =
    let r_best = get_best remote.version in
    let l_best = get_best local.version in
    if r_best.id == l_best.id
    then if ltb r_best.value l_best.value
      then ignore
      else if ltb l_best.value r_best.value
      then remote_copy
      else ignore
    else compare_superior (contains remote.version local.version)
        (contains local.version remote.version) remote local r_best.id l_best.id

-- `compare(file_1, file_2)`, as its sign: whether it is positive, negative or zero.
pub data Sign : Type 0 where
  negative zero_sign positive : Sign

unfoldable pub compare : FileInfo → FileInfo → Sign
compare file_1 file_2 =
    if is_deleted file_1 && is_deleted file_2
    then zero_sign
    else elim (compare_by_version file_2 file_1) [ ignore ↦ positive | _ ↦ negative ]

-- The loop over the other devices: whether some device has a version that the remote one lacks.
unfoldable pub is_outdated : FileInfo → ℕ → List FolderInfo → Bool
is_outdated remote self [] = false
is_outdated remote self (fi ∷ fis) =
    let rest = is_outdated remote self fis in
    if fi.device == self then rest else elim (by_name remote.name fi) [
      | none ↦ rest
      | some other ↦
          if other.address == remote.address
          then rest
          else if contains remote.version other.version
          then rest
          else true
    ]

unfoldable pub resolve_local : FileInfo → Option FileInfo → AdvanceAction
resolve_local remote none = remote_copy
resolve_local remote (some local) =
    if not (is_local local)
    then ignore
    else if is_deleted remote && is_deleted local
    then ignore
    else compare_by_version remote local

-- `_resolve`.
unfoldable pub resolve_in : Folder → ℕ → FileInfo → Option FileInfo → AdvanceAction
unfolding is_outdated resolve_local
resolve_in folder self remote local =
    if is_unreachable remote
    then ignore
    else if is_invalid remote
    then ignore
    else if is_outdated remote self folder.folder_infos
    then ignore
    else if is_deleted remote && folder.ignore_delete
    then ignore
    else resolve_local remote local

-- `name.find(text) != npos`.
unfoldable pub has_text : List ℕ → List ℕ → Bool
has_text text [] = starts_with text []
has_text text (c ∷ cs) = starts_with text (c ∷ cs) || has_text text cs

-- ".sync-conflict-".
abbrev pub conflict_mark : List ℕ
conflict_mark =
    b'.' ∷ b's' ∷ b'y' ∷ b'n' ∷ b'c' ∷ b'-' ∷ b'c' ∷ b'o' ∷ b'n' ∷ b'f' ∷ b'l' ∷ b'i' ∷ b'c' ∷ b't'
    ∷ b'-' ∷ []

-- What the resolver takes from outside of the model.
pub record Platform : Type 0 where
  pub symlinks_supported : Bool
  pub path_supported : List ℕ → Bool
  pub own_name : List ℕ → List ℕ
  pub make_conflicting_name : FileInfo → List ℕ

-- The last test of `resolve`: no copy of a copy, and no copy over a file that is there. A win over
-- no local file does not happen.
unfoldable pub settle_conflict : Platform → FolderInfo → FileInfo → Option FileInfo → AdvanceAction
unfolding has_text
settle_conflict platform local_folder remote local =
    if has_text conflict_mark (platform.own_name remote.name) then ignore else elim local [
      | none ↦ resolve_remote_win
      | some file ↦ elim (by_name (platform.make_conflicting_name file) local_folder) [
        | none ↦ resolve_remote_win
        | some there ↦ ignore
      ]
    ]

unfoldable pub resolve : Platform → Folder → FolderInfo → FileInfo → Option FileInfo → AdvanceAction
unfolding settle_conflict
resolve platform folder local_folder remote local =
    if is_link remote && not (is_deleted remote) && not platform.symlinks_supported
    then ignore
    else if not (platform.path_supported remote.name)
    then ignore
    else elim (resolve_in folder local_folder.device remote local) [
      | ignore ↦ ignore
      | remote_copy ↦ remote_copy
      | local_update ↦ local_update
      | resolve_remote_win ↦ settle_conflict platform local_folder remote local
    ]
