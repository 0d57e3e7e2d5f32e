-- ===== src/Tests/Resolving.antt =====
-- Runs of model/misc/resolver.cpp.
use syncspirit.Prelude.{ℕ, ◌+◌, ◌≡◌, ◌≢◌, refl, true, false, ◌&&◌, not, [], ◌∷◌, none, some, arith}
use syncspirit.Prelude.Int.{pos}
use syncspirit.Version.{Version, best_mask, get_best, contains, covers}
use syncspirit.File.{FileInfo, Flags, blocks, is_deleted, is_link}
use syncspirit.Resolver.{
  ignore, resolve_remote_win, FolderInfo, Folder, Platform, compare_by_version, resolve, resolve_in,
  resolve_local, is_outdated, settle_conflict, has_text, conflict_mark, by_name,
}
use syncspirit.FilePath.{starts_with}
use syncspirit.Resolver.Winner.{takes_remote, compare_by_version-agrees}
use syncspirit.Resolver.Safety.{IsTakeable, resolve-IsTakeable, resolve_remote_win-free}
use syncspirit.Tests.Versions.{counter}

abbrev pub plain_flags : Flags
plain_flags = record {
  type_file = true;
  type_dir = false;
  type_link = false;
  deleted = false;
  invalid = false;
  no_permissions = false;
  synchronizing = false;
  unreachable = false;
  local = true;
  available = false;
}

abbrev pub file_at : ℕ → ℕ → Version → FileInfo
file_at address modified version = record {
  address = address;
  uuid = address;
  name = b'a' ∷ [];
  modified_s = pos modified;
  modified_ns = 0;
  modified_by = 0;
  sequence = 1;
  permissions = 0;
  content = blocks [];
  version = version;
  flags = plain_flags;
}

-- Two devices changed the file apart; the peer did so later.
abbrev theirs : FileInfo
theirs = file_at 1 20 (record { counters = counter 5 (best_mask + 3) ∷ [] })

abbrev ours : FileInfo
ours = file_at 2 10 (record { counters = counter 6 (best_mask + 3) ∷ [] })

abbrev mine : FolderInfo
mine = record { device = 0; files = ours ∷ [] }

abbrev shared : Folder
shared = record {
  folder_infos = mine ∷ record { device = 1; files = theirs ∷ [] } ∷ [];
  ignore_delete = false;
}

abbrev unix : Platform
unix = record {
  symlinks_supported = true;
  path_supported = λ name. true;
  own_name = λ name. name;
  make_conflicting_name = λ f. b'b' ∷ [];
}

conflict : resolve unix shared mine theirs (some ours) ≡ resolve_remote_win
unfolding resolve resolve_in compare_by_version contains covers get_best settle_conflict has_text
    starts_with is_outdated resolve_local
conflict = refl

compare_by_version-agrees_example :
    takes_remote (compare_by_version theirs ours)
    ≡ (not (takes_remote (compare_by_version ours theirs)) && true)
unfolding get_best contains covers
compare_by_version-agrees_example = compare_by_version-agrees theirs ours (omega arith) refl

conflict_taken : resolve unix shared mine theirs (some ours) ≢ ignore
conflict_taken e = cc conflict

resolve-IsTakeable_example :
    IsTakeable shared 0 theirs (some ours)
    × (unix.path_supported theirs.name ≡ true)
    × (is_link theirs ≡ true → is_deleted theirs ≡ false → unix.symlinks_supported ≡ true)
resolve-IsTakeable_example = resolve-IsTakeable unix shared mine theirs (some ours) conflict_taken

resolve_remote_win-free_example :
    (has_text conflict_mark (unix.own_name theirs.name) ≡ false)
    × (by_name (unix.make_conflicting_name ours) mine ≡ none)
resolve_remote_win-free_example = resolve_remote_win-free unix shared mine theirs ours conflict
