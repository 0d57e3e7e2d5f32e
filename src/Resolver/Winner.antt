-- ===== src/Resolver/Winner.antt =====
-- model/misc/resolver.cpp: two devices that compare their versions of a file agree.
use syncspirit.Prelude.{◌≡◌, ◌≢◌, Bool, true, false, ◌&&◌, not, arith}
use syncspirit.Version.{get_best, contains}
use syncspirit.File.{FileInfo, is_deleted}
use syncspirit.Resolver.{AdvanceAction, ignore, compare_by_version}

abbrev pub takes_remote : AdvanceAction → Bool
takes_remote ignore = false
takes_remote _ = true

-- Of two versions with different best counters, of which at most one contains the other, exactly one
-- wins, whichever device compares them, unless both are deletions made apart: then neither does.
pub compare_by_version-agrees :
    (a b : FileInfo)
    → (get_best a.version).id ≢ (get_best b.version).id
    → (contains a.version b.version && contains b.version a.version) ≡ false
    → takes_remote (compare_by_version a b) ≡ (
        not (takes_remote (compare_by_version b a))
        && not (
            is_deleted a
            && is_deleted b
            && not (contains a.version b.version)
            && not (contains b.version a.version)))
unfolding compare_by_version
compare_by_version-agrees a b ids order = ground arith
