-- ===== src/FolderScan.antt =====
-- model/folder.cpp (`folder_t`): when a folder is scanned, synchronized and suspended. Times are
-- numbers, and `none` is the time that is not set; a failed assertion is `none`.
pub mod Scanning
use syncspirit.Prelude.{
  ℕ, Bool, true, false, not, ◌&&◌, Option, none, some, if◌then◌else◌, ltb, leb,
}
use syncspirit.Prelude.Int.{ℤ, pos, negsuc, ◌+ℤ◌}

pub record FolderScan : Type 0 where
  pub scan_start : Option ℕ
  pub scan_finish : Option ℕ
  pub synchronizing : ℤ
  pub suspended : Bool
  pub suspend_reason : Option ℕ

unfoldable pub set_scan_start : Option ℕ → FolderScan → FolderScan
set_scan_start value folder = record folder { scan_start = value }

-- Both assertions of `set_scan_finish`: a scan was started, and not after the finish.
unfoldable pub started_by : Option ℕ → ℕ → Bool
started_by none value = false
started_by (some start) value = leb start value

unfoldable pub set_scan_finish : ℕ → FolderScan → Option FolderScan
unfolding started_by
set_scan_finish value folder =
    if started_by folder.scan_start value
    then some (record folder { scan_finish = some value })
    else none

unfoldable pub scanning : Option ℕ → Option ℕ → Bool
scanning none finish = false
scanning (some start) none = true
scanning (some start) (some finish) = ltb finish start

unfoldable pub is_scanning : FolderScan → Bool
unfolding scanning
is_scanning folder = scanning folder.scan_start folder.scan_finish

unfoldable pub is_positive : ℤ → Bool
is_positive (pos n) = ltb 0 n
is_positive (negsuc n) = false

unfoldable pub is_synchronizing : FolderScan → Bool
unfolding is_positive
is_synchronizing folder = is_positive folder.synchronizing

unfoldable pub checked : ℤ → FolderScan → Option FolderScan
checked (pos n) folder = some (record folder { synchronizing = pos n })
checked (negsuc n) folder = none

-- `synchronizing += delta`, without the bounds of the 32 bits.
unfoldable pub adjust_synchronization : ℤ → FolderScan → Option FolderScan
unfolding checked
adjust_synchronization delta folder = checked (folder.synchronizing +ℤ delta) folder

unfoldable pub mark_suspended : Bool → Option ℕ → FolderScan → Option FolderScan
mark_suspended true ec folder = some (record folder { suspended = true; suspend_reason = ec })
mark_suspended false none folder = some (record folder { suspended = false; suspend_reason = none })
mark_suspended false (some ec) folder = none
