-- ===== src/FolderScan/Scanning.antt =====
-- model/folder.cpp: a scan from its start to its finish.
use syncspirit.Prelude.{ℕ, ◌≡◌, refl, not, none, some, arith, if◌then◌else◌, ltb, leb}
use syncspirit.FolderScan.{
  FolderScan, set_scan_start, set_scan_finish, started_by, scanning, is_scanning,
}

-- The folder with both times set.
abbrev pub scanned : ℕ → ℕ → FolderScan → FolderScan
scanned start finish folder = record folder { scan_start = some start; scan_finish = some finish }

-- A scan that was started can be finished exactly at a time that is not earlier, and the folder is
-- not scanning after such a finish. A later start makes it scanning exactly if it is beyond the
-- finish.
pub is_scanning-set_scan_finish :
    (folder : FolderScan) (start finish : ℕ)
    → (set_scan_finish finish (set_scan_start (some start) folder)
        ≡ (if leb start finish then some (scanned start finish folder) else none))
      × (is_scanning (scanned start finish folder) ≡ not (leb start finish))
      × ((again : ℕ)
          → is_scanning (set_scan_start (some again) (scanned start finish folder))
            ≡ ltb finish again)
unfolding set_scan_finish set_scan_start is_scanning scanning started_by
is_scanning-set_scan_finish folder start finish = (refl, ground arith, λ again. refl)
