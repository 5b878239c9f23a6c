-- ===== src/Manifest.antt =====
-- state.rs: a side's manifest, its snapshot file and what a run puts in place of a scope. The codec
-- is `bincode`'s, a parameter.
pub mod Laws
pub mod Snapshot
pub mod Hashing
use duet.Prelude.{Bool, not, List, ◌++◌, filter}
use duet.Scan.Entry.{Entry}
use duet.FilePath.{component_ord}
use duet.Ord.Lexicographic.{list_ord}
use duet.Scan.Change.{entry_path}
use duet.Scan.Scope.{ScanScope, selected}
use duet.Sorted.Sorting.{sort_by}

-- `retain`, `extend`, `sort`
unfoldable pub replace_scope : List Entry → ScanScope → List Entry → List Entry
replace_scope entries scope current =
    sort_by entry_path (filter (λ e. not (selected scope (entry_path e))) entries ++ current)
