-- ===== src/Orchestrator/Plan.antt =====
-- `build_actions`: the actions from the changes of the two sides.
pub mod Laws
use duet.Prelude.{Bool, true, false, Option, List, filter_map, if◌then◌else◌}
use duet.FilePath.{component_ord}
use duet.Ord.Lexicographic.{list_ord}
use duet.MatchSorted.{matched}
use duet.Scan.Change.{Change, change_path}
use duet.Actions.{Action, create, create_strong}

-- The closure of `filter_map`: peers that exchange digests compare by them alone.
unfoldable pub create_by : Bool → Option Change → Option Change → Option Action
unfolding create create_strong
create_by strong lc rc = if strong then create_strong lc rc else create lc rc

unfoldable pub build_actions : List Change → List Change → Bool → List Action
unfolding matched create_by
build_actions local_changes remote_changes strong =
    filter_map (λ p. create_by strong p.0 p.1) (matched change_path local_changes remote_changes)
