-- ===== src/Tests/Scan.antt =====
-- Manifests, changes, scopes and rules.
use duet.Scan.Walk.{ParentFromTo, under_path, narrow_parent_from_to}
use duet.Scan.Walk.Laws.{narrow_parent_from_to_lem}
use duet.Prelude.{All, leb, ◌&&◌, none, List, [], ◌∷◌, ◌≡◌, refl, arith}
use duet.Ord.{nat_ord}
use duet.Ord.Lexicographic.{cmp_list, list_ord}
use duet.FilePath.{cmp_component, rank, cur_dir, component_ord}
use duet.Sorted.{IsSorted, find}
use duet.MatchSorted.{matched}
use duet.MatchSorted.Laws.{lefts, rights, PairsSorted, matched_lem}
use duet.Scan.Change.{changes, entry_path, change_path}
use duet.Scan.Change.Laws.{changes-HasPath, HasPath, changes_lem, Tells, Unchanged, replay}
use duet.Scan.Scope.{new, is_excluded, covered}
use duet.Scan.Scope.Antichain.{new_lem, AllApart}
use duet.Scan.Location.{Location, include, exclude, canonicalize, location_path}
use duet.Scan.Location.Laws.{canonicalize_lem, last_rule}
use duet.Tests.Samples.{path_a, path_b, path_ac, manifest, manifest-IsSorted}

matched_lem_example :
    (lefts (matched entry_path (manifest 1) (manifest 2)) ≡ manifest 1)
    × (rights (matched entry_path (manifest 1) (manifest 2)) ≡ manifest 2)
    × PairsSorted entry_path (matched entry_path (manifest 1) (manifest 2))
matched_lem_example =
    matched_lem entry_path (manifest 1) (manifest 2) (manifest-IsSorted 1) (manifest-IsSorted 2)

changes_lem_example :
    IsSorted change_path (changes (manifest 1) (manifest 2))
    × Unchanged
        (replay
          (find change_path path_a (changes (manifest 1) (manifest 2)))
          (find entry_path path_a (manifest 1)))
        (find entry_path path_a (manifest 2))
    × Tells
        (find change_path path_a (changes (manifest 1) (manifest 2)))
        (find entry_path path_a (manifest 1))
        (find entry_path path_a (manifest 2))
changes_lem_example =
    changes_lem path_a (manifest 1) (manifest 2) (manifest-IsSorted 1) (manifest-IsSorted 2)

new_lem_example :
    (is_excluded (new [] (path_ac ∷ path_b ∷ path_a ∷ [])) path_ac
      ≡ covered (path_ac ∷ path_b ∷ path_a ∷ []) path_ac)
    × AllApart (new [] (path_ac ∷ path_b ∷ path_a ∷ [])).excludes
new_lem_example = new_lem [] (path_ac ∷ path_b ∷ path_a ∷ []) path_ac

-- Two rules for `a`, one of them spelled `./a`.
abbrev rules : List Location
rules = include path_a ∷ include path_b ∷ exclude (cur_dir ∷ path_a) ∷ []

canonicalize_lem_example :
    IsSorted location_path (canonicalize rules)
    × (find location_path path_a (canonicalize rules) ≡ last_rule path_a none rules)
canonicalize_lem_example = canonicalize_lem path_a rules

abbrev whole_window : ParentFromTo
whole_window = record { parent = 0; from = 0; to = 2 }

-- Rules in path order: one for `a`, one under it, one for `b`.
abbrev sorted_rules : List Location
sorted_rules = include path_a ∷ exclude path_ac ∷ include path_b ∷ []

narrow_parent_from_to_lem_example : under_path path_a sorted_rules 1 ≡ (
    leb (narrow_parent_from_to whole_window path_a sorted_rules).from 1
    && leb 1 (narrow_parent_from_to whole_window path_a sorted_rules).to)
unfolding list_ord cmp_list component_ord cmp_component nat_ord rank
narrow_parent_from_to_lem_example =
    narrow_parent_from_to_lem whole_window path_a sorted_rules 1
      ((refl, (refl, tt)), ((refl, tt), (tt, tt))) (omega arith) (omega arith) (omega arith)

changes-HasPath_example : All HasPath (changes (manifest 1) (manifest 2))
changes-HasPath_example = changes-HasPath (manifest 1) (manifest 2)
