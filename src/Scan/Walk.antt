-- ===== src/Scan/Walk.antt =====
-- The window of rules that the walk of a directory carries: the rules at or under its path are those
-- from `from` to `to`, both included.
pub mod Laws
use duet.Prelude.{
  ℕ, zero, suc, ◌+◌, ◌-◌, Bool, true, false, leb, if◌then◌else◌, Option, none, some, List,
  get_elem?,
}
use duet.Ord.{Ord, ◌=?◌}
use duet.Ord.Lexicographic.{list_ord, starts_with}
use duet.FilePath.{FilePath, component_ord}
use duet.Scan.Location.{Location, location_path}

pub record ParentFromTo : Type 0 where
  pub parent : ℕ
  pub from : ℕ
  pub to : ℕ

-- A test of the rule at an index; the indices asked for are in range.
unfoldable pub rule_at : (FilePath → Bool) → List Location → ℕ → Bool
rule_at test locations i = elim (get_elem? locations i) [
  | none ↦ false
  | some l ↦ test (location_path l)
]

abbrev pub under_path : FilePath → List Location → ℕ → Bool
under_path path locations i = rule_at (λ p. starts_with p path) locations i

-- The first `while`, over as many indices as the window has from `from` on.
unfoldable pub skip_before : (ℕ → Bool) → ℕ → ℕ → ℕ
skip_before under zero from = from
skip_before under (suc n) from =
    let rest = skip_before under n (from + 1) in if under from then from else rest

-- The second `while`, over as many indices as follow `to` in the window.
unfoldable pub extend_to : (ℕ → Bool) → ℕ → ℕ → ℕ
extend_to under zero to = to
extend_to under (suc n) to =
    let rest = extend_to under n (to + 1) in if under (to + 1) then rest else to

unfoldable pub narrow_parent_from_to : ParentFromTo → FilePath → List Location → ParentFromTo
narrow_parent_from_to pft path locations =
    let under = under_path path locations in
    let from = skip_before under (pft.to + 1 - pft.from) pft.from in
    if leb from pft.to
    then record {
      parent = if rule_at (λ p. p =? path) locations from then from else pft.parent;
      from = from;
      to = extend_to under (pft.to - from) from;
    }
    else record { parent = pft.parent; from = from; to = pft.to }
