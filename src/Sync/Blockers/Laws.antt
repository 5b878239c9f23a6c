-- ===== src/Sync/Blockers/Laws.antt =====
-- What may be pruned from a directory that is to be removed.
use mathlib.Core.Path.{fun_ext}
use duet.Prelude.{
  ◌||◌, not, List, [], ◌∷◌, Bool, true, false, ◌&&◌, Option, none, some, ok, any, if◌then◌else◌,
  All, ◌≡◌, ◌⊎◌, refl, sym, ◌∙◌, ap, inl, inr, Ordering-cases, >>=-eq-ok, ok-injective, filter,
}
use duet.Ord.Lexicographic.{list_ord, starts_with}
use duet.FilePath.{FilePath, cur_dir, root_dir, parent_dir, normal, component_ord}
use duet.Scan.Location.{
  Location, location_path, canonical, canonicalize, canonical_relative_path, collect_winners,
  btree_insert, is_cur_dir, include, exclude,
}
use duet.Scan.Location.Laws.{last_rule, canonicalize_lem}
use duet.Sync.Blockers.{
  invalid_ignore, invalid_prune, ScanPolicy, RemovalBlockerPolicy, Pattern, new, compile_patterns,
  in_excludes, is_excluded, excludes_path, best_location, is_base,
}
use duet.Sync.Blockers.Nearest.{IsCanonical, best_location-longest}
use duet.Sync.Blockers.Inherit.{nearest, longest-nearest}

no_cur_dir : FilePath → Bool
no_cur_dir [] = true
no_cur_dir (c ∷ path) = not (is_cur_dir c) && no_cur_dir path

canonical_relative_path-no_cur_dir :
    (path : FilePath) → no_cur_dir (filter (λ c. not (is_cur_dir c)) path) ≡ true
unfolding no_cur_dir
canonical_relative_path-no_cur_dir [] = refl
canonical_relative_path-no_cur_dir (cur_dir ∷ path) = canonical_relative_path-no_cur_dir path
canonical_relative_path-no_cur_dir (root_dir ∷ path) = canonical_relative_path-no_cur_dir path
canonical_relative_path-no_cur_dir (parent_dir ∷ path) = canonical_relative_path-no_cur_dir path
canonical_relative_path-no_cur_dir (normal name ∷ path) = canonical_relative_path-no_cur_dir path

is_base-no_cur_dir :
    (path : FilePath) → no_cur_dir path ≡ true → (is_base path ≡ false) ⊎ (path ≡ [])
unfolding no_cur_dir
is_base-no_cur_dir [] h = inr refl
is_base-no_cur_dir (cur_dir ∷ path) h = cc
is_base-no_cur_dir (root_dir ∷ path) h = inl refl
is_base-no_cur_dir (parent_dir ∷ path) h = inl refl
is_base-no_cur_dir (normal name ∷ path) h = inl refl

canonical-IsCanonical : (l : Location) → IsCanonical (canonical l)
unfolding canonical canonical_relative_path
canonical-IsCanonical (include path) =
    is_base-no_cur_dir _ (canonical_relative_path-no_cur_dir path)
canonical-IsCanonical (exclude path) =
    is_base-no_cur_dir _ (canonical_relative_path-no_cur_dir path)

btree_insert-IsCanonical :
    (x : Location) (l : List Location)
    → IsCanonical x
    → All IsCanonical l
    → All IsCanonical (btree_insert x l)
unfolding btree_insert
btree_insert-IsCanonical x [] c h = (c, tt)
btree_insert-IsCanonical x (y ∷ l) c (d, h) =
    elim (Ordering-cases (list_ord.cmp (location_path x) (location_path y))) [
      | inl e ↦ rw (e, btree_insert) (c, (d, h))
      | inr (inl e) ↦ rw (e, btree_insert) (c, h)
      | inr (inr e) ↦ rw (e, btree_insert) (d, btree_insert-IsCanonical x l c h)
    ]

collect_winners-IsCanonical :
    (winners locations : List Location)
    → All IsCanonical winners
    → All IsCanonical (collect_winners winners locations)
unfolding collect_winners
collect_winners-IsCanonical winners [] h = h
collect_winners-IsCanonical winners (l ∷ locations) h =
    collect_winners-IsCanonical (btree_insert (canonical l) winners) locations
      (btree_insert-IsCanonical (canonical l) winners (canonical-IsCanonical l) h)

best_location-canonicalize :
    (path : FilePath) (locations : List Location)
    → best_location path none (canonicalize locations)
      ≡ nearest (λ q. last_rule q none locations) path
best_location-canonicalize path locations =
    best_location-longest path none (canonicalize locations) tt
      (unfold canonicalize in collect_winners-IsCanonical [] locations tt)
    ∙ longest-nearest path (canonicalize locations) (canonicalize_lem [] locations).0
    ∙ ap (λ rule. nearest rule path) (fun_ext (λ q. (canonicalize_lem q locations).1))

-- Under the policy made from a scan's policy, a path is excluded exactly where it lies at or under an
-- excluded path, or where the nearest rule, that of the path or of its closest ancestor that has a
-- rule, excludes; of several rules given for one path the last one counts.
pub is_excluded_lem :
    {Regex : Type 0} (glob_to_regex : Pattern → Option Regex) (scan_policy : ScanPolicy)
    (prune_ignored : Bool) (policy : RemovalBlockerPolicy Regex) (path : FilePath)
    → new glob_to_regex (some scan_policy) prune_ignored ≡ ok policy
    → is_excluded policy path ≡ (
        any (λ exclude. starts_with path exclude) scan_policy.excludes
        || excludes_path (nearest (λ q. last_rule q none scan_policy.locations) path))
unfolding is_excluded in_excludes new
is_excluded_lem glob_to_regex scan_policy prune_ignored policy path h =
    let (ig, _, f) =
      >>=-eq-ok (compile_patterns glob_to_regex invalid_ignore scan_policy.ignore) _ h in
    let (pr, _, g) =
      >>=-eq-ok (compile_patterns glob_to_regex invalid_prune scan_policy.prune) _ f in
    let e = sym (ok-injective _ _ g) in
    rw
      (
        ap (λ p. p.locations) e,
        ap (λ p. p.excludes) e,
        best_location-canonicalize path scan_policy.locations,
      )
      (if-or (any (λ exclude. starts_with path exclude) scan_policy.excludes)
        (excludes_path (nearest (λ q. last_rule q none scan_policy.locations) path)))
  where
    if-or : (a b : Bool) → (if a then true else b) ≡ (a || b)
    if-or true b = refl
    if-or false b = refl
