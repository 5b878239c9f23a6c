-- ===== src/Sync/Blockers/Pruning.antt =====
-- What may be pruned with a directory, by the texts of the scan's patterns.
use duet.Prelude.{
  ◌||◌, not, is_some, ℕ, List, [], ◌∷◌, Bool, false, ◌&&◌, Option, none, some, ok, err, any, ◌≡◌,
  refl, sym, ap, arith, inl, inr, >>=-eq-ok, ok-injective, Option-cases, subst,
}
use duet.Ord.Lexicographic.{list_ord, starts_with}
use duet.FilePath.{FilePath, component_ord, file_name}
use duet.Scan.Location.Laws.{last_rule}
use duet.Sync.Blockers.{
  invalid_ignore, invalid_prune, InvalidPattern, ScanPolicy, RemovalBlockerPolicy, Pattern, new,
  compile_patterns, is_excluded, classify, by_patterns, should_prune, matching_pattern, find_match,
  excludes_path,
}
use duet.Sync.Blockers.Inherit.{nearest}
use duet.Sync.Blockers.Laws.{is_excluded_lem}

-- Whether a text matches a pattern of the scan.
abbrev pub pattern_matches :
    {Regex : Type 0} (glob_to_regex : Pattern → Option Regex) (is_match : Regex → List ℕ → Bool)
    (filename : List ℕ) (pattern : Pattern)
    → Bool
pattern_matches glob_to_regex is_match filename pattern = elim (glob_to_regex pattern) [
  | none ↦ false
  | some regex ↦ is_match regex filename
]

-- Whether a path's name, if it is text, matches one of the patterns.
abbrev pub any_matches :
    {Regex : Type 0} (glob_to_regex : Pattern → Option Regex) (is_match : Regex → List ℕ → Bool)
    (to_str : List ℕ → Option (List ℕ)) (patterns : List Pattern) (path : FilePath)
    → Bool
any_matches glob_to_regex is_match to_str patterns path = elim (file_name path) [
  | none ↦ false
  | some name ↦ elim (to_str name) [
    | none ↦ false
    | some filename ↦ any (pattern_matches glob_to_regex is_match filename) patterns
  ]
]

module _ {Regex : Type 0} (glob_to_regex : Pattern → Option Regex)
    (is_match : Regex → List ℕ → Bool) (to_str : List ℕ → Option (List ℕ)) where
  find_match-compile_patterns :
      (invalid : Pattern → InvalidPattern) (patterns : List Pattern)
      (compiled : List (Pattern × Regex)) (filename : List ℕ)
      → compile_patterns glob_to_regex invalid patterns ≡ ok compiled
      → is_some (find_match is_match to_str filename compiled)
        ≡ any (pattern_matches glob_to_regex is_match filename) patterns
  unfolding compile_patterns find_match
  find_match-compile_patterns invalid [] compiled filename h =
      subst (λ c. is_some (find_match is_match to_str filename c) ≡ false) (ok-injective _ _ h) refl
  find_match-compile_patterns invalid (pattern ∷ patterns) compiled filename h =
      elim (Option-cases (glob_to_regex pattern)) [
        | inl n ↦ absurd (not_ok (rw (n, compile_patterns) at h))
        | inr (regex, e) ↦
            let (rest, e1, f1) =
              >>=-eq-ok (compile_patterns glob_to_regex invalid patterns) _
                (rw (e, compile_patterns) at h) in
            let ih = find_match-compile_patterns invalid patterns rest filename e1 in
            subst
              (λ c.
                is_some (find_match is_match to_str filename c)
                ≡ any (pattern_matches glob_to_regex is_match filename) (pattern ∷ patterns))
              (ok-injective _ _ f1) (ground (arith, ih, e))
      ]
    where
      not_ok : err (invalid pattern) ≡ ok compiled → ⊥
      not_ok e = cc

  matching_pattern-compile_patterns :
      (invalid : Pattern → InvalidPattern) (patterns : List Pattern)
      (compiled : List (Pattern × Regex)) (path : FilePath)
      → compile_patterns glob_to_regex invalid patterns ≡ ok compiled
      → is_some (matching_pattern is_match to_str compiled path)
        ≡ any_matches glob_to_regex is_match to_str patterns path
  unfolding matching_pattern
  matching_pattern-compile_patterns invalid patterns compiled path h =
      elim (Option-cases (file_name path)) [
        | inl n ↦ ground (arith, n)
        | inr (name, e) ↦ elim (Option-cases (to_str name)) [
          | inl n ↦ ground (arith, e, n)
          | inr (filename, f) ↦
              ground (arith, e, f, find_match-compile_patterns invalid patterns compiled filename h)
        ]
      ]

  should_prune-matching :
      (policy : RemovalBlockerPolicy Regex) (path : FilePath)
      → should_prune policy (classify is_match to_str policy path) ≡ (
          not (is_excluded policy path)
          && (is_some (matching_pattern is_match to_str policy.prune path)
              || (policy.prune_ignored
                  && is_some (matching_pattern is_match to_str policy.ignore path))))
  unfolding should_prune classify is_excluded by_patterns
  should_prune-matching policy path = ground arith

  -- Under the policy made from a scan's policy, an entry in the way of a removal is pruned exactly
  -- where it is not excluded, neither by an excluded path at or above it nor by the nearest rule, and
  -- its name is text that matches one of the scan's patterns to prune or, where ignored files are
  -- pruned too, one of those to ignore.
  pub should_prune_lem :
      (scan_policy : ScanPolicy) (prune_ignored : Bool) (policy : RemovalBlockerPolicy Regex)
      (path : FilePath)
      → new glob_to_regex (some scan_policy) prune_ignored ≡ ok policy
      → should_prune policy (classify is_match to_str policy path) ≡ (
          not (
            any (λ exclude. starts_with path exclude) scan_policy.excludes
            || excludes_path (nearest (λ q. last_rule q none scan_policy.locations) path))
          && (any_matches glob_to_regex is_match to_str scan_policy.prune path
              || (prune_ignored
                  && any_matches glob_to_regex is_match to_str scan_policy.ignore path)))
  unfolding new
  should_prune_lem scan_policy prune_ignored policy path h =
      let (ig, ci, f) =
        >>=-eq-ok (compile_patterns glob_to_regex invalid_ignore scan_policy.ignore) _ h in
      let (pr, cp, g) =
        >>=-eq-ok (compile_patterns glob_to_regex invalid_prune scan_policy.prune) _ f in
      let e = sym (ok-injective _ _ g) in
      rw
        (
          should_prune-matching policy path,
          is_excluded_lem glob_to_regex scan_policy prune_ignored policy path h,
          ap (λ p. p.prune) e,
          ap (λ p. p.ignore) e,
          ap (λ p. p.prune_ignored) e,
          matching_pattern-compile_patterns invalid_ignore scan_policy.ignore ig path ci,
          matching_pattern-compile_patterns invalid_prune scan_policy.prune pr path cp,
        )
        refl
