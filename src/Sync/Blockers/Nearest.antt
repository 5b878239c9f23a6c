-- ===== src/Sync/Blockers/Nearest.antt =====
-- What `best_location` finds: the rule with the longest path among those at ancestors.
use duet.Prelude.{
  ℕ, List, [], ◌∷◌, Bool, true, false, ◌&&◌, Option, none, some, length, ltb, ◌≤◌, if◌then◌else◌,
  All, ◌≡◌, ◌⊎◌, refl, sym, ◌∙◌, subst, arith, inl, inr, Bool-cases,
}
use duet.Ord.{◌=?◌, =?_iff}
use duet.Ord.Lexicographic.{list_ord, starts_with, starts_with_refl}
use duet.FilePath.{FilePath, component_ord}
use duet.Sorted.{IsSorted, Above, find, find-Above}
use duet.Scan.Location.{Location, location_path}
use duet.Sync.Blockers.{is_base, location_applies, path_specificity, is_better, best_location}

-- A rule for the path is no closer than the one found.
unfoldable pub AtMost : ℕ → Option Location → Type 0
AtMost n none = ⊥
AtMost n (some l) = n ≤ length (location_path l)

abbrev pub IsCanonical : Location → Type 0
IsCanonical l = is_base (location_path l) ≡ false ⊎ (location_path l ≡ [])

location_applies-canonical :
    (l : Location) (path : FilePath)
    → IsCanonical l
    → location_applies (location_path l) path ≡ starts_with path (location_path l)
unfolding location_applies
location_applies-canonical l path (inl e) = elim (Bool-cases (path =? location_path l)) [
  | inl y ↦
      rw (e, y, (=?_iff path (location_path l)).0 y) (sym (starts_with_refl (location_path l)))
  | inr n ↦ rw (e, n) refl
]
location_applies-canonical l path (inr e) = rw e (sym (starts_with-base path))
  where
    starts_with-base : (path : FilePath) → starts_with path [] ≡ true
    starts_with-base path = unfold starts_with in refl

path_specificity-canonical :
    (l : Location) → IsCanonical l → path_specificity (location_path l) ≡ length (location_path l)
unfolding path_specificity
path_specificity-canonical l (inl e) = rw e refl
path_specificity-canonical l (inr e) = rw e refl

-- The choice between a rule and the best one, for canonical rules.
longer : Location → Option Location → Bool
longer l none = true
longer l (some best) = ltb (length (location_path best)) (length (location_path l))

abbrev step : FilePath → Location → Option Location → Option Location
step path l best = if starts_with path (location_path l) && longer l best then some l else best

pub longest : FilePath → Option Location → List Location → Option Location
longest path best [] = best
longest path best (l ∷ locations) = longest path (step path l best) locations

abbrev pub AllCanonical : Option Location → Type 0
AllCanonical none = Unit
AllCanonical (some l) = IsCanonical l

is_better-longer :
    (l : Location) (best : Option Location)
    → IsCanonical l
    → AllCanonical best
    → is_better l best ≡ longer l best
unfolding longer
is_better-longer l none c b = refl
is_better-longer l (some best) c b =
    rw (path_specificity-canonical l c, path_specificity-canonical best b) refl

step-AllCanonical :
    (path : FilePath) (l : Location) (best : Option Location)
    → IsCanonical l
    → AllCanonical best
    → AllCanonical (step path l best)
step-AllCanonical path l best c b =
    elim (Bool-cases (starts_with path (location_path l) && longer l best)) [
      | inl y ↦ rw y c
      | inr n ↦ rw n b
    ]

pub best_location-longest :
    (path : FilePath) (best : Option Location) (locations : List Location)
    → AllCanonical best
    → All IsCanonical locations
    → best_location path best locations ≡ longest path best locations
unfolding best_location longest
best_location-longest path best [] b c = refl
best_location-longest path best (l ∷ locations) b (c, cs) =
    rw (location_applies-canonical l path c, is_better-longer l best c b)
      (best_location-longest path (step path l best) locations (step-AllCanonical path l best c b)
        cs)

step-AtMost :
    (path : FilePath) (l : Location) (best : Option Location) (n : ℕ)
    → AtMost n best
    → AtMost n (step path l best)
unfolding AtMost longer
step-AtMost path l none n h = absurd h
step-AtMost path l (some best) n h = ground arith

step-own :
    (path : FilePath) (l : Location) (best : Option Location)
    → starts_with path (location_path l) ≡ true
    → AtMost (length (location_path l)) (step path l best)
unfolding AtMost longer
step-own path l none h = ground arith
step-own path l (some best) h = ground arith

longest-AtMost :
    (path : FilePath) (best : Option Location) (locations : List Location) (n : ℕ)
    → AtMost n best
    → AtMost n (longest path best locations)
unfolding longest
longest-AtMost path best [] n h = h
longest-AtMost path best (l ∷ locations) n h =
    longest-AtMost path (step path l best) locations n (step-AtMost path l best n h)

-- Every rule at an ancestor is matched by the one found.
pub longest-find :
    (path : FilePath) (best : Option Location) (locations : List Location) (q : FilePath)
    {l : Location}
    → starts_with path q ≡ true
    → find location_path q locations ≡ some l
    → AtMost (length q) (longest path best locations)
unfolding longest find
longest-find path best [] q h f = cc
longest-find path best (x ∷ locations) q {l} h f = elim (Bool-cases (q =? location_path x)) [
  | inl y ↦
      (let e = (=?_iff q (location_path x)).0 y in
        longest-AtMost path (step path x best) locations (length q)
          (rw e (step-own path x best (subst (λ q. starts_with path q ≡ true) e h))))
  | inr n ↦
      longest-find path (step path x best) locations q h
        (subst (λ t. (if t then some x else find location_path q locations) ≡ some l) n f)
]

find-tail :
    (x : Location) (locations : List Location) (q : FilePath) {l : Location}
    → Above location_path (location_path x) locations
    → find location_path q locations ≡ some l
    → find location_path q (x ∷ locations) ≡ some l
unfolding find
find-tail x locations q {l} above f = elim (Bool-cases (q =? location_path x)) [
  | inl y ↦
      (let e = (=?_iff q (location_path x)).0 y in
        let n : find location_path q locations ≡ none =
          rw e (find-Above location_path (location_path x) locations above) in
        absurd (none-some n f))
  | inr n ↦ rw n f
]
  where
    none-some : {o : Option Location} {l : Location} → o ≡ none → o ≡ some l → ⊥
    none-some h k = cc

-- What is found is the rule of an ancestor, or what was there before.
pub longest-origin :
    (path : FilePath) (best : Option Location) (locations : List Location)
    → IsSorted location_path locations
    → (longest path best locations ≡ best)
      ⊎ ((l : Location) × (longest path best locations ≡ some l)
          × (starts_with path (location_path l) ≡ true)
          × (find location_path (location_path l) locations ≡ some l))
unfolding longest
longest-origin path best [] s = inl refl
longest-origin path best (x ∷ locations) (above, s) =
    elim (longest-origin path (step path x best) locations s) [
      | inl e ↦ elim (Bool-cases (starts_with path (location_path x) && longer x best)) [
        | inl y ↦ inr (x, e ∙ (rw y refl), ground arith, own)
        | inr n ↦ inl (e ∙ (rw n refl))
      ]
      | inr (l, e, h, f) ↦ inr (l, e, h, find-tail x locations (location_path l) above f)
    ]
  where
    own : find location_path (location_path x) (x ∷ locations) ≡ some x
    own = unfold find in rw ((=?_iff (location_path x) (location_path x)).1 refl) refl
