-- ===== src/Scan/Walk/Laws.antt =====
-- The narrowed window holds exactly the rules at or under the path.
use duet.Prelude.{
  ℕ, zero, suc, ◌+◌, ◌-◌, ◌≤◌, ◌<◌, ◌&&◌, Bool, true, false, leb, ltb, if◌then◌else◌, some, List,
  [], ◌∷◌, get_elem?, length, ◌≡◌, refl, arith, Bool-cases, inl, inr, subst, sym,
}
use duet.Ord.{◌≺◌}
use duet.Ord.Lexicographic.{list_ord, starts_with, extensions_between, extension-not_below}
use duet.FilePath.{FilePath, component_ord}
use duet.Sorted.{IsSorted, Above}
use duet.Scan.Location.{Location, location_path}
use duet.Scan.Walk.{
  ParentFromTo, rule_at, under_path, skip_before, extend_to, narrow_parent_from_to,
}

module _ (under : ℕ → Bool) where
  skip_before_lem :
      (n from : ℕ)
      → (from ≤ skip_before under n from)
        × (skip_before under n from ≤ from + n)
        × ((i : ℕ) → from ≤ i → i < skip_before under n from → under i ≡ false)
        × (skip_before under n from < from + n → under (skip_before under n from) ≡ true)
  unfolding skip_before
  skip_before_lem zero from = (
    omega arith,
    omega arith,
    λ i h k. absurd (omega (arith, h, k)),
    λ h. absurd (omega (arith, h)),
  )
  skip_before_lem (suc n) from = elim (Bool-cases (under from)) [
    | inl y ↦
        rw (y, skip_before)
          (omega arith, omega arith, λ i h k. absurd (omega (arith, h, k)), λ h. y)
    | inr f ↦
        let (a, b, c, d) = skip_before_lem n (from + 1) in
        rw (f, skip_before)
          (
            omega (arith, a),
            omega (arith, b),
            λ i h k. grind (arith, f, h, k, c i),
            λ h. d (omega (arith, h)),
          )
  ]

  extend_to_lem :
      (n to : ℕ)
      → (to ≤ extend_to under n to)
        × (extend_to under n to ≤ to + n)
        × ((i : ℕ) → to < i → i ≤ extend_to under n to → under i ≡ true)
        × (extend_to under n to < to + n → under (extend_to under n to + 1) ≡ false)
  unfolding extend_to
  extend_to_lem zero to = (
    omega arith,
    omega arith,
    λ i h k. absurd (omega (arith, h, k)),
    λ h. absurd (omega (arith, h)),
  )
  extend_to_lem (suc n) to = elim (Bool-cases (under (to + 1))) [
    | inr f ↦
        rw (f, extend_to) (omega arith, omega arith, λ i h k. absurd (omega (arith, h, k)), λ h. f)
    | inl y ↦
        let (a, b, c, d) = extend_to_lem n (to + 1) in
        rw (y, extend_to)
          (
            omega (arith, a),
            omega (arith, b),
            λ i h k. grind (arith, y, h, k, c i),
            λ h. d (omega (arith, h)),
          )
  ]

Above-get :
    (p : FilePath) (l : List Location) (i : ℕ) (a : Location)
    → Above location_path p l
    → get_elem? l i ≡ some a
    → p ≺ location_path a
Above-get p [] i a h e = cc
Above-get p (x ∷ l) zero a h e = let q : x ≡ a = cc in subst (λ z. p ≺ location_path z) q h.0
Above-get p (x ∷ l) (suc i) a h e = Above-get p l i a h.1 e

IsSorted-get :
    (l : List Location) (i j : ℕ) (a b : Location)
    → IsSorted location_path l
    → i < j
    → get_elem? l i ≡ some a
    → get_elem? l j ≡ some b
    → location_path a ≺ location_path b
IsSorted-get [] i j a b s h e f = cc
IsSorted-get (x ∷ l) zero zero a b s h e f = absurd (omega (arith, h))
IsSorted-get (x ∷ l) zero (suc j) a b s h e f =
    let q : x ≡ a = cc in
    subst (λ z. location_path z ≺ location_path b) q (Above-get (location_path x) l j b s.0 f)
IsSorted-get (x ∷ l) (suc i) zero a b s h e f = absurd (omega (arith, h))
IsSorted-get (x ∷ l) (suc i) (suc j) a b s h e f = IsSorted-get l i j a b s.1 (omega (arith, h)) e f

get_of_lt : (l : List Location) (i : ℕ) → i < length l → (a : Location) × (get_elem? l i ≡ some a)
get_of_lt [] i h = absurd (omega (arith, h))
get_of_lt (x ∷ l) zero h = (x, refl)
get_of_lt (x ∷ l) (suc i) h = get_of_lt l i (omega (arith, h))

-- Between two rules under a path every rule is under it.
under_between :
    (path : FilePath) (l : List Location) (i j k : ℕ)
    → IsSorted location_path l
    → i < j
    → j < k
    → k < length l
    → under_path path l i ≡ true
    → under_path path l k ≡ true
    → under_path path l j ≡ true
unfolding rule_at
under_between path l i j k s h h' h'' u v =
    let (a, ea) = get_of_lt l i (omega (arith, h, h', h'')) in
    let (b, eb) = get_of_lt l j (omega (arith, h', h'')) in
    let (c, ec) = get_of_lt l k h'' in
    let ab = IsSorted-get l i j a b s h ea eb in
    let bc = IsSorted-get l j k b c s h' eb ec in
    let ua : starts_with (location_path a) path ≡ true = ground (arith, u, ea) in
    let uc : starts_with (location_path c) path ≡ true = ground (arith, v, ec) in
    let ub =
      extensions_between path (location_path b) (location_path c) uc
        (λ g.
          extension-not_below (location_path a) path ua
            (list_ord.lt_trans _ _ _ ab (list_ord.lt_of_gt path (location_path b) g)))
        (λ g. cc) in
    ground (arith, eb, ub)

none_after :
    (path : FilePath) (l : List Location) (f e i : ℕ)
    → IsSorted location_path l
    → under_path path l f ≡ true
    → under_path path l (e + 1) ≡ false
    → f ≤ e
    → e < i
    → i < length l
    → under_path path l i ≡ false
none_after path l f e i s first next h past inside = elim (Bool-cases (under_path path l i)) [
  | inr n ↦ n
  | inl y ↦ elim (Bool-cases (ltb (e + 1) i)) [
    | inl far ↦
        let between =
          under_between path l f (e + 1) i s (omega (arith, h)) (ground (arith, far)) inside first
            y in
        cc
    | inr near ↦
        let at_next : i ≡ e + 1 = ground (arith, near, past) in
        subst (λ k. under_path path l k ≡ false) (sym at_next) next
  ]
]

narrowed :
    (under : ℕ → Bool) (first last f e i : ℕ)
    → first ≤ i
    → i ≤ last
    → f ≤ last + 1
    → (i < f → under i ≡ false)
    → (f ≤ last → (f ≤ e) × (e ≤ last))
    → (f ≤ last → under f ≡ true)
    → (f < i → i ≤ e → under i ≡ true)
    → (f ≤ last → e < i → under i ≡ false)
    → under i ≡ (leb f i && leb i (if leb f last then e else last))
narrowed under first last f e i a b c skipped range found inside outside =
    grind (arith, a, b, c, skipped, range, found, inside, outside)

-- Rules in strictly increasing path order and a window that ends inside them: of the rules in the
-- window, those at or under the path are exactly the ones in the narrowed window.
pub narrow_parent_from_to_lem :
    (pft : ParentFromTo) (path : FilePath) (locations : List Location) (i : ℕ)
    → IsSorted location_path locations
    → pft.to < length locations
    → pft.from ≤ i
    → i ≤ pft.to
    → under_path path locations i ≡ (
        leb (narrow_parent_from_to pft path locations).from i
        && leb i (narrow_parent_from_to pft path locations).to)
unfolding narrow_parent_from_to
narrow_parent_from_to_lem pft path locations i s inside lo hi =
    let under = under_path path locations in
    let f = skip_before under (pft.to + 1 - pft.from) pft.from in
    let e = extend_to under (pft.to - f) f in
    let (a, b, c, d) = skip_before_lem under (pft.to + 1 - pft.from) pft.from in
    let (a', b', c', d') = extend_to_lem under (pft.to - f) f in
    let found : f ≤ pft.to → under f ≡ true = (λ h. d (omega (arith, h, lo, hi))) in
    let main =
      narrowed under pft.from pft.to f e i lo hi (omega (arith, b, lo, hi)) (c i lo)
        (λ h. (a', omega (arith, b', h))) found (c' i)
        (λ h past.
          none_after path locations f e i s (found h) (d' (omega (arith, h, past, hi))) a' past
            (omega (arith, hi, inside))) in
    ground (arith, main)
