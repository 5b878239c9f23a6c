-- ===== src/Sync/Blockers/Inherit.antt =====
-- The longest rule is the nearest one: that of the path itself or of its closest ancestor that has one.
use duet.Prelude.{
  ℕ, [], ◌∷◌, ◌++◌, append_assoc, length-append, suc, true, Option, none, some, length, ◌≤◌, ◌≡◌,
  ◌⊎◌, refl, ◌∙◌, ap, subst, arith, inl, inr, Option-cases, Bool-cases, List, sym, ◌&&◌,
}
use duet.Ord.Lexicographic.{list_ord, starts_with, starts_with_append}
use duet.Ord.{◌=?◌, =?_iff}
use duet.Sorted.{IsSorted, find, find-key}
use duet.Sync.Blockers.Nearest.{AtMost, longest, longest-find, longest-origin}
use duet.FilePath.{FilePath, Component, component_ord}
use duet.Scan.Location.{Location, location_path}

abbrev or_else : Option Location → Option Location → Option Location
or_else none found = found
or_else (some l) found = some l

-- The walk down from an ancestor: at each step the rule of the path reached, if there is one, replaces
-- the rule inherited.
pub inherit : (FilePath → Option Location) → Option Location → FilePath → FilePath → Option Location
inherit rule found at [] = found
inherit rule found at (c ∷ rest) =
    inherit rule (or_else (rule (at ++ c ∷ [])) found) (at ++ c ∷ []) rest

-- The rule of the closest ancestor, the path itself included.
pub nearest : (FilePath → Option Location) → FilePath → Option Location
nearest rule path = inherit rule (rule []) [] path

starts_with-split :
    (path q : FilePath) → starts_with path q ≡ true → (back : FilePath) × (path ≡ q ++ back)
unfolding starts_with
starts_with-split path [] h = (path, refl)
starts_with-split [] (d ∷ q) h = cc
starts_with-split (c ∷ path) (d ∷ q) h = elim (Bool-cases (c =? d)) [
  | inl y ↦
      (let (back, e) =
          starts_with-split path q (subst (λ t. (t && starts_with path q) ≡ true) y h) in
        (back, rw ((=?_iff c d).0 y, e) refl))
  | inr n ↦ ground arith
]

prefixes :
    (path q r : FilePath)
    → starts_with path q ≡ true
    → starts_with path r ≡ true
    → length q ≡ length r
    → q ≡ r
unfolding starts_with
prefixes path [] [] h k e = refl
prefixes path [] (d ∷ r) h k e = absurd (omega arith)
prefixes path (d ∷ q) [] h k e = absurd (omega arith)
prefixes [] (d ∷ q) (e ∷ r) h k l = cc
prefixes (c ∷ path) (d ∷ q) (e ∷ r) h k l = elim (Bool-cases (c =? d)) [
  | inl y ↦ elim (Bool-cases (c =? e)) [
    | inl z ↦
        (let p : d ≡ e = sym ((=?_iff c d).0 y) ∙ (=?_iff c e).0 z in
          let t =
            prefixes path q r (subst (λ t. (t && starts_with path q) ≡ true) y h)
              (subst (λ t. (t && starts_with path r) ≡ true) z k) (omega arith) in
          rw (p, t) refl)
    | inr n ↦ ground arith
  ]
  | inr n ↦ ground arith
]

length-snoc : (at : FilePath) (c : Component) → length (at ++ c ∷ []) ≡ suc (length at)
length-snoc at c = omega (arith, length-append at (c ∷ []))

module _ (rule : FilePath → Option Location)
    (rule-path : (q : FilePath) (l : Location) → rule q ≡ some l → location_path l ≡ q) where
  or_else-AtMost :
      (q : FilePath) (found : Option Location) (n : ℕ)
      → n ≤ length q
      → AtMost n found
      → AtMost n (or_else (rule q) found)
  or_else-AtMost q found n h a = elim (Option-cases (rule q)) [
    | inl e ↦ rw e a
    | inr (l, e) ↦ rw e (unfold AtMost in rw (rule-path q l e) h)
  ]

  inherit-AtMost :
      (found : Option Location) (at rest : FilePath) (n : ℕ)
      → n ≤ length at
      → AtMost n found
      → AtMost n (inherit rule found at rest)
  unfolding inherit
  inherit-AtMost found at [] n h a = a
  inherit-AtMost found at (c ∷ rest) n h a =
      let longer : n ≤ length (at ++ c ∷ []) = omega (arith, length-snoc at c, h) in
      inherit-AtMost (or_else (rule (at ++ c ∷ [])) found) (at ++ c ∷ []) rest n longer
        (or_else-AtMost (at ++ c ∷ []) found n longer a)

  inherit-rule :
      (found : Option Location) (at front back : FilePath) (c : Component) {l : Location}
      → rule (at ++ c ∷ front) ≡ some l
      → AtMost (length (at ++ c ∷ front)) (inherit rule found at (c ∷ front ++ back))
  unfolding inherit
  inherit-rule found at [] back c {l} h =
      inherit-AtMost (or_else (rule (at ++ c ∷ [])) found) (at ++ c ∷ []) back
        (length (at ++ c ∷ [])) (omega arith)
        (rw h (unfold AtMost in rw (rule-path (at ++ c ∷ []) l h) (omega arith)))
  inherit-rule found at (d ∷ front) back c h =
      subst
        (λ q.
          AtMost (length q)
            (inherit rule (or_else (rule (at ++ c ∷ [])) found) (at ++ c ∷ []) (d ∷ front ++ back)))
        (append_assoc at (c ∷ []) (d ∷ front))
        (inherit-rule (or_else (rule (at ++ c ∷ [])) found) (at ++ c ∷ []) front back d
          (ap rule (append_assoc at (c ∷ []) (d ∷ front)) ∙ h))

  inherit-origin :
      (found : Option Location) (at rest : FilePath)
      → (inherit rule found at rest ≡ found)
        ⊎ ((q : FilePath) × (l : Location) × (inherit rule found at rest ≡ some l)
            × (rule q ≡ some l)
            × (starts_with (at ++ rest) q ≡ true))
  unfolding inherit
  inherit-origin found at [] = inl refl
  inherit-origin found at (c ∷ rest) =
      elim (inherit-origin (or_else (rule (at ++ c ∷ [])) found) (at ++ c ∷ []) rest) [
        | inl e ↦ elim (Option-cases (rule (at ++ c ∷ []))) [
          | inl f ↦ inl (e ∙ (rw f refl))
          | inr (l, f) ↦ inr (at ++ c ∷ [], l, e ∙ (rw f refl), f, below)
        ]
        | inr (q, l, e, f, h) ↦
            inr (q, l, e, f, subst (λ p. starts_with p q ≡ true) (append_assoc at (c ∷ []) rest) h)
      ]
    where
      below : starts_with (at ++ c ∷ rest) (at ++ c ∷ []) ≡ true
      below =
          subst (λ p. starts_with p (at ++ c ∷ []) ≡ true) (append_assoc at (c ∷ []) rest)
            (starts_with_append (at ++ c ∷ []) rest)

  nearest-rule :
      (path q : FilePath) {l : Location}
      → starts_with path q ≡ true
      → rule q ≡ some l
      → AtMost (length q) (nearest rule path)
  unfolding nearest
  nearest-rule path [] {l} h f =
      inherit-AtMost (rule []) [] path 0 (omega arith) (rw f (unfold AtMost in omega arith))
  nearest-rule path (c ∷ front) h f =
      let (back, e) = starts_with-split path (c ∷ front) h in
      subst (λ p. AtMost (length (c ∷ front)) (inherit rule (rule []) [] p)) (sym e)
        (inherit-rule (rule []) [] front back c f)

  nearest-origin :
      (path : FilePath)
      → (nearest rule path ≡ none)
        ⊎ ((q : FilePath) × (l : Location) × (nearest rule path ≡ some l)
            × (rule q ≡ some l)
            × (starts_with path q ≡ true))
  unfolding nearest
  nearest-origin path = elim (inherit-origin (rule []) [] path) [
    | inr found ↦ inr found
    | inl e ↦ elim (Option-cases (rule [])) [
      | inl f ↦ inl (e ∙ f)
      | inr (l, f) ↦ inr ([], l, e ∙ f, f, starts_with_append [] path)
    ]
  ]

AtMost-some :
    (n : ℕ) {o : Option Location} {l : Location}
    → o ≡ some l
    → AtMost n o
    → n ≤ length (location_path l)
unfolding AtMost
AtMost-some n {o} {l} e h = subst (AtMost n) e h

AtMost-none : {A : Type 0} (n : ℕ) {o : Option Location} → o ≡ none → AtMost n o → A
AtMost-none {A} n {o} e h = absurd (unfold AtMost in subst (AtMost n) e h)

-- Over rules in path order, the rule with the longest path among those at ancestors of a path is the
-- one that the path inherits on the way down to it.
pub longest-nearest :
    (path : FilePath) (locations : List Location)
    → IsSorted location_path locations
    → longest path none locations ≡ nearest (λ q. find location_path q locations) path
longest-nearest path locations s = elim (longest-origin path none locations s) [
  | inl e ↦ elim (nearest-origin rule rule-path path) [
    | inl f ↦ e ∙ sym f
    | inr (q, l, f, g, h) ↦ AtMost-none (length q) e (longest-find path none locations q h g)
  ]
  | inr (l, e, h, g) ↦ elim (nearest-origin rule rule-path path) [
    | inl f ↦
        AtMost-none (length (location_path l)) f
          (nearest-rule rule rule-path path (location_path l) h g)
    | inr (q, m, f, g', h') ↦
        (let a = AtMost-some (length q) e (longest-find path none locations q h' g') in
          let b =
            AtMost-some (length (location_path l)) f
              (nearest-rule rule rule-path path (location_path l) h g) in
          let p = rule-path q m g' in
          let same = prefixes path q (location_path l) h' h (omega (arith, a, b, ap length p)) in
          let r : some m ≡ some l = sym g' ∙ ap rule same ∙ g in e ∙ sym r ∙ sym f)
  ]
]
  where
    rule : FilePath → Option Location
    rule q = find location_path q locations

    rule-path : (q : FilePath) (l : Location) → rule q ≡ some l → location_path l ≡ q
    rule-path q l h = find-key location_path q locations h
