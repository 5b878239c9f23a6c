-- ===== src/FilePath/Spelling/Join.antt =====
-- The components of a joined path.
use duet.Prelude.{
  ℕ, List, [], ◌∷◌, ◌++◌, ◌==◌, ==_iff, Option, none, some, filter_map, append_assoc, append-nil,
  subst, sym, if◌then◌else◌, push_some, ◌≡◌, ◌⊎◌, refl, Bool-cases, inl, inr,
}
use duet.FilePath.{FilePath, Component, root_dir, cur_dir}
use duet.FilePath.Spelling.{
  RawPath, slash, split, component, with_separator, is_empty, leading, false, is_dot, components,
  join, is_absolute,
}
use duet.FilePath.Spelling.Laws.{split-cons}

split-join : (front back : RawPath) → split (front ++ slash ∷ back) ≡ split front ++ split back
unfolding split
split-join [] back = refl
split-join (byte ∷ front) back = elim (Bool-cases (byte == slash)) [
  | inl y ↦ rw (y, split-join front back) refl
  | inr n ↦ (let (part, rest, e) = split-cons front in rw (n, split-join front back, e) refl)
]

filter_map-append :
    (front back : List (List ℕ))
    → filter_map component (front ++ back) ≡ filter_map component front ++ filter_map component back
filter_map-append [] back = refl
filter_map-append (part ∷ front) back =
    rw (filter_map-append front back) (push_some-append (component part) _ _)
  where
    push_some-append :
        (found : Option Component) (front back : FilePath)
        → push_some found (front ++ back) ≡ push_some found front ++ back
    push_some-append none front back = refl
    push_some-append (some c) front back = refl

-- A base ends with a slash already, or gets one.
with_separator-cases :
    (byte : ℕ) (rest : RawPath)
    → (front : RawPath) × (with_separator (byte ∷ rest) ≡ front ++ slash ∷ [])
      × ((byte ∷ rest ≡ front) ⊎ (byte ∷ rest ≡ front ++ slash ∷ []))
unfolding with_separator
with_separator-cases byte [] = elim (Bool-cases (byte == slash)) [
  | inl y ↦ ([], rw (y, (==_iff byte slash).0 y) refl, inr (rw ((==_iff byte slash).0 y) refl))
  | inr n ↦ (byte ∷ [], rw n refl, inl refl)
]
with_separator-cases byte (next ∷ rest) =
    let (front, e, c) = with_separator-cases next rest in
    (byte ∷ front, rw e refl, elim c [ inl f ↦ inl (rw f refl) | inr f ↦ inr (rw f refl) ])

-- What the first part of several becomes.
start : List ℕ → FilePath
start [] = root_dir ∷ []
start (byte ∷ bytes) =
    if is_dot (byte ∷ bytes) then cur_dir ∷ [] else filter_map component ((byte ∷ bytes) ∷ [])

-- The parts of some bytes, not of the empty path.
HasStart : List (List ℕ) → Type 0
HasStart parts =
    (part : List ℕ) × (rest : List (List ℕ)) × (parts ≡ part ∷ rest)
    × ((is_empty part ≡ false)
        ⊎ ((next : List ℕ) × (others : List (List ℕ)) × (rest ≡ next ∷ others)))

leading-start :
    (part : List ℕ) (parts : List (List ℕ))
    → (is_empty part ≡ false) ⊎ ((next : List ℕ) × (rest : List (List ℕ)) × (parts ≡ next ∷ rest))
    → leading (part ∷ parts) ≡ start part ++ filter_map component parts
unfolding leading start
leading-start [] parts (inl e) = cc
leading-start [] parts (inr (next, rest, e)) = rw e refl
leading-start (byte ∷ bytes) parts h = elim (Bool-cases (is_dot (byte ∷ bytes))) [
  | inl y ↦ rw y refl
  | inr n ↦ rw n (filter_map-append ((byte ∷ bytes) ∷ []) parts)
]

leading-append :
    (front back : List (List ℕ))
    → HasStart front
    → leading (front ++ back) ≡ leading front ++ filter_map component back
unfolding HasStart
leading-append front back (part, parts, e, h) =
    rw
      (
        e,
        leading-start part parts h,
        leading-start part (parts ++ back) (longer h),
        filter_map-append parts back,
      )
      (sym (append_assoc (start part) (filter_map component parts) (filter_map component back)))
  where
    longer :
        (is_empty part ≡ false)
          ⊎ ((next : List ℕ) × (others : List (List ℕ)) × (parts ≡ next ∷ others))
        → (is_empty part ≡ false)
          ⊎ ((next : List ℕ) × (others : List (List ℕ)) × (parts ++ back ≡ next ∷ others))
    longer (inl e) = inl e
    longer (inr (next, others, e)) = inr (next, others ++ back, rw e refl)

split-HasStart : (byte : ℕ) (rest : RawPath) → HasStart (split (byte ∷ rest))
unfolding split HasStart
split-HasStart byte rest =
    let (part, parts, e) = split-cons rest in
    elim (Bool-cases (byte == slash)) [
      | inl y ↦ rw (y, e) ([], part ∷ parts, refl, inr (part, parts, refl))
      | inr n ↦ rw (n, e) (byte ∷ part, parts, refl, inl refl)
    ]

last-part : filter_map component (split []) ≡ []
unfolding split component
last-part = refl

-- `front` and a slash, read as a base for more parts.
components-slash :
    (front path : RawPath)
    → leading (split front ++ split path)
      ≡ components (front ++ slash ∷ []) ++ filter_map component (split path)
components-slash [] path =
    unfold split leading component components in
    (let (part, parts, e) = split-cons path in rw e refl)
components-slash (byte ∷ rest) path =
    unfold components in
    rw
      (
        split-join (byte ∷ rest) [],
        leading-append (split (byte ∷ rest)) (split path) (split-HasStart byte rest),
        leading-append (split (byte ∷ rest)) (split []) (split-HasStart byte rest),
        last-part,
        append-nil (leading (split (byte ∷ rest))),
      )
      refl

-- Under a base that is not empty, a relative path's parts follow the components of the base.
pub components-join :
    (byte : ℕ) (rest path : RawPath)
    → is_absolute path ≡ false
    → components (join (byte ∷ rest) path)
      ≡ components (byte ∷ rest) ++ filter_map component (split path)
unfolding join components
components-join byte rest path h =
    let (front, e, c) = with_separator-cases byte rest in
    rw (h, e, append_assoc front (slash ∷ []) path, split-join front path)
      (elim c [
        | inl f ↦
            subst
              (λ base.
                leading (split base ++ split path)
                ≡ components (byte ∷ rest) ++ filter_map component (split path))
              f (leading-append (split (byte ∷ rest)) (split path) (split-HasStart byte rest))
        | inr f ↦
            subst
              (λ base.
                leading (split front ++ split path)
                ≡ components base ++ filter_map component (split path))
              (sym f) (components-slash front path)
      ])
